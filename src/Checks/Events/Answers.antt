-- ===== src/Checks/Events/Answers.antt =====
-- What `check_events` of src/checker.rs answers, for the sub-histories that it checks.
use mathlib.Core.List.{Memᴰ}
use porcupine_rust.Base.{
  ℕ, ◌≡◌, refl, sym, ◌∙◌, subst, ap, Bool, true, false, Option, none, some, List, [], ◌∷◌, map,
}
use porcupine_rust.Base.Do.{◌>>=◌, some_inj, bind_some}
use porcupine_rust.Types.{Operation, Event, CheckResult}
use porcupine_rust.Entry.{Entry}
use porcupine_rust.Model.{Model, EqIsSound}
use porcupine_rust.Entries.{make_entries, renumber, convert_entries, convert_entries_from_indices}
use porcupine_rust.Entries.Subsets.{select}
use porcupine_rust.Parallel.{Sorts, System, launch, answered}
use porcupine_rust.Parallel.Safety.{Reach}
use porcupine_rust.Assertions.{
  assert_well_formed_events, assert_partition_events_paired, assert_well_formed,
  assert_well_formed_iff,
}
use porcupine_rust.Checks.{
  collect, debug_only, passes, event_partitions, check_events, operation_partitions,
  check_operations,
}
use porcupine_rust.Checks.Operations.{Says, launch-Says}
use porcupine_rust.Checks.Events.{operations_of}
use porcupine_rust.Checks.Events.Pairing.{assert_well_formed_events-Paired}
use porcupine_rust.Checks.Events.Agree.{convert_entries-make_entries}
use porcupine_rust.Checks.Events.Groups.{IsChecked, IsPaired, group, collect-convert_entries}

module _ {S I O : Type 0} (m : Model S I O) where
  -- The groups of events that are checked: the whole history, where the model does not partition it.
  abbrev pub event_groups : List (Event I O) → Option (List (List (Event I O)))
  event_groups history = elim (m.partition_events history) [
    | some parts ↦ collect (select history) parts
    | none ↦ some (history ∷ [])
  ]

  event_partitions-groups :
      (debug : Bool) (history : List (Event I O)) (partitions : List (List (Entry I O)))
      (groups : List (List (Event I O)))
      → event_partitions m debug history ≡ some partitions
      → event_groups history ≡ some groups
      → collect (λ g. convert_entries (renumber g)) groups ≡ some partitions
  unfolding event_partitions
  event_partitions-groups debug history partitions groups e g =
      let (b, first, e') =
        bind_some (debug_only debug (passes (assert_well_formed_events history))) _ partitions e in
      by_partition (m.partition_events history) e' g
    where
      by_partition :
          (o : Option (List (List ℕ)))
          → (elim o [
            | some parts ↦ debug_only debug (assert_partition_events_paired parts history) >>= λ b.
                collect (convert_entries_from_indices history) parts
            | none ↦ convert_entries (renumber history) >>= λ entries. some (entries ∷ [])
          ])
            ≡ some partitions
          → (elim o [ some parts ↦ collect (select history) parts | none ↦ some (history ∷ []) ])
            ≡ some groups
          → collect (λ g. convert_entries (renumber g)) groups ≡ some partitions
      by_partition none x y =
          subst (λ t. collect (λ g. convert_entries (renumber g)) t ≡ some partitions) (some_inj y)
            x
      by_partition (some parts) x y =
          let (b, ok, x') =
            bind_some (debug_only debug (assert_partition_events_paired parts history)) _ partitions
              x in
          collect-convert_entries history parts partitions groups x' y

  -- The answer for groups of paired events.
  pub check_events_paired :
      EqIsSound m
      → (debug : Bool) (sorts : Sorts (List (Entry I O))) (timeout : Bool)
        (history : List (Event I O)) (groups : List (List (Event I O)))
      → event_groups history ≡ some groups
      → ((g : List (Event I O)) → Memᴰ g groups → IsPaired g)
      → {start s : System S I O} {k : ℕ} {r : CheckResult}
      → check_events m debug sorts timeout history ≡ some start
      → Reach m start k s
      → s.phase ≡ answered r
      → (histories : List (List (Operation I O))) × (collect operations_of groups ≡ some histories)
        × Says m histories timeout r
  unfolding check_events
  check_events_paired sound debug sorts timeout history groups g h {start} {s} {k} {r} e reach
        done =
      let (partitions, ep, es) = bind_some (event_partitions m debug history) _ start e in
      let all = group groups h in
      let same : partitions ≡ map make_entries all.histories =
        some_inj
          (sym (event_partitions-groups debug history partitions groups ep g) ∙ all.entries) in
      let starts : start ≡ launch m sorts timeout (map make_entries all.histories) =
        sym (some_inj es) ∙ ap (launch m sorts timeout) same in
      (
        all.histories,
        all.are,
        launch-Says m sound sorts timeout all.histories all.formed all.small
            (subst (λ t. Reach m t k s) starts reach) done,
      )

  -- For sound equality of states, and groups of events that the assertion lets pass and that are
  -- small enough for 32-bit indices, with a timeout or without, and whatever order the threads take:
  -- each group is the events of a history of operations, and where `check_events` answers ok, each of
  -- these histories is linearizable, where it answers illegal, one is not, and where it answers
  -- unknown, there was a timeout.
  pub check_events_sound :
      EqIsSound m
      → (debug : Bool) (sorts : Sorts (List (Entry I O))) (timeout : Bool)
        (history : List (Event I O)) (groups : List (List (Event I O)))
      → event_groups history ≡ some groups
      → ((g : List (Event I O)) → Memᴰ g groups → IsChecked g)
      → {start s : System S I O} {k : ℕ} {r : CheckResult}
      → check_events m debug sorts timeout history ≡ some start
      → Reach m start k s
      → s.phase ≡ answered r
      → (histories : List (List (Operation I O))) × (collect operations_of groups ≡ some histories)
        × Says m histories timeout r
  check_events_sound sound debug sorts timeout history groups g h =
      check_events_paired sound debug sorts timeout history groups g
        (λ x at. let (ok, fits) = h x at in (assert_well_formed_events-Paired x ok, fits))

  debug_passes :
      {A : Type 0} (debug : Bool) (x : A) → (b : Bool) × (debug_only debug (some x) ≡ some b)
  debug_passes true x = (true, refl)
  debug_passes false x = (false, refl)

  -- Where the model does not partition histories and the assertion lets the events pass, the check of
  -- the events starts as the check of the operations in them does, with debug assertions or without.
  pub check_events-check_operations :
      (events : List (Event I O))
      → assert_well_formed_events events ≡ true
      → m.partition_events events ≡ none
      → ((ops : List (Operation I O)) → m.partition ops ≡ none)
      → (ops : List (Operation I O)) × (operations_of events ≡ some ops)
        × ((debug : Bool) (sorts : Sorts (List (Entry I O))) (timeout : Bool)
            → check_events m debug sorts timeout events
              ≡ check_operations m debug sorts timeout ops)
  unfolding check_events event_partitions check_operations operation_partitions
  check_events-check_operations events ok whole undivided =
      let (ops, are, formed, converts, long) = convert_entries-make_entries events ok in
      let ok' : assert_well_formed ops ≡ true = (assert_well_formed_iff ops).1 formed in
      (
        ops,
        are,
        λ debug sorts timeout.
            let (b, pass) = debug_passes {A = Bool} debug true in
            rw (ok, ok', whole, undivided ops, converts, pass) refl,
      )
