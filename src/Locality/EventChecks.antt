-- ===== src/Locality/EventChecks.antt =====
-- What `check_events` of src/checker.rs answers where the model's partitions are the keys.
use mathlib.Core.List.{Memᴰ}
use mathlib.Core.List.Memᴰ
use porcupine_rust.Base.{
  ℕ, ◌<◌, ◌≡◌, refl, sym, ◌∙◌, subst, arith, Bool, true, some, List, [], ◌∷◌, map, length,
}
use porcupine_rust.Base.Do.{some_inj}
use porcupine_rust.Types.{Operation, Event, CheckResult}
use porcupine_rust.Model.{Model, EqIsSound}
use porcupine_rust.Entry.{Entry}
use porcupine_rust.Arena.{no_ref}
use porcupine_rust.Checker.Linearizable.{Linearizable}
use porcupine_rust.Parallel.{Sorts, System, answered}
use porcupine_rust.Parallel.Safety.{Reach}
use porcupine_rust.Assertions.{assert_well_formed_events}
use porcupine_rust.Checks.{collect, check_events}
use porcupine_rust.Checks.Operations.{Says}
use porcupine_rust.Checks.Events.{operations_of}
use porcupine_rust.Checks.Events.Pairing.{assert_well_formed_events-Paired}
use porcupine_rust.Checks.Events.Agree.{Paired-make_entries}
use porcupine_rust.Checks.Events.Answers.{event_groups, check_events_paired}
use porcupine_rust.Checks.Events.Groups.{IsPaired}
use porcupine_rust.Locality.{with_key}
use porcupine_rust.Locality.Keys.{length-with_key}
use porcupine_rust.Locality.Checks.{
  by_key, positions_by_key, collect-positions, KeyedSays, Says-KeyedSays,
}
use porcupine_rust.Locality.Independent.{IsIndependent, WholeSays, KeyedSays-WholeSays}
use porcupine_rust.Locality.Ranks.{rank, rank_mono, retime}
use porcupine_rust.Locality.Ids.{input_key, KeysAgree, has_id}
use porcupine_rust.Locality.Chosen.{chosen}
use porcupine_rust.Locality.Retimed.{Linearizable-retime_iff}
use porcupine_rust.Locality.Paired.{Paired-part}

module _ {S I O : Type 0} (m : Model S I O) (key : I → ℕ) (key_of : ℕ → ℕ) where
  abbrev id_key : Event I O → ℕ
  id_key ev = key_of ev.id

  module _ (history : List (Event I O)) (ops : List (Operation I O))
      (agree : KeysAgree key key_of history) (are : operations_of history ≡ some ops) where
    -- The operations in the events of a key.
    abbrev part : ℕ → List (Operation I O)
    part k = map (retime (rank key_of k history)) (with_key (input_key key key_of) k ops)

    collect-parts :
        (keys : List ℕ) → collect operations_of (by_key id_key history keys) ≡ some (map part keys)
    collect-parts [] = refl
    collect-parts (k ∷ keys) =
        rw ((chosen key key_of history ops agree are k).0, collect-parts keys) refl

    Says-parts :
        (keys : List ℕ) (timeout : Bool) (r : CheckResult)
        → Says m (map part keys) timeout r
        → Says m (by_key (input_key key key_of) ops keys) timeout r
    Says-parts keys timeout CheckResult.ok says = λ l at.
        let (k, was, is) = Memᴰ.of_map (λ k. with_key (input_key key key_of) k ops) keys at in
        subst (λ t. Linearizable m m.init t) is
          ((Linearizable-retime_iff m (rank key_of k history) (rank_mono key_of k history)
              (with_key (input_key key key_of) k ops)
              (chosen key key_of history ops agree are k).1).0
            (says (part k) (Memᴰ.map part was)))
    Says-parts keys timeout CheckResult.illegal (l, at, bad) =
        let (k, was, is) = Memᴰ.of_map part keys at in
        (
          with_key (input_key key key_of) k ops,
          Memᴰ.map (λ k. with_key (input_key key key_of) k ops) was,
          λ d. bad (
              subst (λ t. Linearizable m m.init t) is
                ((Linearizable-retime_iff m (rank key_of k history) (rank_mono key_of k history)
                    (with_key (input_key key key_of) k ops)
                    (chosen key key_of history ops agree are k).1).1
                  d)),
        )
    Says-parts keys timeout CheckResult.unknown says = says

  -- For sound equality of states and events that the assertion lets pass, few enough for 32-bit
  -- indices, where the model partitions the events by the keys of their ids, the keys of the calls'
  -- inputs, with a timeout or without, and whatever order the threads take: the events hold a history
  -- of operations, and where `check_events` answers ok, it is linearizable over the parts of the keys,
  -- where it answers illegal, it is not, and where it answers unknown, there was a timeout.
  pub check_events-KeyedSays :
      EqIsSound m
      → (debug : Bool) (sorts : Sorts (List (Entry I O))) (timeout : Bool)
        (history : List (Event I O)) (keys : List ℕ)
      → m.partition_events history ≡ some (positions_by_key id_key history keys)
      → ((ev : Event I O) → Memᴰ ev history → Memᴰ (key_of ev.id) keys)
      → KeysAgree key key_of history
      → assert_well_formed_events history ≡ true
      → length history < no_ref
      → {start s : System S I O} {k : ℕ} {r : CheckResult}
      → check_events m debug sorts timeout history ≡ some start
      → Reach m start k s
      → s.phase ≡ answered r
      → (ops : List (Operation I O)) × (operations_of history ≡ some ops)
        × KeyedSays m (input_key key key_of) ops timeout r
  check_events-KeyedSays sound debug sorts timeout history keys parts covers agree ok fits {r = r} e
        reach done =
      let paired = assert_well_formed_events-Paired history ok in
      let (ops, are, formed, converts, long) = Paired-make_entries history paired in
      let groups : event_groups m history ≡ some (by_key id_key history keys) =
        rw (parts, event_groups) (collect-positions id_key history keys) in
      let paired_parts : (g : List (Event I O)) → Memᴰ g (by_key id_key history keys) → IsPaired g =
        λ g at.
          let (k, _, is) = Memᴰ.of_map (λ k. with_key id_key k history) keys at in
          let le = length-with_key id_key k history in
          subst IsPaired is (Paired-part key_of k paired, omega (arith, le, fits)) in
      let (histories, same, says) =
        check_events_paired m sound debug sorts timeout history (by_key id_key history keys) groups
          paired_parts e reach done in
      let known : histories ≡ map (part history ops agree are) keys =
        some_inj (sym same ∙ collect-parts history ops agree are keys) in
      (
        ops,
        are,
        Says-KeyedSays m (input_key key key_of) ops keys timeout r
            (λ op at.
              let (ev, was, is) = has_id key key_of history ops op agree are at in
              subst (λ k. Memᴰ k keys) is (covers ev was))
            (Says-parts history ops agree are keys timeout r
              (subst (λ l. Says m l timeout r) known says)),
      )

  -- For such events and partitions, where what a state has for a key falls apart from the rest, the
  -- answers speak of linearizability of the whole history under the model itself.
  pub check_events-WholeSays :
      {V : Type 0} (view : S → ℕ → V)
      → EqIsSound m
      → IsIndependent m (input_key key key_of) view
      → (debug : Bool) (sorts : Sorts (List (Entry I O))) (timeout : Bool)
        (history : List (Event I O)) (keys : List ℕ)
      → m.partition_events history ≡ some (positions_by_key id_key history keys)
      → ((ev : Event I O) → Memᴰ ev history → Memᴰ (key_of ev.id) keys)
      → KeysAgree key key_of history
      → assert_well_formed_events history ≡ true
      → length history < no_ref
      → {start s : System S I O} {k : ℕ} {r : CheckResult}
      → check_events m debug sorts timeout history ≡ some start
      → Reach m start k s
      → s.phase ≡ answered r
      → (ops : List (Operation I O)) × (operations_of history ≡ some ops)
        × WholeSays m (input_key key key_of) view ops timeout r
  check_events-WholeSays view sound apart debug sorts timeout history keys parts covers agree ok
        fits {r = r} e reach is =
      let (ops, are, says) =
        check_events-KeyedSays sound debug sorts timeout history keys parts covers agree ok fits e
          reach is in
      (ops, are, KeyedSays-WholeSays m (input_key key key_of) view apart ops timeout r says)
