-- ===== src/Checks/Events/Groups.antt =====
-- The histories of operations in the groups of events that are checked.
use mathlib.Core.List.{Memᴰ}
use mathlib.Core.List.Memᴰ
use porcupine_rust.Base.{
  ℕ, ◌*◌, ◌<◌, ◌≡◌, refl, sym, ◌∙◌, subst, arith, true, some, List, [], ◌∷◌, map, length, inl, inr,
}
use porcupine_rust.Base.Do.{some_inj, bind_some}
use porcupine_rust.Types.{Operation, Event}
use porcupine_rust.Entry.{Entry}
use porcupine_rust.Arena.{no_ref}
use porcupine_rust.Entries.{make_entries, renumber, convert_entries, convert_entries_from_indices}
use porcupine_rust.Entries.Subsets.{select, convert_entries_from_indices-select}
use porcupine_rust.Entries.Histories.{IsWellFormed, length-sorted}
use porcupine_rust.Assertions.{assert_well_formed_events}
use porcupine_rust.Checks.{collect}
use porcupine_rust.Checks.Events.{operations_of, Paired}
use porcupine_rust.Checks.Events.Agree.{convert_entries-make_entries, Paired-make_entries}

module _ {I O : Type 0} where
  -- The histories of operations in groups of events.
  pub record Grouped (groups : List (List (Event I O))) : Type 0 where
    pub histories : List (List (Operation I O))
    pub are : collect operations_of groups ≡ some histories
    pub entries :
        collect (λ g. convert_entries (renumber g)) groups ≡ some (map make_entries histories)
    pub formed : (ops : List (Operation I O)) → Memᴰ ops histories → IsWellFormed ops
    pub small : (ops : List (Operation I O)) → Memᴰ ops histories → 2 * length ops < no_ref

  pub count : (ops : List (Operation I O)) → length (make_entries ops) ≡ 2 * length ops
  unfolding make_entries
  count ops = length-sorted 0 ops

  -- Where the assertion passes, the operations are well-formed, and half as many as the events.
  pub operations_of-IsWellFormed :
      (events : List (Event I O))
      → assert_well_formed_events events ≡ true
      → (ops : List (Operation I O)) × (operations_of events ≡ some ops)
        × IsWellFormed ops
        × (2 * length ops ≡ length events)
  operations_of-IsWellFormed events ok =
      let (ops, are, formed, _, long) = convert_entries-make_entries events ok in
      (ops, are, formed, sym (count ops) ∙ long)

  -- The assertion passes, and the indices of the nodes fit into 32 bits.
  abbrev pub IsChecked : List (Event I O) → Type 0
  IsChecked g = (assert_well_formed_events g ≡ true) × (length g < no_ref)

  -- Calls and returns are paired, and the indices of the nodes fit into 32 bits.
  abbrev pub IsPaired : List (Event I O) → Type 0
  IsPaired g = Paired (record { ids = []; next_id = 0 }) g × (length g < no_ref)

  pub group :
      (groups : List (List (Event I O)))
      → ((g : List (Event I O)) → Memᴰ g groups → IsPaired g)
      → Grouped groups
  group [] h = record {
    histories = [];
    are = refl;
    entries = refl;
    formed = λ ops at. absurd (Memᴰ.not-nil at);
    small = λ ops at. absurd (Memᴰ.not-nil at);
  }
  group (g ∷ groups) h =
      let (ok, fits) = h g (Memᴰ.head refl) in
      let (ops, are, formed, converts, long) = Paired-make_entries g ok in
      let rest = group groups (λ x at. h x (Memᴰ.tail at)) in
      let few : 2 * length ops < no_ref = omega (arith, count ops, long, fits) in
      record {
        histories = ops ∷ rest.histories;
        are = rw (are, rest.are) refl;
        entries = rw (converts, rest.entries) refl;
        formed =
            λ x at. elim (Memᴰ.cases_cons at) [ inl e ↦ rw e formed | inr q ↦ rest.formed x q ];
        small = λ x at. elim (Memᴰ.cases_cons at) [ inl e ↦ rw e few | inr q ↦ rest.small x q ];
      }

  -- The entries of the partitions are those of the groups of events that they select.
  pub collect-convert_entries :
      (history : List (Event I O)) (parts : List (List ℕ)) (partitions : List (List (Entry I O)))
      (groups : List (List (Event I O)))
      → collect (convert_entries_from_indices history) parts ≡ some partitions
      → collect (select history) parts ≡ some groups
      → collect (λ g. convert_entries (renumber g)) groups ≡ some partitions
  collect-convert_entries history [] partitions groups e g =
      subst (λ t. collect (λ g. convert_entries (renumber g)) t ≡ some partitions) (some_inj g) e
  collect-convert_entries history (part ∷ parts) partitions groups e g =
      let (p, at, e') = bind_some (convert_entries_from_indices history part) _ partitions e in
      let (ps, ats, e'') =
        bind_some (collect (convert_entries_from_indices history) parts) _ partitions e' in
      let (evs, ag, g') = bind_some (select history part) _ groups g in
      let (rest, ags, g'') = bind_some (collect (select history) parts) _ groups g' in
      let all = convert_entries_from_indices-select history part in
      let (evs', ag', one) = bind_some (select history part) _ p (sym all ∙ at) in
      let same : evs' ≡ evs = some_inj (sym ag' ∙ ag) in
      let one' : convert_entries (renumber evs) ≡ some p =
        subst (λ t. convert_entries (renumber t) ≡ some p) same one in
      let more = collect-convert_entries history parts ps rest ats ags in
      subst (λ t. collect (λ g. convert_entries (renumber g)) t ≡ some partitions) (some_inj g'')
        (rw (one', more) e'')
