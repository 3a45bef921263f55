-- ===== src/Entries/Subsets.antt =====
-- The entries of a partition are those of the history that its indices select.
use porcupine_rust.Base.{
  ℕ, suc, ◌≡◌, refl, Option, some, List, [], ◌∷◌, get_elem?, inl, inr, Option-cases,
}
use porcupine_rust.Base.Do.{bind_none, ◌>>=◌}
use porcupine_rust.Types.{Operation, Event}
use porcupine_rust.Entries.{
  IdMap, new_id, push_entries, make_entries, push_indexed, make_entries_from_indices, renumber_from,
  renumber, event_value, convert_from, convert_entries, convert_indexed,
  convert_entries_from_indices,
}

-- The elements at the indices; `none` where one is out of range.
abbrev pub select {ℓ} : {A : Type ℓ} → List A → List ℕ → Option (List A)
select l [] = some []
select l (i ∷ indices) = get_elem? l i >>= λ x. select l indices >>= λ rest. some (x ∷ rest)

module _ {I O : Type 0} where
  push_indexed-select :
      (history : List (Operation I O)) (id : ℕ) (indices : List ℕ)
      → push_indexed history id indices
        ≡ (select history indices >>= λ ops. some (push_entries id ops))
  unfolding push_indexed push_entries
  push_indexed-select history id [] = refl
  push_indexed-select history id (i ∷ indices) = elim (Option-cases (get_elem? history i)) [
    | inl n ↦ rw n refl
    | inr (op, y) ↦
        rw (y, push_indexed-select history (suc id) indices)
          (elim (Option-cases (select history indices)) [
            | inl n ↦ rw n refl
            | inr (ops, z) ↦ rw z refl
          ])
  ]

  -- `make_entries_from_indices` gives the entries of the operations at the indices, and panics
  -- where an index is out of range.
  pub make_entries_from_indices-select :
      (history : List (Operation I O)) (indices : List ℕ)
      → make_entries_from_indices history indices
        ≡ (select history indices >>= λ ops. some (make_entries ops))
  unfolding make_entries_from_indices make_entries
  make_entries_from_indices-select history indices =
      rw (push_indexed-select history 0 indices) (elim (Option-cases (select history indices)) [
        | inl n ↦ rw n refl
        | inr (ops, z) ↦ rw z refl
      ])

  pub event_value_id :
      (id : ℕ) (ev : Event I O) → event_value (record ev { id = id }) ≡ event_value ev
  unfolding event_value
  event_value_id id ev = refl

  convert_indexed-select :
      (history : List (Event I O)) (m : IdMap) (i : ℕ) (indices : List ℕ)
      → convert_indexed history m i indices
        ≡ (select history indices >>= λ events. convert_from i (renumber_from m events))
  unfolding convert_indexed convert_from renumber_from
  convert_indexed-select history m i [] = refl
  convert_indexed-select history m i (j ∷ indices) = elim (Option-cases (get_elem? history j)) [
    | inl n ↦ rw n refl
    | inr (ev, y) ↦
        rw (y, convert_indexed-select history (new_id ev.id m).1 (suc i) indices)
          (elim (Option-cases (select history indices)) [
            | inl n ↦ rw n (bind_none (event_value ev))
            | inr (events, z) ↦ rw (z, event_value_id (new_id ev.id m).0 ev) refl
          ])
  ]

  -- `convert_entries_from_indices` gives the entries of the renumbered events at the indices, and
  -- panics where an index is out of range or a payload is missing.
  pub convert_entries_from_indices-select :
      (history : List (Event I O)) (indices : List ℕ)
      → convert_entries_from_indices history indices
        ≡ (select history indices >>= λ events. convert_entries (renumber events))
  unfolding convert_entries_from_indices convert_entries renumber
  convert_entries_from_indices-select history indices =
      convert_indexed-select history (record { ids = []; next_id = 0 }) 0 indices
