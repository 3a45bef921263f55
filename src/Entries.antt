-- ===== src/Entries.antt =====
-- The conversions of src/checker.rs from histories to entries. `none` is a panic: an index out of
-- range, or an `expect` that fails.
pub mod Insertion
pub mod Sorting
pub mod Renumber
pub mod Subsets
pub mod Histories
use Prim.Native.Nat.{compare, Ordering}
use porcupine_rust.Base.{
  ℕ, suc, ◌+◌, Option, none, some, List, [], ◌∷◌, ◌==◌, if◌then◌else◌, get_elem?,
}
use porcupine_rust.Base.Do.{◌>>=◌}
use porcupine_rust.Types.{Operation, EventKind, Event}
use porcupine_rust.Entry.{EntryValue, Entry, call, return}

-- The map from old to new ids, and the next new id.
pub record IdMap : Type 0 where
  pub ids : List (ℕ × ℕ)
  pub next_id : ℕ

unfoldable pub find_id : ℕ → List (ℕ × ℕ) → Option ℕ
find_id k [] = none
find_id k ((key, id) ∷ ids) = if key == k then some id else find_id k ids

-- `*map.entry(k).or_insert_with(…)`
unfoldable pub new_id : ℕ → IdMap → ℕ × IdMap
unfolding find_id
new_id k m = elim (find_id k m.ids) [
  | some id ↦ (id, m)
  | none ↦ (m.next_id, record { ids = (k, m.next_id) ∷ m.ids; next_id = m.next_id + 1 })
]

module _ {I O : Type 0} where
  -- Calls before returns.
  abbrev pub value_cmp : EntryValue I O → EntryValue I O → Ordering
  value_cmp (call i) (call j) = Ordering.eq
  value_cmp (call i) (return o) = Ordering.lt
  value_cmp (return o) (call i) = Ordering.gt
  value_cmp (return o) (return p) = Ordering.eq

  -- The comparison that the entries are sorted by: by time, then calls before returns.
  abbrev pub entry_cmp : Entry I O → Entry I O → Ordering
  entry_cmp a b = elim (compare a.time b.time) [
    | Ordering.lt ↦ Ordering.lt
    | Ordering.eq ↦ value_cmp a.value b.value
    | Ordering.gt ↦ Ordering.gt
  ]

  unfoldable pub insert : Entry I O → List (Entry I O) → List (Entry I O)
  insert e [] = e ∷ []
  insert e (x ∷ l) = elim (entry_cmp e x) [ Ordering.gt ↦ x ∷ insert e l | _ ↦ e ∷ x ∷ l ]

  -- `sort_by`, the standard library's stable sort.
  unfoldable pub sort_entries : List (Entry I O) → List (Entry I O)
  unfolding insert
  sort_entries [] = []
  sort_entries (e ∷ l) = insert e (sort_entries l)

  abbrev pub call_entry : ℕ → Operation I O → Entry I O
  call_entry id op = record { id = id; time = op.call; value = call op.input }

  abbrev pub return_entry : ℕ → Operation I O → Entry I O
  return_entry id op = record { id = id; time = op.return_time; value = return op.output }

  -- The loop over the operations, with their indices as ids.
  unfoldable pub push_entries : ℕ → List (Operation I O) → List (Entry I O)
  push_entries id [] = []
  push_entries id (op ∷ ops) = call_entry id op ∷ return_entry id op ∷ push_entries (suc id) ops

  unfoldable pub make_entries : List (Operation I O) → List (Entry I O)
  unfolding push_entries sort_entries
  make_entries ops = sort_entries (push_entries 0 ops)

  -- The loop over the indices of a partition.
  unfoldable pub push_indexed : List (Operation I O) → ℕ → List ℕ → Option (List (Entry I O))
  push_indexed history local_id [] = some []
  push_indexed history local_id (global_idx ∷ indices) = do
    op ← get_elem? history global_idx
    rest ← push_indexed history (suc local_id) indices
    some (call_entry local_id op ∷ return_entry local_id op ∷ rest)

  unfoldable pub make_entries_from_indices :
      List (Operation I O) → List ℕ → Option (List (Entry I O))
  unfolding push_indexed sort_entries
  make_entries_from_indices history indices = do
    entries ← push_indexed history 0 indices
    some (sort_entries entries)

  unfoldable pub renumber_from : IdMap → List (Event I O) → List (Event I O)
  unfolding new_id
  renumber_from m [] = []
  renumber_from m (ev ∷ events) =
      let (id, m') = new_id ev.id m in record ev { id = id } ∷ renumber_from m' events

  unfoldable pub renumber : List (Event I O) → List (Event I O)
  unfolding renumber_from
  renumber events = renumber_from (record { ids = []; next_id = 0 }) events

  -- The value of an entry; `expect` panics where it is absent.
  unfoldable pub event_value : Event I O → Option (EntryValue I O)
  event_value ev = elim ev.kind [
    | EventKind.call ↦ (do i ← ev.input; some (call i))
    | EventKind.return ↦ (do o ← ev.output; some (return o))
  ]

  unfoldable pub convert_from : ℕ → List (Event I O) → Option (List (Entry I O))
  unfolding event_value
  convert_from i [] = some []
  convert_from i (ev ∷ events) = do
    value ← event_value ev
    rest ← convert_from (suc i) events
    some (record { id = ev.id; time = i; value = value } ∷ rest)

  unfoldable pub convert_entries : List (Event I O) → Option (List (Entry I O))
  unfolding convert_from
  convert_entries events = convert_from 0 events

  unfoldable pub convert_indexed : List (Event I O) → IdMap → ℕ → List ℕ → Option (List (Entry I O))
  unfolding event_value new_id
  convert_indexed history m local_time [] = some []
  convert_indexed history m local_time (global_idx ∷ indices) = do
    ev ← get_elem? history global_idx
    let (id, m') = new_id ev.id m
    value ← event_value ev
    rest ← convert_indexed history m' (suc local_time) indices
    some (record { id = id; time = local_time; value = value } ∷ rest)

  unfoldable pub convert_entries_from_indices :
      List (Event I O) → List ℕ → Option (List (Entry I O))
  unfolding convert_indexed
  convert_entries_from_indices history indices =
      convert_indexed history (record { ids = []; next_id = 0 }) 0 indices
