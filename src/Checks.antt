-- ===== src/Checks.antt =====
-- `check_operations` and `check_events` of src/checker.rs: the partitions of a history, and the start
-- of their check. `none` is a panic: an assertion that fails, an index out of range, or a payload
-- that is missing.
pub mod Operations
pub mod Events
use porcupine_rust.Base.{
  ℕ, Bool, true, false, Option, none, some, List, [], ◌∷◌, if◌then◌else◌, length,
}
use porcupine_rust.Base.Do.{◌>>=◌}
use porcupine_rust.Types.{Operation, Event}
use porcupine_rust.Model.{Model}
use porcupine_rust.Entry.{Entry}
use porcupine_rust.Entries.{
  make_entries, make_entries_from_indices, renumber, convert_entries, convert_entries_from_indices,
}
use porcupine_rust.Partitions.{scan_partition_covering}
use porcupine_rust.Assertions.{
  assert_well_formed, assert_partition_events_paired, assert_well_formed_events,
}
use porcupine_rust.Parallel.{Sorts, System, launch}

-- The elements made one by one.
abbrev pub collect {ℓ κ} : {A : Type ℓ} {B : Type κ} → (A → Option B) → List A → Option (List B)
collect f [] = some []
collect f (x ∷ l) = f x >>= λ y. collect f l >>= λ rest. some (y ∷ rest)

-- A check that a build with debug assertions makes.
abbrev pub debug_only : {A : Type 0} → Bool → Option A → Option Bool
debug_only true (some x) = some true
debug_only true none = none
debug_only false o = some false

abbrev pub passes : Bool → Option Bool
passes true = some true
passes false = none

abbrev pub assert_partition_covers_ops : Bool → List (List ℕ) → ℕ → Option Bool
assert_partition_covers_ops debug partitions history_len =
    debug_only debug (scan_partition_covering partitions history_len)

module _ {S I O : Type 0} (m : Model S I O) (debug : Bool) where
  unfoldable pub operation_partitions : List (Operation I O) → Option (List (List (Entry I O)))
  operation_partitions history = do
    _ ← debug_only debug (passes (assert_well_formed history))
    elim (m.partition history) [
      | some parts ↦ do
        _ ← assert_partition_covers_ops debug parts (length history)
        collect (make_entries_from_indices history) parts
      | none ↦ some (make_entries history ∷ [])
    ]

  unfoldable pub check_operations :
      Sorts (List (Entry I O)) → Bool → List (Operation I O) → Option (System S I O)
  unfolding operation_partitions
  check_operations sorts timeout history = do
    partitions ← operation_partitions history
    some (launch m sorts timeout partitions)

  unfoldable pub event_partitions : List (Event I O) → Option (List (List (Entry I O)))
  event_partitions history = do
    _ ← debug_only debug (passes (assert_well_formed_events history))
    elim (m.partition_events history) [
      | some parts ↦ do
        _ ← debug_only debug (assert_partition_events_paired parts history)
        collect (convert_entries_from_indices history) parts
      | none ↦ do entries ← convert_entries (renumber history); some (entries ∷ [])
    ]

  unfoldable pub check_events :
      Sorts (List (Entry I O)) → Bool → List (Event I O) → Option (System S I O)
  unfolding event_partitions
  check_events sorts timeout history = do
    partitions ← event_partitions history
    some (launch m sorts timeout partitions)
