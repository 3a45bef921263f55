-- ===== src/Partitions.antt =====
-- `scan_partition_covering` and `assert_partition_covers_ops` of src/invariants.rs, in a build with
-- debug assertions. `none` is an assertion that fails.
pub mod Filled
pub mod Covering
use porcupine_rust.Base.{
  ℕ, suc, ◌+◌, ◌^◌, Option, none, some, List, [], ◌∷◌, ◌==◌, if◌then◌else◌, length, get_elem?, set,
  replicate, ltb,
}
use porcupine_rust.Base.Do.{◌>>=◌}

-- The owner of each index.
abbrev pub Owners : Type 0
Owners = List (Option ℕ)

-- One index of a partition: in range, and not owned yet.
unfoldable pub claim_index : ℕ → ℕ → Owners → Option Owners
claim_index part_id idx table = do
  owner ← get_elem? table idx
  elim owner [ none ↦ some (set table idx (some part_id)) | some p ↦ none ]

-- The loop over the indices of a partition, with the count.
unfoldable pub scan_partition : ℕ → List ℕ → ℕ → Owners → Option (ℕ × Owners)
unfolding claim_index
scan_partition part_id [] count table = some (count, table)
scan_partition part_id (idx ∷ partition) count table = do
  table' ← claim_index part_id idx table
  scan_partition part_id partition (count + 1) table'

-- The loop over the partitions, from number `part_idx` on; numbers fit 32 bits.
unfoldable pub scan_partitions : ℕ → List (List ℕ) → ℕ → Owners → Option (ℕ × Owners)
unfolding scan_partition
scan_partitions part_idx [] count table = some (count, table)
scan_partitions part_idx (partition ∷ partitions) count table = do
  part_id ← if ltb part_idx (2 ^ 32) then some part_idx else none
  (count', table') ← scan_partition part_id partition count table
  scan_partitions (suc part_idx) partitions count' table'

unfoldable pub scan_partition_covering : List (List ℕ) → ℕ → Option Owners
unfolding scan_partitions
scan_partition_covering partitions n = do
  (count, table) ← scan_partitions 0 partitions 0 (replicate n none)
  if count == n then some table else none
