-- ===== src/Suite/Partitions.antt =====
-- The unit tests of src/invariants.rs.
use porcupine_rust.Base.{
  ℕ, ◌≡◌, refl, Bool, true, false, Option, none, some, List, [], ◌∷◌, replicate,
}
use porcupine_rust.Types.{EventKind, Event}
use porcupine_rust.Entries.{find_id}
use porcupine_rust.Partitions.{scan_partition_covering}
use porcupine_rust.Assertions.{assert_partition_events_paired}
use porcupine_rust.Checks.{assert_partition_covers_ops}
use porcupine_rust.Suite.{event}

abbrev call : ℕ → Event ℕ ℕ
call id = event id EventKind.call (some 0) none id

abbrev ret : ℕ → Event ℕ ℕ
ret id = event id EventKind.return none (some 0) id

-- A test that is to end.
abbrev ends : {A : Type 0} → Option A → Bool
ends none = false
ends (some x) = true

-- A test that is to panic.
abbrev panics : {A : Type 0} → Option A → Bool
panics none = true
panics (some x) = false

abbrev ops_valid_partition_passes : Bool
ops_valid_partition_passes =
    ends (assert_partition_covers_ops true ((0 ∷ 2 ∷ []) ∷ (1 ∷ 3 ∷ []) ∷ []) 4)

abbrev ops_overlapping_partitions_panic : Bool
ops_overlapping_partitions_panic =
    panics (assert_partition_covers_ops true ((0 ∷ 1 ∷ []) ∷ (1 ∷ 2 ∷ []) ∷ []) 3)

abbrev ops_missing_index_panics : Bool
ops_missing_index_panics = panics (assert_partition_covers_ops true ((0 ∷ 2 ∷ []) ∷ []) 3)

abbrev ops_out_of_bounds_panics : Bool
ops_out_of_bounds_panics = panics (assert_partition_covers_ops true ((0 ∷ 1 ∷ 2 ∷ 5 ∷ []) ∷ []) 3)

-- The history of the tests of events.
abbrev two_pairs : List (Event ℕ ℕ)
two_pairs = call 0 ∷ call 1 ∷ ret 0 ∷ ret 1 ∷ []

abbrev events_valid_partition_passes : Bool
events_valid_partition_passes =
    ends (assert_partition_events_paired ((0 ∷ 2 ∷ []) ∷ (1 ∷ 3 ∷ []) ∷ []) two_pairs)

abbrev events_split_pair_panics : Bool
events_split_pair_panics =
    panics (assert_partition_events_paired ((0 ∷ 1 ∷ []) ∷ (2 ∷ 3 ∷ []) ∷ []) two_pairs)

abbrev events_missing_index_panics : Bool
events_missing_index_panics =
    panics (assert_partition_events_paired ((0 ∷ 2 ∷ []) ∷ (1 ∷ []) ∷ []) two_pairs)

-- All of them pass.
invariants_pass :
    (ops_valid_partition_passes ∷ ops_overlapping_partitions_panic ∷ ops_missing_index_panics
      ∷ ops_out_of_bounds_panics ∷ events_valid_partition_passes ∷ events_split_pair_panics
      ∷ events_missing_index_panics ∷ [])
    ≡ replicate 7 true
unfolding scan_partition_covering assert_partition_events_paired find_id
invariants_pass = refl
