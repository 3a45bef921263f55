-- ===== src/Tests/Assertions.antt =====
-- The assertions on a history of two operations.
use porcupine_rust.Base.{◌≡◌, refl, false, none, some, [], ◌∷◌}
use porcupine_rust.Base.Do.{◌>>=◌}
use porcupine_rust.Entries.Subsets.{select}
use porcupine_rust.Entries.{find_id}
use porcupine_rust.Assertions.{assert_partition_events_paired, assert_well_formed_events}
use porcupine_rust.Tests.Entries.{events}

-- Each operation's events in one partition.
pairs :
    assert_partition_events_paired ((0 ∷ 2 ∷ []) ∷ (1 ∷ 3 ∷ []) ∷ []) events
    ≡ some ((4, 1) ∷ (9, 0) ∷ [])
unfolding assert_partition_events_paired find_id
pairs = refl

-- A call apart from its return.
splits : assert_partition_events_paired ((0 ∷ 1 ∷ []) ∷ (2 ∷ 3 ∷ []) ∷ []) events ≡ none
unfolding assert_partition_events_paired find_id
splits = refl

-- A partition that names a return before its call passes, and its events are not well-formed.
descends :
    assert_partition_events_paired ((2 ∷ 0 ∷ []) ∷ (1 ∷ 3 ∷ []) ∷ []) events
    ≡ some ((4, 1) ∷ (9, 0) ∷ [])
unfolding assert_partition_events_paired find_id
descends = refl

return_first :
    (select events (2 ∷ 0 ∷ []) >>= λ evs. some (assert_well_formed_events evs)) ≡ some false
unfolding assert_well_formed_events find_id
return_first = refl
