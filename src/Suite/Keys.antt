-- ===== src/Suite/Keys.antt =====
-- The unit tests of check_operations and check_events in src/checker.rs on partitions by key.
use porcupine_rust.Base.{◌≡◌, refl, Bool, true, false, [], ◌∷◌, replicate}
use porcupine_rust.Bitset
use porcupine_rust.Types.{CheckResult}
use porcupine_rust.Arena.{from_entries, head_next, next_of, match_of, lift, unlift, unlink, relink}
use porcupine_rust.Entries.{make_entries_from_indices, convert_entries_from_indices}
use porcupine_rust.Partitions.{scan_partition_covering}
use porcupine_rust.Checker
use porcupine_rust.Checker.{round, cache_push}
use porcupine_rust.Parallel.{check_parallel}
use porcupine_rust.Assertions.{
  assert_well_formed, assert_well_formed_events, assert_partition_events_paired,
}
use porcupine_rust.Checks.{check_operations, check_events}
use porcupine_rust.Suite.{settle, answers_operations, answers_events}
use porcupine_rust.Suite.KvModel.{
  put, push_index, kv_model, kv_events_model, kv_write, kv_read, kv_op, kv_call, kv_ret,
}

abbrev two_partition_ok_history : Bool
two_partition_ok_history =
    answers_operations kv_model false
      (kv_op 0 (kv_write 0 1) 0 0 10
        ∷ kv_op 1 (kv_read 0) 1 11 20
        ∷ kv_op 2 (kv_write 1 5) 0 0 10
        ∷ kv_op 3 (kv_read 1) 5 11 20
        ∷ [])
      CheckResult.ok

abbrev two_partition_illegal_history : Bool
two_partition_illegal_history =
    answers_operations kv_model false
      (kv_op 0 (kv_write 0 1) 0 0 10
        ∷ kv_op 1 (kv_read 0) 0 11 20
        ∷ kv_op 2 (kv_write 1 5) 0 0 10
        ∷ kv_op 3 (kv_read 1) 5 11 20
        ∷ [])
      CheckResult.illegal

abbrev three_partitions_all_ok : Bool
three_partitions_all_ok =
    answers_operations kv_model false
      (kv_op 0 (kv_write 0 1) 0 0 10
        ∷ kv_op 1 (kv_read 0) 1 11 20
        ∷ kv_op 2 (kv_write 1 2) 0 0 10
        ∷ kv_op 3 (kv_read 1) 2 11 20
        ∷ kv_op 4 (kv_write 2 3) 0 0 10
        ∷ kv_op 5 (kv_read 2) 3 11 20
        ∷ [])
      CheckResult.ok

abbrev check_events_partition_two_keys_ok : Bool
check_events_partition_two_keys_ok =
    answers_events kv_events_model false
      (kv_call 0 0 true 1
        ∷ kv_ret 0 0
        ∷ kv_call 1 0 false 0
        ∷ kv_ret 1 1
        ∷ kv_call 2 1 true 5
        ∷ kv_ret 2 0
        ∷ kv_call 3 1 false 0
        ∷ kv_ret 3 5
        ∷ [])
      CheckResult.ok

abbrev check_events_partition_detects_illegal_in_one_key : Bool
check_events_partition_detects_illegal_in_one_key =
    answers_events kv_events_model false
      (kv_call 0 0 true 1
        ∷ kv_ret 0 0
        ∷ kv_call 1 0 false 0
        ∷ kv_ret 1 0
        ∷ kv_call 2 1 true 5
        ∷ kv_ret 2 0
        ∷ kv_call 3 1 false 0
        ∷ kv_ret 3 5
        ∷ [])
      CheckResult.illegal

abbrev check_events_partition_concurrent_writes_ok : Bool
check_events_partition_concurrent_writes_ok =
    answers_events kv_events_model false
      (kv_call 0 0 true 1 ∷ kv_call 1 1 true 5 ∷ kv_ret 0 0 ∷ kv_ret 1 0 ∷ []) CheckResult.ok

-- All of them pass.
partitions_pass :
    (two_partition_ok_history ∷ two_partition_illegal_history ∷ three_partitions_all_ok
      ∷ check_events_partition_two_keys_ok ∷ check_events_partition_detects_illegal_in_one_key
      ∷ check_events_partition_concurrent_writes_ok ∷ [])
    ≡ replicate 6 true
unfolding put push_index check_operations check_events scan_partition_covering
    make_entries_from_indices convert_entries_from_indices assert_partition_events_paired
    assert_well_formed assert_well_formed_events check_parallel from_entries head_next next_of round
    Checker.start match_of Bitset.hash_with_bit Bitset.new Bitset.set Bitset.clear
    Bitset.eq_with_bit lift unlift unlink relink cache_push Bitset.ones settle
partitions_pass = refl
