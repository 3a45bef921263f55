-- ===== src/Suite/Operations.antt =====
-- The unit tests of check_operations in src/checker.rs, with those of its timeout.
use porcupine_rust.Base.{◌≡◌, refl, Bool, true, false, none, some, [], ◌∷◌, replicate}
use porcupine_rust.Bitset
use porcupine_rust.Types.{CheckResult}
use porcupine_rust.Arena.{from_entries, head_next, next_of, match_of, lift, unlift, unlink, relink}
use porcupine_rust.Entries.{make_entries}
use porcupine_rust.Checker
use porcupine_rust.Checker.{round, cache_push}
use porcupine_rust.Parallel.{check_parallel}
use porcupine_rust.Assertions.{assert_well_formed}
use porcupine_rust.Checks.{check_operations}
use porcupine_rust.Suite.{
  reg, write, read, op, settle, answers_operations, run_operations, is_result,
}

abbrev ops_empty_history_is_ok : Bool
ops_empty_history_is_ok = answers_operations reg false ([]) CheckResult.ok

abbrev ops_single_write_is_ok : Bool
ops_single_write_is_ok = answers_operations reg false (op 0 (write 42) 0 0 10 ∷ []) CheckResult.ok

abbrev ops_single_read_returning_init_value_is_ok : Bool
ops_single_read_returning_init_value_is_ok =
    answers_operations reg false (op 0 read 0 0 10 ∷ []) CheckResult.ok

abbrev ops_single_read_returning_wrong_value_is_illegal : Bool
ops_single_read_returning_wrong_value_is_illegal =
    answers_operations reg false (op 0 read 42 0 10 ∷ []) CheckResult.illegal

abbrev ops_sequential_write_then_correct_read_is_ok : Bool
ops_sequential_write_then_correct_read_is_ok =
    answers_operations reg false (op 0 (write 5) 0 0 10 ∷ op 1 read 5 11 20 ∷ []) CheckResult.ok

abbrev ops_sequential_read_after_write_returning_stale_value_is_illegal : Bool
ops_sequential_read_after_write_returning_stale_value_is_illegal =
    answers_operations reg false (op 0 (write 5) 0 0 10 ∷ op 1 read 0 11 20 ∷ [])
      CheckResult.illegal

abbrev ops_concurrent_write_and_read_returning_written_value_is_ok : Bool
ops_concurrent_write_and_read_returning_written_value_is_ok =
    answers_operations reg false (op 0 (write 1) 0 0 20 ∷ op 1 read 1 5 15 ∷ []) CheckResult.ok

abbrev ops_concurrent_write_and_read_returning_init_value_is_ok : Bool
ops_concurrent_write_and_read_returning_init_value_is_ok =
    answers_operations reg false (op 0 (write 1) 0 0 20 ∷ op 1 read 0 5 15 ∷ []) CheckResult.ok

abbrev ops_read_starts_after_write_completes_returning_stale_is_illegal : Bool
ops_read_starts_after_write_completes_returning_stale_is_illegal =
    answers_operations reg false (op 0 (write 1) 0 0 10 ∷ op 1 read 0 12 20 ∷ [])
      CheckResult.illegal

abbrev ops_instantaneous_op_is_ok : Bool
ops_instantaneous_op_is_ok = answers_operations reg false (op 0 (write 7) 0 5 5 ∷ []) CheckResult.ok

abbrev ops_multiple_reads_all_return_init_before_any_write_is_ok : Bool
ops_multiple_reads_all_return_init_before_any_write_is_ok =
    answers_operations reg false (op 0 read 0 0 10 ∷ op 1 read 0 2 8 ∷ op 2 read 0 4 6 ∷ [])
      CheckResult.ok

abbrev ops_two_sequential_writes_then_wrong_read_is_illegal : Bool
ops_two_sequential_writes_then_wrong_read_is_illegal =
    answers_operations reg false
      (op 0 (write 1) 0 0 10 ∷ op 1 (write 2) 0 11 20 ∷ op 2 read 1 21 30 ∷ []) CheckResult.illegal

abbrev ops_cache_pruning_does_not_cause_false_illegal : Bool
ops_cache_pruning_does_not_cause_false_illegal =
    answers_operations reg false
      (op 0 (write 1) 0 0 20 ∷ op 1 (write 1) 0 5 15 ∷ op 2 read 1 25 35 ∷ []) CheckResult.ok

abbrev ops_backtracking_finds_valid_ordering_after_failed_attempts : Bool
ops_backtracking_finds_valid_ordering_after_failed_attempts =
    answers_operations reg false
      (op 0 (write 1) 0 0 30 ∷ op 1 (write 2) 0 5 20 ∷ op 2 read 1 25 35 ∷ []) CheckResult.ok

abbrev timeout_very_long_does_not_affect_result : Bool
timeout_very_long_does_not_affect_result =
    answers_operations reg true (op 0 (write 1) 0 0 10 ∷ op 1 read 1 5 15 ∷ []) CheckResult.ok

abbrev timeout_very_long_does_not_affect_illegal_result : Bool
timeout_very_long_does_not_affect_illegal_result =
    answers_operations reg true (op 0 (write 1) 0 0 10 ∷ op 1 read 0 12 20 ∷ []) CheckResult.illegal

abbrev timeout_none_matches_none_no_timeout : Bool
timeout_none_matches_none_no_timeout =
    let history = op 0 (write 5) 0 0 10 ∷ op 1 read 5 11 20 ∷ [] in
    elim (run_operations reg false history) [
      | none ↦ false
      | some r ↦ is_result r (run_operations reg true history)
    ]

-- All of them pass.
operations_pass :
    (ops_empty_history_is_ok ∷ ops_single_write_is_ok ∷ ops_single_read_returning_init_value_is_ok
      ∷ ops_single_read_returning_wrong_value_is_illegal
      ∷ ops_sequential_write_then_correct_read_is_ok
      ∷ ops_sequential_read_after_write_returning_stale_value_is_illegal
      ∷ ops_concurrent_write_and_read_returning_written_value_is_ok
      ∷ ops_concurrent_write_and_read_returning_init_value_is_ok
      ∷ ops_read_starts_after_write_completes_returning_stale_is_illegal
      ∷ ops_instantaneous_op_is_ok ∷ ops_multiple_reads_all_return_init_before_any_write_is_ok
      ∷ ops_two_sequential_writes_then_wrong_read_is_illegal
      ∷ ops_cache_pruning_does_not_cause_false_illegal
      ∷ ops_backtracking_finds_valid_ordering_after_failed_attempts
      ∷ timeout_very_long_does_not_affect_result ∷ timeout_very_long_does_not_affect_illegal_result
      ∷ timeout_none_matches_none_no_timeout ∷ [])
    ≡ replicate 17 true
unfolding check_operations assert_well_formed check_parallel make_entries from_entries head_next
    next_of round Checker.start match_of Bitset.hash_with_bit Bitset.new Bitset.set Bitset.clear
    Bitset.eq_with_bit lift unlift unlink relink cache_push Bitset.ones settle
operations_pass = refl
