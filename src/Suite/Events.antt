-- ===== src/Suite/Events.antt =====
-- The unit tests of check_events in src/checker.rs, with those of its timeout.
use porcupine_rust.Base.{◌≡◌, refl, Bool, true, false, ◌&&◌, none, some, [], ◌∷◌, replicate}
use porcupine_rust.Bitset
use porcupine_rust.Types.{CheckResult, EventKind}
use porcupine_rust.Arena.{from_entries, head_next, next_of, match_of, lift, unlift, unlink, relink}
use porcupine_rust.Entries.{make_entries, renumber, convert_entries}
use porcupine_rust.Checker
use porcupine_rust.Checker.{round, cache_push}
use porcupine_rust.Parallel.{check_parallel}
use porcupine_rust.Assertions.{assert_well_formed, assert_well_formed_events}
use porcupine_rust.Checks.{check_operations, check_events}
use porcupine_rust.Suite.{
  reg, write, read, op, event, call_ev, ret_ev, settle, answers_operations, answers_events,
}

abbrev events_empty_history_is_ok : Bool
events_empty_history_is_ok = answers_events reg false ([]) CheckResult.ok

abbrev events_single_write_is_ok : Bool
events_single_write_is_ok =
    answers_events reg false (call_ev 0 (write 42) ∷ ret_ev 0 0 ∷ []) CheckResult.ok

abbrev events_single_read_returning_init_value_is_ok : Bool
events_single_read_returning_init_value_is_ok =
    answers_events reg false (call_ev 0 read ∷ ret_ev 0 0 ∷ []) CheckResult.ok

abbrev events_single_read_returning_wrong_value_is_illegal : Bool
events_single_read_returning_wrong_value_is_illegal =
    answers_events reg false (call_ev 0 read ∷ ret_ev 0 99 ∷ []) CheckResult.illegal

abbrev events_sequential_write_then_correct_read_is_ok : Bool
events_sequential_write_then_correct_read_is_ok =
    answers_events reg false (call_ev 0 (write 5) ∷ ret_ev 0 0 ∷ call_ev 1 read ∷ ret_ev 1 5 ∷ [])
      CheckResult.ok

abbrev events_sequential_read_after_write_returning_stale_value_is_illegal : Bool
events_sequential_read_after_write_returning_stale_value_is_illegal =
    answers_events reg false (call_ev 0 (write 5) ∷ ret_ev 0 0 ∷ call_ev 1 read ∷ ret_ev 1 0 ∷ [])
      CheckResult.illegal

abbrev events_concurrent_write_and_read_returning_written_value_is_ok : Bool
events_concurrent_write_and_read_returning_written_value_is_ok =
    answers_events reg false (call_ev 0 (write 1) ∷ call_ev 1 read ∷ ret_ev 1 1 ∷ ret_ev 0 0 ∷ [])
      CheckResult.ok

abbrev events_concurrent_write_and_read_returning_init_value_is_ok : Bool
events_concurrent_write_and_read_returning_init_value_is_ok =
    answers_events reg false (call_ev 0 (write 1) ∷ call_ev 1 read ∷ ret_ev 1 0 ∷ ret_ev 0 0 ∷ [])
      CheckResult.ok

abbrev events_sequential_read_after_completed_write_returning_stale_is_illegal : Bool
events_sequential_read_after_completed_write_returning_stale_is_illegal =
    answers_events reg false (call_ev 0 (write 1) ∷ ret_ev 0 0 ∷ call_ev 1 read ∷ ret_ev 1 0 ∷ [])
      CheckResult.illegal

abbrev events_noncontiguous_ids_produce_same_result_as_contiguous_ids : Bool
events_noncontiguous_ids_produce_same_result_as_contiguous_ids =
    (answers_events reg false (call_ev 0 (write 5) ∷ ret_ev 0 0 ∷ call_ev 1 read ∷ ret_ev 1 5 ∷ [])
      CheckResult.ok)
    && (answers_events reg false
        (event 0 EventKind.call (some (write 5)) none 100
          ∷ event 0 EventKind.return none (some 0) 100
          ∷ event 1 EventKind.call (some read) none 999
          ∷ event 1 EventKind.return none (some 5) 999
          ∷ [])
        CheckResult.ok)

abbrev events_backtracking_finds_valid_ordering_after_failed_attempts : Bool
events_backtracking_finds_valid_ordering_after_failed_attempts =
    answers_events reg false
      (call_ev 0 (write 1)
        ∷ call_ev 1 (write 2)
        ∷ call_ev 2 read
        ∷ ret_ev 2 1
        ∷ ret_ev 1 0
        ∷ ret_ev 0 0
        ∷ [])
      CheckResult.ok

abbrev events_agree_with_operations_on_linearizable_history : Bool
events_agree_with_operations_on_linearizable_history =
    (answers_operations reg false (op 0 (write 1) 0 0 10 ∷ op 1 read 1 5 15 ∷ []) CheckResult.ok)
    && (answers_events reg false
        (call_ev 0 (write 1) ∷ call_ev 1 read ∷ ret_ev 0 0 ∷ ret_ev 1 1 ∷ []) CheckResult.ok)

abbrev events_agree_with_operations_on_illegal_history : Bool
events_agree_with_operations_on_illegal_history =
    (answers_operations reg false (op 0 (write 1) 0 0 10 ∷ op 1 read 0 12 20 ∷ [])
      CheckResult.illegal)
    && (answers_events reg false
        (call_ev 0 (write 1) ∷ ret_ev 0 0 ∷ call_ev 1 read ∷ ret_ev 1 0 ∷ []) CheckResult.illegal)

abbrev timeout_events_very_long_does_not_affect_result : Bool
timeout_events_very_long_does_not_affect_result =
    answers_events reg true (call_ev 0 (write 1) ∷ call_ev 1 read ∷ ret_ev 1 1 ∷ ret_ev 0 0 ∷ [])
      CheckResult.ok

-- All of them pass.
events_pass :
    (events_empty_history_is_ok ∷ events_single_write_is_ok
      ∷ events_single_read_returning_init_value_is_ok
      ∷ events_single_read_returning_wrong_value_is_illegal
      ∷ events_sequential_write_then_correct_read_is_ok
      ∷ events_sequential_read_after_write_returning_stale_value_is_illegal
      ∷ events_concurrent_write_and_read_returning_written_value_is_ok
      ∷ events_concurrent_write_and_read_returning_init_value_is_ok
      ∷ events_sequential_read_after_completed_write_returning_stale_is_illegal
      ∷ events_noncontiguous_ids_produce_same_result_as_contiguous_ids
      ∷ events_backtracking_finds_valid_ordering_after_failed_attempts
      ∷ events_agree_with_operations_on_linearizable_history
      ∷ events_agree_with_operations_on_illegal_history
      ∷ timeout_events_very_long_does_not_affect_result ∷ [])
    ≡ replicate 14 true
unfolding check_operations check_events assert_well_formed assert_well_formed_events check_parallel
    make_entries renumber convert_entries from_entries head_next next_of round Checker.start
    match_of Bitset.hash_with_bit Bitset.new Bitset.set Bitset.clear Bitset.eq_with_bit lift unlift
    unlink relink cache_push Bitset.ones settle
events_pass = refl
