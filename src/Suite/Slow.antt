-- ===== src/Suite/Slow.antt =====
-- The unit tests of src/checker.rs in which the wait of the timer ends early. A model's sleep takes
-- time and does nothing else, so it is the order of the steps that tells such a run.
use porcupine_rust.Base.{
  ℕ, ◌+◌, ◌≡◌, refl, Bool, true, ◌||◌, Option, none, some, List, [], ◌∷◌, replicate,
}
use porcupine_rust.Base.Do.{◌>>=◌}
use porcupine_rust.Bitset
use porcupine_rust.Types.{CheckResult, Operation, EventKind, Event}
use porcupine_rust.Model.{Model}
use porcupine_rust.Arena.{from_entries, head_next, next_of, match_of, lift, unlift, unlink, relink}
use porcupine_rust.Entries.{make_entries, renumber, convert_entries}
use porcupine_rust.Checker
use porcupine_rust.Checker.{round, cache_push}
use porcupine_rust.Parallel.{ThreadEvent, work, timer, wakes, check_parallel}
use porcupine_rust.Parallel.Schedule.{play}
use porcupine_rust.Assertions.{assert_well_formed, assert_well_formed_events}
use porcupine_rust.Checks.{check_operations, check_events}
use porcupine_rust.Suite.{reg, write, read, op, event, as_given, settle, run_operations, is_result}

-- The partition is begun, the timer's wait ends, and the timer stores the flags; the last event is
-- the head.
abbrev timer_first : List ThreadEvent
timer_first = timer ∷ timer ∷ timer ∷ wakes ∷ timer ∷ work 0 true ∷ []

module _ {S I O : Type 0} (m : Model S I O) where
  -- The run with a timeout that goes on from there.
  abbrev late_operations : List (Operation I O) → Option CheckResult
  late_operations history = do
    start ← check_operations m true as_given true history
    s ← play m timer_first start
    settle m 100 s

  abbrev late_events : List (Event I O) → Option CheckResult
  late_events history = do
    start ← check_events m true as_given true history
    s ← play m timer_first start
    settle m 100 s

-- `()`
abbrev Nothing : Type 0
Nothing = Unit

-- The step without its sleep.
abbrev slow_step : Nothing → Nothing → Nothing → Option Nothing
slow_step state input output = some tt

abbrev slow_model : Model Nothing Nothing Nothing
slow_model = record {
  init = tt;
  step = slow_step;
  partition = λ history. none;
  partition_events = λ history. none;
  state_eq = λ s t. true;
}

abbrev slow_op : ℕ → Operation Nothing Nothing
slow_op id = record { client_id = id; input = tt; call = id; output = tt; return_time = id + 1 }

-- Where the timer acts late, and where it acts first.
abbrev timeout_zero_duration_returns_unknown_or_definitive : List Bool
timeout_zero_duration_returns_unknown_or_definitive =
    let history = op 0 (write 1) 0 0 10 ∷ op 1 read 1 5 15 ∷ [] in
    let ok_or_unknown : Option CheckResult → Bool =
      λ r. is_result CheckResult.ok r || is_result CheckResult.unknown r in
    ok_or_unknown (run_operations reg true history)
    ∷ ok_or_unknown (late_operations reg history)
    ∷ []

abbrev timeout_short_duration_returns_unknown : Bool
timeout_short_duration_returns_unknown =
    is_result CheckResult.unknown (late_operations slow_model (slow_op 0 ∷ []))

abbrev timeout_short_duration_events_returns_unknown : Bool
timeout_short_duration_events_returns_unknown =
    let history : List (Event Nothing Nothing) =
      event 0 EventKind.call (some tt) none 0 ∷ event 0 EventKind.return none (some tt) 0 ∷ [] in
    is_result CheckResult.unknown (late_events slow_model history)

-- All of them pass.
timeouts_pass :
    (timeout_short_duration_returns_unknown ∷ timeout_short_duration_events_returns_unknown
      ∷ timeout_zero_duration_returns_unknown_or_definitive)
    ≡ replicate 4 true
unfolding check_operations check_events play assert_well_formed assert_well_formed_events
    check_parallel make_entries renumber convert_entries from_entries head_next next_of round
    Checker.start match_of Bitset.hash_with_bit Bitset.new Bitset.set Bitset.clear
    Bitset.eq_with_bit lift unlift unlink relink cache_push Bitset.ones settle
timeouts_pass = refl
