-- ===== src/Tests/Parallel.antt =====
-- `check_operations` on histories of a register, in one order of the threads' steps.
use mathlib.Core.List.{Memᴰ}
use mathlib.Core.List.Memᴰ
use porcupine_rust.Base.{
  ℕ, ◌*◌, ◌≤◌, ◌<◌, ◌≡◌, refl, arith, true, Option, none, some, List, [], ◌∷◌, ◌++◌, length,
  replicate,
}
use porcupine_rust.Bitset
use porcupine_rust.Types.{Operation, CheckResult}
use porcupine_rust.Entry.{Entry}
use porcupine_rust.Arena.{no_ref, from_entries, head_next, match_of, lift, unlink}
use porcupine_rust.Entries.{make_entries}
use porcupine_rust.Entries.Histories.{make_entries-IsHistory}
use porcupine_rust.Checker
use porcupine_rust.Checker.{round, cache_push}
use porcupine_rust.Checker.Correct.{IsHistory}
use porcupine_rust.Checker.Linearizable.{Linearizable}
use porcupine_rust.Timer.{TimerStage}
use porcupine_rust.Parallel.{
  Sorts, System, ThreadEvent, work, main, timer, wakes, answered, check_parallel, launch,
}
use porcupine_rust.Task.Runs.{Accepts}
use porcupine_rust.Parallel.Safety.{Reach, here, check_parallel_sound}
use porcupine_rust.Parallel.Schedule.{play, play-Reach}
use porcupine_rust.Parallel.Budget.{check_parallel_terminates}
use porcupine_rust.Parallel.Answering.{Answering, check_parallel_answers}
use porcupine_rust.Assertions.{assert_well_formed}
use porcupine_rust.Checks.{check_operations}
use porcupine_rust.Checks.Operations.{check_operations_sound}
use porcupine_rust.Tests.Register.{register, register-EqIsSound}
use porcupine_rust.Tests.Entries.{history}

-- Sorts that leave the partitions as they are.
abbrev pub no_sort : {P : Type 0} → Sorts P
no_sort = record {
  by_len = λ l. l;
  by_reverse_len = λ l. l;
  by_len_mem = λ l p. (λ h. h, λ h. h);
  by_reverse_len_mem = λ l p. (λ h. h, λ h. h);
}

-- The check of a history, with a timeout.
abbrev start : System ℕ (Option ℕ) ℕ
start = launch register no_sort true (make_entries history ∷ [])

starts : check_operations register true no_sort true history ≡ some start
unfolding check_operations assert_well_formed
starts = refl

-- The answer after the events, the last of which is the head.
abbrev answer : List ThreadEvent → Option CheckResult
answer events = elim (play register events start) [
  | none ↦ none
  | some s ↦ elim s.phase [ answered r ↦ some r | _ ↦ none ]
]

-- The task, then the calling thread.
abbrev pub finishes : List ThreadEvent
finishes = main ∷ main ∷ main ∷ replicate 4 (work 0 true)

finishes_ok : answer finishes ≡ some CheckResult.ok
unfolding check_operations play assert_well_formed check_parallel make_entries from_entries
    head_next round Checker.start match_of Bitset.hash_with_bit Bitset.new Bitset.set lift unlink
    cache_push Bitset.ones
finishes_ok = refl

-- The wait ends at once, the timer stores both flags, and the task sees them.
times_out :
    answer
      (main ∷ main ∷ main ∷ replicate 4 (work 0 true) ++ timer ∷ timer ∷ timer ∷ wakes ∷ timer ∷ [])
    ≡ some CheckResult.unknown
unfolding check_operations play assert_well_formed check_parallel make_entries from_entries
    head_next round Checker.start match_of Bitset.hash_with_bit Bitset.new Bitset.set lift unlink
    cache_push Bitset.ones
times_out = refl

-- The timer that is cancelled before it has the lock waits all the same.
waits_after_cancel :
    (s : System ℕ (Option ℕ) ℕ) × (play register (timer ∷ finishes) start ≡ some s)
    × (s.timer ≡ record { stage = TimerStage.waiting; cancelled = true })
unfolding check_operations play assert_well_formed check_parallel make_entries from_entries
    head_next round Checker.start match_of Bitset.hash_with_bit Bitset.new Bitset.set lift unlink
    cache_push Bitset.ones
waits_after_cancel = (_, refl, refl)

-- The state after `finishes`.
finished :
    (s : System ℕ (Option ℕ) ℕ) × (play register finishes start ≡ some s)
    × (s.phase ≡ answered CheckResult.ok)
unfolding check_operations play assert_well_formed check_parallel make_entries from_entries
    head_next round Checker.start match_of Bitset.hash_with_bit Bitset.new Bitset.set lift unlink
    cache_push Bitset.ones
finished = (_, refl, refl)

small : (ops : List (Operation (Option ℕ) ℕ)) → Memᴰ ops (history ∷ []) → 2 * length ops < no_ref
small ops at = rw (Memᴰ.eq_of_singleton at) (omega arith)

check_operations_sound_example : Linearizable register 0 history
check_operations_sound_example =
    check_operations_sound register register-EqIsSound true no_sort true history (history ∷ []) refl
      (omega arith, (omega arith, tt)) small {r = CheckResult.ok} starts
      (play-Reach register finishes start finished.0 finished.1) finished.2 history (Memᴰ.head refl)

histories : (p : List (Entry (Option ℕ) ℕ)) → Memᴰ p (make_entries history ∷ []) → IsHistory p
histories p at =
    rw (Memᴰ.eq_of_singleton at)
      (make_entries-IsHistory history (omega arith, (omega arith, tt)) (omega arith))

check_parallel_sound_example : Accepts register (make_entries history)
check_parallel_sound_example =
    check_parallel_sound register register-EqIsSound no_sort true (make_entries history ∷ [])
      histories {r = CheckResult.ok} (play-Reach register finishes start finished.0 finished.1)
      finished.2 (make_entries history) (Memᴰ.head refl)

check_parallel_terminates_example :
    (bound : ℕ) × ((k : ℕ) (s : System ℕ (Option ℕ) ℕ) → Reach register start k s → k ≤ bound)
check_parallel_terminates_example =
    check_parallel_terminates register register-EqIsSound (make_entries history ∷ []) histories
      no_sort true

check_parallel_answers_example : Answering register start
check_parallel_answers_example =
    check_parallel_answers register register-EqIsSound no_sort true (make_entries history ∷ [])
      histories here
