-- ===== src/Tests/Events.antt =====
-- `check_events` on the events of two operations of a register, in one order of the threads' steps.
use mathlib.Core.List.{Memᴰ}
use mathlib.Core.List.Memᴰ
use porcupine_rust.Base.{ℕ, ◌≡◌, refl, arith, Bool, true, Option, none, some, List, [], ◌∷◌, length}
use porcupine_rust.Bitset
use porcupine_rust.Types.{Operation, Event, CheckResult}
use porcupine_rust.Entry.{Entry}
use porcupine_rust.Arena.{from_entries, head_next, match_of, lift, unlink}
use porcupine_rust.Entries.{renumber, convert_entries, make_entries, find_id}
use porcupine_rust.Entries.Histories.{IsWellFormed}
use porcupine_rust.Checker
use porcupine_rust.Checker.{round, cache_push}
use porcupine_rust.Parallel.{Sorts, System, answered, check_parallel}
use porcupine_rust.Parallel.Schedule.{play, play-Reach}
use porcupine_rust.Assertions.{assert_well_formed_events}
use porcupine_rust.Checks.{collect, check_events, check_operations}
use porcupine_rust.Checks.Operations.{Says}
use porcupine_rust.Checks.Events.{operations_of}
use porcupine_rust.Checks.Events.Agree.{convert_entries-make_entries}
use porcupine_rust.Checks.Events.Answers.{check_events_sound, check_events-check_operations}
use porcupine_rust.Checks.Events.Groups.{IsChecked}
use porcupine_rust.Tests.Register.{register, register-EqIsSound}
use porcupine_rust.Tests.Entries.{events}
use porcupine_rust.Tests.Parallel.{no_sort, finishes}

passes_assertion : assert_well_formed_events events ≡ true
unfolding assert_well_formed_events find_id
passes_assertion = refl

-- The operation of a call is called and returns at the positions of its events.
holds_operations :
    operations_of events
    ≡ some (
        record { client_id = 0; input = some 1; call = 0; output = 0; return_time = 2 }
        ∷ record { client_id = 1; input = none; call = 1; output = 1; return_time = 3 }
        ∷ [])
unfolding operations_of
holds_operations = refl

convert_entries-make_entries_example :
    (ops : List (Operation (Option ℕ) ℕ)) × (operations_of events ≡ some ops)
    × IsWellFormed ops
    × (convert_entries (renumber events) ≡ some (make_entries ops))
    × (length (make_entries ops) ≡ length events)
convert_entries-make_entries_example = convert_entries-make_entries events passes_assertion

check_events-check_operations_example :
    (ops : List (Operation (Option ℕ) ℕ)) × (operations_of events ≡ some ops)
    × ((debug : Bool) (sorts : Sorts (List (Entry (Option ℕ) ℕ))) (timeout : Bool)
        → check_events register debug sorts timeout events
          ≡ check_operations register debug sorts timeout ops)
check_events-check_operations_example =
    check_events-check_operations register events passes_assertion refl (λ ops. refl)

-- The check, and its state after `finishes`.
checked :
    (start s : System ℕ (Option ℕ) ℕ) × (check_events register true no_sort true events
      ≡ some start)
    × (play register finishes start ≡ some s)
    × (s.phase ≡ answered CheckResult.ok)
unfolding check_events play assert_well_formed_events check_parallel convert_entries renumber
    from_entries head_next round Checker.start match_of Bitset.hash_with_bit Bitset.new Bitset.set
    lift unlink cache_push Bitset.ones find_id
checked = (_, _, refl, refl, refl)

is_checked : (g : List (Event (Option ℕ) ℕ)) → Memᴰ g (events ∷ []) → IsChecked g
is_checked g at = rw (Memᴰ.eq_of_singleton at) (passes_assertion, omega arith)

check_events_sound_example :
    (histories : List (List (Operation (Option ℕ) ℕ))) × (collect operations_of (events ∷ [])
      ≡ some histories)
    × Says register histories true CheckResult.ok
check_events_sound_example =
    check_events_sound register register-EqIsSound true no_sort true events (events ∷ []) refl
      is_checked checked.2 (play-Reach register finishes checked.0 checked.1 checked.3) checked.4
