-- ===== src/Tests/History.antt =====
-- `check_single` on the entries of a history of a register.
use porcupine_rust.Base.{ℕ, ◌≡◌, refl, arith, true, false, ◌⊎◌, Option, none, some, List, [], ◌∷◌}
use porcupine_rust.Types.{Operation}
use porcupine_rust.Assertions.{assert_minimal_call}
use porcupine_rust.Bitset
use porcupine_rust.Arena.{from_entries, head_next, next_of, match_of, lift, unlift, unlink, relink}
use porcupine_rust.Entries.{make_entries}
use porcupine_rust.Entries.Histories.{IsWellFormed}
use porcupine_rust.Checker.{returned, check_single, cache_push}
use porcupine_rust.Checker.Explore.{never}
use porcupine_rust.Checker.Verdict.{enough_fuel}
use porcupine_rust.Checker.Linearizable.{Linearizable}
use porcupine_rust.Checker.History.{check_single-make_entries, check_single-make_entries_sound}
use porcupine_rust.Tests.Register.{register, register-EqIsSound}
use porcupine_rust.Tests.Entries.{history}

history-IsWellFormed : IsWellFormed history
history-IsWellFormed = (omega arith, (omega arith, tt))

runs : check_single register never 30 (make_entries history) ≡ returned true
unfolding check_single from_entries head_next next_of match_of Bitset.hash_with_bit Bitset.new
    Bitset.set Bitset.clear lift unlift unlink relink cache_push Bitset.ones make_entries
runs = refl

check_single-make_entries_example :
    ((check_single register never (enough_fuel 2) (make_entries history) ≡ returned true)
      × Linearizable register 0 history)
    ⊎ ((check_single register never (enough_fuel 2) (make_entries history) ≡ returned false)
        × ¬ Linearizable register 0 history)
check_single-make_entries_example =
    check_single-make_entries register register-EqIsSound history (enough_fuel 2)
      history-IsWellFormed (omega arith) (omega arith)

check_single-make_entries_sound_example : Linearizable register 0 history
check_single-make_entries_sound_example =
    check_single-make_entries_sound register register-EqIsSound never 30 history
      history-IsWellFormed (omega arith) runs

-- A read of 1 that is called before the write of 1, and returns after it.
abbrev read_around_write : List (Operation (Option ℕ) ℕ)
read_around_write =
    record { client_id = 0; input = none; call = 0; output = 1; return_time = 10 }
    ∷ record { client_id = 1; input = some 1; call = 5; output = 0; return_time = 6 }
    ∷ []

-- The search accepts it, by the write first; the write is no minimal call.
accepts_later_call : check_single register never 30 (make_entries read_around_write) ≡ returned true
unfolding check_single from_entries head_next next_of match_of Bitset.hash_with_bit Bitset.new
    Bitset.set Bitset.clear lift unlift unlink relink cache_push Bitset.ones make_entries
    Bitset.eq_with_bit
accepts_later_call = refl

not_minimal :
    assert_minimal_call
      (record { client_id = 1; input = some 1; call = 5; output = 0; return_time = 6 })
      read_around_write
      []
    ≡ false
unfolding assert_minimal_call
not_minimal = refl

-- The read cannot come first.
read_refused : register.step 0 none 1 ≡ none
read_refused = refl
