-- ===== src/Tests/Search.antt =====
-- `check_single` over a write of 1 that wraps a read.
use porcupine_rust.Base.{ℕ, true, false, ◌≡◌, refl, ◌⊎◌, arith}
use porcupine_rust.Bitset
use porcupine_rust.Arena.{from_entries, head_next, next_of, match_of, lift, unlift, unlink, relink}
use porcupine_rust.Checker.{returned, check_single, cache_push}
use porcupine_rust.Checker.Order.{Orders}
use porcupine_rust.Checker.Explore.{never}
use porcupine_rust.Checker.Verdict.{enough_fuel}
use porcupine_rust.Checker.Correct.{IsHistory, entries_of, check_single-decides, check_single_sound}
use porcupine_rust.Tests.Register.{register, register-EqIsSound, write_around_read}

write_around_read-IsHistory : (n : ℕ) → IsHistory (write_around_read n)
write_around_read-IsHistory n = record {
  paired = ((_, 0, refl, refl), ((_, n, refl, refl), (refl, (refl, tt))));
  ids = (omega arith, (omega arith, (omega arith, (omega arith, tt))));
  even = refl;
  fits = omega arith;
}

runs_one : check_single register never 30 (write_around_read 1) ≡ returned true
unfolding check_single from_entries head_next next_of match_of Bitset.hash_with_bit Bitset.new
    Bitset.set Bitset.clear lift unlift unlink relink cache_push Bitset.ones
runs_one = refl

-- A read of 2, which nobody writes, is found illegal after the search has backtracked.
runs_two : check_single register never 30 (write_around_read 2) ≡ returned false
unfolding check_single from_entries head_next next_of match_of Bitset.hash_with_bit Bitset.new
    Bitset.set Bitset.clear lift unlift unlink relink cache_push Bitset.ones
runs_two = refl

check_single-decides_example :
    ((check_single register never (enough_fuel 2) (write_around_read 2) ≡ returned true)
      × Orders register 0 (entries_of register (write_around_read 2)))
    ⊎ ((check_single register never (enough_fuel 2) (write_around_read 2) ≡ returned false)
        × ¬ Orders register 0 (entries_of register (write_around_read 2)))
check_single-decides_example =
    check_single-decides register register-EqIsSound (write_around_read 2) (enough_fuel 2)
      (write_around_read-IsHistory 2) (omega arith)

check_single_sound_example : Orders register 0 (entries_of register (write_around_read 1))
check_single_sound_example =
    check_single_sound register register-EqIsSound never 30 (write_around_read 1)
      (write_around_read-IsHistory 1) runs_one
