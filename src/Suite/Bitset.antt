-- ===== src/Suite/Bitset.antt =====
-- The unit tests of src/bitset.rs.
use porcupine_rust.Base.{◌≡◌, refl, Bool, true, false, ◌&&◌, some, [], ◌∷◌, ◌==◌, replicate}
use porcupine_rust.Base.Do.{◌>>=◌}
use porcupine_rust.Bitset
use porcupine_rust.Suite.{passed}
use porcupine_rust.Bitset.{Bitset, new, set, clear, popcnt, hash}

-- The derived `PartialEq`.
abbrev words_eq : Bitset → Bitset → Bool
words_eq [] [] = true
words_eq (a ∷ b) (c ∷ other) = a == c && words_eq b other
words_eq b other = false

abbrev test_set_clear : Bool
test_set_clear = passed (do
  b ← set (new 128) 0
  b ← set b 63
  b ← set b 64
  b ← set b 127
  cleared ← clear b 63
  some (popcnt b == 4 && popcnt cleared == 3))

abbrev test_hash_deterministic : Bool
test_hash_deterministic = passed (do
  b1 ← set (new 64) 3
  b1 ← set b1 7
  b2 ← set (new 64) 3
  b2 ← set b2 7
  some (hash b1 == hash b2 && words_eq b1 b2))

abbrev test_clone_independence : Bool
test_clone_independence =
    passed (do b1 ← set (new 64) 5; b2 ← set b1 10; some (popcnt b1 == 1 && popcnt b2 == 2))

-- All of them pass.
bitset_tests_pass :
    (test_set_clear ∷ test_hash_deterministic ∷ test_clone_independence ∷ []) ≡ replicate 3 true
unfolding new set clear popcnt hash Bitset.ones
bitset_tests_pass = refl
