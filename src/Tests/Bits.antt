-- ===== src/Tests/Bits.antt =====
-- Bitsets at concrete positions.
use porcupine_rust.Base.{
  ℕ, true, false, ◌≡◌, refl, ◌↔◌, some, [], ◌∷◌, arith, ◌==◌, ◌||◌, ◌&&◌, not, length, ◌%◌,
}
use porcupine_rust.Bitset.{Bitset, set, clear, hash, hash_with_bit, popcnt, ones, eq_with_bit}
use porcupine_rust.Bits.{bit}
use porcupine_rust.Bitset.Index.{IsWords, test}
use porcupine_rust.Bitset.Member.{set_lem, clear_lem, clear-set}
use porcupine_rust.Bitset.Probe.{eq_with_bit_iff}
use porcupine_rust.Bitset.Hash.{hash_with_bit_key, hash_with_bit-hash_iff}

-- The positions 1 and 65 of 128.
abbrev two : Bitset
two = 2 ∷ 2 ∷ []

abbrev three : Bitset
three = 6 ∷ 2 ∷ []

two-IsWords : IsWords two
two-IsWords = omega arith

sets_two : set two 2 ≡ some three
unfolding set
sets_two = refl

off_two : test two 2 ≡ false
unfolding test bit
off_two = refl

set_lem_example :
    (c : Bitset) × (set two 2 ≡ some c)
    × (length c ≡ length two)
    × ((q : ℕ) → test c q ≡ (2 == q || test two q))
set_lem_example = set_lem two 2 (omega arith)

clear_lem_example :
    (c : Bitset) × (clear two 65 ≡ some c)
    × (length c ≡ length two)
    × ((q : ℕ) → test c q ≡ (not (65 == q) && test two q))
clear_lem_example = clear_lem two 65 (omega arith)

clear-set_example : clear three 2 ≡ some two
clear-set_example = clear-set two three 2 two-IsWords off_two sets_two

eq_with_bit_iff_example : (eq_with_bit two 2 three ≡ true) ↔ (set two 2 ≡ some three)
eq_with_bit_iff_example = eq_with_bit_iff two 2 three (omega arith)

abbrev other : Bitset
other = 4 ∷ 2 ∷ []

sets_other : set other 1 ≡ some three
unfolding set
sets_other = refl

off_other : test other 1 ≡ false
unfolding test bit
off_other = refl

hash_with_bit_key_example : hash_with_bit two 2 ≡ hash_with_bit other 1
hash_with_bit_key_example =
    hash_with_bit_key two other three 2 1 off_two sets_two off_other sets_other

hash_with_bit-hash_iff_example : (hash_with_bit two 2 ≡ some (hash three)) ↔ (popcnt two % 2 ≡ 0)
hash_with_bit-hash_iff_example = hash_with_bit-hash_iff two three 2 off_two sets_two

-- With one position set before, the two differ.
keys_of_two : (hash_with_bit (2 ∷ []) 2 ≡ some 6) × (hash (6 ∷ []) ≡ 4)
unfolding hash_with_bit hash popcnt ones
keys_of_two = (refl, refl)
