-- ===== src/Bitset/Index.antt =====
-- Reads and writes of one word.
use porcupine_rust.Base.{
  ℕ, zero, suc, ◌-◌, ◌/◌, ◌%◌, ◌^◌, ◌<◌, bit_and, bit_or, bit_xor, ◌≡◌, refl, arith, Option, none,
  some, [], ◌∷◌, length, get_elem?, set as write, get_elem?_of_lt, Bool, ◌==◌, false,
}
use porcupine_rust.Bitset.{Bitset, set, clear, hash, hash_with_bit}
use porcupine_rust.Bits.{bit}

-- A position that the bitset has a word for.
abbrev pub InRange : Bitset → ℕ → Type 0
InRange b pos = pos / 64 < length b

-- Every word fits 64 bits.
abbrev pub IsWords : Bitset → Type 0
IsWords [] = Unit {0}
IsWords (w ∷ b) = (w < 2 ^ 64) × IsWords b

pub IsWords-get_elem? : (b : Bitset) (i w : ℕ) → IsWords b → get_elem? b i ≡ some w → w < 2 ^ 64
IsWords-get_elem? [] i w h e = ground arith
IsWords-get_elem? (v ∷ b) zero w h e = ground arith
IsWords-get_elem? (v ∷ b) (suc i) w h e = IsWords-get_elem? b i w h.1 e

pub IsWords-write : (b : Bitset) (i w : ℕ) → IsWords b → w < 2 ^ 64 → IsWords (write b i w)
IsWords-write [] i w h p = tt
IsWords-write (v ∷ b) zero w h p = (p, h.1)
IsWords-write (v ∷ b) (suc i) w h p = (h.0, IsWords-write b i w h.1 p)

-- The bit at `pos`, in arithmetic; a position out of range is not set.
abbrev pub bit_of : Option ℕ → ℕ → Bool
bit_of none minor = false
bit_of (some w) minor = bit w minor == 1

unfoldable pub test : Bitset → ℕ → Bool
test b pos = bit_of (get_elem? b (pos / 64)) (pos % 64)

-- In range, `set` and `clear` write one word.
pub set_eq :
    (b : Bitset) (pos w : ℕ)
    → get_elem? b (pos / 64) ≡ some w
    → set b pos ≡ some (write b (pos / 64) (bit_or w (2 ^ (pos % 64))))
unfolding set
set_eq b pos w e = rw e

pub clear_eq :
    (b : Bitset) (pos w : ℕ)
    → get_elem? b (pos / 64) ≡ some w
    → clear b pos ≡ some (write b (pos / 64) (bit_and w (2 ^ 64 - 1 - 2 ^ (pos % 64))))
unfolding clear
clear_eq b pos w e = rw e

pub set_inv :
    (b c : Bitset) (pos : ℕ)
    → set b pos ≡ some c
    → (w : ℕ) × (get_elem? b (pos / 64) ≡ some w)
      × (c ≡ write b (pos / 64) (bit_or w (2 ^ (pos % 64))))
unfolding set
set_inv b c pos e = ground arith

-- In range, the key of the cache is there.
pub hash_with_bit-some :
    (b : Bitset) (pos : ℕ) → InRange b pos → (h : ℕ) × (hash_with_bit b pos ≡ some h)
unfolding hash_with_bit
hash_with_bit-some b pos h =
    let (w, e) = get_elem?_of_lt b (pos / 64) h in
    (bit_xor (bit_xor (bit_xor (hash b) w) (bit_or w (2 ^ (pos % 64)))) 1, rw e refl)
