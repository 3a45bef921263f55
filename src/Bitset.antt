-- ===== src/Bitset.antt =====
-- src/bitset.rs: a set of positions as 64-bit words. `none` is the panic of an index out of range.
pub mod Index
pub mod Member
pub mod Probe
pub mod Hash
use porcupine_rust.Base.{
  ℕ, zero, suc, ◌+◌, ◌-◌, ◌/◌, ◌%◌, ◌^◌, bit_and, bit_or, bit_xor, Bool, true, false, not, ◌&&◌,
  Option, none, some, List, [], ◌∷◌, ◌==◌, if◌then◌else◌, length, get_elem?, set as write,
  replicate,
}
use porcupine_rust.Base.Do.{◌>>=◌}

-- `SmallVec<[u64; 4]>`; each word is below 2 ^ 64.
abbrev pub Bitset : Type 0
Bitset = List ℕ

unfoldable pub new : ℕ → Bitset
new n = replicate ((n + 63) / 64) 0

unfoldable pub index : ℕ → ℕ × ℕ
index pos = (pos / 64, pos % 64)

-- `1u64 << minor`, for `minor < 64`.
abbrev pub mask : ℕ → ℕ
mask minor = 2 ^ minor

-- `!w` on 64 bits.
abbrev pub complement : ℕ → ℕ
complement w = 2 ^ 64 - 1 - w

unfoldable pub set : Bitset → ℕ → Option Bitset
unfolding index
set b pos = do
  let (major, minor) = index pos
  w ← get_elem? b major
  some (write b major (bit_or w (mask minor)))

unfoldable pub clear : Bitset → ℕ → Option Bitset
unfolding index
clear b pos = do
  let (major, minor) = index pos
  w ← get_elem? b major
  some (write b major (bit_and w (complement (mask minor))))

-- `count_ones` of the lowest `k` bits.
unfoldable pub ones : ℕ → ℕ → ℕ
ones zero w = 0
ones (suc k) w = w % 2 + ones k (w / 2)

abbrev pub count_ones : ℕ → ℕ
count_ones w = ones 64 w

unfoldable pub popcnt : Bitset → ℕ
popcnt [] = 0
popcnt (w ∷ b) = count_ones w + popcnt b

-- The loop of `hash`: `h ^= v` for each word.
unfoldable pub fold_words : ℕ → Bitset → ℕ
fold_words h [] = h
fold_words h (v ∷ b) = fold_words (bit_xor h v) b

unfoldable pub hash : Bitset → ℕ
unfolding fold_words popcnt
hash b = fold_words (popcnt b) b

unfoldable pub hash_with_bit : Bitset → ℕ → Option ℕ
unfolding index hash
hash_with_bit b pos = do
  let (major, minor) = index pos
  old_word ← get_elem? b major
  let new_word = bit_or old_word (mask minor)
  some (bit_xor (bit_xor (bit_xor (hash b) old_word) new_word) 1)

-- The loop of `eq_with_bit` from word `i` on, over the zip of both.
unfoldable pub eq_words : ℕ → ℕ → ℕ → Bitset → Bitset → Bool
eq_words major minor i [] other = true
eq_words major minor i (a ∷ b) [] = true
eq_words major minor i (a ∷ b) (c ∷ other) =
    let a_adj = if i == major then bit_or a (mask minor) else a in
    if not (a_adj == c) then false else eq_words major minor (i + 1) b other

unfoldable pub eq_with_bit : Bitset → ℕ → Bitset → Bool
unfolding index eq_words
eq_with_bit b pos other =
    if not (length b == length other)
    then false
    else let (major, minor) = index pos in eq_words major minor 0 b other
