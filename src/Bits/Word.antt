-- ===== src/Bits/Word.antt =====
-- Single bits of a word, and what `|`, `&` with a mask of one bit, and `^` do to them.
use native.Mathlib.Nat.{pow-suc}
use porcupine_rust.Base.{
  ℕ, zero, suc, ◌+◌, ◌-◌, ◌*◌, ◌/◌, ◌%◌, ◌^◌, ◌<◌, bit_and, bit_or, min, max, ◌≡◌, ◌≢◌, refl, ap,
  arith,
}
use porcupine_rust.Bits.Halving.{halving}
use porcupine_rust.Bits.Step.{bit_or_step, bit_and_step}

-- Bit `m` of `a`.
unfoldable pub bit : ℕ → ℕ → ℕ
bit a zero = a % 2
bit a (suc m) = bit (a / 2) m

pub bit-lt : (a m : ℕ) → bit a m < 2
unfolding bit
bit-lt a zero = omega arith
bit-lt a (suc m) = bit-lt (a / 2) m

pub bit_or-zero : (a : ℕ) → bit_or a 0 ≡ a
bit_or-zero = halving (λ a. bit_or a 0 ≡ a) refl (λ a ih. omega (arith, bit_or_step (suc a) 0, ih))

-- `a | (1 << m)` adds the bit if it is missing.
pub bit_or-pow : (m a : ℕ) → bit_or a (2 ^ m) + bit a m * 2 ^ m ≡ a + 2 ^ m
unfolding bit
bit_or-pow zero a = omega (arith, bit_or_step a 1, bit_or-zero (a / 2))
bit_or-pow (suc m) a = ground (
  arith,
  bit_or_step a (2 ^ suc m),
  pow-suc 2 m,
  bit_or-pow m (a / 2),
  ap (λ (t : ℕ). bit (a / 2) m * t) (pow-suc 2 m),
)

bit_and-zero : (a : ℕ) → bit_and a 0 ≡ 0
bit_and-zero =
    halving (λ a. bit_and a 0 ≡ 0) refl (λ a ih. omega (arith, bit_and_step (suc a) 0, ih))

-- A mask of `k` ones keeps a word of `k` bits.
bit_and-ones : (k a : ℕ) → a < 2 ^ k → bit_and a (2 ^ k - 1) ≡ a
bit_and-ones zero a h = ground (arith, bit_and-zero a)
bit_and-ones (suc k) a h =
    ground (arith, bit_and_step a (2 ^ suc k - 1), pow-suc 2 k, bit_and-ones k (a / 2))

pow_pos : (m : ℕ) → 0 < 2 ^ m
pow_pos zero = omega arith
pow_pos (suc m) = ground (arith, pow-suc 2 m, pow_pos m)

pub pow_lt : (m k : ℕ) → m < k → 2 ^ m < 2 ^ k
pow_lt m zero h = absurd (omega arith)
pow_lt zero (suc k) h = ground (arith, pow-suc 2 k, pow_pos k)
pow_lt (suc m) (suc k) h = ground (arith, pow-suc 2 k, pow-suc 2 m, pow_lt m k)

-- `a & !(1 << m)` in `k` bits takes the bit away if it is there.
pub bit_and-not_pow :
    (m k a : ℕ) → m < k → a < 2 ^ k → bit_and a (2 ^ k - 1 - 2 ^ m) + bit a m * 2 ^ m ≡ a
unfolding bit
bit_and-not_pow m zero a p h = absurd (omega arith)
bit_and-not_pow zero (suc k) a p h =
    ground (arith, bit_and_step a (2 ^ suc k - 1 - 1), pow-suc 2 k, bit_and-ones k (a / 2))
bit_and-not_pow (suc m) (suc k) a p h = ground (
  arith,
  bit_and_step a (2 ^ suc k - 1 - 2 ^ suc m),
  pow-suc 2 k,
  pow-suc 2 m,
  pow_lt m k,
  bit_and-not_pow m k (a / 2),
  ap (λ (t : ℕ). bit (a / 2) m * t) (pow-suc 2 m),
)

-- Each bit of `a | b` and of `a & b`.
pub bit-bit_or : (j a b : ℕ) → bit (bit_or a b) j ≡ max (bit a j) (bit b j)
unfolding bit
bit-bit_or zero a b = omega (arith, bit_or_step a b)
bit-bit_or (suc j) a b =
    let half : bit_or a b / 2 ≡ bit_or (a / 2) (b / 2) = omega (arith, bit_or_step a b) in
    rw half (bit-bit_or j (a / 2) (b / 2))

pub bit-bit_and : (j a b : ℕ) → bit (bit_and a b) j ≡ min (bit a j) (bit b j)
unfolding bit
bit-bit_and zero a b = omega (arith, bit_and_step a b)
bit-bit_and (suc j) a b =
    let half : bit_and a b / 2 ≡ bit_and (a / 2) (b / 2) = omega (arith, bit_and_step a b) in
    rw half (bit-bit_and j (a / 2) (b / 2))

pow_half : (m : ℕ) → 2 ^ suc m / 2 ≡ 2 ^ m
pow_half m = omega (arith, pow-suc 2 m)

pub bit-zero : (j : ℕ) → bit 0 j ≡ 0
unfolding bit
bit-zero zero = refl
bit-zero (suc j) = bit-zero j

pub bit-pow_self : (m : ℕ) → bit (2 ^ m) m ≡ 1
unfolding bit
bit-pow_self zero = refl
bit-pow_self (suc m) = rw (pow_half m) (bit-pow_self m)

pub bit-pow_ne : (m j : ℕ) → m ≢ j → bit (2 ^ m) j ≡ 0
unfolding bit
bit-pow_ne zero zero h = absurd (h refl)
bit-pow_ne zero (suc j) h = bit-zero j
bit-pow_ne (suc m) zero h = omega (arith, pow-suc 2 m)
bit-pow_ne (suc m) (suc j) h = rw (pow_half m) (bit-pow_ne m j (omega arith))

bit-ones : (k j : ℕ) → j < k → bit (2 ^ k - 1) j ≡ 1
unfolding bit
bit-ones zero j h = absurd (omega arith)
bit-ones (suc k) zero h = omega (arith, pow-suc 2 k, pow_pos k)
bit-ones (suc k) (suc j) h =
    let half : (2 ^ suc k - 1) / 2 ≡ 2 ^ k - 1 = omega (arith, pow-suc 2 k, pow_pos k) in
    rw half (bit-ones k j (omega arith))

-- The mask `!(1 << m)` has every bit but `m`.
pub bit-not_pow : (m k j : ℕ) → m < k → j < k → bit (2 ^ k - 1 - 2 ^ m) j + bit (2 ^ m) j ≡ 1
unfolding bit
bit-not_pow m zero j p q = absurd (omega arith)
bit-not_pow zero (suc k) zero p q = omega (arith, pow-suc 2 k, pow_pos k)
bit-not_pow zero (suc k) (suc j) p q =
    let half : (2 ^ suc k - 1 - 1) / 2 ≡ 2 ^ k - 1 = omega (arith, pow-suc 2 k, pow_pos k) in
    rw half (omega (arith, bit-ones k j (omega arith), bit-zero j))
bit-not_pow (suc m) (suc k) zero p q =
    omega (arith, pow-suc 2 k, pow-suc 2 m, pow_lt m k (omega arith))
bit-not_pow (suc m) (suc k) (suc j) p q =
    let half : (2 ^ suc k - 1 - 2 ^ suc m) / 2 ≡ 2 ^ k - 1 - 2 ^ m =
      omega (arith, pow-suc 2 k, pow-suc 2 m, pow_lt m k (omega arith)) in
    rw (half, pow_half m) (bit-not_pow m k j (omega arith) (omega arith))

-- `|` and `&` stay in the word.
pub bit_or-lt : (k a b : ℕ) → a < 2 ^ k → b < 2 ^ k → bit_or a b < 2 ^ k
bit_or-lt zero a b p q = ground (arith, bit_or-zero 0)
bit_or-lt (suc k) a b p q = omega (
  arith,
  bit_or_step a b,
  pow-suc 2 k,
  bit_or-lt k (a / 2) (b / 2) (omega (arith, pow-suc 2 k)) (omega (arith, pow-suc 2 k)),
)
