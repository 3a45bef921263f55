-- ===== src/Bits/Step.antt =====
-- `|`, `&` and `^` digit by digit: each says what it does to the lowest binary digit.
use Prim.Native.Nat.{bit_or-bitwise, bit_and-bitwise, bit_xor-bitwise, bitwise, differ, digits}
use porcupine_rust.Base.{
  arith, refl, ap, ◌≡◌, ◌≤◌, ◌<◌, ℕ, zero, suc, ◌%◌, ◌/◌, ◌*◌, ◌+◌, max, min, bit_xor, bit_or,
  bit_and,
}

module _ (tail : ℕ → ℕ) (op : ℕ → ℕ → ℕ) where
  -- A count of digits that covers `x` gives what any other such count gives.
  same_count : (x y k l : ℕ) → x ≤ l → x ≤ k → digits tail op l x y ≡ digits tail op k x y
  same_count (suc x) y (suc k) (suc l) q p =
      ap (λ r. r * 2 + op (suc x % 2) (y % 2))
        (same_count (suc x / 2) (y / 2) k l (omega arith) (omega arith))
  same_count zero y (suc k) (suc l) q p = refl
  same_count zero y zero zero q p = refl
  same_count zero y (suc k) zero q p = refl
  same_count zero y zero (suc l) q p = refl
  same_count (suc x) y zero l q p = absurd (omega arith)
  same_count (suc x) y (suc k) zero q p = absurd (omega arith)

  -- The recursion on digits, with no count.
  one_digit :
      (x y : ℕ)
      → bitwise tail op (suc x) y ≡ bitwise tail op (suc x / 2) (y / 2) * 2 + op (suc x % 2) (y % 2)
  one_digit x y =
      ap (λ r. r * 2 + op (suc x % 2) (y % 2))
        (same_count (suc x / 2) (y / 2) (suc x / 2) x (omega arith) (omega arith))

differ_lem : (x y : ℕ) → x < 2 → y < 2 → differ x y ≡ (x + y) % 2
differ_lem zero y p q = omega arith
differ_lem (suc x) zero p q = omega arith
differ_lem (suc zero) (suc zero) p q = refl
differ_lem (suc zero) (suc (suc y)) p q = absurd (omega arith)
differ_lem (suc (suc x)) (suc y) p q = absurd (omega arith)

-- The lowest digit of an exclusive or is the sum of the lowest digits, mod 2.
pub bit_xor_step : (x y : ℕ) → bit_xor x y ≡ bit_xor (x / 2) (y / 2) * 2 + (x % 2 + y % 2) % 2
bit_xor_step zero y = simp bit_xor-bitwise (omega arith)
bit_xor_step (suc x) y =
    let digit = differ_lem (suc x % 2) (y % 2) (omega arith) (omega arith) in
    simp bit_xor-bitwise (omega (arith, one_digit (λ t. t) differ x y, digit))

-- That of an intersection is the lesser one.
pub bit_and_step : (x y : ℕ) → bit_and x y ≡ bit_and (x / 2) (y / 2) * 2 + min (x % 2) (y % 2)
bit_and_step zero y = simp bit_and-bitwise (omega arith)
bit_and_step (suc x) y = simp bit_and-bitwise (one_digit (λ t. 0) min x y)

-- That of a union is the greater one.
pub bit_or_step : (x y : ℕ) → bit_or x y ≡ bit_or (x / 2) (y / 2) * 2 + max (x % 2) (y % 2)
bit_or_step zero y = simp bit_or-bitwise (omega arith)
bit_or_step (suc x) y = simp bit_or-bitwise (one_digit (λ t. t) max x y)
