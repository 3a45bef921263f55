-- ===== src/Bits/Halving.antt =====
-- Induction from half a number to the number.
use porcupine_rust.Base.{ℕ, zero, suc, ◌/◌, ◌≤◌, arith}

module _ {ℓ} (P : ℕ → Type ℓ) (base : P 0) (double : (a : ℕ) → P (suc a / 2) → P (suc a)) where
  halving_up_to : (n a : ℕ) → a ≤ n → P a
  halving_up_to n zero h = base
  halving_up_to zero (suc a) h = absurd (omega arith)
  halving_up_to (suc n) (suc a) h = double a (halving_up_to n (suc a / 2) (omega arith))

  pub halving : (a : ℕ) → P a
  halving a = halving_up_to a a (omega arith)
