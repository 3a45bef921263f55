-- ===== src/Bits/Xor.antt =====
-- The group laws of `^`.
use Prim.Native.Nat.{bit_xor-bitwise}
use porcupine_rust.Base.{
  ℕ, zero, suc, ◌+◌, ◌*◌, ◌/◌, ◌%◌, ◌≤◌, bit_xor, ◌≡◌, refl, ap, ◌∙◌, sym, arith,
}
use porcupine_rust.Bits.Halving.{halving}
use porcupine_rust.Bits.Step.{bit_xor_step}

xor_half : (a b : ℕ) → bit_xor a b / 2 ≡ bit_xor (a / 2) (b / 2)
xor_half a b = omega (arith, bit_xor_step a b)

xor_mod : (a b : ℕ) → bit_xor a b % 2 ≡ (a % 2 + b % 2) % 2
xor_mod a b = omega (arith, bit_xor_step a b)

-- Equal halves and equal lowest bits make equal numbers.
eq_of_half : (x y : ℕ) → x / 2 ≡ y / 2 → x % 2 ≡ y % 2 → x ≡ y
eq_of_half x y p q = omega arith

zero-bit_xor : (b : ℕ) → bit_xor 0 b ≡ b
zero-bit_xor b = bit_xor-bitwise 0 b

pub xor_assoc : (a b c : ℕ) → bit_xor (bit_xor a b) c ≡ bit_xor a (bit_xor b c)
xor_assoc =
    halving (λ a. (b c : ℕ) → bit_xor (bit_xor a b) c ≡ bit_xor a (bit_xor b c))
      (λ b c. rw (zero-bit_xor b, zero-bit_xor (bit_xor b c)))
      λ a ih b c.
        eq_of_half _ _
          (rw
            (
              xor_half (bit_xor (suc a) b) c,
              xor_half (suc a) b,
              xor_half (suc a) (bit_xor b c),
              xor_half b c,
            )
            (ih (b / 2) (c / 2)))
          (omega (
            arith,
            xor_mod (bit_xor (suc a) b) c,
            xor_mod (suc a) b,
            xor_mod (suc a) (bit_xor b c),
            xor_mod b c,
          ))

pub xor_self : (a : ℕ) → bit_xor a a ≡ 0
xor_self =
    halving (λ a. bit_xor a a ≡ 0) refl (λ a ih. omega (arith, bit_xor_step (suc a) (suc a), ih))

pub xor-zero : (a : ℕ) → bit_xor a 0 ≡ a
xor-zero = halving (λ a. bit_xor a 0 ≡ a) refl (λ a ih. omega (arith, bit_xor_step (suc a) 0, ih))

xor_comm_fuel : (n a b : ℕ) → a + b ≤ n → bit_xor a b ≡ bit_xor b a
xor_comm_fuel n zero b h = rw (zero-bit_xor b, xor-zero b)
xor_comm_fuel n (suc a) zero h = rw (zero-bit_xor (suc a), xor-zero (suc a))
xor_comm_fuel zero (suc a) (suc b) h = absurd (omega arith)
xor_comm_fuel (suc n) (suc a) (suc b) h =
    eq_of_half _ _
      (rw (xor_half (suc a) (suc b), xor_half (suc b) (suc a))
        (xor_comm_fuel n (suc a / 2) (suc b / 2) (omega arith)))
      (omega (arith, xor_mod (suc a) (suc b), xor_mod (suc b) (suc a)))

pub xor_comm : (a b : ℕ) → bit_xor a b ≡ bit_xor b a
xor_comm a b = xor_comm_fuel (a + b) a b (omega arith)

-- Left cancellation.
pub xor_cancel : (a b c : ℕ) → bit_xor a b ≡ bit_xor a c → b ≡ c
xor_cancel a b c h = sym (undo b) ∙ ap (bit_xor a) h ∙ undo c
  where
    undo : (x : ℕ) → bit_xor a (bit_xor a x) ≡ x
    undo x = rw (← xor_assoc a a x, xor_self a) (zero-bit_xor x)

-- An exclusive or with 1 moves an even number up and an odd number down.
pub xor-one : (a : ℕ) → bit_xor a 1 + 2 * (a % 2) ≡ a + 1
xor-one a = omega (arith, bit_xor_step a 1, xor-zero (a / 2))
