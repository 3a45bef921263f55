-- ===== src/Partitions/Filled.antt =====
-- The indices with an owner in the table of a scan.
use porcupine_rust.Base.{
  ℕ, zero, suc, ◌≤◌, ◌<◌, ◌≡◌, refl, ap, sym, arith, Option, none, some, [], ◌∷◌, length, get_elem?,
  set, replicate, inl, inr, Option-cases,
}
use porcupine_rust.Base.Do.{not_none, some_inj}
use porcupine_rust.Partitions.{Owners, claim_index}

-- The number of indices with an owner.
abbrev pub filled : Owners → ℕ
filled [] = 0
filled (none ∷ t) = filled t
filled (some p ∷ t) = suc (filled t)

pub filled_le : (t : Owners) → filled t ≤ length t
filled_le [] = omega arith
filled_le (none ∷ t) = omega (arith, filled_le t)
filled_le (some p ∷ t) = omega (arith, filled_le t)

pub filled-set :
    (t : Owners) (i p : ℕ) → get_elem? t i ≡ some none → filled (set t i (some p)) ≡ suc (filled t)
filled-set [] i p h = absurd (cc)
filled-set (none ∷ t) zero p h = refl
filled-set (some q ∷ t) zero p h = absurd (cc)
filled-set (none ∷ t) (suc i) p h = filled-set t i p h
filled-set (some q ∷ t) (suc i) p h = ap suc (filled-set t i p h)

pub filled_all :
    (t : Owners) (i : ℕ)
    → filled t ≡ length t
    → i < length t
    → (p : ℕ) × (get_elem? t i ≡ some (some p))
filled_all [] i h l = absurd (omega arith)
filled_all (none ∷ t) i h l = absurd (omega (arith, filled_le t))
filled_all (some p ∷ t) zero h l = (p, refl)
filled_all (some p ∷ t) (suc i) h l = filled_all t i (omega arith) (omega arith)

pub filled-replicate : (n : ℕ) → filled (replicate n none) ≡ 0
filled-replicate zero = refl
filled-replicate (suc n) = filled-replicate n

pub unowned : (n i p : ℕ) → ¬ (get_elem? (replicate {A = Option ℕ} n none) i ≡ some (some p))
unowned zero i p h = cc
unowned (suc n) zero p h = cc
unowned (suc n) (suc i) p h = unowned n i p h

pub length-owners : (n : ℕ) → length (replicate {A = Option ℕ} n none) ≡ n
length-owners zero = refl
length-owners (suc n) = ap suc (length-owners n)

pub claim_index_inv :
    (p i : ℕ) (t t' : Owners)
    → claim_index p i t ≡ some t'
    → (get_elem? t i ≡ some none) × (t' ≡ set t i (some p))
unfolding claim_index
claim_index_inv p i t t' h = elim (Option-cases (get_elem? t i)) [
  | inl n ↦ absurd (not_none (rw (claim_index, n) at h))
  | inr (none, g) ↦ (g, sym (some_inj (rw (claim_index, g) at h)))
  | inr (some q, g) ↦ absurd (not_none (rw (claim_index, g) at h))
]
