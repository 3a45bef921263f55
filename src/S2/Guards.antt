-- ===== src/S2/Guards.antt =====
-- The guards of an append, as conditions on the stream.
use Prim.Native.String.{String}
use text.Mathlib.Text.{◌==◌ as str_eq}
use text.Mathlib.TextEquality.{eq_iff}
use porcupine_rust.Base.{
  ℕ, ◌≡◌, refl, sym, arith, true, false, Option, none, some, ==_iff, ==_refl, inl, inr, ◌⊎◌, ◌↔◌,
  ap,
}
use porcupine_rust.S2.{tokens_differ, token_missing, seq_num_differs, token_eq}

-- The stream's token is the one that the append asks for, if it asks for one.
abbrev pub TokenHolds : Option String → Option String → Type 0
TokenHolds asked token = (asked ≡ none) ⊎ (asked ≡ token)

-- The stream's tail is the one that the append asks for, if it asks for one.
abbrev pub SeqHolds : Option ℕ → ℕ → Type 0
SeqHolds asked tail = (asked ≡ none) ⊎ (asked ≡ some tail)

pub seq_num_iff :
    (asked : Option ℕ) (tail : ℕ) → (seq_num_differs asked tail ≡ false) ↔ SeqHolds asked tail
seq_num_iff none tail = (λ h. inl refl, λ h. refl)
seq_num_iff (some n) tail = (
  λ h. inr (ap some ((==_iff n tail).0 (ground arith))),
  λ h. elim h [
    | inl e ↦ absurd (cc)
    | inr e ↦ let same : n ≡ tail = cc in rw (same, ==_refl tail) refl
  ],
)

str_eq_refl : (s : String) → str_eq s s ≡ true
str_eq_refl s = (eq_iff s s).1 refl

pub token_missing_iff :
    (asked token : Option String) → (token_missing asked token ≡ false) ↔ TokenHolds asked token
token_missing_iff none token = (λ h. inl refl, λ h. refl)
token_missing_iff (some bt) none =
    (λ h. absurd (cc), λ h. elim h [ inl e ↦ absurd (cc) | inr e ↦ absurd (cc) ])
token_missing_iff (some bt) (some ft) = (
  λ h. inr (ap some (sym ((eq_iff ft bt).0 (ground arith)))),
  λ h. elim h [
    | inl e ↦ absurd (cc)
    | inr e ↦ let same : bt ≡ ft = cc in rw (same, str_eq_refl ft) refl
  ],
)

pub tokens_differ_iff :
    (asked token : Option String)
    → (tokens_differ asked token ≡ false) ↔ ((token ≡ none) ⊎ TokenHolds asked token)
tokens_differ_iff none token = (λ h. inr (inl refl), λ h. refl)
tokens_differ_iff (some bt) none = (λ h. inl refl, λ h. refl)
tokens_differ_iff (some bt) (some ft) = (
  λ h. inr (inr (ap some ((eq_iff bt ft).0 (ground arith)))),
  λ h. elim h [
    | inl e ↦ absurd (cc)
    | inr (inl e) ↦ absurd (cc)
    | inr (inr e) ↦ let same : bt ≡ ft = cc in rw (same, str_eq_refl ft) refl
  ],
)

pub token_eq_sound : (s t : Option String) → token_eq s t ≡ true → s ≡ t
token_eq_sound none none h = refl
token_eq_sound none (some t) h = absurd (cc)
token_eq_sound (some s) none h = absurd (cc)
token_eq_sound (some s) (some t) h = ap some ((eq_iff s t).0 h)
