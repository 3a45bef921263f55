-- ===== src/Bitset/Probe.antt =====
-- `eq_with_bit` compares with the bitset that `set` would give, without making it.
use porcupine_rust.Base.{
  ℕ, zero, suc, ◌+◌, ◌/◌, ◌%◌, ◌^◌, ◌<◌, bit_or, ◌≡◌, refl, arith, some, [], ◌∷◌, length, get_elem?,
  set as write, length-set, get_elem?_of_lt, true, ◌↔◌,
}
use porcupine_rust.Bitset.{Bitset, set, eq_words, eq_with_bit}
use porcupine_rust.Bitset.Index.{InRange, set_eq}

-- Past the word of the position the loop compares the rest as it is.
eq_words_past :
    (major minor i : ℕ) (b other : Bitset)
    → major < i
    → length b ≡ length other
    → (eq_words major minor i b other ≡ true) ↔ (b ≡ other)
unfolding eq_words
eq_words_past major minor i [] [] h l = (λ _. refl, λ _. refl)
eq_words_past major minor i [] (c ∷ other) h l = absurd (omega arith)
eq_words_past major minor i (a ∷ b) [] h l = absurd (omega arith)
eq_words_past major minor i (a ∷ b) (c ∷ other) h l =
    ground (arith, eq_words_past major minor (i + 1) b other)

eq_words_at :
    (k major minor i w : ℕ) (b other : Bitset)
    → major ≡ i + k
    → get_elem? b k ≡ some w
    → length b ≡ length other
    → (eq_words major minor i b other ≡ true) ↔ (write b k (bit_or w (2 ^ minor)) ≡ other)
unfolding eq_words
eq_words_at k major minor i w [] other h g l = absurd (cc)
eq_words_at k major minor i w (a ∷ b) [] h g l = absurd (omega arith)
eq_words_at zero major minor i w (a ∷ b) (c ∷ other) h g l =
    ground (arith, eq_words_past major minor (i + 1) b other)
eq_words_at (suc k) major minor i w (a ∷ b) (c ∷ other) h g l =
    ground (arith, eq_words_at k major minor (i + 1) w b other)

-- For a position in range, the probe answers true exactly when `other` is what `set` gives.
pub eq_with_bit_iff :
    (b : Bitset) (pos : ℕ) (other : Bitset)
    → InRange b pos
    → (eq_with_bit b pos other ≡ true) ↔ (set b pos ≡ some other)
unfolding eq_with_bit
eq_with_bit_iff b pos other h =
    let (w, e) = get_elem?_of_lt b (pos / 64) h in
    let v = bit_or w (2 ^ (pos % 64)) in
    ground (
      arith,
      set_eq b pos w e,
      length-set b (pos / 64) v,
      eq_words_at (pos / 64) (pos / 64) (pos % 64) 0 w b other,
    )
