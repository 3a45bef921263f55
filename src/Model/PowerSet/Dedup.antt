-- ===== src/Model/PowerSet/Dedup.antt =====
-- Deduplication: the same states remain, none of them twice, and both versions agree.
use mathlib.Core.List.{Memᴰ}
use mathlib.Core.List.Memᴰ
use porcupine_rust.Base.{
  true, false, ◌≡◌, refl, sym, arith, ◌||◌, List, [], ◌∷◌, ◌++◌, Bool-cases, inl, inr, ◌⊎◌, ◌↔◌,
}
use porcupine_rust.Model.PowerSet.{
  NondeterministicModel, contains, push_new, deduplicate, push_unseen, deduplicate_hashed,
}

-- States that compare equal are the same state.
abbrev pub EqIsSound : {S I O : Type 0} → NondeterministicModel S I O → Type 0
EqIsSound {S} m = (s t : S) → m.state_eq s t ≡ true → s ≡ t

module _ {S I O : Type 0} (m : NondeterministicModel S I O) where
  contains_mem : EqIsSound m → (l : List S) (s : S) → contains m l s ≡ true → Memᴰ s l
  unfolding contains
  contains_mem sound [] s h = absurd (cc)
  contains_mem sound (t ∷ l) s h = elim (Bool-cases (m.state_eq t s)) [
    | inl y ↦ Memᴰ.head (sym (sound t s y))
    | inr n ↦ Memᴰ.tail (contains_mem sound l s (ground arith))
  ]

  push_new_mem :
      EqIsSound m → (out l : List S) (x : S) → Memᴰ x (push_new m out l) ↔ (Memᴰ x out ⊎ Memᴰ x l)
  unfolding push_new
  push_new_mem sound out [] x = (inl, λ h. elim h [ inl p ↦ p | inr p ↦ absurd (Memᴰ.not-nil p) ])
  push_new_mem sound out (s ∷ l) x = elim (Bool-cases (contains m out s)) [
    | inl y ↦
        let (to, from) = push_new_mem sound out l x in
        rw y (
          λ h. elim (to h) [ inl p ↦ inl p | inr p ↦ inr (Memᴰ.tail p) ],
          λ h. elim h [
            | inl p ↦ from (inl p)
            | inr (Memᴰ.head e) ↦ from (inl (rw e (contains_mem sound out s y)))
            | inr (Memᴰ.tail p) ↦ from (inr p)
          ],
        )
    | inr n ↦
        let (to, from) = push_new_mem sound (out ++ s ∷ []) l x in
        rw n (
          λ h. elim (to h) [
            | inl p ↦ elim (Memᴰ.append_cases out p) [
              | inl q ↦ inl q
              | inr q ↦ inr (Memᴰ.head (Memᴰ.eq_of_singleton q))
            ]
            | inr p ↦ inr (Memᴰ.tail p)
          ],
          λ h. elim h [
            | inl p ↦ from (inl (Memᴰ.append_left _ p))
            | inr (Memᴰ.head e) ↦ from (inl (Memᴰ.append_right out (Memᴰ.head e)))
            | inr (Memᴰ.tail p) ↦ from (inr p)
          ],
        )
  ]

  pub deduplicate_mem : EqIsSound m → (l : List S) (x : S) → Memᴰ x (deduplicate m l) ↔ Memᴰ x l
  unfolding deduplicate
  deduplicate_mem sound l x =
      let (to, from) = push_new_mem sound [] l x in
      (λ h. elim (to h) [ inl p ↦ absurd (Memᴰ.not-nil p) | inr p ↦ p ], λ h. from (inr h))

  contains-concat :
      (l : List S) (s x : S) → contains m (l ++ s ∷ []) x ≡ (contains m l x || m.state_eq s x)
  unfolding contains
  contains-concat [] s x = ground arith
  contains-concat (t ∷ l) s x = ground (arith, contains-concat l s x)

  -- The set of the states seen holds what the output holds.
  push_unseen-push_new :
      (seen out l : List S)
      → ((x : S) → contains m seen x ≡ contains m out x)
      → push_unseen m seen out l ≡ push_new m out l
  unfolding push_unseen push_new contains
  push_unseen-push_new seen out [] h = refl
  push_unseen-push_new seen out (s ∷ l) h = elim (Bool-cases (contains m out s)) [
    | inl y ↦ rw (push_unseen, h s, y) (push_unseen-push_new seen out l h)
    | inr n ↦
        rw (push_unseen, h s, n)
          (push_unseen-push_new (s ∷ seen) (out ++ s ∷ []) l
            (λ x. ground (arith, h x, contains-concat out s x)))
  ]

  pub deduplicate_hashed-deduplicate : (l : List S) → deduplicate_hashed m l ≡ deduplicate m l
  unfolding deduplicate deduplicate_hashed
  deduplicate_hashed-deduplicate l = push_unseen-push_new [] [] l (λ x. refl)

  -- No state compares equal to an earlier one.
  abbrev pub IsDistinct : List S → Type 0
  IsDistinct [] = Unit {0}
  IsDistinct (s ∷ l) = ((t : S) → Memᴰ t l → m.state_eq s t ≡ false) × IsDistinct l

  IsDistinct-concat :
      (l : List S) (s : S) → contains m l s ≡ false → IsDistinct l → IsDistinct (l ++ s ∷ [])
  unfolding contains
  IsDistinct-concat [] s h d = (λ t p. absurd (Memᴰ.not-nil p), tt)
  IsDistinct-concat (x ∷ l) s h d = (
    λ t p. elim (Memᴰ.append_cases l p) [
      | inl q ↦ d.0 t q
      | inr q ↦ let e = Memᴰ.eq_of_singleton q in rw e (ground arith)
    ],
    IsDistinct-concat l s (ground arith) d.1,
  )

  push_new-IsDistinct : (out l : List S) → IsDistinct out → IsDistinct (push_new m out l)
  unfolding push_new
  push_new-IsDistinct out [] d = d
  push_new-IsDistinct out (s ∷ l) d = elim (Bool-cases (contains m out s)) [
    | inl y ↦ rw y (push_new-IsDistinct out l d)
    | inr n ↦ rw n (push_new-IsDistinct (out ++ s ∷ []) l (IsDistinct-concat out s n d))
  ]

  -- Where states that compare equal are the same, `deduplicate` keeps just the states of its input,
  -- and none of them compares equal to an earlier one.
  pub deduplicate_lem :
      EqIsSound m
      → (l : List S)
      → IsDistinct (deduplicate m l) × ((x : S) → Memᴰ x (deduplicate m l) ↔ Memᴰ x l)
  unfolding deduplicate
  deduplicate_lem sound l = (push_new-IsDistinct [] l tt, deduplicate_mem sound l)
