-- ===== src/Checker/Pairing.antt =====
-- Live lists in which each call has one return, after it.
use mathlib.Core.List.{append_assoc}
use porcupine_rust.Base.{
  ℕ, suc, ◌≡◌, ◌≢◌, refl, ap, ◌∙◌, sym, arith, some, List, [], ◌∷◌, ◌++◌, ◌==◌, true, Bool-cases,
  inl, inr, ==_iff, length, ==_refl, length-append,
}
use porcupine_rust.Entry.{EntryValue, call, return, is_call}
use porcupine_rust.Arena.{no_ref}
use porcupine_rust.Arena.Live.{Slot}
use porcupine_rust.Checker.Remaining.{
  only, without, output_of, only-append, without-append, without_fresh, only-without, only-Split,
  output_of_fresh, All, All-middle,
}

module _ {I O : Type 0} where
  -- The match of an entry, among the entries after it.
  abbrev pub HasMatch : EntryValue I O → ℕ → ℕ → List (Slot I O) → Type 0
  HasMatch (call i) id match_idx l =
      (m : Slot I O) × (o : O) × (only id l ≡ m ∷ []) × (m.value ≡ return o) × (match_idx ≡ m.idx)
  HasMatch (return o) id match_idx l = (only id l ≡ []) × (match_idx ≡ no_ref)

  abbrev pub IsPaired : List (Slot I O) → Type 0
  IsPaired [] = Unit {0}
  IsPaired (s ∷ l) = HasMatch s.value s.id s.match_idx l × IsPaired l

  HasMatch-without :
      (v : EntryValue I O) (id match_idx i : ℕ) (l : List (Slot I O))
      → id ≢ i
      → HasMatch v id match_idx l
      → HasMatch v id match_idx (without i l)
  HasMatch-without (call x) id match_idx i l ne (m, o, one, is, at) =
      (m, o, only-without id i l ne ∙ one, is, at)
  HasMatch-without (return o) id match_idx i l ne h = (only-without id i l ne ∙ h.0, h.1)

  pub IsPaired-without : (i : ℕ) (l : List (Slot I O)) → IsPaired l → IsPaired (without i l)
  IsPaired-without i [] h = tt
  IsPaired-without i (s ∷ l) h = elim (Bool-cases (s.id == i)) [
    | inl y ↦ rw y (IsPaired-without i l h.1)
    | inr y ↦
        rw y (
          HasMatch-without s.value s.id s.match_idx i l (ground arith) h.0,
          IsPaired-without i l h.1,
        )
  ]

  pub IsPaired-drop : (k l : List (Slot I O)) → IsPaired (k ++ l) → IsPaired l
  IsPaired-drop [] l h = h
  IsPaired-drop (s ∷ k) l h = IsPaired-drop k l h.1

  not_two : (a b m : Slot I O) (k l : List (Slot I O)) → ¬ (k ++ a ∷ b ∷ l ≡ m ∷ [])
  not_two a b m [] l e = cc
  not_two a b m (s ∷ k) l e = omega (arith, ap length e, length-append k (a ∷ b ∷ l))

  not_one : (a : Slot I O) (k l : List (Slot I O)) → ¬ (k ++ a ∷ l ≡ [])
  not_one a [] l e = cc
  not_one a (s ∷ k) l e = cc

  -- Where an entry of operation `i` that has another one after it stands later, the head is of
  -- another operation.
  head_other :
      (v : EntryValue I O) (i match_idx : ℕ) (k r : List (Slot I O)) (c m : Slot I O)
      → c.id ≡ i
      → only i r ≡ m ∷ []
      → ¬ HasMatch v i match_idx (k ++ c ∷ r)
  head_other (call x) i match_idx k r c m e one (m', o, two, is, at) =
      not_two c m m' (only i k) [] (
        sym (only-append i k (c ∷ r) ∙ ap (λ t. only i k ++ t) (rw (e, ==_refl i, one) refl)) ∙ two)
  head_other (return o) i match_idx k r c m e one h =
      not_one c (only i k) (only i r)
        (sym (only-append i k (c ∷ r) ∙ ap (λ t. only i k ++ t) (rw (e, ==_refl i) refl)) ∙ h.0)

  fresh_before :
      (k r : List (Slot I O)) (c m : Slot I O)
      → only c.id r ≡ m ∷ []
      → IsPaired (k ++ c ∷ r)
      → only c.id k ≡ []
  fresh_before [] r c m one h = refl
  fresh_before (s ∷ k) r c m one h = elim (Bool-cases (s.id == c.id)) [
    | inl y ↦
        let e : s.id ≡ c.id = (==_iff s.id c.id).0 y in
        absurd (head_other s.value s.id s.match_idx k r c m (sym e) (rw e one) h.0)
    | inr y ↦ rw y (fresh_before k r c m one h.1)
  ]

  -- A call in a paired list, with its return and what stands between and around.
  pub record Pair (k r : List (Slot I O)) (c : Slot I O) : Type 0 where
    pub ret : Slot I O
    pub output : O
    pub between : List (Slot I O)
    pub after : List (Slot I O)
    pub joins : r ≡ between ++ ret ∷ after
    pub is_return : ret.value ≡ return output
    pub matched : c.match_idx ≡ ret.idx
    pub output_eq : output_of c.id (k ++ c ∷ r) ≡ some output
    pub rest_eq : without c.id (k ++ c ∷ r) ≡ (k ++ between) ++ after
    pub shrinks : suc (suc (length (without c.id (k ++ c ∷ r)))) ≡ length (k ++ c ∷ r)

  pub IsPaired-Pair :
      (k r : List (Slot I O)) (c : Slot I O) (i : I)
      → c.value ≡ call i
      → IsPaired (k ++ c ∷ r)
      → Pair k r c
  IsPaired-Pair k r c i is h =
      let here = IsPaired-drop k (c ∷ r) h in
      let (m, o, one, ret, at) : HasMatch (call i) c.id c.match_idx r = rw is at here.0 in
      let s = only-Split c.id m r one in
      let fresh = fresh_before k r c m one h in
      let out : output_of c.id (c ∷ r) ≡ some o =
        rw
          (
            ==_refl c.id,
            is,
            s.joins,
            output_of_fresh c.id s.before (m ∷ s.after) s.fresh_before,
            s.same,
            ==_refl c.id,
            ret,
          )
          refl in
      let rest : without c.id (k ++ c ∷ r) ≡ (k ++ s.before) ++ s.after =
        without-append c.id k (c ∷ r)
        ∙ ap (λ t. t ++ without c.id (c ∷ r)) (without_fresh c.id k fresh)
        ∙ ap (λ t. k ++ t)
            (rw
              (
                ==_refl c.id,
                s.joins,
                without-append c.id s.before (m ∷ s.after),
                s.same,
                ==_refl c.id,
              )
              (ap (λ t. t ++ without c.id s.after) (without_fresh c.id s.before s.fresh_before)
                ∙ ap (λ t. s.before ++ t) (without_fresh c.id s.after s.fresh_after)))
        ∙ sym (append_assoc k s.before s.after) in
      record {
        ret = m;
        output = o;
        between = s.before;
        after = s.after;
        joins = s.joins;
        is_return = ret;
        matched = at;
        output_eq = output_of_fresh c.id k (c ∷ r) fresh ∙ out;
        rest_eq = rest;
        shrinks = omega (
          arith,
          ap length rest,
          length-append (k ++ s.before) s.after,
          length-append k s.before,
          length-append k (c ∷ r),
          ap length s.joins,
          length-append s.before (m ∷ s.after),
        );
      }

  pub is_call-eq-call : (v : EntryValue I O) → is_call v ≡ true → (i : I) × (v ≡ call i)
  is_call-eq-call (call i) h = (i, refl)
  is_call-eq-call (return o) h = absurd (cc)

  -- A paired list of calls alone is empty.
  pub All-calls : (l : List (Slot I O)) → IsPaired l → All (λ x. is_call x.value ≡ true) l → l ≡ []
  All-calls [] h p = refl
  All-calls (c ∷ l) h p =
      let (i, is) = is_call-eq-call c.value p.0 in
      let pair = IsPaired-Pair [] l c i is h in
      let at =
        All-middle (λ x. is_call x.value ≡ true) pair.between pair.after pair.ret
          (rw pair.joins at p.1) in
      absurd (absurd_return pair.ret.value pair.output pair.is_return at)
    where
      absurd_return : (v : EntryValue I O) (o : O) → v ≡ return o → ¬ (is_call v ≡ true)
      absurd_return (call i) o e h = cc
      absurd_return (return o') o e h = cc
