-- ===== src/Locality/Keys.antt =====
-- The elements of a list with one key.
use mathlib.Core.List.{Memᴰ}
use mathlib.Core.List.Memᴰ
use porcupine_rust.Base.{
  ℕ, suc, ◌+◌, ◌≤◌, ◌≡◌, refl, sym, ◌∙◌, subst, ap, arith, false, some, List, [], ◌∷◌, ◌++◌, ◌==◌,
  inl, inr, Bool-cases, ==_iff, ==_refl, length, get_elem?,
}
use porcupine_rust.Entries.Subsets.{select}
use porcupine_rust.Locality.{with_key, positions, update}

module _ {ℓ} {A : Type ℓ} (key : A → ℕ) (k : ℕ) where
  pub with_key_in : (x : A) (l : List A) → key x ≡ k → with_key key k (x ∷ l) ≡ x ∷ with_key key k l
  unfolding with_key
  with_key_in x l e = rw (e, ==_refl k) refl

  pub with_key_out :
      (x : A) (l : List A) → (key x == k) ≡ false → with_key key k (x ∷ l) ≡ with_key key k l
  unfolding with_key
  with_key_out x l n = rw n refl

  pub with_key-append :
      (l r : List A) → with_key key k (l ++ r) ≡ with_key key k l ++ with_key key k r
  unfolding with_key
  with_key-append [] r = refl
  with_key-append (x ∷ l) r = elim (Bool-cases (key x == k)) [
    | inl y ↦ rw y (ap (λ t. x ∷ t) (with_key-append l r))
    | inr n ↦ rw n (with_key-append l r)
  ]

  pub mem_with_key : (x : A) (l : List A) → Memᴰ x (with_key key k l) → Memᴰ x l × (key x ≡ k)
  unfolding with_key
  mem_with_key x [] h = absurd (Memᴰ.not-nil h)
  mem_with_key x (y ∷ l) h = elim (Bool-cases (key y == k)) [
    | inl e ↦
        elim (Memᴰ.cases_cons
          (subst (λ t. Memᴰ x t) (with_key_in y l ((==_iff (key y) k).0 e)) h)) [
            | inl same ↦ (Memᴰ.head same, ap key same ∙ (==_iff (key y) k).0 e)
            | inr at ↦ let (p, q) = mem_with_key x l at in (Memᴰ.tail p, q)
          ]
    | inr n ↦
        let (p, q) = mem_with_key x l (subst (λ t. Memᴰ x t) (with_key_out y l n) h) in
        (Memᴰ.tail p, q)
  ]

  pub with_key_mem : (x : A) (l : List A) → Memᴰ x l → key x ≡ k → Memᴰ x (with_key key k l)
  with_key_mem x [] h e = absurd (Memᴰ.not-nil h)
  with_key_mem x (y ∷ l) (Memᴰ.head same) e =
      subst (λ t. Memᴰ x t) (sym (with_key_in y l (ap key (sym same) ∙ e))) (Memᴰ.head same)
  with_key_mem x (y ∷ l) (Memᴰ.tail at) e = elim (Bool-cases (key y == k)) [
    | inl same ↦
        subst (λ t. Memᴰ x t) (sym (with_key_in y l ((==_iff (key y) k).0 same)))
          (Memᴰ.tail (with_key_mem x l at e))
    | inr n ↦ subst (λ t. Memᴰ x t) (sym (with_key_out y l n)) (with_key_mem x l at e)
  ]

  pub length-with_key : (l : List A) → length (with_key key k l) ≤ length l
  unfolding with_key
  length-with_key [] = omega arith
  length-with_key (x ∷ l) =
      let le = length-with_key l in
      elim (Bool-cases (key x == k)) [
        | inl y ↦ rw y (omega (arith, le))
        | inr n ↦ rw n (omega (arith, le))
      ]

  -- One of the elements with the key `k`, in the whole list.
  pub record Split (l before after : List A) (x : A) : Type ℓ where
    pub left : List A
    pub right : List A
    pub whole : l ≡ left ++ x ∷ right
    pub lefts : with_key key k left ≡ before
    pub rights : with_key key k right ≡ after
    pub has : key x ≡ k

  cons-Split :
      (y : A) (l before after : List A) (x : A)
      → (key y == k) ≡ false
      → Split l before after x
      → Split (y ∷ l) before after x
  cons-Split y l before after x n h = record {
    left = y ∷ h.left;
    right = h.right;
    whole = ap (λ t. y ∷ t) h.whole;
    lefts = with_key_out y h.left n ∙ h.lefts;
    rights = h.rights;
    has = h.has;
  }

  not_middle : (before after : List A) (x : A) → ¬ ([] ≡ before ++ x ∷ after)
  not_middle [] after x h = cc
  not_middle (b ∷ before) after x h = cc

  cons_inj : {x y : A} {l r : List A} → x ∷ l ≡ y ∷ r → (x ≡ y) × (l ≡ r)
  cons_inj h = (cc, cc)

  -- An element among those with the key is one of the whole list.
  pub Split-at :
      (l before after : List A) (x : A)
      → with_key key k l ≡ before ++ x ∷ after
      → Split l before after x
  unfolding with_key
  Split-at [] before after x h = absurd (not_middle before after x h)
  Split-at (y ∷ l) before after x h = elim (Bool-cases (key y == k)) [
    | inl e ↦
        let is : key y ≡ k = (==_iff (key y) k).0 e in
        here is before (sym (with_key_in y l is) ∙ h) (λ before'. Split-at l before' after x)
    | inr n ↦
        cons-Split y l before after x n (Split-at l before after x (sym (with_key_out y l n) ∙ h))
  ]
    where
      here :
          key y ≡ k
          → (before : List A) → y ∷ with_key key k l ≡ before ++ x ∷ after
          → ((before' : List A) → with_key key k l ≡ before' ++ x ∷ after → Split l before' after x)
          → Split (y ∷ l) before after x
      here is [] g rest =
          let (same, more) = cons_inj g in
          record {
            left = [];
            right = l;
            whole = ap (λ t. t ∷ l) same;
            lefts = refl;
            rights = more;
            has = ap key (sym same) ∙ is;
          }
      here is (b ∷ before) g rest =
          let (same, more) = cons_inj g in
          let s = rest before more in
          record {
            left = y ∷ s.left;
            right = s.right;
            whole = ap (λ t. y ∷ t) s.whole;
            lefts = with_key_in y s.left is ∙ cc (same, s.lefts);
            rights = s.rights;
            has = s.has;
          }

  -- Positions from `i` on select from a list that goes on with `l` there.
  select_from :
      (whole l : List A) (i : ℕ)
      → ((j : ℕ) → get_elem? whole (i + j) ≡ get_elem? l j)
      → select whole (positions key k i l) ≡ some (with_key key k l)
  unfolding with_key positions
  select_from whole [] i h = refl
  select_from whole (x ∷ l) i h =
      let rest = select_from whole l (suc i) (λ j.
        let shift : suc i + j ≡ i + suc j = omega arith in
        ap (get_elem? whole) shift ∙ h (suc j)) in
      let at : get_elem? whole i ≡ some x =
        let zero_shift : i ≡ i + 0 = omega arith in ap (get_elem? whole) zero_shift ∙ h 0 in
      elim (Bool-cases (key x == k)) [ inl y ↦ rw (y, at, rest) refl | inr n ↦ rw n rest ]

  -- The positions of the elements with the key select these.
  pub select-positions : (l : List A) → select l (positions key k 0 l) ≡ some (with_key key k l)
  select-positions l =
      select_from l l 0 (λ j. let e : 0 + j ≡ j = omega arith in ap (get_elem? l) e)

pub update_same : {S : Type 0} (states : ℕ → S) (k : ℕ) (s : S) → update states k s k ≡ s
unfolding update
update_same states k s = rw (==_refl k) refl

pub update_other :
    {S : Type 0} (states : ℕ → S) (k j : ℕ) (s : S)
    → (k == j) ≡ false
    → update states k s j ≡ states j
unfolding update
update_other states k j s n = rw n refl
