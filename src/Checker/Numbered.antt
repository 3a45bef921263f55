-- ===== src/Checker/Numbered.antt =====
-- Lists at a member, and operations with their ids.
use mathlib.Core.List.{Memᴰ}
use mathlib.Core.List.Memᴰ
use porcupine_rust.Base.{
  ℕ, suc, ◌<◌, ◌≡◌, refl, ap, sym, subst, arith, List, [], ◌∷◌, ◌++◌, map, ◌⊎◌, inl, inr,
}
use porcupine_rust.Types.{Operation}

-- A list at a member.
pub record At {A : Type 0} (x : A) (l : List A) : Type 0 where
  pub before : List A
  pub after : List A
  pub joins : l ≡ before ++ x ∷ after

module _ {A : Type 0} where
  pub mem-At : (x : A) (l : List A) → Memᴰ x l → At x l
  mem-At x [] p = absurd (Memᴰ.not-nil p)
  mem-At x (y ∷ l) (Memᴰ.head e) = record {
    before = [];
    after = l;
    joins = ap (λ z. z ∷ l) (sym e);
  }
  mem-At x (y ∷ l) (Memᴰ.tail p) =
      let at = mem-At x l p in
      record { before = y ∷ at.before; after = at.after; joins = ap (λ t. y ∷ t) at.joins }

  pub mem_middle : (k r : List A) (x : A) → Memᴰ x (k ++ x ∷ r)
  mem_middle k r x = Memᴰ.append_right k (Memᴰ.head refl)

  pub mem_join : (k r : List A) (x : A) {y : A} → Memᴰ y (k ++ r) → Memᴰ y (k ++ x ∷ r)
  mem_join [] r x p = Memᴰ.tail p
  mem_join (z ∷ k) r x (Memᴰ.head e) = Memᴰ.head e
  mem_join (z ∷ k) r x (Memᴰ.tail p) = Memᴰ.tail (mem_join k r x p)

  pub mem_split : (k r : List A) (x : A) {y : A} → Memᴰ y (k ++ x ∷ r) → (y ≡ x) ⊎ Memᴰ y (k ++ r)
  mem_split [] r x (Memᴰ.head e) = inl e
  mem_split [] r x (Memᴰ.tail p) = inr p
  mem_split (z ∷ k) r x (Memᴰ.head e) = inr (Memᴰ.head e)
  mem_split (z ∷ k) r x (Memᴰ.tail p) = elim (mem_split k r x p) [
    | inl e ↦ inl e
    | inr q ↦ inr (Memᴰ.tail q)
  ]

module _ {I O : Type 0} where
  -- The operations with their ids.
  abbrev pub numbered : ℕ → List (Operation I O) → List (ℕ × Operation I O)
  numbered id [] = []
  numbered id (op ∷ ops) = (id, op) ∷ numbered (suc id) ops

  abbrev pub op_of : ℕ × Operation I O → Operation I O
  op_of p = p.1

  pub map-numbered : (id : ℕ) (ops : List (Operation I O)) → map op_of (numbered id ops) ≡ ops
  map-numbered id [] = refl
  map-numbered id (op ∷ ops) = ap (λ t. op ∷ t) (map-numbered (suc id) ops)

  pub mem_map :
      (l : List (ℕ × Operation I O)) (q : Operation I O)
      → Memᴰ q (map op_of l)
      → (id : ℕ) × Memᴰ (id, q) l
  mem_map [] q p = absurd (Memᴰ.not-nil p)
  mem_map (x ∷ l) q (Memᴰ.head e) = (x.0, Memᴰ.head (ap (λ t. (x.0, t)) e))
  mem_map (x ∷ l) q (Memᴰ.tail p) = let (id, r) = mem_map l q p in (id, Memᴰ.tail r)

  pub map_mem :
      (l : List (ℕ × Operation I O)) (x : ℕ × Operation I O)
      → Memᴰ x l
      → Memᴰ (op_of x) (map op_of l)
  map_mem [] x p = absurd (Memᴰ.not-nil p)
  map_mem (y ∷ l) x (Memᴰ.head e) = Memᴰ.head (ap op_of e)
  map_mem (y ∷ l) x (Memᴰ.tail p) = Memᴰ.tail (map_mem l x p)

  pub map-append :
      (k l : List (ℕ × Operation I O)) → map op_of (k ++ l) ≡ map op_of k ++ map op_of l
  map-append [] l = refl
  map-append (x ∷ k) l = ap (λ t. op_of x ∷ t) (map-append k l)

  -- No id twice.
  abbrev pub Distinct : List (ℕ × Operation I O) → Type 0
  Distinct [] = Unit {0}
  Distinct (x ∷ l) = ((op : Operation I O) → ¬ Memᴰ (x.0, op) l) × Distinct l

  -- A numbered list whose operations are `k`, `op` and `r`.
  pub record MapAt (l : List (ℕ × Operation I O)) (k r : List (Operation I O)) (op : Operation I O)
      : Type 0 where
    pub id : ℕ
    pub before : List (ℕ × Operation I O)
    pub after : List (ℕ × Operation I O)
    pub joins : l ≡ before ++ (id, op) ∷ after
    pub ops_eq : map op_of (before ++ after) ≡ k ++ r

  pub map-MapAt :
      (l : List (ℕ × Operation I O)) (k r : List (Operation I O)) (op : Operation I O)
      → map op_of l ≡ k ++ op ∷ r
      → MapAt l k r op
  map-MapAt [] [] r op e = absurd (cc)
  map-MapAt [] (q ∷ k) r op e = absurd (cc)
  map-MapAt (x ∷ l) [] r op e =
      let (same, rest) : (op_of x ≡ op) × (map op_of l ≡ r) = ground arith in
      record {
        id = x.0;
        before = [];
        after = l;
        joins = ap (λ t. (x.0, t) ∷ l) same;
        ops_eq = rest;
      }
  map-MapAt (x ∷ l) (q ∷ k) r op e =
      let (same, rest) : (op_of x ≡ q) × (map op_of l ≡ k ++ op ∷ r) = ground arith in
      let at = map-MapAt l k r op rest in
      record {
        id = at.id;
        before = x ∷ at.before;
        after = at.after;
        joins = ap (λ t. x ∷ t) at.joins;
        ops_eq = rw (same, at.ops_eq) refl;
      }

  pub Distinct-middle :
      (k r : List (ℕ × Operation I O)) (x : ℕ × Operation I O)
      → Distinct (k ++ x ∷ r)
      → Distinct (k ++ r) × ((op : Operation I O) → ¬ Memᴰ (x.0, op) (k ++ r))
  Distinct-middle [] r x d = (d.1, d.0)
  Distinct-middle (y ∷ k) r x d =
      let (rest, none_left) = Distinct-middle k r x d.1 in
      (
        (λ op p. d.0 op (mem_join k r x p), rest),
        λ op p. elim p [
          | Memᴰ.head e ↦
              d.0 (op_of x)
                (subst (λ j. Memᴰ (j, op_of x) (k ++ x ∷ r)) (ap (λ t. t.0) e) (mem_middle k r x))
          | Memᴰ.tail q ↦ none_left op q
        ],
      )

  pub Distinct-unique :
      (l : List (ℕ × Operation I O)) (id : ℕ) (op op' : Operation I O)
      → Distinct l
      → Memᴰ (id, op) l
      → Memᴰ (id, op') l
      → op ≡ op'
  Distinct-unique l id op op' d p p' =
      let at = mem-At (id, op) l p in
      let d' = subst Distinct at.joins d in
      elim (mem_split at.before at.after (id, op) (subst (λ t. Memᴰ (id, op') t) at.joins p')) [
        | inl e ↦ ap (λ t. t.1) (sym e)
        | inr q ↦ absurd ((Distinct-middle at.before at.after (id, op) d').1 op' q)
      ]

  Distinct-numbered_lt :
      (j id : ℕ) (ops : List (Operation I O)) (op : Operation I O)
      → j < id
      → ¬ Memᴰ (j, op) (numbered id ops)
  Distinct-numbered_lt j id [] op h p = Memᴰ.not-nil p
  Distinct-numbered_lt j id (q ∷ ops) op h (Memᴰ.head e) = omega (arith, ap (λ t. t.0) e)
  Distinct-numbered_lt j id (q ∷ ops) op h (Memᴰ.tail p) =
      Distinct-numbered_lt j (suc id) ops op (omega arith) p

  pub Distinct-numbered : (id : ℕ) (ops : List (Operation I O)) → Distinct (numbered id ops)
  Distinct-numbered id [] = tt
  Distinct-numbered id (q ∷ ops) = (
    λ op p. Distinct-numbered_lt id (suc id) ops op (omega arith) p,
    Distinct-numbered (suc id) ops,
  )
