-- ===== src/Checker/Covers.antt =====
-- The live list that stands for the operations that remain.
use mathlib.Core.List.{Memᴰ}
use mathlib.Core.List.Memᴰ
use porcupine_rust.Base.{
  ℕ, ◌+◌, ◌*◌, ◌≤◌, ◌≡◌, ◌≢◌, refl, ap, ◌∙◌, sym, subst, arith, some, List, [], ◌∷◌, ◌++◌, ◌==◌,
  true, Bool-cases, inl, inr, ◌⊎◌, ==_iff, if◌then◌else◌,
}
use porcupine_rust.Types.{Operation}
use porcupine_rust.Entry.{EntryValue, call, return}
use porcupine_rust.Entries.Sorting.{rank}
use porcupine_rust.Arena.Live.{Slot}
use porcupine_rust.Checker.Remaining.{without, output_of, All}
use porcupine_rust.Checker.Pairing.{IsPaired, IsPaired-without}
use porcupine_rust.Checker.Numbered.{mem_join, mem_split, mem_middle, Distinct, Distinct-middle}

module _ {I O : Type 0} where
  abbrev pub slot_key : Slot I O → ℕ
  slot_key s = 2 * s.time + rank s.value

  abbrev pub IsSorted : List (Slot I O) → Type 0
  IsSorted [] = Unit {0}
  IsSorted (s ∷ l) = All (λ x. slot_key s ≤ slot_key x) l × IsSorted l

  pub All-mem {κ} :
      (P : Slot I O → Type κ) (l : List (Slot I O)) (x : Slot I O) → All P l → Memᴰ x l → P x
  All-mem P [] x a p = absurd (Memᴰ.not-nil p)
  All-mem P (y ∷ l) x a (Memᴰ.head e) = subst P (sym e) a.0
  All-mem P (y ∷ l) x a (Memᴰ.tail p) = All-mem P l x a.1 p

  pub mem-All {κ} :
      (P : Slot I O → Type κ) (l : List (Slot I O)) → ((x : Slot I O) → Memᴰ x l → P x) → All P l
  mem-All P [] f = tt
  mem-All P (y ∷ l) f = (f y (Memᴰ.head refl), mem-All P l (λ x p. f x (Memᴰ.tail p)))

  pub IsSorted-before :
      (k r : List (Slot I O)) (c x : Slot I O)
      → IsSorted (k ++ c ∷ r)
      → Memᴰ x k
      → slot_key x ≤ slot_key c
  IsSorted-before [] r c x h p = absurd (Memᴰ.not-nil p)
  IsSorted-before (y ∷ k) r c x h (Memᴰ.head e) =
      rw e (All-mem (λ z. slot_key y ≤ slot_key z) (k ++ c ∷ r) c h.0 (mem_middle k r c))
  IsSorted-before (y ∷ k) r c x h (Memᴰ.tail p) = IsSorted-before k r c x h.1 p

  pub IsSorted-after :
      (k r : List (Slot I O)) (c x : Slot I O)
      → IsSorted (k ++ c ∷ r)
      → Memᴰ x r
      → slot_key c ≤ slot_key x
  IsSorted-after [] r c x h p = All-mem (λ z. slot_key c ≤ slot_key z) r x h.0 p
  IsSorted-after (y ∷ k) r c x h p = IsSorted-after k r c x h.1 p

  without_mem :
      (i : ℕ) (l : List (Slot I O)) (x : Slot I O) → Memᴰ x (without i l) → Memᴰ x l × (x.id ≢ i)
  without_mem i [] x p = absurd (Memᴰ.not-nil p)
  without_mem i (y ∷ l) x p = elim (Bool-cases (y.id == i)) [
    | inl t ↦
        let p' : Memᴰ x (without i l) =
          subst (λ b. Memᴰ x (if b then without i l else y ∷ without i l)) t p in
        let (q, ne) = without_mem i l x p' in (Memᴰ.tail q, ne)
    | inr n ↦
        let p' : Memᴰ x (y ∷ without i l) =
          subst (λ b. Memᴰ x (if b then without i l else y ∷ without i l)) n p in
        elim p' [
          | Memᴰ.head e ↦ (
            Memᴰ.head e,
            λ same.
                let at : (y.id == i) ≡ true = (==_iff y.id i).1 (ap (λ z. z.id) (sym e) ∙ same) in
                cc,
          )
          | Memᴰ.tail q ↦ let (r, ne) = without_mem i l x q in (Memᴰ.tail r, ne)
        ]
  ]

  mem_without :
      (i : ℕ) (l : List (Slot I O)) (x : Slot I O) → Memᴰ x l → x.id ≢ i → Memᴰ x (without i l)
  mem_without i [] x p ne = p
  mem_without i (y ∷ l) x (Memᴰ.head e) ne = elim (Bool-cases (y.id == i)) [
    | inl t ↦ absurd (ne (ap (λ z. z.id) e ∙ (==_iff y.id i).0 t))
    | inr n ↦ rw n (Memᴰ.head e)
  ]
  mem_without i (y ∷ l) x (Memᴰ.tail p) ne = elim (Bool-cases (y.id == i)) [
    | inl t ↦ rw t (mem_without i l x p ne)
    | inr n ↦ rw n (Memᴰ.tail (mem_without i l x p ne))
  ]

  IsSorted-without : (i : ℕ) (l : List (Slot I O)) → IsSorted l → IsSorted (without i l)
  IsSorted-without i [] h = tt
  IsSorted-without i (y ∷ l) h = elim (Bool-cases (y.id == i)) [
    | inl t ↦ rw t (IsSorted-without i l h.1)
    | inr n ↦ rw n (
      mem-All (λ x. slot_key y ≤ slot_key x) (without i l)
          (λ x p. All-mem (λ z. slot_key y ≤ slot_key z) l x h.0 (without_mem i l x p).0),
      IsSorted-without i l h.1,
    )
  ]

  -- A return entry of the operation holds the output.
  abbrev HoldsOutput : ℕ → List (Slot I O) → O → Type 0
  HoldsOutput i l o = (x : Slot I O) × Memᴰ x l × (x.id ≡ i) × (x.value ≡ return o)

  later :
      (i : ℕ) (y : Slot I O) (l : List (Slot I O)) (o : O)
      → HoldsOutput i l o
      → HoldsOutput i (y ∷ l) o
  later i y l o (x, p, e, v) = (x, Memᴰ.tail p, e, v)

  output_of_head :
      (i : ℕ) (y : Slot I O) (l : List (Slot I O)) (o : O) (v : EntryValue I O)
      → y.value ≡ v
      → (y.id == i) ≡ true
      → output_of i (y ∷ l) ≡ some o
      → (output_of i l ≡ some o → HoldsOutput i l o)
      → HoldsOutput i (y ∷ l) o
  output_of_head i y l o (call u) e t h rec = later i y l o (rec (rw (t, e) at h))
  output_of_head i y l o (return w) e t h rec =
      let h' : some w ≡ some o = rw (t, e) at h in
      let same : w ≡ o = cc in (y, Memᴰ.head refl, (==_iff y.id i).0 t, e ∙ ap return same)

  -- Where `output_of` finds an output, a return entry of the operation holds it.
  pub output_of_mem :
      (i : ℕ) (l : List (Slot I O)) (o : O) → output_of i l ≡ some o → HoldsOutput i l o
  output_of_mem i [] o h = absurd (cc)
  output_of_mem i (y ∷ l) o h = elim (Bool-cases (y.id == i)) [
    | inl t ↦ output_of_head i y l o y.value refl t h (output_of_mem i l o)
    | inr n ↦ later i y l o (output_of_mem i l o (ground arith))
  ]

  -- The call of an operation, and its return.
  abbrev pub IsCall : Slot I O → ℕ → Operation I O → Type 0
  IsCall x id op = (x.id ≡ id) × (x.value ≡ call op.input) × (x.time ≡ op.call)

  abbrev pub IsReturn : Slot I O → ℕ → Operation I O → Type 0
  IsReturn x id op = (x.id ≡ id) × (x.value ≡ return op.output) × (x.time ≡ op.return_time)

  -- The live list holds the calls and the returns of the operations, sorted and paired.
  pub record Covers (l : List (Slot I O)) (ops : List (ℕ × Operation I O)) : Type 0 where
    pub onto :
        (x : Slot I O)
        → Memᴰ x l
        → (op : Operation I O) × Memᴰ (x.id, op) ops × (IsCall x x.id op ⊎ IsReturn x x.id op)
    pub calls :
        (id : ℕ) (op : Operation I O)
        → Memᴰ (id, op) ops
        → (x : Slot I O) × Memᴰ x l × IsCall x id op
    pub returns :
        (id : ℕ) (op : Operation I O)
        → Memᴰ (id, op) ops
        → (x : Slot I O) × Memᴰ x l × IsReturn x id op
    pub distinct : Distinct ops
    pub sorted : IsSorted l
    pub paired : IsPaired l

  pub Covers-without :
      (l : List (Slot I O)) (k r : List (ℕ × Operation I O)) (id : ℕ) (op : Operation I O)
      → Covers l (k ++ (id, op) ∷ r)
      → Covers (without id l) (k ++ r)
  Covers-without l k r id op h =
      let (distinct, gone) = Distinct-middle k r (id, op) h.distinct in
      let other : (j : ℕ) (q : Operation I O) → Memᴰ (j, q) (k ++ r) → j ≢ id =
        λ j q p same. gone q (subst (λ t. Memᴰ (t, q) (k ++ r)) same p) in
      record {
        onto = λ x p.
            let (p', ne) = without_mem id l x p in
            let (q, at, is) = h.onto x p' in
            elim (mem_split k r (id, op) at) [
              | inl e ↦ absurd (ne (ap (λ t. t.0) e))
              | inr at' ↦ (q, at', is)
            ];
        calls = λ j q p.
            let (x, at, is) = h.calls j q (mem_join k r (id, op) p) in
            (x, mem_without id l x at (λ e. other j q p (sym is.0 ∙ e)), is);
        returns = λ j q p.
            let (x, at, is) = h.returns j q (mem_join k r (id, op) p) in
            (x, mem_without id l x at (λ e. other j q p (sym is.0 ∙ e)), is);
        distinct = distinct;
        sorted = IsSorted-without id l h.sorted;
        paired = IsPaired-without id l h.paired;
      }
