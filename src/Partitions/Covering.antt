-- ===== src/Partitions/Covering.antt =====
-- The partitions that the scan lets pass cover each index, and none of them twice.
use mathlib.Core.List.{Memᴰ}
use mathlib.Core.List.Memᴰ
use porcupine_rust.Base.{
  ℕ, zero, suc, ◌+◌, ◌^◌, ◌<◌, ◌≡◌, ◌≢◌, refl, ◌∙◌, sym, subst, arith, none, some, List, [], ◌∷◌,
  ◌==◌, length, get_elem?, set, replicate, ltb, false, true, ◌↔◌, inl, inr, ◌⊎◌, Option-cases,
  Bool-cases, ==_iff, length-set, get_elem?-set_self, get_elem?-set_ne,
}
use porcupine_rust.Base.Do.{not_none, some_inj}
use porcupine_rust.Partitions.{
  Owners, claim_index, scan_partition, scan_partitions, scan_partition_covering,
}
use porcupine_rust.Partitions.Filled.{
  filled, filled-set, filled_all, filled-replicate, unowned, length-owners, claim_index_inv,
}

-- What a scan does to the table: `Listed i p` are the indices that it claims for `p`.
record Scanned (Listed : ℕ → ℕ → Type 0) (c : ℕ) (t : Owners) (c' : ℕ) (t' : Owners) : Type 0 where
  size : length t' ≡ length t
  counts : c ≡ filled t → c' ≡ filled t'
  keeps : (i p : ℕ) → get_elem? t i ≡ some (some p) → get_elem? t' i ≡ some (some p)
  owns : (i p : ℕ) → Listed i p → get_elem? t' i ≡ some (some p)
  from : (i p : ℕ) → get_elem? t' i ≡ some (some p) → (get_elem? t i ≡ some (some p)) ⊎ Listed i p

differ : (a b : ℕ) → (a == b) ≡ false → a ≢ b
differ a b h = ground arith

Scanned-claim :
    (p i c : ℕ) (t t' : Owners)
    → claim_index p i t ≡ some t'
    → Scanned (λ j q. (j ≡ i) × (q ≡ p)) c t (c + 1) t'
Scanned-claim p i c t t' h =
    let (free, e) = claim_index_inv p i t t' h in
    rw e (record {
      size = length-set t i (some p);
      counts = λ k. omega (arith, k, filled-set t i p free);
      keeps = λ j q g. elim (Bool-cases (i == j)) [
        | inl y ↦ absurd (
            not_none (
              some_inj
                (sym free ∙ subst (λ k. get_elem? t k ≡ some (some q)) (sym ((==_iff i j).0 y)) g)))
        | inr n ↦ get_elem?-set_ne t i j (some p) (differ i j n) ∙ g
      ];
      owns = λ j q l. rw (l.0, l.1) (get_elem?-set_self t i (some p) none free);
      from = λ j q g. elim (Bool-cases (i == j)) [
        | inl y ↦
            let same : i ≡ j = (==_iff i j).0 y in
            let g' = subst (λ k. get_elem? (set t i (some p)) k ≡ some (some q)) (sym same) g in
            inr (sym same, some_inj (some_inj (sym g' ∙ get_elem?-set_self t i (some p) none free)))
        | inr n ↦ inl (sym (get_elem?-set_ne t i j (some p) (differ i j n)) ∙ g)
      ];
    })

Scanned-then :
    {A B : ℕ → ℕ → Type 0} (c c' c'' : ℕ) (t t' t'' : Owners)
    → Scanned A c t c' t'
    → Scanned B c' t' c'' t''
    → Scanned (λ i p. A i p ⊎ B i p) c t c'' t''
Scanned-then c c' c'' t t' t'' a b = record {
  size = b.size ∙ a.size;
  counts = λ k. b.counts (a.counts k);
  keeps = λ i p g. b.keeps i p (a.keeps i p g);
  owns = λ i p l. elim l [ inl x ↦ b.keeps i p (a.owns i p x) | inr y ↦ b.owns i p y ];
  from = λ i p g. elim (b.from i p g) [
    | inl g' ↦ elim (a.from i p g') [ inl g'' ↦ inl g'' | inr x ↦ inr (inl x) ]
    | inr y ↦ inr (inr y)
  ];
}

Scanned-as :
    {A B : ℕ → ℕ → Type 0} (c c' : ℕ) (t t' : Owners)
    → ((i p : ℕ) → A i p → B i p)
    → ((i p : ℕ) → B i p → A i p)
    → Scanned A c t c' t'
    → Scanned B c t c' t'
Scanned-as c c' t t' f g a = record {
  size = a.size;
  counts = a.counts;
  keeps = a.keeps;
  owns = λ i p l. a.owns i p (g i p l);
  from = λ i p h. elim (a.from i p h) [ inl x ↦ inl x | inr l ↦ inr (f i p l) ];
}

Scanned-none : (A : ℕ → ℕ → Type 0) (c : ℕ) (t : Owners) → ((i p : ℕ) → ¬ A i p) → Scanned A c t c t
Scanned-none A c t none_listed = record {
  size = refl;
  counts = λ k. k;
  keeps = λ i p g. g;
  owns = λ i p l. absurd (none_listed i p l);
  from = λ i p g. inl g;
}

Scanned-scan_partition :
    (p : ℕ) (l : List ℕ) (c c' : ℕ) (t t' : Owners)
    → scan_partition p l c t ≡ some (c', t')
    → Scanned (λ i q. Memᴰ i l × (q ≡ p)) c t c' t'
unfolding scan_partition
Scanned-scan_partition p [] c c' t t' h =
    let e : c ≡ c' = cc in
    let f : t ≡ t' = cc in rw (← e, ← f) (Scanned-none _ c t (λ i q x. Memᴰ.not-nil x.0))
Scanned-scan_partition p (i ∷ l) c c' t t' h = elim (Option-cases (claim_index p i t)) [
  | inl n ↦ absurd (not_none (rw n at h))
  | inr (t1, e) ↦
      Scanned-as c c' t t'
        (λ j q x. elim x [ inl y ↦ (Memᴰ.head y.0, y.1) | inr y ↦ (Memᴰ.tail y.0, y.1) ])
        (λ j q x. elim (Memᴰ.cases_cons x.0) [ inl y ↦ inl (y, x.1) | inr y ↦ inr (y, x.1) ])
        (Scanned-then c (c + 1) c' t t1 t' (Scanned-claim p i c t t1 e)
          (Scanned-scan_partition p l (c + 1) c' t1 t' (rw e at h)))
]

-- Index `i` is in the partition of number `p`.
abbrev pub IsIn : List (List ℕ) → ℕ → ℕ → Type 0
IsIn parts i p = (part : List ℕ) × (get_elem? parts p ≡ some part) × Memᴰ i part

abbrev From : ℕ → List (List ℕ) → ℕ → ℕ → Type 0
From b parts i q = (k : ℕ) × (q ≡ b + k) × IsIn parts i k

From-head :
    (b : ℕ) (part : List ℕ) (parts : List (List ℕ)) (i q : ℕ)
    → (Memᴰ i part × (q ≡ b)) ⊎ From (suc b) parts i q
    → From b (part ∷ parts) i q
From-head b part parts i q (inl (m, e)) = (0, (omega (arith, e)), (part, refl, m))
From-head b part parts i q (inr (k, e, x)) = (suc k, (omega (arith, e)), x)

From-cases :
    (b : ℕ) (part : List ℕ) (parts : List (List ℕ)) (i q : ℕ)
    → From b (part ∷ parts) i q
    → (Memᴰ i part × (q ≡ b)) ⊎ From (suc b) parts i q
From-cases b part parts i q (zero, e, (l, g, m)) =
    inl (subst (λ t. Memᴰ i t) (sym (some_inj g)) m, (omega (arith, e)))
From-cases b part parts i q (suc k, e, x) = inr (k, (omega (arith, e)), x)

Scanned-scan_partitions :
    (b : ℕ) (parts : List (List ℕ)) (c c' : ℕ) (t t' : Owners)
    → scan_partitions b parts c t ≡ some (c', t')
    → Scanned (From b parts) c t c' t'
unfolding scan_partitions
Scanned-scan_partitions b [] c c' t t' h =
    let e : c ≡ c' = cc in
    let f : t ≡ t' = cc in rw (← e, ← f) (Scanned-none _ c t (λ i q x. not_none x.2.1))
Scanned-scan_partitions b (part ∷ parts) c c' t t' h = elim (Bool-cases (ltb b (2 ^ 32))) [
  | inr n ↦ absurd (not_none (rw n at h))
  | inl y ↦ elim (Option-cases (scan_partition b part c t)) [
    | inl n ↦ absurd (not_none (rw (y, n) at h))
    | inr ((c1, t1), e) ↦ Scanned-as c c' t t' (From-head b part parts) (From-cases b part parts) (
        Scanned-then c c1 c' t t1 t' (Scanned-scan_partition b part c c1 t t1 e)
          (Scanned-scan_partitions (suc b) parts c1 c' t1 t' (rw (y, e) at h)))
  ]
]

-- Where the scan lets the partitions of a history of `n` entries pass, its table has an entry for
-- each index, the table gives `p` for an index exactly if the index is in partition `p`, and each
-- index below `n` is in a partition.
pub scan_partition_covering_lem :
    (parts : List (List ℕ)) (n : ℕ) (table : Owners)
    → scan_partition_covering parts n ≡ some table
    → (length table ≡ n)
      × ((i p : ℕ) → (get_elem? table i ≡ some (some p)) ↔ IsIn parts i p)
      × ((i : ℕ) → i < n → (p : ℕ) × IsIn parts i p)
unfolding scan_partition_covering
scan_partition_covering_lem parts n table h =
    elim (Option-cases (scan_partitions 0 parts 0 (replicate n none))) [
      | inl e ↦ absurd (not_none (rw e at h))
      | inr ((c, t), e) ↦ elim (Bool-cases (c == n)) [
        | inr f ↦ absurd (not_none (rw (e, f) at h))
        | inl y ↦
            let same : t ≡ table = some_inj (rw (e, y) at h) in
            subst
              (λ u.
                (length u ≡ n)
                × ((i p : ℕ) → (get_elem? u i ≡ some (some p)) ↔ IsIn parts i p)
                × ((i : ℕ) → i < n → (p : ℕ) × IsIn parts i p))
              same (by_scan c t y (Scanned-scan_partitions 0 parts 0 c (replicate n none) t e))
      ]
    ]
  where
    by_scan :
        (c : ℕ) (t : Owners)
        → (c == n) ≡ true
        → Scanned (From 0 parts) 0 (replicate n none) c t
        → (length t ≡ n)
          × ((i p : ℕ) → (get_elem? t i ≡ some (some p)) ↔ IsIn parts i p)
          × ((i : ℕ) → i < n → (p : ℕ) × IsIn parts i p)
    by_scan c t y s =
        let size : length t ≡ n = s.size ∙ length-owners n in
        let all : filled t ≡ length t =
          sym (s.counts (sym (filled-replicate n))) ∙ (==_iff c n).0 y ∙ sym size in
        let owner : (i p : ℕ) → get_elem? t i ≡ some (some p) → IsIn parts i p = λ i p g.
          elim (s.from i p g) [
            | inl x ↦ absurd (unowned n i p x)
            | inr x ↦
                let same : x.0 ≡ p = omega (arith, x.1) in subst (λ k. IsIn parts i k) same x.2
          ] in
        (
          size,
          λ i p. (owner i p, λ x. s.owns i p (p, (omega arith), x)),
          λ i l. let (p, g) = filled_all t i all (omega (arith, size, l)) in (p, owner i p g),
        )
