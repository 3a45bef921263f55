-- ===== src/Checker/Initial.antt =====
-- The entries of a history cover its operations.
use mathlib.Core.List.{Memᴰ}
use mathlib.Core.List.Memᴰ
use porcupine_rust.Base.{
  ℕ, suc, ◌/◌, ◌≤◌, ◌≡◌, refl, ap, ◌∙◌, sym, subst, arith, List, [], ◌∷◌, inl, inr, ◌⊎◌, length,
  replicate,
}
use porcupine_rust.Types.{Operation}
use porcupine_rust.Entry.{Entry}
use porcupine_rust.Entry.Paired
use porcupine_rust.Arena.{no_ref}
use porcupine_rust.Arena.Live.{Slot}
use porcupine_rust.Arena.Build.{return_table}
use porcupine_rust.Arena.Tables.{IdsBelow, slots, length-replicate}
use porcupine_rust.Entries.{
  entry_cmp, insert, sort_entries, call_entry, return_entry, push_entries, make_entries,
}
use porcupine_rust.Entries.Insertion.{gt-cases, insert_past, insert_here}
use porcupine_rust.Entries.Sorting
use porcupine_rust.Entries.Sorting.{key, sort_entries_lem}
use porcupine_rust.Entries.Histories.{sorted}
use porcupine_rust.Checker.Load.{slots-IsPaired}
use porcupine_rust.Checker.Correct.{IsHistory}
use porcupine_rust.Checker.Remaining.{All}
use porcupine_rust.Checker.Numbered.{numbered, Distinct-numbered}
use porcupine_rust.Checker.Covers.{slot_key, IsSorted, Covers}

module _ {I O : Type 0} where
  -- A live entry and the entry that it comes from.
  abbrev Same : Slot I O → Entry I O → Type 0
  Same s e = (s.id ≡ e.id) × (s.value ≡ e.value) × (s.time ≡ e.time)

  slots_mem :
      (i : ℕ) (t : List ℕ) (l : List (Entry I O)) (s : Slot I O)
      → Memᴰ s (slots i t l)
      → (e : Entry I O) × Memᴰ e l × Same s e
  unfolding slots
  slots_mem i t [] s p = absurd (Memᴰ.not-nil p)
  slots_mem i t (e ∷ l) s (Memᴰ.head q) =
      (e, Memᴰ.head refl, (ap (λ z. z.id) q, ap (λ z. z.value) q, ap (λ z. z.time) q))
  slots_mem i t (e ∷ l) s (Memᴰ.tail p) =
      let (x, q, same) = slots_mem (suc i) t l s p in (x, Memᴰ.tail q, same)

  mem_slots :
      (i : ℕ) (t : List ℕ) (l : List (Entry I O)) (e : Entry I O)
      → Memᴰ e l
      → (s : Slot I O) × Memᴰ s (slots i t l) × Same s e
  unfolding slots
  mem_slots i t [] e p = absurd (Memᴰ.not-nil p)
  mem_slots i t (x ∷ l) e (Memᴰ.head q) = (
    _,
    Memᴰ.head refl,
    (ap (λ z. z.id) (sym q), ap (λ z. z.value) (sym q), ap (λ z. z.time) (sym q)),
  )
  mem_slots i t (x ∷ l) e (Memᴰ.tail p) =
      let (s, q, same) = mem_slots (suc i) t l e p in (s, Memᴰ.tail q, same)

  slots-above :
      (k i : ℕ) (t : List ℕ) (l : List (Entry I O))
      → Paired.All (λ x. k ≤ key x) l
      → All (λ s. k ≤ slot_key s) (slots i t l)
  unfolding slots
  slots-above k i t [] h = tt
  slots-above k i t (e ∷ l) h = (h.0, slots-above k (suc i) t l h.1)

  slots-IsSorted :
      (i : ℕ) (t : List ℕ) (l : List (Entry I O)) → Sorting.IsSorted l → IsSorted (slots i t l)
  unfolding slots
  slots-IsSorted i t [] h = tt
  slots-IsSorted i t (e ∷ l) h =
      (slots-above (key e) (suc i) t l h.0, slots-IsSorted (suc i) t l h.1)

  insert_mem :
      (x : Entry I O) (l : List (Entry I O)) (e : Entry I O)
      → Memᴰ e (insert x l)
      → (e ≡ x) ⊎ Memᴰ e l
  unfolding insert
  insert_mem x [] e p = inl (Memᴰ.eq_of_singleton p)
  insert_mem x (y ∷ l) e p = elim (gt-cases (entry_cmp x y)) [
    | inl g ↦ elim (subst (λ t. Memᴰ e t) (insert_past x y l g) p) [
      | Memᴰ.head q ↦ inr (Memᴰ.head q)
      | Memᴰ.tail q ↦ elim (insert_mem x l e q) [ inl r ↦ inl r | inr r ↦ inr (Memᴰ.tail r) ]
    ]
    | inr n ↦ Memᴰ.cases_cons (subst (λ t. Memᴰ e t) (insert_here x y l n) p)
  ]

  mem_insert :
      (x : Entry I O) (l : List (Entry I O)) (e : Entry I O)
      → (e ≡ x) ⊎ Memᴰ e l
      → Memᴰ e (insert x l)
  unfolding insert
  mem_insert x [] e (inl q) = Memᴰ.head q
  mem_insert x [] e (inr q) = Memᴰ.tail q
  mem_insert x (y ∷ l) e h = elim (gt-cases (entry_cmp x y)) [
    | inl g ↦ rw (insert_past x y l g) (elim h [
      | inl q ↦ Memᴰ.tail (mem_insert x l e (inl q))
      | inr q ↦ elim q [
        | Memᴰ.head r ↦ Memᴰ.head r
        | Memᴰ.tail r ↦ Memᴰ.tail (mem_insert x l e (inr r))
      ]
    ])
    | inr n ↦ rw (insert_here x y l n) (elim h [ inl q ↦ Memᴰ.head q | inr q ↦ Memᴰ.tail q ])
  ]

  sorted_mem :
      (id : ℕ) (ops : List (Operation I O)) (e : Entry I O)
      → Memᴰ e (sorted id ops)
      → (j : ℕ) × (op : Operation I O) × Memᴰ (j, op) (numbered id ops)
        × ((e ≡ call_entry j op) ⊎ (e ≡ return_entry j op))
  unfolding push_entries sort_entries
  sorted_mem id [] e p = absurd (Memᴰ.not-nil p)
  sorted_mem id (op ∷ ops) e p =
      let r = return_entry id op in
      let rest = sorted (suc id) ops in
      elim (insert_mem (call_entry id op) (insert r rest) e p) [
        | inl q ↦ (id, op, Memᴰ.head refl, inl q)
        | inr p' ↦ elim (insert_mem r rest e p') [
          | inl q ↦ (id, op, Memᴰ.head refl, inr q)
          | inr p'' ↦ let (j, o, at, is) = sorted_mem (suc id) ops e p'' in (j, o, Memᴰ.tail at, is)
        ]
      ]

  mem_sorted :
      (id : ℕ) (ops : List (Operation I O)) (j : ℕ) (op : Operation I O)
      → Memᴰ (j, op) (numbered id ops)
      → Memᴰ (call_entry j op) (sorted id ops) × Memᴰ (return_entry j op) (sorted id ops)
  unfolding push_entries sort_entries
  mem_sorted id [] j op p = absurd (Memᴰ.not-nil p)
  mem_sorted id (q ∷ ops) j op (Memᴰ.head e) =
      let c : call_entry j op ≡ call_entry id q = ap (λ t. call_entry t.0 t.1) e in
      let r : return_entry j op ≡ return_entry id q = ap (λ t. return_entry t.0 t.1) e in
      let rest = insert (return_entry id q) (sorted (suc id) ops) in
      (
        mem_insert (call_entry id q) rest _ (inl c),
        mem_insert (call_entry id q) rest _
            (inr (mem_insert (return_entry id q) (sorted (suc id) ops) _ (inl r))),
      )
  mem_sorted id (q ∷ ops) j op (Memᴰ.tail p) =
      let (c, r) = mem_sorted (suc id) ops j op p in
      let old : (e : Entry I O) → Memᴰ e (sorted (suc id) ops) → Memᴰ e (sorted id (q ∷ ops)) =
        λ e at.
          mem_insert (call_entry id q) (insert (return_entry id q) (sorted (suc id) ops)) e
            (inr (mem_insert (return_entry id q) (sorted (suc id) ops) e (inr at))) in
      (old (call_entry j op) c, old (return_entry j op) r)

  pub Covers-make_entries :
      (ops : List (Operation I O))
      → IsHistory (make_entries ops)
      → Covers (slots 1 (return_table (make_entries ops)) (make_entries ops)) (numbered 0 ops)
  unfolding make_entries
  Covers-make_entries ops h =
      let l = sorted 0 ops in
      let n = length l / 2 in
      let t = return_table l in
      record {
        onto = λ x p.
            let (e, q, same) = slots_mem 1 t l x p in
            let (j, op, at, is) = sorted_mem 0 ops e q in
            let id : j ≡ x.id = elim is [
              | inl c ↦ ap (λ z. z.id) (sym c) ∙ sym same.0
              | inr r ↦ ap (λ z. z.id) (sym r) ∙ sym same.0
            ] in
            (
              op,
              subst (λ i. Memᴰ (i, op) (numbered 0 ops)) id at,
              elim is [
                | inl c ↦ inl (refl, same.1 ∙ ap (λ z. z.value) c, same.2 ∙ ap (λ z. z.time) c)
                | inr r ↦ inr (refl, same.1 ∙ ap (λ z. z.value) r, same.2 ∙ ap (λ z. z.time) r)
              ],
            );
        calls = λ j op p. mem_slots 1 t l (call_entry j op) (mem_sorted 0 ops j op p).0;
        returns = λ j op p. mem_slots 1 t l (return_entry j op) (mem_sorted 0 ops j op p).1;
        distinct = Distinct-numbered 0 ops;
        sorted = slots-IsSorted 1 t l (sort_entries_lem (push_entries 0 ops)).0;
        paired =
            slots-IsPaired 0 l (replicate {A = ℕ} n no_ref) t refl h.paired
              (subst (λ k. IdsBelow k l) (sym (length-replicate n no_ref)) h.ids)
              (omega (arith, h.fits));
      }
