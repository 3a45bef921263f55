-- ===== src/Entries/Sorting.antt =====
-- `sort_entries` sorts stably: by time, calls before returns.
use Prim.Native.Nat.{compare, Ordering}
use porcupine_rust.Base.{
  ℕ, ◌+◌, ◌*◌, ◌≤◌, ◌<◌, ◌≡◌, refl, ◌∙◌, arith, List, [], ◌∷◌, ◌==◌, if◌then◌else◌, inl, inr, ◌↔◌,
}
use porcupine_rust.Entry.{EntryValue, Entry, call, return}
use porcupine_rust.Entry.Paired.{All}
use porcupine_rust.Entries.{value_cmp, entry_cmp, insert, sort_entries}
use porcupine_rust.Entries.Insertion.{gt-cases, insert_past, insert_here, All-insert}

module _ {I O : Type 0} where
  -- A number that orders the entries as `entry_cmp` does.
  abbrev pub rank : EntryValue I O → ℕ
  rank (call i) = 0
  rank (return o) = 1

  abbrev pub key : Entry I O → ℕ
  key e = 2 * e.time + rank e.value

  value_cmp_key :
      (t u : ℕ) (v w : EntryValue I O)
      → (elim (compare t u) [
        | Ordering.lt ↦ Ordering.lt
        | Ordering.eq ↦ value_cmp v w
        | Ordering.gt ↦ Ordering.gt
      ]
          ≡ Ordering.gt)
        ↔ (2 * u + rank w < 2 * t + rank v)
  value_cmp_key t u (call i) (call j) = (λ h. ground arith, λ h. ground arith)
  value_cmp_key t u (call i) (return j) = (λ h. ground arith, λ h. ground arith)
  value_cmp_key t u (return i) (call j) = (λ h. ground arith, λ h. ground arith)
  value_cmp_key t u (return i) (return j) = (λ h. ground arith, λ h. ground arith)

  pub entry_cmp-key : (a b : Entry I O) → (entry_cmp a b ≡ Ordering.gt) ↔ (key b < key a)
  entry_cmp-key a b = value_cmp_key a.time b.time a.value b.value

  abbrev pub IsSorted : List (Entry I O) → Type 0
  IsSorted [] = Unit {0}
  IsSorted (e ∷ l) = All (λ x. key e ≤ key x) l × IsSorted l

  -- The entries of one key.
  abbrev pub at_key : ℕ → List (Entry I O) → List (Entry I O)
  at_key k [] = []
  at_key k (e ∷ l) = if key e == k then e ∷ at_key k l else at_key k l

  below : (a b : ℕ) (l : List (Entry I O)) → a ≤ b → All (λ x. b ≤ key x) l → All (λ x. a ≤ key x) l
  below a b [] h p = tt
  below a b (x ∷ l) h p = (let q : b ≤ key x = p.0 in omega arith, below a b l h p.1)

  IsSorted-insert : (e : Entry I O) (l : List (Entry I O)) → IsSorted l → IsSorted (insert e l)
  unfolding insert
  IsSorted-insert e [] h = (tt, tt)
  IsSorted-insert e (x ∷ l) h = elim (gt-cases (entry_cmp e x)) [
    | inl y ↦
        let after : key x < key e = (entry_cmp-key e x).0 y in
        rw (insert_past e x l y)
          (All-insert (λ z. key x ≤ key z) e l (omega arith) h.0, IsSorted-insert e l h.1)
    | inr n ↦
        let to = (entry_cmp-key e x).1 in
        let first : key e ≤ key x = by_contra (key e) (key x) (λ lt. n (to lt)) in
        rw (insert_here e x l n) ((first, below (key e) (key x) l first h.0), h)
  ]
    where
      by_contra : (a b : ℕ) → ¬ (b < a) → a ≤ b
      by_contra a b h = ground arith

  at_key-insert :
      (k : ℕ) (e : Entry I O) (l : List (Entry I O)) → at_key k (insert e l) ≡ at_key k (e ∷ l)
  unfolding insert
  at_key-insert k e [] = refl
  at_key-insert k e (x ∷ l) = elim (gt-cases (entry_cmp e x)) [
    | inl y ↦
        let after : key x < key e = (entry_cmp-key e x).0 y in
        rw (insert_past e x l y, at_key-insert k e l) (ground arith)
    | inr n ↦ rw (insert_here e x l n) refl
  ]

  -- The sorted entries rise by time, calls before returns at one time, and entries that compare
  -- equal keep their order; none is lost and none is added.
  pub sort_entries_lem :
      (l : List (Entry I O))
      → IsSorted (sort_entries l) × ((k : ℕ) → at_key k (sort_entries l) ≡ at_key k l)
  unfolding sort_entries
  sort_entries_lem [] = (tt, λ k. refl)
  sort_entries_lem (e ∷ l) =
      let (sorts, keeps) = sort_entries_lem l in
      (
        IsSorted-insert e (sort_entries l) sorts,
        λ k. at_key-insert k e (sort_entries l) ∙ rw (keeps k) refl,
      )
