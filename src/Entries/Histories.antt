-- ===== src/Entries/Histories.antt =====
-- The entries of operations that return after their call are a history for `check_single`.
use Prim.Native.Nat.{Ordering}
use porcupine_rust.Base.{
  ℕ, suc, ◌+◌, ◌*◌, ◌/◌, ◌≤◌, ◌<◌, ◌≡◌, ◌≢◌, refl, ◌∙◌, arith, List, [], ◌∷◌, ◌==◌, false,
  Bool-cases, inl, inr, ==_refl, length, subst,
}
use porcupine_rust.Types.{Operation}
use porcupine_rust.Entry.{EntryValue, Entry, call, return}
use porcupine_rust.Entry.Paired.{only, HasReturn, IsPaired, All}
use porcupine_rust.Arena.{no_ref}
use porcupine_rust.Entries.{
  entry_cmp, insert, sort_entries, call_entry, return_entry, push_entries, make_entries,
}
use porcupine_rust.Checker.Correct.{IsHistory}
use porcupine_rust.Entries.Insertion.{gt-cases, insert_past, insert_here, All-insert, length-insert}

module _ {I O : Type 0} where
  only_other :
      (j : ℕ) (e : Entry I O) (l : List (Entry I O))
      → (e.id == j) ≡ false
      → only j (insert e l) ≡ only j l
  unfolding insert
  only_other j e [] h = rw h refl
  only_other j e (x ∷ l) h = elim (gt-cases (entry_cmp e x)) [
    | inl y ↦ rw (insert_past e x l y) (ground (arith, only_other j e l h))
    | inr n ↦ rw (insert_here e x l n, h) refl
  ]

  only_new :
      (e : Entry I O) (l : List (Entry I O)) → only e.id l ≡ [] → only e.id (insert e l) ≡ e ∷ []
  unfolding insert
  only_new e [] h = rw (==_refl e.id) refl
  only_new e (x ∷ l) h = elim (gt-cases (entry_cmp e x)) [
    | inl y ↦ rw (insert_past e x l y) (ground (arith, only_new e l))
    | inr n ↦ rw (insert_here e x l n, ==_refl e.id, h) refl
  ]

  not_same :
      (x : Entry I O) (id : ℕ) (l : List (Entry I O))
      → only id (x ∷ l) ≡ []
      → ((id == x.id) ≡ false) × (only id l ≡ [])
  not_same x id l h = elim (Bool-cases (x.id == id)) [
    | inl y ↦ absurd (ground arith)
    | inr n ↦ (ground arith, ground arith)
  ]

  HasReturn-insert :
      (v : EntryValue I O) (j : ℕ) (e : Entry I O) (l : List (Entry I O))
      → (e.id == j) ≡ false
      → HasReturn v j l
      → HasReturn v j (insert e l)
  HasReturn-insert (call i) j e l ne (r, o, one, is) = (r, o, only_other j e l ne ∙ one, is)
  HasReturn-insert (return o) j e l ne h = only_other j e l ne ∙ h

  IsPaired-return :
      (e : Entry I O) (o : O) (l : List (Entry I O))
      → e.value ≡ return o
      → only e.id l ≡ []
      → IsPaired l
      → IsPaired (insert e l)
  unfolding insert
  IsPaired-return e o [] is fresh h = (rw is refl, tt)
  IsPaired-return e o (x ∷ l) is fresh h = elim (gt-cases (entry_cmp e x)) [
    | inl y ↦
        let (ne, fresh') = not_same x e.id l fresh in
        rw (insert_past e x l y)
          (HasReturn-insert x.value x.id e l ne h.0, IsPaired-return e o l is fresh' h.1)
    | inr n ↦ rw (insert_here e x l n) (rw is fresh, h)
  ]

  -- A call goes in before its return.
  IsPaired-call :
      (c r : Entry I O) (i : I) (o : O) (l : List (Entry I O))
      → c.value ≡ call i
      → r.value ≡ return o
      → entry_cmp c r ≢ Ordering.gt
      → only c.id l ≡ r ∷ []
      → IsPaired l
      → IsPaired (insert c l)
  unfolding insert
  IsPaired-call c r i o [] is ret before one h = absurd (cc)
  IsPaired-call c r i o (x ∷ l) is ret before one h = elim (gt-cases (entry_cmp c x)) [
    | inl y ↦ elim (Bool-cases (x.id == c.id)) [
      | inl same ↦
          let e : x ≡ r = ground arith in
          absurd (before (subst (λ t. entry_cmp c t ≡ Ordering.gt) e y))
      | inr other ↦ rw (insert_past c x l y) (
        HasReturn-insert x.value x.id c l (ground arith) h.0,
        IsPaired-call c r i o l is ret before (ground arith) h.1,
      )
    ]
    | inr n ↦ rw (insert_here c x l n) (rw is (r, o, one, ret), h)
  ]

  -- `assert_well_formed` of src/invariants.rs: each operation returns at its call's time or later.
  abbrev pub IsWellFormed : List (Operation I O) → Type 0
  IsWellFormed [] = Unit {0}
  IsWellFormed (op ∷ ops) = (op.call ≤ op.return_time) × IsWellFormed ops

  -- The entries of the operations with the ids from `id` on, sorted.
  abbrev pub sorted : ℕ → List (Operation I O) → List (Entry I O)
  sorted id ops = sort_entries (push_entries id ops)

  call_first :
      (id : ℕ) (op : Operation I O)
      → op.call ≤ op.return_time
      → entry_cmp (call_entry id op) (return_entry id op) ≢ Ordering.gt
  call_first id op h e = ground arith

  only-sorted : (j id : ℕ) (ops : List (Operation I O)) → j < id → only j (sorted id ops) ≡ []
  unfolding push_entries sort_entries
  only-sorted j id [] h = refl
  only-sorted j id (op ∷ ops) h =
      let rest = sorted (suc id) ops in
      let ne : (id == j) ≡ false = ground arith in
      only_other j (call_entry id op) (insert (return_entry id op) rest) ne
      ∙ only_other j (return_entry id op) rest ne
      ∙ only-sorted j (suc id) ops (omega arith)

  pub IsPaired-sorted :
      (id : ℕ) (ops : List (Operation I O)) → IsWellFormed ops → IsPaired (sorted id ops)
  unfolding push_entries sort_entries
  IsPaired-sorted id [] h = tt
  IsPaired-sorted id (op ∷ ops) h =
      let rest = sorted (suc id) ops in
      let r = return_entry id op in
      let fresh = only-sorted id (suc id) ops (omega arith) in
      IsPaired-call (call_entry id op) r op.input op.output (insert r rest) refl refl
        (call_first id op h.0) (only_new r rest fresh)
        (IsPaired-return r op.output rest refl fresh (IsPaired-sorted (suc id) ops h.1))

  ids-sorted :
      (n id : ℕ) (ops : List (Operation I O))
      → id + length ops ≤ n
      → All (λ e. e.id < n) (sorted id ops)
  unfolding push_entries sort_entries
  ids-sorted n id [] h = tt
  ids-sorted n id (op ∷ ops) h =
      let rest = sorted (suc id) ops in
      let below : id < n = omega arith in
      All-insert (λ e. e.id < n) (call_entry id op) (insert (return_entry id op) rest) below
        (All-insert (λ e. e.id < n) (return_entry id op) rest below
          (ids-sorted n (suc id) ops (omega arith)))

  pub length-sorted :
      (id : ℕ) (ops : List (Operation I O)) → length (sorted id ops) ≡ 2 * length ops
  unfolding push_entries sort_entries
  length-sorted id [] = refl
  length-sorted id (op ∷ ops) =
      let rest = sorted (suc id) ops in
      omega (
        arith,
        length-insert (call_entry id op) (insert (return_entry id op) rest),
        length-insert (return_entry id op) rest,
        length-sorted (suc id) ops,
      )

  -- Where each operation returns at its call's time or later, and the entries fit 32-bit indices,
  -- `make_entries` gives a history for `check_single`.
  pub make_entries-IsHistory :
      (ops : List (Operation I O))
      → IsWellFormed ops
      → 2 * length ops < no_ref
      → IsHistory (make_entries ops)
  unfolding make_entries
  make_entries-IsHistory ops h fits =
      let n = length-sorted 0 ops in
      record {
        paired = IsPaired-sorted 0 ops h;
        ids = ids-sorted (length (sorted 0 ops) / 2) 0 ops (omega (arith, n));
        even = omega (arith, n);
        fits = omega (arith, n, fits);
      }
