-- ===== src/Entries/Insertion.antt =====
-- Insertion into sorted entries, as the sort of `make_entries` does it.
use Prim.Native.Nat.{Ordering}
use porcupine_rust.Base.{suc, ◌≡◌, ◌≢◌, refl, ap, List, [], ◌∷◌, inl, inr, ◌⊎◌, length}
use porcupine_rust.Entry.{Entry}
use porcupine_rust.Entry.Paired.{All}
use porcupine_rust.Entries.{entry_cmp, insert}

pub gt-cases : (o : Ordering) → (o ≡ Ordering.gt) ⊎ (o ≢ Ordering.gt)
gt-cases Ordering.lt = inr (λ e. cc)
gt-cases Ordering.eq = inr (λ e. cc)
gt-cases Ordering.gt = inl refl

module _ {I O : Type 0} where
  pub insert_past :
      (e x : Entry I O) (l : List (Entry I O))
      → entry_cmp e x ≡ Ordering.gt
      → insert e (x ∷ l) ≡ x ∷ insert e l
  unfolding insert
  insert_past e x l h = rw (h, insert) refl

  pub insert_here :
      (e x : Entry I O) (l : List (Entry I O))
      → entry_cmp e x ≢ Ordering.gt
      → insert e (x ∷ l) ≡ e ∷ x ∷ l
  unfolding insert
  insert_here e x l h = by_order (entry_cmp e x) h
    where
      by_order :
          (o : Ordering)
          → o ≢ Ordering.gt
          → Path
              (List (Entry I O))
              (elim o [ Ordering.gt ↦ x ∷ insert e l | _ ↦ e ∷ x ∷ l ])
              (e ∷ x ∷ l)
      by_order Ordering.lt h = refl
      by_order Ordering.eq h = refl
      by_order Ordering.gt h = absurd (h refl)

  pub All-insert {κ} :
      (P : Entry I O → Type κ) (e : Entry I O) (l : List (Entry I O))
      → P e
      → All P l
      → All P (insert e l)
  unfolding insert
  All-insert P e [] p h = (p, tt)
  All-insert P e (x ∷ l) p h = elim (gt-cases (entry_cmp e x)) [
    | inl y ↦ rw (insert_past e x l y) (h.0, All-insert P e l p h.1)
    | inr n ↦ rw (insert_here e x l n) (p, h)
  ]

  pub length-insert : (e : Entry I O) (l : List (Entry I O)) → length (insert e l) ≡ suc (length l)
  unfolding insert
  length-insert e [] = refl
  length-insert e (x ∷ l) = elim (gt-cases (entry_cmp e x)) [
    | inl y ↦ rw (insert_past e x l y) (ap suc (length-insert e l))
    | inr n ↦ rw (insert_here e x l n) refl
  ]
