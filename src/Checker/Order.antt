-- ===== src/Checker/Order.antt =====
-- The orders that the search looks for: the operations of a live list one after the other, each
-- with no return of a remaining operation before its call, and each accepted by the model.
use porcupine_rust.Base.{◌≡◌, refl, subst, ◌∙◌, sym, arith, some, List, [], ◌∷◌, ◌++◌, true, false}
use porcupine_rust.Entry.{call, is_call}
use porcupine_rust.Model.{Model}
use porcupine_rust.Arena.Live.{Slot}
use porcupine_rust.Checker.Remaining.{without, output_of, All}

nonempty {ℓ} : {A : Type ℓ} (a b : List A) (x : A) → ¬ (a ++ x ∷ b ≡ [])
nonempty [] b x e = cc
nonempty (y ∷ a) b x e = cc

module _ {S I O : Type 0} (m : Model S I O) where
  pub data Orders : S → List (Slot I O) → Type 0 where
    done : (s : S) → Orders s []
    pick :
        {s s' : S} {l : List (Slot I O)} (k r : List (Slot I O)) (c : Slot I O) (i : I) (o : O)
        → l ≡ k ++ c ∷ r
        → All (λ x. is_call x.value ≡ true) k
        → c.value ≡ call i
        → output_of c.id l ≡ some o
        → m.step s i o ≡ some s'
        → Orders s' (without c.id l)
        → Orders s l

  -- No order of `l` from `s` begins with `c`.
  abbrev pub Refuted : S → List (Slot I O) → Slot I O → Type 0
  Refuted s l c =
      (i : I) (o : O) (s' : S)
      → c.value ≡ call i
      → output_of c.id l ≡ some o
      → m.step s i o ≡ some s'
      → ¬ Orders s' (without c.id l)

  -- A call that was tried in vain.
  abbrev pub Tried : S → List (Slot I O) → Slot I O → Type 0
  Tried s l c = (is_call c.value ≡ true) × Refuted s l c

  calls_only :
      (k r : List (Slot I O)) (x c : Slot I O) (a b : List (Slot I O)) (P : Slot I O → Type 0)
      → is_call x.value ≡ false
      → is_call c.value ≡ true
      → All (λ y. is_call y.value ≡ true) k
      → k ++ c ∷ r ≡ a ++ x ∷ b
      → All P a
      → P c
  calls_only [] r x c [] b P xr cc' ks e p = absurd (cc)
  calls_only [] r x c (y ∷ a) b P xr cc' ks e p =
      let same : y ≡ c = ground arith in subst P same p.0
  calls_only (z ∷ k) r x c [] b P xr cc' ks e p = absurd (cc)
  calls_only (z ∷ k) r x c (y ∷ a) b P xr cc' ks e p =
      calls_only k r x c a b P xr cc' ks.1 (ground arith) p.1

  -- Where every call before a return was tried in vain, there is no order.
  pub blocked :
      (s : S) (l a b : List (Slot I O)) (x : Slot I O)
      → l ≡ a ++ x ∷ b
      → is_call x.value ≡ false
      → All (Tried s l) a
      → ¬ Orders s l
  blocked s l a b x e xr tried (done _) = absurd (nonempty a b x (sym e))
  blocked s l a b x e xr tried (pick k r c i o split ks is out stepped rest) =
      (calls_only k r x c a b (Tried s l) xr (rw is refl) ks (sym split ∙ e) tried).1 i o _ is out
        stepped rest
