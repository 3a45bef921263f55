-- ===== src/Checker/Remaining.antt =====
-- The live entries by operation: those of one operation, the others, and those that a bitset of
-- linearized operations leaves.
use porcupine_rust.Base.{
  ℕ, ◌≤◌, ◌≡◌, ◌≢◌, refl, ap, ◌∙◌, sym, arith, Option, none, some, List, [], ◌∷◌, ◌++◌, ◌==◌, false,
  ◌||◌, Bool-cases, inl, inr, ==_iff, if◌then◌else◌, length,
}
use porcupine_rust.Bitset.{Bitset}
use porcupine_rust.Bitset.Index.{test}
use porcupine_rust.Entry.{call, return}
use porcupine_rust.Arena.Live.{Slot}

module _ {I O : Type 0} where
  -- The entries of operation `i`.
  abbrev pub only : ℕ → List (Slot I O) → List (Slot I O)
  only i [] = []
  only i (s ∷ l) = if s.id == i then s ∷ only i l else only i l

  -- The entries of the other operations.
  abbrev pub without : ℕ → List (Slot I O) → List (Slot I O)
  without i [] = []
  without i (s ∷ l) = if s.id == i then without i l else s ∷ without i l

  -- The entries of the operations that are not in `b`.
  abbrev pub remaining : Bitset → List (Slot I O) → List (Slot I O)
  remaining b [] = []
  remaining b (s ∷ l) = if test b s.id then remaining b l else s ∷ remaining b l

  -- What the first return entry of operation `i` returns.
  abbrev pub output_of : ℕ → List (Slot I O) → Option O
  output_of i [] = none
  output_of i (s ∷ l) =
      if s.id == i
      then elim s.value [ call x ↦ output_of i l | return o ↦ some o ]
      else output_of i l

  pub only-append : (i : ℕ) (k l : List (Slot I O)) → only i (k ++ l) ≡ only i k ++ only i l
  only-append i [] l = refl
  only-append i (s ∷ k) l = ground (arith, only-append i k l)

  pub without-append :
      (i : ℕ) (k l : List (Slot I O)) → without i (k ++ l) ≡ without i k ++ without i l
  without-append i [] l = refl
  without-append i (s ∷ k) l = ground (arith, without-append i k l)

  pub without_fresh : (i : ℕ) (l : List (Slot I O)) → only i l ≡ [] → without i l ≡ l
  without_fresh i [] h = refl
  without_fresh i (s ∷ l) h = ground (arith, without_fresh i l)

  pub only-without : (i j : ℕ) (l : List (Slot I O)) → i ≢ j → only i (without j l) ≡ only i l
  only-without i j [] h = refl
  only-without i j (s ∷ l) h = ground (arith, only-without i j l)

  pub length-without : (i : ℕ) (l : List (Slot I O)) → length (without i l) ≤ length l
  length-without i [] = omega arith
  length-without i (s ∷ l) = ground (arith, length-without i l)

  pub output_of_fresh :
      (i : ℕ) (k l : List (Slot I O)) → only i k ≡ [] → output_of i (k ++ l) ≡ output_of i l
  output_of_fresh i [] l h = refl
  output_of_fresh i (s ∷ k) l h = ground (arith, output_of_fresh i k l)

  -- Where one entry is of operation `i`, the list splits at it.
  pub record Split (i : ℕ) (m : Slot I O) (l : List (Slot I O)) : Type 0 where
    pub before : List (Slot I O)
    pub after : List (Slot I O)
    pub joins : l ≡ before ++ m ∷ after
    pub same : m.id ≡ i
    pub fresh_before : only i before ≡ []
    pub fresh_after : only i after ≡ []

  pub only-Split : (i : ℕ) (m : Slot I O) (l : List (Slot I O)) → only i l ≡ m ∷ [] → Split i m l
  only-Split i m [] h = absurd (cc)
  only-Split i m (s ∷ l) h = elim (Bool-cases (s.id == i)) [
    | inl y ↦
        let (e, r) : (s ≡ m) × (only i l ≡ []) = ground arith in
        record {
          before = [];
          after = l;
          joins = ap (λ t. t ∷ l) e;
          same = ap (λ t. t.id) (sym e) ∙ (==_iff s.id i).0 y;
          fresh_before = refl;
          fresh_after = r;
        }
    | inr y ↦
        let rest = only-Split i m l (ground arith) in
        record {
          before = s ∷ rest.before;
          after = rest.after;
          joins = ap (λ t. s ∷ t) rest.joins;
          same = rest.same;
          fresh_before = rw y rest.fresh_before;
          fresh_after = rest.fresh_after;
        }
  ]

  -- Adding an operation to the bitset takes its entries away.
  pub remaining-set :
      (b c : Bitset) (i : ℕ) (l : List (Slot I O))
      → ((q : ℕ) → test c q ≡ (i == q || test b q))
      → remaining c l ≡ without i (remaining b l)
  remaining-set b c i [] h = refl
  remaining-set b c i (s ∷ l) h = ground (arith, h s.id, remaining-set b c i l h)

  pub remaining_all :
      (b : Bitset) (l : List (Slot I O)) → ((q : ℕ) → test b q ≡ false) → remaining b l ≡ l
  remaining_all b [] h = refl
  remaining_all b (s ∷ l) h = rw (h s.id) (ap (λ t. s ∷ t) (remaining_all b l h))

  abbrev pub All {κ} : (Slot I O → Type κ) → List (Slot I O) → Type κ
  All P [] = Unit
  All P (s ∷ l) = P s × All P l

  pub All-append {κ} :
      (P : Slot I O → Type κ) (k l : List (Slot I O)) → All P k → All P l → All P (k ++ l)
  All-append P [] l p q = q
  All-append P (s ∷ k) l p q = (p.0, All-append P k l p.1 q)

  pub All-map {κ μ} :
      (P : Slot I O → Type κ) (Q : Slot I O → Type μ)
      → ((s : Slot I O) → P s → Q s)
      → (l : List (Slot I O)) → All P l
      → All Q l
  All-map P Q f [] p = tt
  All-map P Q f (s ∷ l) p = (f s p.0, All-map P Q f l p.1)

  pub All-middle {κ} :
      (P : Slot I O → Type κ) (k l : List (Slot I O)) (s : Slot I O) → All P (k ++ s ∷ l) → P s
  All-middle P [] l s p = p.0
  All-middle P (t ∷ k) l s p = All-middle P k l s p.1

  pub All-remaining {κ} :
      (P : Slot I O → Type κ) (b : Bitset) (l : List (Slot I O))
      → All P l
      → All (λ s. P s × (test b s.id ≡ false)) (remaining b l)
  All-remaining P b [] p = tt
  All-remaining P b (s ∷ l) p = elim (Bool-cases (test b s.id)) [
    | inl y ↦ rw y (All-remaining P b l p.1)
    | inr y ↦ rw y ((p.0, y), All-remaining P b l p.1)
  ]
