-- ===== src/Checker/AtCall.antt =====
-- What is known at a call at the cursor.
use porcupine_rust.Base.{
  ℕ, ◌+◌, ◌/◌, ◌≤◌, ◌<◌, ◌≡◌, subst, ap, ◌∙◌, sym, arith, some, List, ◌∷◌, ◌++◌, false, length,
}
use porcupine_rust.Bitset
use porcupine_rust.Bitset.{Bitset}
use porcupine_rust.Bitset.Index.{IsWords, InRange, test, hash_with_bit-some}
use porcupine_rust.Bitset.Member.{set_lem, set-IsWords, clear-set}
use porcupine_rust.Entry.{call}
use porcupine_rust.Model.{Model}
use porcupine_rust.Arena.Live.{Slot, Live}
use porcupine_rust.Arena.Lift.{Lifted, lift_lem}
use porcupine_rust.Checker.{Search}
use porcupine_rust.Checker.Remaining.{
  without, remaining, remaining-set, output_of, All, All-middle, All-remaining,
}
use porcupine_rust.Checker.Pairing.{IsPaired, Pair, IsPaired-Pair}
use porcupine_rust.Checker.Explore.{Ready}

module _ {S I O : Type 0} (m : Model S I O) (all : List (Slot I O)) (w : ℕ) where
  -- The facts about a call at the cursor that each verdict of the model needs.
  pub record AtCall (st : Search S I O) (l a r : List (Slot I O)) (c : Slot I O) (i : I)
      : Type 0 where
    pub ready : Ready m all w st l a (c ∷ r)
    pub is : c.value ≡ call i
    pub pair : Pair a r c
    pub here : Live st.arena (a ++ c ∷ r)
    pub out : output_of c.id l ≡ some pair.output
    pub in_range : InRange st.linearized c.id
    pub grown : Bitset
    pub sets : Bitset.set st.linearized c.id ≡ some grown
    pub grown_sized : length grown ≡ w
    pub grown_words : IsWords grown
    pub clears : Bitset.clear grown c.id ≡ some st.linearized
    pub grown_left : remaining grown all ≡ without c.id l
    pub fewer : length (without c.id l) + 2 ≤ length l
    pub key : ℕ
    pub hashes : Bitset.hash_with_bit st.linearized c.id ≡ some key
    pub up : Lifted st.arena c (without c.id l)

  pub at_call :
      (st : Search S I O) (l a r : List (Slot I O)) (c : Slot I O) (i : I)
      → All (λ s. s.id / 64 < w) all
      → Ready m all w st l a (c ∷ r)
      → c.value ≡ call i
      → AtCall st l a r c i
  at_call st l a r c i fits h is =
      let pair = IsPaired-Pair a r c i is (subst IsPaired h.split h.paired) in
      let here : Live st.arena (a ++ c ∷ r) = subst (Live st.arena) h.split h.live in
      let facts =
        All-middle (λ s. (s.id / 64 < w) × (test st.linearized s.id ≡ false)) a r c
          (subst (All (λ s. (s.id / 64 < w) × (test st.linearized s.id ≡ false))) (h.left ∙ h.split)
            (All-remaining (λ s. s.id / 64 < w) st.linearized all fits)) in
      let in_range : InRange st.linearized c.id = rw h.sized facts.0 in
      let (g, e, len, tests) = set_lem st.linearized c.id in_range in
      let (key, hashes) = hash_with_bit-some st.linearized c.id in_range in
      let rest : without c.id l ≡ (a ++ pair.between) ++ pair.after =
        ap (without c.id) h.split ∙ pair.rest_eq in
      let whole : a ++ c ∷ r ≡ a ++ c ∷ (pair.between ++ pair.ret ∷ pair.after) =
        ap (λ t. a ++ c ∷ t) pair.joins in
      record {
        ready = h;
        is = is;
        pair = pair;
        here = here;
        out = ap (output_of c.id) h.split ∙ pair.output_eq;
        in_range = in_range;
        grown = g;
        sets = e;
        grown_sized = len ∙ h.sized;
        grown_words = set-IsWords st.linearized g c.id h.words e;
        clears = clear-set st.linearized g c.id h.words facts.1 e;
        grown_left = remaining-set st.linearized g c.id all tests ∙ ap (without c.id) h.left;
        fewer =
            omega
              (arith, pair.shrinks, ap length h.split, ap (λ t. length (without c.id t)) h.split);
        key = key;
        hashes = hashes;
        up = subst (Lifted st.arena c) (sym rest) (
            lift_lem a pair.between pair.after st.arena c pair.ret pair.matched
              (subst (Live st.arena) whole here));
      }
