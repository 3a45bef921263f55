-- ===== src/Locality/Split.antt =====
-- A linearization of the whole is one of each part.
use porcupine_rust.Base.{
  ℕ, ◌≡◌, sym, ◌∙◌, subst, ap, some, List, [], ◌∷◌, ◌++◌, ◌==◌, inl, inr, Bool-cases, ==_iff,
}
use porcupine_rust.Types.{Operation}
use porcupine_rust.Model.{Model}
use porcupine_rust.Checker.Linearizable.{Linearizable}
use porcupine_rust.Locality.{with_key, update, KeyedLinearizable, done, next}
use porcupine_rust.Locality.Keys.{
  with_key_in, with_key_out, with_key-append, mem_with_key, update_same, update_other,
}

module _ {S I O : Type 0} (m : Model S I O) (key : Operation I O → ℕ) where
  with_key_nil : (j : ℕ) (s : S) → Linearizable m s (with_key key j [])
  unfolding with_key
  with_key_nil j s = Linearizable.done s

  pub KeyedLinearizable-part :
      {states : ℕ → S} {ops : List (Operation I O)}
      → KeyedLinearizable m key states ops
      → (j : ℕ) → Linearizable m (states j) (with_key key j ops)
  KeyedLinearizable-part (done states) j = with_key_nil j (states j)
  KeyedLinearizable-part {states = states} {ops = ops} (next {s' = s'} k r op e first step rest) j =
      elim (Bool-cases (key op == j)) [
        | inl y ↦
            let is : key op ≡ j = (==_iff (key op) j).0 y in
            let parts : with_key key j ops ≡ with_key key j k ++ op ∷ with_key key j r =
              ap (with_key key j) e
              ∙ with_key-append key j k (op ∷ r)
              ∙ ap (λ t. with_key key j k ++ t) (with_key_in key j op r is) in
            let state : update states (key op) s' j ≡ s' =
              subst (λ i. update states (key op) s' i ≡ s') is (update_same states (key op) s') in
            let more : Linearizable m s' (with_key key j k ++ with_key key j r) =
              subst (λ l. Linearizable m s' l) (with_key-append key j k r)
                (subst (λ s. Linearizable m s (with_key key j (k ++ r))) state
                  (KeyedLinearizable-part rest j)) in
            Linearizable.next (with_key key j k) (with_key key j r) op parts
              (λ q at. first q (mem_with_key key j q ops at).0)
              (subst (λ i. m.step (states i) op.input op.output ≡ some s') is step) more
        | inr n ↦
            let same : with_key key j (k ++ r) ≡ with_key key j ops =
              with_key-append key j k r
              ∙ ap (λ t. with_key key j k ++ t) (sym (with_key_out key j op r n))
              ∙ sym (with_key-append key j k (op ∷ r))
              ∙ ap (with_key key j) (sym e) in
            subst (λ l. Linearizable m (states j) l) same
              (subst (λ s. Linearizable m s (with_key key j (k ++ r)))
                (update_other states (key op) j s' n) (KeyedLinearizable-part rest j))
      ]
