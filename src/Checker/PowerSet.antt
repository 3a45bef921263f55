-- ===== src/Checker/PowerSet.antt =====
-- Linearizability under a nondeterministic model, and under the adapter of it in src/model.rs.
use mathlib.Core.List.{Memᴰ}
use mathlib.Core.List.Memᴰ
use porcupine_rust.Base.{◌<◌, ◌≡◌, refl, sym, subst, true, some, List, [], ◌∷◌, ◌++◌, ◌↔◌, both}
use porcupine_rust.Base.Do.{not_none, some_inj}
use porcupine_rust.Types.{Operation}
use porcupine_rust.Model
use porcupine_rust.Model.PowerSet.{
  NondeterministicModel, states_eq, deduplicate, successors, nonempty, power_set_step,
  power_set_model,
}
use porcupine_rust.Model.PowerSet.Dedup.{EqIsSound, deduplicate_mem}
use porcupine_rust.Model.PowerSet.Runs.{successors_mem}
use porcupine_rust.Checker.Linearizable.{Linearizable, done, next}

module _ {S I O : Type 0} (m : NondeterministicModel S I O) where
  -- As `Linearizable`, where each operation leads to one of the next states.
  pub data MayLinearize : S → List (Operation I O) → Type 0 where
    ends : {s : S} → MayLinearize s []
    takes :
        {s s' : S} {ops : List (Operation I O)} (k r : List (Operation I O)) (op : Operation I O)
        → ops ≡ k ++ op ∷ r
        → ((q : Operation I O) → Memᴰ q ops → ¬ (q.return_time < op.call))
        → Memᴰ s' (m.step s op.input op.output)
        → MayLinearize s' (k ++ r)
        → MayLinearize s ops

  -- … from one of the states.
  abbrev pub MayFrom : List S → List (Operation I O) → Type 0
  MayFrom ss ops = (s : S) × Memᴰ s ss × MayLinearize s ops

  nonempty-some : (l us : List S) → nonempty m l ≡ some us → (l ≡ us) × ((s : S) × Memᴰ s us)
  nonempty-some [] us h = absurd (not_none h)
  nonempty-some (s ∷ l) us h =
      let e : s ∷ l ≡ us = some_inj h in (e, (s, subst (λ t. Memᴰ s t) e (Memᴰ.head refl)))

  some-nonempty : (l : List S) (s : S) → Memᴰ s l → nonempty m l ≡ some l
  some-nonempty [] s h = absurd (Memᴰ.not-nil h)
  some-nonempty (x ∷ l) s h = refl

  module _ (sound : EqIsSound m) where
    MayFrom-Linearizable :
        {ss : List S} {ops : List (Operation I O)}
        → Linearizable (power_set_model m) ss ops
        → ((s : S) × Memᴰ s ss)
        → MayFrom ss ops
    unfolding power_set_model power_set_step
    MayFrom-Linearizable (done ss) (s, p) = (s, p, ends)
    MayFrom-Linearizable {ss = ss} (next {s' = us} k r op e first step rest) some_state =
        let (same, some_next) =
          nonempty-some (deduplicate m (successors m ss op.input op.output)) us step in
        let (t, q, may) = MayFrom-Linearizable rest some_next in
        let q' =
          (deduplicate_mem m sound (successors m ss op.input op.output) t).0
            (subst (λ l. Memᴰ t l) (sym same) q) in
        let (s, p, at) = (successors_mem m ss op.input op.output t).0 q' in
        (s, p, takes k r op e first at may)

    Linearizable-MayFrom :
        {s : S} {ops : List (Operation I O)} (ss : List S)
        → Memᴰ s ss
        → MayLinearize s ops
        → Linearizable (power_set_model m) ss ops
    unfolding power_set_model power_set_step
    Linearizable-MayFrom ss p ends = done ss
    Linearizable-MayFrom {s = s} ss p (takes {s' = t} k r op e first at rest) =
        let us = deduplicate m (successors m ss op.input op.output) in
        let q =
          (deduplicate_mem m sound (successors m ss op.input op.output) t).1
            ((successors_mem m ss op.input op.output t).1 (s, p, at)) in
        next k r op e first (some-nonempty us t q) (Linearizable-MayFrom us q rest)

    -- Where states that compare equal are the same and there is an initial state, operations are
    -- linearizable under the adapter if and only if some initial state and some next state of each
    -- operation make them linearizable under the nondeterministic model.
    pub power_set_model-MayFrom :
        ((s : S) × Memᴰ s m.init)
        → (ops : List (Operation I O))
        → Linearizable (power_set_model m) (power_set_model m).init ops ↔ MayFrom m.init ops
    unfolding power_set_model
    power_set_model-MayFrom (s, p) ops =
        let same = deduplicate_mem m sound m.init in
        (
          λ h. let (t, q, may) = MayFrom-Linearizable h (s, (same s).1 p) in (t, (same t).0 q, may),
          λ h.
              let (t, q, may) = h in Linearizable-MayFrom (deduplicate m m.init) ((same t).1 q) may,
        )

    states_eq_same : (l r : List S) → states_eq m.state_eq l r ≡ true → l ≡ r
    unfolding states_eq
    states_eq_same [] [] h = refl
    states_eq_same [] (t ∷ r) h = absurd (cc)
    states_eq_same (s ∷ l) [] h = absurd (cc)
    states_eq_same (s ∷ l) (t ∷ r) h =
        let (first, rest) = both (m.state_eq s t) (states_eq m.state_eq l r) h in
        cc (sound s t first, states_eq_same l r rest)

    -- Lists of states that compare equal are the same.
    pub power_set_model-EqIsSound : Model.EqIsSound (power_set_model m)
    unfolding power_set_model
    power_set_model-EqIsSound l r h = states_eq_same l r h
