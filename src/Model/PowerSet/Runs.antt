-- ===== src/Model/PowerSet/Runs.antt =====
-- The adapters follow every run of the nondeterministic model at once.
use mathlib.Core.List.{Memᴰ}
use mathlib.Core.List.Memᴰ
use porcupine_rust.Base.{◌≡◌, refl, Option, none, some, List, [], ◌∷◌, inl, inr, ◌⊎◌, ◌↔◌, subst}
use porcupine_rust.Base.Do.{◌>>=◌}
use porcupine_rust.Model.{Model}
use porcupine_rust.Model.PowerSet.{
  NondeterministicModel, states_eq, deduplicate, successors, nonempty, power_set_step,
  power_set_model, hashed_step, hashed_power_set_model,
}
use porcupine_rust.Model.PowerSet.Dedup.{EqIsSound, deduplicate_mem, deduplicate_hashed-deduplicate}

-- The state after the operations, where the model accepts them all.
abbrev pub run : {S I O : Type 0} → Model S I O → S → List (I × O) → Option S
run m s [] = some s
run m s ((i, o) ∷ ops) = m.step s i o >>= λ t. run m t ops

nonempty_cases :
    {S I O : Type 0} (m : NondeterministicModel S I O) (l : List S)
    → ((l ≡ []) × (nonempty m l ≡ none)) ⊎ (nonempty m l ≡ some l)
nonempty_cases m [] = inl (refl, refl)
nonempty_cases m (s ∷ l) = inr refl

module _ {S I O : Type 0} (m : NondeterministicModel S I O) where
  -- `t` is a state that the operations may lead to from `s`.
  pub data Run : S → List (I × O) → S → Type 0 where
    stop : {s t : S} → s ≡ t → Run s [] t
    next :
        {s s' t : S} {i : I} {o : O} {ops : List (I × O)}
        → Memᴰ s' (m.step s i o)
        → Run s' ops t
        → Run s ((i, o) ∷ ops) t

  -- … from one of the states.
  abbrev pub RunFrom : List S → List (I × O) → S → Type 0
  RunFrom ss ops t = (s : S) × Memᴰ s ss × Run s ops t

  pub successors_mem :
      (ss : List S) (i : I) (o : O) (t : S)
      → Memᴰ t (successors m ss i o) ↔ ((s : S) × Memᴰ s ss × Memᴰ t (m.step s i o))
  unfolding successors
  successors_mem [] i o t = (λ h. absurd (Memᴰ.not-nil h), λ h. absurd (Memᴰ.not-nil h.1))
  successors_mem (s ∷ ss) i o t =
      let (to, from) = successors_mem ss i o t in
      (
        λ h. elim (Memᴰ.append_cases (m.step s i o) h) [
          | inl p ↦ (s, Memᴰ.head refl, p)
          | inr p ↦ let (u, q, r) = to p in (u, Memᴰ.tail q, r)
        ],
        λ h.
            let (u, p, r) = h in
            elim p [
              | Memᴰ.head e ↦ Memᴰ.append_left _ (subst (λ v. Memᴰ t (m.step v i o)) e r)
              | Memᴰ.tail q ↦ Memᴰ.append_right (m.step s i o) (from (u, q, r))
            ],
      )

  -- What running the adapter from the states `ss` tells of the runs.
  abbrev pub Follows : Option (List S) → List S → List (I × O) → Type 0
  Follows none ss ops = (t : S) → ¬ RunFrom ss ops t
  Follows (some ts) ss ops = (t : S) → Memᴰ t ts ↔ RunFrom ss ops t

  -- A step of the adapter, then the rest.
  Follows-next :
      (r : Option (List S)) (ss us : List S) (i : I) (o : O) (ops : List (I × O))
      → ((u : S) → Memᴰ u us ↔ Memᴰ u (successors m ss i o))
      → Follows r us ops
      → Follows r ss ((i, o) ∷ ops)
  Follows-next r ss us i o ops same h = by_result r h
    where
      back : {t : S} → RunFrom ss ((i, o) ∷ ops) t → RunFrom us ops t
      back (s, p, next {s' = s'} q rest) =
          (s', (same s').1 ((successors_mem ss i o s').1 (s, p, q)), rest)

      forth : {t : S} → RunFrom us ops t → RunFrom ss ((i, o) ∷ ops) t
      forth (u, p, rest) =
          let (s, q, r') = (successors_mem ss i o u).0 ((same u).0 p) in (s, q, next r' rest)

      by_result : (r : Option (List S)) → Follows r us ops → Follows r ss ((i, o) ∷ ops)
      by_result none h = λ t x. h t (back x)
      by_result (some ts) h = λ t. (λ p. forth ((h t).0 p), λ x. (h t).1 (back x))

  Follows-same :
      (r : Option (List S)) (ss us : List S) (ops : List (I × O))
      → ((u : S) → Memᴰ u us ↔ Memᴰ u ss)
      → Follows r us ops
      → Follows r ss ops
  Follows-same none ss us ops same h = λ t y. let (s, p, x) = y in h t (s, (same s).1 p, x)
  Follows-same (some ts) ss us ops same h = λ t. (
    λ p. let (s, q, x) = (h t).0 p in (s, (same s).0 q, x),
    λ y. let (s, q, x) = y in (h t).1 (s, (same s).1 q, x),
  )

  Follows-run :
      EqIsSound m
      → (ss : List S) (ops : List (I × O)) → Follows (run (power_set_model m) ss ops) ss ops
  unfolding power_set_model power_set_step
  Follows-run sound ss [] = λ t. (
    λ p. (t, p, stop refl),
    λ x. let (s, p, r) = x in elim r [ stop e ↦ subst (λ v. Memᴰ v ss) e p ],
  )
  Follows-run sound ss ((i, o) ∷ ops) =
      let us = deduplicate m (successors m ss i o) in
      let same = deduplicate_mem m sound (successors m ss i o) in
      elim (nonempty_cases m us) [
        | inl (e, n) ↦ rw n (
            Follows-next none ss us i o ops same
              (λ t x. Memᴰ.not-nil (subst (λ l. Memᴰ x.0 l) e x.1)))
        | inr y ↦ rw y (
            Follows-next (run (power_set_model m) us ops) ss us i o ops same
              (Follows-run sound us ops))
      ]

  -- Where states that compare equal are the same, the adapter holds after the operations just the
  -- states that runs from the initial states lead to, and refuses only where there is no run.
  pub power_set_model-Follows :
      EqIsSound m
      → (ops : List (I × O))
      → Follows (run (power_set_model m) (power_set_model m).init ops) m.init ops
  unfolding power_set_model
  power_set_model-Follows sound ops =
      let us = deduplicate m m.init in
      Follows-same (run (power_set_model m) us ops) m.init us ops (deduplicate_mem m sound m.init)
        (Follows-run sound us ops)

  -- The two adapters are the same model.
  pub hashed_power_set_model-power_set_model : hashed_power_set_model m ≡ power_set_model m
  unfolding hashed_power_set_model power_set_model hashed_step power_set_step
  hashed_power_set_model-power_set_model = λ i. record {
    init = deduplicate_hashed-deduplicate m m.init i;
    step = λ ss x o. nonempty m (deduplicate_hashed-deduplicate m (successors m ss x o) i);
    partition = m.partition;
    partition_events = m.partition_events;
    state_eq = states_eq m.state_eq;
  }
