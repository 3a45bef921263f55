-- ===== src/Locality/Independent.antt =====
-- Models whose state falls apart by keys, as docs/spec.md asks for under INV-LIN-03: an operation sees
-- and changes what the state has for its key alone.
use mathlib.Core.List.{Memᴰ}
use porcupine_rust.Base.{
  ℕ, ◌*◌, ◌<◌, ◌≡◌, refl, sym, ◌∙◌, subst, ap, Bool, true, false, some, List, ◌==◌, inl, inr, ◌↔◌,
  Bool-cases, ==_iff, length,
}
use porcupine_rust.Types.{Operation, CheckResult}
use porcupine_rust.Model.{Model, EqIsSound}
use porcupine_rust.Entry.{Entry}
use porcupine_rust.Arena.{no_ref}
use porcupine_rust.Entries.Histories.{IsWellFormed}
use porcupine_rust.Checker.Linearizable.{Linearizable}
use porcupine_rust.Parallel.{Sorts, System, answered}
use porcupine_rust.Parallel.Safety.{Reach}
use porcupine_rust.Checks.{check_operations}
use porcupine_rust.Locality.{with_key, update, KeyedLinearizable, done, next}
use porcupine_rust.Locality.Keys.{update_same, update_other}
use porcupine_rust.Locality.Join.{KeyedLinearizable-iff}
use porcupine_rust.Locality.Checks.{positions_by_key, KeyedSays, check_operations-KeyedSays}

module _ {S I O V : Type 0} (m : Model S I O) (key : Operation I O → ℕ) (view : S → ℕ → V) where
  pub record IsIndependent : Type 0 where
    pub acts :
        (op : Operation I O) (s t s' : S)
        → view s (key op) ≡ view t (key op)
        → m.step s op.input op.output ≡ some s'
        → (t' : S) × (m.step t op.input op.output ≡ some t') × (view t' (key op) ≡ view s' (key op))
    pub frames :
        (op : Operation I O) (s s' : S) (j : ℕ)
        → (key op == j) ≡ false
        → m.step s op.input op.output ≡ some s'
        → view s' j ≡ view s j

  -- The parts have what the whole state has for their keys.
  abbrev Agree : S → (ℕ → S) → Type 0
  Agree s states = (j : ℕ) → view s j ≡ view (states j) j

  Agree-step :
      IsIndependent
      → (op : Operation I O) (s s' t' : S) (states : ℕ → S) → Agree s states
      → m.step s op.input op.output ≡ some s'
      → view s' (key op) ≡ view t' (key op)
      → Agree s' (update states (key op) t')
  Agree-step h op s s' t' states agree step same j = elim (Bool-cases (key op == j)) [
    | inl y ↦
        subst (λ k. view s' k ≡ view (update states (key op) t' k) k) ((==_iff (key op) j).0 y)
          (same ∙ ap (λ t. view t (key op)) (sym (update_same states (key op) t')))
    | inr n ↦
        h.frames op s s' j n step
        ∙ agree j
        ∙ ap (λ t. view t j) (sym (update_other states (key op) j t' n))
  ]

  Linearizable-KeyedLinearizable :
      IsIndependent
      → {s : S} {ops : List (Operation I O)} (states : ℕ → S) → Agree s states
      → Linearizable m s ops
      → KeyedLinearizable m key states ops
  Linearizable-KeyedLinearizable h states agree (Linearizable.done s) = done states
  Linearizable-KeyedLinearizable h {s = s} states agree
        (Linearizable.next {s' = s'} k r op e first step rest) =
      let (t', step', same) = h.acts op s (states (key op)) s' (agree (key op)) step in
      next k r op e first step' (
        Linearizable-KeyedLinearizable h (update states (key op) t')
          (Agree-step h op s s' t' states agree step (sym same)) rest)

  KeyedLinearizable-Linearizable :
      IsIndependent
      → {states : ℕ → S} {ops : List (Operation I O)} (s : S) → Agree s states
      → KeyedLinearizable m key states ops
      → Linearizable m s ops
  KeyedLinearizable-Linearizable h s agree (done states) = Linearizable.done s
  KeyedLinearizable-Linearizable h {states = states} s agree
        (next {s' = t'} k r op e first step rest) =
      let (s', step', same) = h.acts op (states (key op)) s t' (sym (agree (key op))) step in
      Linearizable.next k r op e first step'
        (KeyedLinearizable-Linearizable h s' (Agree-step h op s s' t' states agree step' same) rest)

  -- A history is linearizable if and only if its part for each key is.
  pub Linearizable-iff :
      IsIndependent
      → (s : S) (ops : List (Operation I O))
      → Linearizable m s ops ↔ ((j : ℕ) → Linearizable m s (with_key key j ops))
  Linearizable-iff h s ops =
      let (split, join) = KeyedLinearizable-iff m key (λ j. s) ops in
      (
        λ lin. split (Linearizable-KeyedLinearizable h (λ j. s) (λ j. refl) lin),
        λ parts. KeyedLinearizable-Linearizable h s (λ j. refl) (join parts),
      )

  -- What an answer says of the whole history.
  abbrev pub WholeSays : List (Operation I O) → Bool → CheckResult → Type 0
  WholeSays history timeout CheckResult.ok = Linearizable m m.init history
  WholeSays history timeout CheckResult.illegal = ¬ Linearizable m m.init history
  WholeSays history timeout CheckResult.unknown = timeout ≡ true

  pub KeyedSays-WholeSays :
      IsIndependent
      → (history : List (Operation I O)) (timeout : Bool) (r : CheckResult)
      → KeyedSays m key history timeout r
      → WholeSays history timeout r
  KeyedSays-WholeSays h history timeout CheckResult.ok says =
      KeyedLinearizable-Linearizable h m.init (λ j. refl) says
  KeyedSays-WholeSays h history timeout CheckResult.illegal says =
      λ lin. says (Linearizable-KeyedLinearizable h (λ j. m.init) (λ j. refl) lin)
  KeyedSays-WholeSays h history timeout CheckResult.unknown says = says

  -- For sound equality of states and a model that falls apart by keys: as `check_operations-KeyedSays`,
  -- where the answers speak of linearizability of the whole history under the model itself.
  pub check_operations-WholeSays :
      EqIsSound m
      → IsIndependent
      → (debug : Bool) (sorts : Sorts (List (Entry I O))) (timeout : Bool)
        (history : List (Operation I O)) (keys : List ℕ)
      → m.partition history ≡ some (positions_by_key key history keys)
      → ((op : Operation I O) → Memᴰ op history → Memᴰ (key op) keys)
      → IsWellFormed history
      → 2 * length history < no_ref
      → {start s : System S I O} {k : ℕ} {r : CheckResult}
      → check_operations m debug sorts timeout history ≡ some start
      → Reach m start k s
      → s.phase ≡ answered r
      → WholeSays history timeout r
  check_operations-WholeSays sound h debug sorts timeout history keys parts covers formed fits
        {r = r} e reach is =
      KeyedSays-WholeSays h history timeout r (
        check_operations-KeyedSays m key sound debug sorts timeout history keys parts covers formed
          fits e reach is)
