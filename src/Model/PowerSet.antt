-- ===== src/Model/PowerSet.antt =====
-- The nondeterministic models of src/model.rs, and their adapters to the trait `Model`.
pub mod Dedup
pub mod Runs
use porcupine_rust.Base.{
  ℕ, Bool, true, false, ◌≡◌, ◌||◌, Option, none, some, List, [], ◌∷◌, ◌++◌, ◌&&◌, if◌then◌else◌,
}
use porcupine_rust.Types.{Operation, Event}
use porcupine_rust.Model.{Model}

-- The trait `NondeterministicModel`; its methods and its state's `PartialEq` are the user's.
pub record NondeterministicModel (S I O : Type 0) : Type 0 where
  pub init : List S
  pub step : S → I → O → List S
  pub partition : List (Operation I O) → Option (List (List ℕ))
  pub partition_events : List (Event I O) → Option (List (List ℕ))
  -- `==` on states
  pub state_eq : S → S → Bool

-- `PartialEq` of vectors.
unfoldable pub states_eq : {S : Type 0} → (S → S → Bool) → List S → List S → Bool
states_eq eq [] [] = true
states_eq eq [] (t ∷ ts) = false
states_eq eq (s ∷ ss) [] = false
states_eq eq (s ∷ ss) (t ∷ ts) = eq s t && states_eq eq ss ts

module _ {S I O : Type 0} (m : NondeterministicModel S I O) where
  -- `contains`, and the membership of a `HashSet`.
  unfoldable pub contains : List S → S → Bool
  contains [] s = false
  contains (t ∷ ts) s = m.state_eq t s || contains ts s

  -- The loop of `deduplicate`.
  unfoldable pub push_new : List S → List S → List S
  unfolding contains
  push_new out [] = out
  push_new out (s ∷ states) = push_new (if contains out s then out else out ++ s ∷ []) states

  unfoldable pub deduplicate : List S → List S
  unfolding push_new
  deduplicate states = push_new [] states

  -- The loop of `deduplicate_hashed`, with the set of the states seen.
  unfoldable pub push_unseen : List S → List S → List S → List S
  unfolding contains
  push_unseen seen out [] = out
  push_unseen seen out (s ∷ states) = elim (contains seen s) [
    | true ↦ push_unseen seen out states
    | false ↦ push_unseen (s ∷ seen) (out ++ s ∷ []) states
  ]

  unfoldable pub deduplicate_hashed : List S → List S
  unfolding push_unseen
  deduplicate_hashed states = push_unseen [] [] states

  -- The loop of both `step` functions: the successors of each state.
  unfoldable pub successors : List S → I → O → List S
  successors [] input output = []
  successors (s ∷ state) input output = m.step s input output ++ successors state input output

  -- `None` for no state.
  abbrev pub nonempty : List S → Option (List S)
  nonempty [] = none
  nonempty (s ∷ states) = some (s ∷ states)

  unfoldable pub power_set_step : List S → I → O → Option (List S)
  unfolding successors deduplicate
  power_set_step state input output = nonempty (deduplicate (successors state input output))

  -- `PowerSetModel(m)`
  unfoldable pub power_set_model : Model (List S) I O
  unfolding power_set_step deduplicate states_eq
  power_set_model = record {
    init = deduplicate m.init;
    step = power_set_step;
    partition = m.partition;
    partition_events = m.partition_events;
    state_eq = states_eq m.state_eq;
  }

  unfoldable pub hashed_step : List S → I → O → Option (List S)
  unfolding successors deduplicate_hashed
  hashed_step state input output = nonempty (deduplicate_hashed (successors state input output))

  -- `HashedPowerSetModel(m)`
  unfoldable pub hashed_power_set_model : Model (List S) I O
  unfolding hashed_step deduplicate_hashed states_eq
  hashed_power_set_model = record {
    init = deduplicate_hashed m.init;
    step = hashed_step;
    partition = m.partition;
    partition_events = m.partition_events;
    state_eq = states_eq m.state_eq;
  }
