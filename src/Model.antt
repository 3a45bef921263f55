-- ===== src/Model.antt =====
-- The trait `Model` of src/model.rs. Its methods and its state's `PartialEq` are the user's.
pub mod PowerSet
use porcupine_rust.Base.{ℕ, Bool, true, ◌≡◌, Option, List}
use porcupine_rust.Types.{Operation, Event}

pub record Model (S I O : Type 0) : Type 0 where
  pub init : S
  pub step : S → I → O → Option S
  pub partition : List (Operation I O) → Option (List (List ℕ))
  pub partition_events : List (Event I O) → Option (List (List ℕ))
  -- `==` on states
  pub state_eq : S → S → Bool

-- What the checker relies on: states that compare equal are the same state.
abbrev pub EqIsSound : {S I O : Type 0} → Model S I O → Type 0
EqIsSound {S} m = (s t : S) → m.state_eq s t ≡ true → s ≡ t
