-- ===== src/Tests/PowerSet.antt =====
-- The adapters, over a counter that a tick raises by one or by two.
use mathlib.Core.List.{Memᴰ}
use porcupine_rust.Base.{
  ℕ, ◌+◌, ◌≡◌, refl, none, some, List, [], ◌∷◌, ◌==◌, ==_iff, if◌then◌else◌, ◌↔◌,
}
use porcupine_rust.Types.{Operation}
use porcupine_rust.Checker.Linearizable.{Linearizable}
use porcupine_rust.Checker.PowerSet.{MayFrom, power_set_model-MayFrom}
use porcupine_rust.Model.PowerSet.{
  NondeterministicModel, deduplicate, power_set_model, hashed_power_set_model,
}
use porcupine_rust.Model.PowerSet.Dedup.{EqIsSound, IsDistinct, deduplicate_lem}
use porcupine_rust.Model.PowerSet.Runs.{
  run, Follows, power_set_model-Follows, hashed_power_set_model-power_set_model,
}

-- A tick returns a state from which it starts.
abbrev ticks : NondeterministicModel ℕ ℕ ℕ
ticks = record {
  init = 0 ∷ 0 ∷ [];
  step = λ s i o. if o == s then (s + i) ∷ (s + i + 1) ∷ [] else [];
  partition = λ h. none;
  partition_events = λ h. none;
  state_eq = ◌==◌;
}

ticks-EqIsSound : EqIsSound ticks
ticks-EqIsSound s t = (==_iff s t).0

-- The two runs of one tick from 0, and one run of two.
two_ticks : run (power_set_model ticks) (0 ∷ 1 ∷ []) ((1, 0) ∷ (1, 2) ∷ []) ≡ some (3 ∷ 4 ∷ [])
unfolding power_set_model
two_ticks = refl

-- Two ticks, the first of which returns while the second is pending.
abbrev tick_twice : List (Operation ℕ ℕ)
tick_twice =
    record { client_id = 0; input = 1; call = 0; output = 0; return_time = 2 }
    ∷ record { client_id = 1; input = 1; call = 1; output = 2; return_time = 3 }
    ∷ []

deduplicate_lem_example :
    IsDistinct ticks (deduplicate ticks (0 ∷ 1 ∷ 0 ∷ []))
    × ((x : ℕ) → Memᴰ x (deduplicate ticks (0 ∷ 1 ∷ 0 ∷ [])) ↔ Memᴰ x (0 ∷ 1 ∷ 0 ∷ []))
deduplicate_lem_example = deduplicate_lem ticks ticks-EqIsSound (0 ∷ 1 ∷ 0 ∷ [])

power_set_model-Follows_example :
    Follows ticks
      (run (power_set_model ticks) (power_set_model ticks).init ((1, 0) ∷ []))
      (0 ∷ 0 ∷ [])
      ((1, 0) ∷ [])
power_set_model-Follows_example = power_set_model-Follows ticks ticks-EqIsSound ((1, 0) ∷ [])

hashed_power_set_model-power_set_model_example :
    hashed_power_set_model ticks ≡ power_set_model ticks
hashed_power_set_model-power_set_model_example = hashed_power_set_model-power_set_model ticks

power_set_model-MayFrom_example :
    Linearizable (power_set_model ticks) (power_set_model ticks).init tick_twice
    ↔ MayFrom ticks ticks.init tick_twice
power_set_model-MayFrom_example =
    power_set_model-MayFrom ticks ticks-EqIsSound (0, Memᴰ.head refl) tick_twice
