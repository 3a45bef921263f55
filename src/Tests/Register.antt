-- ===== src/Tests/Register.antt =====
-- A register that reads 0 at first, as in the unit tests of src/checker.rs, over natural numbers.
use porcupine_rust.Base.{ℕ, Option, none, some, List, [], ◌∷◌, ◌==◌, ==_iff, if◌then◌else◌}
use porcupine_rust.Model.{Model, EqIsSound}
use porcupine_rust.Entry.{EntryValue, Entry, call, return}

-- `some v` writes `v`, and `none` reads.
abbrev pub register : Model ℕ (Option ℕ) ℕ
register = record {
  init = 0;
  step = λ s i o. elim i [ none ↦ if o == s then some s else none | some v ↦ some v ];
  partition = λ h. none;
  partition_events = λ h. none;
  state_eq = ◌==◌;
}

pub register-EqIsSound : EqIsSound register
register-EqIsSound s t = (==_iff s t).0

abbrev entry : ℕ → ℕ → EntryValue (Option ℕ) ℕ → Entry (Option ℕ) ℕ
entry id time value = record { id = id; time = time; value = value }

-- A write of 1 that wraps a read of `n`.
abbrev pub write_around_read : ℕ → List (Entry (Option ℕ) ℕ)
write_around_read n =
    entry 0 0 (call (some 1))
    ∷ entry 1 5 (call none)
    ∷ entry 1 10 (return n)
    ∷ entry 0 15 (return 0)
    ∷ []
