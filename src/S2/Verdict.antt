-- ===== src/S2/Verdict.antt =====
-- What the check of examples/s2_checker.rs tells of a recorded history of an S2 stream.
use mathlib.Core.List.{Memᴰ}
use mathlib.Core.List.Memᴰ
use porcupine_rust.Base.{
  ℕ, ◌<◌, ◌≡◌, refl, sym, subst, Bool, true, none, some, List, [], ◌∷◌, length, ◌↔◌,
}
use porcupine_rust.Base.Do.{some_inj, bind_some}
use porcupine_rust.Types.{Operation, Event, CheckResult}
use porcupine_rust.Entry.{Entry}
use porcupine_rust.Arena.{no_ref}
use porcupine_rust.Model.PowerSet.{power_set_model}
use porcupine_rust.Checker.Linearizable.{Linearizable}
use porcupine_rust.Checker.PowerSet.{
  MayLinearize, MayFrom, power_set_model-MayFrom, power_set_model-EqIsSound,
}
use porcupine_rust.Parallel.{Sorts, System, answered}
use porcupine_rust.Parallel.Safety.{Reach}
use porcupine_rust.Assertions.{assert_well_formed_events}
use porcupine_rust.Checks.{check_events}
use porcupine_rust.Checks.Operations.{Says}
use porcupine_rust.Checks.Events.{operations_of}
use porcupine_rust.Checks.Events.Answers.{check_events_sound}
use porcupine_rust.Checks.Events.Groups.{IsChecked}
use porcupine_rust.S2.{S2StreamState, S2Input, S2Output, s2_stream_model}
use porcupine_rust.S2.Steps.{s2_stream_model-EqIsSound}

abbrev pub empty_stream : S2StreamState
empty_stream = record { tail = 0; xxh3 = 0; fencing_token = none }

-- Steps of a stream that is empty at first explain the operations.
abbrev pub IsExplained : List (Operation S2Input S2Output) → Type 0
IsExplained ops = MayLinearize s2_stream_model empty_stream ops

abbrev pub Tells : List (Operation S2Input S2Output) → Bool → CheckResult → Type 0
Tells ops timeout CheckResult.ok = IsExplained ops
Tells ops timeout CheckResult.illegal = ¬ IsExplained ops
Tells ops timeout CheckResult.unknown = timeout ≡ true

from_empty :
    (ops : List (Operation S2Input S2Output))
    → MayFrom s2_stream_model s2_stream_model.init ops
    → IsExplained ops
from_empty ops (s, at, may) =
    subst (λ t. MayLinearize s2_stream_model t ops) (Memᴰ.eq_of_singleton at) may

to_empty :
    (ops : List (Operation S2Input S2Output))
    → IsExplained ops
    → MayFrom s2_stream_model s2_stream_model.init ops
to_empty ops may = (empty_stream, Memᴰ.head refl, may)

s2-MayFrom :
    (ops : List (Operation S2Input S2Output))
    → Linearizable (power_set_model s2_stream_model) (power_set_model s2_stream_model).init ops
      ↔ MayFrom s2_stream_model s2_stream_model.init ops
s2-MayFrom =
    power_set_model-MayFrom s2_stream_model s2_stream_model-EqIsSound (empty_stream, Memᴰ.head refl)

Says-Tells :
    (ops : List (Operation S2Input S2Output)) (timeout : Bool) (r : CheckResult)
    → Says (power_set_model s2_stream_model) (ops ∷ []) timeout r
    → Tells ops timeout r
Says-Tells ops timeout CheckResult.ok h =
    let may = s2-MayFrom ops in from_empty ops (may.0 (h ops (Memᴰ.head refl)))
Says-Tells ops timeout CheckResult.illegal (ops', at, bad) =
    let may = s2-MayFrom ops' in
    let same : ops' ≡ ops = Memᴰ.eq_of_singleton at in
    λ x. bad (may.1 (to_empty ops' (subst IsExplained (sym same) x)))
Says-Tells ops timeout CheckResult.unknown h = h

-- For events that the assertion lets pass, fewer than a 32-bit index can tell apart: where the check
-- under the S2 model answers ok, steps of a stream that is empty at first explain the operations in
-- the events, where it answers illegal, none do, and where it answers unknown, there was a timeout.
pub s2_verdict :
    (debug : Bool) (sorts : Sorts (List (Entry S2Input S2Output))) (timeout : Bool)
    (events : List (Event S2Input S2Output))
    → assert_well_formed_events events ≡ true
    → length events < no_ref
    → {start s : System (List S2StreamState) S2Input S2Output} {k : ℕ} {r : CheckResult}
    → check_events (power_set_model s2_stream_model) debug sorts timeout events ≡ some start
    → Reach (power_set_model s2_stream_model) start k s
    → s.phase ≡ answered r
    → (ops : List (Operation S2Input S2Output)) × (operations_of events ≡ some ops)
      × Tells ops timeout r
unfolding power_set_model
s2_verdict debug sorts timeout events ok fits {r = r} e reach done =
    let (histories, are, says) =
      check_events_sound (power_set_model s2_stream_model)
        (power_set_model-EqIsSound s2_stream_model s2_stream_model-EqIsSound) debug sorts timeout
        events (events ∷ []) refl only e reach done in
    let (ops, is, rest) = bind_some (operations_of events) _ histories are in
    (
      ops,
      is,
      Says-Tells ops timeout r (
          subst (λ l. Says (power_set_model s2_stream_model) l timeout r) (sym (some_inj rest))
            says),
    )
  where
    only : (g : List (Event S2Input S2Output)) → Memᴰ g (events ∷ []) → IsChecked g
    only g at = rw (Memᴰ.eq_of_singleton at) (ok, fits)
