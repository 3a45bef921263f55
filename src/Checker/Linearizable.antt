-- ===== src/Checker/Linearizable.antt =====
-- The specification of the checker: linearizability of a history of operations.
use mathlib.Core.List.{Memᴰ}
use porcupine_rust.Base.{◌<◌, ◌≡◌, some, List, [], ◌∷◌, ◌++◌}
use porcupine_rust.Types.{Operation}
use porcupine_rust.Model.{Model}

module _ {S I O : Type 0} (m : Model S I O) where
  -- The operations can be put in an order, with an operation that returned before another was
  -- called before it, that the model accepts from the state: an operation comes next where no
  -- remaining one returned before its call.
  pub data Linearizable : S → List (Operation I O) → Type 0 where
    done : (s : S) → Linearizable s []
    next :
        {s s' : S} {ops : List (Operation I O)} (k r : List (Operation I O)) (op : Operation I O)
        → ops ≡ k ++ op ∷ r
        → ((q : Operation I O) → Memᴰ q ops → ¬ (q.return_time < op.call))
        → m.step s op.input op.output ≡ some s'
        → Linearizable s' (k ++ r)
        → Linearizable s ops
