-- ===== src/Locality/Called.antt =====
-- The operation of a call at the head of a history of events.
use porcupine_rust.Base.{ℕ, suc, ◌≡◌, refl, sym, some, List, ◌∷◌, inl, inr, ◌⊎◌}
use porcupine_rust.Base.Do.{some_inj, bind_some}
use porcupine_rust.Types.{Operation, EventKind, Event}
use porcupine_rust.Checks.Events.{find_return, operations_from}
use porcupine_rust.Checks.Events.Agree.{operation}

pub kind_cases : (x : EventKind) → (x ≡ EventKind.call) ⊎ (x ≡ EventKind.return)
kind_cases EventKind.call = inl refl
kind_cases EventKind.return = inr refl

module _ {I O : Type 0} where
  -- The parts of the operations of a call and what follows.
  pub record Called (pos : ℕ) (ev : Event I O) (events : List (Event I O))
      (ops : List (Operation I O)) : Type 0 where
    pub input : I
    pub output : O
    pub at : ℕ
    pub rest : List (Operation I O)
    pub has : ev.input ≡ some input
    pub found : find_return ev.id (suc pos) events ≡ some (at, output)
    pub tail : operations_from (suc pos) events ≡ some rest
    pub are : ops ≡ operation ev input pos output at ∷ rest

  pub Called-of :
      (pos : ℕ) (ev : Event I O) (events : List (Event I O)) (ops : List (Operation I O))
      → ev.kind ≡ EventKind.call
      → operations_from pos (ev ∷ events) ≡ some ops
      → Called pos ev events ops
  unfolding operations_from
  Called-of pos ev events ops kind h =
      let (i, has, h1) = bind_some ev.input _ ops (rw kind at h) in
      let (r, found, h2) = bind_some (find_return ev.id (suc pos) events) _ ops h1 in
      let (rest, tail, h3) = bind_some (operations_from (suc pos) events) _ ops h2 in
      record {
        input = i;
        output = r.1;
        at = r.0;
        rest = rest;
        has = has;
        found = found;
        tail = tail;
        are = sym (some_inj h3);
      }
