-- ===== src/Checks/Events.antt =====
-- Histories of events, as `check_events` of src/checker.rs takes them, and the operations in them.
pub mod Maps
pub mod Scan
pub mod Pairing
pub mod Converts
pub mod Merge
pub mod Agree
pub mod Groups
pub mod Answers
use porcupine_rust.Base.{ℕ, suc, Option, none, some, List, [], ◌∷◌, ◌==◌, ◌≡◌, if◌then◌else◌}
use porcupine_rust.Base.Do.{◌>>=◌}
use porcupine_rust.Types.{Operation, EventKind, Event}
use porcupine_rust.Entries.{IdMap, find_id}
use porcupine_rust.Entries.Renumber.{fresh_id}

module _ {I O : Type 0} where
  -- The events with an id.
  unfoldable pub with_id : ℕ → List (Event I O) → List (Event I O)
  with_id k [] = []
  with_id k (ev ∷ events) = let rest = with_id k events in if ev.id == k then ev ∷ rest else rest

  abbrev pub return_at : ℕ → Event I O → Option (ℕ × O)
  return_at pos ev = elim ev.kind [
    | EventKind.call ↦ none
    | EventKind.return ↦ (do o ← ev.output; some (pos, o))
  ]

  -- The position and the output of the next event with an id, a return.
  unfoldable pub find_return : ℕ → ℕ → List (Event I O) → Option (ℕ × O)
  find_return k pos [] = none
  find_return k pos (ev ∷ events) =
      let rest = find_return k (suc pos) events in if ev.id == k then return_at pos ev else rest

  unfoldable pub operations_from : ℕ → List (Event I O) → Option (List (Operation I O))
  unfolding find_return
  operations_from pos [] = some []
  operations_from pos (ev ∷ events) = elim ev.kind [
    | EventKind.call ↦ do
      i ← ev.input
      (q, o) ← find_return ev.id (suc pos) events
      rest ← operations_from (suc pos) events
      some (
          record { client_id = ev.client_id; input = i; call = pos; output = o; return_time = q }
          ∷ rest)
    | EventKind.return ↦ operations_from (suc pos) events
  ]

  -- The operations of a history: a call and the return with its id, at their positions.
  unfoldable pub operations_of : List (Event I O) → Option (List (Operation I O))
  unfolding operations_from
  operations_of events = operations_from 0 events

  -- Calls have an input and just one event with their id after them, a return with an output; before
  -- a return stands a call with its id. The map has the ids of the calls before.
  pub data Paired : IdMap → List (Event I O) → Type 0 where
    ends : {m : IdMap} → Paired m []
    calls :
        {m : IdMap} {ev r : Event I O} {events : List (Event I O)} (i : I) (o : O)
        → ev.kind ≡ EventKind.call
        → ev.input ≡ some i
        → find_id ev.id m.ids ≡ none
        → with_id ev.id events ≡ r ∷ []
        → r.kind ≡ EventKind.return
        → r.output ≡ some o
        → Paired (fresh_id m ev.id) events
        → Paired m (ev ∷ events)
    returns :
        {m : IdMap} {ev : Event I O} {events : List (Event I O)} (o : O) (v : ℕ)
        → ev.kind ≡ EventKind.return
        → ev.output ≡ some o
        → find_id ev.id m.ids ≡ some v
        → Paired m events
        → Paired m (ev ∷ events)
