-- ===== src/Task.antt =====
-- The work on one partition in `check_parallel` of src/checker.rs: the closure that the threads run,
-- one access to a shared flag at a time. The loops over one partition and over small partitions do
-- the same work on the calling thread.
pub mod Runs
pub mod Invariant
pub mod Budget
use porcupine_rust.Base.{
  ℕ, ◌/◌, Bool, true, false, ◌&&◌, ◌||◌, Option, none, some, List, [], ◌∷◌, if◌then◌else◌, length,
}
use porcupine_rust.Model.{Model}
use porcupine_rust.Entry.{Entry}
use porcupine_rust.Arena.{from_entries, head_next}
use porcupine_rust.Checker.{Search, Round, next_round, returns, panics, round, start}

-- The flags that the threads share. Each is only ever set.
pub record Flags : Type 0 where
  pub kill : Bool
  pub definitive_illegal : Bool
  pub timed_out : Bool

-- A relaxed load of a flag that another thread sets: the set flag may be seen late.
abbrev pub load : Bool → Bool → Bool
load fresh flag = fresh && flag

-- How the work on a partition ends: `check_single` returned true, it returned false, or the work was
-- not begun since the kill flag was set.
pub data End : Type 0 where
  passed illegal aborted : End

pub data Stage (S I O : Type 0) : Type 0 where
  -- before the load of the kill flag
  waits : Stage S I O
  -- before the call of `check_single`
  begins : Stage S I O
  -- in the loop of `check_single`
  searches : Search S I O → Stage S I O
  -- `check_single` returned false, and whether it saw the kill flag set
  failed : Bool → Stage S I O
  -- before the store to `definitive_illegal`
  marks : Stage S I O
  -- before the store to `kill`
  kills : Stage S I O
  ended : End → Stage S I O
  -- never begun, since another partition was found illegal
  skipped : Stage S I O
  panicked : Stage S I O

pub record Task (S I O : Type 0) : Type 0 where
  pub partition : List (Entry I O)
  pub stage : Stage S I O

module _ {S I O : Type 0} where
  -- After a round, in which the load of the kill flag gave `kill`.
  abbrev pub after_round : Bool → Round S I O → Stage S I O
  after_round kill (next_round st) = searches st
  after_round kill (returns true) = ended passed
  after_round kill (returns false) = failed kill
  after_round kill panics = panicked

module _ {S I O : Type 0} (m : Model S I O) where
  -- `check_single` up to its loop.
  unfoldable pub begin : List (Entry I O) → Stage S I O
  begin [] = ended passed
  begin (e ∷ entries) = elim (from_entries (e ∷ entries)) [
    | none ↦ panicked
    | some arena ↦ elim (head_next arena) [
      | none ↦ panicked
      | some cursor ↦ searches (start m arena (length (e ∷ entries) / 2) cursor)
    ]
  ]

  -- The next access. A thread that saw the kill flag set sees it set again.
  unfoldable pub work_stage :
      Bool → Flags → List (Entry I O) → Stage S I O → Option (Flags × Stage S I O)
  unfolding begin
  work_stage fresh flags partition waits =
      some (flags, if load fresh flags.kill then ended aborted else begins)
  work_stage fresh flags partition begins = some (flags, begin partition)
  work_stage fresh flags partition (searches st) =
      let kill = load fresh flags.kill in some (flags, after_round kill (round m kill st))
  work_stage fresh flags partition (failed saw) =
      some (flags, if saw || load fresh flags.kill then kills else marks)
  work_stage fresh flags partition marks = some (record flags { definitive_illegal = true }, kills)
  work_stage fresh flags partition kills = some (record flags { kill = true }, ended illegal)
  work_stage fresh flags partition (ended e) = none
  work_stage fresh flags partition skipped = none
  work_stage fresh flags partition panicked = none
