-- ===== src/Parallel.antt =====
-- `check_parallel` of src/checker.rs, and what `check_operations` and `check_events` do around it:
-- the calling thread, the tasks on the thread pool and the timer, interleaved in any order.
pub mod Invariant
pub mod Ends
pub mod TimerSteps
pub mod Steps
pub mod NoTimer
pub mod Safety
pub mod Schedule
pub mod Left
pub mod Spending
pub mod Budget
pub mod Progress
pub mod Answering
use porcupine_rust.Base.{
  ℕ, zero, suc, ◌+◌, Bool, true, false, not, ◌&&◌, ◌||◌, Option, none, some, List, [], ◌∷◌, map,
  if◌then◌else◌, length, get_elem?, set, ltb, ◌↔◌,
}
use mathlib.Core.List.{Memᴰ}
use porcupine_rust.Base.Do.{◌>>=◌}
use porcupine_rust.Types.{CheckResult}
use porcupine_rust.Model.{Model}
use porcupine_rust.Entry.{Entry}
use porcupine_rust.Task
use porcupine_rust.Task.{Flags, Stage, Task, End, work_stage}
use porcupine_rust.Timer.{Timer, spawn_timer, timer_step, wake, cancel}

-- `sort_unstable_by_key` by the length, and by `Reverse` of the length: partitions of one length
-- come in any order.
pub record Sorts (P : Type 0) : Type 0 where
  pub by_len : List P → List P
  pub by_reverse_len : List P → List P
  pub by_len_mem : (l : List P) (p : P) → Memᴰ p (by_len l) ↔ Memᴰ p l
  pub by_reverse_len_mem : (l : List P) (p : P) → Memᴰ p (by_reverse_len l) ↔ Memᴰ p l

abbrev pub sequential_threshold : ℕ
sequential_threshold = 2000

unfoldable pub to_check_result : Bool → Bool → Bool → CheckResult
to_check_result ok timed_out definitive_illegal =
    if not ok && definitive_illegal
    then CheckResult.illegal
    else if timed_out
    then CheckResult.unknown
    else if ok
    then CheckResult.ok
    else CheckResult.illegal

-- Where the calling thread is.
pub data Phase (S I O : Type 0) : Type 0 where
  -- in the loop over the partitions, with those to come
  in_order : Task S I O → List (List (Entry I O)) → Phase S I O
  -- in `any` over the partitions on the thread pool
  in_parallel : List (Task S I O) → Phase S I O
  -- `check_parallel` has returned
  checked : Bool → Phase S I O
  -- the timer is cancelled
  cancelled : Bool → Phase S I O
  answered : CheckResult → Phase S I O

pub record System (S I O : Type 0) : Type 0 where
  pub flags : Flags
  pub timer : Timer
  pub phase : Phase S I O

-- What happens next. The thread pool and the operating system choose; a task sees the flag that it
-- loads fresh or late.
pub data ThreadEvent : Type 0 where
  work : ℕ → Bool → ThreadEvent
  -- the thread pool drops a task that is not begun
  skip : ℕ → ThreadEvent
  -- the calling thread goes on
  main : ThreadEvent
  timer : ThreadEvent
  wakes : ThreadEvent

abbrev pub total_entries : {I O : Type 0} → List (List (Entry I O)) → ℕ
total_entries [] = 0
total_entries (p ∷ partitions) = length p + total_entries partitions

module _ {S I O : Type 0} where
  abbrev pub waiting_task : List (Entry I O) → Task S I O
  waiting_task p = record { partition = p; stage = Task.waits }

  abbrev pub is_illegal : Stage S I O → Bool
  is_illegal (Task.ended End.illegal) = true
  is_illegal _ = false

  abbrev pub any_illegal : List (Task S I O) → Bool
  any_illegal [] = false
  any_illegal (t ∷ ts) = is_illegal t.stage || any_illegal ts

  abbrev pub is_finished : Stage S I O → Bool
  is_finished (Task.ended e) = true
  is_finished Task.skipped = true
  is_finished _ = false

  abbrev pub all_finished : List (Task S I O) → Bool
  all_finished [] = true
  all_finished (t ∷ ts) = is_finished t.stage && all_finished ts

  -- The loop over the partitions that are left.
  abbrev pub next_in_order : List (List (Entry I O)) → Phase S I O
  next_in_order [] = checked true
  next_in_order (p ∷ partitions) = in_order (waiting_task p) partitions

  -- `check_parallel` up to its loops.
  unfoldable pub check_parallel : Sorts (List (Entry I O)) → List (List (Entry I O)) → Phase S I O
  check_parallel sorts [] = checked true
  check_parallel sorts (p ∷ []) = in_order (record { partition = p; stage = Task.begins }) []
  check_parallel sorts (p ∷ q ∷ partitions) =
      let sorted = sorts.by_len (p ∷ q ∷ partitions) in
      if ltb (total_entries sorted) sequential_threshold
      then next_in_order sorted
      else in_parallel (map waiting_task (sorts.by_reverse_len sorted))

  -- After the work on one partition in the loops.
  abbrev pub after_task : Stage S I O → List (List (Entry I O)) → Option (Phase S I O)
  after_task (Task.ended End.passed) partitions = some (next_in_order partitions)
  after_task (Task.ended End.illegal) partitions = some (checked false)
  after_task (Task.ended End.aborted) partitions = some (checked false)
  after_task _ partitions = none

  -- The calling thread goes on: from one partition to the next, out of `any` where all tasks are
  -- done with, to `cancel`, and to the result.
  unfoldable pub main_step : System S I O → Option (System S I O)
  unfolding cancel to_check_result
  main_step s = elim s.phase [
    | in_order task partitions ↦ do
      phase ← after_task task.stage partitions
      some (record s { phase = phase })
    | in_parallel tasks ↦
        if all_finished tasks
        then some (record s { phase = checked (not (any_illegal tasks)) })
        else none
    | checked ok ↦ do t ← cancel s.timer; some (record s { timer = t; phase = cancelled ok })
    | cancelled ok ↦
        let result = to_check_result ok s.flags.timed_out s.flags.definitive_illegal in
        some (record s { phase = answered result })
    | answered r ↦ none
  ]

module _ {S I O : Type 0} (m : Model S I O) where
  -- One access of task `i`.
  unfoldable pub work_step : ℕ → Bool → System S I O → Option (System S I O)
  unfolding work_stage
  work_step i fresh s = elim s.phase [
    | in_order task partitions ↦ do
      (flags, stage) ← work_stage m fresh s.flags task.partition task.stage
      some (record s { flags = flags; phase = in_order (record task { stage = stage }) partitions })
    | in_parallel tasks ↦ do
      task ← get_elem? tasks i
      (flags, stage) ← work_stage m fresh s.flags task.partition task.stage
      some (record s {
        flags = flags;
        phase = in_parallel (set tasks i (record task { stage = stage }));
      })
    | checked ok ↦ none
    | cancelled ok ↦ none
    | answered r ↦ none
  ]

  -- A task that waits may be dropped once another one has found its partition illegal.
  abbrev pub skip_stage : Bool → Stage S I O → Option (Stage S I O)
  skip_stage true Task.waits = some Task.skipped
  skip_stage _ _ = none

  unfoldable pub skip_step : ℕ → System S I O → Option (System S I O)
  skip_step i s = elim s.phase [
    | in_parallel tasks ↦ do
      task ← get_elem? tasks i
      stage ← skip_stage (any_illegal tasks) task.stage
      some (record s { phase = in_parallel (set tasks i (record task { stage = stage })) })
    | _ ↦ none
  ]

  unfoldable pub step : ThreadEvent → System S I O → Option (System S I O)
  unfolding main_step work_step skip_step timer_step wake
  step (work i fresh) s = work_step i fresh s
  step (skip i) s = skip_step i s
  step main s = main_step s
  step timer s = do
    (t, flags) ← timer_step s.timer s.flags
    some (record s { timer = t; flags = flags })
  step wakes s = do t ← wake s.timer; some (record s { timer = t })

  -- The start of the check of the partitions, with a timeout or without.
  abbrev pub launch : Sorts (List (Entry I O)) → Bool → List (List (Entry I O)) → System S I O
  launch sorts timeout partitions = record {
    flags = record { kill = false; definitive_illegal = false; timed_out = false };
    timer = spawn_timer timeout;
    phase = check_parallel sorts partitions;
  }
