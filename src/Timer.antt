-- ===== src/Timer.antt =====
-- The timer of src/checker.rs: `spawn_timer`, its thread, and `TimerHandle::cancel`. The thread waits
-- on a condition variable; a wait ends by the timeout, by a notification or, as the standard library
-- documents, spuriously. The mutex is held from the end of the wait to the end of the thread.
use porcupine_rust.Base.{Bool, true, false, Option, none, some, if◌then◌else◌}
use porcupine_rust.Task.{Flags}

pub data TimerStage : Type 0 where
  -- no timeout was given
  absent : TimerStage
  -- before the lock
  spawned : TimerStage
  -- in `wait_timeout`, which gives the lock up
  waiting : TimerStage
  -- before `wait_timeout` has the lock again
  woken : TimerStage
  -- with the lock, before the store to `timed_out`
  fires : TimerStage
  -- with the lock, before the store to `kill`
  sets_kill : TimerStage
  exited : TimerStage

pub record Timer : Type 0 where
  pub stage : TimerStage
  pub cancelled : Bool

-- `timeout.map(|d| spawn_timer(&kill, d))`
abbrev pub spawn_timer : Bool → Timer
spawn_timer timeout = record { stage = if timeout then spawned else absent; cancelled = false }

-- The next action of the thread, where it does not wait.
unfoldable pub timer_step : Timer → Flags → Option (Timer × Flags)
timer_step t flags = elim t.stage [
  | absent ↦ none
  | spawned ↦ some (record t { stage = waiting }, flags)
  | waiting ↦ none
  | woken ↦ some (record t { stage = if t.cancelled then exited else fires }, flags)
  | fires ↦ some (record t { stage = sets_kill }, record flags { timed_out = true })
  | sets_kill ↦ some (record t { stage = exited }, record flags { kill = true })
  | exited ↦ none
]

-- The wait ends by itself.
unfoldable pub wake : Timer → Option Timer
wake t = elim t.stage [ waiting ↦ some (record t { stage = woken }) | _ ↦ none ]

-- `cancel` by the checker, where a timer was spawned; `none` where the thread has the lock.
unfoldable pub cancel : Timer → Option Timer
cancel t = elim t.stage [
  | absent ↦ some t
  | spawned ↦ some (record t { cancelled = true })
  | waiting ↦ some (record { stage = woken; cancelled = true })
  | woken ↦ some (record t { cancelled = true })
  | fires ↦ none
  | sets_kill ↦ none
  | exited ↦ some (record t { cancelled = true })
]
