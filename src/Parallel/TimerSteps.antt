-- ===== src/Parallel/TimerSteps.antt =====
-- Each step of the timer keeps the invariant of the threads.
use porcupine_rust.Base.{◌≡◌, refl, ◌∙◌, sym, Bool, true, false, Option, none, some, List, inl, inr}
use porcupine_rust.Types.{CheckResult}
use porcupine_rust.Model.{Model}
use porcupine_rust.Entry.{Entry}
use porcupine_rust.Task.{Flags}
use porcupine_rust.Task.Invariant.{Excused-Grows, StageInv-Grows, Grows}
use porcupine_rust.Timer.{TimerStage, timer_step, wake}
use porcupine_rust.Parallel.{
  Phase, System, in_order, in_parallel, checked, cancelled, answered, timer, wakes, step,
}
use porcupine_rust.Parallel.Invariant.{CheckedInv, PhaseInv, SystemInv}

module _ {S I O : Type 0} (m : Model S I O) (partitions : List (List (Entry I O))) where
  -- Where a step is taken, the invariant holds after it.
  abbrev pub InvOf : Option (System S I O) → Type 0
  InvOf none = Unit {0}
  InvOf (some s) = SystemInv m partitions s

  -- The timer fires, and nothing else changes.
  timed-CheckedInv :
      (f g : Flags) (ok : Bool)
      → Grows f g
      → CheckedInv m partitions f ok
      → CheckedInv m partitions g ok
  timed-CheckedInv f g true le (inl late) = inl (le.timed_out late)
  timed-CheckedInv f g true le (inr all) = inr all
  timed-CheckedInv f g false le ex = Excused-Grows f g le ex

  timed-PhaseInv :
      (f g : Flags) (ph : Phase S I O)
      → Grows f g
      → g.definitive_illegal ≡ f.definitive_illegal
      → PhaseInv m partitions f ph
      → PhaseInv m partitions g ph
  timed-PhaseInv f g (in_order t todo) le same h = record {
    at = h.at;
    stage = StageInv-Grows m f g t.partition t.stage le h.stage;
    todo_in = h.todo_in;
    rest = h.rest;
    marked = λ d. h.marked (sym same ∙ d);
  }
  timed-PhaseInv f g (in_parallel ts) le same h = record {
    tasks =
        λ t p. let (at, st) = h.tasks t p in (at, StageInv-Grows m f g t.partition t.stage le st);
    covers = h.covers;
    marked = λ d. h.marked (sym same ∙ d);
  }
  timed-PhaseInv f g (checked ok) le same h = timed-CheckedInv f g ok le h
  timed-PhaseInv f g (cancelled ok) le same h = timed-CheckedInv f g ok le h
  timed-PhaseInv f g (answered CheckResult.ok) le same h = h
  timed-PhaseInv f g (answered CheckResult.illegal) le same h = h
  timed-PhaseInv f g (answered CheckResult.unknown) le same h = le.timed_out h

  pub timer_step-Inv :
      (f : Flags) (t : TimerStage) (b : Bool) (ph : Phase S I O)
      → SystemInv m partitions
          (record { flags = f; timer = record { stage = t; cancelled = b }; phase = ph })
      → InvOf (
          step m timer
            (record { flags = f; timer = record { stage = t; cancelled = b }; phase = ph }))
  unfolding step timer_step
  timer_step-Inv f TimerStage.absent b ph h = tt
  timer_step-Inv f TimerStage.spawned b ph h = record {
    flags = h.flags;
    timer = tt;
    phase = h.phase;
  }
  timer_step-Inv f TimerStage.waiting b ph h = tt
  timer_step-Inv f TimerStage.woken true ph h = record {
    flags = h.flags;
    timer = tt;
    phase = h.phase;
  }
  timer_step-Inv f TimerStage.woken false ph h = record {
    flags = h.flags;
    timer = tt;
    phase = h.phase;
  }
  timer_step-Inv f TimerStage.fires b ph h =
      let g = record f { timed_out = true } in
      let le : Grows f g = record {
        kill = λ e. e;
        definitive_illegal = λ e. e;
        timed_out = λ e. refl;
      } in
      record {
        flags = record { killed = λ e. inr refl; proved = h.flags.proved };
        timer = refl;
        phase = timed-PhaseInv f g ph le refl h.phase;
      }
  timer_step-Inv f TimerStage.sets_kill b ph h =
      let g = record f { kill = true } in
      let le : Grows f g = record {
        kill = λ e. refl;
        definitive_illegal = λ e. e;
        timed_out = λ e. e;
      } in
      record {
        flags = record { killed = λ e. inr h.timer; proved = h.flags.proved };
        timer = tt;
        phase = timed-PhaseInv f g ph le refl h.phase;
      }
  timer_step-Inv f TimerStage.exited b ph h = tt

  pub wakes-Inv :
      (f : Flags) (t : TimerStage) (b : Bool) (ph : Phase S I O)
      → SystemInv m partitions
          (record { flags = f; timer = record { stage = t; cancelled = b }; phase = ph })
      → InvOf (
          step m wakes
            (record { flags = f; timer = record { stage = t; cancelled = b }; phase = ph }))
  unfolding step wake
  wakes-Inv f TimerStage.waiting b ph h = record { flags = h.flags; timer = tt; phase = h.phase }
  wakes-Inv f _ b ph h = tt
