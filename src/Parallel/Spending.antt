-- ===== src/Parallel/Spending.antt =====
-- Each step of the calling thread, the timer and the thread pool leaves fewer steps.
use porcupine_rust.Base.{
  ℕ, ◌+◌, ◌≤◌, ◌<◌, ◌≡◌, refl, subst, arith, Bool, true, false, some, List, inl, inr, Bool-cases,
  Option-cases, get_elem?, set,
}
use porcupine_rust.Base.Do.{◌>>=◌}
use porcupine_rust.Model.{Model}
use porcupine_rust.Entry.{Entry}
use porcupine_rust.Task
use porcupine_rust.Task.{Flags, Stage, Task, End, work_stage}
use porcupine_rust.Task.Budget.{rounds, Left}
use porcupine_rust.Timer.{Timer, TimerStage, timer_step, wake, cancel}
use porcupine_rust.Parallel.{
  Phase, in_order, in_parallel, checked, cancelled, answered, timer, wakes, any_illegal,
  all_finished, next_in_order, after_task, main_step, skip_stage, skip_step, step,
}
use porcupine_rust.Parallel.Left.{
  PhaseLeft, SystemLeft, SystemLeftOf, TasksLeft-set, next_in_order-Left, timer_left, todo_left,
}

module _ {S I O : Type 0} (m : Model S I O) where
  pub after_task-Left :
      (p : List (Entry I O)) (s : Stage S I O) (todo : List (List (Entry I O))) (ph : Phase S I O)
      → after_task s todo ≡ some ph
      → PhaseLeft m ph (todo_left todo + 2)
  after_task-Left p (Task.ended End.passed) todo ph e =
      let same : next_in_order todo ≡ ph = cc in
      subst (λ x. PhaseLeft m x (todo_left todo + 2)) same (next_in_order-Left m todo)
  after_task-Left p (Task.ended End.illegal) todo ph e =
      let same : Phase.checked false ≡ ph = cc in
      subst (λ x. PhaseLeft m x (todo_left todo + 2)) same (omega arith)
  after_task-Left p (Task.ended End.aborted) todo ph e =
      let same : Phase.checked false ≡ ph = cc in
      subst (λ x. PhaseLeft m x (todo_left todo + 2)) same (omega arith)
  after_task-Left p _ todo ph e = absurd (cc)

  pub main_step-Left :
      (f : Flags) (t : TimerStage) (b : Bool) (ph : Phase S I O) (n : ℕ)
      → SystemLeft m
          (record { flags = f; timer = record { stage = t; cancelled = b }; phase = ph })
          n
      → SystemLeftOf m n (
          main_step (record { flags = f; timer = record { stage = t; cancelled = b }; phase = ph }))
  unfolding main_step cancel
  main_step-Left f t b (in_order u todo) n h = elim (Option-cases (after_task u.stage todo)) [
    | inl x ↦ rw x tt
    | inr (ph, e) ↦
        let (a, l, ns, le) = h.phase in
        rw e (
          todo_left todo + 2 + timer_left t,
          (omega (arith, h.fits)),
          record {
            phase_left = todo_left todo + 2;
            phase = after_task-Left u.partition u.stage todo ph e;
            fits = omega arith;
          },
        )
  ]
  main_step-Left f t b (in_parallel ts) n h = elim (Bool-cases (all_finished ts)) [
    | inl y ↦
        let (a, l, le) = h.phase in
        rw y (
          2 + timer_left t,
          (omega (arith, h.fits)),
          record { phase_left = 2; phase = omega arith; fits = omega arith },
        )
    | inr x ↦ rw x tt
  ]
  main_step-Left f t b (checked ok) n h = by_stage t h.phase h.fits
    where
      by_stage :
          (t : TimerStage)
          → 2 ≤ h.phase_left
          → h.phase_left + timer_left t ≤ n
          → SystemLeftOf m n (
              cancel (record { stage = t; cancelled = b }) >>= λ c.
              some (record { flags = f; timer = c; phase = cancelled ok }))
      by_stage TimerStage.absent two le =
          (1, (omega arith), record { phase_left = 1; phase = omega arith; fits = omega arith })
      by_stage TimerStage.spawned two le =
          (6, (omega arith), record { phase_left = 1; phase = omega arith; fits = omega arith })
      by_stage TimerStage.waiting two le =
          (4, (omega arith), record { phase_left = 1; phase = omega arith; fits = omega arith })
      by_stage TimerStage.woken two le =
          (4, (omega arith), record { phase_left = 1; phase = omega arith; fits = omega arith })
      by_stage TimerStage.fires two le = tt
      by_stage TimerStage.sets_kill two le = tt
      by_stage TimerStage.exited two le =
          (1, (omega arith), record { phase_left = 1; phase = omega arith; fits = omega arith })
  main_step-Left f t b (cancelled ok) n h =
      let one : 1 ≤ h.phase_left = h.phase in
      (
        timer_left t,
        (omega (arith, h.fits)),
        record { phase_left = 0; phase = tt; fits = omega arith },
      )
  main_step-Left f t b (answered r) n h = tt

  -- A step of the timer.
  pub ticks :
      (f g : Flags) (t u : TimerStage) (b : Bool) (ph : Phase S I O) (n : ℕ)
      → timer_left u < timer_left t
      → SystemLeft m
          (record { flags = f; timer = record { stage = t; cancelled = b }; phase = ph })
          n
      → SystemLeftOf m n
          (some (record { flags = g; timer = record { stage = u; cancelled = b }; phase = ph }))
  ticks f g t u b ph n less h = (
    h.phase_left + timer_left u,
    (omega (arith, h.fits)),
    record { phase_left = h.phase_left; phase = h.phase; fits = omega arith },
  )

  pub timer_step-Left :
      (f : Flags) (t : TimerStage) (b : Bool) (ph : Phase S I O) (n : ℕ)
      → SystemLeft m
          (record { flags = f; timer = record { stage = t; cancelled = b }; phase = ph })
          n
      → SystemLeftOf m n (
          step m timer
            (record { flags = f; timer = record { stage = t; cancelled = b }; phase = ph }))
  unfolding step timer_step
  timer_step-Left f TimerStage.woken true ph n h = ticks f f _ _ true ph n (omega arith) h
  timer_step-Left f TimerStage.woken false ph n h = ticks f f _ _ false ph n (omega arith) h
  timer_step-Left f TimerStage.spawned b ph n h = ticks f f _ _ b ph n (omega arith) h
  timer_step-Left f TimerStage.fires b ph n h = ticks f _ _ _ b ph n (omega arith) h
  timer_step-Left f TimerStage.sets_kill b ph n h = ticks f _ _ _ b ph n (omega arith) h
  timer_step-Left f _ b ph n h = tt

  pub wakes-Left :
      (f : Flags) (t : TimerStage) (b : Bool) (ph : Phase S I O) (n : ℕ)
      → SystemLeft m
          (record { flags = f; timer = record { stage = t; cancelled = b }; phase = ph })
          n
      → SystemLeftOf m n (
          step m wakes
            (record { flags = f; timer = record { stage = t; cancelled = b }; phase = ph }))
  unfolding step wake
  wakes-Left f TimerStage.waiting b ph n h = ticks f f _ _ b ph n (omega arith) h
  wakes-Left f _ b ph n h = tt

  -- A task of the pool takes a step.
  pub pool_step :
      (f g : Flags) (c : Timer) (ts : List (Task S I O)) (i : ℕ) (t t' : Task S I O) (n : ℕ)
      → get_elem? ts i ≡ some t
      → ((a : ℕ)
          → Left m t.partition t.stage a
          → (b : ℕ) × (b < a) × Left m t'.partition t'.stage b)
      → SystemLeft m (record { flags = f; timer = c; phase = in_parallel ts }) n
      → SystemLeftOf m n (some (record { flags = g; timer = c; phase = in_parallel (set ts i t') }))
  pool_step f g c ts i t t' n e less h =
      let (a, l, le) = h.phase in
      let (k, lt, l') = TasksLeft-set m ts i t t' a e l less in
      (
        k + 3 + timer_left c.stage,
        (omega (arith, h.fits)),
        record { phase_left = k + 3; phase = (k, l', (omega arith)); fits = omega arith },
      )

  pub skip_step-Left :
      (i : ℕ) (f : Flags) (c : Timer) (ph : Phase S I O) (n : ℕ)
      → SystemLeft m (record { flags = f; timer = c; phase = ph }) n
      → SystemLeftOf m n (skip_step m i (record { flags = f; timer = c; phase = ph }))
  unfolding skip_step
  skip_step-Left i f c (in_parallel ts) n h = elim (Option-cases (get_elem? ts i)) [
    | inl x ↦ rw x tt
    | inr (t, e) ↦ rw e (by_stage t e (any_illegal ts) t.stage refl)
  ]
    where
      by_stage :
          (t : Task S I O)
          → get_elem? ts i ≡ some t
          → (b : Bool) (s : Stage S I O) → t.stage ≡ s
          → SystemLeftOf m n (
              skip_stage m b s >>= λ x. some (record {
                flags = f;
                timer = c;
                phase = in_parallel (set ts i (record t { stage = x }));
              }))
      by_stage t e true Task.waits is =
          pool_step f f c ts i t _ n e
            (λ a l.
              let l' : rounds t.partition + 6 ≤ a = subst (λ s. Left m t.partition s a) is l in
              (0, (omega arith), tt))
            h
      by_stage t e _ _ is = tt
  skip_step-Left i f c _ n h = tt
