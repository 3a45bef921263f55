-- ===== src/Parallel/Progress.antt =====
-- No step of the threads leads into a state in which nothing can go on.
use mathlib.Core.List.{Memᴰ}
use porcupine_rust.Base.{
  ℕ, suc, ◌≡◌, refl, arith, Bool, true, false, not, some, List, [], ◌∷◌, inl, inr, ◌⊎◌, Bool-cases,
  get_elem?, set,
}
use porcupine_rust.Types.{CheckResult}
use porcupine_rust.Model.{Model, EqIsSound}
use porcupine_rust.Entry.{Entry}
use porcupine_rust.Checker.Correct.{IsHistory}
use porcupine_rust.Task
use porcupine_rust.Task.{Flags, Stage, Task, End, work_stage}
use porcupine_rust.Task.Invariant.{StageInv}
use porcupine_rust.Task.Budget.{NotSkipped}
use porcupine_rust.Timer.{Timer, TimerStage, timer_step, cancel}
use porcupine_rust.Parallel.{
  Sorts, Phase, System, in_order, in_parallel, checked, cancelled, answered, ThreadEvent, work,
  timer, wakes, is_finished, all_finished, any_illegal, after_task, main_step, work_step, step,
  launch,
}
use porcupine_rust.Parallel.Invariant.{get_elem?_mem, SystemInv}
use porcupine_rust.Parallel.Safety.{Reach, Reach-Inv}
use porcupine_rust.Parallel.Left.{PhaseLeft, launch_left}
use porcupine_rust.Parallel.Budget.{Reach-Left}

-- An event that does not wait for time to pass.
abbrev pub IsPrompt : ThreadEvent → Type 0
IsPrompt wakes = ⊥
IsPrompt _ = Unit

module _ {S I O : Type 0} (m : Model S I O) where
  -- Some step can be taken that does not wait.
  abbrev pub Enabled : System S I O → Type 0
  Enabled s = (e : ThreadEvent) × (t : System S I O) × IsPrompt e × (step m e s ≡ some t)

  abbrev Works : Flags → List (Entry I O) → Stage S I O → Type 0
  Works f p s = (r : Flags × Stage S I O) × (work_stage m true f p s ≡ some r)

  -- A task that is not done with can take a step.
  unfinished-Works :
      (f : Flags) (p : List (Entry I O)) (s : Stage S I O)
      → is_finished s ≡ false
      → StageInv m f p s
      → Works f p s
  unfolding work_stage
  unfinished-Works f p Task.waits h x = (_, refl)
  unfinished-Works f p Task.begins h x = (_, refl)
  unfinished-Works f p (Task.searches st) h x = (_, refl)
  unfinished-Works f p (Task.failed saw) h x = (_, refl)
  unfinished-Works f p Task.marks h x = (_, refl)
  unfinished-Works f p Task.kills h x = (_, refl)
  unfinished-Works f p (Task.ended e) h x = absurd (cc)
  unfinished-Works f p Task.skipped h x = absurd (cc)
  unfinished-Works f p Task.panicked h x = absurd x

  unfinished_task :
      (ts : List (Task S I O))
      → all_finished ts ≡ false
      → (i : ℕ) × (t : Task S I O) × (get_elem? ts i ≡ some t) × (is_finished t.stage ≡ false)
  unfinished_task [] h = absurd (cc)
  unfinished_task (t ∷ ts) h = elim (Bool-cases (is_finished t.stage)) [
    | inl y ↦ let (i, u, g, x) = unfinished_task ts (ground arith) in (suc i, u, g, x)
    | inr n ↦ (0, t, refl, n)
  ]

  ended-after_task :
      (s : Stage S I O) (todo : List (List (Entry I O)))
      → is_finished s ≡ true
      → NotSkipped s
      → (ph : Phase S I O) × (after_task s todo ≡ some ph)
  ended-after_task (Task.ended End.passed) todo h x = (_, refl)
  ended-after_task (Task.ended End.illegal) todo h x = (_, refl)
  ended-after_task (Task.ended End.aborted) todo h x = (_, refl)
  ended-after_task Task.skipped todo h x = absurd x
  ended-after_task _ todo h x = absurd (cc)

  Enabled-in_order :
      (f : Flags) (c : Timer) (t : Task S I O) (todo : List (List (Entry I O)))
      → StageInv m f t.partition t.stage
      → NotSkipped t.stage
      → Enabled (record { flags = f; timer = c; phase = in_order t todo })
  unfolding step main_step work_step
  Enabled-in_order f c t todo st ns = elim (Bool-cases (is_finished t.stage)) [
    | inl y ↦
        let (ph, e) = ended-after_task t.stage todo y ns in
        (ThreadEvent.main, record { flags = f; timer = c; phase = ph }, tt, rw e refl)
    | inr n ↦
        let (r, e) = unfinished-Works f t.partition t.stage n st in
        let t' = record t { stage = r.1 } in
        (work 0 true, record { flags = r.0; timer = c; phase = in_order t' todo }, tt, rw e refl)
  ]

  Enabled-in_parallel :
      (f : Flags) (c : Timer) (ts : List (Task S I O))
      → ((t : Task S I O) → Memᴰ t ts → StageInv m f t.partition t.stage)
      → Enabled (record { flags = f; timer = c; phase = in_parallel ts })
  unfolding step main_step work_step
  Enabled-in_parallel f c ts st = elim (Bool-cases (all_finished ts)) [
    | inl y ↦
        let ph = Phase.checked (not (any_illegal ts)) in
        (ThreadEvent.main, record { flags = f; timer = c; phase = ph }, tt, rw y refl)
    | inr n ↦
        let (i, t, g, x) = unfinished_task ts n in
        let (r, e) = unfinished-Works f t.partition t.stage x (st t (get_elem?_mem ts i t g)) in
        let ts' = set ts i (record t { stage = r.1 }) in
        (
          work i true,
          record { flags = r.0; timer = c; phase = in_parallel ts' },
          tt,
          rw (g, e) refl,
        )
  ]

  Enabled-checked :
      (f : Flags) (t : TimerStage) (b ok : Bool)
      → Enabled
          (record { flags = f; timer = record { stage = t; cancelled = b }; phase = checked ok })
  unfolding step main_step cancel timer_step
  Enabled-checked f TimerStage.fires b ok = (timer, _, tt, refl)
  Enabled-checked f TimerStage.sets_kill b ok = (timer, _, tt, refl)
  Enabled-checked f TimerStage.absent b ok = (ThreadEvent.main, _, tt, refl)
  Enabled-checked f TimerStage.spawned b ok = (ThreadEvent.main, _, tt, refl)
  Enabled-checked f TimerStage.waiting b ok = (ThreadEvent.main, _, tt, refl)
  Enabled-checked f TimerStage.woken b ok = (ThreadEvent.main, _, tt, refl)
  Enabled-checked f TimerStage.exited b ok = (ThreadEvent.main, _, tt, refl)

  Enabled-cancelled :
      (f : Flags) (c : Timer) (ok : Bool)
      → Enabled (record { flags = f; timer = c; phase = cancelled ok })
  unfolding step main_step
  Enabled-cancelled f c ok = (ThreadEvent.main, _, tt, refl)

  -- For sound equality of states and partitions that are histories: in whatever state the threads
  -- come to be, the check has answered, or a step can be taken other than the end of the timer's
  -- wait.
  pub check_parallel_progress :
      EqIsSound m
      → (sorts : Sorts (List (Entry I O))) (timeout : Bool) (partitions : List (List (Entry I O)))
      → ((p : List (Entry I O)) → Memᴰ p partitions → IsHistory p)
      → {k : ℕ} {s : System S I O} → Reach m (launch m sorts timeout partitions) k s
      → ((r : CheckResult) × (s.phase ≡ answered r)) ⊎ Enabled s
  check_parallel_progress sound sorts timeout partitions histories {k} {s} reach =
      let inv = Reach-Inv m sound sorts timeout partitions histories reach in
      let (n, start) = launch_left m sorts timeout partitions in
      let (j, le, l) = Reach-Left m sound partitions histories sorts timeout n start reach in
      by_phase s.phase inv l.phase_left l.phase
    where
      by_phase :
          (ph : Phase S I O)
          → SystemInv m partitions (record { flags = s.flags; timer = s.timer; phase = ph })
          → (n : ℕ) → PhaseLeft m ph n
          → ((r : CheckResult) × (ph ≡ answered r))
            ⊎ Enabled (record { flags = s.flags; timer = s.timer; phase = ph })
      by_phase (in_order t todo) inv n (a, l, ns, le) =
          inr (Enabled-in_order s.flags s.timer t todo inv.phase.stage ns)
      by_phase (in_parallel ts) inv n l =
          inr (Enabled-in_parallel s.flags s.timer ts (λ t p. (inv.phase.tasks t p).1))
      by_phase (checked ok) inv n l =
          inr (Enabled-checked s.flags s.timer.stage s.timer.cancelled ok)
      by_phase (cancelled ok) inv n l = inr (Enabled-cancelled s.flags s.timer ok)
      by_phase (answered r) inv n l = inl (r, refl)
