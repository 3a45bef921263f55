-- ===== src/Parallel/Steps.antt =====
-- Each step keeps the invariant of the threads.
use mathlib.Core.List.{Memᴰ}
use porcupine_rust.Base.{
  ℕ, ◌≡◌, refl, subst, Bool, true, Option, none, some, List, inl, inr, Bool-cases, get_elem?, set,
  Option-cases,
}
use porcupine_rust.Base.Do.{◌>>=◌}
use porcupine_rust.Model.{Model, EqIsSound}
use porcupine_rust.Entry.{Entry}
use porcupine_rust.Checker.Correct.{IsHistory}
use porcupine_rust.Task
use porcupine_rust.Task.{Flags, Stage, Task, End, work_stage}
use porcupine_rust.Task.Invariant.{Excused, IsMarked, WorkedOf, no_store, work_stage-Worked}
use porcupine_rust.Timer.{Timer, TimerStage, cancel}
use porcupine_rust.Parallel.{
  Phase, System, in_order, in_parallel, checked, cancelled, answered, ThreadEvent, work, skip, main,
  timer, wakes, any_illegal, all_finished, after_task, main_step, work_step, skip_stage, skip_step,
  step,
}
use porcupine_rust.Parallel.Invariant.{
  TimerInv, TimerInv-same, get_elem?_mem, SystemInv, InParallel-set, InOrder-stage,
}
use porcupine_rust.Parallel.Ends.{
  any_illegal-Excused, PhaseOf, after_task-Inv, InParallel-CheckedInv, to_check_result-AnswerInv,
}
use porcupine_rust.Parallel.TimerSteps.{InvOf, timer_step-Inv, wakes-Inv}

module _ {S I O : Type 0} (m : Model S I O) (partitions : List (List (Entry I O))) where
  module _ (sound : EqIsSound m)
      (histories : (p : List (Entry I O)) → Memᴰ p partitions → IsHistory p) where
    work_step-Inv :
        (i : ℕ) (fresh : Bool) (f : Flags) (c : Timer) (ph : Phase S I O)
        → SystemInv m partitions (record { flags = f; timer = c; phase = ph })
        → InvOf m partitions (work_step m i fresh (record { flags = f; timer = c; phase = ph }))
    unfolding work_step
    work_step-Inv i fresh f c (in_order t todo) h =
        by_result (work_stage m fresh f t.partition t.stage) (
          work_stage-Worked m sound partitions t.partition (histories t.partition h.phase.at) fresh
            f t.stage h.phase.at h.flags h.phase.stage)
      where
        by_result :
            (r : Option (Flags × Stage S I O))
            → WorkedOf m partitions t.partition f t.stage r
            → InvOf m partitions (
                r >>= λ x. some (record {
                  flags = x.0;
                  timer = c;
                  phase = in_order (record t { stage = x.1 }) todo;
                }))
        by_result none w = tt
        by_result (some (g, s)) w = record {
          flags = w.flags;
          timer = TimerInv-same f g c.stage w.same_timed_out h.timer;
          phase = InOrder-stage m partitions f g t todo s h.phase w;
        }
    work_step-Inv i fresh f c (in_parallel ts) h = elim (Option-cases (get_elem? ts i)) [
      | inl n ↦ rw n tt
      | inr (t, e) ↦
          let (at, st) = h.phase.tasks t (get_elem?_mem ts i t e) in
          rw e (
            by_result t e (work_stage m fresh f t.partition t.stage) (
              work_stage-Worked m sound partitions t.partition (histories t.partition at) fresh f
                t.stage at h.flags st))
    ]
      where
        by_result :
            (t : Task S I O)
            → get_elem? ts i ≡ some t
            → (r : Option (Flags × Stage S I O)) → WorkedOf m partitions t.partition f t.stage r
            → InvOf m partitions (
                r >>= λ x. some (record {
                  flags = x.0;
                  timer = c;
                  phase = in_parallel (set ts i (record t { stage = x.1 }));
                }))
        by_result t e none w = tt
        by_result t e (some (g, s)) w = record {
          flags = w.flags;
          timer = TimerInv-same f g c.stage w.same_timed_out h.timer;
          phase = InParallel-set m partitions f g ts i t s e h.phase w;
        }
    work_step-Inv i fresh f c (checked ok) h = tt
    work_step-Inv i fresh f c (cancelled ok) h = tt
    work_step-Inv i fresh f c (answered r) h = tt

    skip_step-Inv :
        (i : ℕ) (f : Flags) (c : Timer) (ph : Phase S I O)
        → SystemInv m partitions (record { flags = f; timer = c; phase = ph })
        → InvOf m partitions (skip_step m i (record { flags = f; timer = c; phase = ph }))
    unfolding skip_step
    skip_step-Inv i f c (in_parallel ts) h = elim (Option-cases (get_elem? ts i)) [
      | inl n ↦ rw n tt
      | inr (t, e) ↦ rw e (
          by_stage t e (any_illegal ts) t.stage
            (any_illegal-Excused m f ts (λ u p. (h.phase.tasks u p).1)) refl)
    ]
      where
        by_stage :
            (t : Task S I O)
            → get_elem? ts i ≡ some t
            → (b : Bool) (s : Stage S I O) → (b ≡ true → Excused f)
            → t.stage ≡ s
            → InvOf m partitions (
                skip_stage m b s >>= λ x. some (record {
                  flags = f;
                  timer = c;
                  phase = in_parallel (set ts i (record t { stage = x }));
                }))
        by_stage t e true Task.waits ex is = record {
          flags = h.flags;
          timer = h.timer;
          phase = InParallel-set m partitions f f ts i t Task.skipped e h.phase (
              no_store m sound partitions t.partition
                (histories t.partition (h.phase.tasks t (get_elem?_mem ts i t e)).0) f t.stage
                Task.skipped h.flags (λ x. subst IsMarked is x) (ex refl));
        }
        by_stage t e _ _ ex is = tt
    skip_step-Inv i f c _ h = tt

    main_step-Inv :
        (f : Flags) (c : Timer) (ph : Phase S I O)
        → SystemInv m partitions (record { flags = f; timer = c; phase = ph })
        → InvOf m partitions (main_step (record { flags = f; timer = c; phase = ph }))
    unfolding main_step
    main_step-Inv f c (in_order t todo) h =
        by_result (after_task t.stage todo) (after_task-Inv m partitions f t todo h.phase)
      where
        by_result :
            (r : Option (Phase S I O))
            → PhaseOf m partitions f r
            → InvOf m partitions (r >>= λ ph. some (record { flags = f; timer = c; phase = ph }))
        by_result none w = tt
        by_result (some ph) w = record { flags = h.flags; timer = h.timer; phase = w }
    main_step-Inv f c (in_parallel ts) h = elim (Bool-cases (all_finished ts)) [
      | inl y ↦ rw y (record {
        flags = h.flags;
        timer = h.timer;
        phase = InParallel-CheckedInv m partitions f ts h.phase y;
      })
      | inr n ↦ rw n tt
    ]
    main_step-Inv f c (checked ok) h =
        by_stage c.stage c.cancelled (subst (λ t. TimerInv f t) refl h.timer)
      where
        by_stage :
            (t : TimerStage) (b : Bool)
            → TimerInv f t
            → InvOf m partitions (
                cancel (record { stage = t; cancelled = b }) >>= λ c'.
                some (record { flags = f; timer = c'; phase = cancelled ok }))
        by_stage TimerStage.absent b x = record { flags = h.flags; timer = x; phase = h.phase }
        by_stage TimerStage.fires b x = tt
        by_stage TimerStage.sets_kill b x = tt
        by_stage _ b x = record { flags = h.flags; timer = tt; phase = h.phase }
    main_step-Inv f c (cancelled ok) h = record {
      flags = h.flags;
      timer = h.timer;
      phase = to_check_result-AnswerInv m partitions f ok h.flags h.phase;
    }
    main_step-Inv f c (answered r) h = tt

    pub step-Inv :
        (e : ThreadEvent) (s : System S I O)
        → SystemInv m partitions s
        → InvOf m partitions (step m e s)
    unfolding step
    step-Inv (work i fresh) s h = work_step-Inv i fresh s.flags s.timer s.phase h
    step-Inv (skip i) s h = skip_step-Inv i s.flags s.timer s.phase h
    step-Inv main s h = main_step-Inv s.flags s.timer s.phase h
    step-Inv timer s h =
        timer_step-Inv m partitions s.flags s.timer.stage s.timer.cancelled s.phase h
    step-Inv wakes s h = wakes-Inv m partitions s.flags s.timer.stage s.timer.cancelled s.phase h
