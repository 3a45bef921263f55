-- ===== src/Parallel/NoTimer.antt =====
-- Without a timeout no step makes a timer.
use porcupine_rust.Base.{
  ℕ, ◌≡◌, refl, sym, subst, Bool, Option, none, some, inl, inr, Bool-cases, get_elem?, Option-cases,
}
use porcupine_rust.Model.{Model}
use porcupine_rust.Task.{Flags, work_stage}
use porcupine_rust.Timer.{Timer, TimerStage, timer_step, wake, cancel}
use porcupine_rust.Parallel.{
  Phase, System, in_order, in_parallel, checked, cancelled, answered, ThreadEvent, work, skip, main,
  timer, wakes, any_illegal, all_finished, after_task, main_step, work_step, skip_stage, skip_step,
  step,
}

module _ {S I O : Type 0} (m : Model S I O) where
  -- Without a timer there never is one.
  abbrev pub NoTimer : Option (System S I O) → Type 0
  NoTimer none = Unit {0}
  NoTimer (some s) = s.timer.stage ≡ TimerStage.absent

  pub NoTimer-work_step :
      (i : ℕ) (fresh : Bool) (f : Flags) (c : Timer) (ph : Phase S I O)
      → c.stage ≡ TimerStage.absent
      → NoTimer (work_step m i fresh (record { flags = f; timer = c; phase = ph }))
  unfolding work_step
  NoTimer-work_step i fresh f c (in_order t todo) h =
      elim (Option-cases (work_stage m fresh f t.partition t.stage)) [
        | inl n ↦ rw n tt
        | inr (r, e) ↦ rw e h
      ]
  NoTimer-work_step i fresh f c (in_parallel ts) h = elim (Option-cases (get_elem? ts i)) [
    | inl n ↦ rw n tt
    | inr (t, e) ↦ elim (Option-cases (work_stage m fresh f t.partition t.stage)) [
      | inl n ↦ rw (e, n) tt
      | inr (r, x) ↦ rw (e, x) h
    ]
  ]
  NoTimer-work_step i fresh f c _ h = tt

  pub NoTimer-skip_step :
      (i : ℕ) (f : Flags) (c : Timer) (ph : Phase S I O)
      → c.stage ≡ TimerStage.absent
      → NoTimer (skip_step m i (record { flags = f; timer = c; phase = ph }))
  unfolding skip_step
  NoTimer-skip_step i f c (in_parallel ts) h = elim (Option-cases (get_elem? ts i)) [
    | inl n ↦ rw n tt
    | inr (t, e) ↦ elim (Option-cases (skip_stage m (any_illegal ts) t.stage)) [
      | inl n ↦ rw (e, n) tt
      | inr (r, x) ↦ rw (e, x) h
    ]
  ]
  NoTimer-skip_step i f c _ h = tt

  pub NoTimer-main_step :
      (f : Flags) (b : Bool) (ph : Phase S I O)
      → NoTimer (
          main_step (record {
            flags = f;
            timer = record { stage = TimerStage.absent; cancelled = b };
            phase = ph;
          }))
  unfolding main_step cancel
  NoTimer-main_step f b (in_order t todo) = elim (Option-cases (after_task t.stage todo)) [
    | inl n ↦ rw n tt
    | inr (r, e) ↦ rw e refl
  ]
  NoTimer-main_step f b (in_parallel ts) = elim (Bool-cases (all_finished ts)) [
    | inl y ↦ rw y refl
    | inr n ↦ rw n tt
  ]
  NoTimer-main_step f b (checked ok) = refl
  NoTimer-main_step f b (cancelled ok) = refl
  NoTimer-main_step f b (answered r) = tt

  pub NoTimer-step :
      (e : ThreadEvent) (f : Flags) (c : Timer) (ph : Phase S I O)
      → c.stage ≡ TimerStage.absent
      → NoTimer (step m e (record { flags = f; timer = c; phase = ph }))
  unfolding step timer_step wake
  NoTimer-step (work i fresh) f c ph h = NoTimer-work_step i fresh f c ph h
  NoTimer-step (skip i) f c ph h = NoTimer-skip_step i f c ph h
  NoTimer-step main f c ph h =
      subst
        (λ st. NoTimer (
          main_step (record {
            flags = f;
            timer = record { stage = st; cancelled = c.cancelled };
            phase = ph;
          })))
        (sym h) (NoTimer-main_step f c.cancelled ph)
  NoTimer-step timer f c ph h = rw h tt
  NoTimer-step wakes f c ph h = rw h tt
