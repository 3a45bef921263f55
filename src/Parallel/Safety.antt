-- ===== src/Parallel/Safety.antt =====
-- What an answer means, whatever the order of the steps.
use mathlib.Core.List.{Memᴰ}
use mathlib.Core.List.Memᴰ
use porcupine_rust.Base.{
  ℕ, suc, ◌≡◌, refl, ap, ◌∙◌, sym, subst, Bool, true, false, some, List, [], ◌∷◌, map, inl, inr,
  Bool-cases, ltb,
}
use porcupine_rust.Types.{CheckResult}
use porcupine_rust.Model.{Model, EqIsSound}
use porcupine_rust.Entry.{Entry}
use porcupine_rust.Checker.Correct.{IsHistory}
use porcupine_rust.Task.{Flags, Task}
use porcupine_rust.Timer.{TimerStage, spawn_timer}
use porcupine_rust.Parallel.{
  Sorts, System, answered, ThreadEvent, waiting_task, check_parallel, step, launch, total_entries,
  sequential_threshold,
}
use porcupine_rust.Parallel.Invariant.{TimerInv, AllAccept, OneRefused, PhaseInv, SystemInv}
use porcupine_rust.Parallel.Ends.{next_in_order-Inv}
use porcupine_rust.Parallel.TimerSteps.{InvOf}
use porcupine_rust.Parallel.Steps.{step-Inv}
use porcupine_rust.Parallel.NoTimer.{NoTimer, NoTimer-step}

abbrev cleared : Flags
cleared = record { kill = false; definitive_illegal = false; timed_out = false }

module _ {S I O : Type 0} (m : Model S I O) where
  -- A system after `k` steps.
  pub data Reach (from : System S I O) : ℕ → System S I O → Type 0 where
    here : Reach from 0 from
    later :
        {k : ℕ} {s t : System S I O} (e : ThreadEvent)
        → Reach from k s
        → step m e s ≡ some t
        → Reach from (suc k) t

  waiting_mem :
      (l : List (List (Entry I O))) (t : Task S I O)
      → Memᴰ t (map waiting_task l)
      → (p : List (Entry I O)) × Memᴰ p l × (t ≡ waiting_task p)
  waiting_mem [] t h = absurd (Memᴰ.not-nil h)
  waiting_mem (p ∷ l) t (Memᴰ.head e) = (p, Memᴰ.head refl, e)
  waiting_mem (p ∷ l) t (Memᴰ.tail h) = let (q, at, e) = waiting_mem l t h in (q, Memᴰ.tail at, e)

  mem_waiting :
      (l : List (List (Entry I O))) (p : List (Entry I O))
      → Memᴰ p l
      → Memᴰ (waiting_task {S = S} p) (map waiting_task l)
  mem_waiting [] p h = absurd (Memᴰ.not-nil h)
  mem_waiting (q ∷ l) p (Memᴰ.head e) = Memᴰ.head (ap waiting_task e)
  mem_waiting (q ∷ l) p (Memᴰ.tail h) = Memᴰ.tail (mem_waiting l p h)

  not_set : ¬ (false ≡ true)
  not_set e = cc

  check_parallel-Inv :
      (sorts : Sorts (List (Entry I O))) (partitions : List (List (Entry I O)))
      → PhaseInv m partitions cleared (check_parallel sorts partitions)
  unfolding check_parallel
  check_parallel-Inv sorts [] = inr (λ p at. absurd (Memᴰ.not-nil at))
  check_parallel-Inv sorts (p ∷ []) = record {
    at = Memᴰ.head refl;
    stage = tt;
    todo_in = λ q at. absurd (Memᴰ.not-nil at);
    rest = λ q at. inr (inl (Memᴰ.eq_of_singleton at));
    marked = λ d. absurd (not_set d);
  }
  check_parallel-Inv sorts (p ∷ q ∷ l) =
      let all = p ∷ q ∷ l in
      let sorted = sorts.by_len all in
      elim (Bool-cases (ltb (total_entries sorted) sequential_threshold)) [
        | inl y ↦ rw y (
            next_in_order-Inv m all _ sorted (λ x. (sorts.by_len_mem all x).0)
              (λ x at. inr ((sorts.by_len_mem all x).1 at)) not_set)
        | inr n ↦ rw n (record {
          tasks = λ t h.
              let (x, at, e) = waiting_mem (sorts.by_reverse_len sorted) t h in
              rw e ((sorts.by_len_mem all x).0 ((sorts.by_reverse_len_mem sorted x).0 at), tt);
          covers = λ x at. (
            waiting_task x,
            mem_waiting (sorts.by_reverse_len sorted) x
                ((sorts.by_reverse_len_mem sorted x).1 ((sorts.by_len_mem all x).1 at)),
            refl,
          );
          marked = λ d. absurd (not_set d);
        })
      ]

  launch-Inv :
      (sorts : Sorts (List (Entry I O))) (timeout : Bool) (partitions : List (List (Entry I O)))
      → SystemInv m partitions (launch m sorts timeout partitions)
  launch-Inv sorts timeout partitions = record {
    flags = record { killed = λ e. absurd (not_set e); proved = λ e. absurd (not_set e) };
    timer = by_timeout timeout;
    phase = check_parallel-Inv sorts partitions;
  }
    where
      by_timeout : (b : Bool) → TimerInv cleared (spawn_timer b).stage
      by_timeout true = tt
      by_timeout false = refl

  Reach-NoTimer :
      {from : System S I O} {k : ℕ} {s : System S I O}
      → from.timer.stage ≡ TimerStage.absent
      → Reach from k s
      → s.timer.stage ≡ TimerStage.absent
  Reach-NoTimer h here = h
  Reach-NoTimer h (later {s = s} e r x) =
      subst (NoTimer m) x (NoTimer-step m e s.flags s.timer s.phase (Reach-NoTimer h r))

  -- What an answer says of the partitions.
  abbrev pub Answers : List (List (Entry I O)) → Bool → CheckResult → Type 0
  Answers partitions timeout CheckResult.ok = AllAccept m partitions
  Answers partitions timeout CheckResult.illegal = OneRefused m partitions
  Answers partitions timeout CheckResult.unknown = timeout ≡ true

  timer_only :
      (timeout : Bool) (sorts : Sorts (List (Entry I O))) (partitions : List (List (Entry I O)))
      {k : ℕ} {s : System S I O}
      → Reach (launch m sorts timeout partitions) k s
      → TimerInv s.flags s.timer.stage
      → s.flags.timed_out ≡ true
      → timeout ≡ true
  timer_only true sorts partitions r h e = refl
  timer_only false sorts partitions {k} {s} r h e =
      let gone : s.timer.stage ≡ TimerStage.absent = Reach-NoTimer refl r in
      let off : s.flags.timed_out ≡ false = subst (TimerInv s.flags) gone h in
      absurd (not_set (sym off ∙ e))

  module _ (sound : EqIsSound m) (sorts : Sorts (List (Entry I O))) (timeout : Bool)
      (partitions : List (List (Entry I O)))
      (histories : (p : List (Entry I O)) → Memᴰ p partitions → IsHistory p) where
    pub Reach-Inv :
        {k : ℕ} {s : System S I O}
        → Reach (launch m sorts timeout partitions) k s
        → SystemInv m partitions s
    Reach-Inv here = launch-Inv sorts timeout partitions
    Reach-Inv (later {s = s} e r h) =
        subst (InvOf m partitions) h (step-Inv m partitions sound histories e s (Reach-Inv r))

    -- For sound equality of states and partitions that are histories, with a timeout or without, and
    -- whatever order the threads, the timer and the thread pool take: an answer ok means that the
    -- model accepts an order of each partition, illegal that one partition has no such order, and
    -- unknown that there was a timeout.
    pub check_parallel_sound :
        {k : ℕ} {s : System S I O} {r : CheckResult}
        → Reach (launch m sorts timeout partitions) k s
        → s.phase ≡ answered r
        → Answers partitions timeout r
    check_parallel_sound {k} {s} {r} reach e =
        let inv = Reach-Inv reach in
        by_result r (subst (PhaseInv m partitions s.flags) e inv.phase)
          (timer_only timeout sorts partitions reach inv.timer)
      where
        by_result :
            (r : CheckResult)
            → PhaseInv m partitions s.flags (answered r)
            → (s.flags.timed_out ≡ true → timeout ≡ true)
            → Answers partitions timeout r
        by_result CheckResult.ok h t = h
        by_result CheckResult.illegal h t = h
        by_result CheckResult.unknown h t = t h
