-- ===== src/Parallel/Budget.antt =====
-- How many steps are left at most, whatever the order.
use mathlib.Core.List.{Memᴰ}
use porcupine_rust.Base.{
  ℕ, ◌+◌, ◌≤◌, ◌≡◌, refl, subst, arith, Bool, Option, none, some, List, inl, inr, Option-cases,
  get_elem?, set,
}
use porcupine_rust.Base.Do.{◌>>=◌}
use porcupine_rust.Model.{Model, EqIsSound}
use porcupine_rust.Entry.{Entry}
use porcupine_rust.Checker.Correct.{IsHistory}
use porcupine_rust.Task.{Flags, Stage, Task, work_stage}
use porcupine_rust.Task.Budget.{LeftOf, work_stage-Left}
use porcupine_rust.Timer.{Timer}
use porcupine_rust.Parallel.{
  Sorts, Phase, System, in_order, in_parallel, ThreadEvent, work, skip, main, timer, wakes,
  work_step, step, launch,
}
use porcupine_rust.Parallel.Invariant.{get_elem?_mem, SystemInv}
use porcupine_rust.Parallel.Safety.{Reach, here, later, Reach-Inv}
use porcupine_rust.Parallel.Left.{SystemLeft, SystemLeftOf, launch_left, timer_left, todo_left}
use porcupine_rust.Parallel.Spending.{
  main_step-Left, pool_step, skip_step-Left, timer_step-Left, wakes-Left,
}

module _ {S I O : Type 0} (m : Model S I O) where
  module _ (sound : EqIsSound m) (partitions : List (List (Entry I O)))
      (histories : (p : List (Entry I O)) → Memᴰ p partitions → IsHistory p) where
    work_step-Left :
        (i : ℕ) (fresh : Bool) (f : Flags) (c : Timer) (ph : Phase S I O) (n : ℕ)
        → SystemInv m partitions (record { flags = f; timer = c; phase = ph })
        → SystemLeft m (record { flags = f; timer = c; phase = ph }) n
        → SystemLeftOf m n (work_step m i fresh (record { flags = f; timer = c; phase = ph }))
    unfolding work_step
    work_step-Left i fresh f c (in_order t todo) n inv h =
        let (a, l, ns, le) = h.phase in
        by_result a le (work_stage m fresh f t.partition t.stage) (
          work_stage-Left m sound t.partition (histories t.partition inv.phase.at) fresh f t.stage a
            l)
      where
        by_result :
            (a : ℕ)
            → a + todo_left todo + 3 ≤ h.phase_left
            → (r : Option (Flags × Stage S I O)) → LeftOf m t.partition a r
            → SystemLeftOf m n (
                r >>= λ x. some (record {
                  flags = x.0;
                  timer = c;
                  phase = in_order (record t { stage = x.1 }) todo;
                }))
        by_result a le none w = tt
        by_result a le (some (g, s)) (k, less, l, ns) = (
          k + todo_left todo + 3 + timer_left c.stage,
          (omega (arith, h.fits)),
          record {
            phase_left = k + todo_left todo + 3;
            phase = (k, l, ns, (omega arith));
            fits = omega arith;
          },
        )
    work_step-Left i fresh f c (in_parallel ts) n inv h = elim (Option-cases (get_elem? ts i)) [
      | inl x ↦ rw x tt
      | inr (t, e) ↦ rw e (by_result t e (work_stage m fresh f t.partition t.stage) refl)
    ]
      where
        by_result :
            (t : Task S I O)
            → get_elem? ts i ≡ some t
            → (r : Option (Flags × Stage S I O)) → work_stage m fresh f t.partition t.stage ≡ r
            → SystemLeftOf m n (
                r >>= λ x. some (record {
                  flags = x.0;
                  timer = c;
                  phase = in_parallel (set ts i (record t { stage = x.1 }));
                }))
        by_result t e none is = tt
        by_result t e (some (g, s)) is =
            let (at, st) = inv.phase.tasks t (get_elem?_mem ts i t e) in
            pool_step m f g c ts i t (record t { stage = s }) n e
              (λ a l.
                let (k, less, l', ns) = subst (LeftOf m t.partition a) is (
                  work_stage-Left m sound t.partition (histories t.partition at) fresh f t.stage a
                    l) in
                (k, less, l'))
              h
    work_step-Left i fresh f c _ n inv h = tt

    step-Left :
        (e : ThreadEvent) (s : System S I O) (n : ℕ)
        → SystemInv m partitions s
        → SystemLeft m s n
        → SystemLeftOf m n (step m e s)
    unfolding step
    step-Left (work i fresh) s n inv h = work_step-Left i fresh s.flags s.timer s.phase n inv h
    step-Left (skip i) s n inv h = skip_step-Left m i s.flags s.timer s.phase n h
    step-Left main s n inv h = main_step-Left m s.flags s.timer.stage s.timer.cancelled s.phase n h
    step-Left timer s n inv h =
        timer_step-Left m s.flags s.timer.stage s.timer.cancelled s.phase n h
    step-Left wakes s n inv h = wakes-Left m s.flags s.timer.stage s.timer.cancelled s.phase n h

    -- What is left of the first bound after `k` steps.
    pub Reach-Left :
        (sorts : Sorts (List (Entry I O))) (timeout : Bool) (n : ℕ) {k : ℕ} {s : System S I O}
        → SystemLeft m (launch m sorts timeout partitions) n
        → Reach m (launch m sorts timeout partitions) k s
        → (j : ℕ) × (k + j ≤ n) × SystemLeft m s j
    Reach-Left sorts timeout n h here = (n, (omega arith), h)
    Reach-Left sorts timeout n h (later {s = s} e r x) =
        let (j, le, h') = Reach-Left sorts timeout n h r in
        let inv = Reach-Inv m sound sorts timeout partitions histories r in
        let (i, less, h'') = subst (SystemLeftOf m j) x (step-Left e s j inv h') in
        (i, (omega arith), h'')

    -- For sound equality of states and partitions that are histories, there is a bound on the steps of
    -- the threads, the timer and the thread pool together, in whatever order they go.
    pub check_parallel_terminates :
        (sorts : Sorts (List (Entry I O))) (timeout : Bool)
        → (bound : ℕ) × ((k : ℕ) (s : System S I O)
            → Reach m (launch m sorts timeout partitions) k s
            → k ≤ bound)
    check_parallel_terminates sorts timeout =
        let (n, start) = launch_left m sorts timeout partitions in
        (n, λ k s r. let (j, le, h) = Reach-Left sorts timeout n start r in omega arith)
