-- ===== src/Parallel/Left.antt =====
-- How many steps a check has left at most.
use porcupine_rust.Base.{
  ℕ, zero, suc, ◌+◌, ◌≤◌, ◌<◌, ◌≡◌, subst, arith, Bool, true, false, Option, none, some, List, [],
  ◌∷◌, map, inl, inr, Bool-cases, get_elem?, set, ltb,
}
use porcupine_rust.Model.{Model}
use porcupine_rust.Entry.{Entry}
use porcupine_rust.Task.{Task}
use porcupine_rust.Task.Budget.{rounds, NotSkipped, Left}
use porcupine_rust.Timer.{TimerStage, spawn_timer}
use porcupine_rust.Parallel.{
  Sorts, Phase, System, in_order, in_parallel, checked, cancelled, answered, waiting_task,
  next_in_order, check_parallel, launch, total_entries, sequential_threshold,
}

abbrev pub timer_left : TimerStage → ℕ
timer_left TimerStage.absent = 0
timer_left TimerStage.spawned = 5
timer_left TimerStage.waiting = 4
timer_left TimerStage.woken = 3
timer_left TimerStage.fires = 2
timer_left TimerStage.sets_kill = 1
timer_left TimerStage.exited = 0

abbrev pub todo_left : {I O : Type 0} → List (List (Entry I O)) → ℕ
todo_left [] = 0
todo_left (p ∷ todo) = rounds p + 7 + todo_left todo

module _ {S I O : Type 0} (m : Model S I O) where
  abbrev pub TasksLeft : List (Task S I O) → ℕ → Type 0
  TasksLeft [] n = Unit {0}
  TasksLeft (t ∷ ts) n =
      (a : ℕ) × (b : ℕ) × Left m t.partition t.stage a × TasksLeft ts b × (a + b ≤ n)

  abbrev pub PhaseLeft : Phase S I O → ℕ → Type 0
  PhaseLeft (in_order t todo) n =
      (a : ℕ) × Left m t.partition t.stage a × NotSkipped t.stage × (a + todo_left todo + 3 ≤ n)
  PhaseLeft (in_parallel ts) n = (a : ℕ) × TasksLeft ts a × (a + 3 ≤ n)
  PhaseLeft (checked ok) n = 2 ≤ n
  PhaseLeft (cancelled ok) n = 1 ≤ n
  PhaseLeft (answered r) n = Unit

  -- At most `n` steps are left.
  pub record SystemLeft (s : System S I O) (n : ℕ) : Type 0 where
    pub phase_left : ℕ
    pub phase : PhaseLeft s.phase phase_left
    pub fits : phase_left + timer_left s.timer.stage ≤ n

  abbrev pub SystemLeftOf : ℕ → Option (System S I O) → Type 0
  SystemLeftOf n none = Unit {0}
  SystemLeftOf n (some s) = (k : ℕ) × (k < n) × SystemLeft s k

  -- A task takes a step.
  pub TasksLeft-set :
      (ts : List (Task S I O)) (i : ℕ) (t t' : Task S I O) (n : ℕ)
      → get_elem? ts i ≡ some t
      → TasksLeft ts n
      → ((a : ℕ)
          → Left m t.partition t.stage a
          → (b : ℕ) × (b < a) × Left m t'.partition t'.stage b)
      → (k : ℕ) × (k < n) × TasksLeft (set ts i t') k
  TasksLeft-set [] i t t' n e h f = absurd (cc)
  TasksLeft-set (u ∷ ts) zero t t' n e (a, b, l, rest, le) f =
      let same : u ≡ t = cc in
      let (c, less, l') = f a (subst (λ z. Left m z.partition z.stage a) same l) in
      (c + b, (omega arith), (c, b, l', rest, (omega arith)))
  TasksLeft-set (u ∷ ts) (suc i) t t' n e (a, b, l, rest, le) f =
      let (c, less, rest') = TasksLeft-set ts i t t' b e rest f in
      (a + c, (omega arith), (a, c, l, rest', (omega arith)))

  pub TasksLeft-waiting :
      (l : List (List (Entry I O))) → TasksLeft (map waiting_task l) (todo_left l)
  TasksLeft-waiting [] = tt
  TasksLeft-waiting (p ∷ l) =
      (rounds p + 6, todo_left l, (omega arith), TasksLeft-waiting l, (omega arith))

  pub next_in_order-Left :
      (todo : List (List (Entry I O))) → PhaseLeft (next_in_order {S = S} todo) (todo_left todo + 2)
  next_in_order-Left [] = omega arith
  next_in_order-Left (p ∷ todo) = (rounds p + 6, (omega arith), tt, (omega arith))

  pub check_parallel-Left :
      (sorts : Sorts (List (Entry I O))) (partitions : List (List (Entry I O)))
      → (n : ℕ) × PhaseLeft (check_parallel {S = S} sorts partitions) n
  unfolding check_parallel
  check_parallel-Left sorts [] = (2, (omega arith))
  check_parallel-Left sorts (p ∷ []) = (_, (rounds p + 5, (omega arith), tt, (le_self _)))
    where
      le_self : (n : ℕ) → n ≤ n
      le_self n = omega arith
  check_parallel-Left sorts (p ∷ q ∷ l) =
      let sorted = sorts.by_len (p ∷ q ∷ l) in
      elim (Bool-cases (ltb (total_entries sorted) sequential_threshold)) [
        | inl y ↦ rw y (todo_left sorted + 2, next_in_order-Left sorted)
        | inr n ↦
            let large = sorts.by_reverse_len sorted in
            rw n (todo_left large + 3, (todo_left large, TasksLeft-waiting large, (omega arith)))
      ]

  -- A bound on the steps of a check.
  pub launch_left :
      (sorts : Sorts (List (Entry I O))) (timeout : Bool) (partitions : List (List (Entry I O)))
      → (n : ℕ) × SystemLeft (launch m sorts timeout partitions) n
  launch_left sorts timeout partitions =
      let (n, l) = check_parallel-Left sorts partitions in
      (n + 5, record { phase_left = n; phase = l; fits = by_timeout n timeout })
    where
      by_timeout : (n : ℕ) (b : Bool) → n + timer_left (spawn_timer b).stage ≤ n + 5
      by_timeout n true = omega arith
      by_timeout n false = omega arith
