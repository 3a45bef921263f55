-- ===== src/Task/Budget.antt =====
-- How many accesses a task has left at most.
use porcupine_rust.Base.{
  ℕ, zero, suc, ◌+◌, ◌/◌, ◌≤◌, ◌<◌, ◌≡◌, ◌≢◌, refl, ◌∙◌, subst, arith, Bool, true, false, ◌||◌,
  Option, none, some, List, length, inl, inr, Bool-cases,
}
use porcupine_rust.Model.{Model, EqIsSound}
use porcupine_rust.Entry.{Entry}
use porcupine_rust.Checker.{
  Search, Round, next_round, returns, panics, round, search_loop, check_single, Outcome, returned,
  out_of_fuel,
}
use porcupine_rust.Checker.Explore.{never}
use porcupine_rust.Checker.Verdict.{enough_fuel}
use porcupine_rust.Checker.Correct.{IsHistory, check_single-decides}
use porcupine_rust.Task
use porcupine_rust.Task.{
  Flags, load, Stage, End, waits, begins, searches, failed, marks, kills, ended, skipped, begin,
  after_round, work_stage,
}
use porcupine_rust.Task.Runs.{one_round, Begun, runs, passes, fails, begin_lem}

-- The rounds that are enough for a partition.
abbrev pub rounds : {I O : Type 0} → List (Entry I O) → ℕ
rounds p = enough_fuel (length p / 2)

module _ {S I O : Type 0} where
  abbrev pub NotSkipped : Stage S I O → Type 0
  NotSkipped skipped = ⊥
  NotSkipped _ = Unit {0}

module _ {S I O : Type 0} (m : Model S I O) where
  abbrev pub Left : List (Entry I O) → Stage S I O → ℕ → Type 0
  Left p waits n = rounds p + 6 ≤ n
  Left p begins n = rounds p + 5 ≤ n
  Left p (searches st) n = (r : ℕ) × (search_loop m never r st ≢ out_of_fuel) × (r + 4 ≤ n)
  Left p (failed saw) n = 3 ≤ n
  Left p marks n = 2 ≤ n
  Left p kills n = 1 ≤ n
  Left p _ n = Unit {0}

  -- An access uses up one.
  abbrev pub LeftOf : List (Entry I O) → ℕ → Option (Flags × Stage S I O) → Type 0
  LeftOf p n none = Unit {0}
  LeftOf p n (some r) = (k : ℕ) × (k < n) × Left p r.1 k × NotSkipped r.1

  Left-after_round :
      (p : List (Entry I O)) (n fuel : ℕ) (st : Search S I O) (r : Round S I O)
      → round m false st ≡ r
      → (search_loop m never (suc fuel) st ≢ out_of_fuel)
      → suc fuel + 4 ≤ n
      → (k : ℕ) × (k < n) × Left p (after_round false r) k × NotSkipped (after_round false r)
  Left-after_round p n fuel st (next_round st') e h le = (
    fuel + 4,
    (omega arith),
    (fuel, (λ x. h (one_round m fuel st (next_round st') e ∙ x)), (omega arith)),
    tt,
  )
  Left-after_round p n fuel st (returns true) e h le = (fuel + 4, (omega arith), tt, tt)
  Left-after_round p n fuel st (returns false) e h le = (fuel + 4, (omega arith), (omega arith), tt)
  Left-after_round p n fuel st panics e h le = (fuel + 4, (omega arith), tt, tt)

  Left-searches :
      (p : List (Entry I O)) (n fuel : ℕ) (kill : Bool) (st : Search S I O)
      → (search_loop m never fuel st ≢ out_of_fuel)
      → fuel + 4 ≤ n
      → (k : ℕ) × (k < n)
        × Left p (after_round kill (round m kill st)) k
        × NotSkipped (after_round kill (round m kill st))
  unfolding round search_loop
  Left-searches p n zero kill st h le = absurd (h refl)
  Left-searches p n (suc fuel) true st h le = (3, (omega arith), (omega arith), tt)
  Left-searches p n (suc fuel) false st h le =
      Left-after_round p n fuel st (round m false st) refl h le

  not_out : (r : Outcome) (b : Bool) → r ≡ returned b → r ≢ out_of_fuel
  not_out r b e x = cc

  module _ (sound : EqIsSound m) (p : List (Entry I O)) (history : IsHistory p) where
    decided : check_single m never (rounds p) p ≢ out_of_fuel
    decided = elim (check_single-decides m sound p (rounds p) history (omega arith)) [
      | inl (e, o) ↦ not_out _ true e
      | inr (e, o) ↦ not_out _ false e
    ]

    Left-begin :
        (n : ℕ) (s : Stage S I O)
        → Begun m p s
        → rounds p + 5 ≤ n
        → (k : ℕ) × (k < n) × Left p s k × NotSkipped s
    Left-begin n _ (runs st e) le = (
      rounds p + 4,
      (omega arith),
      (rounds p, subst (λ r. r ≢ out_of_fuel) (e (rounds p)) decided, (omega arith)),
      tt,
    )
    Left-begin n _ (passes c) le = (0, (omega arith), tt, tt)
    Left-begin n _ (fails c) le = (0, (omega arith), tt, tt)

    pub work_stage-Left :
        (fresh : Bool) (f : Flags) (s : Stage S I O) (n : ℕ)
        → Left p s n
        → LeftOf p n (work_stage m fresh f p s)
    unfolding work_stage
    work_stage-Left fresh f waits n h = elim (Bool-cases (load fresh f.kill)) [
      | inl y ↦ rw y (0, (omega arith), tt, tt)
      | inr x ↦ rw x (rounds p + 5, (omega arith), (omega arith), tt)
    ]
    work_stage-Left fresh f begins n h = Left-begin n (begin m p) (begin_lem m p) h
    work_stage-Left fresh f (searches st) n (r, more, le) =
        Left-searches p n r (load fresh f.kill) st more le
    work_stage-Left fresh f (failed saw) n h = elim (Bool-cases (saw || load fresh f.kill)) [
      | inl y ↦ rw y (1, (omega arith), (omega arith), tt)
      | inr x ↦ rw x (2, (omega arith), (omega arith), tt)
    ]
    work_stage-Left fresh f marks n h = (1, (omega arith), (omega arith), tt)
    work_stage-Left fresh f kills n h = (0, (omega arith), tt, tt)
    work_stage-Left fresh f (ended e) n h = tt
    work_stage-Left fresh f skipped n h = tt
    work_stage-Left fresh f Task.panicked n h = tt
