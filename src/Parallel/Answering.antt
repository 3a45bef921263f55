-- ===== src/Parallel/Answering.antt =====
-- Every check comes to an answer.
use mathlib.Core.List.{Memᴰ}
use porcupine_rust.Base.{ℕ, zero, suc, ◌+◌, ◌≤◌, ◌≡◌, arith, Bool, some, List, inl, inr}
use porcupine_rust.Types.{CheckResult}
use porcupine_rust.Model.{Model, EqIsSound}
use porcupine_rust.Entry.{Entry}
use porcupine_rust.Checker.Correct.{IsHistory}
use porcupine_rust.Parallel.{Sorts, System, ThreadEvent, answered, step, launch}
use porcupine_rust.Parallel.Safety.{Reach, later}
use porcupine_rust.Parallel.Budget.{check_parallel_terminates}
use porcupine_rust.Parallel.Progress.{IsPrompt, check_parallel_progress}

module _ {S I O : Type 0} (m : Model S I O) where
  -- Steps from one system to another, none of which waits for time to pass.
  pub data PromptRun : System S I O → System S I O → Type 0 where
    done : {s : System S I O} → PromptRun s s
    next :
        {s t u : System S I O} (e : ThreadEvent)
        → IsPrompt e
        → step m e s ≡ some t
        → PromptRun t u
        → PromptRun s u

  -- Such steps lead to an answer.
  abbrev pub Answering : System S I O → Type 0
  Answering s = (t : System S I O) × (r : CheckResult) × PromptRun s t × (t.phase ≡ answered r)

  module _ (sound : EqIsSound m) (sorts : Sorts (List (Entry I O))) (timeout : Bool)
      (partitions : List (List (Entry I O)))
      (histories : (p : List (Entry I O)) → Memᴰ p partitions → IsHistory p) where
    answers_within :
        (bound : ℕ)
        → ((k : ℕ) (s : System S I O) → Reach m (launch m sorts timeout partitions) k s → k ≤ bound)
        → (fuel k : ℕ) (s : System S I O) → Reach m (launch m sorts timeout partitions) k s
        → bound ≤ k + fuel
        → Answering s
    answers_within bound ends zero k s reach le =
        elim (check_parallel_progress m sound sorts timeout partitions histories reach) [
          | inl (r, e) ↦ (s, r, done, e)
          | inr (e, t, prompt, x) ↦
              let more : suc k ≤ bound = ends (suc k) t (later e reach x) in absurd (omega arith)
        ]
    answers_within bound ends (suc fuel) k s reach le =
        elim (check_parallel_progress m sound sorts timeout partitions histories reach) [
          | inl (r, e) ↦ (s, r, done, e)
          | inr (e, t, prompt, x) ↦
              let (u, r, run, is) =
                answers_within bound ends fuel (suc k) t (later e reach x) (omega arith) in
              (u, r, next e prompt x run, is)
        ]

    -- For sound equality of states and partitions that are histories: from whatever state the threads
    -- come to be in, steps that do not wait for the timeout lead to an answer.
    pub check_parallel_answers :
        {k : ℕ} {s : System S I O} → Reach m (launch m sorts timeout partitions) k s → Answering s
    check_parallel_answers {k} {s} reach =
        let (bound, ends) = check_parallel_terminates m sound partitions histories sorts timeout in
        answers_within bound ends bound k s reach (omega arith)
