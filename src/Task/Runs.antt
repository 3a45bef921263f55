-- ===== src/Task/Runs.antt =====
-- What `check_single` does in a task: where no round saw the kill flag set, what it would do alone.
use porcupine_rust.Base.{
  ℕ, suc, ◌+◌, ◌/◌, ◌≡◌, refl, ap, ◌∙◌, sym, subst, arith, Bool, true, false, List, [], ◌∷◌, length,
  inl, inr, Option-cases,
}
use porcupine_rust.Model.{Model, EqIsSound}
use porcupine_rust.Entry.{Entry}
use porcupine_rust.Arena.{from_entries, head_next}
use porcupine_rust.Checker.{
  Search, Round, next_round, returns, panics, round, search_loop, search, check_single, Outcome,
  returned, panicked,
}
use porcupine_rust.Checker.Order.{Orders}
use porcupine_rust.Checker.Explore.{never}
use porcupine_rust.Checker.Verdict.{enough_fuel}
use porcupine_rust.Checker.Correct.{IsHistory, entries_of, check_single-decides}
use porcupine_rust.Task
use porcupine_rust.Task.{Stage, End, begin}

module _ {S I O : Type 0} (m : Model S I O) where
  -- The partition has an order that the model accepts.
  abbrev pub Accepts : List (Entry I O) → Type 0
  Accepts p = Orders m m.init (entries_of m p)

  -- `check_single` alone comes to `st` after some rounds.
  abbrev pub Reaches : List (Entry I O) → Search S I O → Type 0
  Reaches p st =
      (k : ℕ) × ((fuel : ℕ) → check_single m never (k + fuel) p ≡ search_loop m never fuel st)

  -- … and it comes to this end.
  abbrev pub Comes : List (Entry I O) → Outcome → Type 0
  Comes p r = (k : ℕ) × ((fuel : ℕ) → check_single m never (k + fuel) p ≡ r)

  pub data Verdict (p : List (Entry I O)) : Outcome → Type 0 where
    accepts : Accepts p → Verdict p (returned true)
    refuses : ¬ Accepts p → Verdict p (returned false)

  -- `check_single` comes to no end but the right answer.
  pub Comes-Verdict :
      EqIsSound m → (p : List (Entry I O)) (r : Outcome) → IsHistory p → Comes p r → Verdict p r
  Comes-Verdict sound p r h (k, c) =
      let fuel = enough_fuel (length p / 2) in
      elim (check_single-decides m sound p (k + fuel) h (omega arith)) [
        | inl (e, o) ↦ subst (Verdict p) (sym e ∙ c fuel) (accepts o)
        | inr (e, o) ↦ subst (Verdict p) (sym e ∙ c fuel) (refuses o)
      ]

  pub not_panicked : (p : List (Entry I O)) → ¬ Verdict p panicked
  not_panicked p v = absurd_end panicked v (λ b. cc)
    where
      absurd_end : (r : Outcome) → Verdict p r → ((b : Bool) → ¬ (r ≡ returned b)) → ⊥
      absurd_end r (accepts o) h = h true refl
      absurd_end r (refuses o) h = h false refl

  pub Verdict-true : (p : List (Entry I O)) → Verdict p (returned true) → Accepts p
  Verdict-true p v = by_end (returned true) v refl
    where
      by_end : (r : Outcome) → Verdict p r → r ≡ returned true → Accepts p
      by_end r (accepts o) e = o
      by_end r (refuses o) e = absurd (cc)

  pub Verdict-false : (p : List (Entry I O)) → Verdict p (returned false) → ¬ Accepts p
  Verdict-false p v = by_end (returned false) v refl
    where
      by_end : (r : Outcome) → Verdict p r → r ≡ returned false → ¬ Accepts p
      by_end r (accepts o) e = absurd (cc)
      by_end r (refuses o) e = o

  pub one_round :
      (fuel : ℕ) (st : Search S I O) (r : Round S I O)
      → round m false st ≡ r
      → search_loop m never (suc fuel) st ≡ (elim r [
        | next_round st' ↦ search_loop m never fuel st'
        | returns b ↦ returned b
        | panics ↦ panicked
      ])
  unfolding search_loop
  one_round fuel st r e = rw (← e) refl

  no_more : (fuel : ℕ) → 0 + fuel ≡ fuel
  no_more fuel = omega arith

  shift : (k fuel : ℕ) → k + suc fuel ≡ suc k + fuel
  shift k fuel = omega arith

  -- One round further, which saw the kill flag not set.
  pub Reaches-next :
      (p : List (Entry I O)) (st st' : Search S I O)
      → Reaches p st
      → round m false st ≡ next_round st'
      → Reaches p st'
  Reaches-next p st st' (k, c) e = (
    suc k,
    λ fuel.
        ap (λ n. check_single m never n p) (sym (shift k fuel))
        ∙ c (suc fuel)
        ∙ one_round fuel st (next_round st') e,
  )

  pub Reaches-returns :
      (p : List (Entry I O)) (st : Search S I O) (b : Bool)
      → Reaches p st
      → round m false st ≡ returns b
      → Comes p (returned b)
  Reaches-returns p st b (k, c) e = (
    suc k,
    λ fuel.
        ap (λ n. check_single m never n p) (sym (shift k fuel))
        ∙ c (suc fuel)
        ∙ one_round fuel st (returns b) e,
  )

  pub Reaches-panics :
      (p : List (Entry I O)) (st : Search S I O)
      → Reaches p st
      → round m false st ≡ panics
      → Comes p panicked
  Reaches-panics p st (k, c) e = (
    suc k,
    λ fuel.
        ap (λ n. check_single m never n p) (sym (shift k fuel))
        ∙ c (suc fuel)
        ∙ one_round fuel st panics e,
  )

  -- Where `check_single` stands after its first part.
  pub data Begun (p : List (Entry I O)) : Stage S I O → Type 0 where
    runs :
        (st : Search S I O)
        → ((fuel : ℕ) → check_single m never fuel p ≡ search_loop m never fuel st)
        → Begun p (Task.searches st)
    passes : Comes p (returned true) → Begun p (Task.ended End.passed)
    fails : Comes p panicked → Begun p Task.panicked

  pub begin_lem : (p : List (Entry I O)) → Begun p (begin m p)
  unfolding begin check_single search
  begin_lem [] = passes (0, λ fuel. refl)
  begin_lem (e ∷ l) = elim (Option-cases (from_entries (e ∷ l))) [
    | inl n ↦ rw (begin, n) (fails (0, λ fuel. rw (check_single, n) refl))
    | inr (a, g) ↦ elim (Option-cases (head_next a)) [
      | inl n ↦ rw (begin, g, n) (fails (0, λ fuel. rw (check_single, g, search, n) refl))
      | inr (c, x) ↦ rw (begin, g, x) (runs _ (λ fuel. rw (check_single, g, search, x) refl))
    ]
  ]
