-- ===== src/Checker/Correct.antt =====
-- `check_single`: total, sound and complete over well-formed entries.
use porcupine_rust.Base.{
  ℕ, suc, ◌+◌, ◌*◌, ◌/◌, ◌≤◌, ◌<◌, ◌≡◌, refl, subst, ap, ◌∙◌, sym, arith, some, List, [], ◌∷◌, Bool,
  true, false, inl, inr, ◌⊎◌, length, replicate,
}
use porcupine_rust.Model.{Model, EqIsSound}
use porcupine_rust.Entry.{Entry}
use porcupine_rust.Entry.Paired
use porcupine_rust.Arena.{NodeArena, no_ref, from_entries}
use porcupine_rust.Arena.Live.{Slot, Live}
use porcupine_rust.Arena.Build.{return_table, from_entries-Live}
use porcupine_rust.Arena.Tables.{IdsBelow, slots, length-replicate}
use porcupine_rust.Checker.{returned, check_single, search}
use porcupine_rust.Checker.Remaining.{All}
use porcupine_rust.Checker.Load.{slots-IsPaired}
use porcupine_rust.Checker.Order.{Orders, done}
use porcupine_rust.Checker.Explore.{never}
use porcupine_rust.Checker.Verdict.{enough_fuel, Decision, search-decides, search-kill}

-- What `check_single` needs of its entries: each operation has one call and then one return, its
-- id is below the number of operations, and node indices fit 32 bits.
pub record IsHistory {I O : Type 0} (l : List (Entry I O)) : Type 0 where
  pub paired : Paired.IsPaired l
  pub ids : Paired.All (λ e. e.id < length l / 2) l
  pub even : length l ≡ 2 * (length l / 2)
  pub fits : length l < no_ref

module _ {S I O : Type 0} (m : Model S I O) where
  -- The live list with which the search starts.
  abbrev pub entries_of : List (Entry I O) → List (Slot I O)
  entries_of l = slots 1 (return_table l) l

  slots-ids :
      (i n : ℕ) (t : List ℕ) (l : List (Entry I O))
      → Paired.All (λ e. e.id < n) l
      → All (λ s. s.id < n) (slots i t l)
  unfolding slots
  slots-ids i n t [] h = tt
  slots-ids i n t (e ∷ l) h = (h.0, slots-ids (suc i) n t l h.1)

  length-slots : (i : ℕ) (t : List ℕ) (l : List (Entry I O)) → length (slots i t l) ≡ length l
  unfolding slots
  length-slots i t [] = refl
  length-slots i t (e ∷ l) = ap suc (length-slots (suc i) t l)

  check_single-search :
      (kill : ℕ → Bool) (fuel : ℕ) (e : Entry I O) (l : List (Entry I O)) {a : _}
      → from_entries (e ∷ l) ≡ some a
      → check_single m kill fuel (e ∷ l) ≡ search m kill fuel (length (e ∷ l) / 2) a
  unfolding check_single
  check_single-search kill fuel e l eq = rw (eq, check_single) refl

  -- The arena of a nonempty history, and what the search over it decides.
  record Loaded (e : Entry I O) (l : List (Entry I O)) : Type 0 where
    arena : NodeArena I O
    loads : from_entries (e ∷ l) ≡ some arena
    live : Live arena (entries_of (e ∷ l))
    decides :
        EqIsSound m
        → (fuel : ℕ) → enough_fuel (length (e ∷ l) / 2) ≤ fuel
        → Decision m fuel (length (e ∷ l) / 2) arena (entries_of (e ∷ l))

  load : (e : Entry I O) (l : List (Entry I O)) → IsHistory (e ∷ l) → Loaded e l
  load e l h =
      let n = length (e ∷ l) / 2 in
      let (a, loads, live) = from_entries-Live (e ∷ l) h.ids h.fits in
      let table = replicate {A = ℕ} n no_ref in
      let paired =
        slots-IsPaired 0 (e ∷ l) table (return_table (e ∷ l)) refl h.paired
          (subst (λ k. IdsBelow k (e ∷ l)) (sym (length-replicate n no_ref)) h.ids)
          (omega (arith, h.fits)) in
      record {
        arena = a;
        loads = loads;
        live = live;
        decides = λ sound fuel enough.
            search-decides m sound a (entries_of (e ∷ l)) n fuel live paired
              (slots-ids 1 n (return_table (e ∷ l)) (e ∷ l) h.ids)
              (omega (arith, h.even, length-slots 1 (return_table (e ∷ l)) (e ∷ l))) enough;
      }

  no_entries : Orders m m.init (entries_of [])
  unfolding slots
  no_entries = done m.init

  -- For sound equality of states, a history, enough fuel and a kill flag that is never set:
  -- `check_single` returns true and there is an order of the entries, or it returns false and there
  -- is none.
  pub check_single-decides :
      EqIsSound m
      → (l : List (Entry I O)) (fuel : ℕ) → IsHistory l
      → enough_fuel (length l / 2) ≤ fuel
      → ((check_single m never fuel l ≡ returned true) × Orders m m.init (entries_of l))
        ⊎ ((check_single m never fuel l ≡ returned false) × ¬ Orders m m.init (entries_of l))
  unfolding check_single
  check_single-decides sound [] fuel h enough = inl (refl, no_entries)
  check_single-decides sound (e ∷ l) fuel h enough =
      let x = load e l h in
      by_decision (check_single-search never fuel e l x.loads) (x.decides sound fuel enough)
    where
      by_decision :
          {a : NodeArena I O}
          → check_single m never fuel (e ∷ l) ≡ search m never fuel (length (e ∷ l) / 2) a
          → Decision m fuel (length (e ∷ l) / 2) a (entries_of (e ∷ l))
          → ((check_single m never fuel (e ∷ l) ≡ returned true)
              × Orders m m.init (entries_of (e ∷ l)))
            ⊎ ((check_single m never fuel (e ∷ l) ≡ returned false)
                × ¬ Orders m m.init (entries_of (e ∷ l)))
      by_decision eq (Decision.linearizable r o) = inl (eq ∙ r, o)
      by_decision eq (Decision.illegal r o) = inr (eq ∙ r, o)

  -- For sound equality of states and a history, whatever other threads do to the kill flag, and
  -- whatever the fuel: when `check_single` returns true, there is an order.
  pub check_single_sound :
      EqIsSound m
      → (kill : ℕ → Bool) (fuel : ℕ) (l : List (Entry I O)) → IsHistory l
      → check_single m kill fuel l ≡ returned true
      → Orders m m.init (entries_of l)
  check_single_sound sound kill fuel [] h e = no_entries
  check_single_sound sound kill fuel (e ∷ l) h eq =
      let x = load e l h in
      let n = length (e ∷ l) / 2 in
      let more = enough_fuel n in
      let at =
        search-kill m sound kill x.arena (entries_of (e ∷ l)) n fuel more x.live
          (sym (check_single-search kill fuel e l x.loads) ∙ eq) in
      by_decision at (x.decides sound (fuel + more) (omega arith))
    where
      by_decision :
          {a : NodeArena I O} {k : ℕ}
          → search m never k (length (e ∷ l) / 2) a ≡ returned true
          → Decision m k (length (e ∷ l) / 2) a (entries_of (e ∷ l))
          → Orders m m.init (entries_of (e ∷ l))
      by_decision at (Decision.linearizable r o) = o
      by_decision at (Decision.illegal r o) = absurd (cc)
