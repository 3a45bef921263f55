-- ===== src/Checker/History.antt =====
-- `check_single` on the entries of a history decides whether the history is linearizable.
use porcupine_rust.Base.{
  ℕ, ◌*◌, ◌/◌, ◌≤◌, ◌<◌, ◌≡◌, sym, subst, arith, List, Bool, true, false, inl, inr, ◌⊎◌, length,
}
use porcupine_rust.Types.{Operation}
use porcupine_rust.Model.{Model, EqIsSound}
use porcupine_rust.Arena.{no_ref}
use porcupine_rust.Entries.{make_entries}
use porcupine_rust.Entries.Histories.{IsWellFormed, length-sorted, make_entries-IsHistory}
use porcupine_rust.Checker.{returned, check_single}
use porcupine_rust.Checker.Order.{Orders}
use porcupine_rust.Checker.Explore.{never}
use porcupine_rust.Checker.Verdict.{enough_fuel}
use porcupine_rust.Checker.Correct.{entries_of, check_single-decides, check_single_sound}
use porcupine_rust.Checker.Linearizable.{Linearizable}
use porcupine_rust.Checker.Numbered.{numbered, map-numbered}
use porcupine_rust.Checker.Bridge.{Orders-Linearizable, Linearizable-Orders}
use porcupine_rust.Checker.Initial.{Covers-make_entries}

module _ {S I O : Type 0} (m : Model S I O) where
  half_length : (ops : List (Operation I O)) → length (make_entries ops) / 2 ≡ length ops
  unfolding make_entries
  half_length ops = omega (arith, length-sorted 0 ops)

  pub to_history :
      (ops : List (Operation I O))
      → IsWellFormed ops
      → 2 * length ops < no_ref
      → Orders m m.init (entries_of m (make_entries ops))
      → Linearizable m m.init ops
  to_history ops h fits o = subst (Linearizable m m.init) (map-numbered 0 ops) (
      Orders-Linearizable m (numbered 0 ops)
        (Covers-make_entries ops (make_entries-IsHistory ops h fits)) o)

  pub of_history :
      (ops : List (Operation I O))
      → IsWellFormed ops
      → 2 * length ops < no_ref
      → Linearizable m m.init ops
      → Orders m m.init (entries_of m (make_entries ops))
  of_history ops h fits o =
      Linearizable-Orders m (entries_of m (make_entries ops)) (numbered 0 ops)
        (Covers-make_entries ops (make_entries-IsHistory ops h fits)) (map-numbered 0 ops) o

  -- For sound equality of states, operations that return at their call's time or later and are few
  -- enough for 32-bit indices, enough fuel and a kill flag that is never set: `check_single` on the
  -- entries returns true and the operations are linearizable, or it returns false and they are not.
  pub check_single-make_entries :
      EqIsSound m
      → (ops : List (Operation I O)) (fuel : ℕ) → IsWellFormed ops
      → 2 * length ops < no_ref
      → enough_fuel (length ops) ≤ fuel
      → ((check_single m never fuel (make_entries ops) ≡ returned true) × Linearizable m m.init ops)
        ⊎ ((check_single m never fuel (make_entries ops) ≡ returned false)
            × ¬ Linearizable m m.init ops)
  check_single-make_entries sound ops fuel h fits enough =
      elim (check_single-decides m sound (make_entries ops) fuel (make_entries-IsHistory ops h fits)
        (subst (λ n. enough_fuel n ≤ fuel) (sym (half_length ops)) enough)) [
          | inl (r, o) ↦ inl (r, to_history ops h fits o)
          | inr (r, o) ↦ inr (r, λ lin. o (of_history ops h fits lin))
        ]

  -- For sound equality of states and operations that return at their call's time or later, few
  -- enough for 32-bit indices, whatever the kill flag reads and whatever the fuel: where
  -- `check_single` on the entries returns true, the operations are linearizable.
  pub check_single-make_entries_sound :
      EqIsSound m
      → (kill : ℕ → Bool) (fuel : ℕ) (ops : List (Operation I O)) → IsWellFormed ops
      → 2 * length ops < no_ref
      → check_single m kill fuel (make_entries ops) ≡ returned true
      → Linearizable m m.init ops
  check_single-make_entries_sound sound kill fuel ops h fits r = to_history ops h fits (
      check_single_sound m sound kill fuel (make_entries ops) (make_entries-IsHistory ops h fits) r)
