-- ===== src/Suite.antt =====
-- The unit tests of src/checker.rs, run on the model: their register, their helpers, and a run of a
-- check. The numbers of the tests are natural numbers, since none of them is negative.
mod Entries
mod Arena
mod Operations
mod Events
mod KvModel
mod Keys
mod Slow
mod Partitions
mod Bitset
mod Results
use porcupine_rust.Base.{
  ℕ, zero, suc, Bool, true, false, Option, none, some, List, ◌==◌, if◌then◌else◌, get_elem?,
}
use porcupine_rust.Base.Do.{◌>>=◌}
use porcupine_rust.Types.{CheckResult, Operation, EventKind, Event}
use porcupine_rust.Model.{Model}
use porcupine_rust.Entry.{Entry}
use porcupine_rust.Parallel.{Sorts, System, answered, main_step, work_step}
use porcupine_rust.Checks.{check_operations, check_events}

pub record RegInput : Type 0 where
  pub is_write : Bool
  pub value : ℕ

-- Writes are always valid, and reads observe the register.
abbrev pub reg_step : ℕ → RegInput → ℕ → Option ℕ
reg_step state input output =
    if input.is_write then some input.value else if output == state then some state else none

abbrev pub reg : Model ℕ RegInput ℕ
reg = record {
  init = 0;
  step = reg_step;
  partition = λ history. none;
  partition_events = λ history. none;
  state_eq = ◌==◌;
}

abbrev pub write : ℕ → RegInput
write v = record { is_write = true; value = v }

abbrev pub read : RegInput
read = record { is_write = false; value = 0 }

abbrev pub op : ℕ → RegInput → ℕ → ℕ → ℕ → Operation RegInput ℕ
op id input output call ret = record {
  client_id = id;
  input = input;
  call = call;
  output = output;
  return_time = ret;
}

abbrev pub event : {I O : Type 0} → ℕ → EventKind → Option I → Option O → ℕ → Event I O
event client_id kind input output id = record {
  client_id = client_id;
  kind = kind;
  input = input;
  output = output;
  id = id;
}

abbrev pub call_ev : ℕ → RegInput → Event RegInput ℕ
call_ev id input = event id EventKind.call (some input) none id

abbrev pub ret_ev : ℕ → ℕ → Event RegInput ℕ
ret_ev id output = event id EventKind.return none (some output) id

-- An assertion on the element at an index; a panic where there is none.
abbrev pub at_index : {A : Type 0} → List A → ℕ → (A → Bool) → Bool
at_index l i test = elim (get_elem? l i) [ none ↦ false | some x ↦ test x ]

-- No panic, and the assertions hold.
abbrev pub passed : Option Bool → Bool
passed none = false
passed (some b) = b

-- `assert_eq!` on an answer; `none` is a check that panics.
abbrev pub is_result : CheckResult → Option CheckResult → Bool
is_result CheckResult.ok (some CheckResult.ok) = true
is_result CheckResult.illegal (some CheckResult.illegal) = true
is_result CheckResult.unknown (some CheckResult.unknown) = true
is_result expected r = false

-- Partitions of one length stay in their order.
abbrev as_given : {P : Type 0} → Sorts P
as_given = record {
  by_len = λ l. l;
  by_reverse_len = λ l. l;
  by_len_mem = λ l p. (λ h. h, λ h. h);
  by_reverse_len_mem = λ l p. (λ h. h, λ h. h);
}

module _ {S I O : Type 0} (m : Model S I O) where
  -- The run of a check of few operations in which the wait of the timer does not end: the calling
  -- thread goes on where it can, and else the partition in hand is worked on.
  unfoldable pub settle : ℕ → System S I O → Option CheckResult
  unfolding main_step work_step
  settle zero s = none
  settle (suc n) s = elim s.phase [
    | answered r ↦ some r
    | _ ↦ elim (main_step s) [
      | some s' ↦ settle n s'
      | none ↦ elim (work_step m 0 true s) [ some s' ↦ settle n s' | none ↦ none ]
    ]
  ]

  abbrev pub run_operations : Bool → List (Operation I O) → Option CheckResult
  run_operations timeout history = check_operations m true as_given timeout history >>= settle 100

  abbrev pub run_events : Bool → List (Event I O) → Option CheckResult
  run_events timeout events = check_events m true as_given timeout events >>= settle 100

  -- `assert_eq!(check_operations(&m, &history, timeout), expected)`
  abbrev pub answers_operations : Bool → List (Operation I O) → CheckResult → Bool
  answers_operations timeout history expected = is_result expected (run_operations timeout history)

  -- `assert_eq!(check_events(&m, &events, timeout), expected)`
  abbrev pub answers_events : Bool → List (Event I O) → CheckResult → Bool
  answers_events timeout events expected = is_result expected (run_events timeout events)
