-- ===== src/Suite/Entries.antt =====
-- The unit tests of make_entries, renumber and convert_entries in src/checker.rs.
use porcupine_rust.Base.{
  ℕ, ◌+◌, ◌-◌, ◌^◌, ◌≡◌, refl, Bool, true, false, not, ◌&&◌, none, some, List, [], ◌∷◌, map, ◌==◌,
  ltb, length, replicate,
}
use porcupine_rust.Types.{EventKind, Event}
use porcupine_rust.Entry.{Entry, is_call, is_return}
use porcupine_rust.Entries.{make_entries, renumber, convert_entries}
use porcupine_rust.Suite.{RegInput, write, read, op, event, call_ev, ret_ev, at_index}

-- `assert_eq!` on arrays of numbers.
abbrev numbers_eq : List ℕ → List ℕ → Bool
numbers_eq [] [] = true
numbers_eq (x ∷ xs) (y ∷ ys) = x == y && numbers_eq xs ys
numbers_eq xs ys = false

-- An assertion on the elements at two indices.
abbrev at_both : {A : Type 0} → List A → ℕ → ℕ → (A → A → Bool) → Bool
at_both l i j test = at_index l i (λ x. at_index l j (test x))

abbrev ids_of : List (Event RegInput ℕ) → List ℕ
ids_of events = map (λ ev. ev.id) events

abbrev is_call_event : Event RegInput ℕ → Bool
is_call_event ev = elim ev.kind [ EventKind.call ↦ true | EventKind.return ↦ false ]

abbrev make_entries_empty_produces_no_entries : Bool
make_entries_empty_produces_no_entries = length (make_entries {I = RegInput} {O = ℕ} []) == 0

abbrev make_entries_single_op_produces_two_entries : Bool
make_entries_single_op_produces_two_entries =
    let entries = make_entries (op 0 (write 1) 0 5 15 ∷ []) in
    length entries == 2
    && at_index entries 0 (λ e. is_call e.value && e.time == 5 && e.id == 0)
    && at_index entries 1 (λ e. is_return e.value && e.time == 15 && e.id == 0)

abbrev make_entries_call_before_return_at_equal_timestamps : Bool
make_entries_call_before_return_at_equal_timestamps =
    at_index (make_entries (op 0 (write 1) 0 10 10 ∷ [])) 0 (λ e. is_call e.value)

abbrev make_entries_time_sorted_across_two_ops : Bool
make_entries_time_sorted_across_two_ops =
    let entries = make_entries (op 0 (write 1) 0 5 15 ∷ op 1 (write 2) 0 0 10 ∷ []) in
    length entries == 4
    && numbers_eq (map (λ e. e.time) entries) (0 ∷ 5 ∷ 10 ∷ 15 ∷ [])
    && at_index entries 0 (λ e. is_call e.value)
    && at_index entries 1 (λ e. is_call e.value)
    && at_index entries 2 (λ e. is_return e.value)
    && at_index entries 3 (λ e. is_return e.value)

abbrev make_entries_large_timestamps_do_not_overflow : Bool
make_entries_large_timestamps_do_not_overflow =
    let t = 2 ^ 64 - 1 - 10 in
    let entries =
      make_entries (op 0 (write 1) 0 t (t + 5) ∷ op 1 (write 2) 0 (t + 1) (t + 6) ∷ []) in
    at_index entries 0 (λ e. e.id == 0)
    && at_index entries 1 (λ e. e.id == 1)
    && at_both entries 0 1 (λ a b. ltb a.time b.time)
    && at_both entries 1 2 (λ a b. ltb a.time b.time)
    && at_both entries 2 3 (λ a b. ltb a.time b.time)

abbrev renumber_empty_produces_empty : Bool
renumber_empty_produces_empty = length (renumber {I = RegInput} {O = ℕ} []) == 0

abbrev renumber_contiguous_ids_are_unchanged : Bool
renumber_contiguous_ids_are_unchanged =
    let events = call_ev 0 (write 1) ∷ ret_ev 0 0 ∷ call_ev 1 read ∷ ret_ev 1 0 ∷ [] in
    numbers_eq (ids_of (renumber events)) (0 ∷ 0 ∷ 1 ∷ 1 ∷ [])

abbrev renumber_noncontiguous_ids_become_0_based : Bool
renumber_noncontiguous_ids_become_0_based =
    let events : List (Event RegInput ℕ) =
      event 0 EventKind.call (some (write 5)) none 100
      ∷ event 0 EventKind.return none (some 0) 100
      ∷ event 1 EventKind.call (some read) none 999
      ∷ event 1 EventKind.return none (some 5) 999
      ∷ [] in
    let out = renumber events in
    at_both out 0 1 (λ a b. a.id == b.id)
    && at_both out 2 3 (λ a b. a.id == b.id)
    && at_both out 0 2 (λ a b. not (a.id == b.id) && ltb a.id 2 && ltb b.id 2)

abbrev renumber_preserves_event_kind_and_payload : Bool
renumber_preserves_event_kind_and_payload =
    let out = renumber (call_ev 7 (write 42) ∷ ret_ev 7 0 ∷ []) in
    length out == 2
    && at_index out 0 is_call_event
    && at_index out 1 (λ ev. not (is_call_event ev))
    && at_both out 0 1 (λ a b. a.id == b.id)

-- An assertion on the entries of a call and a return of one operation.
abbrev converted : (List (Entry RegInput ℕ) → Bool) → Bool
converted test = elim (convert_entries (call_ev 0 (write 1) ∷ ret_ev 0 0 ∷ [])) [
  | none ↦ false
  | some entries ↦ test entries
]

abbrev convert_entries_uses_slice_index_as_time : Bool
convert_entries_uses_slice_index_as_time =
    converted
      (λ entries. at_index entries 0 (λ e. e.time == 0) && at_index entries 1 (λ e. e.time == 1))

abbrev convert_entries_maps_kinds_and_ids_correctly : Bool
convert_entries_maps_kinds_and_ids_correctly = converted (λ entries.
    at_index entries 0 (λ e. is_call e.value && e.id == 0)
    && at_index entries 1 (λ e. is_return e.value && e.id == 0))

-- All of them pass.
conversions_pass :
    (make_entries_empty_produces_no_entries ∷ make_entries_single_op_produces_two_entries
      ∷ make_entries_call_before_return_at_equal_timestamps
      ∷ make_entries_time_sorted_across_two_ops ∷ make_entries_large_timestamps_do_not_overflow
      ∷ renumber_empty_produces_empty ∷ renumber_contiguous_ids_are_unchanged
      ∷ renumber_noncontiguous_ids_become_0_based ∷ renumber_preserves_event_kind_and_payload
      ∷ convert_entries_uses_slice_index_as_time ∷ convert_entries_maps_kinds_and_ids_correctly
      ∷ [])
    ≡ replicate 11 true
unfolding make_entries renumber convert_entries
conversions_pass = refl
