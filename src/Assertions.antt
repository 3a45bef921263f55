-- ===== src/Assertions.antt =====
-- Assertions of src/invariants.rs on histories, in a build with debug assertions: `false` or `none`
-- is an assertion that fails.
use mathlib.Core.List.{Memᴰ}
use mathlib.Core.List.Memᴰ
use porcupine_rust.Base.{
  ◌<◌, ◌||◌, not, subst, sym, ℕ, suc, ◌≤◌, ◌≡◌, refl, arith, Bool, true, false, ◌&&◌, Option, none,
  some, List, [], ◌∷◌, ◌==◌, if◌then◌else◌, length, get_elem?, leb, ltb, ◌↔◌,
}
use porcupine_rust.Base.Do.{◌>>=◌}
use porcupine_rust.Types.{Operation, EventKind, Event}
use porcupine_rust.Entries.{find_id}
use porcupine_rust.Entries.Histories.{IsWellFormed}
use porcupine_rust.Partitions.{Owners, scan_partition_covering}

-- `insert(…).is_none()`
abbrev pub insert_new : ℕ → ℕ → List (ℕ × ℕ) → Option (List (ℕ × ℕ))
insert_new id pos map = elim (find_id id map) [ none ↦ some ((id, pos) ∷ map) | some old ↦ none ]

-- Each call has its return after it.
abbrev pub calls_return : List (ℕ × ℕ) → List (ℕ × ℕ) → Bool
calls_return [] return_pos = true
calls_return ((id, c_pos) ∷ call_pos) return_pos =
    (elim (find_id id return_pos) [ none ↦ false | some r_pos ↦ ltb c_pos r_pos ])
    && calls_return call_pos return_pos

-- Each return has its call.
abbrev pub returns_called : List (ℕ × ℕ) → List (ℕ × ℕ) → Bool
returns_called [] call_pos = true
returns_called ((id, r_pos) ∷ return_pos) call_pos =
    (elim (find_id id call_pos) [ none ↦ false | some c_pos ↦ true ])
    && returns_called return_pos call_pos

-- `contains`
abbrev pub contains_id : ℕ → List ℕ → Bool
contains_id id [] = false
contains_id id (x ∷ ids) = id == x || contains_id id ids

-- The states of a cache hit are compared.
abbrev pub assert_cache_sound : {S : Type 0} → (S → S → Bool) → S → S → Bool
assert_cache_sound state_eq cached_state current_state = state_eq cached_state current_state

module _ {I O : Type 0} where
  -- No other operation that is not linearized was called before `op`.
  unfoldable pub assert_minimal_call : Operation I O → List (Operation I O) → List ℕ → Bool
  assert_minimal_call op [] linearized_ids = true
  assert_minimal_call op (other ∷ all_ops) linearized_ids =
      (if not (contains_id other.client_id linearized_ids) && not (other.client_id == op.client_id)
        then leb op.call other.call
        else true)
      && assert_minimal_call op all_ops linearized_ids

  unfoldable pub assert_well_formed : List (Operation I O) → Bool
  assert_well_formed [] = true
  assert_well_formed (op ∷ ops) = leb op.call op.return_time && assert_well_formed ops

  -- One event: a call notes its partition, and a return compares with it.
  unfoldable pub pair_event : ℕ → Event I O → List (ℕ × ℕ) → Option (List (ℕ × ℕ))
  pair_event part ev call_part = elim ev.kind [
    | EventKind.call ↦ some ((ev.id, part) ∷ call_part)
    | EventKind.return ↦ elim (find_id ev.id call_part) [
      | none ↦ some call_part
      | some cpart ↦ if cpart == part then some call_part else none
    ]
  ]

  -- The loop over the history, from position `pos` on; `expect` panics where no partition is noted.
  unfoldable pub pair_events : Owners → ℕ → List (Event I O) → List (ℕ × ℕ) → Option (List (ℕ × ℕ))
  unfolding pair_event
  pair_events idx_to_part pos [] call_part = some call_part
  pair_events idx_to_part pos (ev ∷ events) call_part = do
    owner ← get_elem? idx_to_part pos
    part ← owner
    call_part' ← pair_event part ev call_part
    pair_events idx_to_part (suc pos) events call_part'

  -- Whether the assertions pass; at the end the noted partitions.
  unfoldable pub assert_partition_events_paired :
      List (List ℕ) → List (Event I O) → Option (List (ℕ × ℕ))
  unfolding pair_events scan_partition_covering
  assert_partition_events_paired partitions history = do
    idx_to_part ← scan_partition_covering partitions (length history)
    pair_events idx_to_part 0 history []

  -- The loop over the events, from position `pos` on, with the positions of calls and returns.
  unfoldable pub scan_events :
      ℕ → List (Event I O) → List (ℕ × ℕ) → List (ℕ × ℕ) → Option (List (ℕ × ℕ) × List (ℕ × ℕ))
  scan_events pos [] call_pos return_pos = some (call_pos, return_pos)
  scan_events pos (ev ∷ events) call_pos return_pos = elim ev.kind [
    | EventKind.call ↦ do
      _ ← ev.input
      call_pos' ← insert_new ev.id pos call_pos
      scan_events (suc pos) events call_pos' return_pos
    | EventKind.return ↦ do
      _ ← ev.output
      return_pos' ← insert_new ev.id pos return_pos
      scan_events (suc pos) events call_pos return_pos'
  ]

  unfoldable pub assert_well_formed_events : List (Event I O) → Bool
  unfolding scan_events
  assert_well_formed_events events = elim (scan_events 0 events [] []) [
    | none ↦ false
    | some (call_pos, return_pos) ↦
        calls_return call_pos return_pos && returns_called return_pos call_pos
  ]

  -- The assertion passes exactly where each operation returns at its call's time or later.
  pub assert_well_formed_iff :
      (ops : List (Operation I O)) → (assert_well_formed ops ≡ true) ↔ IsWellFormed ops
  unfolding assert_well_formed
  assert_well_formed_iff [] = (λ h. tt, λ h. refl)
  assert_well_formed_iff (op ∷ ops) =
      let (to, from) = assert_well_formed_iff ops in
      (
        λ h. (ground arith, to (ground arith)),
        λ h. let le : op.call ≤ op.return_time = h.0 in let rest = from h.1 in ground arith,
      )

  -- Where `op` is a minimal call among well-formed operations, no operation of another client that is
  -- not linearized returned before it was called.
  pub assert_minimal_call-not_before :
      (op : Operation I O) (ops : List (Operation I O)) (linearized_ids : List ℕ)
      → IsWellFormed ops
      → assert_minimal_call op ops linearized_ids ≡ true
      → (q : Operation I O) → Memᴰ q ops
      → contains_id q.client_id linearized_ids ≡ false
      → (q.client_id == op.client_id) ≡ false
      → ¬ (q.return_time < op.call)
  unfolding assert_minimal_call
  assert_minimal_call-not_before op [] ids h min q at n d = absurd (Memᴰ.not-nil at)
  assert_minimal_call-not_before op (x ∷ ops) ids h min q (Memᴰ.head e) n d =
      let le : x.call ≤ x.return_time = h.0 in
      let n' : contains_id x.client_id ids ≡ false =
        subst (λ t. contains_id t.client_id ids ≡ false) e n in
      let d' : (x.client_id == op.client_id) ≡ false =
        subst (λ t. (t.client_id == op.client_id) ≡ false) e d in
      subst (λ t. ¬ (t.return_time < op.call)) (sym e) (λ lt. ground arith)
  assert_minimal_call-not_before op (x ∷ ops) ids h min q (Memᴰ.tail at) n d =
      assert_minimal_call-not_before op ops ids h.1 (ground arith) q at n d
