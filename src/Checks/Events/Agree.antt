-- ===== src/Checks/Events/Agree.antt =====
-- `check_events` of src/checker.rs does what `check_operations` does on the operations of its events.
use porcupine_rust.Base.{
  ℕ, suc, ◌≤◌, ◌≡◌, refl, sym, ◌∙◌, subst, ap, arith, true, none, some, List, [], ◌∷◌, length,
}
use porcupine_rust.Types.{Operation, EventKind, Event}
use porcupine_rust.Entry.{Entry, call, return}
use porcupine_rust.Entries.{
  IdMap, find_id, insert, sort_entries, push_entries, make_entries, renumber, convert_entries,
  event_value,
}
use porcupine_rust.Entries.Histories.{IsWellFormed}
use porcupine_rust.Entries.Renumber.{
  IsNumbering, fresh_id, find_fresh_self, next_fresh, IsNumbering-fresh_id, IsNumbering-empty,
}
use porcupine_rust.Assertions.{assert_well_formed_events}
use porcupine_rust.Checks.Events.{
  with_id, find_return, operations_from, operations_of, Paired, ends, calls, returns,
}
use porcupine_rust.Checks.Events.Pairing.{assert_well_formed_events-Paired}
use porcupine_rust.Checks.Events.Converts.{
  keep, Converts, no_more, known, fresh, Converts-convert_from, keep_in, keep_out, insert_front,
}
use porcupine_rust.Checks.Events.Merge.{insert_return, return_of}

module _ {I O : Type 0} where
  record Merged (m : IdMap) (pos : ℕ) (events : List (Event I O)) : Type 0 where
    entries : List (Entry I O)
    converts : Converts m pos events entries
    ops : List (Operation I O)
    are : operations_from pos events ≡ some ops
    formed : IsWellFormed ops
    sorted : sort_entries (push_entries m.next_id ops) ≡ keep m.next_id entries
    count : length entries ≡ length events

  call_value :
      (ev : Event I O) (i : I)
      → ev.kind ≡ EventKind.call
      → ev.input ≡ some i
      → event_value ev ≡ some (call i)
  unfolding event_value
  call_value ev i kind inp = rw (kind, inp) refl

  return_value :
      (ev : Event I O) (o : O)
      → ev.kind ≡ EventKind.return
      → ev.output ≡ some o
      → event_value ev ≡ some (return o)
  unfolding event_value
  return_value ev o kind out = rw (kind, out) refl

  Merged-nil : (m : IdMap) (pos : ℕ) → Merged m pos []
  unfolding operations_from sort_entries push_entries keep
  Merged-nil m pos = record {
    entries = [];
    converts = no_more;
    ops = [];
    are = refl;
    formed = tt;
    sorted = refl;
    count = refl;
  }

  pub operations_return :
      (pos : ℕ) (ev : Event I O) (events : List (Event I O))
      → ev.kind ≡ EventKind.return
      → operations_from pos (ev ∷ events) ≡ operations_from (suc pos) events
  unfolding operations_from
  operations_return pos ev events kind = rw kind refl

  Merged-return :
      (m : IdMap) (pos : ℕ) (ev : Event I O) (events : List (Event I O)) (o : O) (v : ℕ)
      → IsNumbering m
      → ev.kind ≡ EventKind.return
      → ev.output ≡ some o
      → find_id ev.id m.ids ≡ some v
      → Merged m (suc pos) events
      → Merged m pos (ev ∷ events)
  Merged-return m pos ev events o v num kind out f h =
      let x : Entry I O = record { id = v; time = pos; value = return o } in
      record {
        entries = x ∷ h.entries;
        converts = known v (return o) f (return_value ev o kind out) h.converts;
        ops = h.ops;
        are = operations_return pos ev events kind ∙ h.are;
        formed = h.formed;
        sorted = h.sorted ∙ sym (keep_out m.next_id x h.entries (num.below ev.id v f));
        count = ap suc h.count;
      }

  -- The operation of a call and its return.
  abbrev pub operation : Event I O → I → ℕ → O → ℕ → Operation I O
  operation ev i pos o q = record {
    client_id = ev.client_id;
    input = i;
    call = pos;
    output = o;
    return_time = q;
  }

  pub operations_call :
      (pos q : ℕ) (ev : Event I O) (events : List (Event I O)) (i : I) (o : O)
      (ops : List (Operation I O))
      → ev.kind ≡ EventKind.call
      → ev.input ≡ some i
      → find_return ev.id (suc pos) events ≡ some (q, o)
      → operations_from (suc pos) events ≡ some ops
      → operations_from pos (ev ∷ events) ≡ some (operation ev i pos o q ∷ ops)
  unfolding operations_from
  operations_call pos q ev events i o ops kind inp found are = rw (kind, inp, found, are) refl

  Merged-call :
      (m : IdMap) (pos : ℕ) (ev : Event I O) (events : List (Event I O)) (i : I) (o : O)
      (t : Event I O)
      → IsNumbering m
      → ev.kind ≡ EventKind.call
      → ev.input ≡ some i
      → find_id ev.id m.ids ≡ none
      → with_id ev.id events ≡ t ∷ []
      → t.kind ≡ EventKind.return
      → t.output ≡ some o
      → Merged (fresh_id m ev.id) (suc pos) events
      → Merged m pos (ev ∷ events)
  unfolding sort_entries push_entries
  Merged-call m pos ev events i o t num kind inp f one is_return out h =
      let n = m.next_id in
      let num' = IsNumbering-fresh_id ev.id m f num in
      let r =
        insert_return ev.id n t o is_return out h.converts num' (find_fresh_self ev.id m) one in
      let c : Entry I O = record { id = n; time = pos; value = call i } in
      let op = operation ev i pos o r.at in
      let le : suc pos ≤ r.at = r.after in
      let next : (fresh_id m ev.id).next_id ≡ suc n = next_fresh ev.id m ∙ (omega arith) in
      let inner : sort_entries (push_entries (suc n) h.ops) ≡ keep (suc n) h.entries =
        subst (λ j. sort_entries (push_entries j h.ops) ≡ keep j h.entries) next h.sorted in
      record {
        entries = c ∷ h.entries;
        converts = fresh (call i) f (call_value ev i kind inp) h.converts;
        ops = op ∷ h.ops;
        are = operations_call pos r.at ev events i o h.ops kind inp r.found h.are;
        formed = ((omega arith), h.formed);
        sorted =
            ap (λ l. insert c (insert (return_of n r.at o) l)) inner
            ∙ ap (insert c) r.inserted
            ∙ insert_front n c h.converts (omega arith)
            ∙ sym (keep_in n c h.entries (omega arith));
        count = ap suc h.count;
      }

  Paired-Merged :
      {m : IdMap} {events : List (Event I O)}
      → Paired m events
      → IsNumbering m
      → (pos : ℕ) → Merged m pos events
  Paired-Merged {m = m} ends num pos = Merged-nil m pos
  Paired-Merged {m = m}
        (calls {ev = ev} {r = t} {events = events} i o kind inp f one is_return out h) num pos =
      Merged-call m pos ev events i o t num kind inp f one is_return out
        (Paired-Merged h (IsNumbering-fresh_id ev.id m f num) (suc pos))
  Paired-Merged {m = m} (returns {ev = ev} {events = events} o v kind out f h) num pos =
      Merged-return m pos ev events o v num kind out f (Paired-Merged h num (suc pos))

  keep_all : (l : List (Entry I O)) → keep 0 l ≡ l
  unfolding keep
  keep_all [] = refl
  keep_all (x ∷ l) = keep_in 0 x l (omega arith) ∙ ap (λ t. x ∷ t) (keep_all l)

  -- Paired events hold operations that return later than they are called, and convert to the entries
  -- that `make_entries` gives for these.
  pub Paired-make_entries :
      (events : List (Event I O))
      → Paired (record { ids = []; next_id = 0 }) events
      → (ops : List (Operation I O)) × (operations_of events ≡ some ops)
        × IsWellFormed ops
        × (convert_entries (renumber events) ≡ some (make_entries ops))
        × (length (make_entries ops) ≡ length events)
  unfolding operations_of convert_entries renumber make_entries
  Paired-make_entries events paired =
      let all = Paired-Merged paired IsNumbering-empty 0 in
      let same : make_entries all.ops ≡ all.entries = all.sorted ∙ keep_all all.entries in
      (
        all.ops,
        all.are,
        all.formed,
        Converts-convert_from all.converts ∙ ap some (sym same),
        ap length same ∙ all.count,
      )

  -- Where the assertion passes, each call has a return, the operations return later than they are
  -- called, and the entries of the events are those that `make_entries` gives for the operations.
  pub convert_entries-make_entries :
      (events : List (Event I O))
      → assert_well_formed_events events ≡ true
      → (ops : List (Operation I O)) × (operations_of events ≡ some ops)
        × IsWellFormed ops
        × (convert_entries (renumber events) ≡ some (make_entries ops))
        × (length (make_entries ops) ≡ length events)
  convert_entries-make_entries events h =
      Paired-make_entries events (assert_well_formed_events-Paired events h)
