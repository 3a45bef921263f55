-- ===== src/Checks/Events/Pairing.antt =====
-- Where `assert_well_formed_events` of src/invariants.rs passes, calls and returns are paired.
use porcupine_rust.Base.{
  both, ℕ, suc, ◌<◌, ◌≤◌, ◌≡◌, refl, sym, ◌∙◌, arith, true, false, Option, none, some, List, [],
  inl, inr, Option-cases, ◌&&◌,
}
use porcupine_rust.Base.Do.{not_none, some_inj}
use porcupine_rust.Types.{Event}
use porcupine_rust.Entries.{IdMap, find_id}
use porcupine_rust.Entries.Renumber.{fresh_id}
use porcupine_rust.Assertions.{calls_return, returns_called, scan_events, assert_well_formed_events}
use porcupine_rust.Checks.Events.{Paired, ends, calls, returns}
use porcupine_rust.Checks.Events.Maps.{
  Before, Before-cons, Before-suc, Knows, Knows-call, Map, calls_return_lem, find_here,
  returns_called_lem,
}
use porcupine_rust.Checks.Events.Scan.{
  Scans, keep_call, keep_return, later_call, one_return, scan_events-Scans, sees_call, sees_return,
  stops,
}

module _ {I O : Type 0} where
  module _ (c r : Map)
      (returned : (k v : ℕ) → find_id k c ≡ some v → (w : ℕ) × (find_id k r ≡ some w) × (v < w))
      (called : (k w : ℕ) → find_id k r ≡ some w → (v : ℕ) × (find_id k c ≡ some v)) where
    -- A return is not noted before its call.
    not_returned :
        (k pos : ℕ) {next : ℕ} {events : List (Event I O)} {cp rp : Map}
        → Scans c r next events cp rp
        → find_id k cp ≡ some pos
        → Before pos rp
        → find_id k rp ≡ none
    not_returned k pos {rp = rp} s h before = elim (Option-cases (find_id k rp)) [
      | inl n ↦ n
      | inr (w, e) ↦
          let (u, at, lt) = returned k pos (keep_call c r k pos s h) in
          let same : w ≡ u = some_inj (sym (keep_return c r k w s e) ∙ at) in
          let less : w < pos = before k w e in absurd (omega arith)
    ]

    -- A return has its call before it.
    call_known :
        (k pos : ℕ) {events : List (Event I O)} {cp rp : Map}
        → Scans c r (suc pos) events cp rp
        → find_id k rp ≡ some pos
        → (v : ℕ) × (find_id k cp ≡ some v)
    call_known k pos {cp = cp} s h = elim (Option-cases (find_id k cp)) [
      | inl n ↦
          let end = keep_return c r k pos s h in
          let (v, is) = called k pos end in
          let (w, at, lt) = returned k v is in
          let same : w ≡ pos = some_inj (sym at ∙ end) in
          let le : suc pos ≤ v = later_call c r k v s n is in absurd (omega arith)
      | inr found ↦ found
    ]

    Scans-Paired :
        {pos : ℕ} {events : List (Event I O)} {cp rp : Map} (m : IdMap)
        → Scans c r pos events cp rp
        → Before pos cp
        → Before pos rp
        → Knows m cp
        → Paired m events
    Scans-Paired m stops bc br h = ends
    Scans-Paired {pos = pos} {cp = cp} {rp = rp} m (sees_call {ev = ev} i x y n s) bc br h =
        let here = find_here ev.id pos cp in
        let (w, at, lt) = returned ev.id pos (keep_call c r ev.id pos s here) in
        let fresh = not_returned ev.id pos s here br in
        let (t, o, one, kind, out) = one_return c r ev.id pos w s here fresh at in
        calls i o x y (h.unknown ev.id n) one kind out (
          Scans-Paired (fresh_id m ev.id) s (Before-cons pos ev.id cp bc) (Before-suc pos rp br)
            (Knows-call m cp ev.id pos h))
    Scans-Paired {pos = pos} {cp = cp} {rp = rp} m (sees_return {ev = ev} o x y n s) bc br h =
        let (v, is) = call_known ev.id pos s (find_here ev.id pos rp) in
        let (w, known) = h.known ev.id v is in
        returns o w x y known
          (Scans-Paired m s (Before-suc pos cp bc) (Before-cons pos ev.id rp br) h)

  -- Where the assertion passes, calls and returns are paired.
  pub assert_well_formed_events-Paired :
      (events : List (Event I O))
      → assert_well_formed_events events ≡ true
      → Paired (record { ids = []; next_id = 0 }) events
  unfolding find_id assert_well_formed_events
  assert_well_formed_events-Paired events h = by_scan (scan_events 0 events [] []) refl h
    where
      by_scan :
          (o : Option (Map × Map))
          → scan_events 0 events [] [] ≡ o
          → elim o [ none ↦ false | some (c, r) ↦ calls_return c r && returns_called r c ] ≡ true
          → Paired (record { ids = []; next_id = 0 }) events
      by_scan none e h = absurd (cc)
      by_scan (some (c, r)) e h =
          let (out, back) = both (calls_return c r) (returns_called r c) h in
          Scans-Paired c r (λ k v. calls_return_lem c r k v out)
            (λ k w. returns_called_lem r c k w back) (record { ids = []; next_id = 0 })
            (scan_events-Scans 0 events [] [] c r e) (λ k v g. absurd (not_none g))
            (λ k v g. absurd (not_none g))
            (record { known = λ k v g. absurd (not_none g); unknown = λ k g. refl })
