-- ===== src/Checks/Events/Scan.antt =====
-- What the loop of `assert_well_formed_events` of src/invariants.rs finds out about events.
use porcupine_rust.Base.{
  ℕ, suc, ◌≤◌, ◌≡◌, refl, sym, ◌∙◌, subst, ap, arith, false, none, some, List, [], ◌∷◌, ◌==◌, inl,
  inr, Bool-cases, ==_iff, ==_refl,
}
use porcupine_rust.Base.Do.{◌>>=◌, not_none, some_inj, bind_some}
use porcupine_rust.Types.{EventKind, Event}
use porcupine_rust.Entries.{find_id}
use porcupine_rust.Assertions.{insert_new, scan_events}
use porcupine_rust.Checks.Events.{with_id}
use porcupine_rust.Checks.Events.Maps.{
  Map, find_here, find_kept, find_other, insert_new_lem, kind_cases,
}

module _ {I O : Type 0} where
  -- The loop of the assertion, with the maps at the end as parameters.
  pub data Scans (calls_end returns_end : Map) : ℕ → List (Event I O) → Map → Map → Type 0 where
    stops : {pos : ℕ} → Scans calls_end returns_end pos [] calls_end returns_end
    sees_call :
        {pos : ℕ} {ev : Event I O} {events : List (Event I O)} {cp rp : Map} (i : I)
        → ev.kind ≡ EventKind.call
        → ev.input ≡ some i
        → find_id ev.id cp ≡ none
        → Scans calls_end returns_end (suc pos) events ((ev.id, pos) ∷ cp) rp
        → Scans calls_end returns_end pos (ev ∷ events) cp rp
    sees_return :
        {pos : ℕ} {ev : Event I O} {events : List (Event I O)} {cp rp : Map} (o : O)
        → ev.kind ≡ EventKind.return
        → ev.output ≡ some o
        → find_id ev.id rp ≡ none
        → Scans calls_end returns_end (suc pos) events cp ((ev.id, pos) ∷ rp)
        → Scans calls_end returns_end pos (ev ∷ events) cp rp

  pub scan_call :
      (pos : ℕ) (ev : Event I O) (events : List (Event I O)) (cp rp : Map)
      → ev.kind ≡ EventKind.call
      → scan_events pos (ev ∷ events) cp rp
        ≡ (ev.input >>= λ _. insert_new ev.id pos cp >>= λ cp'. scan_events (suc pos) events cp' rp)
  unfolding scan_events
  scan_call pos ev events cp rp k = rw k refl

  pub scan_return :
      (pos : ℕ) (ev : Event I O) (events : List (Event I O)) (cp rp : Map)
      → ev.kind ≡ EventKind.return
      → scan_events pos (ev ∷ events) cp rp ≡ (
          ev.output >>= λ _. insert_new ev.id pos rp >>= λ rp'. scan_events (suc pos) events cp rp')
  unfolding scan_events
  scan_return pos ev events cp rp k = rw k refl

  pub scan_events-Scans :
      (pos : ℕ) (events : List (Event I O)) (cp rp c r : Map)
      → scan_events pos events cp rp ≡ some (c, r)
      → Scans c r pos events cp rp
  unfolding scan_events
  scan_events-Scans pos [] cp rp c r h =
      let e : cp ≡ c = ap (λ x. x.0) (some_inj h) in
      let f : rp ≡ r = ap (λ x. x.1) (some_inj h) in rw (e, f) stops
  scan_events-Scans pos (ev ∷ events) cp rp c r h = elim (kind_cases ev.kind) [
    | inl k ↦
        let (i, is, h') = bind_some ev.input _ (c, r) (sym (scan_call pos ev events cp rp k) ∙ h) in
        let (cp', e, g) = bind_some (insert_new ev.id pos cp) _ (c, r) h' in
        let (n, same) = insert_new_lem ev.id pos cp cp' e in
        sees_call i k is n (
          subst (λ l. Scans c r (suc pos) events l rp) (sym same)
            (scan_events-Scans (suc pos) events cp' rp c r g))
    | inr k ↦
        let (o, is, h') =
          bind_some ev.output _ (c, r) (sym (scan_return pos ev events cp rp k) ∙ h) in
        let (rp', e, g) = bind_some (insert_new ev.id pos rp) _ (c, r) h' in
        let (n, same) = insert_new_lem ev.id pos rp rp' e in
        sees_return o k is n (
          subst (λ l. Scans c r (suc pos) events cp l) (sym same)
            (scan_events-Scans (suc pos) events cp rp' c r g))
  ]

  pub with_id_here :
      (k : ℕ) (ev : Event I O) (events : List (Event I O))
      → ev.id ≡ k
      → with_id k (ev ∷ events) ≡ ev ∷ with_id k events
  unfolding with_id
  with_id_here k ev events e = rw (e, ==_refl k) refl

  pub with_id_other :
      (k : ℕ) (ev : Event I O) (events : List (Event I O))
      → (ev.id == k) ≡ false
      → with_id k (ev ∷ events) ≡ with_id k events
  unfolding with_id
  with_id_other k ev events n = rw n refl

  pub with_id_nil : (k : ℕ) → Path (List (Event I O)) (with_id k []) []
  unfolding with_id
  with_id_nil k = refl

  module _ (c r : Map) where
    pub keep_call :
        (k v : ℕ) {pos : ℕ} {events : List (Event I O)} {cp rp : Map}
        → Scans c r pos events cp rp
        → find_id k cp ≡ some v
        → find_id k c ≡ some v
    keep_call k v stops h = h
    keep_call k v {pos = pos} {cp = cp} (sees_call {ev = ev} i x y n s) h =
        keep_call k v s (find_kept ev.id k pos v cp n h)
    keep_call k v (sees_return o x y n s) h = keep_call k v s h

    pub keep_return :
        (k v : ℕ) {pos : ℕ} {events : List (Event I O)} {cp rp : Map}
        → Scans c r pos events cp rp
        → find_id k rp ≡ some v
        → find_id k r ≡ some v
    keep_return k v stops h = h
    keep_return k v (sees_call i x y n s) h = keep_return k v s h
    keep_return k v {pos = pos} {rp = rp} (sees_return {ev = ev} o x y n s) h =
        keep_return k v s (find_kept ev.id k pos v rp n h)

    -- A call that is not yet seen comes later.
    pub later_call :
        (k v : ℕ) {pos : ℕ} {events : List (Event I O)} {cp rp : Map}
        → Scans c r pos events cp rp
        → find_id k cp ≡ none
        → find_id k c ≡ some v
        → pos ≤ v
    later_call k v stops n h = absurd (not_none (sym n ∙ h))
    later_call k v {pos = pos} {cp = cp} (sees_call {ev = ev} i x y f s) n h =
        elim (Bool-cases (ev.id == k)) [
          | inl e ↦
              let here : find_id k ((ev.id, pos) ∷ cp) ≡ some pos =
                subst (λ j. find_id j ((ev.id, pos) ∷ cp) ≡ some pos) ((==_iff ev.id k).0 e)
                  (find_here ev.id pos cp) in
              let same : pos ≡ v = some_inj (sym (keep_call k pos s here) ∙ h) in omega arith
          | inr e ↦
              let le : suc pos ≤ v = later_call k v s (find_other ev.id k pos cp e ∙ n) h in
              omega arith
        ]
    later_call k v {pos = pos} (sees_return o x y f s) n h =
        let le : suc pos ≤ v = later_call k v s n h in omega arith

    -- After a call and a return with an id there is none.
    pub no_events :
        (k v w : ℕ) {pos : ℕ} {events : List (Event I O)} {cp rp : Map}
        → Scans c r pos events cp rp
        → find_id k cp ≡ some v
        → find_id k rp ≡ some w
        → with_id k events ≡ []
    no_events k v w stops h g = with_id_nil k
    no_events k v w {pos = pos} {cp = cp} (sees_call {ev = ev} {events = events} i x y n s) h g =
        elim (Bool-cases (ev.id == k)) [
          | inl e ↦
              absurd (
                not_none
                  (sym n ∙ subst (λ j. find_id j cp ≡ some v) (sym ((==_iff ev.id k).0 e)) h))
          | inr e ↦
              with_id_other k ev events e ∙ no_events k v w s (find_kept ev.id k pos v cp n h) g
        ]
    no_events k v w {pos = pos} {rp = rp} (sees_return {ev = ev} {events = events} o x y n s) h g =
        elim (Bool-cases (ev.id == k)) [
          | inl e ↦
              absurd (
                not_none
                  (sym n ∙ subst (λ j. find_id j rp ≡ some w) (sym ((==_iff ev.id k).0 e)) g))
          | inr e ↦
              with_id_other k ev events e ∙ no_events k v w s h (find_kept ev.id k pos w rp n g)
        ]

    abbrev pub OneReturn : ℕ → List (Event I O) → Type 0
    OneReturn k events =
        (e : Event I O) × (o : O) × (with_id k events ≡ e ∷ [])
        × (e.kind ≡ EventKind.return)
        × (e.output ≡ some o)

    -- After a call that has a return in the end there is one event with its id, the return.
    pub one_return :
        (k v w : ℕ) {pos : ℕ} {events : List (Event I O)} {cp rp : Map}
        → Scans c r pos events cp rp
        → find_id k cp ≡ some v
        → find_id k rp ≡ none
        → find_id k r ≡ some w
        → OneReturn k events
    one_return k v w stops h n g = absurd (not_none (sym n ∙ g))
    one_return k v w {pos = pos} {cp = cp} (sees_call {ev = ev} {events = events} i x y f s) h n g =
        elim (Bool-cases (ev.id == k)) [
          | inl e ↦
              absurd (
                not_none
                  (sym f ∙ subst (λ j. find_id j cp ≡ some v) (sym ((==_iff ev.id k).0 e)) h))
          | inr e ↦
              let (t, o, one, kind, out) =
                one_return k v w s (find_kept ev.id k pos v cp f h) n g in
              (t, o, with_id_other k ev events e ∙ one, kind, out)
        ]
    one_return k v w {pos = pos} {rp = rp} (sees_return {ev = ev} {events = events} o x y f s) h n
          g =
        elim (Bool-cases (ev.id == k)) [
          | inl e ↦
              let same = (==_iff ev.id k).0 e in
              let at : find_id k ((ev.id, pos) ∷ rp) ≡ some pos =
                subst (λ j. find_id j ((ev.id, pos) ∷ rp) ≡ some pos) same
                  (find_here ev.id pos rp) in
              let none_left = no_events k v pos s h at in
              (ev, o, with_id_here k ev events same ∙ ap (λ l. ev ∷ l) none_left, x, y)
          | inr e ↦
              let (t, q, one, kind, out) =
                one_return k v w s h (find_other ev.id k pos rp e ∙ n) g in
              (t, q, with_id_other k ev events e ∙ one, kind, out)
        ]
