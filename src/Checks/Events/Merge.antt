-- ===== src/Checks/Events/Merge.antt =====
-- The entries of paired events are those of the operations in them.
use porcupine_rust.Base.{
  ℕ, suc, ◌≤◌, ◌≡◌, ◌≢◌, refl, sym, ◌∙◌, subst, ap, arith, false, some, List, [], ◌∷◌, ◌==◌, inl,
  inr, Bool-cases, ==_iff, ==_refl,
}
use porcupine_rust.Base.Do.{not_none, some_inj}
use porcupine_rust.Types.{EventKind, Event}
use porcupine_rust.Entry.{EntryValue, Entry, return}
use porcupine_rust.Entries.{IdMap, find_id, insert, event_value}
use porcupine_rust.Entries.Renumber.{IsNumbering, find_fresh_other, IsNumbering-fresh_id}
use porcupine_rust.Checks.Events.Scan.{with_id_nil}
use porcupine_rust.Checks.Events.{with_id, find_return}
use porcupine_rust.Checks.Events.Converts.{
  Converts, fresh, insert_front, keep, keep_in, keep_nil, keep_out, known, next_id_new, no_more,
  past_cons, same_cons,
}

module _ {I O : Type 0} where
  -- Of the events with the id `k` there is the head, or there is not.
  data Head (k : ℕ) (ev : Event I O) (events : List (Event I O)) : Type 0 where
    hit : ev.id ≡ k → with_id k (ev ∷ events) ≡ ev ∷ with_id k events → Head k ev events
    miss :
        ev.id ≢ k
        → (ev.id == k) ≡ false
        → with_id k (ev ∷ events) ≡ with_id k events
        → Head k ev events

  Head-cases : (k : ℕ) (ev : Event I O) (events : List (Event I O)) → Head k ev events
  unfolding with_id
  Head-cases k ev events = elim (Bool-cases (ev.id == k)) [
    | inl y ↦ hit ((==_iff ev.id k).0 y) (rw y refl)
    | inr n ↦ miss (ground arith) n (rw n refl)
  ]

  not_nil : {x : Event I O} {l : List (Event I O)} → ¬ (x ∷ l ≡ [])
  not_nil h = cc

  -- The new id of an event with another id.
  other_id :
      (m : IdMap) (k n v : ℕ) (ev : Event I O)
      → IsNumbering m
      → find_id k m.ids ≡ some n
      → ev.id ≢ k
      → find_id ev.id m.ids ≡ some v
      → v ≢ n
  other_id m k n v ev num h ne f e =
      ne (num.one_old ev.id k n (subst (λ w. find_id ev.id m.ids ≡ some w) e f) h)

  keep_same :
      (k n : ℕ) {m : IdMap} {pos : ℕ} {events : List (Event I O)} {l : List (Entry I O)}
      → Converts m pos events l
      → IsNumbering m
      → find_id k m.ids ≡ some n
      → with_id k events ≡ []
      → keep n l ≡ keep (suc n) l
  keep_same k n no_more num h g = keep_nil n (suc n)
  keep_same k n {m = m} {pos = pos} (known {ev = ev} {events = events} {l = l} v value f e c) num h
        g =
      elim (Head-cases k ev events) [
        | hit same at ↦ absurd (not_nil (sym at ∙ g))
        | miss ne b at ↦
            same_cons n (record { id = v; time = pos; value = value }) l
              (other_id m k n v ev num h ne f) (keep_same k n c num h (sym at ∙ g))
      ]
  keep_same k n {m = m} {pos = pos} (fresh {ev = ev} {events = events} {l = l} value f e c) num h
        g =
      elim (Head-cases k ev events) [
        | hit same at ↦ absurd (not_nil (sym at ∙ g))
        | miss ne b at ↦
            same_cons n (record { id = m.next_id; time = pos; value = value }) l
              (next_id_new m k n num h)
              (keep_same k n c (IsNumbering-fresh_id ev.id m f num)
                (find_fresh_other ev.id k m b ∙ h) (sym at ∙ g))
      ]

  cons_inj : {x y : Event I O} {l r : List (Event I O)} → x ∷ l ≡ y ∷ r → (x ≡ y) × (l ≡ r)
  cons_inj h = (cc, cc)

  find_return_here :
      (k pos : ℕ) (ev : Event I O) (events : List (Event I O)) (o : O)
      → ev.id ≡ k
      → ev.kind ≡ EventKind.return
      → ev.output ≡ some o
      → find_return k pos (ev ∷ events) ≡ some (pos, o)
  unfolding find_return
  find_return_here k pos ev events o e kind out = rw (e, ==_refl k, kind, out) refl

  find_return_other :
      (k pos : ℕ) (ev : Event I O) (events : List (Event I O))
      → (ev.id == k) ≡ false
      → find_return k pos (ev ∷ events) ≡ find_return k (suc pos) events
  unfolding find_return
  find_return_other k pos ev events n = rw n refl

  return_value :
      (ev : Event I O) (o : O) (value : EntryValue I O)
      → ev.kind ≡ EventKind.return
      → ev.output ≡ some o
      → event_value ev ≡ some value
      → value ≡ return o
  unfolding event_value
  return_value ev o value kind out e = some_inj (sym e ∙ now)
    where
      now : event_value ev ≡ some (return o)
      now = rw (kind, out) refl

  -- The return with the new id `n`.
  abbrev pub return_of : ℕ → ℕ → O → Entry I O
  return_of n q o = record { id = n; time = q; value = return o }

  pub record Returned (k n pos : ℕ) (o : O) (events : List (Event I O)) (l : List (Entry I O))
      : Type 0 where
    pub at : ℕ
    pub found : find_return k pos events ≡ some (at, o)
    pub after : pos ≤ at
    pub inserted : insert (return_of n at o) (keep (suc n) l) ≡ keep n l

  Returned-here :
      (k n pos : ℕ) (o : O) (ev : Event I O) (events : List (Event I O)) (value : EntryValue I O)
      (l : List (Entry I O)) {m : IdMap}
      → Converts m (suc pos) events l
      → keep n l ≡ keep (suc n) l
      → ev.id ≡ k
      → ev.kind ≡ EventKind.return
      → ev.output ≡ some o
      → event_value ev ≡ some value
      → Returned k n pos o (ev ∷ events) (record { id = n; time = pos; value = value } ∷ l)
  Returned-here k n pos o ev events value l c same e kind out ev_value =
      let x : Entry I O = record { id = n; time = pos; value = value } in
      let r = return_of n pos o in
      let is_r : r ≡ x =
        ap (λ v. record { id = n; time = pos; value = v })
          (sym (return_value ev o value kind out ev_value)) in
      record {
        at = pos;
        found = find_return_here k pos ev events o e kind out;
        after = omega arith;
        inserted =
            ap (insert r) (keep_out (suc n) x l (omega arith))
            ∙ insert_front (suc n) r c (omega arith)
            ∙ cc (is_r, same)
            ∙ sym (keep_in n x l (omega arith));
      }

  Returned-past :
      (k n pos : ℕ) (o : O) (ev : Event I O) (events : List (Event I O)) (x : Entry I O)
      (l : List (Entry I O))
      → (ev.id == k) ≡ false
      → x.id ≢ n
      → x.time ≡ pos
      → Returned k n (suc pos) o events l
      → Returned k n pos o (ev ∷ events) (x ∷ l)
  Returned-past k n pos o ev events x l b ne t h =
      let le : suc pos ≤ h.at = h.after in
      record {
        at = h.at;
        found = find_return_other k pos ev events b ∙ h.found;
        after = omega arith;
        inserted = past_cons n (return_of n h.at o) x l ne (omega arith) h.inserted;
      }

  -- The return of a call goes in where it stands among the entries.
  pub insert_return :
      (k n : ℕ) (t : Event I O) (o : O)
      → t.kind ≡ EventKind.return
      → t.output ≡ some o
      → {m : IdMap} {pos : ℕ} {events : List (Event I O)} {l : List (Entry I O)}
      → Converts m pos events l
      → IsNumbering m
      → find_id k m.ids ≡ some n
      → with_id k events ≡ t ∷ []
      → Returned k n pos o events l
  insert_return k n t o kind out no_more num h g = absurd (not_nil (sym g ∙ with_id_nil k))
  insert_return k n t o kind out {m = m} {pos = pos}
        (known {ev = ev} {events = events} {l = l} v value f e c) num h g =
      elim (Head-cases k ev events) [
        | hit same at ↦
            let (ev_t, rest) = cons_inj (sym at ∙ g) in
            let n_v : n ≡ v = some_inj (sym h ∙ subst (λ j. find_id j m.ids ≡ some v) same f) in
            subst
              (λ w.
                Returned k n pos o (ev ∷ events) (record { id = w; time = pos; value = value } ∷ l))
              n_v
              (Returned-here k n pos o ev events value l c (keep_same k n c num h rest) same
                (ap (λ z. z.kind) ev_t ∙ kind) (ap (λ z. z.output) ev_t ∙ out) e)
        | miss ne b at ↦
            Returned-past k n pos o ev events (record { id = v; time = pos; value = value }) l b
              (other_id m k n v ev num h ne f) refl
              (insert_return k n t o kind out c num h (sym at ∙ g))
      ]
  insert_return k n t o kind out {m = m} {pos = pos}
        (fresh {ev = ev} {events = events} {l = l} value f e c) num h g =
      elim (Head-cases k ev events) [
        | hit same at ↦
            absurd (not_none (sym f ∙ subst (λ j. find_id j m.ids ≡ some n) (sym same) h))
        | miss ne b at ↦
            Returned-past k n pos o ev events (record { id = m.next_id; time = pos; value = value })
              l b (next_id_new m k n num h) refl
              (insert_return k n t o kind out c (IsNumbering-fresh_id ev.id m f num)
                (find_fresh_other ev.id k m b ∙ h) (sym at ∙ g))
      ]
