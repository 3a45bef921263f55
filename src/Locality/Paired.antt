-- ===== src/Locality/Paired.antt =====
-- The events of one key are paired where all events are.
use porcupine_rust.Base.{
  ℕ, ◌≡◌, refl, sym, ◌∙◌, subst, ap, false, true, none, some, List, [], ◌∷◌, ◌==◌, inl, inr,
  Bool-cases, ==_iff,
}
use porcupine_rust.Base.Do.{not_none}
use porcupine_rust.Types.{Event}
use porcupine_rust.Entries.{IdMap, find_id}
use porcupine_rust.Entries.Renumber.{fresh_id, find_fresh_self, find_fresh_other}
use porcupine_rust.Checks.Events.{with_id, Paired, ends, calls, returns}
use porcupine_rust.Locality.{with_key}
use porcupine_rust.Locality.Keys.{with_key_in, with_key_out}
use porcupine_rust.Locality.Ranks.{of_key}

module _ (key_of : ℕ → ℕ) (k : ℕ) where
  -- An id with the key is not one without it.
  other_key : (a id : ℕ) → (key_of a == k) ≡ false → key_of id ≡ k → (a == id) ≡ false
  other_key a id n e = elim (Bool-cases (a == id)) [
    | inl y ↦
        let same : a ≡ id = (==_iff a id).0 y in
        let yes : (key_of a == k) ≡ true = (==_iff (key_of a) k).1 (ap key_of same ∙ e) in
        absurd (cc)
    | inr m ↦ m
  ]

  -- The ids of the key are known in both maps, or in none.
  record Agree (m m' : IdMap) : Type 0 where
    unseen : (id : ℕ) → key_of id ≡ k → find_id id m.ids ≡ none → find_id id m'.ids ≡ none
    seen :
        (id : ℕ) {v : ℕ}
        → key_of id ≡ k
        → find_id id m.ids ≡ some v
        → (w : ℕ) × (find_id id m'.ids ≡ some w)

  Agree-in : {m m' : IdMap} (id : ℕ) → Agree m m' → Agree (fresh_id m id) (fresh_id m' id)
  Agree-in {m} {m'} id a = record {
    unseen = λ j e h. elim (Bool-cases (id == j)) [
      | inl y ↦
          let same = (==_iff id j).0 y in
          absurd (
            not_none (
              sym h
              ∙ subst (λ i. find_id i (fresh_id m id).ids ≡ some m.next_id) same
                  (find_fresh_self id m)))
      | inr n ↦ find_fresh_other id j m' n ∙ a.unseen j e (sym (find_fresh_other id j m n) ∙ h)
    ];
    seen = λ j e h. elim (Bool-cases (id == j)) [
      | inl y ↦
          let same = (==_iff id j).0 y in
          (
            m'.next_id,
            subst (λ i. find_id i (fresh_id m' id).ids ≡ some m'.next_id) same
                (find_fresh_self id m'),
          )
      | inr n ↦
          let (w, at) = a.seen j e (sym (find_fresh_other id j m n) ∙ h) in
          (w, find_fresh_other id j m' n ∙ at)
    ];
  }

  Agree-out :
      {m m' : IdMap} (id : ℕ) → (key_of id == k) ≡ false → Agree m m' → Agree (fresh_id m id) m'
  Agree-out {m} {m'} id n a = record {
    unseen = λ j e h. a.unseen j e (sym (find_fresh_other id j m (other_key id j n e)) ∙ h);
    seen = λ j e h. a.seen j e (sym (find_fresh_other id j m (other_key id j n e)) ∙ h);
  }

  Agree-self : (m : IdMap) → Agree m m
  Agree-self m = record { unseen = λ j e h. h; seen = λ j {v} e h. (v, h) }

  module _ {I O : Type 0} where
    -- The events with an id all have its key.
    with_id-of_key :
        (id : ℕ) (events : List (Event I O))
        → key_of id ≡ k
        → with_id id (of_key key_of k events) ≡ with_id id events
    unfolding with_id with_key
    with_id-of_key id [] e = refl
    with_id-of_key id (ev ∷ events) e =
        let ih = with_id-of_key id events e in
        elim (Bool-cases (key_of ev.id == k)) [
          | inl y ↦ elim (Bool-cases (ev.id == id)) [
            | inl z ↦ rw (y, z, ih) refl
            | inr n ↦ rw (y, n, ih) refl
          ]
          | inr y ↦ let n = other_key ev.id id y e in rw (y, n, ih) refl
        ]

    Paired-of_key :
        {m m' : IdMap} {events : List (Event I O)}
        → Paired m events
        → Agree m m'
        → Paired m' (of_key key_of k events)
    unfolding with_key
    Paired-of_key ends a = ends
    Paired-of_key {m' = m'}
          (calls {ev = ev} {r = r} {events = events} i o kind inp f one is_return out h) a =
        elim (Bool-cases (key_of ev.id == k)) [
          | inl y ↦
              let is = (==_iff (key_of ev.id) k).0 y in
              subst (λ l. Paired m' l) (sym (with_key_in (λ t. key_of t.id) k ev events is))
                (calls i o kind inp (a.unseen ev.id is f) (with_id-of_key ev.id events is ∙ one)
                  is_return out (Paired-of_key h (Agree-in ev.id a)))
          | inr n ↦
              subst (λ l. Paired m' l) (sym (with_key_out (λ t. key_of t.id) k ev events n))
                (Paired-of_key h (Agree-out ev.id n a))
        ]
    Paired-of_key {m' = m'} (returns {ev = ev} {events = events} o v kind out f h) a =
        elim (Bool-cases (key_of ev.id == k)) [
          | inl y ↦
              let is = (==_iff (key_of ev.id) k).0 y in
              let (w, at) = a.seen ev.id is f in
              subst (λ l. Paired m' l) (sym (with_key_in (λ t. key_of t.id) k ev events is))
                (returns o w kind out at (Paired-of_key h a))
          | inr n ↦
              subst (λ l. Paired m' l) (sym (with_key_out (λ t. key_of t.id) k ev events n))
                (Paired-of_key h a)
        ]

    pub Paired-part :
        {m : IdMap} {events : List (Event I O)}
        → Paired m events
        → Paired m (of_key key_of k events)
    Paired-part {m = m} h = Paired-of_key h (Agree-self m)
