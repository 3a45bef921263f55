-- ===== src/Checks/Events/Maps.antt =====
-- The maps from ids to positions that `assert_well_formed_events` of src/invariants.rs fills.
use porcupine_rust.Base.{
  both, ℕ, suc, ◌<◌, ◌≡◌, refl, sym, ◌∙◌, subst, arith, true, false, Option, none, some, List, [],
  ◌∷◌, ◌==◌, ◌⊎◌, inl, inr, Bool-cases, Option-cases, ==_iff, ==_refl, ltb,
}
use porcupine_rust.Base.Do.{not_none, some_inj}
use porcupine_rust.Types.{EventKind}
use porcupine_rust.Entries.{IdMap, find_id}
use porcupine_rust.Entries.Renumber.{fresh_id, find_fresh_self, find_fresh_other}
use porcupine_rust.Assertions.{insert_new, calls_return, returns_called}

abbrev pub Map : Type 0
Map = List (ℕ × ℕ)

pub find_here : (k v : ℕ) (l : Map) → find_id k ((k, v) ∷ l) ≡ some v
unfolding find_id
find_here k v l = rw (==_refl k) refl

pub find_other : (k j v : ℕ) (l : Map) → (k == j) ≡ false → find_id j ((k, v) ∷ l) ≡ find_id j l
unfolding find_id
find_other k j v l n = rw n refl

-- The first pair is found, or it is passed over.
pub find_split :
    (k j v c : ℕ) (l : Map)
    → find_id j ((k, v) ∷ l) ≡ some c
    → ((k ≡ j) × (c ≡ v)) ⊎ (find_id j l ≡ some c)
find_split k j v c l h = elim (Bool-cases (k == j)) [
  | inl y ↦
      let e : k ≡ j = (==_iff k j).0 y in
      let g : find_id k ((k, v) ∷ l) ≡ some c =
        subst (λ i. find_id i ((k, v) ∷ l) ≡ some c) (sym e) h in
      inl (e, some_inj (sym g ∙ find_here k v l))
  | inr n ↦ inr (sym (find_other k j v l n) ∙ h)
]

-- An id that is found stays found behind a new one.
pub find_kept :
    (k j v c : ℕ) (l : Map)
    → find_id k l ≡ none
    → find_id j l ≡ some c
    → find_id j ((k, v) ∷ l) ≡ some c
find_kept k j v c l n h = elim (Bool-cases (k == j)) [
  | inl y ↦ absurd (not_none (sym n ∙ subst (λ i. find_id i l ≡ some c) (sym ((==_iff k j).0 y)) h))
  | inr x ↦ find_other k j v l x ∙ h
]

pub insert_new_lem :
    (k v : ℕ) (l l' : Map) → insert_new k v l ≡ some l' → (find_id k l ≡ none) × ((k, v) ∷ l ≡ l')
insert_new_lem k v l l' h = elim (Option-cases (find_id k l)) [
  | inl n ↦ (n, some_inj (sym (fresh n) ∙ h))
  | inr (c, e) ↦ absurd (not_none (sym (taken c e) ∙ h))
]
  where
    fresh : find_id k l ≡ none → insert_new k v l ≡ some ((k, v) ∷ l)
    fresh n = rw (n, insert_new) refl

    taken : (c : ℕ) → find_id k l ≡ some c → insert_new k v l ≡ none
    taken c e = rw (e, insert_new) refl

pub returned_after :
    (o : Option ℕ) (c : ℕ)
    → elim o [ none ↦ false | some r ↦ ltb c r ] ≡ true
    → (r : ℕ) × (o ≡ some r) × (c < r)
returned_after none c h = absurd (cc)
returned_after (some r) c h = (r, refl, ground arith)

pub called :
    (o : Option ℕ) → elim o [ none ↦ false | some c ↦ true ] ≡ true → (c : ℕ) × (o ≡ some c)
called none h = absurd (cc)
called (some c) h = (c, refl)

pub calls_return_lem :
    (call_pos return_pos : Map) (k c : ℕ)
    → calls_return call_pos return_pos ≡ true
    → find_id k call_pos ≡ some c
    → (r : ℕ) × (find_id k return_pos ≡ some r) × (c < r)
unfolding find_id
calls_return_lem [] return_pos k c h e = absurd (not_none e)
calls_return_lem ((id, p) ∷ call_pos) return_pos k c h e =
    let (now, later) = both _ (calls_return call_pos return_pos) h in
    elim (find_split id k p c call_pos e) [
      | inl (same, at) ↦
          let (r, is, lt) = returned_after (find_id id return_pos) p now in
          (r, subst (λ i. find_id i return_pos ≡ some r) same is, (omega arith))
      | inr g ↦ calls_return_lem call_pos return_pos k c later g
    ]

pub returns_called_lem :
    (return_pos call_pos : Map) (k r : ℕ)
    → returns_called return_pos call_pos ≡ true
    → find_id k return_pos ≡ some r
    → (c : ℕ) × (find_id k call_pos ≡ some c)
unfolding find_id
returns_called_lem [] call_pos k r h e = absurd (not_none e)
returns_called_lem ((id, p) ∷ return_pos) call_pos k r h e =
    let (now, later) = both _ (returns_called return_pos call_pos) h in
    elim (find_split id k p r return_pos e) [
      | inl (same, at) ↦
          let (c, is) = called (find_id id call_pos) now in
          (c, subst (λ i. find_id i call_pos ≡ some c) same is)
      | inr g ↦ returns_called_lem return_pos call_pos k r later g
    ]

pub kind_cases : (k : EventKind) → (k ≡ EventKind.call) ⊎ (k ≡ EventKind.return)
kind_cases EventKind.call = inl refl
kind_cases EventKind.return = inr refl

-- The positions in a map are those of events before.
abbrev pub Before : ℕ → Map → Type 0
Before pos l = (k v : ℕ) → find_id k l ≡ some v → v < pos

pub Before-cons : (pos k : ℕ) (l : Map) → Before pos l → Before (suc pos) ((k, pos) ∷ l)
Before-cons pos k l h j v e = elim (find_split k j pos v l e) [
  | inl (same, at) ↦ omega arith
  | inr g ↦ let lt : v < pos = h j v g in omega arith
]

pub Before-suc : (pos : ℕ) (l : Map) → Before pos l → Before (suc pos) l
Before-suc pos l h j v e = let lt : v < pos = h j v e in omega arith

-- The ids with a new id are those of calls before.
pub record Knows (m : IdMap) (cp : Map) : Type 0 where
  pub known : (k v : ℕ) → find_id k cp ≡ some v → (w : ℕ) × (find_id k m.ids ≡ some w)
  pub unknown : (k : ℕ) → find_id k cp ≡ none → find_id k m.ids ≡ none

pub Knows-call :
    (m : IdMap) (cp : Map) (k pos : ℕ) → Knows m cp → Knows (fresh_id m k) ((k, pos) ∷ cp)
Knows-call m cp k pos h = record {
  known = λ j v e. elim (Bool-cases (k == j)) [
    | inl y ↦ (
      m.next_id,
      subst (λ i. find_id i (fresh_id m k).ids ≡ some m.next_id) ((==_iff k j).0 y)
          (find_fresh_self k m),
    )
    | inr n ↦
        let (w, is) = h.known j v (sym (find_other k j pos cp n) ∙ e) in
        (w, find_fresh_other k j m n ∙ is)
  ];
  unknown = λ j e. elim (Bool-cases (k == j)) [
    | inl y ↦ absurd (
        not_none (
          sym e
          ∙ subst (λ i. find_id i ((k, pos) ∷ cp) ≡ some pos) ((==_iff k j).0 y)
              (find_here k pos cp)))
    | inr n ↦ find_fresh_other k j m n ∙ h.unknown j (sym (find_other k j pos cp n) ∙ e)
  ];
}
