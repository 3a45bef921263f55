-- ===== src/Entries/Renumber.antt =====
-- `renumber` gives dense ids: the same for the same id, and different ones for different ids.
use mathlib.Core.List.{Memᴰ}
use porcupine_rust.Base.{
  ℕ, ◌+◌, ◌<◌, ◌≡◌, refl, ap, ◌∙◌, sym, subst, arith, none, some, List, [], ◌∷◌, ◌==◌, false,
  Bool-cases, inl, inr, ◌⊎◌, Option-cases, ==_iff, ==_refl,
}
use porcupine_rust.Base.Do.{not_none}
use porcupine_rust.Types.{Event}
use porcupine_rust.Entries.{IdMap, find_id, new_id, renumber_from, renumber}

-- The new ids are the numbers below `next_id`, one for each old id.
pub record IsNumbering (m : IdMap) : Type 0 where
  pub one_old : (k k' v : ℕ) → find_id k m.ids ≡ some v → find_id k' m.ids ≡ some v → k ≡ k'
  pub below : (k v : ℕ) → find_id k m.ids ≡ some v → v < m.next_id
  pub onto : (v : ℕ) → v < m.next_id → (k : ℕ) × (find_id k m.ids ≡ some v)

-- What a new id does to the map.
record Extends (k v : ℕ) (m m' : IdMap) : Type 0 where
  numbering : IsNumbering m → IsNumbering m'
  has : find_id k m'.ids ≡ some v
  keeps : (j w : ℕ) → find_id j m.ids ≡ some w → find_id j m'.ids ≡ some w
  only : (j w : ℕ) → find_id j m'.ids ≡ some w → (k ≡ j) ⊎ (find_id j m.ids ≡ some w)

unfoldable pub fresh_id : IdMap → ℕ → IdMap
fresh_id m k = record { ids = (k, m.next_id) ∷ m.ids; next_id = m.next_id + 1 }

pub new_id_known : (k v : ℕ) (m : IdMap) → find_id k m.ids ≡ some v → new_id k m ≡ (v, m)
unfolding new_id
new_id_known k v m h = rw (h, new_id) refl

pub new_id_fresh :
    (k : ℕ) (m : IdMap) → find_id k m.ids ≡ none → new_id k m ≡ (m.next_id, fresh_id m k)
unfolding new_id fresh_id
new_id_fresh k m h = rw (h, new_id) refl

pub find_fresh_self : (k : ℕ) (m : IdMap) → find_id k (fresh_id m k).ids ≡ some m.next_id
unfolding find_id fresh_id
find_fresh_self k m = rw (==_refl k) refl

pub find_fresh_other :
    (k j : ℕ) (m : IdMap) → (k == j) ≡ false → find_id j (fresh_id m k).ids ≡ find_id j m.ids
unfolding find_id fresh_id
find_fresh_other k j m n = rw n refl

pub next_fresh : (k : ℕ) (m : IdMap) → (fresh_id m k).next_id ≡ m.next_id + 1
unfolding fresh_id
next_fresh k m = refl

-- An id that the new map knows: the fresh one, or one that the old map knows.
data Found (k j w : ℕ) (m : IdMap) : Type 0 where
  fresh : k ≡ j → w ≡ m.next_id → Found k j w m
  known : find_id j m.ids ≡ some w → Found k j w m

find_cases : (k j w : ℕ) (m : IdMap) → find_id j (fresh_id m k).ids ≡ some w → Found k j w m
find_cases k j w m h = elim (Bool-cases (k == j)) [
  | inl y ↦
      let e : k ≡ j = (==_iff k j).0 y in
      let g = subst (λ i. find_id i (fresh_id m k).ids ≡ some w) (sym e) h in
      let at : some m.next_id ≡ some w = sym (find_fresh_self k m) ∙ g in fresh e (cc)
  | inr n ↦ known (sym (find_fresh_other k j m n) ∙ h)
]

keeps_fresh :
    (k j w : ℕ) (m : IdMap)
    → find_id k m.ids ≡ none
    → find_id j m.ids ≡ some w
    → find_id j (fresh_id m k).ids ≡ some w
keeps_fresh k j w m n h = elim (Bool-cases (k == j)) [
  | inl y ↦
      absurd (not_none (sym n ∙ subst (λ i. find_id i m.ids ≡ some w) (sym ((==_iff k j).0 y)) h))
  | inr x ↦ find_fresh_other k j m x ∙ h
]

pub IsNumbering-fresh_id :
    (k : ℕ) (m : IdMap) → find_id k m.ids ≡ none → IsNumbering m → IsNumbering (fresh_id m k)
IsNumbering-fresh_id k m n h = record {
  one_old = λ i j v p q. two i j v (find_cases k i v m p) (find_cases k j v m q);
  below = λ i v p. elim (find_cases k i v m p) [
    | fresh e f ↦ omega (arith, f, next_fresh k m)
    | known g ↦ omega (arith, h.below i v g, next_fresh k m)
  ];
  onto = λ v l. elim (Bool-cases (v == m.next_id)) [
    | inl y ↦ (k, find_fresh_self k m ∙ ap some (sym ((==_iff v m.next_id).0 y)))
    | inr x ↦
        let l' : v < m.next_id + 1 = subst (λ b. v < b) (next_fresh k m) l in
        let (j, g) = h.onto v (ground arith) in (j, keeps_fresh k j v m n g)
  ];
}
  where
    two : (i j v : ℕ) → Found k i v m → Found k j v m → i ≡ j
    two i j v (fresh e f) (fresh e' f') = sym e ∙ e'
    two i j v (fresh e f) (known g) = absurd (omega (arith, h.below j v g, f))
    two i j v (known g) (fresh e f) = absurd (omega (arith, h.below i v g, f))
    two i j v (known g) (known g') = h.one_old i j v g g'

Extends-new_id : (k : ℕ) (m : IdMap) → Extends k (new_id k m).0 m (new_id k m).1
Extends-new_id k m = elim (Option-cases (find_id k m.ids)) [
  | inl n ↦ rw (new_id_fresh k m n) (record {
    numbering = IsNumbering-fresh_id k m n;
    has = find_fresh_self k m;
    keeps = λ j w. keeps_fresh k j w m n;
    only = λ j w h. elim (find_cases k j w m h) [ fresh e f ↦ inl e | known g ↦ inr g ];
  })
  | inr (v, g) ↦
      rw (new_id_known k v m g)
        (record { numbering = λ h. h; has = g; keeps = λ j w h. h; only = λ j w h. inr h })
]

pub IsNumbering-empty : IsNumbering (record { ids = []; next_id = 0 })
unfolding find_id
IsNumbering-empty = record {
  one_old = λ k k' v h. absurd (not_none h);
  below = λ k v h. absurd (not_none h);
  onto = λ v l. absurd (omega arith);
}

module _ {I O : Type 0} where
  -- Each event with its id replaced as the map has it.
  abbrev pub Renamed : IdMap → List (Event I O) → List (Event I O) → Type 0
  Renamed m [] [] = Unit {0}
  Renamed m [] (e ∷ l) = ⊥
  Renamed m (ev ∷ events) [] = ⊥
  Renamed m (ev ∷ events) (e ∷ l) =
      (find_id ev.id m.ids ≡ some e.id) × (e ≡ record ev { id = e.id }) × Renamed m events l

  -- An event has the id.
  abbrev pub Occurs : ℕ → List (Event I O) → Type 0
  Occurs k events = (ev : Event I O) × Memᴰ ev events × (ev.id ≡ k)

  -- The map has the ids of the events and no others.
  abbrev pub OnlyIds : IdMap → List (Event I O) → Type 0
  OnlyIds m events = (k v : ℕ) → find_id k m.ids ≡ some v → Occurs k events

  -- The map after the events.
  record Numbers (m : IdMap) (events : List (Event I O)) : Type 0 where
    final : IdMap
    numbering : IsNumbering m → IsNumbering final
    keeps : (j w : ℕ) → find_id j m.ids ≡ some w → find_id j final.ids ≡ some w
    renamed : Renamed final events (renumber_from m events)
    only : (k v : ℕ) → find_id k final.ids ≡ some v → (find_id k m.ids ≡ some v) ⊎ Occurs k events

  Numbers-renumber_from : (m : IdMap) (events : List (Event I O)) → Numbers m events
  unfolding renumber_from
  Numbers-renumber_from m [] = record {
    final = m;
    numbering = λ h. h;
    keeps = λ j w h. h;
    renamed = tt;
    only = λ k v h. inl h;
  }
  Numbers-renumber_from m (ev ∷ events) =
      let x = Extends-new_id ev.id m in
      let rest = Numbers-renumber_from (new_id ev.id m).1 events in
      record {
        final = rest.final;
        numbering = λ h. rest.numbering (x.numbering h);
        keeps = λ j w h. rest.keeps j w (x.keeps j w h);
        renamed = (rest.keeps ev.id (new_id ev.id m).0 x.has, refl, rest.renamed);
        only = λ k v h. elim (rest.only k v h) [
          | inl g ↦ elim (x.only k v g) [ inl e ↦ inr (ev, Memᴰ.head refl, e) | inr f ↦ inl f ]
          | inr (y, at, e) ↦ inr (y, Memᴰ.tail at, e)
        ];
      }

  -- `renumber` changes nothing but the ids, by a map that takes different ids to different numbers,
  -- has the ids of the events and no others, and uses each number below their count.
  pub renumber_lem :
      (events : List (Event I O))
      → (m : IdMap) × IsNumbering m × OnlyIds m events × Renamed m events (renumber events)
  unfolding renumber find_id
  renumber_lem events =
      let x = Numbers-renumber_from (record { ids = []; next_id = 0 }) events in
      (
        x.final,
        x.numbering IsNumbering-empty,
        λ k v h. elim (x.only k v h) [ inl g ↦ absurd (not_none g) | inr o ↦ o ],
        x.renamed,
      )
