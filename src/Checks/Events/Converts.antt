-- ===== src/Checks/Events/Converts.antt =====
-- The entries of renumbered events, and the part of them from an id on.
use Prim.Native.Nat.{Ordering}
use porcupine_rust.Base.{
  ℕ, suc, ◌<◌, ◌≤◌, ◌≡◌, ◌≢◌, refl, sym, ◌∙◌, ap, arith, true, false, none, some, List, [], ◌∷◌,
  ◌⊎◌, inl, inr, Bool-cases, leb, if◌then◌else◌,
}
use porcupine_rust.Types.{Event}
use porcupine_rust.Entry.{EntryValue, Entry}
use porcupine_rust.Entries.{
  IdMap, find_id, entry_cmp, insert, renumber_from, event_value, convert_from,
}
use porcupine_rust.Entries.Subsets.{event_value_id}
use porcupine_rust.Entries.Insertion.{insert_past, insert_here}
use porcupine_rust.Entries.Renumber.{IsNumbering, fresh_id, new_id_known, new_id_fresh}

pub next_id_new : (m : IdMap) (k n : ℕ) → IsNumbering m → find_id k m.ids ≡ some n → m.next_id ≢ n
next_id_new m k n num h e = let lt : n < m.next_id = num.below k n h in omega arith

module _ {I O : Type 0} where
  -- The entries with an id from `j` on.
  unfoldable pub keep : ℕ → List (Entry I O) → List (Entry I O)
  keep j [] = []
  keep j (x ∷ l) = let rest = keep j l in if leb j x.id then x ∷ rest else rest

  -- The entries of events from position `pos` on, renumbered after `m`.
  pub data Converts : IdMap → ℕ → List (Event I O) → List (Entry I O) → Type 0 where
    no_more : {m : IdMap} {pos : ℕ} → Converts m pos [] []
    known :
        {m : IdMap} {pos : ℕ} {ev : Event I O} {events : List (Event I O)} {l : List (Entry I O)}
        (v : ℕ) (value : EntryValue I O)
        → find_id ev.id m.ids ≡ some v
        → event_value ev ≡ some value
        → Converts m (suc pos) events l
        → Converts m pos (ev ∷ events) (record { id = v; time = pos; value = value } ∷ l)
    fresh :
        {m : IdMap} {pos : ℕ} {ev : Event I O} {events : List (Event I O)} {l : List (Entry I O)}
        (value : EntryValue I O)
        → find_id ev.id m.ids ≡ none
        → event_value ev ≡ some value
        → Converts (fresh_id m ev.id) (suc pos) events l
        → Converts m pos (ev ∷ events) (record { id = m.next_id; time = pos; value = value } ∷ l)

  pub Converts-convert_from :
      {m : IdMap} {pos : ℕ} {events : List (Event I O)} {l : List (Entry I O)}
      → Converts m pos events l
      → convert_from pos (renumber_from m events) ≡ some l
  unfolding convert_from renumber_from
  Converts-convert_from no_more = refl
  Converts-convert_from {m = m} (known {ev = ev} v value f e c) =
      rw (new_id_known ev.id v m f, event_value_id v ev, e, Converts-convert_from c) refl
  Converts-convert_from {m = m} (fresh {ev = ev} value f e c) =
      rw (new_id_fresh ev.id m f, event_value_id m.next_id ev, e, Converts-convert_from c) refl

  pub keep_in :
      (j : ℕ) (x : Entry I O) (l : List (Entry I O)) → j ≤ x.id → keep j (x ∷ l) ≡ x ∷ keep j l
  unfolding keep
  keep_in j x l h = let y : leb j x.id ≡ true = ground arith in rw y refl

  pub keep_out :
      (j : ℕ) (x : Entry I O) (l : List (Entry I O)) → x.id < j → keep j (x ∷ l) ≡ keep j l
  unfolding keep
  keep_out j x l h = let y : leb j x.id ≡ false = ground arith in rw y refl

  pub keep_cases :
      (j : ℕ) (x : Entry I O) (l : List (Entry I O))
      → (keep j (x ∷ l) ≡ x ∷ keep j l) ⊎ (keep j (x ∷ l) ≡ keep j l)
  keep_cases j x l = elim (Bool-cases (leb j x.id)) [
    | inl y ↦ inl (keep_in j x l (ground arith))
    | inr n ↦ inr (keep_out j x l (ground arith))
  ]

  pub earlier : (e x : Entry I O) → e.time < x.time → entry_cmp e x ≢ Ordering.gt
  earlier e x h g = ground arith

  pub later : (e x : Entry I O) → x.time < e.time → entry_cmp e x ≡ Ordering.gt
  later e x h = ground arith

  -- An entry before all the others goes in front.
  pub front_cons :
      (j : ℕ) (e x : Entry I O) (l : List (Entry I O))
      → e.time < x.time
      → insert e (keep j l) ≡ e ∷ keep j l
      → insert e (keep j (x ∷ l)) ≡ e ∷ keep j (x ∷ l)
  front_cons j e x l h rest = elim (keep_cases j x l) [
    | inl y ↦ rw y (insert_here e x (keep j l) (earlier e x h))
    | inr n ↦ rw n rest
  ]

  pub insert_nil : (j : ℕ) (e : Entry I O) → insert e (keep j []) ≡ e ∷ keep j []
  unfolding insert keep
  insert_nil j e = refl

  pub insert_front :
      (j : ℕ) (e : Entry I O) {m : IdMap} {pos : ℕ} {events : List (Event I O)}
      {l : List (Entry I O)}
      → Converts m pos events l
      → e.time < pos
      → insert e (keep j l) ≡ e ∷ keep j l
  insert_front j e no_more h = insert_nil j e
  insert_front j e {pos = pos} (known {l = l} v value f g c) h =
      front_cons j e (record { id = v; time = pos; value = value }) l h
        (insert_front j e c (omega arith))
  insert_front j e {m = m} {pos = pos} (fresh {l = l} value f g c) h =
      front_cons j e (record { id = m.next_id; time = pos; value = value }) l h
        (insert_front j e c (omega arith))

  pub keep_nil : (i j : ℕ) → keep i [] ≡ keep j []
  unfolding keep
  keep_nil i j = refl

  -- A head with another id than `n` is in both lists, or in none.
  pub same_cons :
      (n : ℕ) (x : Entry I O) (l : List (Entry I O))
      → x.id ≢ n
      → keep n l ≡ keep (suc n) l
      → keep n (x ∷ l) ≡ keep (suc n) (x ∷ l)
  same_cons n x l ne rest = elim (Bool-cases (leb (suc n) x.id)) [
    | inl y ↦
        keep_in n x l (ground arith)
        ∙ ap (λ t. x ∷ t) rest
        ∙ sym (keep_in (suc n) x l (ground arith))
    | inr y ↦
        let lt : x.id < n = ground arith in
        keep_out n x l lt ∙ rest ∙ sym (keep_out (suc n) x l (omega arith))
  ]

  pub past_cons :
      (n : ℕ) (e x : Entry I O) (l : List (Entry I O))
      → x.id ≢ n
      → x.time < e.time
      → insert e (keep (suc n) l) ≡ keep n l
      → insert e (keep (suc n) (x ∷ l)) ≡ keep n (x ∷ l)
  past_cons n e x l ne h rest = elim (Bool-cases (leb (suc n) x.id)) [
    | inl y ↦
        ap (insert e) (keep_in (suc n) x l (ground arith))
        ∙ insert_past e x (keep (suc n) l) (later e x h)
        ∙ ap (λ t. x ∷ t) rest
        ∙ sym (keep_in n x l (ground arith))
    | inr y ↦
        let lt : x.id < n = ground arith in
        ap (insert e) (keep_out (suc n) x l (omega arith)) ∙ rest ∙ sym (keep_out n x l lt)
  ]
