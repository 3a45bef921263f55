-- ===== src/Checker/Load.antt =====
-- A paired entry list gives a paired live list: each call node is matched to its return node.
use porcupine_rust.Base.{
  ℕ, suc, ◌+◌, ◌^◌, ◌<◌, ◌≡◌, ◌≢◌, refl, subst, ap, ◌∙◌, sym, arith, some, List, [], ◌∷◌, ◌==◌,
  Bool-cases, inl, inr, length, get_elem?, get_elem?_of_lt, get_elem?-set_self, get_elem?-set_ne,
  ==_iff,
}
use porcupine_rust.Entry.{EntryValue, Entry, call, return}
use porcupine_rust.Entry.Paired
use porcupine_rust.Entry.Paired.{HasReturn}
use porcupine_rust.Arena.{no_ref, as_u32}
use porcupine_rust.Arena.Live.{Slot}
use porcupine_rust.Arena.Tables.{noted, note, length-note, matched, slots, IdsBelow, get_or_eq}
use porcupine_rust.Checker.Remaining
use porcupine_rust.Checker.Pairing.{HasMatch, IsPaired}

module _ {I O : Type 0} where
  abbrev slot : ℕ → List ℕ → Entry I O → Slot I O
  slot i table e = record {
    idx = i;
    id = e.id;
    time = e.time;
    value = e.value;
    match_idx = matched table e.value e.id;
  }

  only-none :
      (id i : ℕ) (table : List ℕ) (l : List (Entry I O))
      → Paired.only id l ≡ []
      → Remaining.only id (slots i table l) ≡ []
  unfolding slots
  only-none id i table [] h = refl
  only-none id i table (e ∷ l) h = ground (arith, only-none id (suc i) table l)

  -- Where no entry is of operation `id`, its place in the table stays.
  note_keep :
      (r id : ℕ) (v : EntryValue I O) (id' : ℕ) (t : List ℕ)
      → id' ≢ id
      → get_elem? (note r v id' t) id ≡ get_elem? t id
  note_keep r id (call i) id' t h = refl
  note_keep r id (return o) id' t h = get_elem?-set_ne t id' id r h

  noted_keep :
      (i id : ℕ) (l : List (Entry I O)) (t : List ℕ)
      → Paired.only id l ≡ []
      → get_elem? (noted i l t) id ≡ get_elem? t id
  unfolding noted
  noted_keep i id [] t h = refl
  noted_keep i id (e ∷ l) t h = elim (Bool-cases (e.id == id)) [
    | inl y ↦ ground arith
    | inr n ↦
        noted_keep (i + 1) id l (note (as_u32 (i + 1)) e.value e.id t) (ground arith)
        ∙ note_keep (as_u32 (i + 1)) id e.value e.id t (ground arith)
  ]

  -- The one return of an operation, among the live entries and in the table.
  record At (i id : ℕ) (l : List (Entry I O)) (t table : List ℕ) (e : Entry I O) : Type 0 where
    position : ℕ
    one : Remaining.only id (slots (suc i) table l) ≡ slot position table e ∷ []
    in_table : get_elem? (noted i l t) id ≡ some position

  At-return :
      (i id : ℕ) (l : List (Entry I O)) (t table : List ℕ) (e : Entry I O) (o : O)
      → Paired.only id l ≡ e ∷ []
      → e.value ≡ return o
      → id < length t
      → i + length l < 2 ^ 32
      → At i id l t table e
  unfolding slots noted
  At-return i id [] t table e o one is lt fits = absurd (cc)
  At-return i id (x ∷ l) t table e o one is lt fits = elim (Bool-cases (x.id == id)) [
    | inl y ↦
        let (same, none_left) : (x ≡ e) × (Paired.only id l ≡ []) = ground arith in
        let own : x.id ≡ id = (==_iff x.id id).0 y in
        let ret : x.value ≡ return o = ap (λ z. z.value) same ∙ is in
        let cut : as_u32 (i + 1) ≡ suc i = omega arith in
        let (old, g) = get_elem?_of_lt t id lt in
        record {
          position = suc i;
          one = rw (y, only-none id (suc (suc i)) table l none_left, same) refl;
          in_table =
              noted_keep (i + 1) id l (note (as_u32 (i + 1)) x.value x.id t) none_left
              ∙ rw (ret, own, cut) (get_elem?-set_self t id (suc i) old g);
        }
    | inr n ↦
        let next : i + 1 ≡ suc i = omega arith in
        let rest =
          At-return (i + 1) id l (note (as_u32 (i + 1)) x.value x.id t) table e o (ground arith) is
            (omega (arith, length-note (as_u32 (i + 1)) x.value x.id t)) (omega arith) in
        record { position = rest.position; one = rw (n, ← next) rest.one; in_table = rest.in_table }
  ]

  HasMatch-slots :
      (v : EntryValue I O) (i id : ℕ) (l : List (Entry I O)) (t table : List ℕ)
      → table ≡ noted i l t
      → HasReturn v id l
      → id < length t
      → i + length l < 2 ^ 32
      → HasMatch v id (matched table v id) (slots (suc i) table l)
  HasMatch-slots (return o) i id l t table e h lt fits = (only-none id (suc i) table l h, refl)
  HasMatch-slots (call x) i id l t table e (r, o, one, is) lt fits =
      let at = At-return i id l t table r o one is lt fits in
      (
        slot at.position table r,
        o,
        at.one,
        is,
        get_or_eq table id no_ref at.position (ap (λ z. get_elem? z id) e ∙ at.in_table),
      )

  -- The live list of a paired entry list is paired.
  pub slots-IsPaired :
      (i : ℕ) (l : List (Entry I O)) (t table : List ℕ)
      → table ≡ noted i l t
      → Paired.IsPaired l
      → IdsBelow (length t) l
      → i + length l < 2 ^ 32
      → IsPaired (slots (suc i) table l)
  unfolding slots noted
  slots-IsPaired i [] t table e h ids fits = tt
  slots-IsPaired i (x ∷ l) t table e h ids fits =
      let t' = note (as_u32 (i + 1)) x.value x.id t in
      let size : length t' ≡ length t = length-note (as_u32 (i + 1)) x.value x.id t in
      let next : i + 1 ≡ suc i = omega arith in
      let ids' = subst (λ n. IdsBelow n (x ∷ l)) (sym size) ids in
      (
        rw (← next) (HasMatch-slots x.value (i + 1) x.id l t' table e h.0 ids'.0 (omega arith)),
        rw (← next) (slots-IsPaired (i + 1) l t' table e h.1 ids'.1 (omega arith)),
      )
