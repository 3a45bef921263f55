-- ===== src/Arena/Tables.antt =====
-- The tables that `from_entries` fills, and the nodes after its first two passes.
use porcupine_rust.Base.{
  ℕ, zero, suc, ◌+◌, ◌^◌, ◌<◌, ◌≡◌, refl, subst, ap, ◌∙◌, sym, arith, some, List, [], ◌∷◌, ◌==◌,
  Bool-cases, inl, inr, length, get_elem?, set, replicate, get_elem?_of_lt, length-set, map, ==_iff,
}
use porcupine_rust.Entry.{EntryValue, Entry, call, return}
use porcupine_rust.Entry.Paired.{All}
use porcupine_rust.Arena.{Node, no_ref, as_u32, note_return, allocate, match_node, match_nodes}
use porcupine_rust.Arena.Live.{Slot}

pub get_or : List ℕ → ℕ → ℕ → ℕ
get_or [] i d = d
get_or (x ∷ xs) zero d = x
get_or (x ∷ xs) (suc i) d = get_or xs i d

pub get_or_eq : (xs : List ℕ) (i d x : ℕ) → get_elem? xs i ≡ some x → get_or xs i d ≡ x
unfolding get_or
get_or_eq [] i d x h = absurd (cc)
get_or_eq (y ∷ xs) zero d x h = ground arith
get_or_eq (y ∷ xs) (suc i) d x h = get_or_eq xs i d x h

pub length-replicate : (n a : ℕ) → length (replicate {A = ℕ} n a) ≡ n
length-replicate zero a = refl
length-replicate (suc n) a = ap suc (length-replicate n a)

module _ {I O : Type 0} where
  -- A return entry writes its node into the table.
  abbrev pub note : ℕ → EntryValue I O → ℕ → List ℕ → List ℕ
  note r (call i) id table = table
  note r (return o) id table = set table id r

  pub length-note :
      (r : ℕ) (v : EntryValue I O) (id : ℕ) (table : List ℕ)
      → length (note r v id table) ≡ length table
  length-note r (call i) id table = refl
  length-note r (return o) id table = length-set table id r

  -- The table of return nodes after the entries from `i` on.
  unfoldable pub noted : ℕ → List (Entry I O) → List ℕ → List ℕ
  noted i [] table = table
  noted i (e ∷ l) table = noted (i + 1) l (note (as_u32 (i + 1)) e.value e.id table)

  pub blank : Entry I O → Node I O
  blank e = record {
    value = some e.value;
    id = as_u32 e.id;
    match_idx = no_ref;
    prev = 0;
    next = no_ref;
  }

  pub length-noted :
      (i : ℕ) (l : List (Entry I O)) (table : List ℕ) → length (noted i l table) ≡ length table
  unfolding noted
  length-noted i [] table = refl
  length-noted i (e ∷ l) table =
      length-noted (i + 1) l _ ∙ length-note (as_u32 (i + 1)) e.value e.id table

  -- Every id is below `n`.
  abbrev pub IdsBelow : ℕ → List (Entry I O) → Type 0
  IdsBelow n = All (λ e. e.id < n)

  pub note_return_eq :
      (r : ℕ) (e : Entry I O) (v : EntryValue I O) (table : List ℕ)
      → e.value ≡ v
      → e.id < length table
      → note_return r e table ≡ some (note r v e.id table)
  unfolding note_return
  note_return_eq r e (call i) table is h = rw is refl
  note_return_eq r e (return o) table is h =
      let (v, g) = get_elem?_of_lt table e.id h in rw (is, g) refl

  pub allocate_eq :
      (i : ℕ) (l : List (Entry I O)) (table : List ℕ)
      → IdsBelow (length table) l
      → allocate i l table ≡ some (map blank l, noted i l table)
  unfolding allocate noted blank
  allocate_eq i [] table h = refl
  allocate_eq i (e ∷ l) table h =
      let table' = note (as_u32 (i + 1)) e.value e.id table in
      let same : length table' ≡ length table = length-note (as_u32 (i + 1)) e.value e.id table in
      rw
        (
          note_return_eq (as_u32 (i + 1)) e e.value table refl h.0,
          allocate_eq (i + 1) l table' (subst (λ n. IdsBelow n l) (sym same) h.1),
        )
        refl

  -- The match that the second pass finds.
  abbrev pub matched : List ℕ → EntryValue I O → ℕ → ℕ
  matched table (call i) id = get_or table id no_ref
  matched table (return o) id = no_ref

  -- A node after the second pass.
  abbrev pub joined : List ℕ → Entry I O → Node I O
  joined table e = record {
    value = some e.value;
    id = as_u32 e.id;
    match_idx = matched table e.value e.id;
    prev = 0;
    next = no_ref;
  }

  pub match_node_eq :
      (v : EntryValue I O) (id : ℕ) (table : List ℕ)
      → id < length table
      → length table < 2 ^ 32
      → match_node table
          (record { value = some v; id = as_u32 id; match_idx = no_ref; prev = 0; next = no_ref })
        ≡ some (record {
          value = some v;
          id = as_u32 id;
          match_idx = matched table v id;
          prev = 0;
          next = no_ref;
        })
  unfolding match_node
  match_node_eq (return o) id table h k = refl
  match_node_eq (call i) id table h k =
      let cut : as_u32 id ≡ id = omega arith in
      let (r, g) = get_elem?_of_lt table id h in
      rw (cut, g, get_or_eq table id no_ref r g)
        (elim (Bool-cases (r == no_ref)) [
          | inl y ↦ rw (y, (==_iff r no_ref).0 y) refl
          | inr y ↦ rw y refl
        ])

  pub match_nodes_eq :
      (l : List (Entry I O)) (table : List ℕ)
      → IdsBelow (length table) l
      → length table < 2 ^ 32
      → match_nodes table (map blank l) ≡ some (map (joined table) l)
  unfolding match_nodes blank
  match_nodes_eq [] table h k = refl
  match_nodes_eq (e ∷ l) table h k =
      rw (match_node_eq e.value e.id table h.0 k, match_nodes_eq l table h.1 k) refl

  -- The live entries, from index `i` on.
  unfoldable pub slots : ℕ → List ℕ → List (Entry I O) → List (Slot I O)
  slots i table [] = []
  slots i table (e ∷ l) =
      record {
        idx = i;
        id = e.id;
        time = e.time;
        value = e.value;
        match_idx = matched table e.value e.id;
      }
      ∷ slots (suc i) table l
