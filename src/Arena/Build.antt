-- ===== src/Arena/Build.antt =====
-- `from_entries` makes an arena whose live list is the entries, in order.
use mathlib.Core.List.{append_assoc}
use porcupine_rust.Base.{
  ℕ, suc, ◌+◌, ◌-◌, ◌/◌, ◌^◌, ◌≤◌, ◌<◌, ◌≡◌, refl, subst, ap, ◌∙◌, sym, arith, none, some, List, [],
  ◌∷◌, ◌++◌, if◌then◌else◌, length, get_elem?, replicate, ltb, length-append, map,
}
use porcupine_rust.Entry.{Entry}
use porcupine_rust.Entry.Paired.{All}
use porcupine_rust.Arena.{NodeArena, Node, no_ref, as_u32, link_nodes, from_entries}
use porcupine_rust.Arena.Live.{head_idx, Chain, Live}
use porcupine_rust.Arena.Tables.{
  length-replicate, noted, length-noted, IdsBelow, allocate_eq, joined, match_nodes_eq, slots,
}

module _ {I O : Type 0} where
  get_elem?-middle :
      (k l : List (Node I O)) (n : Node I O) → get_elem? (k ++ n ∷ l) (length k) ≡ some n
  get_elem?-middle [] l n = refl
  get_elem?-middle (x ∷ k) l n = get_elem?-middle k l n

  head_idx-slots :
      (n i : ℕ) (table : List ℕ) (l : List (Entry I O))
      → i + length l ≡ n
      → n < no_ref
      → head_idx (slots (suc i) table l) ≡ (if ltb i n then as_u32 (i + 1) else no_ref)
  unfolding slots
  head_idx-slots n i table [] h k = ground arith
  head_idx-slots n i table (e ∷ l) h k = ground arith

  -- After the third pass the nodes from `i` on are linked to the node before.
  Chain-link_nodes :
      (n p : ℕ) (table : List ℕ) (k : NodeArena I O) (l : List (Entry I O))
      → length k ≡ suc p
      → p + length l ≡ n
      → n < no_ref
      → All (λ e. e.id < 2 ^ 32) l
      → Chain (k ++ link_nodes n (suc p) (map (joined table) l)) p (slots (suc p) table l)
  unfolding link_nodes slots
  Chain-link_nodes n p table k [] h e b ids = tt
  Chain-link_nodes n p table k (x ∷ l) h e b ids =
      let rest = link_nodes n (suc p + 1) (map (joined table) l) in
      let one : suc p + 1 ≡ suc (suc p) = omega arith in
      let nd : Node I O = record (joined table x) {
        prev = as_u32 (suc p - 1);
        next = if ltb (suc p) n then as_u32 (suc p + 1) else no_ref;
      } in
      let own : as_u32 x.id ≡ x.id = let lt : x.id < 2 ^ 32 = ids.0 in omega arith in
      let before : as_u32 (suc p - 1) ≡ p = omega arith in
      let after = head_idx-slots n (suc p) table l (omega arith) b in
      let found : get_elem? (k ++ nd ∷ rest) (suc p) ≡ some nd =
        subst (λ t. get_elem? (k ++ nd ∷ rest) t ≡ some nd) h (get_elem?-middle k rest nd) in
      let tail =
        Chain-link_nodes n (suc p) table (k ++ nd ∷ []) l (omega (arith, length-append k (nd ∷ [])))
          (omega arith) b ids.1 in
      (
        (omega arith),
        (omega arith),
        found ∙ ap some (rw (own, before, ← after) refl),
        subst (λ a. Chain a (suc p) (slots (suc (suc p)) table l))
            (append_assoc k (nd ∷ []) _
              ∙ ap (λ t. k ++ nd ∷ link_nodes n t (map (joined table) l)) (sym one))
            tail,
      )

  IdsBelow-mono : (n n' : ℕ) (l : List (Entry I O)) → n ≤ n' → IdsBelow n l → IdsBelow n' l
  IdsBelow-mono n n' [] h p = tt
  IdsBelow-mono n n' (e ∷ l) h p =
      (let lt : e.id < n = p.0 in omega arith, IdsBelow-mono n n' l h p.1)

  -- The table of the return nodes, as `from_entries` fills it.
  abbrev pub return_table : List (Entry I O) → List ℕ
  return_table l = noted 0 l (replicate (length l / 2) no_ref)

  -- With ids below half the length, and the indices within 32 bits, `from_entries` returns an
  -- arena whose live list is the entries in order.
  pub from_entries-Live :
      (l : List (Entry I O))
      → All (λ e. e.id < length l / 2) l
      → length l < no_ref
      → (a : NodeArena I O) × (from_entries l ≡ some a) × Live a (slots 1 (return_table l) l)
  unfolding from_entries
  from_entries-Live l ids fits =
      let t = replicate {A = ℕ} (length l / 2) no_ref in
      let size : length t ≡ length l / 2 = length-replicate (length l / 2) no_ref in
      let table = return_table l in
      let size' : length table ≡ length l / 2 = length-noted 0 l t ∙ size in
      let head : Node I O = record {
        value = none;
        id = no_ref;
        match_idx = no_ref;
        prev = 0;
        next = if ltb 0 (length l) then 1 else no_ref;
      } in
      let first = head_idx-slots (length l) 0 table l (omega arith) fits in
      let chain =
        Chain-link_nodes (length l) 0 table (head ∷ []) l refl (omega arith) fits
          (IdsBelow-mono (length l / 2) (2 ^ 32) l (omega arith) ids) in
      (
        head ∷ link_nodes (length l) 1 (map (joined table) l),
        rw
            (
              allocate_eq 0 l t (subst (λ n. IdsBelow n l) (sym size) ids),
              match_nodes_eq l table (subst (λ n. IdsBelow n l) (sym size') ids) (omega arith),
            )
            refl,
        (ap some (rw (← first) refl), chain),
      )
