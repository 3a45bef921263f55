-- ===== src/Arena.antt =====
-- The doubly linked list over an array of src/checker.rs (`NodeArena`), the list of live entries.
-- `none` is the panic of an index out of range. The debug assertions of `lift` and `unlift` add
-- nothing to it: an absent match is an index out of range.
pub mod Live
pub mod Unlink
pub mod Lift
pub mod Tables
pub mod Build
use porcupine_rust.Base.{
  ℕ, zero, suc, ◌+◌, ◌-◌, ◌/◌, ◌%◌, ◌^◌, Bool, Option, none, some, List, [], ◌∷◌, ◌==◌,
  if◌then◌else◌, ltb, length, get_elem?, set, replicate,
}
use porcupine_rust.Base.Do.{◌>>=◌}
use porcupine_rust.Entry.{EntryValue, Entry, is_call, is_return}

-- A `u32` index; the sentinel is 0.
abbrev pub NodeRef : Type 0
NodeRef = ℕ

-- `NodeRef::NONE`
abbrev pub no_ref : ℕ
no_ref = 2 ^ 32 - 1

-- `n as u32`
abbrev pub as_u32 : ℕ → ℕ
as_u32 n = n % 2 ^ 32

pub record Node (I O : Type 0) : Type 0 where
  pub value : Option (EntryValue I O)
  pub id : ℕ
  pub match_idx : ℕ
  pub prev : ℕ
  pub next : ℕ

abbrev pub NodeArena : Type 0 → Type 0 → Type 0
NodeArena I O = List (Node I O)

abbrev pub to_ref : ℕ → Option NodeRef
to_ref n = if n == no_ref then none else some n

module _ {I O : Type 0} where
  unfoldable pub head_next : NodeArena I O → Option (Option NodeRef)
  head_next a = do n ← get_elem? a 0; some (to_ref n.next)

  unfoldable pub next_of : NodeArena I O → NodeRef → Option (Option NodeRef)
  next_of a r = do n ← get_elem? a r; some (to_ref n.next)

  unfoldable pub match_of : NodeArena I O → NodeRef → Option (Option NodeRef)
  match_of a r = do n ← get_elem? a r; some (to_ref n.match_idx)

  -- `nodes[i].next = v` and `nodes[i].prev = v`
  unfoldable pub set_next : NodeArena I O → ℕ → ℕ → Option (NodeArena I O)
  set_next a i v = do n ← get_elem? a i; some (set a i (record n { next = v }))

  unfoldable pub set_prev : NodeArena I O → ℕ → ℕ → Option (NodeArena I O)
  set_prev a i v = do n ← get_elem? a i; some (set a i (record n { prev = v }))

  -- The neighbours of a node are made neighbours of one another.
  unfoldable pub unlink : NodeArena I O → NodeRef → Option (NodeArena I O)
  unfolding set_next set_prev
  unlink a r = do
    n ← get_elem? a r
    a' ← set_next a n.prev n.next
    if n.next == no_ref then some a' else set_prev a' n.next n.prev

  -- The neighbours of a node are made its neighbours again.
  unfoldable pub relink : NodeArena I O → NodeRef → Option (NodeArena I O)
  unfolding set_next set_prev
  relink a r = do
    n ← get_elem? a r
    a' ← set_next a n.prev r
    if n.next == no_ref then some a' else set_prev a' n.next r

  unfoldable pub lift : NodeArena I O → NodeRef → Option (NodeArena I O)
  lift a call_ref = do n ← get_elem? a call_ref; a' ← unlink a call_ref; unlink a' n.match_idx

  unfoldable pub unlift : NodeArena I O → NodeRef → Option (NodeArena I O)
  unlift a call_ref = do n ← get_elem? a call_ref; a' ← relink a n.match_idx; relink a' call_ref

  -- `if entry.value.is_return() { return_idx[entry.id] = node_ref }`
  unfoldable pub note_return : NodeRef → Entry I O → List ℕ → Option (List ℕ)
  note_return r e return_idx =
      if is_return e.value
      then (do _ ← get_elem? return_idx e.id; some (set return_idx e.id r))
      else some return_idx

  -- The first pass of `from_entries`, from entry `i` on: a slot for each entry, and the table of
  -- the return node of each operation.
  unfoldable pub allocate : ℕ → List (Entry I O) → List ℕ → Option (List (Node I O) × List ℕ)
  unfolding note_return
  allocate i [] return_idx = some ([], return_idx)
  allocate i (e ∷ entries) return_idx = do
    table ← note_return (as_u32 (i + 1)) e return_idx
    (nodes, final) ← allocate (i + 1) entries table
    let node : Node I O = record {
      value = some e.value;
      id = as_u32 e.id;
      match_idx = no_ref;
      prev = 0;
      next = no_ref;
    }
    some (node ∷ nodes, final)

  -- The second pass: the match of a call node.
  unfoldable pub match_node : List ℕ → Node I O → Option (Node I O)
  match_node return_idx n = elim n.value [
    | none ↦ some n
    | some v ↦
        if is_call v
        then (do
          ret_ref ← get_elem? return_idx n.id
          some (if ret_ref == no_ref then n else record n { match_idx = ret_ref }))
        else some n
  ]

  unfoldable pub match_nodes : List ℕ → List (Node I O) → Option (List (Node I O))
  unfolding match_node
  match_nodes return_idx [] = some []
  match_nodes return_idx (n ∷ nodes) = do
    n' ← match_node return_idx n
    rest ← match_nodes return_idx nodes
    some (n' ∷ rest)

  -- The third pass, from node `i` on: the nodes linked in order; the last keeps its `next`.
  unfoldable pub link_nodes : ℕ → ℕ → List (Node I O) → List (Node I O)
  link_nodes len i [] = []
  link_nodes len i (n ∷ nodes) =
      record n { prev = as_u32 (i - 1); next = if ltb i len then as_u32 (i + 1) else n.next }
      ∷ link_nodes len (i + 1) nodes

  unfoldable pub from_entries : List (Entry I O) → Option (NodeArena I O)
  unfolding allocate match_nodes link_nodes
  from_entries entries = do
    let n = length entries
    (nodes, return_idx) ← allocate 0 entries (replicate (n / 2) no_ref)
    matched ← match_nodes return_idx nodes
    some (
        record {
          value = none;
          id = no_ref;
          match_idx = no_ref;
          prev = 0;
          next = if ltb 0 n then 1 else no_ref;
        }
        ∷ link_nodes n 1 matched)
