-- ===== src/Arena/Live.antt =====
-- What an arena holds: the list of its live entries, each with its own index.
use porcupine_rust.Base.{
  ℕ, ◌<◌, ◌≡◌, refl, ap, ◌∙◌, arith, none, some, List, [], ◌∷◌, ◌==◌, get_elem?, set,
  get_elem?-set_self, get_elem?-set_ne, Bool-cases, inl, inr, ==_iff,
}
use mathlib.Core.Option
use porcupine_rust.Entry.{EntryValue}
use porcupine_rust.Arena.{NodeArena, Node, no_ref}

pub record Slot (I O : Type 0) : Type 0 where
  pub idx : ℕ
  pub id : ℕ
  pub time : ℕ
  pub value : EntryValue I O
  pub match_idx : ℕ

module _ {I O : Type 0} where
  abbrev pub head_idx : List (Slot I O) → ℕ
  head_idx [] = no_ref
  head_idx (s ∷ l) = s.idx

  -- The node of `s` between the node at `p` and the slots `l`.
  abbrev pub node_of : ℕ → Slot I O → List (Slot I O) → Node I O
  node_of p s l = record {
    value = some s.value;
    id = s.id;
    match_idx = s.match_idx;
    prev = p;
    next = head_idx l;
  }

  -- From the node at `p` on, the nodes of the slots are linked in order, at rising indices.
  abbrev pub Chain : NodeArena I O → ℕ → List (Slot I O) → Type 0
  Chain a p [] = Unit {0}
  Chain a p (s ∷ l) =
      (p < s.idx) × (s.idx < no_ref) × (get_elem? a s.idx ≡ some (node_of p s l)) × Chain a s.idx l

  abbrev pub Linked : NodeArena I O → ℕ → Node I O → List (Slot I O) → Type 0
  Linked a p n l = (get_elem? a p ≡ some (record n { next = head_idx l })) × Chain a p l

  abbrev pub sentinel : Node I O
  sentinel = record { value = none; id = no_ref; match_idx = no_ref; prev = 0; next = no_ref }

  -- The live list of `a` is `l`.
  abbrev pub Live : NodeArena I O → List (Slot I O) → Type 0
  Live a l = Linked a 0 sentinel l

  -- A chain depends on the nodes past its start alone.
  pub Chain-frame :
      (a a' : NodeArena I O) (p : ℕ) (l : List (Slot I O))
      → ((j : ℕ) → p < j → get_elem? a' j ≡ get_elem? a j)
      → Chain a p l
      → Chain a' p l
  Chain-frame a a' p [] h c = tt
  Chain-frame a a' p (s ∷ l) h c = (
    c.0,
    c.1,
    h s.idx c.0 ∙ c.2,
    Chain-frame a a' s.idx l (λ j q. h j (let lt : p < s.idx = c.0 in omega arith)) c.3,
  )

  -- A node without its links.
  abbrev pub fixed : Node I O → Node I O
  fixed n = record n { prev = 0; next = 0 }

  -- Every node of `a'` is that of `a`, but for the links.
  abbrev pub SameFixed : NodeArena I O → NodeArena I O → Type 0
  SameFixed a a' = (j : ℕ) → Option.map fixed (get_elem? a' j) ≡ Option.map fixed (get_elem? a j)

  pub SameFixed-set :
      (a : NodeArena I O) (i : ℕ) (n n' : Node I O)
      → get_elem? a i ≡ some n
      → fixed n' ≡ fixed n
      → SameFixed a (set a i n')
  SameFixed-set a i n n' g e j = elim (Bool-cases (i == j)) [
    | inl y ↦
        let s : i ≡ j = (==_iff i j).0 y in rw (← s, get_elem?-set_self a i n' n g, g) (ap some e)
    | inr y ↦ rw (get_elem?-set_ne a i j n' (ground arith)) refl
  ]

  pub SameFixed-get_elem? :
      (a a' : NodeArena I O) (j : ℕ) (n : Node I O)
      → SameFixed a a'
      → get_elem? a j ≡ some n
      → (n' : Node I O) × (get_elem? a' j ≡ some n') × (fixed n' ≡ fixed n)
  SameFixed-get_elem? a a' j n h g = ground (arith, h j)
