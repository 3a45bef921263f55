-- ===== src/Checker.antt =====
-- `check_single` of src/checker.rs: the depth-first search for a linearization of one partition.
pub mod Remaining
pub mod Pairing
pub mod Order
pub mod Store
pub mod Rounds
pub mod Explore
pub mod AtCall
pub mod Descend
pub mod Decide
pub mod Verdict
pub mod Load
pub mod Correct
pub mod Linearizable
pub mod Numbered
pub mod Covers
pub mod Bridge
pub mod Initial
pub mod History
pub mod PowerSet
use porcupine_rust.Base.{
  ℕ, zero, suc, ◌/◌, Bool, true, false, ◌&&◌, Option, none, some, List, [], ◌∷◌, ◌++◌, ◌==◌,
  if◌then◌else◌, length, get_elem?,
}
use porcupine_rust.Bitset
use porcupine_rust.Bitset.{Bitset}
use porcupine_rust.Model.{Model}
use porcupine_rust.Entry.{EntryValue, Entry}
use porcupine_rust.Arena.{
  NodeArena, NodeRef, head_next, next_of, match_of, lift, unlift, from_entries,
}

pub record CacheEntry (S : Type 0) : Type 0 where
  pub linearized : Bitset
  pub state : S

-- `FxHashMap<u64, SmallVec<[CacheEntry<S>; 2]>>`: the buckets by key, each with its entries in
-- the order of insertion.
abbrev pub Cache : Type 0 → Type 0
Cache S = List (ℕ × List (CacheEntry S))

pub record CallFrame (S : Type 0) : Type 0 where
  pub node_ref : NodeRef
  pub state : S

-- The local variables of `check_single`.
pub record Search (S I O : Type 0) : Type 0 where
  pub arena : NodeArena I O
  pub linearized : Bitset
  pub cache : Cache S
  pub calls : List (CallFrame S)
  pub state : S
  pub cursor : Option NodeRef

-- How one round of the loop ends.
pub data Round (S I O : Type 0) : Type 0 where
  next_round : Search S I O → Round S I O
  returns : Bool → Round S I O
  panics : Round S I O

-- A step that may panic, in a round.
infixl 5 ◌>>=◌
abbrev pub ◌>>=◌ : {S I O A : Type 0} → Option A → (A → Round S I O) → Round S I O
none >>= f = panics
some a >>= f = f a

pub data Outcome : Type 0 where
  returned : Bool → Outcome
  panicked out_of_fuel : Outcome

module _ {S : Type 0} where
  -- `cache.get(&hash)`
  unfoldable pub bucket : Cache S → ℕ → List (CacheEntry S)
  bucket [] hash = []
  bucket ((key, entries) ∷ cache) hash = if key == hash then entries else bucket cache hash

  -- `cache.entry(h).or_insert_with(SmallVec::new).push(e)`
  unfoldable pub cache_push : Cache S → ℕ → CacheEntry S → Cache S
  cache_push [] hash e = (hash, e ∷ []) ∷ []
  cache_push ((key, entries) ∷ cache) hash e =
      if key == hash
      then (key, entries ++ e ∷ []) ∷ cache
      else (key, entries) ∷ cache_push cache hash e

module _ {S I O : Type 0} (m : Model S I O) where
  unfoldable pub scan_bucket : List (CacheEntry S) → Bitset → ℕ → S → Bool
  scan_bucket [] bitset bit_pos state = false
  scan_bucket (e ∷ entries) bitset bit_pos state =
      if Bitset.eq_with_bit bitset bit_pos e.linearized && m.state_eq e.state state
      then true
      else scan_bucket entries bitset bit_pos state

  unfoldable pub cache_contains_with_bit : Cache S → ℕ → Bitset → ℕ → S → Bool
  unfolding bucket scan_bucket
  cache_contains_with_bit cache hash bitset bit_pos state =
      scan_bucket (bucket cache hash) bitset bit_pos state

  -- The cache miss: the operation at `idx` is linearized.
  unfoldable pub linearize : Search S I O → NodeRef → ℕ → ℕ → S → Round S I O
  linearize st idx op_id h next_state = do
    new_linearized ← Bitset.set st.linearized op_id
    linearized ← Bitset.set st.linearized op_id
    arena ← lift st.arena idx
    cursor ← head_next arena
    next_round (record {
      arena = arena;
      linearized = linearized;
      cache = cache_push st.cache h (record { linearized = new_linearized; state = next_state });
      calls = record { node_ref = idx; state = st.state } ∷ st.calls;
      state = next_state;
      cursor = cursor;
    })

  -- The cursor moves on past `idx`.
  unfoldable pub advance : Search S I O → NodeRef → Round S I O
  advance st idx = do cursor ← next_of st.arena idx; next_round (record st { cursor = cursor })

  -- The model accepts the operation at `idx`, with the state after it.
  unfoldable pub accept : Search S I O → NodeRef → ℕ → S → Round S I O
  unfolding cache_contains_with_bit linearize advance
  accept st idx op_id next_state = do
    h ← Bitset.hash_with_bit st.linearized op_id
    if cache_contains_with_bit st.cache h st.linearized op_id next_state
        then advance st idx
        else linearize st idx op_id h next_state

  -- `unreachable!` panics.
  unfoldable pub payload : Option (EntryValue I O) → Option (EntryValue I O) → Option (I × O)
  payload (some (EntryValue.call i)) (some (EntryValue.return o)) = some (i, o)
  payload _ _ = none

  -- A call node, with its return node.
  unfoldable pub try_call : Search S I O → NodeRef → NodeRef → Round S I O
  unfolding accept advance payload
  try_call st idx ret_ref = do
    call ← get_elem? st.arena idx
    ret ← get_elem? st.arena ret_ref
    (input, output) ← payload call.value ret.value
    elim (m.step st.state input output) [
      | none ↦ advance st idx
      | some next_state ↦ accept st idx call.id next_state
    ]

  -- The last linearized operation is taken back.
  unfoldable pub take_back : CallFrame S → List (CallFrame S) → Search S I O → Round S I O
  take_back frame calls st = do
    node ← get_elem? st.arena frame.node_ref
    linearized ← Bitset.clear st.linearized node.id
    arena ← unlift st.arena frame.node_ref
    cursor ← next_of arena frame.node_ref
    next_round (record {
      arena = arena;
      linearized = linearized;
      cache = st.cache;
      calls = calls;
      state = frame.state;
      cursor = cursor;
    })

  -- A return node blocks the search.
  unfoldable pub backtrack : Search S I O → Round S I O
  unfolding take_back
  backtrack st = elim st.calls [ [] ↦ returns false | frame ∷ calls ↦ take_back frame calls st ]

  unfoldable pub visit : Search S I O → NodeRef → Round S I O
  unfolding try_call backtrack
  visit st idx = do
    found ← match_of st.arena idx
    elim found [ none ↦ backtrack st | some ret_ref ↦ try_call st idx ret_ref ]

  -- The body of the loop; `kill` is what the load of the kill flag gives.
  unfoldable pub round : Bool → Search S I O → Round S I O
  unfolding visit
  round kill st =
      if kill
      then returns false
      else elim st.cursor [ none ↦ returns true | some idx ↦ visit st idx ]

  -- `kill` gives, for the number of rounds left, what the flag reads in that round: other threads
  -- may set it at any time.
  unfoldable pub search_loop : (ℕ → Bool) → ℕ → Search S I O → Outcome
  unfolding round
  search_loop kill zero st = out_of_fuel
  search_loop kill (suc fuel) st = elim (round (kill fuel) st) [
    | next_round st' ↦ search_loop kill fuel st'
    | returns b ↦ returned b
    | panics ↦ panicked
  ]

  unfoldable pub start : NodeArena I O → ℕ → Option NodeRef → Search S I O
  start arena n_ops cursor = record {
    arena = arena;
    linearized = Bitset.new n_ops;
    cache = [];
    calls = [];
    state = m.init;
    cursor = cursor;
  }

  -- The search over an arena, with its first cursor.
  unfoldable pub search : (ℕ → Bool) → ℕ → ℕ → NodeArena I O → Outcome
  unfolding search_loop start
  search kill fuel n_ops arena = elim (head_next arena) [
    | none ↦ panicked
    | some cursor ↦ search_loop kill fuel (start arena n_ops cursor)
  ]

  unfoldable pub check_single : (ℕ → Bool) → ℕ → List (Entry I O) → Outcome
  unfolding search
  check_single kill fuel [] = returned true
  check_single kill fuel (e ∷ entries) = elim (from_entries (e ∷ entries)) [
    | none ↦ panicked
    | some arena ↦ search kill fuel (length (e ∷ entries) / 2) arena
  ]
