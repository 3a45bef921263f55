-- ===== src/Checker/Rounds.antt =====
-- One round of the search, by what stands at the cursor.
use mathlib.Core.List.{append_assoc}
use porcupine_rust.Base.{
  ℕ, ◌<◌, ◌≡◌, refl, subst, ap, ◌∙◌, sym, arith, Option, none, some, List, ◌∷◌, ◌++◌, true, false,
  ==_ne,
}
use porcupine_rust.Bitset
use porcupine_rust.Bitset.{Bitset}
use porcupine_rust.Entry.{call}
use porcupine_rust.Model.{Model}
use porcupine_rust.Arena.{NodeArena, no_ref, to_ref, match_of}
use porcupine_rust.Arena.Live.{Slot, Live, sentinel}
use porcupine_rust.Arena.Lift.{
  Linked-get_elem?, Linked-idx-lt, cursor_of, next_of_lem, head_next_lem, Lifted,
}
use porcupine_rust.Checker.{
  Cache, Search, Round, next_round, round, visit, backtrack, take_back, try_call, accept, advance,
  linearize, cache_contains_with_bit, cache_push, payload,
}
use porcupine_rust.Checker.Pairing.{Pair}

module _ {S I O : Type 0} (m : Model S I O) where
  -- The search with the cursor past the tried entries.
  abbrev pub moved : Search S I O → List (Slot I O) → Search S I O
  moved st r = record st { cursor = cursor_of r }

  pub advance_lem :
      (st : Search S I O) (k r : List (Slot I O)) (c : Slot I O)
      → Live st.arena (k ++ c ∷ r)
      → advance m st c.idx ≡ next_round (moved st r)
  unfolding advance
  advance_lem st k r c h = rw (next_of_lem k r st.arena c h) refl

  to_ref-some : (i : ℕ) → i < no_ref → to_ref i ≡ some i
  to_ref-some i h = rw (==_ne i no_ref (omega arith)) refl

  -- A return entry has the search backtrack.
  pub round_return :
      (st : Search S I O) (k r : List (Slot I O)) (x : Slot I O)
      → Live st.arena (k ++ x ∷ r)
      → st.cursor ≡ some x.idx
      → x.match_idx ≡ no_ref
      → round m false st ≡ backtrack m st
  unfolding round visit match_of
  round_return st k r x h cur none_match =
      let (q, g) = Linked-get_elem? k r st.arena 0 sentinel x h in rw (cur, g, none_match) refl

  -- What the model says of a call entry and its return.
  abbrev pub verdict : Search S I O → Slot I O → Option S → Round S I O
  verdict st c none = advance m st c.idx
  verdict st c (some s) = accept m st c.idx c.id s

  pub round_call :
      (st : Search S I O) (k r : List (Slot I O)) (c : Slot I O) (i : I) (p : Pair k r c)
      → Live st.arena (k ++ c ∷ r)
      → st.cursor ≡ some c.idx
      → c.value ≡ call i
      → round m false st ≡ verdict st c (m.step st.state i p.output)
  round_call st k r c i p h cur is =
      let (q, g) = Linked-get_elem? k r st.arena 0 sentinel c h in
      let h' : Live st.arena ((k ++ c ∷ p.between) ++ p.ret ∷ p.after) =
        subst (Live st.arena)
          (ap (λ t. k ++ c ∷ t) p.joins ∙ sym (append_assoc k (c ∷ p.between) (p.ret ∷ p.after)))
          h in
      let (q', g') = Linked-get_elem? (k ++ c ∷ p.between) p.after st.arena 0 sentinel p.ret h' in
      let fits = Linked-idx-lt (k ++ c ∷ p.between) p.after st.arena 0 sentinel p.ret h' in
      let found : match_of st.arena c.idx ≡ some (some p.ret.idx) =
        unfold match_of in rw (g, p.matched) (ap some (to_ref-some p.ret.idx fits)) in
      let tried : try_call m st c.idx p.ret.idx ≡ verdict st c (m.step st.state i p.output) =
        unfold try_call payload in
        rw (g, g', is, p.is_return) (by_verdict (m.step st.state i p.output)) in
      unfold round visit in rw (cur, found) tried
    where
      by_verdict :
          (o : Option S)
          → ◌≡◌ {A = Round S I O}
              (elim o [ none ↦ advance m st c.idx | some s ↦ accept m st c.idx c.id s ])
              (verdict st c o)
      by_verdict none = refl
      by_verdict (some s) = refl

  -- The cache holds the set with `c` and the state: the entry is passed over.
  pub accept_hit :
      (st : Search S I O) (k r : List (Slot I O)) (c : Slot I O) (s : S) (h : ℕ)
      → Live st.arena (k ++ c ∷ r)
      → Bitset.hash_with_bit st.linearized c.id ≡ some h
      → cache_contains_with_bit m st.cache h st.linearized c.id s ≡ true
      → accept m st c.idx c.id s ≡ next_round (moved st r)
  unfolding accept
  accept_hit st k r c s h live key hit = rw (key, hit) (advance_lem st k r c live)

  -- The search below: `c` is linearized.
  abbrev pub child :
      Search S I O → Slot I O → List (Slot I O) → NodeArena I O → Bitset → ℕ → S → Search S I O
  child st c l arena linearized h s = record {
    arena = arena;
    linearized = linearized;
    cache = cache_push st.cache h (record { linearized = linearized; state = s });
    calls = record { node_ref = c.idx; state = st.state } ∷ st.calls;
    state = s;
    cursor = cursor_of l;
  }

  pub accept_miss :
      (st : Search S I O) (l : List (Slot I O)) (c : Slot I O) (s : S) (h : ℕ) (b : Bitset)
      (up : Lifted st.arena c l)
      → Bitset.hash_with_bit st.linearized c.id ≡ some h
      → cache_contains_with_bit m st.cache h st.linearized c.id s ≡ false
      → Bitset.set st.linearized c.id ≡ some b
      → accept m st c.idx c.id s ≡ next_round (child st c l up.arena b h s)
  unfolding accept linearize
  accept_miss st l c s h b up key miss grown =
      rw (key, miss, grown, up.lifts, head_next_lem up.arena l up.live) refl

  -- Backtracking out of the search below gives the search above back, past `c`, but for the cache.
  pub backtrack-child :
      (st : Search S I O) (k r l : List (Slot I O)) (c : Slot I O) (s : S) (h : ℕ) (b : Bitset)
      (cache : Cache S) (up : Lifted st.arena c l)
      → Live st.arena (k ++ c ∷ r)
      → Bitset.clear b c.id ≡ some st.linearized
      → backtrack m (record (child st c l up.arena b h s) { cache = cache })
        ≡ next_round (record st { cache = cache; cursor = cursor_of r })
  unfolding backtrack take_back
  backtrack-child st k r l c s h b cache up live shrunk =
      rw (up.reads, up.keeps_id, shrunk, up.unlifts, next_of_lem k r st.arena c live) refl
