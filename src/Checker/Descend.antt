-- ===== src/Checker/Descend.antt =====
-- A call at the cursor: rejected, known from the cache, or linearized and explored below.
use porcupine_rust.Base.{
  ℕ, ◌+◌, ◌/◌, ◌<◌, ◌≡◌, refl, ap, ◌∙◌, arith, some, List, [], ◌∷◌, ◌++◌, true, false, Bool-cases,
  Option-cases, inl, inr, length,
}
use porcupine_rust.Bitset.Probe.{eq_with_bit_iff}
use porcupine_rust.Entry.{call, is_call}
use porcupine_rust.Model.{Model, EqIsSound}
use porcupine_rust.Arena.Live.{Slot}
use porcupine_rust.Checker.{CacheEntry, Search, next_round, round, accept, cache_contains_with_bit}
use porcupine_rust.Checker.Remaining.{without, remaining, All, All-map}
use porcupine_rust.Checker.Pairing.{IsPaired-without}
use porcupine_rust.Checker.Order.{Orders, pick, Tried}
use porcupine_rust.Checker.Store.{AllCached-push, AllCached-map, cache_contains-Hit}
use porcupine_rust.Checker.Rounds.{
  moved, round_call, verdict, accept_hit, child, accept_miss, backtrack-child, advance_lem,
}
use porcupine_rust.Checker.Explore.{
  Reaches, reach_round, reach_trans, IsSettled, Ready, Extends, Explored, found, dead, past,
  Explored-past, weaken, refute, Ready-past,
}
use porcupine_rust.Checker.AtCall.{AtCall, at_call}

module _ {S I O : Type 0} (m : Model S I O) (all : List (Slot I O)) (w : ℕ) where
  -- A call that was tried in vain is passed over in one round.
  pass_over :
      (st : Search S I O) (l a r : List (Slot I O)) (c : Slot I O) (bound : ℕ)
      → Ready m all w st l a (c ∷ r)
      → Tried m st.state l c
      → round m false st ≡ next_round (moved m st r)
      → ((st' : Search S I O) → Ready m all w st' l (a ++ c ∷ []) r → Explored m all w st' l bound)
      → Explored m all w st l (1 + bound)
  pass_over st l a r c bound h t e rest =
      Explored-past m all w st l r st.cache 1 bound (reach_round m st (moved m st r) e) (λ n p. p)
        (rest (moved m st r) (Ready-past m all w st l a r c st.cache h t (λ n p. p)))

  module _ (sound : EqIsSound m) (st : Search S I O) (l a r : List (Slot I O)) (c : Slot I O)
      (i : I) (x : AtCall m all w st l a r c i) (s : S)
      (stepped : m.step st.state i x.pair.output ≡ some s) where
    open x use {
      ready, is, pair, here, out, in_range, grown, sets, grown_sized, grown_words, clears,
      grown_left, fewer, key, hashes, up,
    }

    accepted : round m false st ≡ accept m st c.idx c.id s
    accepted = round_call m st a r c i pair here ready.cursor is ∙ ap (verdict m st c) stepped

    abbrev entry : CacheEntry S
    entry = record { linearized = grown; state = s }

    -- A hit of the cache is a dead configuration.
    hit_dead :
        cache_contains_with_bit m st.cache key st.linearized c.id s ≡ true
        → ¬ Orders m s (without c.id l)
    hit_dead e =
        let hit =
          cache_contains-Hit m (IsSettled m all w (length l)) st.cache key st.linearized c.id s
            ready.cached e in
        let set_eq =
          (eq_with_bit_iff st.linearized c.id hit.entry.linearized in_range).0 hit.same_set in
        let same : hit.entry.linearized ≡ grown = ground arith in
        let left : remaining hit.entry.linearized all ≡ without c.id l =
          ap (λ b. remaining b all) same ∙ grown_left in
        elim hit.holds [
          | inl d ↦ λ o. d (rw (sound hit.entry.state s hit.same_state, left) o)
          | inr n ↦ absurd (omega (arith, fewer, ap length left))
        ]

    settle :
        (e : CacheEntry S)
        → IsSettled m all w (length l) e
        → IsSettled m all w (length (without c.id l)) e
    settle e (inl d) = inl d
    settle e (inr n) = inr (omega (arith, fewer))

    abbrev below : Search S I O
    below = child m st c (without c.id l) up.arena grown key s

    -- The search below is ready.
    below-Ready : Ready m all w below (without c.id l) [] (without c.id l)
    below-Ready = record {
      split = refl;
      live = up.live;
      paired = IsPaired-without c.id l ready.paired;
      left = grown_left;
      sized = grown_sized;
      words = grown_words;
      cursor = refl;
      tried = tt;
      cached =
          AllCached-push (IsSettled m all w (length (without c.id l))) st.cache key entry
            (AllCached-map (IsSettled m all w (length l))
              (IsSettled m all w (length (without c.id l))) (λ e. settle e) st.cache ready.cached)
            (inr (omega (arith, ap length grown_left)));
    }

    order_below : Orders m s (without c.id l) → Orders m st.state l
    order_below =
        pick a r c i pair.output ready.split
          (All-map (Tried m st.state l) (λ y. is_call y.value ≡ true) (λ y t. t.0) a ready.tried) is
          out stepped

    -- The search goes below, and past the call if it comes back.
    descend :
        (b b' : ℕ)
        → cache_contains_with_bit m st.cache key st.linearized c.id s ≡ false
        → Explored m all w below (without c.id l) b
        → ((st' : Search S I O) → Ready m all w st' l (a ++ c ∷ []) r → Explored m all w st' l b')
        → Explored m all w st l (b + b' + 2)
    descend b b' miss (found n st' le q e o) rest =
        found (1 + n) st' (omega arith)
          (reach_trans m st below st' 1 n (reach_round m st below entered) q) e (order_below o)
      where
        entered : round m false st ≡ next_round below
        entered = accepted ∙ accept_miss m st (without c.id l) c s key grown up hashes miss sets
    descend b b' miss (dead n st' cache le q e o x) rest =
        weaken m all w st l (1 + n + 1 + b') (b + b' + 2) (omega arith) (
          Explored-past m all w st l r cache (1 + n + 1) b' there extended (
            rest (past m all w st cache r)
              (Ready-past m all w st l a r c cache ready vain extended)))
      where
        entered : round m false st ≡ next_round below
        entered = accepted ∙ accept_miss m st (without c.id l) c s key grown up hashes miss sets

        left_by : round m false st' ≡ next_round (past m all w st cache r)
        left_by = e ∙ backtrack-child m st a r (without c.id l) c s key grown cache up here clears

        there : Reaches m st (1 + n + 1) (past m all w st cache r)
        there =
            reach_trans m st st' (past m all w st cache r) (1 + n) 1
              (reach_trans m st below st' 1 n (reach_round m st below entered) q)
              (reach_round m st' (past m all w st cache r) left_by)

        extended : Extends m all w st.cache cache
        extended k h = x k (
            AllCached-push (IsSettled m all w k) st.cache key entry h
              (inl (λ d. o (rw grown_left at d))))

        vain : Tried m st.state l c
        vain =
            refute m all w st l c i pair.output is out
              (λ s' stepped' o'. let same : s ≡ s' = ground arith in o (rw same o'))

  -- A call at the cursor, given the searches below and past it.
  pub Explored-call :
      (sound : EqIsSound m) (fits : All (λ s. s.id / 64 < w) all) (st : Search S I O)
      (l a r : List (Slot I O)) (c : Slot I O) (i : I) (b b' : ℕ)
      → c.value ≡ call i
      → Ready m all w st l a (c ∷ r)
      → ((st' : Search S I O)
          → Ready m all w st' (without c.id l) [] (without c.id l)
          → Explored m all w st' (without c.id l) b)
      → ((st' : Search S I O) → Ready m all w st' l (a ++ c ∷ []) r → Explored m all w st' l b')
      → Explored m all w st l (b + b' + 2)
  Explored-call sound fits st l a r c i b b' is h down rest =
      let x = at_call m all w st l a r c i fits h is in
      let skip = λ (t : Tried m st.state l c) (e : round m false st ≡ next_round (moved m st r)).
        weaken m all w st l (1 + b') (b + b' + 2) (omega arith)
          (pass_over st l a r c b' h t e rest) in
      elim (Option-cases (m.step st.state i x.pair.output)) [
        | inl none_eq ↦ skip (refute m all w st l c i x.pair.output is x.out (λ s e. absurd (cc))) (
            round_call m st a r c i x.pair x.here h.cursor is
            ∙ ap (verdict m st c) none_eq
            ∙ advance_lem m st a r c x.here)
        | inr (s, stepped) ↦
            elim (Bool-cases (cache_contains_with_bit m st.cache x.key st.linearized c.id s)) [
              | inl hit ↦
                  skip
                    (refute m all w st l c i x.pair.output is x.out (λ s' stepped' o'.
                      let same : s ≡ s' = ground arith in
                      hit_dead sound st l a r c i x s stepped hit (rw same o')))
                    (accepted sound st l a r c i x s stepped
                      ∙ accept_hit m st a r c s x.key x.here x.hashes hit)
              | inr miss ↦
                  descend sound st l a r c i x s stepped b b' miss
                    (down _ (below-Ready sound st l a r c i x s stepped)) rest
            ]
      ]
