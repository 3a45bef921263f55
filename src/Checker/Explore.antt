-- ===== src/Checker/Explore.antt =====
-- The search from a configuration to its answer, or to the backtracking out of it: what it finds,
-- what it leaves in the cache, and how many rounds it takes.
use mathlib.Core.List.{append_assoc, append-nil}
use porcupine_rust.Base.{
  ℕ, zero, suc, ◌+◌, ◌*◌, ◌≤◌, ◌≡◌, refl, subst, ◌∙◌, sym, arith, some, List, [], ◌∷◌, ◌++◌, Bool,
  true, false, ◌⊎◌, length,
}
use porcupine_rust.Bitset.Index.{IsWords}
use porcupine_rust.Entry.{call, return, is_call}
use porcupine_rust.Model.{Model}
use porcupine_rust.Arena.Live.{Slot, Live}
use porcupine_rust.Arena.Lift.{cursor_of}
use porcupine_rust.Checker.{
  CacheEntry, Cache, Search, next_round, returns, round, backtrack, take_back, search_loop,
}
use porcupine_rust.Checker.Remaining.{without, remaining, output_of, All, All-append, All-map}
use porcupine_rust.Checker.Pairing.{HasMatch, IsPaired, IsPaired-drop, All-calls}
use porcupine_rust.Checker.Order.{Orders, done, Tried, blocked}
use porcupine_rust.Checker.Store.{AllCached}
use porcupine_rust.Checker.Rounds.{round_return}

-- A kill flag that nobody sets.
abbrev pub never : ℕ → Bool
never _ = false

-- The rounds that an exploration takes at most, with `k` operations left and `r` entries to visit.
pub cost : ℕ → ℕ → ℕ
cost zero r = 0
cost (suc k) zero = 0
cost (suc k) (suc r) = cost k (2 * k) + cost (suc k) r + 2

pub cost-suc : (k r : ℕ) → cost (suc k) (suc r) ≡ cost k (2 * k) + cost (suc k) r + 2
unfolding cost
cost-suc k r = refl

pub cost_mono : (k r r' : ℕ) → r ≤ r' → cost k r ≤ cost k r'
unfolding cost
cost_mono zero r r' h = omega arith
cost_mono (suc k) zero r' h = omega arith
cost_mono (suc k) (suc r) zero h = absurd (omega arith)
cost_mono (suc k) (suc r) (suc r') h = omega (arith, cost_mono (suc k) r r' (omega arith))

module _ {S I O : Type 0} (m : Model S I O) where
  -- `n` rounds lead from one search to the other.
  abbrev pub Reaches : Search S I O → ℕ → Search S I O → Type 0
  Reaches st n st' = (fuel : ℕ) → search_loop m never (n + fuel) st ≡ search_loop m never fuel st'

  pub reach_here : (st : Search S I O) → Reaches st 0 st
  reach_here st fuel = let e : 0 + fuel ≡ fuel = omega arith in rw e refl

  pub reach_round : (st st' : Search S I O) → round m false st ≡ next_round st' → Reaches st 1 st'
  unfolding search_loop
  reach_round st st' e fuel = let f : 1 + fuel ≡ suc fuel = omega arith in rw (f, e) refl

  pub reach_trans :
      (st st' st'' : Search S I O) (n k : ℕ)
      → Reaches st n st'
      → Reaches st' k st''
      → Reaches st (n + k) st''
  reach_trans st st' st'' n k p q fuel =
      let e : n + k + fuel ≡ n + (k + fuel) = omega arith in rw e (p (k + fuel) ∙ q fuel)

module _ {S I O : Type 0} (m : Model S I O) (all : List (Slot I O)) (w : ℕ) where
  abbrev pub DeadEntry : CacheEntry S → Type 0
  DeadEntry e = ¬ Orders m e.state (remaining e.linearized all)

  -- Every cached configuration with fewer than `n` entries left is dead.
  abbrev pub IsSettled : ℕ → CacheEntry S → Type 0
  IsSettled n e = DeadEntry e ⊎ (n ≤ length (remaining e.linearized all))

  abbrev pub Extends : Cache S → Cache S → Type 0
  Extends c c' = (n : ℕ) → AllCached (IsSettled n) c → AllCached (IsSettled n) c'

  pub record Ready (st : Search S I O) (l a r : List (Slot I O)) : Type 0 where
    pub split : l ≡ a ++ r
    pub live : Live st.arena l
    pub paired : IsPaired l
    pub left : remaining st.linearized all ≡ l
    pub sized : length st.linearized ≡ w
    pub words : IsWords st.linearized
    pub cursor : st.cursor ≡ cursor_of r
    pub tried : All (Tried m st.state l) a
    pub cached : AllCached (IsSettled (length l)) st.cache

  pub data Explored (st : Search S I O) (l : List (Slot I O)) (bound : ℕ) : Type 0 where
    found :
        (n : ℕ) (st' : Search S I O)
        → n ≤ bound
        → Reaches m st n st'
        → round m false st' ≡ returns true
        → Orders m st.state l
        → Explored st l bound
    dead :
        (n : ℕ) (st' : Search S I O) (cache : Cache S)
        → n ≤ bound
        → Reaches m st n st'
        → round m false st' ≡ backtrack m (record st { cache = cache })
        → ¬ Orders m st.state l
        → Extends st.cache cache
        → Explored st l bound

  -- The search past the entry at the cursor, with what the cache has by then.
  abbrev pub past : Search S I O → Cache S → List (Slot I O) → Search S I O
  past st cache r = record st { cache = cache; cursor = cursor_of r }

  pub Ready-past :
      (st : Search S I O) (l a r : List (Slot I O)) (c : Slot I O) (cache : Cache S)
      → Ready st l a (c ∷ r)
      → Tried m st.state l c
      → Extends st.cache cache
      → Ready (past st cache r) l (a ++ c ∷ []) r
  Ready-past st l a r c cache h t x = record {
    split = h.split ∙ sym (append_assoc a (c ∷ []) r);
    live = h.live;
    paired = h.paired;
    left = h.left;
    sized = h.sized;
    words = h.words;
    cursor = refl;
    tried = All-append (Tried m st.state l) a (c ∷ []) h.tried (t, tt);
    cached = x (length l) h.cached;
  }

  same_backtrack :
      (st : Search S I O) (c c' : Cache S) (r : List (Slot I O))
      → backtrack m (record (past st c r) { cache = c' }) ≡ backtrack m (record st { cache = c' })
  unfolding backtrack take_back
  same_backtrack st c c' r = refl

  -- What is explored past the cursor is explored.
  pub Explored-past :
      (st : Search S I O) (l r : List (Slot I O)) (cache : Cache S) (n bound : ℕ)
      → Reaches m st n (past st cache r)
      → Extends st.cache cache
      → Explored (past st cache r) l bound
      → Explored st l (n + bound)
  Explored-past st l r cache n bound p x (found k st' le q e o) =
      found (n + k) st' (omega arith) (reach_trans m st (past st cache r) st' n k p q) e o
  Explored-past st l r cache n bound p x (dead k st' c le q e o y) =
      dead (n + k) st' c (omega arith) (reach_trans m st (past st cache r) st' n k p q)
        (e ∙ same_backtrack st cache c r) o (λ b h. y b (x b h))

  -- The list is at its end: nothing is left.
  pub Explored-end :
      (st : Search S I O) (l a : List (Slot I O)) (bound : ℕ)
      → Ready st l a []
      → Explored st l bound
  Explored-end st l a bound h =
      let calls =
        All-map (Tried m st.state l) (λ x. is_call x.value ≡ true) (λ x t. t.0) a h.tried in
      let whole : l ≡ a = h.split ∙ append-nil a in
      let empty : l ≡ [] =
        All-calls l h.paired (subst (All (λ x. is_call x.value ≡ true)) (sym whole) calls) in
      found 0 st (omega arith) (reach_here m st) (unfold round in rw h.cursor refl)
        (subst (Orders m st.state) (sym empty) (done st.state))

  -- A return at the cursor: every call before it was tried in vain.
  pub Explored-return :
      (st : Search S I O) (l a r : List (Slot I O)) (x : Slot I O) (o : O) (bound : ℕ)
      → x.value ≡ return o
      → Ready st l a (x ∷ r)
      → Explored st l bound
  Explored-return st l a r x o bound is h =
      let tail = IsPaired-drop a (x ∷ r) (subst IsPaired h.split h.paired) in
      let own : HasMatch (return o) x.id x.match_idx r = rw is at tail.0 in
      let blocks : is_call x.value ≡ false = rw is refl in
      dead 0 st st.cache (omega arith) (reach_here m st)
        (round_return m st a r x (subst (Live st.arena) h.split h.live) h.cursor own.1)
        (blocked m st.state l a r x h.split blocks h.tried) (λ n p. p)

  pub weaken :
      (st : Search S I O) (l : List (Slot I O)) (b b' : ℕ)
      → b ≤ b'
      → Explored st l b
      → Explored st l b'
  weaken st l b b' h (found n st' le q e o) = found n st' (omega arith) q e o
  weaken st l b b' h (dead n st' c le q e o x) = dead n st' c (omega arith) q e o x

  pub refute :
      (st : Search S I O) (l : List (Slot I O)) (c : Slot I O) (i : I) (o : O)
      → c.value ≡ call i
      → output_of c.id l ≡ some o
      → ((s : S) → m.step st.state i o ≡ some s → ¬ Orders m s (without c.id l))
      → Tried m st.state l c
  refute st l c i o is out h = (
    rw is refl,
    λ i' o' s is' out' stepped.
        let si : i ≡ i' = ground arith in
        let so : o ≡ o' = ground arith in h s (rw (si, so) stepped),
  )
