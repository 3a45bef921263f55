-- ===== src/Checker/Verdict.antt =====
-- `search` over an arena: its verdict, the rounds that suffice, and the kill flag.
use porcupine_rust.Base.{
  ℕ, zero, suc, ◌+◌, ◌-◌, ◌*◌, ◌/◌, ◌≤◌, ◌<◌, ◌≡◌, refl, ◌∙◌, sym, arith, List, [], Bool, true,
  false, inl, inr, ◌⊎◌, length,
}
use porcupine_rust.Bitset
use porcupine_rust.Bitset.Member.{new_lem}
use porcupine_rust.Model.{Model, EqIsSound}
use porcupine_rust.Arena.{NodeArena}
use porcupine_rust.Arena.Live.{Slot, Live}
use porcupine_rust.Arena.Lift.{cursor_of, head_next_lem}
use porcupine_rust.Checker.{
  Search, Round, next_round, returns, panics, round, backtrack, search_loop, search, start, Outcome,
  returned, panicked,
}
use porcupine_rust.Checker.Remaining.{All, All-map, remaining_all}
use porcupine_rust.Checker.Pairing.{IsPaired}
use porcupine_rust.Checker.Order.{Orders}
use porcupine_rust.Checker.Explore.{
  never, Reaches, Ready, Explored, found, dead, cost, cost_mono, weaken,
}
use porcupine_rust.Checker.Decide.{explore}

-- Rounds that suffice for `n` operations.
pub enough_fuel : ℕ → ℕ
enough_fuel n = cost n (2 * n) + 1

-- The three ends of a round.
data Ending {S I O : Type 0} (r : Round S I O) : Type 0 where
  goes_on : (st : Search S I O) → r ≡ next_round st → Ending r
  answers : (b : Bool) → r ≡ returns b → Ending r
  stops : r ≡ panics → Ending r

ending : {S I O : Type 0} (r : Round S I O) → Ending r
ending (next_round st) = goes_on st refl
ending (returns b) = answers b refl
ending panics = stops refl

module _ {S I O : Type 0} (m : Model S I O) where
  -- What the loop makes of a round.
  after_round : (ℕ → Bool) → ℕ → Round S I O → Outcome
  after_round kill fuel (next_round st') = search_loop m kill fuel st'
  after_round kill fuel (returns b) = returned b
  after_round kill fuel panics = panicked

  loop_round :
      (kill : ℕ → Bool) (fuel : ℕ) (st : Search S I O) (r : Round S I O)
      → round m (kill fuel) st ≡ r
      → search_loop m kill (suc fuel) st ≡ after_round kill fuel r
  unfolding search_loop after_round
  loop_round kill fuel st (next_round st') e = rw (e, search_loop) refl
  loop_round kill fuel st (returns b) e = rw (e, search_loop) refl
  loop_round kill fuel st panics e = rw (e, search_loop) refl

  -- More fuel than needed changes nothing.
  pub search_loop-add :
      (kill : ℕ → Bool) (fuel k : ℕ) (st : Search S I O) (b : Bool)
      → search_loop m never fuel st ≡ returned b
      → search_loop m never (fuel + k) st ≡ returned b
  unfolding search_loop
  search_loop-add kill zero k st b h = absurd (cc)
  search_loop-add kill (suc fuel) k st b h =
      let more : suc fuel + k ≡ suc (fuel + k) = omega arith in
      rw more (by_ending (search_loop-add kill fuel k) (ending (round m false st)))
    where
      by_ending :
          ((st' : Search S I O) (b' : Bool)
            → search_loop m never fuel st' ≡ returned b'
            → search_loop m never (fuel + k) st' ≡ returned b')
          → Ending (round m false st)
          → search_loop m never (suc (fuel + k)) st ≡ returned b
      by_ending rest (goes_on st' e) = rw e (rest st' b (rw e at h))
      by_ending rest (answers b' e) = rw e (rw e at h)
      by_ending rest (stops e) = rw e (rw e at h)

  killed_round :
      (kill : Bool) (st : Search S I O)
      → (round m kill st ≡ returns false) ⊎ (round m kill st ≡ round m false st)
  unfolding round
  killed_round true st = inl refl
  killed_round false st = inr refl

  -- A kill flag can turn another answer into false, and none into true.
  pub search_loop-kill :
      (kill : ℕ → Bool) (fuel : ℕ) (st : Search S I O)
      → search_loop m kill fuel st ≡ returned true
      → search_loop m never fuel st ≡ returned true
  unfolding search_loop after_round
  search_loop-kill kill zero st h = absurd (cc)
  search_loop-kill kill (suc fuel) st h = elim (killed_round (kill fuel) st) [
    | inl e ↦ absurd (cc (sym (loop_round kill fuel st (returns false) e) ∙ h))
    | inr e ↦ by_ending (search_loop-kill kill fuel) e (ending (round m false st))
  ]
    where
      by_ending :
          ((st' : Search S I O)
            → search_loop m kill fuel st' ≡ returned true
            → search_loop m never fuel st' ≡ returned true)
          → round m (kill fuel) st ≡ round m false st
          → Ending (round m false st)
          → search_loop m never (suc fuel) st ≡ returned true
      by_ending rest k (goes_on st' e) =
          loop_round never fuel st (next_round st') e
          ∙ rest st' (sym (loop_round kill fuel st (next_round st') (k ∙ e)) ∙ h)
      by_ending rest k (answers b e) =
          loop_round never fuel st (returns b) e
          ∙ sym (loop_round kill fuel st (returns b) (k ∙ e))
          ∙ h
      by_ending rest k (stops e) =
          loop_round never fuel st panics e ∙ sym (loop_round kill fuel st panics (k ∙ e)) ∙ h

  -- Whether the loop from `st` finds an order of `l`: with the fuel given it returns the answer.
  pub data Decision (fuel n_ops : ℕ) (a : NodeArena I O) (l : List (Slot I O)) : Type 0 where
    linearizable :
        search m never fuel n_ops a ≡ returned true → Orders m m.init l → Decision fuel n_ops a l
    illegal :
        search m never fuel n_ops a ≡ returned false → ¬ Orders m m.init l → Decision fuel n_ops a l

module _ {S I O : Type 0} (m : Model S I O) (sound : EqIsSound m) where
  initial :
      (a : NodeArena I O) (l : List (Slot I O)) (n_ops : ℕ)
      → Live a l
      → IsPaired l
      → Ready m l (length (Bitset.new n_ops)) (start m a n_ops (cursor_of l)) l [] l
  unfolding start
  initial a l n_ops live paired =
      let (words, sized, none_set) = new_lem n_ops in
      record {
        split = refl;
        live = live;
        paired = paired;
        left = remaining_all (Bitset.new n_ops) l none_set;
        sized = refl;
        words = words;
        cursor = refl;
        tried = tt;
        cached = tt;
      }

  ids_fit :
      (l : List (Slot I O)) (n_ops : ℕ)
      → All (λ s. s.id < n_ops) l
      → All (λ s. s.id / 64 < length (Bitset.new n_ops)) l
  ids_fit l n_ops =
      All-map (λ s. s.id < n_ops) (λ s. s.id / 64 < length (Bitset.new n_ops))
        (λ s h. (new_lem n_ops).1 s.id h) l

  search_starts :
      (kill : ℕ → Bool) (fuel n_ops : ℕ) (a : NodeArena I O) (l : List (Slot I O))
      → Live a l
      → search m kill fuel n_ops a ≡ search_loop m kill fuel (start m a n_ops (cursor_of l))
  unfolding search
  search_starts kill fuel n_ops a l live = rw (head_next_lem a l live, search) refl

  -- With fuel for the rounds and one more, the answer of the last round is returned.
  answered :
      (n bound fuel : ℕ) (b : Bool) (st st' : Search S I O)
      → n ≤ bound
      → bound + 1 ≤ fuel
      → Reaches m st n st'
      → round m false st' ≡ returns b
      → search_loop m never fuel st ≡ returned b
  unfolding after_round
  answered n bound fuel b st st' le enough q ans =
      let f : fuel ≡ n + suc (fuel - n - 1) = omega arith in
      rw f (q (suc (fuel - n - 1)) ∙ loop_round m never (fuel - n - 1) st' (returns b) ans)

  decide :
      (a : NodeArena I O) (l : List (Slot I O)) (n_ops fuel : ℕ)
      → Live a l
      → enough_fuel n_ops ≤ fuel
      → Explored m l
          (length (Bitset.new n_ops))
          (start m a n_ops (cursor_of l))
          l
          (cost n_ops (2 * n_ops))
      → Decision m fuel n_ops a l
  unfolding enough_fuel start backtrack
  decide a l n_ops fuel live enough (found n st' le q ans o) =
      linearizable
        (search_starts never fuel n_ops a l live ∙ answered n _ fuel true _ st' le enough q ans) o
  decide a l n_ops fuel live enough (dead n st' cache le q back o x) =
      illegal
        (search_starts never fuel n_ops a l live ∙ answered n _ fuel false _ st' le enough q back) o

  -- Over a paired live list the search decides whether there is an order of it.
  pub search-decides :
      (a : NodeArena I O) (l : List (Slot I O)) (n_ops fuel : ℕ)
      → Live a l
      → IsPaired l
      → All (λ s. s.id < n_ops) l
      → length l ≤ 2 * n_ops
      → enough_fuel n_ops ≤ fuel
      → Decision m fuel n_ops a l
  search-decides a l n_ops fuel live paired ids len enough = decide a l n_ops fuel live enough (
      weaken m l _ _ l _ _ (cost_mono n_ops (length l) (2 * n_ops) len) (
        explore m sound l _ (ids_fit l n_ops ids) n_ops l [] l _ (initial a l n_ops live paired)
          len))

  -- The answer true is right whenever the kill flag is set.
  pub search-kill :
      (kill : ℕ → Bool) (a : NodeArena I O) (l : List (Slot I O)) (n_ops fuel k : ℕ)
      → Live a l
      → search m kill fuel n_ops a ≡ returned true
      → search m never (fuel + k) n_ops a ≡ returned true
  search-kill kill a l n_ops fuel k live h =
      search_starts never (fuel + k) n_ops a l live
      ∙ search_loop-add m kill fuel k _ true
          (search_loop-kill m kill fuel _ (sym (search_starts kill fuel n_ops a l live) ∙ h))
