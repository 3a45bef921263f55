-- ===== src/Locality/Ranks.antt =====
-- The operations in the events of one key: those of the whole history, with a position in it turned
-- into the position among the events of the key.
use porcupine_rust.Base.{
  ℕ, zero, suc, ◌+◌, ◌≤◌, ◌≡◌, refl, sym, ◌∙◌, subst, ap, arith, false, Option, none, some, List,
  [], ◌∷◌, ◌==◌, inl, inr, Bool-cases, ==_iff, ==_refl, if◌then◌else◌,
}
use porcupine_rust.Base.Do.{◌>>=◌, some_inj, not_none}
use porcupine_rust.Types.{Operation, EventKind, Event}
use porcupine_rust.Checks.Events.{find_return, return_at}
use porcupine_rust.Locality.{with_key}
use porcupine_rust.Locality.Keys.{with_key_in, with_key_out}

-- An operation with its times changed.
abbrev pub retime : {I O : Type 0} → (ℕ → ℕ) → Operation I O → Operation I O
retime g op = record op { call = g op.call; return_time = g op.return_time }

module _ {I O : Type 0} (key_of : ℕ → ℕ) (k : ℕ) where
  -- The number of events with the key before a position.
  unfoldable pub rank : List (Event I O) → ℕ → ℕ
  rank [] n = 0
  rank (ev ∷ events) zero = 0
  rank (ev ∷ events) (suc n) =
      let rest = rank events n in if key_of ev.id == k then suc rest else rest

  abbrev pub of_key : List (Event I O) → List (Event I O)
  of_key events = with_key (λ ev. key_of ev.id) k events

  -- From `pos` on, `g` counts the events with the key.
  abbrev pub Counts : (ℕ → ℕ) → ℕ → List (Event I O) → Type 0
  Counts g pos events = (j : ℕ) → g (pos + j) ≡ g pos + rank events j

  rank_in :
      (ev : Event I O) (events : List (Event I O)) (n : ℕ)
      → key_of ev.id ≡ k
      → rank (ev ∷ events) (suc n) ≡ suc (rank events n)
  unfolding rank
  rank_in ev events n e = rw (e, ==_refl k) refl

  rank_out :
      (ev : Event I O) (events : List (Event I O)) (n : ℕ)
      → (key_of ev.id == k) ≡ false
      → rank (ev ∷ events) (suc n) ≡ rank events n
  unfolding rank
  rank_out ev events n e = rw e refl

  pub rank_zero : (events : List (Event I O)) → rank events 0 ≡ 0
  unfolding rank
  rank_zero [] = refl
  rank_zero (ev ∷ events) = refl

  pub next_in :
      (g : ℕ → ℕ) (pos : ℕ) (ev : Event I O) (events : List (Event I O))
      → key_of ev.id ≡ k
      → Counts g pos (ev ∷ events)
      → g (suc pos) ≡ suc (g pos)
  next_in g pos ev events e h =
      let at : pos + 1 ≡ suc pos = omega arith in
      ap g (sym at) ∙ h 1 ∙ (omega (arith, rank_in ev events 0 e, rank_zero events))

  pub next_out :
      (g : ℕ → ℕ) (pos : ℕ) (ev : Event I O) (events : List (Event I O))
      → (key_of ev.id == k) ≡ false
      → Counts g pos (ev ∷ events)
      → g (suc pos) ≡ g pos
  next_out g pos ev events n h =
      let at : pos + 1 ≡ suc pos = omega arith in
      ap g (sym at) ∙ h 1 ∙ (omega (arith, rank_out ev events 0 n, rank_zero events))

  pub Counts-tail :
      (g : ℕ → ℕ) (pos : ℕ) (ev : Event I O) (events : List (Event I O))
      → Counts g pos (ev ∷ events)
      → Counts g (suc pos) events
  Counts-tail g pos ev events h j =
      let at : suc pos + j ≡ pos + suc j = omega arith in
      elim (Bool-cases (key_of ev.id == k)) [
        | inl y ↦
            let e = (==_iff (key_of ev.id) k).0 y in
            ap g at
            ∙ h (suc j)
            ∙ (omega (arith, rank_in ev events j e, next_in g pos ev events e h))
        | inr n ↦
            ap g at
            ∙ h (suc j)
            ∙ (omega (arith, rank_out ev events j n, next_out g pos ev events n h))
      ]

  pub rank_mono : (events : List (Event I O)) (n j : ℕ) → rank events n ≤ rank events (n + j)
  unfolding rank
  rank_mono [] n j = omega arith
  rank_mono (ev ∷ events) zero j = omega (arith, rank_zero (ev ∷ events))
  rank_mono (ev ∷ events) (suc n) j =
      let at : suc n + j ≡ suc (n + j) = omega arith in
      let ih = rank_mono events n j in
      elim (Bool-cases (key_of ev.id == k)) [
        | inl y ↦
            let e = (==_iff (key_of ev.id) k).0 y in
            omega (
              arith,
              rank_in ev events n e,
              ap (rank (ev ∷ events)) at,
              rank_in ev events (n + j) e,
              ih,
            )
        | inr e ↦ omega (
          arith,
          rank_out ev events n e,
          ap (rank (ev ∷ events)) at,
          rank_out ev events (n + j) e,
          ih,
        )
      ]

  -- The return of an operation, found among the events with the key.
  pub record Found (g : ℕ → ℕ) (id pos : ℕ) (events : List (Event I O)) (q : ℕ) (o : O)
      : Type 0 where
    pub found : find_return id (g pos) (of_key events) ≡ some (g q, o)
    pub counted : g (suc q) ≡ suc (g q)

  return_at_pos :
      (pos q : ℕ) (ev : Event I O) (o : O)
      → return_at pos ev ≡ some (q, o)
      → (q ≡ pos) × ((p : ℕ) → return_at p ev ≡ some (p, o))
  return_at_pos pos q ev o h = by_kind ev.kind ev.output h
    where
      by_kind :
          (kind : EventKind) (out : Option O)
          → Path
              (Option (ℕ × O))
              (elim kind [ EventKind.call ↦ none | EventKind.return ↦ out >>= λ x. some (pos, x) ])
              (some (q, o))
          → (q ≡ pos)
            × ((p : ℕ)
                → Path
                    (Option (ℕ × O))
                    (elim kind [
                      | EventKind.call ↦ none
                      | EventKind.return ↦ out >>= λ x. some (p, x)
                    ])
                    (some (p, o)))
      by_kind EventKind.call out e = absurd (not_none e)
      by_kind EventKind.return none e = absurd (not_none e)
      by_kind EventKind.return (some x) e =
          let both = some_inj e in
          (sym (ap (λ t. t.0) both), λ p. ap (λ y. some (p, y)) (ap (λ t. t.1) both))

  pub find_return-of_key :
      (g : ℕ → ℕ) (id pos : ℕ) (events : List (Event I O)) (q : ℕ) (o : O)
      → key_of id ≡ k
      → Counts g pos events
      → find_return id pos events ≡ some (q, o)
      → Found g id pos events q o
  unfolding find_return
  find_return-of_key g id pos [] q o e h f = absurd (not_none f)
  find_return-of_key g id pos (ev ∷ events) q o e h f = elim (Bool-cases (ev.id == id)) [
    | inl y ↦
        let same : ev.id ≡ id = (==_iff ev.id id).0 y in
        let is : key_of ev.id ≡ k = ap key_of same ∙ e in
        let (at, any) = return_at_pos pos q ev o (sym (rw y refl) ∙ f) in
        record {
          found =
              ap (find_return id (g pos)) (with_key_in (λ t. key_of t.id) k ev events is)
              ∙ rw y (any (g pos))
              ∙ ap (λ t. some (g t, o)) (sym at);
          counted =
              ap (λ t. g (suc t)) at ∙ next_in g pos ev events is h ∙ ap (λ t. suc (g t)) (sym at);
        }
    | inr n ↦
        let rest =
          find_return-of_key g id (suc pos) events q o e (Counts-tail g pos ev events h)
            (sym (rw n refl) ∙ f) in
        record {
          found = elim (Bool-cases (key_of ev.id == k)) [
            | inl y ↦
                let is = (==_iff (key_of ev.id) k).0 y in
                ap (find_return id (g pos)) (with_key_in (λ t. key_of t.id) k ev events is)
                ∙ rw n (
                    subst (λ p. find_return id p (of_key events) ≡ some (g q, o))
                      (next_in g pos ev events is h) rest.found)
            | inr m ↦
                ap (find_return id (g pos)) (with_key_out (λ t. key_of t.id) k ev events m)
                ∙ subst (λ p. find_return id p (of_key events) ≡ some (g q, o))
                    (next_out g pos ev events m h) rest.found
          ];
          counted = rest.counted;
        }
  ]
