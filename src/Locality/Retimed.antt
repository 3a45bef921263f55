-- ===== src/Locality/Retimed.antt =====
-- Linearizability asks only which operation returned before which was called.
use mathlib.Core.List.{Memᴰ, map-append}
use mathlib.Core.List.Memᴰ
use porcupine_rust.Base.{
  ℕ, suc, ◌+◌, ◌-◌, ◌≤◌, ◌<◌, ◌≡◌, refl, sym, ◌∙◌, subst, ap, arith, some, List, [], ◌∷◌, ◌++◌, map,
  inl, inr, Bool-cases, ltb, ◌↔◌,
}
use porcupine_rust.Types.{Operation}
use porcupine_rust.Model.{Model}
use porcupine_rust.Checker.Linearizable.{Linearizable}
use porcupine_rust.Locality.Ranks.{retime}

-- A list that `map` made, taken apart.
record Unmapped {A B : Type 0} (f : A → B) (l : List A) (left right : List B) (y : B) : Type 0 where
  before : List A
  after : List A
  x : A
  whole : l ≡ before ++ x ∷ after
  befores : map f before ≡ left
  afters : map f after ≡ right
  is : f x ≡ y

unmap :
    {A B : Type 0} (f : A → B) (l : List A) (left right : List B) (y : B)
    → map f l ≡ left ++ y ∷ right
    → Unmapped f l left right y
unmap f [] [] right y h = absurd (cc)
unmap f [] (z ∷ left) right y h = absurd (cc)
unmap f (x ∷ l) [] right y h = record {
  before = [];
  after = l;
  x = x;
  whole = refl;
  befores = refl;
  afters = cc;
  is = cc;
}
unmap f (x ∷ l) (z ∷ left) right y h =
    let tail : map f l ≡ left ++ y ∷ right = cc in
    let head : f x ≡ z = cc in
    let r = unmap f l left right y tail in
    record {
      before = x ∷ r.before;
      after = r.after;
      x = r.x;
      whole = ap (λ t. x ∷ t) r.whole;
      befores = cc (head, r.befores);
      afters = r.afters;
      is = r.is;
    }

mem_rest :
    {A : Type 0} (x : A) {y : A} {l : List A} (k r : List A)
    → l ≡ k ++ x ∷ r
    → Memᴰ y (k ++ r)
    → Memᴰ y l
mem_rest x {y = y} k r e at =
    subst (λ l. Memᴰ y l) (sym e)
      (elim (Memᴰ.append_cases k at) [
        | inl p ↦ Memᴰ.append_left (x ∷ r) p
        | inr p ↦ Memᴰ.append_right k (Memᴰ.tail p)
      ])

module _ {S I O : Type 0} (m : Model S I O) (g : ℕ → ℕ) (mono : (n j : ℕ) → g n ≤ g (n + j)) where
  reflects : (a b : ℕ) → g a < g b → a < b
  reflects a b h = elim (Bool-cases (ltb a b)) [
    | inl y ↦ ground arith
    | inr n ↦
        let at : b + (a - b) ≡ a = ground arith in
        let le : g b ≤ g (b + (a - b)) = mono b (a - b) in
        let same : g (b + (a - b)) ≡ g a = ap g at in absurd (omega arith)
  ]

  pub Linearizable-retime :
      {s : S} {ops : List (Operation I O)}
      → Linearizable m s ops
      → Linearizable m s (map (retime g) ops)
  Linearizable-retime (Linearizable.done s) = Linearizable.done s
  Linearizable-retime (Linearizable.next {s' = s'} {ops = ops} k r op e first step rest) =
      Linearizable.next (map (retime g) k) (map (retime g) r) (retime g op)
        (ap (map (retime g)) e ∙ map-append (retime g) k (op ∷ r))
        (λ q at lt.
          let (p, was, is) = Memᴰ.of_map (retime g) ops at in
          first p was
            (reflects p.return_time op.call (subst (λ t. t.return_time < g op.call) (sym is) lt)))
        step
        (subst (λ l. Linearizable m s' l) (map-append (retime g) k r) (Linearizable-retime rest))

  -- Where the position of a return counts.
  abbrev pub Counted : List (Operation I O) → Type 0
  Counted ops = (op : Operation I O) → Memᴰ op ops → g (suc op.return_time) ≡ suc (g op.return_time)

  keeps : (a b : ℕ) → g (suc a) ≡ suc (g a) → a < b → g a < g b
  keeps a b e h =
      let at : suc a + (b - suc a) ≡ b = omega arith in
      let le : g (suc a) ≤ g (suc a + (b - suc a)) = mono (suc a) (b - suc a) in
      let same : g (suc a + (b - suc a)) ≡ g b = ap g at in omega arith

  unretime :
      {s : S} {l : List (Operation I O)}
      → Linearizable m s l
      → (ops : List (Operation I O)) → map (retime g) ops ≡ l
      → Counted ops
      → Linearizable m s ops
  unretime (Linearizable.done s) [] e c = Linearizable.done s
  unretime (Linearizable.done s) (op ∷ ops) e c = absurd (cc)
  unretime (Linearizable.next {s = s} {s' = s'} k r op' h first step rest) ops e c =
      let u = unmap (retime g) ops k r op' (e ∙ h) in
      let op = u.x in
      Linearizable.next u.before u.after op u.whole
        (λ q at lt.
          first (retime g q) (subst (λ t. Memᴰ (retime g q) t) e (Memᴰ.map (retime g) at))
            (subst (λ t. g q.return_time < t.call) u.is (keeps q.return_time op.call (c q at) lt)))
        (subst (λ t. m.step s t.input t.output ≡ some s') (sym u.is) step)
        (unretime rest (u.before ++ u.after)
          (map-append (retime g) u.before u.after
            ∙ ap (λ t. t ++ map (retime g) u.after) u.befores
            ∙ ap (λ t. k ++ t) u.afters)
          (λ q at. c q (mem_rest op u.before u.after u.whole at)))

  -- Times changed so that the order of returns and calls stays.
  pub Linearizable-retime_iff :
      {s : S} (ops : List (Operation I O))
      → Counted ops
      → Linearizable m s (map (retime g) ops) ↔ Linearizable m s ops
  Linearizable-retime_iff ops c = (λ d. unretime d ops refl c, Linearizable-retime)
