-- ===== src/Locality/Join.antt =====
-- Linearizations of the parts make one of the whole.
use mathlib.Core.List.{Memᴰ}
use mathlib.Core.List.Memᴰ
use porcupine_rust.Base.{
  ℕ, zero, suc, ◌<◌, ◌≤◌, ◌≡◌, refl, sym, ◌∙◌, subst, ap, arith, false, some, List, [], ◌∷◌, ◌++◌,
  ◌==◌, inl, inr, ◌↔◌, Bool-cases, ==_iff, length, length-append, leb,
}
use porcupine_rust.Types.{Operation}
use porcupine_rust.Model.{Model}
use porcupine_rust.Checker.Linearizable.{Linearizable}
use porcupine_rust.Locality.{with_key, update, KeyedLinearizable, done, next}
use porcupine_rust.Locality.Keys.{
  with_key_out, with_key-append, with_key_mem, update_same, update_other, Split, Split-at,
}
use porcupine_rust.Locality.Split.{KeyedLinearizable-part}

-- An element of a list with the least value.
least :
    {A : Type 0} (f : A → ℕ) (x : A) (l : List A)
    → (y : A) × Memᴰ y (x ∷ l) × ((z : A) → Memᴰ z (x ∷ l) → f y ≤ f z)
least f x [] =
    (x, Memᴰ.head refl, λ z at. let e : z ≡ x = Memᴰ.eq_of_singleton at in rw e (omega arith))
least f x (w ∷ l) =
    let (y, at, min) = least f w l in
    elim (Bool-cases (leb (f x) (f y))) [
      | inl le ↦ (
        x,
        Memᴰ.head refl,
        λ z p. elim (Memᴰ.cases_cons p) [
          | inl e ↦ rw e (omega arith)
          | inr q ↦ let more : f y ≤ f z = min z q in ground arith
        ],
      )
      | inr gt ↦ (
        y,
        Memᴰ.tail at,
        λ z p. elim (Memᴰ.cases_cons p) [ inl e ↦ rw e (ground arith) | inr q ↦ min z q ],
      )
    ]

module _ {S I O : Type 0} (m : Model S I O) where
  -- The first operation of a linearization.
  record First (s : S) (ops : List (Operation I O)) : Type 0 where
    before : List (Operation I O)
    after : List (Operation I O)
    op : Operation I O
    state : S
    whole : ops ≡ before ++ op ∷ after
    first : (q : Operation I O) → Memᴰ q ops → ¬ (q.return_time < op.call)
    step : m.step s op.input op.output ≡ some state
    rest : Linearizable m state (before ++ after)

  -- The time of its call.
  first_call : {s : S} {ops : List (Operation I O)} → Linearizable m s ops → ℕ
  first_call (Linearizable.done s) = 0
  first_call (Linearizable.next k r op e min is more) = op.call

  First-first_call :
      {s : S} {ops : List (Operation I O)} (q : Operation I O) (d : Linearizable m s ops)
      → Memᴰ q ops
      → (f : First s ops) × (f.op.call ≡ first_call d)
  unfolding first_call
  First-first_call q (Linearizable.done s) at = absurd (Memᴰ.not-nil at)
  First-first_call q (Linearizable.next {s' = s'} k r op e min is more) at = (
    record {
      before = k;
      after = r;
      op = op;
      state = s';
      whole = e;
      first = min;
      step = is;
      rest = more;
    },
    refl,
  )

module _ {S I O : Type 0} (m : Model S I O) (key : Operation I O → ℕ) where
  abbrev Parts : (ℕ → S) → List (Operation I O) → Type 0
  Parts states ops = (j : ℕ) → Linearizable m (states j) (with_key key j ops)

  -- What is left of the parts after the first operation of one of them.
  rest-Parts :
      (states : ℕ → S) (ops : List (Operation I O))
      → Parts states ops
      → (j : ℕ) (f : First m (states j) (with_key key j ops))
        (h : Split key j ops f.before f.after f.op)
      → Parts (update states j f.state) (h.left ++ h.right)
  rest-Parts states ops parts j f h i = elim (Bool-cases (j == i)) [
    | inl y ↦
        let is : j ≡ i = (==_iff j i).0 y in
        let now : Linearizable m f.state (with_key key j (h.left ++ h.right)) =
          subst (λ l. Linearizable m f.state l)
            (cc (sym (with_key-append key j h.left h.right), h.lefts, h.rights)) f.rest in
        subst (λ k. Linearizable m (update states j f.state k) (with_key key k (h.left ++ h.right)))
          is
          (subst (λ s. Linearizable m s (with_key key j (h.left ++ h.right)))
            (sym (update_same states j f.state)) now)
    | inr n ↦
        let other : (key f.op == i) ≡ false = subst (λ k. (k == i) ≡ false) (sym h.has) n in
        let same : with_key key i ops ≡ with_key key i (h.left ++ h.right) =
          ap (with_key key i) h.whole
          ∙ with_key-append key i h.left (f.op ∷ h.right)
          ∙ ap (λ t. with_key key i h.left ++ t) (with_key_out key i f.op h.right other)
          ∙ sym (with_key-append key i h.left h.right) in
        subst (λ s. Linearizable m s (with_key key i (h.left ++ h.right)))
          (sym (update_other states j i f.state n))
          (subst (λ l. Linearizable m (states i) l) same (parts i))
  ]

  -- No operation returns before the first one of the parts is called.
  not_before :
      (states : ℕ → S) (ops : List (Operation I O)) (parts : Parts states ops) (y : Operation I O)
      (f : First m (states (key y)) (with_key key (key y) ops))
      → f.op.call ≡ first_call m (parts (key y))
      → ((z : Operation I O)
          → Memᴰ z ops
          → first_call m (parts (key y)) ≤ first_call m (parts (key z)))
      → (q : Operation I O) → Memᴰ q ops
      → ¬ (q.return_time < f.op.call)
  not_before states ops parts y f call min q p lt =
      let at = with_key_mem key (key q) q ops p refl in
      let (g, call') = First-first_call m q (parts (key q)) at in
      g.first q at (omega (arith, call, call', min q p, lt))

  shorter :
      (n : ℕ) (l r : List (Operation I O)) (x : Operation I O)
      → length (l ++ x ∷ r) ≡ suc n
      → length (l ++ r) ≡ n
  shorter n l r x h = omega (arith, length-append l (x ∷ r), length-append l r)

  join :
      (n : ℕ) (states : ℕ → S) (ops : List (Operation I O))
      → length ops ≡ n
      → Parts states ops
      → KeyedLinearizable m key states ops
  join n states [] len parts = done states
  join zero states (o ∷ ops) len parts = absurd (omega (arith, len))
  join (suc n) states (o ∷ ops) len parts =
      let all = o ∷ ops in
      let (y, at, min) = least (λ q. first_call m (parts (key q))) o ops in
      let (f, call) =
        First-first_call m y (parts (key y)) (with_key_mem key (key y) y all at refl) in
      let h = Split-at key (key y) all f.before f.after f.op f.whole in
      let more =
        join n (update states (key y) f.state) (h.left ++ h.right)
          (shorter n h.left h.right f.op (ap length (sym h.whole) ∙ len))
          (rest-Parts states all parts (key y) f h) in
      next h.left h.right f.op h.whole (λ q p lt. not_before states all parts y f call min q p lt)
        (subst (λ k. m.step (states k) f.op.input f.op.output ≡ some f.state) (sym h.has) f.step)
        (subst (λ k. KeyedLinearizable m key (update states k f.state) (h.left ++ h.right))
          (sym h.has) more)

  -- A history of independent parts is linearizable, from any states of the parts, if and only if the
  -- history of each part is.
  pub KeyedLinearizable-iff :
      (states : ℕ → S) (ops : List (Operation I O))
      → KeyedLinearizable m key states ops
        ↔ ((j : ℕ) → Linearizable m (states j) (with_key key j ops))
  KeyedLinearizable-iff states ops =
      (KeyedLinearizable-part m key, join (length ops) states ops refl)
