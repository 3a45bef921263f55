-- ===== src/Checker/Bridge.antt =====
-- An order of the live list is a linearization of the operations that it stands for.
use mathlib.Core.List.{Memᴰ}
use mathlib.Core.List.Memᴰ
use porcupine_rust.Base.{
  ℕ, ◌+◌, ◌*◌, ◌<◌, ◌≡◌, refl, ap, ◌∙◌, sym, subst, arith, some, List, [], ◌∷◌, ◌++◌, map, true,
  inl, inr,
}
use porcupine_rust.Types.{Operation}
use porcupine_rust.Model.{Model}
use porcupine_rust.Entry.{EntryValue, call, return, is_call}
use porcupine_rust.Entries.Sorting.{rank}
use porcupine_rust.Arena.Live.{Slot}
use porcupine_rust.Checker.Remaining.{without, output_of, All}
use porcupine_rust.Checker.Pairing.{IsPaired-Pair}
use porcupine_rust.Checker.Order.{Orders, done, pick}
use porcupine_rust.Checker.Linearizable.{Linearizable}
use porcupine_rust.Checker.Numbered.{
  mem-At, mem_middle, mem_split, op_of, mem_map, map_mem, map-append, map-MapAt, Distinct-unique,
}
use porcupine_rust.Checker.Covers.{
  slot_key, All-mem, IsSorted-before, IsSorted-after, mem-All, output_of_mem, IsCall, IsReturn,
  Covers, Covers-without,
}

module _ {S I O : Type 0} (m : Model S I O) where
  clash : (v : EntryValue I O) {i : I} {o : O} → v ≡ call i → ¬ (v ≡ return o)
  clash (call j) e f = cc
  clash (return p) e f = cc

  call_eq : {i j : I} → Path (EntryValue I O) (call i) (call j) → i ≡ j
  call_eq e = cc

  return_eq : {i j : O} → Path (EntryValue I O) (return i) (return j) → i ≡ j
  return_eq e = cc

  -- A call of the live list is the call of one of the operations.
  onto_call :
      (l : List (Slot I O)) (ops : List (ℕ × Operation I O)) (x : Slot I O) (i : I)
      → Covers l ops
      → Memᴰ x l
      → x.value ≡ call i
      → (op : Operation I O) × Memᴰ (x.id, op) ops × IsCall x x.id op
  onto_call l ops x i h p e =
      let (op, at, is) = h.onto x p in
      elim is [ inl c ↦ (op, at, c) | inr r ↦ absurd (clash x.value e r.1) ]

  onto_return :
      (l : List (Slot I O)) (ops : List (ℕ × Operation I O)) (x : Slot I O) (o : O)
      → Covers l ops
      → Memᴰ x l
      → x.value ≡ return o
      → (op : Operation I O) × Memᴰ (x.id, op) ops × IsReturn x x.id op
  onto_return l ops x o h p e =
      let (op, at, is) = h.onto x p in
      elim is [ inl c ↦ absurd (clash x.value c.1 e) | inr r ↦ (op, at, r) ]

  -- What `output_of` finds is the output of the operation.
  output_of-output :
      (l : List (Slot I O)) (ops : List (ℕ × Operation I O)) (id : ℕ) (op : Operation I O) (o : O)
      → Covers l ops
      → Memᴰ (id, op) ops
      → output_of id l ≡ some o
      → o ≡ op.output
  output_of-output l ops id op o h at out =
      let (x, p, same, is) = output_of_mem id l o out in
      let (q, at', r) = onto_return l ops x o h p is in
      let e : q ≡ op =
        Distinct-unique ops id q op h.distinct (subst (λ j. Memᴰ (j, q) ops) same at') at in
      return_eq (sym is ∙ r.1) ∙ ap (λ z. z.output) e

  key_call : (x : Slot I O) (i : I) → x.value ≡ call i → slot_key x ≡ 2 * x.time
  key_call x i e = ap (λ v. 2 * x.time + rank v) e ∙ (omega arith)

  key_return : (x : Slot I O) (o : O) → x.value ≡ return o → slot_key x ≡ 2 * x.time + 1
  key_return x o e = ap (λ v. 2 * x.time + rank v) e

  -- Where calls alone stand before a call, no operation returned before it.
  minimal :
      (k r : List (Slot I O)) (c : Slot I O) (i : I) (ops : List (ℕ × Operation I O))
      → Covers (k ++ c ∷ r) ops
      → c.value ≡ call i
      → All (λ x. is_call x.value ≡ true) k
      → (q : Operation I O) → Memᴰ q (map op_of ops)
      → ¬ (q.return_time < c.time)
  minimal k r c i ops h is ks q p lt =
      let (id, at) = mem_map ops q p in
      let (x, p', is_ret) = h.returns id q at in
      let ret = is_ret.1 in
      elim (mem_split k r c p') [
        | inl e ↦ clash c.value is (ap (λ z. z.value) (sym e) ∙ ret)
        | inr p'' ↦ elim (Memᴰ.append_cases k p'') [
          | inl before ↦ not_call x.value ret (All-mem (λ z. is_call z.value ≡ true) k x ks before)
          | inr after ↦ omega (
            arith,
            IsSorted-after k r c x h.sorted after,
            key_call c i is,
            key_return x q.output ret,
            is_ret.2,
          )
        ]
      ]
    where
      not_call : (v : EntryValue I O) {o : O} → v ≡ return o → ¬ (is_call v ≡ true)
      not_call (call j) e t = cc
      not_call (return o) e t = cc

  -- Where no operation returned before a call, calls alone stand before it.
  calls_before :
      (k r : List (Slot I O)) (c : Slot I O) (i : I) (ops : List (ℕ × Operation I O))
      → Covers (k ++ c ∷ r) ops
      → c.value ≡ call i
      → ((q : Operation I O) → Memᴰ q (map op_of ops) → ¬ (q.return_time < c.time))
      → All (λ x. is_call x.value ≡ true) k
  calls_before k r c i ops h is early =
      mem-All (λ x. is_call x.value ≡ true) k (λ x p. by_value x p x.value refl)
    where
      by_value :
          (x : Slot I O) → Memᴰ x k → (v : EntryValue I O) → x.value ≡ v → is_call x.value ≡ true
      by_value x p (call j) e = rw e refl
      by_value x p (return o) e =
          let (q, at, ret) = onto_return (k ++ c ∷ r) ops x o h (Memᴰ.append_left _ p) e in
          absurd (
            early q (map_mem ops (x.id, q) at) (
              omega (
                arith,
                IsSorted-before k r c x h.sorted p,
                key_call c i is,
                key_return x o e,
                ret.2,
              )))

  no_operations : (ops : List (ℕ × Operation I O)) → Covers [] ops → ops ≡ []
  no_operations [] h = refl
  no_operations ((id, op) ∷ ops) h =
      let (x, p, is) = h.calls id op (Memᴰ.head refl) in absurd (Memᴰ.not-nil p)

  no_slots : (l : List (Slot I O)) → Covers l [] → l ≡ []
  no_slots [] h = refl
  no_slots (x ∷ l) h = let (op, p, is) = h.onto x (Memᴰ.head refl) in absurd (Memᴰ.not-nil p)

  no_ids : (ids : List (ℕ × Operation I O)) → map op_of ids ≡ [] → ids ≡ []
  no_ids [] e = refl
  no_ids (x ∷ ids) e = absurd (cc)

  pub Orders-Linearizable :
      {s : S} {l : List (Slot I O)} (ops : List (ℕ × Operation I O))
      → Covers l ops
      → Orders m s l
      → Linearizable m s (map op_of ops)
  Orders-Linearizable ops h (done s) = rw (no_operations ops h) (Linearizable.done s)
  Orders-Linearizable {s} {l} ops h (pick k r c i o split ks is out stepped rest) =
      let h' : Covers (k ++ c ∷ r) ops = subst (λ t. Covers t ops) split h in
      let (op, p, called) = onto_call (k ++ c ∷ r) ops c i h' (mem_middle k r c) is in
      let at = mem-At (c.id, op) ops p in
      let input : i ≡ op.input = call_eq (sym is ∙ called.1) in
      let output : o ≡ op.output = output_of-output l ops c.id op o h p out in
      Linearizable.next (map op_of at.before) (map op_of at.after) op
        (ap (map op_of) at.joins ∙ map-append at.before ((c.id, op) ∷ at.after))
        (λ q m' lt. minimal k r c i ops h' is ks q m' (omega (arith, called.2, lt)))
        (rw (← input, ← output) stepped)
        (subst (Linearizable m _) (map-append at.before at.after) (
          Orders-Linearizable (at.before ++ at.after)
            (Covers-without l at.before at.after c.id op (subst (Covers l) at.joins h)) rest))

  pub Linearizable-Orders :
      {s : S} {ops : List (Operation I O)} (l : List (Slot I O)) (ids : List (ℕ × Operation I O))
      → Covers l ids
      → map op_of ids ≡ ops
      → Linearizable m s ops
      → Orders m s l
  Linearizable-Orders l ids h e (Linearizable.done s) =
      rw (no_slots l (subst (Covers l) (no_ids ids e) h)) (done s)
  Linearizable-Orders {s} l ids h e (Linearizable.next k r op split early stepped rest) =
      let at = map-MapAt ids k r op (e ∙ split) in
      let here : Memᴰ (at.id, op) ids =
        subst (λ t. Memᴰ (at.id, op) t) (sym at.joins)
          (mem_middle at.before at.after (at.id, op)) in
      let (x, p, called) = h.calls at.id op here in
      let place = mem-At x l p in
      let live = place.before ++ x ∷ place.after in
      let h' : Covers live ids = subst (λ t. Covers t ids) place.joins h in
      let pair = IsPaired-Pair place.before place.after x op.input called.1 h'.paired in
      let output : pair.output ≡ op.output =
        output_of-output live ids at.id op pair.output h' here
          (subst (λ j. output_of j live ≡ some pair.output) called.0 pair.output_eq) in
      let ks =
        calls_before place.before place.after x op.input ids h' called.1
          (λ q m' lt. early q (subst (λ t. Memᴰ q t) e m') (omega (arith, called.2, lt))) in
      let rest_covers =
        subst (λ j. Covers (without j live) (at.before ++ at.after)) (sym called.0)
          (Covers-without live at.before at.after at.id op (subst (Covers live) at.joins h')) in
      subst (Orders m s) (sym place.joins) (
        pick place.before place.after x op.input pair.output refl ks called.1 pair.output_eq
          (rw output stepped)
          (Linearizable-Orders (without x.id live) (at.before ++ at.after) rest_covers at.ops_eq
            rest))
