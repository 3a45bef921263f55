-- ===== src/Parallel/Ends.antt =====
-- What the ends of the loops, of `any` and of the check tell of the partitions.
use mathlib.Core.List.{Memᴰ}
use mathlib.Core.List.Memᴰ
use porcupine_rust.Base.{
  ◌≡◌, refl, subst, Bool, true, false, not, Option, none, some, List, [], ◌∷◌, inl, inr, ◌⊎◌,
  Bool-cases, arith,
}
use porcupine_rust.Model.{Model}
use porcupine_rust.Entry.{Entry}
use porcupine_rust.Task
use porcupine_rust.Task.{Flags, Stage, Task, End}
use porcupine_rust.Task.Runs.{Accepts}
use porcupine_rust.Task.Invariant.{Excused, IsMarked, FlagsInv, StageInv}
use porcupine_rust.Parallel.{
  Phase, is_illegal, any_illegal, is_finished, all_finished, next_in_order, after_task,
  to_check_result,
}
use porcupine_rust.Parallel.Invariant.{InOrder, InParallel, CheckedInv, AnswerInv, PhaseInv}

module _ {S I O : Type 0} (m : Model S I O) where
  illegal-Excused :
      (f : Flags) (p : List (Entry I O)) (s : Stage S I O)
      → is_illegal s ≡ true
      → StageInv m f p s
      → Excused f
  illegal-Excused f p (Task.ended End.illegal) y x = x
  illegal-Excused f p _ y x = absurd (cc)

  -- A partition was found illegal, so there is an excuse.
  pub any_illegal-Excused :
      (f : Flags) (ts : List (Task S I O))
      → ((t : Task S I O) → Memᴰ t ts → StageInv m f t.partition t.stage)
      → any_illegal ts ≡ true
      → Excused f
  any_illegal-Excused f [] h e = absurd (cc)
  any_illegal-Excused f (t ∷ ts) h e = elim (Bool-cases (is_illegal t.stage)) [
    | inl y ↦ illegal-Excused f t.partition t.stage y (h t (Memᴰ.head refl))
    | inr n ↦ any_illegal-Excused f ts (λ u p. h u (Memᴰ.tail p)) (ground arith)
  ]

  -- A task that is done with has its partition accepted, or there is an excuse.
  finished-Accepts :
      (f : Flags) (p : List (Entry I O)) (s : Stage S I O)
      → is_finished s ≡ true
      → StageInv m f p s
      → Accepts m p ⊎ Excused f
  finished-Accepts f p (Task.ended End.passed) y x = inl x
  finished-Accepts f p (Task.ended End.illegal) y x = inr x
  finished-Accepts f p (Task.ended End.aborted) y x = inr x
  finished-Accepts f p Task.skipped y x = inr x
  finished-Accepts f p _ y x = absurd (cc)

  marked-illegal : (s : Stage S I O) → is_finished s ≡ true → IsMarked s → is_illegal s ≡ true
  marked-illegal (Task.ended End.illegal) y x = refl
  marked-illegal Task.kills y x = absurd (cc)
  marked-illegal _ y x = absurd x

  all_finished_mem :
      (ts : List (Task S I O)) (t : Task S I O)
      → all_finished ts ≡ true
      → Memᴰ t ts
      → is_finished t.stage ≡ true
  all_finished_mem [] t e p = absurd (Memᴰ.not-nil p)
  all_finished_mem (u ∷ ts) t e (Memᴰ.head q) = rw q (ground arith)
  all_finished_mem (u ∷ ts) t e (Memᴰ.tail p) = all_finished_mem ts t (ground arith) p

  any_illegal_mem :
      (ts : List (Task S I O)) (t : Task S I O)
      → Memᴰ t ts
      → is_illegal t.stage ≡ true
      → any_illegal ts ≡ true
  any_illegal_mem [] t p e = absurd (Memᴰ.not-nil p)
  any_illegal_mem (u ∷ ts) t (Memᴰ.head q) e =
      let e' : is_illegal u.stage ≡ true = subst (λ z. is_illegal z.stage ≡ true) q e in rw e' refl
  any_illegal_mem (u ∷ ts) t (Memᴰ.tail p) e = let rest = any_illegal_mem ts t p e in ground arith

module _ {S I O : Type 0} (m : Model S I O) (partitions : List (List (Entry I O))) where
  -- The end of `any`.
  pub InParallel-CheckedInv :
      (f : Flags) (ts : List (Task S I O))
      → InParallel m partitions f ts
      → all_finished ts ≡ true
      → CheckedInv m partitions f (not (any_illegal ts))
  InParallel-CheckedInv f ts h done = elim (Bool-cases (any_illegal ts)) [
    | inl y ↦ rw y (any_illegal-Excused m f ts (λ t p. (h.tasks t p).1) y)
    | inr n ↦ rw n (elim (Bool-cases f.timed_out) [
      | inl late ↦ inl late
      | inr early ↦ inr (λ p at. accepted n early p (h.covers p at))
    ])
  ]
    where
      no_excuse : any_illegal ts ≡ false → f.timed_out ≡ false → ¬ Excused f
      no_excuse n early (inl d) =
          let (t, p, is) = h.marked d in
          let ill =
            any_illegal_mem m ts t p
              (marked-illegal m t.stage (all_finished_mem m ts t done p) is) in
          cc
      no_excuse n early (inr late) = cc

      accepted :
          any_illegal ts ≡ false
          → f.timed_out ≡ false
          → (p : List (Entry I O)) → (t : Task S I O) × Memᴰ t ts × (t.partition ≡ p)
          → Accepts m p
      accepted n early p (t, q, same) =
          elim (finished-Accepts m f t.partition t.stage (all_finished_mem m ts t done q)
            (h.tasks t q).1) [
              | inl a ↦ subst (Accepts m) same a
              | inr ex ↦ absurd (no_excuse n early ex)
            ]

  abbrev pub PhaseOf : Flags → Option (Phase S I O) → Type 0
  PhaseOf f none = Unit {0}
  PhaseOf f (some ph) = PhaseInv m partitions f ph

  -- The loop goes on where each partition is accepted or still to come.
  pub next_in_order-Inv :
      (f : Flags) (todo : List (List (Entry I O)))
      → ((p : List (Entry I O)) → Memᴰ p todo → Memᴰ p partitions)
      → ((p : List (Entry I O)) → Memᴰ p partitions → Accepts m p ⊎ Memᴰ p todo)
      → ¬ (f.definitive_illegal ≡ true)
      → PhaseInv m partitions f (next_in_order {S = S} todo)
  next_in_order-Inv f [] within rest unmarked =
      inr (λ p at. elim (rest p at) [ inl a ↦ a | inr q ↦ absurd (Memᴰ.not-nil q) ])
  next_in_order-Inv f (p ∷ todo) within rest unmarked = record {
    at = within p (Memᴰ.head refl);
    stage = tt;
    todo_in = λ q at. within q (Memᴰ.tail at);
    rest = λ q at. elim (rest q at) [ inl a ↦ inl a | inr x ↦ inr (Memᴰ.cases_cons x) ];
    marked = λ d. unmarked d;
  }

  pub after_task-Inv :
      (f : Flags) (t : Task S I O) (todo : List (List (Entry I O)))
      → InOrder m partitions f t todo
      → PhaseOf f (after_task t.stage todo)
  after_task-Inv f t todo h = by_stage t.stage h.stage h.marked
    where
      by_stage :
          (s : Stage S I O)
          → StageInv m f t.partition s
          → (f.definitive_illegal ≡ true → IsMarked s)
          → PhaseOf f (after_task s todo)
      by_stage (Task.ended End.passed) a unmarked =
          next_in_order-Inv f todo h.todo_in
            (λ p at. elim (h.rest p at) [
              | inl x ↦ inl x
              | inr (inl e) ↦ inl (rw e a)
              | inr (inr q) ↦ inr q
            ])
            unmarked
      by_stage (Task.ended End.illegal) ex k = ex
      by_stage (Task.ended End.aborted) ex k = ex
      by_stage _ x k = tt

  -- The answer.
  pub to_check_result-AnswerInv :
      (f : Flags) (ok : Bool)
      → FlagsInv m partitions f
      → CheckedInv m partitions f ok
      → AnswerInv m partitions f (to_check_result ok f.timed_out f.definitive_illegal)
  unfolding to_check_result
  to_check_result-AnswerInv f true h c = elim (Bool-cases f.timed_out) [
    | inl late ↦ rw late refl
    | inr early ↦ rw early (elim c [ inl late ↦ absurd (cc) | inr a ↦ a ])
  ]
  to_check_result-AnswerInv f false h c = elim (Bool-cases f.definitive_illegal) [
    | inl d ↦ rw d (h.proved d)
    | inr n ↦ rw n (elim (Bool-cases f.timed_out) [
      | inl late ↦ rw late refl
      | inr early ↦ rw early (elim c [ inl d ↦ absurd (cc) | inr late ↦ absurd (cc) ])
    ])
  ]
