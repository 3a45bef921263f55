-- ===== src/Parallel/Invariant.antt =====
-- The invariant of the threads: what each phase knows of the partitions.
use mathlib.Core.List.{Memᴰ}
use porcupine_rust.Base.{
  ℕ, zero, suc, ◌≡◌, refl, ap, ◌∙◌, sym, subst, Bool, true, false, some, List, [], ◌∷◌, inl, inr,
  ◌⊎◌, get_elem?, set,
}
use porcupine_rust.Types.{CheckResult}
use porcupine_rust.Model.{Model}
use porcupine_rust.Entry.{Entry}
use porcupine_rust.Task.{Flags, Stage, Task}
use porcupine_rust.Task.Runs.{Accepts}
use porcupine_rust.Task.Invariant.{Excused, IsMarked, FlagsInv, StageInv, StageInv-Grows, Worked}
use porcupine_rust.Timer.{TimerStage}
use porcupine_rust.Parallel.{Phase, System, in_order, in_parallel, checked, cancelled, answered}

-- The timer stores `timed_out` before `kill`, and without a timeout nothing does.
abbrev pub TimerInv : Flags → TimerStage → Type 0
TimerInv f TimerStage.absent = f.timed_out ≡ false
TimerInv f TimerStage.sets_kill = f.timed_out ≡ true
TimerInv f _ = Unit

pub TimerInv-same :
    (f g : Flags) (t : TimerStage) → g.timed_out ≡ f.timed_out → TimerInv f t → TimerInv g t
TimerInv-same f g TimerStage.absent e h = e ∙ h
TimerInv-same f g TimerStage.spawned e h = tt
TimerInv-same f g TimerStage.waiting e h = tt
TimerInv-same f g TimerStage.woken e h = tt
TimerInv-same f g TimerStage.fires e h = tt
TimerInv-same f g TimerStage.sets_kill e h = e ∙ h
TimerInv-same f g TimerStage.exited e h = tt

module _ {A : Type 0} where
  pub set_mem : (l : List A) (i : ℕ) (v x : A) → Memᴰ x (set l i v) → (x ≡ v) ⊎ Memᴰ x l
  set_mem [] i v x p = inr p
  set_mem (y ∷ l) zero v x (Memᴰ.head e) = inl e
  set_mem (y ∷ l) zero v x (Memᴰ.tail p) = inr (Memᴰ.tail p)
  set_mem (y ∷ l) (suc i) v x (Memᴰ.head e) = inr (Memᴰ.head e)
  set_mem (y ∷ l) (suc i) v x (Memᴰ.tail p) = elim (set_mem l i v x p) [
    | inl e ↦ inl e
    | inr q ↦ inr (Memᴰ.tail q)
  ]

  -- An element is still there, or it is the one that was replaced, and the new one is there.
  pub mem_set :
      (l : List A) (i : ℕ) (v w x : A)
      → get_elem? l i ≡ some w
      → Memᴰ x l
      → (x ≡ w) ⊎ Memᴰ x (set l i v)
  mem_set [] i v w x g p = absurd (cc)
  mem_set (y ∷ l) zero v w x g (Memᴰ.head e) = let same : y ≡ w = cc in inl (e ∙ same)
  mem_set (y ∷ l) zero v w x g (Memᴰ.tail p) = inr (Memᴰ.tail p)
  mem_set (y ∷ l) (suc i) v w x g (Memᴰ.head e) = inr (Memᴰ.head e)
  mem_set (y ∷ l) (suc i) v w x g (Memᴰ.tail p) = elim (mem_set l i v w x g p) [
    | inl e ↦ inl e
    | inr q ↦ inr (Memᴰ.tail q)
  ]

  pub new_mem : (l : List A) (i : ℕ) (v w : A) → get_elem? l i ≡ some w → Memᴰ v (set l i v)
  new_mem [] i v w g = absurd (cc)
  new_mem (y ∷ l) zero v w g = Memᴰ.head refl
  new_mem (y ∷ l) (suc i) v w g = Memᴰ.tail (new_mem l i v w g)

  pub get_elem?_mem : (l : List A) (i : ℕ) (w : A) → get_elem? l i ≡ some w → Memᴰ w l
  get_elem?_mem [] i w g = absurd (cc)
  get_elem?_mem (y ∷ l) zero w g = let same : y ≡ w = cc in Memᴰ.head (sym same)
  get_elem?_mem (y ∷ l) (suc i) w g = Memᴰ.tail (get_elem?_mem l i w g)

module _ {S I O : Type 0} (m : Model S I O) (partitions : List (List (Entry I O))) where
  abbrev pub AllAccept : Type 0
  AllAccept = (p : List (Entry I O)) → Memᴰ p partitions → Accepts m p

  -- One of the partitions has no order that the model accepts.
  abbrev pub OneRefused : Type 0
  OneRefused = (p : List (Entry I O)) × Memᴰ p partitions × ¬ Accepts m p

  -- In the loop: the partitions before are accepted.
  pub record InOrder (f : Flags) (t : Task S I O) (todo : List (List (Entry I O))) : Type 0 where
    pub at : Memᴰ t.partition partitions
    pub stage : StageInv m f t.partition t.stage
    pub todo_in : (p : List (Entry I O)) → Memᴰ p todo → Memᴰ p partitions
    pub rest :
        (p : List (Entry I O)) → Memᴰ p partitions → Accepts m p ⊎ ((p ≡ t.partition) ⊎ Memᴰ p todo)
    pub marked : f.definitive_illegal ≡ true → IsMarked t.stage

  -- On the thread pool: there is a task for each partition.
  pub record InParallel (f : Flags) (ts : List (Task S I O)) : Type 0 where
    pub tasks :
        (t : Task S I O)
        → Memᴰ t ts
        → Memᴰ t.partition partitions × StageInv m f t.partition t.stage
    pub covers :
        (p : List (Entry I O))
        → Memᴰ p partitions
        → (t : Task S I O) × Memᴰ t ts × (t.partition ≡ p)
    pub marked : f.definitive_illegal ≡ true → (t : Task S I O) × Memᴰ t ts × IsMarked t.stage

  abbrev pub CheckedInv : Flags → Bool → Type 0
  CheckedInv f true = (f.timed_out ≡ true) ⊎ AllAccept
  CheckedInv f false = Excused f

  -- What an answer says.
  abbrev pub AnswerInv : Flags → CheckResult → Type 0
  AnswerInv f CheckResult.ok = AllAccept
  AnswerInv f CheckResult.illegal = OneRefused
  AnswerInv f CheckResult.unknown = f.timed_out ≡ true

  abbrev pub PhaseInv : Flags → Phase S I O → Type 0
  PhaseInv f (in_order t todo) = InOrder f t todo
  PhaseInv f (in_parallel ts) = InParallel f ts
  PhaseInv f (checked ok) = CheckedInv f ok
  PhaseInv f (cancelled ok) = CheckedInv f ok
  PhaseInv f (answered r) = AnswerInv f r

  pub record SystemInv (s : System S I O) : Type 0 where
    pub flags : FlagsInv m partitions s.flags
    pub timer : TimerInv s.flags s.timer.stage
    pub phase : PhaseInv s.flags s.phase

  -- An access of task `i` to the flags, or none.
  pub InParallel-set :
      (f g : Flags) (ts : List (Task S I O)) (i : ℕ) (t : Task S I O) (s : Stage S I O)
      → get_elem? ts i ≡ some t
      → InParallel f ts
      → Worked m partitions t.partition f t.stage g s
      → InParallel g (set ts i (record t { stage = s }))
  InParallel-set f g ts i t s e h w =
      let t' = record t { stage = s } in
      record {
        tasks = λ u p. elim (set_mem ts i t' u p) [
          | inl same ↦ rw same ((h.tasks t (get_elem?_mem ts i t e)).0, w.stage)
          | inr q ↦
              let (at, st) = h.tasks u q in
              (at, StageInv-Grows m f g u.partition u.stage w.grows st)
        ];
        covers = λ p at.
            let (u, q, same) = h.covers p at in
            elim (mem_set ts i t' t u e q) [
              | inl x ↦ (t', new_mem ts i t' t e, ap (λ z. z.partition) (sym x) ∙ same)
              | inr x ↦ (u, x, same)
            ];
        marked = λ d. elim (w.marks d) [
          | inl d' ↦
              let (u, q, is) = h.marked d' in
              elim (mem_set ts i t' t u e q) [
                | inl x ↦ (t', new_mem ts i t' t e, w.marked (subst (λ z. IsMarked z.stage) x is))
                | inr x ↦ (u, x, is)
              ]
          | inr is ↦ (t', new_mem ts i t' t e, is)
        ];
      }

  pub InOrder-stage :
      (f g : Flags) (t : Task S I O) (todo : List (List (Entry I O))) (s : Stage S I O)
      → InOrder f t todo
      → Worked m partitions t.partition f t.stage g s
      → InOrder g (record t { stage = s }) todo
  InOrder-stage f g t todo s h w = record {
    at = h.at;
    stage = w.stage;
    todo_in = h.todo_in;
    rest = h.rest;
    marked = λ d. elim (w.marks d) [ inl d' ↦ w.marked (h.marked d') | inr is ↦ is ];
  }
