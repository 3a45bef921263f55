-- ===== src/Task/Invariant.antt =====
-- What holds of a task at each stage, and that an access keeps it.
use mathlib.Core.List.{Memᴰ}
use porcupine_rust.Base.{
  ◌+◌, ◌≡◌, refl, ap, ◌∙◌, arith, Bool, true, false, Option, none, some, List, inl, inr, ◌⊎◌,
  Bool-cases,
}
use porcupine_rust.Model.{Model, EqIsSound}
use porcupine_rust.Entry.{Entry}
use porcupine_rust.Checker.{
  Search, Round, next_round, returns, panics, round, returned, panicked, search_loop,
}
use porcupine_rust.Checker.Explore.{never}
use porcupine_rust.Checker.Correct.{IsHistory}
use porcupine_rust.Task
use porcupine_rust.Task.{
  Flags, load, Stage, End, waits, begins, searches, failed, marks, kills, ended, skipped, begin,
  after_round, work_stage,
}
use porcupine_rust.Task.Runs.{
  Accepts, Reaches, Comes-Verdict, not_panicked, Verdict-true, Verdict-false, Reaches-next,
  Reaches-returns, Reaches-panics, Begun, runs, passes, fails, begin_lem,
}

-- A partition was found illegal, or the timer has fired.
abbrev pub Excused : Flags → Type 0
Excused flags = (flags.definitive_illegal ≡ true) ⊎ (flags.timed_out ≡ true)

-- No flag is reset.
pub record Grows (f g : Flags) : Type 0 where
  pub kill : f.kill ≡ true → g.kill ≡ true
  pub definitive_illegal : f.definitive_illegal ≡ true → g.definitive_illegal ≡ true
  pub timed_out : f.timed_out ≡ true → g.timed_out ≡ true

pub Grows-refl : (f : Flags) → Grows f f
Grows-refl f = record { kill = λ h. h; definitive_illegal = λ h. h; timed_out = λ h. h }

pub Excused-Grows : (f g : Flags) → Grows f g → Excused f → Excused g
Excused-Grows f g le (inl h) = inl (le.definitive_illegal h)
Excused-Grows f g le (inr h) = inr (le.timed_out h)

module _ {S I O : Type 0} where
  -- The stages of a task that has called its partition illegal.
  abbrev pub IsMarked : Stage S I O → Type 0
  IsMarked kills = Unit {0}
  IsMarked (ended End.illegal) = Unit
  IsMarked _ = ⊥

module _ {S I O : Type 0} (m : Model S I O) where
  pub record FlagsInv (partitions : List (List (Entry I O))) (f : Flags) : Type 0 where
    pub killed : f.kill ≡ true → Excused f
    pub proved :
        f.definitive_illegal ≡ true → (p : List (Entry I O)) × Memᴰ p partitions × ¬ Accepts m p

  abbrev pub StageInv : Flags → List (Entry I O) → Stage S I O → Type 0
  StageInv f p waits = Unit {0}
  StageInv f p begins = Unit
  StageInv f p (searches st) = Reaches m p st
  StageInv f p (failed true) = Excused f
  StageInv f p (failed false) = ¬ Accepts m p
  StageInv f p marks = ¬ Accepts m p
  StageInv f p kills = Excused f
  StageInv f p (ended End.passed) = Accepts m p
  StageInv f p (ended End.illegal) = Excused f
  StageInv f p (ended End.aborted) = Excused f
  StageInv f p skipped = Excused f
  StageInv f p Task.panicked = ⊥

  pub StageInv-Grows :
      (f g : Flags) (p : List (Entry I O)) (s : Stage S I O)
      → Grows f g
      → StageInv f p s
      → StageInv g p s
  StageInv-Grows f g p waits le h = tt
  StageInv-Grows f g p begins le h = tt
  StageInv-Grows f g p (searches st) le h = h
  StageInv-Grows f g p (failed true) le h = Excused-Grows f g le h
  StageInv-Grows f g p (failed false) le h = h
  StageInv-Grows f g p marks le h = h
  StageInv-Grows f g p kills le h = Excused-Grows f g le h
  StageInv-Grows f g p (ended End.passed) le h = h
  StageInv-Grows f g p (ended End.illegal) le h = Excused-Grows f g le h
  StageInv-Grows f g p (ended End.aborted) le h = Excused-Grows f g le h
  StageInv-Grows f g p skipped le h = Excused-Grows f g le h
  StageInv-Grows f g p Task.panicked le h = h

  -- What an access to the flags keeps.
  pub record Worked (partitions : List (List (Entry I O))) (p : List (Entry I O)) (f : Flags)
      (s : Stage S I O) (g : Flags) (t : Stage S I O) : Type 0 where
    pub flags : FlagsInv partitions g
    pub stage : StageInv g p t
    pub grows : Grows f g
    pub same_timed_out : g.timed_out ≡ f.timed_out
    pub marked : IsMarked s → IsMarked t
    pub marks : g.definitive_illegal ≡ true → (f.definitive_illegal ≡ true) ⊎ IsMarked t

  abbrev pub WorkedOf :
      List (List (Entry I O))
      → List (Entry I O)
      → Flags
      → Stage S I O
      → Option (Flags × Stage S I O)
      → Type 0
  WorkedOf partitions p f s none = Unit {0}
  WorkedOf partitions p f s (some r) = Worked partitions p f s r.0 r.1

  module _ (sound : EqIsSound m) (partitions : List (List (Entry I O))) (p : List (Entry I O))
      (history : IsHistory p) where
    -- A task goes on without a store.
    pub no_store :
        (f : Flags) (s t : Stage S I O)
        → FlagsInv partitions f
        → ¬ IsMarked s
        → StageInv f p t
        → Worked partitions p f s f t
    no_store f s t h unmarked h' = record {
      flags = h;
      stage = h';
      grows = Grows-refl f;
      same_timed_out = refl;
      marked = λ x. absurd (unmarked x);
      marks = inl;
    }

    Begun-StageInv : (f : Flags) (t : Stage S I O) → Begun m p t → StageInv f p t
    Begun-StageInv f _ (runs st r) =
        (0, λ fuel. r (0 + fuel) ∙ ap (λ n. search_loop m never n st) (omega arith))
    Begun-StageInv f _ (passes c) =
        Verdict-true m p (Comes-Verdict m sound p (returned true) history c)
    Begun-StageInv f _ (fails c) =
        absurd (not_panicked m p (Comes-Verdict m sound p panicked history c))

    -- After a round that saw the kill flag not set.
    after_round-StageInv :
        (f : Flags) (st : Search S I O) (r : Round S I O)
        → round m false st ≡ r
        → Reaches m p st
        → StageInv f p (after_round false r)
    after_round-StageInv f st (next_round st') e h = Reaches-next m p st st' h e
    after_round-StageInv f st (returns true) e h =
        Verdict-true m p
          (Comes-Verdict m sound p (returned true) history (Reaches-returns m p st true h e))
    after_round-StageInv f st (returns false) e h =
        Verdict-false m p
          (Comes-Verdict m sound p (returned false) history (Reaches-returns m p st false h e))
    after_round-StageInv f st panics e h =
        not_panicked m p (Comes-Verdict m sound p panicked history (Reaches-panics m p st h e))

    searches-StageInv :
        (k : Bool) (f : Flags) (st : Search S I O)
        → (k ≡ true → Excused f)
        → Reaches m p st
        → StageInv f p (after_round k (round m k st))
    unfolding round
    searches-StageInv true f st ex h = ex refl
    searches-StageInv false f st ex h = after_round-StageInv f st (round m false st) refl h

    load-true : (fresh flag : Bool) → load fresh flag ≡ true → flag ≡ true
    load-true true flag h = h
    load-true false flag h = absurd (cc)

    pub work_stage-Worked :
        (fresh : Bool) (f : Flags) (s : Stage S I O)
        → Memᴰ p partitions
        → FlagsInv partitions f
        → StageInv f p s
        → WorkedOf partitions p f s (work_stage m fresh f p s)
    unfolding work_stage
    work_stage-Worked fresh f waits at h hs = elim (Bool-cases (load fresh f.kill)) [
      | inl y ↦ rw y (no_store f waits _ h (λ x. x) (h.killed (load-true fresh f.kill y)))
      | inr n ↦ rw n (no_store f waits _ h (λ x. x) tt)
    ]
    work_stage-Worked fresh f begins at h hs =
        no_store f begins _ h (λ x. x) (Begun-StageInv f (begin m p) (begin_lem m p))
    work_stage-Worked fresh f (searches st) at h hs =
        let kill = load fresh f.kill in
        no_store f (searches st) _ h (λ x. x)
          (searches-StageInv kill f st (λ y. h.killed (load-true fresh f.kill y)) hs)
    work_stage-Worked fresh f (failed true) at h hs = no_store f (failed true) _ h (λ x. x) hs
    work_stage-Worked fresh f (failed false) at h hs = elim (Bool-cases (load fresh f.kill)) [
      | inl y ↦
          rw y (no_store f (failed false) kills h (λ x. x) (h.killed (load-true fresh f.kill y)))
      | inr n ↦ rw n (no_store f (failed false) marks h (λ x. x) hs)
    ]
    work_stage-Worked fresh f marks at h hs = record {
      flags = record { killed = λ e. inl refl; proved = λ e. (p, at, hs) };
      stage = inl refl;
      grows = record { kill = λ e. e; definitive_illegal = λ e. refl; timed_out = λ e. e };
      same_timed_out = refl;
      marked = λ x. tt;
      marks = λ e. inr tt;
    }
    work_stage-Worked fresh f kills at h hs = record {
      flags = record { killed = λ e. hs; proved = h.proved };
      stage = hs;
      grows = record { kill = λ e. refl; definitive_illegal = λ e. e; timed_out = λ e. e };
      same_timed_out = refl;
      marked = λ x. tt;
      marks = inl;
    }
    work_stage-Worked fresh f (ended e) at h hs = tt
    work_stage-Worked fresh f skipped at h hs = tt
    work_stage-Worked fresh f Task.panicked at h hs = tt
