-- ===== src/Locality/Agreement.antt =====
-- The check with partitions and the check without agree, as docs/spec.md states under INV-LIN-03.
use mathlib.Core.List.{Memᴰ}
use mathlib.Core.List.Memᴰ
use porcupine_rust.Base.{
  ℕ, ◌*◌, ◌<◌, ◌≡◌, ◌≢◌, refl, sym, ◌∙◌, subst, arith, Bool, true, some, none, List, [], ◌∷◌,
  length,
}
use porcupine_rust.Base.Do.{some_inj}
use porcupine_rust.Types.{Operation, Event, CheckResult}
use porcupine_rust.Model.{Model, EqIsSound}
use porcupine_rust.Entry.{Entry}
use porcupine_rust.Arena.{no_ref}
use porcupine_rust.Entries.Histories.{IsWellFormed}
use porcupine_rust.Checker.Linearizable.{Linearizable, done, next}
use porcupine_rust.Parallel.{Sorts, System, answered}
use porcupine_rust.Parallel.Safety.{Reach}
use porcupine_rust.Checks.{check_operations, check_events}
use porcupine_rust.Checks.Operations.{Says, check_operations_sound}
use porcupine_rust.Locality.Checks.{positions_by_key}
use porcupine_rust.Locality.Independent.{IsIndependent, WholeSays, check_operations-WholeSays}
use porcupine_rust.Locality.Ids.{input_key, KeysAgree}
use porcupine_rust.Locality.EventChecks.{check_events-WholeSays}
use porcupine_rust.Assertions.{assert_well_formed_events}
use porcupine_rust.Checks.Events.{operations_of}
use porcupine_rust.Checks.Events.Groups.{operations_of-IsWellFormed}

module _ {S I O : Type 0} (m : Model S I O) where
  -- The model without its partitions.
  abbrev pub undivided : Model S I O
  undivided = record m { partition = λ h. none }

  Linearizable-undivided :
      {s : S} {ops : List (Operation I O)} → Linearizable undivided s ops → Linearizable m s ops
  Linearizable-undivided (done s) = done s
  Linearizable-undivided (next k r op e first step rest) =
      next k r op e first step (Linearizable-undivided rest)

  undivided-Linearizable :
      {s : S} {ops : List (Operation I O)} → Linearizable m s ops → Linearizable undivided s ops
  undivided-Linearizable (done s) = done s
  undivided-Linearizable (next k r op e first step rest) =
      next k r op e first step (undivided-Linearizable rest)

module _ {S I O V : Type 0} (m : Model S I O) (key : Operation I O → ℕ) (view : S → ℕ → V) where
  same_answer :
      (history : List (Operation I O)) (timeout timeout' : Bool) (r r' : CheckResult)
      → WholeSays m key view history timeout r
      → Says (undivided m) (history ∷ []) timeout' r'
      → r ≢ CheckResult.unknown
      → r' ≢ CheckResult.unknown
      → r ≡ r'
  same_answer history t t' CheckResult.ok CheckResult.ok h g n n' = refl
  same_answer history t t' CheckResult.illegal CheckResult.illegal h g n n' = refl
  same_answer history t t' CheckResult.ok CheckResult.illegal h (ops, at, bad) n n' =
      let same = Memᴰ.eq_of_singleton at in
      absurd (bad (undivided-Linearizable m (subst (λ l. Linearizable m m.init l) (sym same) h)))
  same_answer history t t' CheckResult.illegal CheckResult.ok h g n n' =
      absurd (h (Linearizable-undivided m (g history (Memᴰ.head refl))))
  same_answer history t t' CheckResult.unknown r' h g n n' = absurd (n refl)
  same_answer history t t' r CheckResult.unknown h g n n' = absurd (n' refl)

  -- For sound equality of states, a model that falls apart by keys and partitions the history by them,
  -- and operations that return at their call's time or later, few enough for 32-bit indices: where a
  -- check of the history and one without partitions both answer, whatever the builds, the timeouts and
  -- the orders of the threads, and neither answer is unknown, the answers are the same.
  pub check_operations_agree :
      EqIsSound m
      → IsIndependent m key view
      → (history : List (Operation I O)) (keys : List ℕ)
      → m.partition history ≡ some (positions_by_key key history keys)
      → ((op : Operation I O) → Memᴰ op history → Memᴰ (key op) keys)
      → IsWellFormed history
      → 2 * length history < no_ref
      → (debug debug' : Bool) (sorts sorts' : Sorts (List (Entry I O))) (timeout timeout' : Bool)
      → {start s start' s' : System S I O} {k k' : ℕ} {r r' : CheckResult}
      → check_operations m debug sorts timeout history ≡ some start
      → Reach m start k s
      → s.phase ≡ answered r
      → check_operations (undivided m) debug' sorts' timeout' history ≡ some start'
      → Reach (undivided m) start' k' s'
      → s'.phase ≡ answered r'
      → r ≢ CheckResult.unknown
      → r' ≢ CheckResult.unknown
      → r ≡ r'
  check_operations_agree sound h history keys parts covers formed fits debug debug' sorts sorts'
        timeout timeout' {r = r} {r' = r'} e reach is e' reach' is' =
      same_answer history timeout timeout' r r'
        (check_operations-WholeSays m key view sound h debug sorts timeout history keys parts covers
          formed fits e reach is)
        (check_operations_sound (undivided m) sound debug' sorts' timeout' history (history ∷ [])
          refl formed
          (λ ops at. subst (λ l. 2 * length l < no_ref) (sym (Memᴰ.eq_of_singleton at)) fits) e'
          reach' is')

module _ {S I O V : Type 0} (m : Model S I O) (key : I → ℕ) (key_of : ℕ → ℕ)
    (view : S → ℕ → V) where
  -- For sound equality of states, a model that falls apart by keys and partitions the events by the
  -- keys of their ids, and events that the assertion lets pass, few enough for 32-bit indices: where a
  -- check of the events and one without partitions of the operations in them both answer, whatever the
  -- builds, the timeouts and the orders of the threads, and neither answer is unknown, the answers are
  -- the same.
  pub check_events_agree :
      EqIsSound m
      → IsIndependent m (input_key key key_of) view
      → (history : List (Event I O)) (ops : List (Operation I O)) (keys : List ℕ)
      → m.partition_events history ≡ some (positions_by_key (λ ev. key_of ev.id) history keys)
      → ((ev : Event I O) → Memᴰ ev history → Memᴰ (key_of ev.id) keys)
      → KeysAgree key key_of history
      → assert_well_formed_events history ≡ true
      → length history < no_ref
      → operations_of history ≡ some ops
      → (debug debug' : Bool) (sorts sorts' : Sorts (List (Entry I O))) (timeout timeout' : Bool)
      → {start s start' s' : System S I O} {k k' : ℕ} {r r' : CheckResult}
      → check_events m debug sorts timeout history ≡ some start
      → Reach m start k s
      → s.phase ≡ answered r
      → check_operations (undivided m) debug' sorts' timeout' ops ≡ some start'
      → Reach (undivided m) start' k' s'
      → s'.phase ≡ answered r'
      → r ≢ CheckResult.unknown
      → r' ≢ CheckResult.unknown
      → r ≡ r'
  check_events_agree sound h history ops keys parts covers agree ok fits are debug debug' sorts
        sorts' timeout timeout' {r = r} {r' = r'} e reach is e' reach' is' =
      let (found, at, says) =
        check_events-WholeSays m key key_of view sound h debug sorts timeout history keys parts
          covers agree ok fits e reach is in
      let (again, at', formed, few) = operations_of-IsWellFormed history ok in
      let same : found ≡ ops = some_inj (sym at ∙ are) in
      let same' : again ≡ ops = some_inj (sym at' ∙ are) in
      let few' : 2 * length ops < no_ref =
        subst (λ l. 2 * length l < no_ref) same' (omega (arith, few, fits)) in
      same_answer m (input_key key key_of) view ops timeout timeout' r r'
        (subst (λ l. WholeSays m (input_key key key_of) view l timeout r) same says)
        (check_operations_sound (undivided m) sound debug' sorts' timeout' ops (ops ∷ []) refl
          (subst IsWellFormed same' formed)
          (λ l at. subst (λ l. 2 * length l < no_ref) (sym (Memᴰ.eq_of_singleton at)) few') e'
          reach' is')
