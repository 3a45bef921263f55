-- ===== src/Locality/Checks.antt =====
-- What `check_operations` of src/checker.rs answers where the model's partitions are the keys.
use mathlib.Core.List.{Memᴰ}
use mathlib.Core.List.Memᴰ
use porcupine_rust.Base.{
  ℕ, ◌*◌, ◌<◌, ◌≡◌, refl, sym, subst, arith, Bool, true, some, List, [], ◌∷◌, map, length,
}
use porcupine_rust.Types.{Operation, CheckResult}
use porcupine_rust.Model.{Model, EqIsSound}
use porcupine_rust.Entry.{Entry}
use porcupine_rust.Arena.{no_ref}
use porcupine_rust.Entries.Subsets.{select}
use porcupine_rust.Entries.Histories.{IsWellFormed}
use porcupine_rust.Checker.Linearizable.{Linearizable}
use porcupine_rust.Parallel.{Sorts, System, answered}
use porcupine_rust.Parallel.Safety.{Reach}
use porcupine_rust.Checks.{collect, check_operations}
use porcupine_rust.Checks.Operations.{Says, sub_histories, check_operations_sound}
use porcupine_rust.Locality.{with_key, positions, KeyedLinearizable}
use porcupine_rust.Locality.Keys.{select-positions, mem_with_key, length-with_key}
use porcupine_rust.Locality.Join.{KeyedLinearizable-iff}

module _ {A : Type 0} (key : A → ℕ) (history : List A) where
  -- The elements of each key.
  abbrev pub by_key : List ℕ → List (List A)
  by_key keys = map (λ k. with_key key k history) keys

  -- The positions of the elements of each key.
  abbrev pub positions_by_key : List ℕ → List (List ℕ)
  positions_by_key keys = map (λ k. positions key k 0 history) keys

  pub collect-positions :
      (keys : List ℕ) → collect (select history) (positions_by_key keys) ≡ some (by_key keys)
  collect-positions [] = refl
  collect-positions (k ∷ keys) = rw (select-positions key k history, collect-positions keys) refl

module _ {S I O : Type 0} (m : Model S I O) (key : Operation I O → ℕ) where
  -- What an answer says of the whole history.
  abbrev pub KeyedSays : List (Operation I O) → Bool → CheckResult → Type 0
  KeyedSays history timeout CheckResult.ok = KeyedLinearizable m key (λ k. m.init) history
  KeyedSays history timeout CheckResult.illegal = ¬ KeyedLinearizable m key (λ k. m.init) history
  KeyedSays history timeout CheckResult.unknown = timeout ≡ true

  -- Where the keys that occur are checked, all are.
  all_keys :
      (history : List (Operation I O)) (keys : List ℕ)
      → ((op : Operation I O) → Memᴰ op history → Memᴰ (key op) keys)
      → ((ops : List (Operation I O))
          → Memᴰ ops (by_key key history keys)
          → Linearizable m m.init ops)
      → (j : ℕ) → Linearizable m m.init (with_key key j history)
  all_keys history keys covers says j = by_part (with_key key j history) refl
    where
      by_part :
          (l : List (Operation I O))
          → with_key key j history ≡ l
          → Linearizable m m.init (with_key key j history)
      by_part [] e = subst (λ l. Linearizable m m.init l) (sym e) (Linearizable.done m.init)
      by_part (op ∷ l) e =
          let (at, is) =
            mem_with_key key j op history (subst (λ t. Memᴰ op t) (sym e) (Memᴰ.head refl)) in
          says (with_key key j history)
            (Memᴰ.map (λ k. with_key key k history) (subst (λ k. Memᴰ k keys) is (covers op at)))

  pub Says-KeyedSays :
      (history : List (Operation I O)) (keys : List ℕ) (timeout : Bool) (r : CheckResult)
      → ((op : Operation I O) → Memᴰ op history → Memᴰ (key op) keys)
      → Says m (by_key key history keys) timeout r
      → KeyedSays history timeout r
  Says-KeyedSays history keys timeout CheckResult.ok covers says =
      (KeyedLinearizable-iff m key (λ k. m.init) history).1 (all_keys history keys covers says)
  Says-KeyedSays history keys timeout CheckResult.illegal covers (ops, at, bad) =
      let (k, _, is) = Memᴰ.of_map (λ k. with_key key k history) keys at in
      λ whole. bad (
        subst (λ l. Linearizable m m.init l) is
          ((KeyedLinearizable-iff m key (λ k. m.init) history).0 whole k))
  Says-KeyedSays history keys timeout CheckResult.unknown covers says = says

  -- For sound equality of states and operations that return at their call's time or later, few enough
  -- for 32-bit indices, where the model partitions the history by the keys of the operations, with a
  -- timeout or without, and whatever order the threads take: where `check_operations` answers ok, the
  -- whole history is linearizable over the parts of the keys, where it answers illegal, it is not, and
  -- where it answers unknown, there was a timeout.
  pub check_operations-KeyedSays :
      EqIsSound m
      → (debug : Bool) (sorts : Sorts (List (Entry I O))) (timeout : Bool)
        (history : List (Operation I O)) (keys : List ℕ)
      → m.partition history ≡ some (positions_by_key key history keys)
      → ((op : Operation I O) → Memᴰ op history → Memᴰ (key op) keys)
      → IsWellFormed history
      → 2 * length history < no_ref
      → {start s : System S I O} {k : ℕ} {r : CheckResult}
      → check_operations m debug sorts timeout history ≡ some start
      → Reach m start k s
      → s.phase ≡ answered r
      → KeyedSays history timeout r
  check_operations-KeyedSays sound debug sorts timeout history keys parts covers formed fits {r = r}
        e reach done =
      let groups : sub_histories m history ≡ some (by_key key history keys) =
        rw (parts, sub_histories) (collect-positions key history keys) in
      Says-KeyedSays history keys timeout r covers (
        check_operations_sound m sound debug sorts timeout history (by_key key history keys) groups
          formed
          (λ ops at.
            let (k, _, is) = Memᴰ.of_map (λ k. with_key key k history) keys at in
            let le = length-with_key key k history in
            subst (λ l. 2 * length l < no_ref) is (omega (arith, le, fits)))
          e reach done)
