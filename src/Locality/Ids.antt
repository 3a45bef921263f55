-- ===== src/Locality/Ids.antt =====
-- The keys of ids and those of the operations that have them.
use mathlib.Core.List.{Memᴰ}
use mathlib.Core.List.Memᴰ
use porcupine_rust.Base.{ℕ, suc, ◌≡◌, refl, sym, ◌∙◌, subst, ap, some, List, [], ◌∷◌, inl, inr}
use porcupine_rust.Base.Do.{some_inj}
use porcupine_rust.Types.{Operation, EventKind, Event}
use porcupine_rust.Checks.Events.{operations_from, operations_of}
use porcupine_rust.Checks.Events.Agree.{operations_return}
use porcupine_rust.Locality.Called.{kind_cases, Called-of}

module _ {I O : Type 0} (key : I → ℕ) (key_of : ℕ → ℕ) where
  -- The key of an operation, by its input.
  abbrev pub input_key : Operation I O → ℕ
  input_key op = key op.input

  -- The keys of the ids are those of the calls.
  abbrev pub KeysAgree : List (Event I O) → Type 0
  KeysAgree events =
      (ev : Event I O) (i : I)
      → Memᴰ ev events
      → ev.kind ≡ EventKind.call
      → ev.input ≡ some i
      → key_of ev.id ≡ key i

  has_id_from :
      (pos : ℕ) (events : List (Event I O)) (ops : List (Operation I O)) (op : Operation I O)
      → KeysAgree events
      → operations_from pos events ≡ some ops
      → Memᴰ op ops
      → (ev : Event I O) × Memᴰ ev events × (key_of ev.id ≡ input_key op)
  unfolding operations_from
  has_id_from pos [] ops op agree e at =
      absurd (Memᴰ.not-nil (subst (λ l. Memᴰ op l) (sym (some_inj e)) at))
  has_id_from pos (ev ∷ events) ops op agree e at =
      let ih : (l : List (Operation I O))
          → operations_from (suc pos) events ≡ some l
          → Memᴰ op l
          → (x : Event I O) × Memᴰ x (ev ∷ events) × (key_of x.id ≡ input_key op) =
        λ l t p.
          let (x, was, is) =
            has_id_from (suc pos) events l op (λ y i q. agree y i (Memᴰ.tail q)) t p in
          (x, Memᴰ.tail was, is) in
      elim (kind_cases ev.kind) [
        | inl kind ↦
            let c = Called-of pos ev events ops kind e in
            elim (Memᴰ.cases_cons (subst (λ l. Memᴰ op l) c.are at)) [
              | inl same ↦ (
                ev,
                Memᴰ.head refl,
                agree ev c.input (Memᴰ.head refl) kind c.has ∙ ap input_key (sym same),
              )
              | inr more ↦ ih c.rest c.tail more
            ]
        | inr kind ↦ ih ops (sym (operations_return pos ev events kind) ∙ e) at
      ]

  -- An operation has the key of one of the ids.
  pub has_id :
      (events : List (Event I O)) (ops : List (Operation I O)) (op : Operation I O)
      → KeysAgree events
      → operations_of events ≡ some ops
      → Memᴰ op ops
      → (ev : Event I O) × Memᴰ ev events × (key_of ev.id ≡ input_key op)
  unfolding operations_of
  has_id events ops op = has_id_from 0 events ops op
