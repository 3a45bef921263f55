-- ===== src/Locality/Chosen.antt =====
-- The operations in the events of one key are the operations of that key, with other times.
use mathlib.Core.List.{Memᴰ}
use mathlib.Core.List.Memᴰ
use porcupine_rust.Base.{
  ℕ, suc, ◌+◌, ◌≡◌, refl, sym, ◌∙◌, subst, ap, arith, false, some, List, [], ◌∷◌, map, ◌==◌, inl,
  inr, Bool-cases, ==_iff,
}
use porcupine_rust.Base.Do.{some_inj}
use porcupine_rust.Types.{Operation, EventKind, Event}
use porcupine_rust.Checks.Events.{find_return, operations_from, operations_of}
use porcupine_rust.Checks.Events.Agree.{operations_return, operations_call, operation}
use porcupine_rust.Locality.{with_key}
use porcupine_rust.Locality.Keys.{with_key_in, with_key_out}
use porcupine_rust.Locality.Ranks.{
  rank, rank_zero, retime, of_key, Counts, Counts-tail, next_in, next_out, find_return-of_key,
}
use porcupine_rust.Locality.Called.{kind_cases, Called, Called-of}
use porcupine_rust.Locality.Ids.{input_key, KeysAgree}

module _ {I O : Type 0} (key : I → ℕ) (key_of : ℕ → ℕ) where
  module _ (k : ℕ) (g : ℕ → ℕ) where
    record Chosen (pos : ℕ) (events : List (Event I O)) (ops : List (Operation I O)) : Type 0 where
      are :
          operations_from (g pos) (of_key key_of k events)
          ≡ some (map (retime g) (with_key (input_key key key_of) k ops))
      counted :
          (op : Operation I O)
          → Memᴰ op (with_key (input_key key key_of) k ops)
          → g (suc op.return_time) ≡ suc (g op.return_time)

    Chosen-nil : (pos : ℕ) → Chosen pos [] []
    unfolding operations_from with_key
    Chosen-nil pos = record { are = refl; counted = λ op at. absurd (Memᴰ.not-nil at) }

    Chosen-return :
        (pos : ℕ) (ev : Event I O) (events : List (Event I O)) (ops : List (Operation I O))
        → ev.kind ≡ EventKind.return
        → Counts key_of k g pos (ev ∷ events)
        → Chosen (suc pos) events ops
        → Chosen pos (ev ∷ events) ops
    Chosen-return pos ev events ops kind h c = record {
      are = elim (Bool-cases (key_of ev.id == k)) [
        | inl y ↦
            let is = (==_iff (key_of ev.id) k).0 y in
            ap (operations_from (g pos)) (with_key_in (λ t. key_of t.id) k ev events is)
            ∙ operations_return (g pos) ev (of_key key_of k events) kind
            ∙ ap (λ p. operations_from p (of_key key_of k events))
                (sym (next_in key_of k g pos ev events is h))
            ∙ c.are
        | inr n ↦
            ap (operations_from (g pos)) (with_key_out (λ t. key_of t.id) k ev events n)
            ∙ ap (λ p. operations_from p (of_key key_of k events))
                (sym (next_out key_of k g pos ev events n h))
            ∙ c.are
      ];
      counted = c.counted;
    }

    Chosen-in :
        (pos : ℕ) (ev : Event I O) (events : List (Event I O)) (ops : List (Operation I O))
        (c : Called pos ev events ops)
        → ev.kind ≡ EventKind.call
        → key_of ev.id ≡ k
        → key c.input ≡ k
        → Counts key_of k g pos (ev ∷ events)
        → Chosen (suc pos) events c.rest
        → Chosen pos (ev ∷ events) ops
    Chosen-in pos ev events ops c kind is is_input h rest =
        let op = operation ev c.input pos c.output c.at in
        let next = next_in key_of k g pos ev events is h in
        let f =
          find_return-of_key key_of k g ev.id (suc pos) events c.at c.output is
            (Counts-tail key_of k g pos ev events h) c.found in
        let chosen : with_key (input_key key key_of) k ops
            ≡ op ∷ with_key (input_key key key_of) k c.rest =
          ap (with_key (input_key key key_of) k) c.are
          ∙ with_key_in (input_key key key_of) k op c.rest is_input in
        record {
          are =
              ap (operations_from (g pos)) (with_key_in (λ t. key_of t.id) k ev events is)
              ∙ operations_call (g pos) (g c.at) ev (of_key key_of k events) c.input c.output
                  (map (retime g) (with_key (input_key key key_of) k c.rest)) kind c.has
                  (subst
                    (λ p. find_return ev.id p (of_key key_of k events) ≡ some (g c.at, c.output))
                    next f.found)
                  (subst
                    (λ p.
                      operations_from p (of_key key_of k events)
                      ≡ some (map (retime g) (with_key (input_key key key_of) k c.rest)))
                    next rest.are)
              ∙ ap (λ l. some (map (retime g) l)) (sym chosen);
          counted = λ x at. elim (Memᴰ.cases_cons (subst (λ l. Memᴰ x l) chosen at)) [
            | inl same ↦
                subst (λ t. g (suc t.return_time) ≡ suc (g t.return_time)) (sym same) f.counted
            | inr more ↦ rest.counted x more
          ];
        }

    Chosen-out :
        (pos : ℕ) (ev : Event I O) (events : List (Event I O)) (ops : List (Operation I O))
        (c : Called pos ev events ops)
        → (key_of ev.id == k) ≡ false
        → (key c.input == k) ≡ false
        → Counts key_of k g pos (ev ∷ events)
        → Chosen (suc pos) events c.rest
        → Chosen pos (ev ∷ events) ops
    Chosen-out pos ev events ops c is is_input h rest =
        let op = operation ev c.input pos c.output c.at in
        let chosen : with_key (input_key key key_of) k ops
            ≡ with_key (input_key key key_of) k c.rest =
          ap (with_key (input_key key key_of) k) c.are
          ∙ with_key_out (input_key key key_of) k op c.rest is_input in
        record {
          are =
              ap (operations_from (g pos)) (with_key_out (λ t. key_of t.id) k ev events is)
              ∙ ap (λ p. operations_from p (of_key key_of k events))
                  (sym (next_out key_of k g pos ev events is h))
              ∙ rest.are
              ∙ ap (λ l. some (map (retime g) l)) (sym chosen);
          counted = λ x at. rest.counted x (subst (λ l. Memᴰ x l) chosen at);
        }

    Chosen-from :
        (pos : ℕ) (events : List (Event I O)) (ops : List (Operation I O))
        → KeysAgree key key_of events
        → Counts key_of k g pos events
        → operations_from pos events ≡ some ops
        → Chosen pos events ops
    unfolding operations_from
    Chosen-from pos [] ops agree h e = subst (Chosen pos []) (some_inj e) (Chosen-nil pos)
    Chosen-from pos (ev ∷ events) ops agree h e =
        let agree' : KeysAgree key key_of events = λ x i at. agree x i (Memᴰ.tail at) in
        let h' = Counts-tail key_of k g pos ev events h in
        let ih = λ (l : List (Operation I O)) (t : operations_from (suc pos) events ≡ some l).
          Chosen-from (suc pos) events l agree' h' t in
        elim (kind_cases ev.kind) [
          | inl kind ↦
              let c = Called-of pos ev events ops kind e in
              let same = agree ev c.input (Memᴰ.head refl) kind c.has in
              elim (Bool-cases (key_of ev.id == k)) [
                | inl y ↦
                    let is = (==_iff (key_of ev.id) k).0 y in
                    Chosen-in pos ev events ops c kind is (sym same ∙ is) h (ih c.rest c.tail)
                | inr n ↦
                    Chosen-out pos ev events ops c n (ap (λ j. j == k) (sym same) ∙ n) h
                      (ih c.rest c.tail)
              ]
          | inr kind ↦
              Chosen-return pos ev events ops kind h
                (ih ops (sym (operations_return pos ev events kind) ∙ e))
        ]

  -- The operations in the events of one key, and the positions of their returns.
  pub chosen :
      (history : List (Event I O)) (ops : List (Operation I O))
      → KeysAgree key key_of history
      → operations_of history ≡ some ops
      → (k : ℕ)
      → (operations_of (of_key key_of k history)
          ≡ some (map (retime (rank key_of k history)) (with_key (input_key key key_of) k ops)))
        × ((op : Operation I O)
            → Memᴰ op (with_key (input_key key key_of) k ops)
            → rank key_of k history (suc op.return_time)
              ≡ suc (rank key_of k history op.return_time))
  unfolding operations_of
  chosen history ops agree e k =
      let start = rank_zero key_of k history in
      let h : Counts key_of k (rank key_of k history) 0 history = λ j.
        let at : 0 + j ≡ j = omega arith in
        ap (rank key_of k history) at ∙ (omega (arith, start)) in
      let c = Chosen-from k (rank key_of k history) 0 history ops agree h e in
      (
        subst
            (λ p.
              operations_from p (of_key key_of k history)
              ≡ some (map (retime (rank key_of k history)) (with_key (input_key key key_of) k ops)))
            start c.are,
        c.counted,
      )
