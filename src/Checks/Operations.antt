-- ===== src/Checks/Operations.antt =====
-- What `check_operations` answers, for the sub-histories that it checks.
use mathlib.Core.List.{Memᴰ}
use mathlib.Core.List.Memᴰ
use porcupine_rust.Base.{
  ℕ, zero, suc, ◌*◌, ◌≤◌, ◌<◌, ◌≡◌, refl, ap, ◌∙◌, sym, subst, Bool, true, Option, none, some, List,
  [], ◌∷◌, map, length, inl, inr, get_elem?,
}
use porcupine_rust.Base.Do.{not_none, some_inj, bind_some, ◌>>=◌}
use porcupine_rust.Types.{Operation, CheckResult}
use porcupine_rust.Model.{Model, EqIsSound}
use porcupine_rust.Entry.{Entry}
use porcupine_rust.Arena.{no_ref}
use porcupine_rust.Entries.{make_entries, make_entries_from_indices}
use porcupine_rust.Entries.Subsets.{select, make_entries_from_indices-select}
use porcupine_rust.Entries.Histories.{IsWellFormed, make_entries-IsHistory}
use porcupine_rust.Checker.Correct.{IsHistory}
use porcupine_rust.Checker.Linearizable.{Linearizable}
use porcupine_rust.Checker.History.{to_history, of_history}
use porcupine_rust.Task.Runs.{Accepts}
use porcupine_rust.Parallel.{Sorts, System, launch, answered}
use porcupine_rust.Parallel.Safety.{Reach, Answers, check_parallel_sound}
use porcupine_rust.Assertions.{assert_well_formed}
use porcupine_rust.Partitions.{scan_partition_covering}
use porcupine_rust.Checks.{collect, debug_only, passes, operation_partitions, check_operations}

module _ {I O : Type 0} where
  IsWellFormed-get_elem? :
      (history : List (Operation I O)) (i : ℕ) (op : Operation I O)
      → IsWellFormed history
      → get_elem? history i ≡ some op
      → op.call ≤ op.return_time
  IsWellFormed-get_elem? [] i op h e = absurd (not_none e)
  IsWellFormed-get_elem? (o ∷ history) zero op h e =
      subst (λ z. z.call ≤ z.return_time) (some_inj e) h.0
  IsWellFormed-get_elem? (o ∷ history) (suc i) op h e = IsWellFormed-get_elem? history i op h.1 e

  IsWellFormed-select :
      (history : List (Operation I O)) (indices : List ℕ) (ops : List (Operation I O))
      → IsWellFormed history
      → select history indices ≡ some ops
      → IsWellFormed ops
  IsWellFormed-select history [] ops h e = subst IsWellFormed (some_inj e) tt
  IsWellFormed-select history (i ∷ indices) ops h e =
      let (op, at, e') = bind_some (get_elem? history i) _ ops e in
      let (rest, at', e'') = bind_some (select history indices) _ ops e' in
      subst IsWellFormed (some_inj e'')
        (IsWellFormed-get_elem? history i op h at, IsWellFormed-select history indices rest h at')

  -- The entries of the partitions are those of the sub-histories that they select.
  collect-make_entries :
      (history : List (Operation I O)) (parts : List (List ℕ))
      (partitions : List (List (Entry I O))) (groups : List (List (Operation I O)))
      → collect (make_entries_from_indices history) parts ≡ some partitions
      → collect (select history) parts ≡ some groups
      → partitions ≡ map make_entries groups
  collect-make_entries history [] partitions groups e g =
      subst (λ t. partitions ≡ map make_entries t) (some_inj g) (sym (some_inj e))
  collect-make_entries history (part ∷ parts) partitions groups e g =
      let (p, at, e') = bind_some (make_entries_from_indices history part) _ partitions e in
      let (ps, ats, e'') =
        bind_some (collect (make_entries_from_indices history) parts) _ partitions e' in
      let (ops, ag, g') = bind_some (select history part) _ groups g in
      let (rest, ags, g'') = bind_some (collect (select history) parts) _ groups g' in
      let one : p ≡ make_entries ops =
        some_inj (sym at ∙ make_entries_from_indices-select history part ∙ rw ag refl) in
      let more = collect-make_entries history parts ps rest ats ags in
      sym (some_inj e'') ∙ rw (one, more) refl ∙ ap (map make_entries) (some_inj g'')

  collect-IsWellFormed :
      (history : List (Operation I O)) (parts : List (List ℕ))
      (groups : List (List (Operation I O)))
      → IsWellFormed history
      → collect (select history) parts ≡ some groups
      → (ops : List (Operation I O)) → Memᴰ ops groups
      → IsWellFormed ops
  collect-IsWellFormed history [] groups h g ops at =
      absurd (Memᴰ.not-nil (subst (λ t. Memᴰ ops t) (sym (some_inj g)) at))
  collect-IsWellFormed history (part ∷ parts) groups h g ops at =
      let (first, ag, g') = bind_some (select history part) _ groups g in
      let (rest, ags, g'') = bind_some (collect (select history) parts) _ groups g' in
      elim (Memᴰ.cases_cons (subst (λ t. Memᴰ ops t) (sym (some_inj g'')) at)) [
        | inl e ↦ rw e (IsWellFormed-select history part first h ag)
        | inr q ↦ collect-IsWellFormed history parts rest h ags ops q
      ]

module _ {S I O : Type 0} (m : Model S I O) where
  -- The sub-histories that are checked: the whole history, where the model does not partition it.
  abbrev pub sub_histories : List (Operation I O) → Option (List (List (Operation I O)))
  sub_histories history = elim (m.partition history) [
    | some parts ↦ collect (select history) parts
    | none ↦ some (history ∷ [])
  ]

  -- What an answer says of the sub-histories.
  abbrev pub Says : List (List (Operation I O)) → Bool → CheckResult → Type 0
  Says groups timeout CheckResult.ok =
      (ops : List (Operation I O)) → Memᴰ ops groups → Linearizable m m.init ops
  Says groups timeout CheckResult.illegal =
      (ops : List (Operation I O)) × Memᴰ ops groups × ¬ Linearizable m m.init ops
  Says groups timeout CheckResult.unknown = timeout ≡ true

  partitions_eq :
      (debug : Bool) (history : List (Operation I O)) (partitions : List (List (Entry I O)))
      (groups : List (List (Operation I O)))
      → operation_partitions m debug history ≡ some partitions
      → sub_histories history ≡ some groups
      → IsWellFormed history
      → (partitions ≡ map make_entries groups)
        × ((ops : List (Operation I O)) → Memᴰ ops groups → IsWellFormed ops)
  unfolding operation_partitions
  partitions_eq debug history partitions groups e g h =
      let (b, first, e') =
        bind_some (debug_only debug (passes (assert_well_formed history))) _ partitions e in
      by_partition (m.partition history) e' g
    where
      by_partition :
          (o : Option (List (List ℕ)))
          → (elim o [
            | some parts ↦
                debug_only debug (scan_partition_covering parts (length history)) >>= λ b.
                collect (make_entries_from_indices history) parts
            | none ↦ some (make_entries history ∷ [])
          ])
            ≡ some partitions
          → (elim o [ some parts ↦ collect (select history) parts | none ↦ some (history ∷ []) ])
            ≡ some groups
          → (partitions ≡ map make_entries groups)
            × ((ops : List (Operation I O)) → Memᴰ ops groups → IsWellFormed ops)
      by_partition none x y = (
        sym (some_inj x) ∙ ap (map make_entries) (some_inj y),
        λ ops at. rw (Memᴰ.eq_of_singleton (subst (λ t. Memᴰ ops t) (sym (some_inj y)) at)) h,
      )
      by_partition (some parts) x y =
          let (b, ok, x') =
            bind_some (debug_only debug (scan_partition_covering parts (length history))) _
              partitions x in
          (
            collect-make_entries history parts partitions groups x' y,
            collect-IsWellFormed history parts groups h y,
          )

  -- The answer of the check of the entries of sub-histories, each well-formed and small.
  pub launch-Says :
      EqIsSound m
      → (sorts : Sorts (List (Entry I O))) (timeout : Bool) (groups : List (List (Operation I O)))
      → ((ops : List (Operation I O)) → Memᴰ ops groups → IsWellFormed ops)
      → ((ops : List (Operation I O)) → Memᴰ ops groups → 2 * length ops < no_ref)
      → {s : System S I O} {k : ℕ} {r : CheckResult}
      → Reach m (launch m sorts timeout (map make_entries groups)) k s
      → s.phase ≡ answered r
      → Says groups timeout r
  launch-Says sound sorts timeout groups formed small {s} {k} {r} reach done =
      let histories : (p : List (Entry I O)) → Memᴰ p (map make_entries groups) → IsHistory p =
        λ p at.
          let (ops, q, is) = Memᴰ.of_map make_entries groups at in
          rw (sym is) (make_entries-IsHistory ops (formed ops q) (small ops q)) in
      by_answer r
        (check_parallel_sound m sound sorts timeout (map make_entries groups) histories reach done)
        (λ ops q. to_history m ops (formed ops q) (small ops q))
        (λ ops q. of_history m ops (formed ops q) (small ops q))
    where
      by_answer :
          (r : CheckResult)
          → Answers m (map make_entries groups) timeout r
          → ((ops : List (Operation I O))
              → Memᴰ ops groups
              → Accepts m (make_entries ops)
              → Linearizable m m.init ops)
          → ((ops : List (Operation I O))
              → Memᴰ ops groups
              → Linearizable m m.init ops
              → Accepts m (make_entries ops))
          → Says groups timeout r
      by_answer CheckResult.ok a to of =
          λ ops q. to ops q (a (make_entries ops) (Memᴰ.map make_entries q))
      by_answer CheckResult.illegal (p, at, bad) to of =
          let (ops, q, is) = Memᴰ.of_map make_entries groups at in
          (ops, q, λ lin. bad (rw (sym is) (of ops q lin)))
      by_answer CheckResult.unknown a to of = a

  -- For sound equality of states and operations that return at their call's time or later, in
  -- sub-histories that are small enough for 32-bit indices, with a timeout or without, and whatever
  -- order the threads take: where `check_operations` answers ok, each sub-history is linearizable,
  -- where it answers illegal, one is not, and where it answers unknown, there was a timeout.
  pub check_operations_sound :
      EqIsSound m
      → (debug : Bool) (sorts : Sorts (List (Entry I O))) (timeout : Bool)
        (history : List (Operation I O)) (groups : List (List (Operation I O)))
      → sub_histories history ≡ some groups
      → IsWellFormed history
      → ((ops : List (Operation I O)) → Memᴰ ops groups → 2 * length ops < no_ref)
      → {start s : System S I O} {k : ℕ} {r : CheckResult}
      → check_operations m debug sorts timeout history ≡ some start
      → Reach m start k s
      → s.phase ≡ answered r
      → Says groups timeout r
  unfolding check_operations
  check_operations_sound sound debug sorts timeout history groups g h small {start} {s} {k} {r} e
        reach done =
      let (partitions, ep, es) = bind_some (operation_partitions m debug history) _ start e in
      let (same, formed) = partitions_eq debug history partitions groups ep g h in
      let starts : start ≡ launch m sorts timeout (map make_entries groups) =
        sym (some_inj es) ∙ ap (launch m sorts timeout) same in
      launch-Says sound sorts timeout groups formed small (subst (λ t. Reach m t k s) starts reach)
        done
