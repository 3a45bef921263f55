-- ===== src/Suite/Arena.antt =====
-- The unit tests of NodeArena in src/checker.rs.
use porcupine_rust.Base.{ℕ, ◌≡◌, refl, Bool, true, false, ◌&&◌, some, [], ◌∷◌, ◌==◌, replicate}
use porcupine_rust.Base.Do.{◌>>=◌}
use porcupine_rust.Arena.{
  NodeArena, NodeRef, no_ref, from_entries, head_next, lift, unlift, unlink, relink,
}
use porcupine_rust.Entries.{make_entries}
use porcupine_rust.Suite.{passed, RegInput, write, read, op, at_index}

-- `arena.head_next() == Some(r)`
abbrev heads : NodeArena RegInput ℕ → NodeRef → Bool
heads arena r = elim (head_next arena) [ some (some first) ↦ first == r | _ ↦ false ]

-- `arena.nodes[i].next == r`
abbrev leads : NodeArena RegInput ℕ → ℕ → NodeRef → Bool
leads arena i r = at_index arena i (λ n. n.next == r)

abbrev arena_lift_and_unlift_restores_two_op_list : Bool
arena_lift_and_unlift_restores_two_op_list = passed (do
  arena ← from_entries (make_entries (op 0 (write 1) 0 0 15 ∷ op 1 (write 2) 0 5 10 ∷ []))
  lifted ← lift arena 1
  let first = heads lifted 2 && leads lifted 2 3 && leads lifted 3 no_ref
  restored ← unlift lifted 1
  some (
      first
      && heads restored 1
      && leads restored 1 2
      && leads restored 2 3
      && leads restored 3 4
      && leads restored 4 no_ref))

abbrev arena_nested_lift_unlift_restores_three_op_list : Bool
arena_nested_lift_unlift_restores_three_op_list = passed (do
  arena ←
      from_entries
        (make_entries (op 0 (write 1) 0 0 30 ∷ op 1 (write 2) 0 5 20 ∷ op 2 read 1 25 35 ∷ []))
  outer ← lift arena 1
  inner ← lift outer 2
  let first = heads inner 4 && leads inner 4 6
  back ← unlift inner 2
  let second = heads back 2 && leads back 2 3 && leads back 3 4
  restored ← unlift back 1
  some (
      first
      && second
      && heads restored 1
      && leads restored 1 2
      && leads restored 4 5
      && leads restored 5 6
      && leads restored 6 no_ref))

-- Both pass.
arena_tests_pass :
    (arena_lift_and_unlift_restores_two_op_list ∷ arena_nested_lift_unlift_restores_three_op_list
      ∷ [])
    ≡ replicate 2 true
unfolding make_entries from_entries head_next lift unlift unlink relink
arena_tests_pass = refl
