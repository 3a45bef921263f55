-- ===== src/Tests/Locality.antt =====
-- A store of registers, partitioned by their keys.
use mathlib.Core.List.{Memᴰ}
use mathlib.Core.List.Memᴰ
use porcupine_rust.Base.{
  ℕ, ◌≡◌, refl, arith, true, Option, none, some, List, [], ◌∷◌, ◌++◌, ◌==◌, ==_iff, ◌↔◌,
  if◌then◌else◌, replicate,
}
use porcupine_rust.Bitset
use porcupine_rust.Types.{Operation, CheckResult}
use porcupine_rust.Model.{Model, EqIsSound}
use porcupine_rust.Arena.{from_entries, head_next, next_of, match_of, lift, unlink}
use porcupine_rust.Entries.{make_entries, make_entries_from_indices}
use porcupine_rust.Checker
use porcupine_rust.Checker.{round, cache_push}
use porcupine_rust.Checker.Linearizable.{Linearizable}
use porcupine_rust.Parallel.{System, ThreadEvent, work, main, answered, check_parallel}
use porcupine_rust.Parallel.Schedule.{play, play-Reach}
use porcupine_rust.Assertions.{assert_well_formed}
use porcupine_rust.Partitions.{scan_partition_covering}
use porcupine_rust.Checks.{check_operations}
use porcupine_rust.Locality.{with_key, positions, KeyedLinearizable}
use porcupine_rust.Locality.Join.{KeyedLinearizable-iff}
use porcupine_rust.Locality.Checks.{positions_by_key, check_operations-KeyedSays}
use porcupine_rust.Tests.Parallel.{no_sort}

-- A key, and the value to write or `none` to read.
abbrev pub Access : Type 0
Access = ℕ × Option ℕ

abbrev pub key : Operation Access ℕ → ℕ
key op = op.input.0

-- The register of one key.
abbrev store : Model ℕ Access ℕ
store = record {
  init = 0;
  step = λ s i o. elim (i.1) [ none ↦ if o == s then some s else none | some v ↦ some v ];
  partition = λ h. some (positions_by_key key h (1 ∷ 2 ∷ []));
  partition_events = λ h. none;
  state_eq = ◌==◌;
}

store-EqIsSound : EqIsSound store
store-EqIsSound s t = (==_iff s t).0

-- A write to one register and a read of another, at the same time.
abbrev pub accesses : List (Operation Access ℕ)
accesses =
    record { client_id = 0; input = (2, some 5); call = 0; output = 0; return_time = 9 }
    ∷ record { client_id = 1; input = (1, none); call = 3; output = 0; return_time = 4 }
    ∷ []

KeyedLinearizable-iff_example :
    KeyedLinearizable store key (λ k. 0) accesses
    ↔ ((j : ℕ) → Linearizable store 0 (with_key key j accesses))
KeyedLinearizable-iff_example = KeyedLinearizable-iff store key (λ k. 0) accesses

-- Both tasks, one after the other, then the calling thread.
abbrev pub both_finish : List ThreadEvent
both_finish = main ∷ main ∷ main ∷ (replicate 4 (work 0 true) ++ main ∷ replicate 4 (work 0 true))

checked :
    (start s : System ℕ Access ℕ) × (check_operations store true no_sort true accesses ≡ some start)
    × (play store both_finish start ≡ some s)
    × (s.phase ≡ answered CheckResult.ok)
unfolding check_operations play assert_well_formed check_parallel make_entries from_entries
    head_next round Checker.start match_of Bitset.hash_with_bit Bitset.new Bitset.set lift unlink
    cache_push Bitset.ones positions make_entries_from_indices scan_partition_covering next_of
checked = (_, _, refl, refl, refl)

pub covers : (op : Operation Access ℕ) → Memᴰ op accesses → Memᴰ (key op) (1 ∷ 2 ∷ [])
covers op (Memᴰ.head e) = rw e (Memᴰ.tail (Memᴰ.head refl))
covers op (Memᴰ.tail (Memᴰ.head e)) = rw e (Memᴰ.head refl)
covers op (Memᴰ.tail (Memᴰ.tail at)) = absurd (Memᴰ.not-nil at)

check_operations-KeyedSays_example : KeyedLinearizable store key (λ k. 0) accesses
check_operations-KeyedSays_example =
    check_operations-KeyedSays store key store-EqIsSound true no_sort true accesses (1 ∷ 2 ∷ [])
      refl covers (omega arith, (omega arith, tt)) (omega arith) {r = CheckResult.ok} checked.2
      (play-Reach store both_finish checked.0 checked.1 checked.3) checked.4
