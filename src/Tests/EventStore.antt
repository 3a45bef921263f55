-- ===== src/Tests/EventStore.antt =====
-- The check of events on a store with one map, with the partitions of the keys of the ids.
use mathlib.Core.List.{Memᴰ}
use mathlib.Core.List.Memᴰ
use porcupine_rust.Base.{
  ℕ, ◌≡◌, ◌≢◌, refl, sym, ap, subst, arith, true, none, some, List, [], ◌∷◌, ◌==◌, if◌then◌else◌,
}
use porcupine_rust.Base.Do.{not_none, some_inj}
use porcupine_rust.Bitset
use porcupine_rust.Types.{Operation, EventKind, Event, CheckResult}
use porcupine_rust.Model.{Model, EqIsSound}
use porcupine_rust.Arena.{from_entries, head_next, next_of, match_of, lift, unlink}
use porcupine_rust.Entries.{find_id, make_entries, convert_entries_from_indices}
use porcupine_rust.Checker
use porcupine_rust.Checker.{round, cache_push}
use porcupine_rust.Checker.Linearizable.{Linearizable}
use porcupine_rust.Parallel.{System, answered, check_parallel}
use porcupine_rust.Parallel.Schedule.{play, play-Reach}
use porcupine_rust.Assertions.{
  assert_well_formed, assert_well_formed_events, assert_partition_events_paired,
}
use porcupine_rust.Partitions.{scan_partition_covering}
use porcupine_rust.Checks.{check_events, check_operations}
use porcupine_rust.Checks.Events.{operations_of}
use porcupine_rust.Locality.{positions}
use porcupine_rust.Locality.Checks.{positions_by_key}
use porcupine_rust.Locality.Ids.{KeysAgree, input_key}
use porcupine_rust.Locality.Independent.{IsIndependent}
use porcupine_rust.Locality.EventChecks.{check_events-WholeSays}
use porcupine_rust.Locality.Agreement.{undivided, check_events_agree}
use porcupine_rust.Tests.Parallel.{no_sort, finishes}
use porcupine_rust.Tests.Locality.{Access, both_finish}
use porcupine_rust.Tests.Store.{Map, get, put, map_eq, store, store-EqIsSound, store-IsIndependent}

abbrev access_key : Access → ℕ
access_key a = a.0

-- The keys of the ids 7 and 9.
abbrev key_of : ℕ → ℕ
key_of id = if id == 7 then 2 else 1

abbrev id_key : Event Access ℕ → ℕ
id_key ev = key_of ev.id

abbrev event_store : Model Map Access ℕ
event_store = record store { partition_events = λ h. some (positions_by_key id_key h (1 ∷ 2 ∷ [])) }

event_store-EqIsSound : EqIsSound event_store
event_store-EqIsSound = store-EqIsSound

event_store-IsIndependent : IsIndependent event_store (input_key access_key key_of) get
event_store-IsIndependent = record {
  acts = λ op s t s' same h. store-IsIndependent.acts op s t s' same h;
  frames = λ op s s' j n h. store-IsIndependent.frames op s s' j n h;
}

abbrev write_called : Event Access ℕ
write_called = record {
  client_id = 0;
  kind = EventKind.call;
  input = some (2, some 5);
  output = none;
  id = 7;
}

abbrev read_called : Event Access ℕ
read_called = record {
  client_id = 1;
  kind = EventKind.call;
  input = some (1, none);
  output = none;
  id = 9;
}

abbrev read_returns : Event Access ℕ
read_returns = record {
  client_id = 1;
  kind = EventKind.return;
  input = none;
  output = some 0;
  id = 9;
}

abbrev write_returns : Event Access ℕ
write_returns = record {
  client_id = 0;
  kind = EventKind.return;
  input = none;
  output = some 0;
  id = 7;
}

abbrev history : List (Event Access ℕ)
history = write_called ∷ read_called ∷ read_returns ∷ write_returns ∷ []

checked :
    (start s : System Map Access ℕ) × (check_events event_store true no_sort true history
      ≡ some start)
    × (play event_store both_finish start ≡ some s)
    × (s.phase ≡ answered CheckResult.ok)
unfolding check_events play assert_well_formed_events assert_partition_events_paired check_parallel
    from_entries head_next round Checker.start match_of Bitset.hash_with_bit Bitset.new Bitset.set
    lift unlink cache_push Bitset.ones positions convert_entries_from_indices
    scan_partition_covering next_of get put map_eq
checked = (_, _, refl, refl, refl)

passes : assert_well_formed_events history ≡ true
unfolding assert_well_formed_events find_id
passes = refl

-- What holds of each of the four events.
each :
    (P : Event Access ℕ → Type 0)
    → P write_called
    → P read_called
    → P read_returns
    → P write_returns
    → (ev : Event Access ℕ) → Memᴰ ev history
    → P ev
each P a b c d ev (Memᴰ.head e) = subst P (sym e) a
each P a b c d ev (Memᴰ.tail (Memᴰ.head e)) = subst P (sym e) b
each P a b c d ev (Memᴰ.tail (Memᴰ.tail (Memᴰ.head e))) = subst P (sym e) c
each P a b c d ev (Memᴰ.tail (Memᴰ.tail (Memᴰ.tail at))) = subst P (sym (Memᴰ.eq_of_singleton at)) d

covers : (ev : Event Access ℕ) → Memᴰ ev history → Memᴰ (key_of ev.id) (1 ∷ 2 ∷ [])
covers =
    each (λ ev. Memᴰ (key_of ev.id) (1 ∷ 2 ∷ [])) (Memᴰ.tail (Memᴰ.head refl)) (Memᴰ.head refl)
      (Memᴰ.head refl) (Memᴰ.tail (Memᴰ.head refl))

history-KeysAgree : KeysAgree access_key key_of history
history-KeysAgree ev i at kind has =
    each (λ x. x.kind ≡ EventKind.call → x.input ≡ some i → key_of x.id ≡ access_key i)
      (λ k e. ap access_key (some_inj e)) (λ k e. ap access_key (some_inj e))
      (λ k e. absurd (not_none e)) (λ k e. absurd (not_none e)) ev at kind has

check_events-WholeSays_example :
    (ops : List (Operation Access ℕ)) × (operations_of history ≡ some ops)
    × Linearizable event_store [] ops
check_events-WholeSays_example =
    check_events-WholeSays event_store access_key key_of get event_store-EqIsSound
      event_store-IsIndependent true no_sort true history (1 ∷ 2 ∷ []) refl covers history-KeysAgree
      passes (omega arith) {r = CheckResult.ok} checked.2
      (play-Reach event_store both_finish checked.0 checked.1 checked.3) checked.4

-- The operations in the events.
abbrev accesses : List (Operation Access ℕ)
accesses =
    record { client_id = 0; input = (2, some 5); call = 0; output = 0; return_time = 3 }
    ∷ record { client_id = 1; input = (1, none); call = 1; output = 0; return_time = 2 }
    ∷ []

accesses_are : operations_of history ≡ some accesses
unfolding operations_of
accesses_are = refl

in_one_piece :
    (start s : System Map Access ℕ) × (check_operations
        (undivided event_store)
        true
        no_sort
        true
        accesses
      ≡ some start)
    × (play (undivided event_store) finishes start ≡ some s)
    × (s.phase ≡ answered CheckResult.ok)
unfolding check_operations play assert_well_formed check_parallel make_entries from_entries
    head_next round Checker.start match_of Bitset.hash_with_bit Bitset.new Bitset.set lift unlink
    cache_push Bitset.ones get put map_eq
in_one_piece = (_, _, refl, refl, refl)

ok-known : CheckResult.ok ≢ CheckResult.unknown
ok-known h = cc

check_events_agree_example : CheckResult.ok ≡ CheckResult.ok
check_events_agree_example =
    check_events_agree event_store access_key key_of get event_store-EqIsSound
      event_store-IsIndependent history accesses (1 ∷ 2 ∷ []) refl covers history-KeysAgree passes
      (omega arith) accesses_are true true no_sort no_sort true true checked.2
      (play-Reach event_store both_finish checked.0 checked.1 checked.3) checked.4 in_one_piece.2
      (play-Reach (undivided event_store) finishes in_one_piece.0 in_one_piece.1 in_one_piece.3)
      in_one_piece.4 ok-known ok-known
