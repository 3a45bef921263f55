-- ===== src/Tests/Store.antt =====
-- A store with one map from keys to values, as the key-value model of tests/common/mod.rs.
use porcupine_rust.Base.{
  ℕ, ◌≡◌, ◌≢◌, refl, sym, ◌∙◌, arith, Bool, true, false, Option, none, some, List, [], ◌∷◌, ◌==◌,
  ◌&&◌, ==_iff, ==_refl, if◌then◌else◌, both, ap,
}
use porcupine_rust.Base.Do.{not_none, some_inj}
use porcupine_rust.Bitset
use porcupine_rust.Types.{CheckResult}
use porcupine_rust.Model.{Model, EqIsSound}
use porcupine_rust.Arena.{from_entries, head_next, next_of, match_of, lift, unlink}
use porcupine_rust.Entries.{make_entries, make_entries_from_indices}
use porcupine_rust.Checker
use porcupine_rust.Checker.{round, cache_push}
use porcupine_rust.Checker.Linearizable.{Linearizable}
use porcupine_rust.Parallel.{System, answered, check_parallel}
use porcupine_rust.Parallel.Schedule.{play, play-Reach}
use porcupine_rust.Assertions.{assert_well_formed}
use porcupine_rust.Partitions.{scan_partition_covering}
use porcupine_rust.Checks.{check_operations}
use porcupine_rust.Locality.{positions}
use porcupine_rust.Locality.Checks.{positions_by_key}
use porcupine_rust.Locality.Independent.{IsIndependent, check_operations-WholeSays}
use porcupine_rust.Locality.Agreement.{undivided, check_operations_agree}
use porcupine_rust.Tests.Parallel.{no_sort, finishes}
use porcupine_rust.Tests.Locality.{Access, key, accesses, both_finish, covers}

abbrev pub Map : Type 0
Map = List (ℕ × ℕ)

unfoldable pub get : Map → ℕ → ℕ
get [] k = 0
get ((j, v) ∷ m) k = let rest = get m k in if j == k then v else rest

unfoldable pub put : ℕ → ℕ → Map → Map
put k v [] = (k, v) ∷ []
put k v ((j, w) ∷ m) = let rest = put k v m in if j == k then (k, v) ∷ m else (j, w) ∷ rest

get-put : (k v : ℕ) (m : Map) (j : ℕ) → get (put k v m) j ≡ (if k == j then v else get m j)
unfolding get put
get-put k v [] j = refl
get-put k v ((i, w) ∷ m) j = ground (arith, get-put k v m j)

unfoldable pub map_eq : Map → Map → Bool
map_eq [] [] = true
map_eq ((k, v) ∷ m) ((j, w) ∷ n) = k == j && (v == w && map_eq m n)
map_eq _ _ = false

abbrev access : Map → ℕ → Option ℕ → ℕ → Option Map
access s k none o = if o == get s k then some s else none
access s k (some v) o = some (put k v s)

abbrev pub store : Model Map Access ℕ
store = record {
  init = [];
  step = λ s i o. access s (i.0) (i.1) o;
  partition = λ h. some (positions_by_key key h (1 ∷ 2 ∷ []));
  partition_events = λ h. none;
  state_eq = map_eq;
}

pub store-EqIsSound : EqIsSound store
unfolding map_eq
store-EqIsSound [] [] h = refl
store-EqIsSound ((k, v) ∷ m) ((j, w) ∷ n) h =
    let (a, g) = both (k == j) _ h in
    let (b, f) = both (v == w) _ g in cc ((==_iff k j).0 a, (==_iff v w).0 b, store-EqIsSound m n f)
store-EqIsSound [] ((j, w) ∷ n) h = absurd (cc)
store-EqIsSound ((k, v) ∷ m) [] h = absurd (cc)

if_some :
    (b : Bool) (s s' : Map)
    → Path (Option Map) (if b then some s else none) (some s')
    → (b ≡ true) × (s ≡ s')
if_some true s s' h = (refl, some_inj h)
if_some false s s' h = absurd (not_none h)

put_same : (k v : ℕ) (s t : Map) → get (put k v s) k ≡ get (put k v t) k
put_same k v s t = get-put k v s k ∙ rw (==_refl k) refl ∙ sym (get-put k v t k)

access_acts :
    (k : ℕ) (x : Option ℕ) (o : ℕ) (s t s' : Map)
    → get s k ≡ get t k
    → access s k x o ≡ some s'
    → (t' : Map) × (access t k x o ≡ some t') × (get t' k ≡ get s' k)
access_acts k none o s t s' same h =
    let (b, e) = if_some (o == get s k) s s' h in
    let b' : (o == get t k) ≡ true = ap (λ v. o == v) (sym same) ∙ b in
    (t, rw b' refl, sym same ∙ ap (λ m. get m k) e)
access_acts k (some v) o s t s' same h =
    let e : put k v s ≡ s' = some_inj h in (put k v t, refl, put_same k v t s ∙ ap (λ m. get m k) e)

access_frames :
    (k : ℕ) (x : Option ℕ) (o : ℕ) (s s' : Map) (j : ℕ)
    → (k == j) ≡ false
    → access s k x o ≡ some s'
    → get s' j ≡ get s j
access_frames k none o s s' j n h = ap (λ m. get m j) (sym (if_some (o == get s k) s s' h).1)
access_frames k (some v) o s s' j n h =
    let e : put k v s ≡ s' = some_inj h in ap (λ m. get m j) (sym e) ∙ get-put k v s j ∙ rw n refl

pub store-IsIndependent : IsIndependent store key get
store-IsIndependent = record {
  acts = λ op s t s' same h. access_acts (key op) (op.input.1) op.output s t s' same h;
  frames = λ op s s' j n h. access_frames (key op) (op.input.1) op.output s s' j n h;
}

-- Both checks: with the partitions, and in one piece.
divided :
    (start s : System Map Access ℕ) × (check_operations store true no_sort true accesses
      ≡ some start)
    × (play store both_finish start ≡ some s)
    × (s.phase ≡ answered CheckResult.ok)
unfolding check_operations play assert_well_formed check_parallel make_entries from_entries
    head_next round Checker.start match_of Bitset.hash_with_bit Bitset.new Bitset.set lift unlink
    cache_push Bitset.ones positions make_entries_from_indices scan_partition_covering next_of get
    put map_eq
divided = (_, _, refl, refl, refl)

in_one_piece :
    (start s : System Map Access ℕ) × (check_operations (undivided store) true no_sort true accesses
      ≡ some start)
    × (play (undivided store) finishes start ≡ some s)
    × (s.phase ≡ answered CheckResult.ok)
unfolding check_operations play assert_well_formed check_parallel make_entries from_entries
    head_next round Checker.start match_of Bitset.hash_with_bit Bitset.new Bitset.set lift unlink
    cache_push Bitset.ones get put map_eq
in_one_piece = (_, _, refl, refl, refl)

ok-known : CheckResult.ok ≢ CheckResult.unknown
ok-known h = cc

check_operations-WholeSays_example : Linearizable store [] accesses
check_operations-WholeSays_example =
    check_operations-WholeSays store key get store-EqIsSound store-IsIndependent true no_sort true
      accesses (1 ∷ 2 ∷ []) refl covers (omega arith, (omega arith, tt)) (omega arith)
      {r = CheckResult.ok} divided.2 (play-Reach store both_finish divided.0 divided.1 divided.3)
      divided.4

check_operations_agree_example : CheckResult.ok ≡ CheckResult.ok
check_operations_agree_example =
    check_operations_agree store key get store-EqIsSound store-IsIndependent accesses (1 ∷ 2 ∷ [])
      refl covers (omega arith, (omega arith, tt)) (omega arith) true true no_sort no_sort true true
      divided.2 (play-Reach store both_finish divided.0 divided.1 divided.3) divided.4
      in_one_piece.2
      (play-Reach (undivided store) finishes in_one_piece.0 in_one_piece.1 in_one_piece.3)
      in_one_piece.4 ok-known ok-known
