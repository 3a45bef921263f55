-- ===== src/Suite/KvModel.antt =====
-- KvModel of the unit tests of src/checker.rs: a store with a number for each key, as a model with
-- partitions of operations and as one with partitions of events. A hash map is an association list
-- with each key once, and its iteration order the order in which the keys came in.
use porcupine_rust.Base.{
  ℕ, suc, Bool, true, false, ◌&&◌, Option, none, some, List, [], ◌∷◌, ◌++◌, map, ◌==◌,
  if◌then◌else◌, length,
}
use porcupine_rust.Types.{Operation, EventKind, Event}
use porcupine_rust.Model.{Model}
use porcupine_rust.Entries.{find_id}
use porcupine_rust.Suite.{event}

-- `HashMap<u8, i32>`
abbrev pub KvState : Type 0
KvState = List (ℕ × ℕ)

pub record KvInput : Type 0 where
  pub key : ℕ
  pub is_write : Bool
  pub value : ℕ

-- `insert`
unfoldable pub put : ℕ → ℕ → KvState → KvState
put key value [] = (key, value) ∷ []
put key value ((k, v) ∷ state) =
    let rest = put key value state in if k == key then (key, value) ∷ state else (k, v) ∷ rest

-- `*state.get(&key).unwrap_or(&0)`
abbrev pub stored : KvState → ℕ → ℕ
stored state key = elim (find_id key state) [ none ↦ 0 | some v ↦ v ]

-- Each key of the first map has its value in the second.
abbrev pub values_in : KvState → KvState → Bool
values_in [] other = true
values_in ((k, v) ∷ state) other =
    (elim (find_id k other) [ none ↦ false | some w ↦ v == w ]) && values_in state other

-- `PartialEq` of hash maps.
abbrev pub maps_eq : KvState → KvState → Bool
maps_eq a b = length a == length b && values_in a b

abbrev pub kv_step : KvState → KvInput → ℕ → Option KvState
kv_step state input output =
    if input.is_write
    then some (put input.key input.value state)
    else if output == stored state input.key
    then some state
    else none

-- `by_key.entry(key).or_default().push(i)`
unfoldable pub push_index : ℕ → ℕ → List (ℕ × List ℕ) → List (ℕ × List ℕ)
push_index key i [] = (key, i ∷ []) ∷ []
push_index key i ((k, indices) ∷ by_key) =
    let rest = push_index key i by_key in
    if k == key then (k, indices ++ i ∷ []) ∷ by_key else (k, indices) ∷ rest

-- The loop of `partition`, from operation `i` on, and `into_values`.
abbrev pub groups : ℕ → List (Operation KvInput ℕ) → List (ℕ × List ℕ) → List (List ℕ)
groups i [] by_key = map (λ e. e.1) by_key
groups i (o ∷ history) by_key = groups (suc i) history (push_index o.input.key i by_key)

abbrev pub kv_model : Model KvState KvInput ℕ
kv_model = record {
  init = [];
  step = kv_step;
  partition = λ history. some (groups 0 history []);
  partition_events = λ history. none;
  state_eq = maps_eq;
}

-- The first pass of `partition_events`: the key of each call's id.
abbrev pub keys_of : List (Event KvInput ℕ) → List (ℕ × ℕ) → List (ℕ × ℕ)
keys_of [] id_to_key = id_to_key
keys_of (ev ∷ history) id_to_key = elim ev.kind [
  | EventKind.call ↦ elim ev.input [
    | some input ↦ keys_of history (put ev.id input.key id_to_key)
    | none ↦ keys_of history id_to_key
  ]
  | EventKind.return ↦ keys_of history id_to_key
]

-- Its second pass, from event `i` on, and `into_values`.
abbrev pub event_groups :
    List (ℕ × ℕ) → ℕ → List (Event KvInput ℕ) → List (ℕ × List ℕ) → List (List ℕ)
event_groups id_to_key i [] by_key = map (λ e. e.1) by_key
event_groups id_to_key i (ev ∷ history) by_key = elim (find_id ev.id id_to_key) [
  | some key ↦ event_groups id_to_key (suc i) history (push_index key i by_key)
  | none ↦ event_groups id_to_key (suc i) history by_key
]

-- The model with the partitions of events.
abbrev pub kv_events_model : Model KvState KvInput ℕ
kv_events_model = record {
  init = [];
  step = kv_step;
  partition = λ history. none;
  partition_events = λ history. some (event_groups (keys_of history []) 0 history []);
  state_eq = maps_eq;
}

abbrev pub kv_write : ℕ → ℕ → KvInput
kv_write key value = record { key = key; is_write = true; value = value }

abbrev pub kv_read : ℕ → KvInput
kv_read key = record { key = key; is_write = false; value = 0 }

abbrev pub kv_op : ℕ → KvInput → ℕ → ℕ → ℕ → Operation KvInput ℕ
kv_op id input output call ret = record {
  client_id = id;
  input = input;
  call = call;
  output = output;
  return_time = ret;
}

abbrev pub kv_call : ℕ → ℕ → Bool → ℕ → Event KvInput ℕ
kv_call id key is_write value =
    event id EventKind.call (some (record { key = key; is_write = is_write; value = value })) none
      id

abbrev pub kv_ret : ℕ → ℕ → Event KvInput ℕ
kv_ret id output = event id EventKind.return none (some output) id
