-- ===== src/Tests/S2.antt =====
-- The model and the parser of examples/s2_checker.rs at a concrete stream and a concrete text.
use Prim.Native.String.{String}
use text.Mathlib.Text.{◌==◌ as str_eq}
use mathlib.Core.List.{Memᴰ}
use porcupine_rust.Base.{
  ℕ, ◌^◌, ◌≡◌, refl, arith, true, false, Option, none, some, List, [], ◌∷◌, ◌↔◌, ◌⊎◌, ltb,
  replicate, if◌then◌else◌,
}
use porcupine_rust.Types.{EventKind, Event}
use porcupine_rust.Model.PowerSet.{power_set_model}
use porcupine_rust.Bitset
use porcupine_rust.Types.{Operation, CheckResult}
use porcupine_rust.Arena.{from_entries, head_next, next_of, match_of, lift, unlink}
use porcupine_rust.Entries.{renumber, convert_entries, find_id}
use porcupine_rust.Checker
use porcupine_rust.Checker.{round, cache_push}
use porcupine_rust.Assertions.{assert_well_formed_events}
use porcupine_rust.Parallel
use porcupine_rust.Parallel.{System, work, main, answered, check_parallel}
use porcupine_rust.Parallel.Schedule.{play, play-Reach}
use porcupine_rust.Checks.{check_events}
use porcupine_rust.Checks.Events.{operations_of}
use porcupine_rust.S2.Verdict.{Tells, s2_verdict}
use porcupine_rust.S2.{
  S2StreamState, Append, S2Input, append, S2Output, append_success, append_indefinite_failure,
  s2_step, s2_stream_model,
}
use porcupine_rust.S2.Rules.{S2Step, TokenlessStep}
use porcupine_rust.S2.Steps.{s2_step_lem}
use porcupine_rust.S2.Parse.{Json, lines, parse_s2_jsonl}
use porcupine_rust.S2.Parse.Format.{IsRecording}
use porcupine_rust.S2.Parse.Records.{parse_s2_jsonl-IsRecording}
use porcupine_rust.S2.Parse.Starts.{parse_s2_jsonl-check_events}
use porcupine_rust.Tests.Parallel.{no_sort}

-- A JSON value, an object as its fields one after the other.
pub data Doc : Type 0 where
  null : Doc
  word : String → Doc
  num : ℕ → Doc
  field : String → Doc → Doc → Doc

abbrev get : Doc → String → Option Doc
get (field k v rest) name = let found = get rest name in if str_eq k name then some v else found
get _ name = none

abbrev index : Doc → String → Doc
index d name = elim (get d name) [ some v ↦ v | none ↦ null ]

abbrev as_str : Doc → Option String
as_str (word s) = some s
as_str _ = none

abbrev as_u64 : Doc → Option ℕ
as_u64 (num n) = if ltb n (2 ^ 64) then some n else none
as_u64 _ = none

-- The record of an event of client 1 with the id 7.
abbrev event : String → Doc → Doc
event kind v =
    field "client_id" (num 1) (field "op_id" (num 7) (field "event" (field kind v null) null))

-- Two documents, under the texts `a` and `b`.
abbrev from_str : String → Option Doc
from_str s =
    if str_eq s "a"
    then some (
        event "Start" (
          field "Append"
            (field "num_records" (num 3)
              (field "last_record_xxh3" (num 9) (field "fencing_token" (word "t") null)))
            null))
    else if str_eq s "b"
    then some (event "Finish" (field "AppendSuccess" (field "tail" (num 4294967299) null) null))
    else none

abbrev pub json : Json
json = record {
  Value = Doc;
  from_str = from_str;
  as_str = as_str;
  as_u64 = as_u64;
  get = get;
  index = index;
}

abbrev three : Append
three = record {
  num_records = 3;
  xxh3 = 9;
  set_fencing_token = none;
  fencing_token = some "t";
  match_seq_num = none;
}

abbrev called : Event S2Input S2Output
called = record {
  client_id = 1;
  kind = EventKind.call;
  input = some (append three);
  output = none;
  id = 7;
}

abbrev pub parsed : List (Event S2Input S2Output)
parsed =
    called
    ∷ record {
      client_id = 1;
      kind = EventKind.return;
      input = none;
      output = some (append_success 3);
      id = 7;
    }
    ∷ []

pub parses : parse_s2_jsonl json "  a \n\n b" ≡ some parsed
unfolding parse_s2_jsonl
parses = refl

-- A text that is no document.
panics : parse_s2_jsonl json "c" ≡ none
unfolding parse_s2_jsonl
panics = refl

parse_s2_jsonl-IsRecording_example :
    (parse_s2_jsonl json "  a \n\n b" ≡ some parsed) ↔ IsRecording json (lines "  a \n\n b") parsed
parse_s2_jsonl-IsRecording_example = parse_s2_jsonl-IsRecording json "  a \n\n b" parsed

parse_s2_jsonl-check_events_example :
    (system : System (List S2StreamState) S2Input S2Output) × (check_events
        (power_set_model s2_stream_model)
        false
        no_sort
        true
        parsed
      ≡ some system)
parse_s2_jsonl-check_events_example =
    parse_s2_jsonl-check_events json "  a \n\n b" parsed parses no_sort true

-- A stream without a token.
abbrev fresh : S2StreamState
fresh = record { tail = 0; xxh3 = 0; fencing_token = none }

abbrev grown : S2StreamState
grown = record { tail = 3; xxh3 = 9; fencing_token = none }

-- A successful append must have had its token; one that fails indefinitely may have been made on a
-- stream without a token.
success_needs_token : s2_step fresh (append three) (append_success 3) ≡ []
unfolding s2_step
success_needs_token = refl

failure_needs_none : s2_step fresh (append three) append_indefinite_failure ≡ grown ∷ fresh ∷ []
unfolding s2_step
failure_needs_none = refl

s2_step_lem_example : Memᴰ grown (s2_step fresh (append three) append_indefinite_failure) ↔ (
    S2Step fresh (append three) append_indefinite_failure grown
    ⊎ TokenlessStep fresh (append three) append_indefinite_failure grown)
s2_step_lem_example = s2_step_lem fresh (append three) append_indefinite_failure grown

-- The append with a token, on a stream that has none, is reported as a success: the two rounds of the
-- search and the stores of the task, then the calling thread.
abbrev pub refutes : List Parallel.ThreadEvent
refutes = main ∷ main ∷ main ∷ replicate 6 (work 0 true)

pub passes_assertion : assert_well_formed_events parsed ≡ true
unfolding assert_well_formed_events find_id
passes_assertion = refl

refuted :
    (start s : System (List S2StreamState) S2Input S2Output) × (check_events
        (power_set_model s2_stream_model)
        true
        no_sort
        true
        parsed
      ≡ some start)
    × (play (power_set_model s2_stream_model) refutes start ≡ some s)
    × (s.phase ≡ answered CheckResult.illegal)
unfolding check_events play assert_well_formed_events check_parallel convert_entries renumber
    from_entries head_next round Checker.start match_of Bitset.hash_with_bit Bitset.new Bitset.set
    lift unlink cache_push Bitset.ones find_id power_set_model s2_step next_of
refuted = (_, _, refl, refl, refl)

s2_verdict_example :
    (ops : List (Operation S2Input S2Output)) × (operations_of parsed ≡ some ops)
    × Tells ops true CheckResult.illegal
s2_verdict_example =
    s2_verdict true no_sort true parsed passes_assertion (omega arith) refuted.2
      (play-Reach (power_set_model s2_stream_model) refutes refuted.0 refuted.1 refuted.3) refuted.4
