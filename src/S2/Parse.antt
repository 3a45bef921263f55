-- ===== src/S2/Parse.antt =====
-- The parser of recorded histories in examples/s2_checker.rs, over the library `serde_json`, which
-- is the parameter `json`. `none` is a panic.
pub mod Format
pub mod Fields
pub mod Records
pub mod Starts
use Prim.Native.Char.{Char, code}
use Prim.Native.String.{String}
use text.Mathlib.Text.{◌==◌ as str_eq}
use porcupine_rust.Base.{
  ℕ, ◌%◌, ◌^◌, ◌<◌, ◌≡◌, Bool, true, false, ◌&&◌, ◌||◌, Option, none, some, List, [], ◌∷◌, ◌==◌,
  leb, if◌then◌else◌,
}
use porcupine_rust.Base.Do.{◌>>=◌}
use porcupine_rust.Types.{EventKind, Event}
use porcupine_rust.S2.{
  Append, S2Input, append, read, check_tail, S2Output, append_success, append_definite_failure,
  append_indefinite_failure, read_success, read_failure, check_tail_success, check_tail_failure,
}

-- A JSON value and the calls made on it.
pub record Json : Type 1 where
  pub Value : Type 0
  pub from_str : String → Option Value
  pub as_str : Value → Option String
  pub as_u64 : Value → Option ℕ
  pub get : Value → String → Option Value
  pub index : Value → String → Value

-- The characters of Unicode's White_Space.
abbrev pub is_whitespace : Char → Bool
is_whitespace c =
    let n = code c in
    (leb 9 n && leb n 13)
    || (n == 32
        || (n == 133
            || (n == 160
                || (n == 5760
                    || (leb 8192 n && leb n 8202)
                    || (n == 8232 || (n == 8233 || (n == 8239 || (n == 8287 || n == 12288))))))))

unfoldable pub trim_start : String → String
trim_start String.[] = String.[]
trim_start (String.◌∷◌ c s) =
    let rest = trim_start s in if is_whitespace c then rest else String.◌∷◌ c s

abbrev pub is_empty : String → Bool
is_empty String.[] = true
is_empty (String.◌∷◌ c s) = false

unfoldable pub trim_end : String → String
trim_end String.[] = String.[]
trim_end (String.◌∷◌ c s) =
    let rest = trim_end s in
    if is_empty rest && is_whitespace c then String.[] else String.◌∷◌ c rest

abbrev pub prepend : Char → List String → List String
prepend c [] = String.◌∷◌ c String.[] ∷ []
prepend c (l ∷ lines) = String.◌∷◌ c l ∷ lines

-- The lines of a text. `lines` also drops a carriage return before the end of a line, which `trim`
-- drops here.
unfoldable pub lines : String → List String
lines String.[] = []
lines (String.◌∷◌ c s) =
    let rest = lines s in if code c == 10 then String.[] ∷ rest else prepend c rest

-- `as u32`
abbrev pub as_u32 : ℕ → ℕ
as_u32 n = n % 2 ^ 32

module _ (json : Json) where
  -- `.get(name).and_then(as_str)`
  abbrev pub text_field : json.Value → String → Option String
  text_field v name = json.get v name >>= λ field. json.as_str field

  abbrev pub seq_num_field : json.Value → String → Option ℕ
  seq_num_field v name = json.get v name >>= λ field. json.as_u64 field >>= λ n. some (as_u32 n)

  -- `v[name].as_u64().unwrap()`
  abbrev pub number : json.Value → String → Option ℕ
  number v name = json.as_u64 (json.index v name)

  unfoldable pub parse_append : json.Value → Option S2Input
  parse_append v = do
    num_records ← number v "num_records"
    xxh3 ← number v "last_record_xxh3"
    some (
        append (record {
          num_records = as_u32 num_records;
          xxh3 = xxh3;
          set_fencing_token = text_field v "set_fencing_token";
          fencing_token = text_field v "fencing_token";
          match_seq_num = seq_num_field v "match_seq_num";
        }))

  unfoldable pub parse_start : json.Value → Option S2Input
  unfolding parse_append
  parse_start v = elim (json.as_str v) [
    | some s ↦
        if str_eq s "Read"
        then some read
        else if str_eq s "CheckTail"
        then some check_tail
        else none
    | none ↦ elim (json.get v "Append") [ some a ↦ parse_append a | none ↦ none ]
  ]

  abbrev pub finish_of : String → Option S2Output
  finish_of s =
      if str_eq s "AppendDefiniteFailure"
      then some append_definite_failure
      else if str_eq s "AppendIndefiniteFailure"
      then some append_indefinite_failure
      else if str_eq s "ReadFailure"
      then some read_failure
      else if str_eq s "CheckTailFailure"
      then some check_tail_failure
      else none

  unfoldable pub parse_success : json.Value → Option S2Output
  parse_success v = elim (json.get v "AppendSuccess") [
    | some inner ↦ (do tail ← number inner "tail"; some (append_success (as_u32 tail)))
    | none ↦ elim (json.get v "ReadSuccess") [
      | some inner ↦ do
        tail ← number inner "tail"
        xxh3 ← number inner "xxh3"
        some (read_success (as_u32 tail) xxh3)
      | none ↦ elim (json.get v "CheckTailSuccess") [
        | some inner ↦ (do tail ← number inner "tail"; some (check_tail_success (as_u32 tail)))
        | none ↦ none
      ]
    ]
  ]

  unfoldable pub parse_finish : json.Value → Option S2Output
  unfolding parse_success
  parse_finish v = elim (json.as_str v) [ some s ↦ finish_of s | none ↦ parse_success v ]

  unfoldable pub parse_event : ℕ → ℕ → json.Value → Option (Event S2Input S2Output)
  unfolding parse_start parse_finish
  parse_event client_id op_id event_obj = elim (json.get event_obj "Start") [
    | some start_val ↦ do
      i ← parse_start start_val
      some (record {
        client_id = client_id;
        kind = EventKind.call;
        input = some i;
        output = none;
        id = op_id;
      })
    | none ↦ elim (json.get event_obj "Finish") [
      | some finish_val ↦ do
        o ← parse_finish finish_val
        some (record {
          client_id = client_id;
          kind = EventKind.return;
          input = none;
          output = some o;
          id = op_id;
        })
      | none ↦ none
    ]
  ]

  unfoldable pub parse_record : String → Option (Event S2Input S2Output)
  unfolding parse_event
  parse_record line = do
    rec ← json.from_str line
    client_id ← number rec "client_id"
    op_id ← number rec "op_id"
    parse_event client_id op_id (json.index rec "event")

  -- The loop over the lines.
  unfoldable pub parse_lines : List String → Option (List (Event S2Input S2Output))
  unfolding parse_record trim_start trim_end
  parse_lines [] = some []
  parse_lines (l ∷ rest) =
      let line = trim_end (trim_start l) in
      let events = parse_lines rest in
      if is_empty line
      then events
      else parse_record line >>= λ ev. events >>= λ evs. some (ev ∷ evs)

  unfoldable pub parse_s2_jsonl : String → Option (List (Event S2Input S2Output))
  unfolding parse_lines lines
  parse_s2_jsonl input = parse_lines (lines input)
