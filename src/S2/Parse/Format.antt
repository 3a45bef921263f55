-- ===== src/S2/Parse/Format.antt =====
-- The format of the recorded histories that examples/s2_checker.rs reads, as rules on JSON values. The
-- lines of a text and `trim` are the standard library's.
use Prim.Native.String.{String}
use porcupine_rust.Base.{ℕ, ◌+◌, ◌*◌, ◌^◌, ◌<◌, ◌≡◌, true, false, Option, none, some, List, [], ◌∷◌}
use porcupine_rust.Types.{EventKind, Event}
use porcupine_rust.S2.{
  Append, S2Input, append, read, check_tail, S2Output, append_success, append_definite_failure,
  append_indefinite_failure, read_success, read_failure, check_tail_success, check_tail_failure,
}
use porcupine_rust.S2.Parse.{Json, trim_start, trim_end, is_empty}

-- `m` is the 32 lowest bits of `n`.
pub record IsLow (n m : ℕ) : Type 0 where
  pub high : ℕ
  pub parts : n ≡ high * 2 ^ 32 + m
  pub fits : m < 2 ^ 32

-- The names of the outcomes without values.
pub data IsWord : String → S2Output → Type 0 where
  definite : IsWord "AppendDefiniteFailure" append_definite_failure
  indefinite : IsWord "AppendIndefiniteFailure" append_indefinite_failure
  read_word : IsWord "ReadFailure" read_failure
  check_word : IsWord "CheckTailFailure" check_tail_failure

module _ (json : Json) where
  -- The field has a number.
  abbrev pub HasNumber : json.Value → String → ℕ → Type 0
  HasNumber v name n = json.as_u64 (json.index v name) ≡ some n

  -- The field has a number with these lowest bits.
  pub record HasLow (v : json.Value) (name : String) (m : ℕ) : Type 0 where
    pub whole : ℕ
    pub holds : HasNumber v name whole
    pub low : IsLow whole m

  -- The field has a text, or it is missing or has none.
  pub data MayText (v : json.Value) (name : String) : Option String → Type 0 where
    text :
        {w : json.Value} (s : String)
        → json.get v name ≡ some w
        → json.as_str w ≡ some s
        → MayText v name (some s)
    no_text :
        {w : json.Value} → json.get v name ≡ some w → json.as_str w ≡ none → MayText v name none
    missing_text : json.get v name ≡ none → MayText v name none

  pub data MayLow (v : json.Value) (name : String) : Option ℕ → Type 0 where
    low :
        {w : json.Value} (n : ℕ) {m : ℕ}
        → json.get v name ≡ some w
        → json.as_u64 w ≡ some n
        → IsLow n m
        → MayLow v name (some m)
    no_number :
        {w : json.Value} → json.get v name ≡ some w → json.as_u64 w ≡ none → MayLow v name none
    missing_number : json.get v name ≡ none → MayLow v name none

  pub record IsAppend (v : json.Value) (a : Append) : Type 0 where
    pub records : HasLow v "num_records" a.num_records
    pub hashed : HasNumber v "last_record_xxh3" a.xxh3
    pub sets : MayText v "set_fencing_token" a.set_fencing_token
    pub asks : MayText v "fencing_token" a.fencing_token
    pub seq : MayLow v "match_seq_num" a.match_seq_num

  pub data IsStart (v : json.Value) : S2Input → Type 0 where
    a_read : json.as_str v ≡ some "Read" → IsStart v read
    a_check : json.as_str v ≡ some "CheckTail" → IsStart v check_tail
    an_append :
        {inner : json.Value} {a : Append}
        → json.as_str v ≡ none
        → json.get v "Append" ≡ some inner
        → IsAppend inner a
        → IsStart v (append a)

  pub data IsFinish (v : json.Value) : S2Output → Type 0 where
    a_word : {s : String} {o : S2Output} → json.as_str v ≡ some s → IsWord s o → IsFinish v o
    appended :
        {inner : json.Value} {tail : ℕ}
        → json.as_str v ≡ none
        → json.get v "AppendSuccess" ≡ some inner
        → HasLow inner "tail" tail
        → IsFinish v (append_success tail)
    was_read :
        {inner : json.Value} {tail xxh3 : ℕ}
        → json.as_str v ≡ none
        → json.get v "AppendSuccess" ≡ none
        → json.get v "ReadSuccess" ≡ some inner
        → HasLow inner "tail" tail
        → HasNumber inner "xxh3" xxh3
        → IsFinish v (read_success tail xxh3)
    was_checked :
        {inner : json.Value} {tail : ℕ}
        → json.as_str v ≡ none
        → json.get v "AppendSuccess" ≡ none
        → json.get v "ReadSuccess" ≡ none
        → json.get v "CheckTailSuccess" ≡ some inner
        → HasLow inner "tail" tail
        → IsFinish v (check_tail_success tail)

  -- What happened: the call of an operation, or its return.
  pub data IsHappening (v : json.Value) : Event S2Input S2Output → Type 0 where
    started :
        {client op : ℕ} {w : json.Value} {i : S2Input}
        → json.get v "Start" ≡ some w
        → IsStart w i
        → IsHappening v (record {
          client_id = client;
          kind = EventKind.call;
          input = some i;
          output = none;
          id = op;
        })
    finished :
        {client op : ℕ} {w : json.Value} {o : S2Output}
        → json.get v "Start" ≡ none
        → json.get v "Finish" ≡ some w
        → IsFinish w o
        → IsHappening v (record {
          client_id = client;
          kind = EventKind.return;
          input = none;
          output = some o;
          id = op;
        })

  pub record IsRecord (line : String) (ev : Event S2Input S2Output) : Type 0 where
    pub value : json.Value
    pub parses : json.from_str line ≡ some value
    pub client : HasNumber value "client_id" ev.client_id
    pub op : HasNumber value "op_id" ev.id
    pub happens : IsHappening (json.index value "event") ev

  -- A record on each line, and blank lines.
  pub data IsRecording : List String → List (Event S2Input S2Output) → Type 0 where
    no_lines : IsRecording [] []
    blank :
        {l : String} {ls : List String} {events : List (Event S2Input S2Output)}
        → is_empty (trim_end (trim_start l)) ≡ true
        → IsRecording ls events
        → IsRecording (l ∷ ls) events
    recorded :
        {l : String} {ls : List String} {ev : Event S2Input S2Output}
        {events : List (Event S2Input S2Output)}
        → is_empty (trim_end (trim_start l)) ≡ false
        → IsRecord (trim_end (trim_start l)) ev
        → IsRecording ls events
        → IsRecording (l ∷ ls) (ev ∷ events)
