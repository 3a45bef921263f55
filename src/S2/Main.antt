-- ===== src/S2/Main.antt =====
-- `main` of examples/s2_checker.rs: the arguments, the file, the check and the exit code. The reading
-- of a file is the parameter `read_to_string`. `none` is a panic.
use Prim.Native.Char.{Char, code}
use Prim.Native.String.{String}
use porcupine_rust.Base.{
  ℕ, ◌+◌, ◌-◌, ◌*◌, ◌^◌, ◌<◌, ltb, leb, ◌&&◌, ◌==◌, if◌then◌else◌, ◌≡◌, refl, ◌∙◌, ap, Bool, true,
  false, Option, none, some, List, [], ◌∷◌, length, inl, inr, ◌⊎◌, Option-cases,
}
use porcupine_rust.Base.Do.{◌>>=◌, bind_some}
use porcupine_rust.Types.{Operation, Event, CheckResult}
use porcupine_rust.Entry.{Entry}
use porcupine_rust.Arena.{no_ref}
use porcupine_rust.Model.PowerSet.{power_set_model}
use porcupine_rust.Parallel.{Sorts, System, answered}
use porcupine_rust.Parallel.Safety.{Reach}
use porcupine_rust.Assertions.{assert_well_formed_events}
use porcupine_rust.Checks.{check_events}
use porcupine_rust.Checks.Events.{operations_of}
use porcupine_rust.S2.{S2StreamState, S2Input, S2Output, s2_stream_model}
use porcupine_rust.S2.Parse.{Json, parse_s2_jsonl}
use porcupine_rust.S2.Verdict.{IsExplained, Tells, s2_verdict}

-- `str::parse` for a u64: an optional plus and digits.
abbrev pub digit : Char → Option ℕ
digit c = let n = code c in if leb 48 n && leb n 57 then some (n - 48) else none

unfoldable pub parse_digits : ℕ → String → Option ℕ
parse_digits acc String.[] = some acc
parse_digits acc (String.◌∷◌ c s) = digit c >>= λ d.
    let n = acc * 10 + d in let rest = parse_digits n s in if ltb n (2 ^ 64) then rest else none

unfoldable pub parse_u64 : String → Option ℕ
unfolding parse_digits
parse_u64 String.[] = none
parse_u64 (String.◌∷◌ c String.[]) = parse_digits 0 (String.◌∷◌ c String.[])
parse_u64 (String.◌∷◌ c (String.◌∷◌ d s)) =
    if code c == 43
    then parse_digits 0 (String.◌∷◌ d s)
    else parse_digits 0 (String.◌∷◌ c (String.◌∷◌ d s))

-- What `main` does up to the check: it exits with a code, or it starts the check.
pub data Started : Type 0 where
  exits : (code : ℕ) → Started
  checks : System (List S2StreamState) S2Input S2Output → Started

abbrev pub exit_code : CheckResult → ℕ
exit_code CheckResult.ok = 0
exit_code CheckResult.illegal = 1
exit_code CheckResult.unknown = 1

module _ (json : Json) (read_to_string : String → Option String) (debug : Bool)
    (sorts : Sorts (List (Entry S2Input S2Output))) where
  -- From the file on.
  unfoldable pub check_file : String → Bool → Option Started
  check_file path timeout = elim (read_to_string path) [
    | none ↦ some (exits 1)
    | some content ↦ do
      events ← parse_s2_jsonl json content
      system ← check_events (power_set_model s2_stream_model) debug sorts timeout events
      some (checks system)
  ]

  unfoldable pub main : List String → Option Started
  unfolding check_file parse_u64
  main [] = some (exits 1)
  main (program ∷ []) = some (exits 1)
  main (program ∷ path ∷ []) = check_file path false
  main (program ∷ path ∷ secs ∷ args) = elim (parse_u64 secs) [
    | none ↦ some (exits 1)
    | some n ↦ check_file path true
  ]

-- A third argument asks for a timeout.
abbrev pub has_timeout : List String → Bool
has_timeout (program ∷ path ∷ secs ∷ args) = true
has_timeout _ = false

-- A timeout that is asked for is a number.
abbrev pub TimeoutReads : List String → Type 0
TimeoutReads [] = Unit
TimeoutReads (secs ∷ args) = (n : ℕ) × (parse_u64 secs ≡ some n)

-- What the exit code tells of the operations.
abbrev pub CodeTells : List (Operation S2Input S2Output) → Bool → ℕ → Type 0
CodeTells ops timeout code =
    ((code ≡ 0) × IsExplained ops) ⊎ ((code ≡ 1) × (¬ IsExplained ops ⊎ (timeout ≡ true)))

Tells-CodeTells :
    (ops : List (Operation S2Input S2Output)) (timeout : Bool) (r : CheckResult)
    → Tells ops timeout r
    → CodeTells ops timeout (exit_code r)
Tells-CodeTells ops timeout CheckResult.ok h = inl (refl, h)
Tells-CodeTells ops timeout CheckResult.illegal h = inr (refl, inl h)
Tells-CodeTells ops timeout CheckResult.unknown h = inr (refl, inr h)

module _ (json : Json) (read_to_string : String → Option String)
    (sorts : Sorts (List (Entry S2Input S2Output))) where
  checks_inj :
      {s t : System (List S2StreamState) S2Input S2Output}
      → Path (Option Started) (some (checks s)) (some (checks t))
      → s ≡ t
  checks_inj h = cc

  exits_not :
      {code : ℕ} {s : System (List S2StreamState) S2Input S2Output}
      → ¬ Path (Option Started) (some (exits code)) (some (checks s))
  exits_not h = cc

  module _ (path content : String) (events : List (Event S2Input S2Output))
      (read : read_to_string path ≡ some content)
      (parse : parse_s2_jsonl json content ≡ some events) where
    -- The check that is started is that of the events in the file.
    check_file-check_events :
        (debug timeout : Bool) (start : System (List S2StreamState) S2Input S2Output)
        → check_file json read_to_string debug sorts path timeout ≡ some (checks start)
        → check_events (power_set_model s2_stream_model) debug sorts timeout events ≡ some start
    unfolding check_file
    check_file-check_events debug timeout start h =
        let (system, c, e) =
          bind_some (check_events (power_set_model s2_stream_model) debug sorts timeout events) _
            (checks start) (rw (read, parse, check_file) at h) in
        c ∙ ap some (checks_inj e)

    main-check_events :
        (program : String) (args : List String) (debug : Bool)
        (start : System (List S2StreamState) S2Input S2Output)
        → main json read_to_string debug sorts (program ∷ path ∷ args) ≡ some (checks start)
        → check_events
            (power_set_model s2_stream_model)
            debug
            sorts
            (has_timeout (program ∷ path ∷ args))
            events
          ≡ some start
    unfolding main
    main-check_events program [] debug start h = check_file-check_events debug false start h
    main-check_events program (secs ∷ args) debug start h = elim (Option-cases (parse_u64 secs)) [
      | inl n ↦ absurd (exits_not (rw (n, main) at h))
      | inr (n, e) ↦ check_file-check_events debug true start (rw (e, main) at h)
    ]

    -- In a build without debug assertions, where the file that the second argument names holds
    -- well-formed events that fit into 32-bit indices, and the check that `main` starts gives an
    -- answer: the exit code is 0 and steps of a stream that is empty at first explain the operations in
    -- these events, or it is 1 and none do, or it is 1 and a timeout was asked for.
    pub main-CodeTells :
        (program : String) (args : List String)
        → assert_well_formed_events events ≡ true
        → length events < no_ref
        → {start s : System (List S2StreamState) S2Input S2Output} {k : ℕ} {r : CheckResult}
        → main json read_to_string false sorts (program ∷ path ∷ args) ≡ some (checks start)
        → Reach (power_set_model s2_stream_model) start k s
        → s.phase ≡ answered r
        → (ops : List (Operation S2Input S2Output)) × (operations_of events ≡ some ops)
          × CodeTells ops (has_timeout (program ∷ path ∷ args)) (exit_code r)
    main-CodeTells program args ok fits {start = start} {r = r} h reach done =
        let timeout = has_timeout (program ∷ path ∷ args) in
        let (ops, are, tells) =
          s2_verdict false sorts timeout events ok fits
            (main-check_events program args false start h) reach done in
        (ops, are, Tells-CodeTells ops timeout r tells)
