-- ===== src/Tests/Program.antt =====
-- `main` of examples/s2_checker.rs at concrete arguments.
use Prim.Native.String.{String}
use text.Mathlib.Text.{◌==◌ as str_eq}
use porcupine_rust.Base.{
  ◌≡◌, refl, arith, true, Option, none, some, List, [], ◌∷◌, if◌then◌else◌, false,
}
use porcupine_rust.Types.{Operation}
use porcupine_rust.Model.PowerSet.{power_set_model}
use porcupine_rust.Bitset
use porcupine_rust.Types.{CheckResult}
use porcupine_rust.Arena.{from_entries, head_next, next_of, match_of, lift, unlink}
use porcupine_rust.Entries.{renumber, convert_entries, find_id}
use porcupine_rust.Checker
use porcupine_rust.Checker.{round, cache_push}
use porcupine_rust.Parallel.{System, answered, check_parallel}
use porcupine_rust.Parallel.Schedule.{play, play-Reach}
use porcupine_rust.Checks.{check_events}
use porcupine_rust.Checks.Events.{operations_of}
use porcupine_rust.S2.{S2StreamState, S2Input, S2Output, s2_step, s2_stream_model}
use porcupine_rust.S2.Main.{main, checks, exits, check_file, parse_u64, CodeTells, main-CodeTells}
use porcupine_rust.Tests.Parallel.{no_sort}
use porcupine_rust.Tests.S2.{json, parsed, parses, refutes, passes_assertion}

-- There is one file.
abbrev read_to_string : String → Option String
read_to_string path = if str_eq path "f" then some "  a \n\n b" else none

abbrev nothing_read : String → Option String
nothing_read path = none

reads_number : parse_u64 "+20" ≡ some 20
unfolding parse_u64
reads_number = refl

reads_no_number : parse_u64 "18446744073709551616" ≡ none
unfolding parse_u64
reads_no_number = refl

exits_on_usage : main json read_to_string true no_sort ("s2_checker" ∷ []) ≡ some (exits 1)
unfolding main
exits_on_usage = refl

exits_on_number :
    main json read_to_string true no_sort ("s2_checker" ∷ "f" ∷ "ten" ∷ []) ≡ some (exits 1)
unfolding main
exits_on_number = refl

exits_on_file : main json nothing_read true no_sort ("s2_checker" ∷ "f" ∷ []) ≡ some (exits 1)
unfolding main
exits_on_file = refl

-- The program's own name is not read.
exits_on_path : main json read_to_string true no_sort ("f" ∷ "g" ∷ []) ≡ some (exits 1)
unfolding main
exits_on_path = refl

-- The check of a build without debug assertions.
refuted_release :
    (start s : System (List S2StreamState) S2Input S2Output) × (check_events
        (power_set_model s2_stream_model)
        false
        no_sort
        true
        parsed
      ≡ some start)
    × (play (power_set_model s2_stream_model) refutes start ≡ some s)
    × (s.phase ≡ answered CheckResult.illegal)
unfolding check_events play check_parallel convert_entries renumber from_entries head_next round
    Checker.start match_of Bitset.hash_with_bit Bitset.new Bitset.set lift unlink cache_push
    Bitset.ones find_id power_set_model s2_step next_of
refuted_release = (_, _, refl, refl, refl)

main_starts :
    main json read_to_string false no_sort ("s2_checker" ∷ "f" ∷ "20" ∷ [])
    ≡ some (checks refuted_release.0)
unfolding main check_file
main_starts = rw (parses, refuted_release.2) refl

main-CodeTells_example :
    (ops : List (Operation S2Input S2Output)) × (operations_of parsed ≡ some ops)
    × CodeTells ops true 1
main-CodeTells_example =
    main-CodeTells json read_to_string no_sort "f" "  a \n\n b" parsed refl parses "s2_checker"
      ("20" ∷ []) passes_assertion (omega arith) main_starts
      (play-Reach (power_set_model s2_stream_model) refutes refuted_release.0 refuted_release.1
        refuted_release.3)
      refuted_release.4
