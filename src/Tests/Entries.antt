-- ===== src/Tests/Entries.antt =====
-- The conversions of histories to entries, at a write that returns when a read is called.
use porcupine_rust.Base.{ℕ, ◌≡◌, arith, Option, none, some, List, [], ◌∷◌}
use porcupine_rust.Base.Do.{◌>>=◌}
use porcupine_rust.Types.{Operation, Event, EventKind}
use porcupine_rust.Arena.{NodeArena, from_entries}
use porcupine_rust.Arena.Live.{Live}
use porcupine_rust.Arena.Build.{return_table, from_entries-Live}
use porcupine_rust.Arena.Tables.{slots}
use porcupine_rust.Entries.Renumber.{IsNumbering, OnlyIds, Renamed, renumber_lem}
use porcupine_rust.Entries.{
  IdMap, sort_entries, push_entries, make_entries, make_entries_from_indices, renumber,
  convert_entries, convert_entries_from_indices,
}
use porcupine_rust.Entries.Subsets.{
  select, make_entries_from_indices-select, convert_entries_from_indices-select,
}
use porcupine_rust.Entries.Sorting.{IsSorted, at_key, sort_entries_lem}
use porcupine_rust.Entries.Histories.{make_entries-IsHistory}
use porcupine_rust.Checker.Correct.{IsHistory}
use porcupine_rust.Tests.Register.{write_around_read}

abbrev pub history : List (Operation (Option ℕ) ℕ)
history =
    record { client_id = 0; input = some 1; call = 3; output = 0; return_time = 7 }
    ∷ record { client_id = 1; input = none; call = 7; output = 1; return_time = 7 }
    ∷ []

abbrev pub events : List (Event (Option ℕ) ℕ)
events =
    record { client_id = 0; kind = EventKind.call; input = some (some 1); output = none; id = 9 }
    ∷ record { client_id = 1; kind = EventKind.call; input = some none; output = none; id = 4 }
    ∷ record { client_id = 0; kind = EventKind.return; input = none; output = some 0; id = 9 }
    ∷ record { client_id = 1; kind = EventKind.return; input = none; output = some 1; id = 4 }
    ∷ []

make_entries-IsHistory_example : IsHistory (make_entries history)
make_entries-IsHistory_example =
    make_entries-IsHistory history (omega arith, (omega arith, tt)) (omega arith)

make_entries_from_indices-select_example :
    make_entries_from_indices history (1 ∷ 0 ∷ [])
    ≡ (select history (1 ∷ 0 ∷ []) >>= λ ops. some (make_entries ops))
make_entries_from_indices-select_example = make_entries_from_indices-select history (1 ∷ 0 ∷ [])

convert_entries_from_indices-select_example :
    convert_entries_from_indices events (1 ∷ 3 ∷ [])
    ≡ (select events (1 ∷ 3 ∷ []) >>= λ evs. convert_entries (renumber evs))
convert_entries_from_indices-select_example =
    convert_entries_from_indices-select events (1 ∷ 3 ∷ [])

from_entries-Live_example :
    (a : NodeArena (Option ℕ) ℕ) × (from_entries (write_around_read 1) ≡ some a)
    × Live a (slots 1 (return_table (write_around_read 1)) (write_around_read 1))
from_entries-Live_example =
    from_entries-Live (write_around_read 1)
      (omega arith, (omega arith, (omega arith, (omega arith, tt)))) (omega arith)

sort_entries_lem_example :
    IsSorted (sort_entries (push_entries 0 history))
    × ((k : ℕ)
        → at_key k (sort_entries (push_entries 0 history)) ≡ at_key k (push_entries 0 history))
sort_entries_lem_example = sort_entries_lem (push_entries 0 history)

renumber_lem_example :
    (m : IdMap) × IsNumbering m × OnlyIds m events × Renamed m events (renumber events)
renumber_lem_example = renumber_lem events
