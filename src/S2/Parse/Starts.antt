-- ===== src/S2/Parse/Starts.antt =====
-- The check of the events that the parser of examples/s2_checker.rs gives starts without a panic.
use Prim.Native.String.{String}
use mathlib.Core.List.{Memᴰ}
use mathlib.Core.List.Memᴰ
use porcupine_rust.Base.{ℕ, suc, ◌≡◌, refl, sym, subst, inl, inr, Bool, false, some, List, [], ◌∷◌}
use porcupine_rust.Types.{Event}
use porcupine_rust.Entry.{Entry, EntryValue, call, return}
use porcupine_rust.Entries.{
  renumber_from, new_id, renumber, convert_from, convert_entries, IdMap, event_value,
}
use porcupine_rust.S2.{S2StreamState, s2_stream_model, S2Input, S2Output}
use porcupine_rust.Entries.Subsets.{event_value_id}
use porcupine_rust.Model.PowerSet.{power_set_model}
use porcupine_rust.Parallel.{Sorts, System, launch}
use porcupine_rust.Checks.{check_events, event_partitions}
use porcupine_rust.S2.Parse.{Json, parse_s2_jsonl}
use porcupine_rust.S2.Parse.Format.{
  IsHappening, started, finished, IsRecording, no_lines, blank, recorded,
}
use porcupine_rust.S2.Parse.Records.{parse_s2_jsonl-IsRecording}

abbrev HasValue : Event S2Input S2Output → Type 0
HasValue ev = (v : EntryValue S2Input S2Output) × (event_value ev ≡ some v)

happening_value :
    {json : Json} {v : json.Value} (ev : Event S2Input S2Output)
    → IsHappening json v ev
    → HasValue ev
unfolding event_value
happening_value ev (started {i = i} e h) = (call i, refl)
happening_value ev (finished {o = o} n e h) = (return o, refl)

recorded_value :
    {json : Json} {ls : List String} {events : List (Event S2Input S2Output)}
    → IsRecording json ls events
    → (ev : Event S2Input S2Output) → Memᴰ ev events
    → HasValue ev
recorded_value no_lines ev at = absurd (Memᴰ.not-nil at)
recorded_value (blank y h) ev at = recorded_value h ev at
recorded_value (recorded {ev = first} n r h) ev at = elim (Memᴰ.cases_cons at) [
  | inl e ↦ happening_value ev (subst (IsHappening _ _) (sym e) r.happens)
  | inr p ↦ recorded_value h ev p
]

convert_total :
    (m : IdMap) (time : ℕ) (events : List (Event S2Input S2Output))
    → ((ev : Event S2Input S2Output) → Memᴰ ev events → HasValue ev)
    → (entries : List (Entry S2Input S2Output)) × (convert_from time (renumber_from m events)
        ≡ some entries)
unfolding renumber_from convert_from
convert_total m time [] h = ([], refl)
convert_total m time (ev ∷ events) h =
    let (v, e) = h ev (Memᴰ.head refl) in
    let (rest, e2) =
      convert_total (new_id ev.id m).1 (suc time) events (λ x p. h x (Memᴰ.tail p)) in
    (
      record { id = (new_id ev.id m).0; time = time; value = v } ∷ rest,
      rw (event_value_id (new_id ev.id m).0 ev, e, e2) refl,
    )

-- The check of the events that the parser gives starts without a panic, in a build without debug
-- assertions.
pub parse_s2_jsonl-check_events :
    (json : Json) (input : String) (events : List (Event S2Input S2Output))
    → parse_s2_jsonl json input ≡ some events
    → (sorts : Sorts (List (Entry S2Input S2Output))) (timeout : Bool)
    → (system : System (List S2StreamState) S2Input S2Output) × (check_events
          (power_set_model s2_stream_model)
          false
          sorts
          timeout
          events
        ≡ some system)
unfolding check_events event_partitions convert_entries renumber power_set_model
parse_s2_jsonl-check_events json input events h sorts timeout =
    let (entries, e) =
      convert_total (record { ids = []; next_id = 0 }) 0 events
        (recorded_value ((parse_s2_jsonl-IsRecording json input events).0 h)) in
    (launch (power_set_model s2_stream_model) sorts timeout (entries ∷ []), rw (e) refl)
