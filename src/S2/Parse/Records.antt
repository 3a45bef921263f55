-- ===== src/S2/Parse/Records.antt =====
-- The parser of examples/s2_checker.rs gives the events that a text records, and no others.
use Prim.Native.String.{String}
use text.Mathlib.Text.{◌==◌ as str_eq}
use text.Mathlib.TextEquality.{eq_iff}
use porcupine_rust.Base.{
  ℕ, ◌≡◌, ◌∙◌, refl, sym, ap, subst, true, Option, none, some, List, [], ◌∷◌, ◌↔◌, inl, inr,
}
use porcupine_rust.Base.Do.{bind_some, some_inj, not_none}
use porcupine_rust.Types.{Event}
use porcupine_rust.S2.{S2Input, S2Output}
use porcupine_rust.S2.Parse.{
  Json, trim_start, trim_end, is_empty, lines, as_u32, number, parse_start, finish_of,
  parse_success, parse_finish, parse_event, parse_record, parse_lines, parse_s2_jsonl,
}
use porcupine_rust.S2.Parse.Format.{
  HasLow, IsWord, definite, indefinite, read_word, check_word, IsStart, a_read, a_check, an_append,
  IsFinish, a_word, appended, was_read, was_checked, IsHappening, started, finished, IsRecord,
  IsRecording, no_lines, blank, recorded,
}
use porcupine_rust.S2.Parse.Fields.{
  if_case, option_case, as_u32-IsLow, IsLow-as_u32, parse_append-IsAppend, IsAppend-parse_append,
}

same_text : {s t : String} → str_eq s t ≡ true → s ≡ t
same_text {s} {t} h = (eq_iff s t).0 h

module _ (json : Json) where
  parse_start-IsStart :
      (v : json.Value) (i : S2Input) → parse_start json v ≡ some i → IsStart json v i
  unfolding parse_start
  parse_start-IsStart v i h = elim (option_case (json.as_str v) _ _ i h) [
    | inl (s, e, g) ↦ elim (if_case (str_eq s "Read") _ _ i g) [
      | inl (y, k) ↦ subst (IsStart json v) (some_inj k) (a_read (e ∙ ap some (same_text y)))
      | inr (n, k) ↦ elim (if_case (str_eq s "CheckTail") _ _ i k) [
        | inl (y, l) ↦ subst (IsStart json v) (some_inj l) (a_check (e ∙ ap some (same_text y)))
        | inr (m, l) ↦ absurd (not_none l)
      ]
    ]
    | inr (n, g) ↦ elim (option_case (json.get v "Append") _ _ i g) [
      | inl (inner, e, k) ↦
          let (a, is, ap) = parse_append-IsAppend json inner i k in
          subst (IsStart json v) (sym is) (an_append n e ap)
      | inr (m, k) ↦ absurd (not_none k)
    ]
  ]

  IsStart-parse_start :
      (v : json.Value) (i : S2Input) → IsStart json v i → parse_start json v ≡ some i
  unfolding parse_start
  IsStart-parse_start v i (a_read e) = rw (e, parse_start) refl
  IsStart-parse_start v i (a_check e) = rw (e, parse_start) refl
  IsStart-parse_start v i (an_append {inner = inner} {a = a} n e h) =
      rw (n, e, parse_start) (IsAppend-parse_append json inner a h)

  finish_of-IsWord : (s : String) (o : S2Output) → finish_of json s ≡ some o → IsWord s o
  finish_of-IsWord s o h = elim (if_case (str_eq s "AppendDefiniteFailure") _ _ o h) [
    | inl (y, k) ↦ at y k definite
    | inr (n, h1) ↦ elim (if_case (str_eq s "AppendIndefiniteFailure") _ _ o h1) [
      | inl (y, k) ↦ at y k indefinite
      | inr (n, h2) ↦ elim (if_case (str_eq s "ReadFailure") _ _ o h2) [
        | inl (y, k) ↦ at y k read_word
        | inr (n, h3) ↦ elim (if_case (str_eq s "CheckTailFailure") _ _ o h3) [
          | inl (y, k) ↦ at y k check_word
          | inr (n, h4) ↦ absurd (not_none h4)
        ]
      ]
    ]
  ]
    where
      at :
          {t : String} {p : S2Output}
          → str_eq s t ≡ true
          → Path (Option S2Output) (some p) (some o)
          → IsWord t p
          → IsWord s o
      at {t} {p} y k w =
          subst (IsWord s) (some_inj k) (subst (λ x. IsWord x p) (sym (same_text y)) w)

  IsWord-finish_of : (s : String) (o : S2Output) → IsWord s o → finish_of json s ≡ some o
  IsWord-finish_of s o definite = refl
  IsWord-finish_of s o indefinite = refl
  IsWord-finish_of s o read_word = refl
  IsWord-finish_of s o check_word = refl

  number-HasLow :
      (v : json.Value) (name : String) (n : ℕ)
      → number json v name ≡ some n
      → HasLow json v name (as_u32 n)
  number-HasLow v name n e = record { whole = n; holds = e; low = as_u32-IsLow n }

  parse_success-IsFinish :
      (v : json.Value) (o : S2Output)
      → json.as_str v ≡ none
      → parse_success json v ≡ some o
      → IsFinish json v o
  unfolding parse_success
  parse_success-IsFinish v o n h = elim (option_case (json.get v "AppendSuccess") _ _ o h) [
    | inl (inner, e, g) ↦
        let (tail, t, g') = bind_some (number json inner "tail") _ o g in
        subst (IsFinish json v) (some_inj g') (appended n e (number-HasLow inner "tail" tail t))
    | inr (n1, h1) ↦ elim (option_case (json.get v "ReadSuccess") _ _ o h1) [
      | inl (inner, e, g) ↦
          let (tail, t, g') = bind_some (number json inner "tail") _ o g in
          let (x, t', g2) = bind_some (number json inner "xxh3") _ o g' in
          subst (IsFinish json v) (some_inj g2)
            (was_read n n1 e (number-HasLow inner "tail" tail t) t')
      | inr (n2, h2) ↦ elim (option_case (json.get v "CheckTailSuccess") _ _ o h2) [
        | inl (inner, e, g) ↦
            let (tail, t, g') = bind_some (number json inner "tail") _ o g in
            subst (IsFinish json v) (some_inj g')
              (was_checked n n1 n2 e (number-HasLow inner "tail" tail t))
        | inr (n3, h3) ↦ absurd (not_none h3)
      ]
    ]
  ]

  parse_finish-IsFinish :
      (v : json.Value) (o : S2Output) → parse_finish json v ≡ some o → IsFinish json v o
  unfolding parse_finish
  parse_finish-IsFinish v o h = elim (option_case (json.as_str v) _ _ o h) [
    | inl (s, e, g) ↦ a_word e (finish_of-IsWord s o g)
    | inr (n, g) ↦ parse_success-IsFinish v o n g
  ]

  IsFinish-parse_finish :
      (v : json.Value) (o : S2Output) → IsFinish json v o → parse_finish json v ≡ some o
  unfolding parse_finish parse_success
  IsFinish-parse_finish v o (a_word {s = s} e w) = rw (e, parse_finish) (IsWord-finish_of s o w)
  IsFinish-parse_finish v o (appended {tail = tail} n e h) =
      let same = IsLow-as_u32 h.whole tail h.low in
      rw (n, e, h.holds, same, parse_finish, parse_success) refl
  IsFinish-parse_finish v o (was_read {tail = tail} n n1 e h x) =
      let same = IsLow-as_u32 h.whole tail h.low in
      rw (n, n1, e, h.holds, x, same, parse_finish, parse_success) refl
  IsFinish-parse_finish v o (was_checked {tail = tail} n n1 n2 e h) =
      let same = IsLow-as_u32 h.whole tail h.low in
      rw (n, n1, n2, e, h.holds, same, parse_finish, parse_success) refl

  parse_record-IsRecord :
      (line : String) (ev : Event S2Input S2Output)
      → parse_record json line ≡ some ev
      → IsRecord json line ev
  unfolding parse_record parse_event
  parse_record-IsRecord line ev h =
      let (rec, e, g) = bind_some (json.from_str line) _ ev h in
      let (client, e1, g1) = bind_some (number json rec "client_id") _ ev g in
      let (op, e2, g2) = bind_some (number json rec "op_id") _ ev g1 in
      let happening = json.index rec "event" in
      elim (option_case (json.get happening "Start") _ _ ev g2) [
        | inl (w, e3, g3) ↦
            let (i, e4, g4) = bind_some (parse_start json w) _ ev g3 in
            subst (IsRecord json line) (some_inj g4) (record {
              value = rec;
              parses = e;
              client = e1;
              op = e2;
              happens = started e3 (parse_start-IsStart w i e4);
            })
        | inr (n, g3) ↦ elim (option_case (json.get happening "Finish") _ _ ev g3) [
          | inl (w, e3, g4) ↦
              let (o, e4, g5) = bind_some (parse_finish json w) _ ev g4 in
              subst (IsRecord json line) (some_inj g5) (record {
                value = rec;
                parses = e;
                client = e1;
                op = e2;
                happens = finished n e3 (parse_finish-IsFinish w o e4);
              })
          | inr (m, g4) ↦ absurd (not_none g4)
        ]
      ]

  IsHappening-parse_event :
      (client op : ℕ) (v : json.Value) (ev : Event S2Input S2Output)
      → client ≡ ev.client_id
      → op ≡ ev.id
      → IsHappening json v ev
      → parse_event json client op v ≡ some ev
  unfolding parse_event
  IsHappening-parse_event client op v ev c d (started {w = w} {i = i} e h) =
      rw (e, IsStart-parse_start w i h, c, d, parse_event) refl
  IsHappening-parse_event client op v ev c d (finished {w = w} {o = o} n e h) =
      rw (n, e, IsFinish-parse_finish w o h, c, d, parse_event) refl

  IsRecord-parse_record :
      (line : String) (ev : Event S2Input S2Output)
      → IsRecord json line ev
      → parse_record json line ≡ some ev
  unfolding parse_record
  IsRecord-parse_record line ev h =
      rw (h.parses, h.client, h.op)
        (IsHappening-parse_event ev.client_id ev.id (json.index h.value "event") ev refl refl
          h.happens)

  parse_lines-IsRecording :
      (ls : List String) (events : List (Event S2Input S2Output))
      → parse_lines json ls ≡ some events
      → IsRecording json ls events
  unfolding parse_lines
  parse_lines-IsRecording [] events h = subst (IsRecording json []) (some_inj h) no_lines
  parse_lines-IsRecording (l ∷ ls) events h =
      elim (if_case (is_empty (trim_end (trim_start l))) _ _ events h) [
        | inl (y, g) ↦ blank y (parse_lines-IsRecording ls events g)
        | inr (n, g) ↦
            let (first, e, g') =
              bind_some (parse_record json (trim_end (trim_start l))) _ events g in
            let (rest, e2, g2) = bind_some (parse_lines json ls) _ events g' in
            subst (IsRecording json (l ∷ ls)) (some_inj g2) (
              recorded n (parse_record-IsRecord (trim_end (trim_start l)) first e)
                (parse_lines-IsRecording ls rest e2))
      ]

  IsRecording-parse_lines :
      (ls : List String) (events : List (Event S2Input S2Output))
      → IsRecording json ls events
      → parse_lines json ls ≡ some events
  unfolding parse_lines
  IsRecording-parse_lines ls events no_lines = refl
  IsRecording-parse_lines ls events (blank {ls = rest} y h) =
      rw y (IsRecording-parse_lines rest events h)
  IsRecording-parse_lines ls events (recorded {l = l} {ls = rest} {ev = ev} {events = evs} n r h) =
      rw
        (
          n,
          IsRecord-parse_record (trim_end (trim_start l)) ev r,
          IsRecording-parse_lines rest evs h,
        )
        refl

  -- The parser gives events if and only if the lines of the text record just these.
  pub parse_s2_jsonl-IsRecording :
      (input : String) (events : List (Event S2Input S2Output))
      → (parse_s2_jsonl json input ≡ some events) ↔ IsRecording json (lines input) events
  unfolding parse_s2_jsonl
  parse_s2_jsonl-IsRecording input events =
      (parse_lines-IsRecording (lines input) events, IsRecording-parse_lines (lines input) events)
