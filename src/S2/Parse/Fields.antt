-- ===== src/S2/Parse/Fields.antt =====
-- The fields of a JSON value, as the parser of examples/s2_checker.rs reads them.
use Prim.Native.String.{String}
use porcupine_rust.Base.{
  ℕ, ◌/◌, ◌^◌, ◌≡◌, refl, sym, ap, arith, Bool, true, false, Option, none, some, ◌⊎◌, inl, inr,
  Option-cases, if◌then◌else◌,
}
use porcupine_rust.Base.Do.{bind_some, some_inj}
use porcupine_rust.S2.{Append, S2Input, append}
use porcupine_rust.S2.Parse.{Json, as_u32, text_field, seq_num_field, number, parse_append}
use porcupine_rust.S2.Parse.Format.{
  IsLow, MayText, text, no_text, missing_text, MayLow, low, no_number, missing_number, IsAppend,
}

pub if_case :
    {A : Type 0} (b : Bool) (x y : Option A) (a : A)
    → (if b then x else y) ≡ some a
    → ((b ≡ true) × (x ≡ some a)) ⊎ ((b ≡ false) × (y ≡ some a))
if_case true x y a h = inl (refl, h)
if_case false x y a h = inr (refl, h)

pub option_case :
    {A B : Type 0} (o : Option A) (f : A → Option B) (d : Option B) (b : B)
    → elim o [ some a ↦ f a | none ↦ d ] ≡ some b
    → ((a : A) × (o ≡ some a) × (f a ≡ some b)) ⊎ ((o ≡ none) × (d ≡ some b))
option_case none f d b h = inr (refl, h)
option_case (some a) f d b h = inl (a, refl, h)

pub as_u32-IsLow : (n : ℕ) → IsLow n (as_u32 n)
as_u32-IsLow n = record { high = n / 2 ^ 32; parts = omega arith; fits = omega arith }

pub IsLow-as_u32 : (n m : ℕ) → IsLow n m → as_u32 n ≡ m
IsLow-as_u32 n m h = omega (arith, h.parts, h.fits)

module _ (json : Json) where
  text_field-MayText :
      (v : json.Value) (name : String) → MayText json v name (text_field json v name)
  text_field-MayText v name = elim (Option-cases (json.get v name)) [
    | inl n ↦ rw n (missing_text n)
    | inr (w, e) ↦ elim (Option-cases (json.as_str w)) [
      | inl n ↦ rw (e, n) (no_text e n)
      | inr (s, f) ↦ rw (e, f) (text s e f)
    ]
  ]

  MayText-text_field :
      (v : json.Value) (name : String) (o : Option String)
      → MayText json v name o
      → text_field json v name ≡ o
  MayText-text_field v name o (text s e f) = rw (e, f) refl
  MayText-text_field v name o (no_text e f) = rw (e, f) refl
  MayText-text_field v name o (missing_text e) = rw e refl

  seq_num_field-MayLow :
      (v : json.Value) (name : String) → MayLow json v name (seq_num_field json v name)
  seq_num_field-MayLow v name = elim (Option-cases (json.get v name)) [
    | inl n ↦ rw n (missing_number n)
    | inr (w, e) ↦ elim (Option-cases (json.as_u64 w)) [
      | inl n ↦ rw (e, n) (no_number e n)
      | inr (k, f) ↦ rw (e, f) (low k e f (as_u32-IsLow k))
    ]
  ]

  MayLow-seq_num_field :
      (v : json.Value) (name : String) (o : Option ℕ)
      → MayLow json v name o
      → seq_num_field json v name ≡ o
  MayLow-seq_num_field v name o (low n {m} e f h) = rw (e, f) (ap some (IsLow-as_u32 n m h))
  MayLow-seq_num_field v name o (no_number e f) = rw (e, f) refl
  MayLow-seq_num_field v name o (missing_number e) = rw e refl

  pub parse_append-IsAppend :
      (v : json.Value) (i : S2Input)
      → parse_append json v ≡ some i
      → (a : Append) × (i ≡ append a) × IsAppend json v a
  unfolding parse_append
  parse_append-IsAppend v i h =
      let (n, e, g) = bind_some (number json v "num_records") _ i h in
      let (x, e', g') = bind_some (number json v "last_record_xxh3") _ i g in
      (
        _,
        sym (some_inj g'),
        record {
          records = record { whole = n; holds = e; low = as_u32-IsLow n };
          hashed = e';
          sets = text_field-MayText v "set_fencing_token";
          asks = text_field-MayText v "fencing_token";
          seq = seq_num_field-MayLow v "match_seq_num";
        },
      )

  pub IsAppend-parse_append :
      (v : json.Value) (a : Append) → IsAppend json v a → parse_append json v ≡ some (append a)
  unfolding parse_append
  IsAppend-parse_append v a h =
      let records = IsLow-as_u32 h.records.whole a.num_records h.records.low in
      let sets = MayText-text_field v "set_fencing_token" a.set_fencing_token h.sets in
      let asks = MayText-text_field v "fencing_token" a.fencing_token h.asks in
      let seq = MayLow-seq_num_field v "match_seq_num" a.match_seq_num h.seq in
      rw (h.records.holds, h.hashed, records, sets, asks, seq) refl
