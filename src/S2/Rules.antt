-- ===== src/S2/Rules.antt =====
-- The steps of an S2 stream, as rules that do not use the code.
use Prim.Native.String.{String}
use porcupine_rust.Base.{
  ℕ, ◌+◌, ◌*◌, ◌/◌, ◌%◌, ◌^◌, ◌<◌, ◌≡◌, refl, sym, ◌∙◌, subst, arith, Option, none, some, ◌⊎◌, ◌↔◌,
}
use porcupine_rust.Base.Do.{not_none}
use porcupine_rust.S2.{
  S2StreamState, Append, S2Input, append, read, check_tail, S2Output, append_success,
  append_definite_failure, append_indefinite_failure, read_success, read_failure,
  check_tail_success, check_tail_failure, or_else, optimistic,
}
use porcupine_rust.S2.Guards.{TokenHolds, SeqHolds}

-- The stream's token after an append: the one that it sets, if it sets one.
pub data TokenAfter (sets before after : Option String) : Type 0 where
  replaced :
      (token : String) → sets ≡ some token → after ≡ some token → TokenAfter sets before after
  kept : sets ≡ none → after ≡ before → TokenAfter sets before after

-- How an append that took effect changes the stream: the tail grows by the number of the records,
-- wrapped to 32 bits, and the hash is that of the records.
pub record Appends (s : S2StreamState) (a : Append) (t : S2StreamState) : Type 0 where
  pub wraps : ℕ
  pub grown : s.tail + a.num_records ≡ wraps * 2 ^ 32 + t.tail
  pub fits : t.tail < 2 ^ 32
  pub hashed : t.xxh3 ≡ a.xxh3
  pub token : TokenAfter a.set_fencing_token s.fencing_token t.fencing_token

-- The steps of the section on S2 in docs/all_tests.md. A guard holds where nothing is asked for, or
-- where the stream has just that.
pub data S2Step (s : S2StreamState) : S2Input → S2Output → S2StreamState → Type 0 where
  appended :
      {a : Append} {tail : ℕ} {t : S2StreamState}
      → TokenHolds a.fencing_token s.fencing_token
      → SeqHolds a.match_seq_num s.tail
      → Appends s a t
      → tail ≡ t.tail
      → S2Step s (append a) (append_success tail) t
  rejected : {a : Append} → S2Step s (append a) append_definite_failure s
  lost : {a : Append} → S2Step s (append a) append_indefinite_failure s
  durable :
      {a : Append} {t : S2StreamState}
      → TokenHolds a.fencing_token s.fencing_token
      → SeqHolds a.match_seq_num s.tail
      → Appends s a t
      → S2Step s (append a) append_indefinite_failure t
  reads : {tail xxh3 : ℕ} → s.tail ≡ tail → s.xxh3 ≡ xxh3 → S2Step s read (read_success tail xxh3) s
  read_fails : S2Step s read read_failure s
  checks : {tail : ℕ} → s.tail ≡ tail → S2Step s check_tail (check_tail_success tail) s
  check_fails : S2Step s check_tail check_tail_failure s

-- The one step that the code takes beyond these: an append that asks for a token, on a stream that has
-- none, fails indefinitely and takes effect.
pub data TokenlessStep (s : S2StreamState) : S2Input → S2Output → S2StreamState → Type 0 where
  tokenless :
      {a : Append} {t : S2StreamState} (token : String)
      → a.fencing_token ≡ some token
      → s.fencing_token ≡ none
      → SeqHolds a.match_seq_num s.tail
      → Appends s a t
      → TokenlessStep s (append a) append_indefinite_failure t

abbrev pub Steps : S2StreamState → S2Input → S2Output → S2StreamState → Type 0
Steps s i o t = S2Step s i o t ⊎ TokenlessStep s i o t

or_else_iff :
    (sets before after : Option String)
    → TokenAfter sets before after ↔ (after ≡ or_else sets before)
or_else_iff none before after =
    (λ h. elim h [ replaced x e f ↦ absurd (not_none e) | kept e f ↦ f ], λ h. kept refl h)
or_else_iff (some x) before after = (
  λ h. elim h [ replaced y e f ↦ f ∙ sym e | kept e f ↦ absurd (not_none (sym e)) ],
  λ h. replaced x refl h,
)

pub Appends-iff :
    (s : S2StreamState) (a : Append) (t : S2StreamState) → Appends s a t ↔ (t ≡ optimistic s a)
Appends-iff s a t = (
  λ h.
      let tail : t.tail ≡ (s.tail + a.num_records) % 2 ^ 32 = omega (arith, h.grown, h.fits) in
      let hash : t.xxh3 ≡ a.xxh3 = h.hashed in
      let token = (or_else_iff a.set_fencing_token s.fencing_token t.fencing_token).0 h.token in
      cc (tail, hash, token),
  λ e. subst (Appends s a) (sym e) (record {
    wraps = (s.tail + a.num_records) / 2 ^ 32;
    grown = omega arith;
    fits = omega arith;
    hashed = refl;
    token =
        (or_else_iff a.set_fencing_token s.fencing_token
            (or_else a.set_fencing_token s.fencing_token)).1
          refl;
  }),
)
