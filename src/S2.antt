-- ===== src/S2.antt =====
-- The model of an S2 stream in examples/s2_checker.rs.
pub mod Guards
pub mod Rules
pub mod Steps
pub mod Parse
pub mod Verdict
pub mod Main
use Prim.Native.String.{String}
use text.Mathlib.Text.{◌==◌ as str_eq}
use porcupine_rust.Base.{
  ℕ, ◌+◌, ◌%◌, ◌^◌, Bool, true, false, not, ◌&&◌, Option, none, some, List, [], ◌∷◌, ◌==◌,
  if◌then◌else◌,
}
use porcupine_rust.Model.PowerSet.{NondeterministicModel}

-- `tail` is a u32 and `xxh3` a u64.
pub record S2StreamState : Type 0 where
  pub tail : ℕ
  pub xxh3 : ℕ
  pub fencing_token : Option String

pub record Append : Type 0 where
  pub num_records : ℕ
  pub xxh3 : ℕ
  pub set_fencing_token : Option String
  pub fencing_token : Option String
  pub match_seq_num : Option ℕ

pub data S2Input : Type 0 where
  append : Append → S2Input
  read check_tail : S2Input

pub data S2Output : Type 0 where
  append_success : (tail : ℕ) → S2Output
  append_definite_failure append_indefinite_failure : S2Output
  read_success : (tail xxh3 : ℕ) → S2Output
  read_failure : S2Output
  check_tail_success : (tail : ℕ) → S2Output
  check_tail_failure : S2Output

abbrev pub or_else {ℓ} : {A : Type ℓ} → Option A → Option A → Option A
or_else none o = o
or_else (some a) o = some a

-- The state after the append. The addition of u32 values wraps, as in a build without overflow
-- checks; with them it panics where it overflows.
abbrev pub optimistic : S2StreamState → Append → S2StreamState
optimistic state a = record {
  tail = (state.tail + a.num_records) % 2 ^ 32;
  xxh3 = a.xxh3;
  fencing_token = or_else a.set_fencing_token state.fencing_token;
}

-- After an indefinite failure: both tokens are there, and they differ.
abbrev pub tokens_differ : Option String → Option String → Bool
tokens_differ (some bt) (some ft) = not (str_eq bt ft)
tokens_differ _ _ = false

-- After a success: a token was asked for, and the stream has none or another.
abbrev pub token_missing : Option String → Option String → Bool
token_missing none token = false
token_missing (some bt) none = true
token_missing (some bt) (some ft) = not (str_eq ft bt)

abbrev pub seq_num_differs : Option ℕ → ℕ → Bool
seq_num_differs none tail = false
seq_num_differs (some msn) tail = not (msn == tail)

unfoldable pub append_step : S2StreamState → Append → S2Output → List S2StreamState
append_step state a S2Output.append_definite_failure = state ∷ []
append_step state a S2Output.append_indefinite_failure =
    if tokens_differ a.fencing_token state.fencing_token
    then state ∷ []
    else if seq_num_differs a.match_seq_num state.tail
    then state ∷ []
    else optimistic state a ∷ state ∷ []
append_step state a (S2Output.append_success tail) =
    if token_missing a.fencing_token state.fencing_token
    then []
    else if seq_num_differs a.match_seq_num state.tail
    then []
    else if not (tail == (optimistic state a).tail)
    then []
    else optimistic state a ∷ []
append_step state a _ = []

unfoldable pub s2_step : S2StreamState → S2Input → S2Output → List S2StreamState
unfolding append_step
s2_step state (S2Input.append a) output = append_step state a output
s2_step state S2Input.read (S2Output.read_success tail xxh3) =
    if not (state.xxh3 == xxh3) then [] else if state.tail == tail then state ∷ [] else []
s2_step state S2Input.read S2Output.read_failure = state ∷ []
s2_step state S2Input.read _ = []
s2_step state S2Input.check_tail (S2Output.check_tail_success tail) =
    if state.tail == tail then state ∷ [] else []
s2_step state S2Input.check_tail S2Output.check_tail_failure = state ∷ []
s2_step state S2Input.check_tail _ = []

-- The derived `PartialEq`.
abbrev pub token_eq : Option String → Option String → Bool
token_eq none none = true
token_eq (some s) (some t) = str_eq s t
token_eq _ _ = false

abbrev pub s2_state_eq : S2StreamState → S2StreamState → Bool
s2_state_eq s t = s.tail == t.tail && (s.xxh3 == t.xxh3 && token_eq s.fencing_token t.fencing_token)

abbrev pub s2_stream_model : NondeterministicModel S2StreamState S2Input S2Output
s2_stream_model = record {
  init = record { tail = 0; xxh3 = 0; fencing_token = none } ∷ [];
  step = s2_step;
  partition = λ h. none;
  partition_events = λ h. none;
  state_eq = s2_state_eq;
}
