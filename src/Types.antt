-- ===== src/Types.antt =====
-- src/types.rs: histories and verdicts. Identifiers and times are u64 values.
use porcupine_rust.Base.{ℕ, Option, List, []}

pub data CheckResult : Type 0 where
  ok illegal unknown : CheckResult

pub record Operation (I O : Type 0) : Type 0 where
  pub client_id : ℕ
  pub input : I
  pub call : ℕ
  pub output : O
  pub return_time : ℕ

pub data EventKind : Type 0 where
  call return : EventKind

pub record Event (I O : Type 0) : Type 0 where
  pub client_id : ℕ
  pub kind : EventKind
  pub input : Option I
  pub output : Option O
  pub id : ℕ

-- Not yet filled by the checker: for each partition, orders of indices.
pub record LinearizationInfo : Type 0 where
  pub partitions : List (List (List ℕ))

-- The derived `Default`.
abbrev pub default_info : LinearizationInfo
default_info = record { partitions = [] }
