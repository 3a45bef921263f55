-- ===== src/Entry.antt =====
-- The entries of src/checker.rs: a call and a return for each operation.
pub mod Paired
use porcupine_rust.Base.{ℕ, Bool, true, false}

pub data EntryValue (I O : Type 0) : Type 0 where
  call : I → EntryValue I O
  return : O → EntryValue I O

pub record Entry (I O : Type 0) : Type 0 where
  pub id : ℕ
  pub time : ℕ
  pub value : EntryValue I O

module _ {I O : Type 0} where
  abbrev pub is_call : EntryValue I O → Bool
  is_call (call i) = true
  is_call (return o) = false

  abbrev pub is_return : EntryValue I O → Bool
  is_return (call i) = false
  is_return (return o) = true
