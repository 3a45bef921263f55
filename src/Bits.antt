-- ===== src/Bits.antt =====
-- The bit operations on `u64` words, as arithmetic: the libraries have no laws of these at variables.
mod Step
mod Halving
mod Word
mod Xor
unfoldable pub use Word.*
pub use Xor.*
