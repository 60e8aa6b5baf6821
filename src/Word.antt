-- ===== src/Word.antt =====
-- Machine words of any width, as the kernel's bitmaps use them: `1 << k`, `|`, `&`, `^` and `~` on
-- native numbers, and the digits that they act on.
mod Step
pub mod Laws
pub mod First
pub mod Array
pub use Step.{bit, bit_le, bit_or-bit, bit_and-bit, bit_xor-bit}
