-- ===== src/Base/Bits.antt =====
-- `^`, `&` and `|` as arithmetic. The native operations mean `bitwise`, a recursion on binary
-- digits; the first lemmas drop its fuel and give one equation for the lowest digit.
mod Step
mod Xor
pub mod Masks
pub use Step.{bit_xor_step, bit_and_step, bit_or_step}
pub use Xor.*
