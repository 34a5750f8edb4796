-- ===== src/Bits.antt =====
-- Laws of the bit operations on words of every width.
mod Step
mod Xor
mod Fields
mod Linear
pub use Step.{bit_and_step, bit_or_step, bit_xor_step}
pub use Xor.*
pub use Fields.*
pub use Linear.*
