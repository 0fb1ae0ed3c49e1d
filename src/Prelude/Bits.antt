-- ===== src/Prelude/Bits.antt =====
-- The binary digits of a native number, and the C bit operators seen through them.
mod Step
mod Masks
pub use Masks.*
