-- ===== src/Base/Bits.antt =====
-- `&`, `|` and `^` of machine words at variables.
mod Step
pub mod Digit
mod Mask
pub use Digit.*
mod Fields
pub use Mask.*
pub use Fields.*
