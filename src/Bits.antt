-- ===== src/Bits.antt =====
-- Laws of `^`, `|` and `&` at every width, from an equation for the lowest digit.
pub mod Digits
pub mod Xor
pub mod Shift
pub mod Fields
