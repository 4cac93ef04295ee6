-- ===== src/Abi/Isa.antt =====
-- crates/tamal-abi/src/isa.rs: the 32-bit instruction words.
pub mod Operand
pub mod Fields
pub mod Instr
pub mod Encode
pub mod Decode
pub mod Layout
pub mod Packing
pub mod RoundTrip
pub mod Canonical
pub mod Words
