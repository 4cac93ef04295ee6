-- ===== src/Asm/Encoder.antt =====
-- crates/tamal-asm/src/encoder.rs: instruction lines to instructions.
pub mod Resolve
pub mod Li
pub mod Args
pub mod SetConfig
pub mod Forms
pub mod Line
pub mod Branch
pub mod Ranges
pub mod Fields
