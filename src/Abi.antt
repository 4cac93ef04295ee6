-- ===== src/Abi.antt =====
-- crates/tamal-abi: what the host tools and the rig agree on.
pub mod Isa
pub mod Crc8
pub mod Cobs
pub mod Wire
pub mod Trace
pub mod Config
