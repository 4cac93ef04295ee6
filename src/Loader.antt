-- ===== src/Loader.antt =====
-- crates/tamal-loader: programs checked, shipped to the rig, and their drained traces read back.
pub mod Error
pub mod Program
pub mod Transport
pub mod Device
