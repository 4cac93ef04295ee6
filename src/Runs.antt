-- ===== src/Runs.antt =====
-- The theorems at concrete inputs, and tests of the definitions.
mod Isa
mod Framing
mod Drain
mod Session
mod Assembly
mod Language
mod Compiled
mod Allocation
mod Lexers
