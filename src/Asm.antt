-- ===== src/Asm.antt =====
-- crates/tamal-asm: from the lines of an assembly source to instructions.
pub mod Diagnostics
pub mod Outcome
pub mod Scanner
pub mod Lexer
pub mod Parser
pub mod Parse
pub mod Symbol
pub mod Encoder
pub mod Passes
pub mod Assemble
pub mod Source
