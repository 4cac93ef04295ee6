-- ===== src/Lang.antt =====
-- crates/tamal-lang/src: the compiler from .tam sources to tamal assembly.
pub mod RegAlloc
pub mod Lexer
pub mod Ast
pub mod Consteval
pub mod Emit
pub mod Driver
