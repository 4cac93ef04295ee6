-- ===== src/Asm/Source.antt =====
-- `assemble` of crates/tamal-asm/src/lib.rs, from the bytes of a source on.
pub mod Assembled
use tamal.Base.{ℕ, List, Result}
use tamal.Asm.Diagnostics.{Diagnostic}
use tamal.Asm.Outcome.{Outcome, done, ◌>>=◌}
use tamal.Asm.Lexer.{lex}
use tamal.Asm.Parse.{parse}
use tamal.Asm.Assemble.{Program, assemble_lines}

-- The lexer and the parser stop at their first error; after them, there may be several.
unfoldable pub assemble : List ℕ → Outcome (Result Program (List Diagnostic))
assemble source = do tokens ← lex source; lines ← parse tokens; done (assemble_lines lines)
