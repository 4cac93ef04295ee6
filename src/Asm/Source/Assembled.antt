-- ===== src/Asm/Source/Assembled.antt =====
-- `assemble` of crates/tamal-asm/src/lib.rs against the grammars of its tokens and of its lines.
use tamal.Base.{ℕ, List, refl, Result}
use tamal.Asm.Diagnostics.{Diagnostic}
use tamal.Asm.Outcome.{Yields, yields, Yields-bind}
use tamal.Asm.Scanner.{Token}
use tamal.Asm.Scanner.Lexed.{Lexed, ended, skipped, lexeme}
use tamal.Asm.Lexer.{TokKind}
use tamal.Asm.Lexer.Grammar.{Blank, Lexeme}
use tamal.Asm.Lexer.Lexed.{lex-Lexed}
use tamal.Asm.Parser.{Line}
use tamal.Asm.Parse.Grammar.{HasEnd, here, there, Parsed}
use tamal.Asm.Parse.Parsed.{parse-Parsed}
use tamal.Asm.Assemble.{Program, assemble_lines}
use tamal.Asm.Source.{assemble}

Lexed-HasEnd :
    {i : ℕ} {bytes : List ℕ} {toks : List (Token TokKind)}
    → Lexed Blank Lexeme TokKind.eof i bytes toks
    → HasEnd toks
Lexed-HasEnd ended = here refl
Lexed-HasEnd (skipped text rest b l) = Lexed-HasEnd l
Lexed-HasEnd (lexeme text rest w l) = there (Lexed-HasEnd l)

-- The source is lines of tokens, and this is what the lines assemble to.
pub data Assembled (source : List ℕ) : Result Program (List Diagnostic) → Type 0 where
  assembled :
      {tokens : List (Token TokKind)} {lines : List Line}
      → Lexed Blank Lexeme TokKind.eof 0 source tokens
      → Parsed tokens lines
      → Assembled source (assemble_lines lines)

-- On every source the assembler gives an answer and indexes no token past the last one. It ends with one
-- error of the lexer or the parser, or with what the lines of the source assemble to: the source is its
-- tokens with spaces and comments between them, each token with the span that it covers and a number with
-- the value of its digits, and the tokens are the lines, with commas between the operands and each line's
-- span from its first token to its last one.
pub assemble-Assembled : (source : List ℕ) → Yields (Assembled source) (assemble source)
unfolding assemble
assemble-Assembled source = Yields-bind (lex-Lexed source) (λ tokens l.
    Yields-bind (parse-Parsed tokens (Lexed-HasEnd l)) (λ lines p. yields (assembled l p)))
