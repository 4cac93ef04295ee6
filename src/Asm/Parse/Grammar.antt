-- ===== src/Asm/Parse/Grammar.antt =====
-- A grammar of the lines that crates/tamal-asm/src/parser.rs parses.
use Prim.Native.String.{String}
use tamal.Base.{ℕ, ◌≡◌, List, [], ◌∷◌}
use tamal.Base.Int.{ℤ}
use tamal.Asm.Scanner.{Token}
use tamal.Asm.Lexer.{TokKind}
use tamal.Asm.Parser.{OperandKind, Operand, LineKind, Line}

-- Some token is the end of the source.
pub data HasEnd : List (Token TokKind) → Type 0 where
  here :
      {tok : Token TokKind} {rest : List (Token TokKind)}
      → tok.kind ≡ TokKind.eof
      → HasEnd (tok ∷ rest)
  there : {tok : Token TokKind} {rest : List (Token TokKind)} → HasEnd rest → HasEnd (tok ∷ rest)

-- The token is the operand.
pub data IsOperand (tok : Token TokKind) : Operand → Type 0 where
  of_name :
      {s : String}
      → tok.kind ≡ TokKind.ident s
      → IsOperand tok (record { kind = OperandKind.ident s; span = tok.span })
  of_number :
      {n : ℤ}
      → tok.kind ≡ TokKind.num n
      → IsOperand tok (record { kind = OperandKind.num n; span = tok.span })

-- The token is the end of its line.
pub data Ends (tok : Token TokKind) : Type 0 where
  by_newline : tok.kind ≡ TokKind.newline → Ends tok
  by_eof : tok.kind ≡ TokKind.eof → Ends tok

-- Operands with commas between them up to the end of the line; the number is the end of the last one.
pub data Listed : List (Token TokKind) → List Operand → ℕ → List (Token TokKind) → Type 0 where
  last :
      {tok next : Token TokKind} {rest : List (Token TokKind)} {op : Operand}
      → IsOperand tok op
      → Ends next
      → Listed (tok ∷ next ∷ rest) (op ∷ []) op.span.end (next ∷ rest)
  more :
      {tok next : Token TokKind} {rest left : List (Token TokKind)} {op : Operand}
      {ops : List Operand} {end : ℕ}
      → IsOperand tok op
      → next.kind ≡ TokKind.comma
      → Listed rest ops end left
      → Listed (tok ∷ next ∷ rest) (op ∷ ops) end left

-- No operands, or those of the list.
pub data Arguments (end : ℕ)
    : List (Token TokKind) → List Operand → ℕ → List (Token TokKind) → Type 0 where
  without :
      {tok : Token TokKind} {rest : List (Token TokKind)}
      → Ends tok
      → Arguments end (tok ∷ rest) [] end (tok ∷ rest)
  listed :
      {toks left : List (Token TokKind)} {ops : List Operand} {last_end : ℕ}
      → Listed toks ops last_end left
      → Arguments end toks ops last_end left

abbrev pub line_from : Token TokKind → ℕ → LineKind → Line
line_from tok end kind = record { kind = kind; span = record { start = tok.span.start; end = end } }

-- The lines of the tokens, each from its first token to the end of its last one.
pub data Parsed : List (Token TokKind) → List Line → Type 0 where
  finished :
      {tok : Token TokKind} {rest : List (Token TokKind)}
      → tok.kind ≡ TokKind.eof
      → Parsed (tok ∷ rest) []
  blank :
      {tok : Token TokKind} {rest : List (Token TokKind)} {lines : List Line}
      → tok.kind ≡ TokKind.newline
      → Parsed rest lines
      → Parsed (tok ∷ rest) lines
  label :
      {tok next : Token TokKind} {rest : List (Token TokKind)} {lines : List Line} {name : String}
      → tok.kind ≡ TokKind.ident name
      → next.kind ≡ TokKind.colon
      → Parsed rest lines
      → Parsed (tok ∷ next ∷ rest) (line_from tok next.span.end (LineKind.label name) ∷ lines)
  instruction :
      {tok : Token TokKind} {rest left : List (Token TokKind)} {lines : List Line} {name : String}
      {ops : List Operand} {end : ℕ}
      → tok.kind ≡ TokKind.ident name
      → Arguments tok.span.end rest ops end left
      → Parsed left lines
      → Parsed (tok ∷ rest) (line_from tok end (LineKind.instr name ops) ∷ lines)
  directive :
      {tok : Token TokKind} {rest left : List (Token TokKind)} {lines : List Line} {name : String}
      {ops : List Operand} {end : ℕ}
      → tok.kind ≡ TokKind.directive name
      → Arguments tok.span.end rest ops end left
      → Parsed left lines
      → Parsed (tok ∷ rest) (line_from tok end (LineKind.directive name ops) ∷ lines)
