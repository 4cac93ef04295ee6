-- ===== src/Asm/Parse.antt =====
-- parse of crates/tamal-asm/src/parser.rs. An index goes with the list of the tokens that are left from it
-- on; where the source indexes past the end, and panics, there is no answer.
pub mod Grammar
pub mod Parsed
use Prim.Native.String.{String}
use tamal.Base.{ℕ, zero, suc, Bool, true, false, if◌then◌else◌, List, [], ◌∷◌, length}
use tamal.Asm.Diagnostics.{
  Span, Diagnostic, error, expected_line, expected_operand, trailing_comma, expected_comma,
}
use tamal.Asm.Outcome.{Outcome, done, failed, exhausted, ◌>>=◌}
use tamal.Asm.Scanner.{Token}
use tamal.Asm.Lexer.{TokKind}
use tamal.Asm.Parser.{OperandKind, Operand, LineKind, Line}

unfoldable pub ends_line : TokKind → Bool
ends_line TokKind.newline = true
ends_line TokKind.eof = true
ends_line _ = false

unfoldable pub parse_operand : TokKind → Span → Outcome Operand
parse_operand (TokKind.ident s) span = done (record { kind = OperandKind.ident s; span = span })
parse_operand (TokKind.num n) span = done (record { kind = OperandKind.num n; span = span })
parse_operand _ span = failed (error span expected_operand)

-- The operands, what is left after them, and the end of the last one.
abbrev pub Operands : Type 0
Operands = List Operand × List (Token TokKind) × ℕ

-- After a comma, where `more` are the operands from the next token on.
unfoldable pub after_comma : Operand → List (Token TokKind) → Outcome Operands → Outcome Operands
after_comma op [] more = exhausted
after_comma op (tok ∷ rest) more =
    if ends_line tok.kind
    then failed (error tok.span trailing_comma)
    else do (ops, left, end) ← more; done (op ∷ ops, left, end)

-- After an operand, at a token of this kind.
unfoldable pub after_operand :
    TokKind → Token TokKind → Operand → List (Token TokKind) → Outcome Operands → Outcome Operands
after_operand TokKind.comma next op rest more = after_comma op rest more
after_operand TokKind.newline next op rest more = done (op ∷ [], next ∷ rest, op.span.end)
after_operand TokKind.eof next op rest more = done (op ∷ [], next ∷ rest, op.span.end)
after_operand _ next op rest more = failed (error next.span expected_comma)

-- The loop of `parse_operands`.
unfoldable pub operands_from : List (Token TokKind) → Outcome Operands
operands_from [] = exhausted
operands_from (tok ∷ []) = do op ← parse_operand tok.kind tok.span; exhausted
operands_from (tok ∷ next ∷ rest) =
    let more = operands_from rest in
    do op ← parse_operand tok.kind tok.span; after_operand next.kind next op rest more

-- The operands from these tokens on, after a token that ends at `end`.
unfoldable pub parse_operands : List (Token TokKind) → ℕ → Outcome Operands
parse_operands [] end = exhausted
parse_operands (tok ∷ rest) end =
    if ends_line tok.kind then done ([], tok ∷ rest, end) else operands_from (tok ∷ rest)

-- A line with operands, and the lines after it.
unfoldable pub operand_line :
    (List Operand → LineKind)
    → Token TokKind
    → List (Token TokKind)
    → (List (Token TokKind) → Outcome (List Line))
    → Outcome (List Line)
operand_line kind tok rest lines_from = do
  (ops, left, end) ← parse_operands rest tok.span.end
  lines ← lines_from left
  done (record { kind = kind ops; span = record { start = tok.span.start; end = end } } ∷ lines)

-- A label, from its name and the colon after it, and the lines after it.
unfoldable pub label_line :
    Token TokKind
    → Token TokKind
    → LineKind
    → List (Token TokKind)
    → (List (Token TokKind) → Outcome (List Line))
    → Outcome (List Line)
label_line tok next kind rest lines_from = do
  lines ← lines_from rest
  done (
      record { kind = kind; span = record { start = tok.span.start; end = next.span.end } } ∷ lines)

-- A name at the start of a line, before a token of this kind.
unfoldable pub name_line :
    TokKind
    → String
    → Token TokKind
    → Token TokKind
    → List (Token TokKind)
    → (List (Token TokKind) → Outcome (List Line))
    → Outcome (List Line)
name_line TokKind.colon name tok next rest lines_from =
    label_line tok next (LineKind.label name) rest lines_from
name_line _ name tok next rest lines_from =
    operand_line (LineKind.instr name) tok (next ∷ rest) lines_from

-- A token of this kind at the start of a line, where `lines_from` parses the lines after it.
unfoldable pub parse_line :
    TokKind
    → Token TokKind
    → List (Token TokKind)
    → (List (Token TokKind) → Outcome (List Line))
    → Outcome (List Line)
parse_line TokKind.eof tok rest lines_from = done []
parse_line TokKind.newline tok rest lines_from = lines_from rest
parse_line (TokKind.ident name) tok [] lines_from =
    operand_line (LineKind.instr name) tok [] lines_from
parse_line (TokKind.ident name) tok (next ∷ rest) lines_from =
    name_line next.kind name tok next rest lines_from
parse_line (TokKind.directive name) tok rest lines_from =
    operand_line (LineKind.directive name) tok rest lines_from
parse_line _ tok rest lines_from = failed (error tok.span expected_line)

unfoldable pub parse_loop : ℕ → List (Token TokKind) → Outcome (List Line)
parse_loop fuel [] = done []
parse_loop zero (tok ∷ rest) = exhausted
parse_loop (suc fuel) (tok ∷ rest) = parse_line tok.kind tok rest (parse_loop fuel)

-- Each round takes a token at least, so as many rounds as tokens are enough.
unfoldable pub parse : List (Token TokKind) → Outcome (List Line)
parse tokens = parse_loop (length tokens) tokens
