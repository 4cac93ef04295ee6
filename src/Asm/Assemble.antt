-- ===== src/Asm/Assemble.antt =====
-- `assemble` of crates/tamal-asm/src/lib.rs, from the parsed lines on.
pub mod Words
pub mod Labels
pub mod Load
pub mod Valid
use Prim.Native.String.{String}
use text.Mathlib.Text.{◌==◌ as str_eq}
use tamal.Base.{
  ℕ, zero, suc, ◌+◌, u16, List, [], ◌∷◌, ◌++◌, length, map, Bool, true, false, ◌||◌, not, ltb,
  if◌then◌else◌, Result, ok, err,
}
use tamal.Abi.Isa.Instr.{Instr}
use tamal.Asm.Diagnostics.{
  Span, Diagnostic, error, with_help, globl_operands, unsupported_directive, unknown_directive,
  directives_help, program_length,
}
use tamal.Asm.Parser.{OperandKind, ident, num, Operand, label, directive, instr, Line}
use tamal.Asm.Symbol.{SymbolTable}
use tamal.Asm.Encoder.Li.{instr_word_count}
use tamal.Asm.Encoder.Line.{encode_line}
use tamal.Asm.Passes.{collect_equs, assign_addresses}

pub record Program : Type 0 where
  pub instrs : List Instr
  pub spans : List Span

abbrev pub max_words : ℕ
max_words = 1024

abbrev pub is_ident : List Operand → Bool
is_ident (a ∷ []) = elim a.kind [ ident _ ↦ true | num _ ↦ false ]
is_ident _ = false

unfoldable pub validate_directive : String → List Operand → Span → List Diagnostic → List Diagnostic
validate_directive name args span diags =
    if str_eq name "equ"
    then diags
    else if str_eq name "text"
    then diags
    else if str_eq name "globl"
    then (if is_ident args then diags else diags ++ error span globl_operands ∷ [])
    else if str_eq name "macro"
        || str_eq name "data"
        || str_eq name "word"
        || str_eq name "align"
        || str_eq name "option"
    then diags ++ with_help (error span (unsupported_directive name)) directives_help ∷ []
    else diags ++ error span (unknown_directive name) ∷ []

-- The state of the loop of `assemble`: the instructions and their spans, the address, the diagnostics.
pub record Pass : Type 0 where
  pub instrs : List Instr
  pub spans : List Span
  pub addr : ℕ
  pub diags : List Diagnostic

-- The arms of the match on `encode_line`; an instruction that failed advances the address by `count`.
unfoldable pub encoded : Pass → Span → ℕ → Result (List Instr) Diagnostic → Pass
encoded s span count (ok seq) = record {
  instrs = s.instrs ++ seq;
  spans = s.spans ++ map (λ _. span) seq;
  addr = u16 (s.addr + u16 (length seq));
  diags = s.diags;
}
encoded s span count (err d) = record {
  instrs = s.instrs;
  spans = s.spans;
  addr = u16 (s.addr + count);
  diags = s.diags ++ d ∷ [];
}

unfoldable pub pass_step : SymbolTable → Line → Pass → Pass
pass_step syms line s = elim line.kind [
  | label _ ↦ s
  | directive name args ↦ record {
    instrs = s.instrs;
    spans = s.spans;
    addr = s.addr;
    diags = validate_directive name args line.span s.diags;
  }
  | instr mnemonic operands ↦
      encoded s line.span (instr_word_count mnemonic operands syms)
        (encode_line mnemonic operands line.span s.addr syms)
]

unfoldable pub pass_loop : SymbolTable → List Line → Pass → Pass
pass_loop syms [] s = s
pass_loop syms (line ∷ lines) s = pass_loop syms lines (pass_step syms line s)

-- `lines.last()`, or the span `0..0`.
abbrev pub last_span : List Line → Span
last_span [] = record { start = 0; end = 0 }
last_span (line ∷ []) = line.span
last_span (line ∷ next ∷ lines) = last_span (next ∷ lines)

unfoldable pub finish : Pass → List Diagnostic → Result Program (List Diagnostic)
finish s [] = ok (record { instrs = s.instrs; spans = s.spans })
finish s (d ∷ diags) = err (d ∷ diags)

unfoldable pub assemble_lines : List Line → Result Program (List Diagnostic)
assemble_lines lines =
    let (equs, d_equ) = collect_equs lines in
    let (syms, d_addr, total) = assign_addresses lines equs in
    let start : Pass = record { instrs = []; spans = []; addr = 0; diags = d_equ ++ d_addr } in
    let s = pass_loop syms lines start in
    finish s (
      if ltb max_words total
      then s.diags ++ error (last_span lines) (program_length total) ∷ []
      else s.diags)
