-- ===== src/Asm/Passes.antt =====
-- The passes over the lines that fill the symbol table: crates/tamal-asm/src/symbol.rs.
pub mod Equs
pub mod Labels
use Prim.Native.String.{String}
use text.Mathlib.Text.{◌==◌ as str_eq}
use tamal.Base.{ℕ, ◌+◌, u16, List, [], ◌∷◌, ◌++◌, not, if◌then◌else◌, Result, ok, err}
use tamal.Base.Int.{ℤ}
use tamal.Asm.Diagnostics.{
  Span, Diagnostic, error, with_label, equ_operands, equ_name, duplicate_symbol, first_defined_here,
}
use tamal.Asm.Parser.{ident, num, Operand, label, directive, instr, Line}
use tamal.Asm.Symbol
use tamal.Asm.Symbol.{Sym, equ, SymbolTable, insert}
use tamal.Asm.Encoder.Resolve.{resolve_imm}
use tamal.Asm.Encoder.Li.{instr_word_count}

-- The table and the diagnostics after an `insert` at `span`.
unfoldable pub inserted :
    SymbolTable
    → String
    → Span
    → Result SymbolTable Span
    → List Diagnostic
    → SymbolTable × List Diagnostic
inserted syms name span (ok syms') diags = (syms', diags)
inserted syms name span (err prev) diags =
    (syms, diags ++ with_label (error span (duplicate_symbol name)) prev first_defined_here ∷ [])

unfoldable pub define_equ :
    SymbolTable
    → String
    → Span
    → Result ℤ Diagnostic
    → List Diagnostic
    → SymbolTable × List Diagnostic
define_equ syms name span (ok v) diags =
    inserted syms name span (insert syms name (equ v) span) diags
define_equ syms name span (err d) diags = (syms, diags ++ d ∷ [])

-- One round of the loop of `collect_equs`, on the operands of an `.equ`.
unfoldable pub equ_line :
    Span → List Operand → SymbolTable → List Diagnostic → SymbolTable × List Diagnostic
equ_line span (a ∷ b ∷ []) syms diags = elim a.kind [
  | ident name ↦ define_equ syms name a.span (resolve_imm b syms) diags
  | num _ ↦ (syms, diags ++ error a.span equ_name ∷ [])
]
equ_line span _ syms diags = (syms, diags ++ error span equ_operands ∷ [])

unfoldable pub equ_step : Line → SymbolTable → List Diagnostic → SymbolTable × List Diagnostic
equ_step line syms diags = elim line.kind [
  | label _ ↦ (syms, diags)
  | directive name args ↦
      (if not (str_eq name "equ") then (syms, diags) else equ_line line.span args syms diags)
  | instr _ _ ↦ (syms, diags)
]

unfoldable pub equs_loop : List Line → SymbolTable → List Diagnostic → SymbolTable × List Diagnostic
equs_loop [] syms diags = (syms, diags)
equs_loop (line ∷ lines) syms diags =
    let (syms', diags') = equ_step line syms diags in equs_loop lines syms' diags'

unfoldable pub collect_equs : List Line → SymbolTable × List Diagnostic
collect_equs lines = equs_loop lines [] []

-- One round of the loop of `assign_addresses`: the table, the diagnostics and the address after it.
unfoldable pub address_step :
    Line → SymbolTable → List Diagnostic → ℕ → SymbolTable × List Diagnostic × ℕ
address_step line syms diags addr = elim line.kind [
  | label name ↦
      (let (syms', diags') =
          inserted syms name line.span (insert syms name (Symbol.label (u16 addr)) line.span)
            diags in
        (syms', diags', addr))
  | directive _ _ ↦ (syms, diags, addr)
  | instr mnemonic operands ↦ (syms, diags, addr + instr_word_count mnemonic operands syms)
]

unfoldable pub addresses_loop :
    List Line → SymbolTable → List Diagnostic → ℕ → SymbolTable × List Diagnostic × ℕ
addresses_loop [] syms diags addr = (syms, diags, addr)
addresses_loop (line ∷ lines) syms diags addr =
    let (syms', diags', addr') = address_step line syms diags addr in
    addresses_loop lines syms' diags' addr'

unfoldable pub assign_addresses : List Line → SymbolTable → SymbolTable × List Diagnostic × ℕ
assign_addresses lines syms = addresses_loop lines syms [] 0
