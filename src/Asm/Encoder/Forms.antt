-- ===== src/Asm/Encoder/Forms.antt =====
-- The forms that several instructions share.
use Prim.Native.String.{String}
use tamal.Base.{ℕ, List, [], ◌∷◌, Result, ok, ◌>>=◌}
use tamal.Abi.Isa.Operand.{ShiftOp, new, reg_bits}
use tamal.Abi.Isa.Instr.{Instr, Reg, Imm11}
use tamal.Asm.Diagnostics.{Span, Diagnostic}
use tamal.Asm.Parser.{Operand}
use tamal.Asm.Symbol.{SymbolTable}
use tamal.Asm.Encoder.Resolve.{expect, resolve_reg, resolve_branch_target, field_imm11, field_amt5}
use tamal.Asm.Encoder.Args.{args3}

abbrev pub Seq : Type 0
Seq = Result (List Instr) Diagnostic

unfoldable pub rrr : List Operand → Span → String → (Reg → Reg → Reg → Instr) → Seq
rrr operands span mnem ctor = do
  (a, b, c) ← args3 operands span mnem
  rd ← resolve_reg a
  rs1 ← resolve_reg b
  rs2 ← resolve_reg c
  ok (ctor rd rs1 rs2 ∷ [])

unfoldable pub rri : List Operand → Span → String → SymbolTable → (Reg → Reg → Imm11 → Instr) → Seq
rri operands span mnem syms ctor = do
  (a, b, c) ← args3 operands span mnem
  rd ← resolve_reg a
  rs1 ← resolve_reg b
  imm ← field_imm11 c syms
  ok (ctor rd rs1 imm ∷ [])

unfoldable pub shift : List Operand → Span → String → SymbolTable → ShiftOp → Seq
shift operands span mnem syms op = do
  (a, b, c) ← args3 operands span mnem
  rd ← resolve_reg a
  rs1 ← resolve_reg b
  amt ← field_amt5 c syms
  ok (Instr.shift rd rs1 op amt ∷ [])

unfoldable pub branch :
    List Operand → Span → String → ℕ → SymbolTable → (Reg → Reg → Imm11 → Instr) → Seq
branch operands span mnem addr syms ctor = do
  (a, b, c) ← args3 operands span mnem
  rs1 ← resolve_reg a
  rs2 ← resolve_reg b
  off ← resolve_branch_target c addr syms
  ok (ctor rs1 rs2 off ∷ [])

abbrev pub zero_reg : Reg
zero_reg = expect (new reg_bits 0)
