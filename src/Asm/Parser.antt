-- ===== src/Asm/Parser.antt =====
-- The lines that crates/tamal-asm/src/parser.rs gives to the passes.
use Prim.Native.String.{String}
use tamal.Base.{List}
use tamal.Base.Int.{ℤ}
use tamal.Asm.Diagnostics.{Span}

pub data OperandKind : Type 0 where
  ident : String → OperandKind
  num : ℤ → OperandKind

pub record Operand : Type 0 where
  pub kind : OperandKind
  pub span : Span

pub data LineKind : Type 0 where
  label : String → LineKind
  directive : String → List Operand → LineKind
  instr : String → List Operand → LineKind

pub record Line : Type 0 where
  pub kind : LineKind
  pub span : Span
