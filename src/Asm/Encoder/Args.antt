-- ===== src/Asm/Encoder/Args.antt =====
-- How `encode_line` takes its operands: their number, and which are registers.
use Prim.Native.String.{String}
use tamal.Base.{ℕ, List, [], ◌∷◌, length, Bool, true, false, Option, none, some, Result, ok, err}
use tamal.Asm.Diagnostics.{Span, Diagnostic, error, operand_count}
use tamal.Asm.Parser.{ident, num, Operand}
use tamal.Asm.Encoder.Resolve.{reg_number}

abbrev pub has_number : Option ℕ → Bool
has_number (some _) = true
has_number none = false

abbrev pub is_register : Operand → Bool
is_register op = elim op.kind [ ident s ↦ has_number (reg_number s) | num _ ↦ false ]

-- `args_exact(operands, n, span, mnem)?`, with the operands that the code then indexes.
abbrev pub wrong_count {ℓ} : {A : Type ℓ} → List Operand → ℕ → Span → String → Result A Diagnostic
wrong_count ops n span mnem = err (error span (operand_count mnem n (length ops)))

abbrev pub args0 : List Operand → Span → String → Result (Unit {0}) Diagnostic
args0 [] span mnem = ok tt
args0 ops span mnem = wrong_count ops 0 span mnem

abbrev pub args1 : List Operand → Span → String → Result Operand Diagnostic
args1 (a ∷ []) span mnem = ok a
args1 ops span mnem = wrong_count ops 1 span mnem

abbrev pub args2 : List Operand → Span → String → Result (Operand × Operand) Diagnostic
args2 (a ∷ b ∷ []) span mnem = ok (a, b)
args2 ops span mnem = wrong_count ops 2 span mnem

abbrev pub args3 : List Operand → Span → String → Result (Operand × Operand × Operand) Diagnostic
args3 (a ∷ b ∷ c ∷ []) span mnem = ok (a, b, c)
args3 ops span mnem = wrong_count ops 3 span mnem

abbrev pub args4 :
    List Operand → Span → String → Result (Operand × Operand × Operand × Operand) Diagnostic
args4 (a ∷ b ∷ c ∷ d ∷ []) span mnem = ok (a, b, c, d)
args4 ops span mnem = wrong_count ops 4 span mnem
