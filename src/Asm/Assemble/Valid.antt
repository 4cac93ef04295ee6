-- ===== src/Asm/Assemble/Valid.antt =====
-- The ranges of the operands in an assembled program.
use tamal.Base.{ℕ, ◌≡◌, refl, sym, subst, List, [], ◌∷◌, ◌++◌, All, All-append, Result, ok, err}
use tamal.Abi.Isa.Instr.{Instr, IsValid}
use tamal.Asm.Diagnostics.{Span, Diagnostic}
use tamal.Asm.Parser.{label, directive, instr, Line, LineKind}
use tamal.Asm.Symbol.{SymbolTable}
use tamal.Asm.Encoder.Li.{instr_word_count}
use tamal.Asm.Encoder.Line.{encode_line}
use tamal.Asm.Encoder.Line.Valid.{encode_line-Valid}
use tamal.Asm.Passes.{collect_equs, assign_addresses}
use tamal.Asm.Assemble.{Program, Pass, encoded, pass_step, pass_loop, assemble_lines}
use tamal.Asm.Assemble.Words.{finish-ok}

AllValid : Pass → Type 0
AllValid s = All IsValid s.instrs

encoded-Valid :
    (s : Pass) (span : Span) (count : ℕ) (r : Result (List Instr) Diagnostic)
    → ((is : List Instr) → r ≡ ok is → All IsValid is)
    → AllValid s
    → AllValid (encoded s span count r)
unfolding encoded AllValid
encoded-Valid s span count (ok seq) h k = All-append IsValid s.instrs seq k (h seq refl)
encoded-Valid s span count (err d) h k = k

step-Valid :
    (syms : SymbolTable) (k : LineKind) (span : Span) (s : Pass)
    → AllValid s
    → AllValid (pass_step syms (record { kind = k; span = span }) s)
unfolding pass_step AllValid
step-Valid syms (label name) span s h = h
step-Valid syms (directive name args) span s h = h
step-Valid syms (instr m ops) span s h =
    encoded-Valid s span (instr_word_count m ops syms) (encode_line m ops span s.addr syms)
      (encode_line-Valid m ops span s.addr syms) h

loop-Valid :
    (syms : SymbolTable) (lines : List Line) (s : Pass)
    → AllValid s
    → AllValid (pass_loop syms lines s)
unfolding pass_loop
loop-Valid syms [] s h = h
loop-Valid syms (line ∷ lines) s h =
    loop-Valid syms lines _ (step-Valid syms line.kind line.span s h)

-- The instructions of an assembled program have their operands in range.
pub assemble_lines-Valid :
    (lines : List Line) (p : Program) → assemble_lines lines ≡ ok p → All IsValid p.instrs
unfolding assemble_lines AllValid
assemble_lines-Valid lines p e =
    let (equs, d_equ) = collect_equs lines in
    let (syms, d_addr, total) = assign_addresses lines equs in
    let start : Pass = record { instrs = []; spans = []; addr = 0; diags = d_equ ++ d_addr } in
    subst (All IsValid) (sym (finish-ok (pass_loop syms lines start) _ p e).1)
      (loop-Valid syms lines start tt)
