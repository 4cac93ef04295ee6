-- ===== src/Runs/Assembly.antt =====
-- The assembler of crates/tamal-asm at a concrete source.
use tamal.Base.{ℕ, ◌+◌, ◌≤◌, ◌≡◌, refl, List, [], ◌∷◌, ◌++◌, length, map, some, ok}
use tamal.Base.Int.{pos, negsuc}
use tamal.Abi.Isa.Instr.{Instr}
use tamal.Abi.Isa.Encode.{encode, program_to_le_bytes}
use tamal.Abi.Isa.Decode.{decode}
use tamal.Loader.Program.{validate_program_bytes}
use tamal.Asm.Diagnostics.{Span}
use tamal.Asm.Parser.{OperandKind, ident, num, Operand, label, directive, instr, LineKind, Line}
use tamal.Asm.Symbol
use tamal.Asm.Symbol.{SymbolTable, get, entry, insert}
use tamal.Abi.Isa.Operand.{new}
use tamal.Asm.Encoder.Resolve.{
  resolve_reg, resolve_branch_target, resolve_name, reg_number, target_of, checked, resolve_imm,
  constant, field_u8, field_imm11,
}
use tamal.Asm.Encoder.Forms.{branch}
use tamal.Asm.Passes.{
  collect_equs, equs_loop, equ_step, equ_line, define_equ, inserted, assign_addresses,
  addresses_loop, address_step,
}
use tamal.Asm.Encoder.Branch.{Lands, resolve_branch_target-Lands}
use tamal.Asm.Encoder.Li.{tile_li, instr_word_count, li_value, li_word_count, li_low}
use tamal.Asm.Encoder.Li.Effect.{effects, effects-tile_li}
use tamal.Asm.Encoder.Line.{encode_line, encode_data, encode_pseudo}
use tamal.Asm.Encoder.Line.Sizes.{encode_line-count}
use tamal.Asm.Encoder.Fields.{KeepsOperands, operands-Kept}
use tamal.Asm.Assemble.{
  Program, max_words, assemble_lines, finish, pass_loop, pass_step, encoded, validate_directive,
}
use tamal.Asm.Assemble.Words.{total_words, assemble_lines-total}
use tamal.Asm.Assemble.Labels.{table as symbols, emitted, assemble_lines-label}
use tamal.Asm.Assemble.Load.{validate-assemble_lines}

abbrev at_ : ℕ → Span
at_ n = record { start = n; end = n + 1 }

abbrev op : OperandKind → Operand
op k = record { kind = k; span = at_ 0 }

abbrev line : LineKind → ℕ → Line
line k n = record { kind = k; span = at_ n }

-- `.equ BIG, 0x12345678`, `start:`, `li a0, BIG`, `bne a0, zero, start`, `halt 3`
abbrev source : List Line
source =
    line (directive "equ" (op (ident "BIG") ∷ op (num (pos 0x12345678)) ∷ [])) 1
    ∷ line (label "start") 2
    ∷ line (instr "li" (op (ident "a0") ∷ op (ident "BIG") ∷ [])) 3
    ∷ line (instr "bne" (op (ident "a0") ∷ op (ident "zero") ∷ op (ident "start") ∷ [])) 4
    ∷ line (instr "halt" (op (num (pos 3)) ∷ [])) 5
    ∷ []

abbrev program : Program
program = record {
  instrs = Instr.lui 10 149131 ∷ Instr.addi 10 10 1656 ∷ Instr.bne 10 0 2046 ∷ Instr.halt 3 ∷ [];
  spans = at_ 3 ∷ at_ 3 ∷ at_ 4 ∷ at_ 5 ∷ [];
}

assembles : assemble_lines source ≡ ok program
unfolding assemble_lines finish pass_loop pass_step encoded validate_directive collect_equs
    equs_loop equ_step equ_line define_equ inserted assign_addresses addresses_loop address_step
    insert resolve_imm constant instr_word_count li_value li_word_count tile_li li_low branch
    field_u8 encode_line encode_data encode_pseudo resolve_reg resolve_name reg_number
    resolve_branch_target target_of get entry checked new
assembles = refl

validate-assemble_lines_example :
    (validate_program_bytes (program_to_le_bytes program.instrs) ≡ ok (map encode program.instrs))
    × (map decode (map encode program.instrs) ≡ map ok program.instrs)
validate-assemble_lines_example = validate-assemble_lines source program assembles

assemble_lines-total_example : (4 ≡ total_words source) × (4 ≤ max_words)
assemble_lines-total_example = assemble_lines-total source program assembles

effects-tile_li_example : effects 10 (tile_li 10 (negsuc 0x7FFFFF00)) 5 ≡ some 0x800000FF
effects-tile_li_example = effects-tile_li 10 5 (negsuc 0x7FFFFF00)

abbrev table : SymbolTable
table = ("start", Symbol.label 7, at_ 2) ∷ []

branches :
    encode_line "beqz" (op (ident "s0") ∷ op (ident "start") ∷ []) (at_ 9) 9 table
    ≡ ok (Instr.beq 8 0 2046 ∷ [])
unfolding encode_line encode_data encode_pseudo resolve_reg resolve_name reg_number
    resolve_branch_target target_of get entry checked new
branches = refl

-- The value -1024 of 11 bits.
least : field_imm11 (op (num (negsuc 1023))) table ≡ ok 1024
unfolding field_imm11 resolve_imm checked new
least = refl

operands-Kept_example : KeepsOperands (op (num (negsuc 1023))) table
operands-Kept_example = operands-Kept (op (num (negsuc 1023))) table

encode_line-count_example :
    1 ≡ instr_word_count "beqz" (op (ident "s0") ∷ op (ident "start") ∷ []) table
encode_line-count_example =
    encode_line-count "beqz" (op (ident "s0") ∷ op (ident "start") ∷ []) (at_ 9) 9 table table
      (Instr.beq 8 0 2046 ∷ []) (λ _ _ e. e) branches

resolves : resolve_branch_target (op (ident "start")) 9 table ≡ ok 2046
unfolding resolve_branch_target target_of get entry checked new
resolves = refl

resolve_branch_target-Lands_example : Lands 9 table 2046 (ident "start")
resolve_branch_target-Lands_example =
    resolve_branch_target-Lands (op (ident "start")) 9 table 2046 resolves

-- `.equ BIG, 0x12345678`, `li a0, BIG`, `loop:`, `bne a0, zero, loop`
abbrev before_loop : List Line
before_loop =
    line (directive "equ" (op (ident "BIG") ∷ op (num (pos 0x12345678)) ∷ [])) 1
    ∷ line (instr "li" (op (ident "a0") ∷ op (ident "BIG") ∷ [])) 2
    ∷ []

abbrev after_loop : List Line
after_loop =
    line (instr "bne" (op (ident "a0") ∷ op (ident "zero") ∷ op (ident "loop") ∷ [])) 4 ∷ []

abbrev spin : Program
spin = record {
  instrs = Instr.lui 10 149131 ∷ Instr.addi 10 10 1656 ∷ Instr.bne 10 0 0 ∷ [];
  spans = at_ 2 ∷ at_ 2 ∷ at_ 4 ∷ [];
}

spins : assemble_lines (before_loop ++ line (label "loop") 3 ∷ after_loop) ≡ ok spin
unfolding assemble_lines finish pass_loop pass_step encoded validate_directive collect_equs
    equs_loop equ_step equ_line define_equ inserted assign_addresses addresses_loop address_step
    insert resolve_imm constant instr_word_count li_value li_word_count tile_li li_low branch
    field_u8 encode_line encode_data encode_pseudo resolve_reg resolve_name reg_number
    resolve_branch_target target_of get entry checked new
spins = refl

assemble_lines-label_example :
    get (symbols (before_loop ++ line (label "loop") 3 ∷ after_loop)) "loop"
    ≡ some (Symbol.label (length (emitted before_loop (line (label "loop") 3 ∷ after_loop))))
assemble_lines-label_example = assemble_lines-label before_loop after_loop "loop" (at_ 3) spin spins
