-- ===== src/Asm/Encoder/Resolve.antt =====
-- The operands of an instruction line: registers, immediates and their ranges.
use Prim.Native.Char.{code}
use Prim.Native.String.{String}
use text.Mathlib.Text.{◌==◌ as str_eq}
use tamal.Base.{
  ℕ, ◌+◌, ◌-◌, ◌*◌, ◌^◌, List, [], ◌∷◌, Option, none, some, Bool, true, false, ◌&&◌, ◌||◌, leb, ltb,
  not, ◌==◌, map, if◌then◌else◌, bit_and, u8, u16, Result, ok, err, ◌>>=◌,
}
use tamal.Base.Int.{ℤ, pos, negsuc, leb_ℤ, low_bits, difference}
use tamal.Abi.Isa.Operand.{
  new, bit_count_new, BitCount, imm11_bits, imm21_bits, tar4_bits, amt5_bits, wait_cond_bits,
  wait_timeout_bits, sr5_bits,
}
use tamal.Abi.Isa.Instr.{Reg, Imm11, Imm21, Tar4, Amt5, Sr5, WaitCond, WaitTimeout}
use tamal.Asm.Diagnostics.{
  Span, Diagnostic, error, with_help, expected_register, unknown_register, unavailable_register,
  register_file_help, label_for_constant, undefined_symbol, out_of_range, target_not_label,
  constant_for_label, undefined_label,
}
use tamal.Asm.Parser.{OperandKind, ident, num, Operand}
use tamal.Asm.Symbol.{Sym, equ, label, SymbolTable, get}

abbrev pub codes : String → List ℕ
codes String.[] = []
codes (String.◌∷◌ c s) = code c ∷ codes s

-- The digits of `str::parse::<u16>`, from the value `n` of those before; a value past 16 bits is an error.
abbrev pub digits_u16 : List ℕ → ℕ → Option ℕ
digits_u16 [] n = some n
digits_u16 (c ∷ cs) n =
    let rest = digits_u16 cs (n * 10 + (c - b'0')) in
    if leb b'0' c && leb c b'9' && ltb (n * 10 + (c - b'0')) (2 ^ 16) then rest else none

-- `str::parse::<u16>`: an optional plus sign, then digits, at least one.
abbrev pub parse_u16 : List ℕ → Option ℕ
parse_u16 [] = none
parse_u16 (c ∷ []) = if c == b'+' then none else digits_u16 (c ∷ []) 0
parse_u16 (c ∷ d ∷ cs) = if c == b'+' then digits_u16 (d ∷ cs) 0 else digits_u16 (c ∷ d ∷ cs) 0

abbrev pub abi_names : List (String × ℕ)
abi_names =
    ("zero", 0)
    ∷ ("ra", 1)
    ∷ ("sp", 2)
    ∷ ("gp", 3)
    ∷ ("tp", 4)
    ∷ ("t0", 5)
    ∷ ("t1", 6)
    ∷ ("t2", 7)
    ∷ ("s0", 8)
    ∷ ("fp", 8)
    ∷ ("s1", 9)
    ∷ ("a0", 10)
    ∷ ("a1", 11)
    ∷ ("a2", 12)
    ∷ ("a3", 13)
    ∷ ("a4", 14)
    ∷ ("a5", 15)
    ∷ ("a6", 16)
    ∷ ("a7", 17)
    ∷ ("s2", 18)
    ∷ ("s3", 19)
    ∷ ("s4", 20)
    ∷ ("s5", 21)
    ∷ ("s6", 22)
    ∷ ("s7", 23)
    ∷ ("s8", 24)
    ∷ ("s9", 25)
    ∷ ("s10", 26)
    ∷ ("s11", 27)
    ∷ ("t3", 28)
    ∷ ("t4", 29)
    ∷ ("t5", 30)
    ∷ ("t6", 31)
    ∷ []

abbrev pub named : List (String × ℕ) → String → Option ℕ
named [] name = none
named ((n, r) ∷ rest) name = if str_eq n name then some r else named rest name

-- A name `x` with a number that parses; any other name is looked up.
abbrev pub numbered : List ℕ → Option ℕ
numbered [] = none
numbered (c ∷ cs) = if c == b'x' then parse_u16 cs else none

unfoldable pub reg_number : String → Option ℕ
reg_number name = elim (numbered (codes name)) [
  | some n ↦ if leb n 31 then some (u8 n) else none
  | none ↦ named abi_names name
]

unfoldable pub resolve_name : Span → String → Option ℕ → Result Reg Diagnostic
resolve_name span name none = err (error span (unknown_register name))
resolve_name span name (some n) =
    if leb 16 n
    then err (with_help (error span (unavailable_register name n)) register_file_help)
    else ok n

unfoldable pub resolve_reg : Operand → Result Reg Diagnostic
resolve_reg op = elim op.kind [
  | num _ ↦ err (error op.span expected_register)
  | ident name ↦ resolve_name op.span name (reg_number name)
]

unfoldable pub constant : Span → String → Option Sym → Result ℤ Diagnostic
constant span name (some (equ v)) = ok v
constant span name (some (label _)) = err (error span (label_for_constant name))
constant span name none = err (error span (undefined_symbol name))

unfoldable pub resolve_imm : Operand → SymbolTable → Result ℤ Diagnostic
resolve_imm op syms = elim op.kind [
  | num n ↦ ok n
  | ident name ↦ constant op.span name (get syms name)
]

unfoldable pub checked : ℤ → ℤ → ℤ → Span → String → Result ℤ Diagnostic
checked value lo hi span what =
    if not (leb_ℤ lo value) || not (leb_ℤ value hi)
    then err (error span (out_of_range what value lo hi))
    else ok value

-- `expect` on an operand that was built from bits in range. 0 stands for its panic.
abbrev pub expect : Option ℕ → ℕ
expect (some v) = v
expect none = 0

-- A range check on the operand, then a conversion.
abbrev pub field : Operand → SymbolTable → ℤ → ℤ → String → (ℤ → ℕ) → Result ℕ Diagnostic
field op syms lo hi what convert = do
  value ← resolve_imm op syms
  v ← checked value lo hi op.span what
  ok (convert v)

unfoldable pub field_u8 : Operand → SymbolTable → String → Result ℕ Diagnostic
field_u8 op syms what = field op syms (pos 0) (pos 255) what (λ v. low_bits 8 v)

abbrev pub imm11_of : ℤ → Imm11
imm11_of v = expect (new imm11_bits (u16 (bit_and (low_bits 32 v) 0x7FF)))

unfoldable pub field_imm11 : Operand → SymbolTable → Result Imm11 Diagnostic
field_imm11 op syms = field op syms (negsuc 1023) (pos 1023) "immediate" imm11_of

unfoldable pub field_bitcount : Operand → SymbolTable → Result BitCount Diagnostic
field_bitcount op syms =
    field op syms (pos 1) (pos 8) "bit count" (λ v. expect (bit_count_new (low_bits 8 v)))

unfoldable pub field_tar4 : Operand → SymbolTable → Result Tar4 Diagnostic
field_tar4 op syms =
    field op syms (pos 0) (pos 15) "TAR count" (λ v. expect (new tar4_bits (low_bits 8 v)))

unfoldable pub field_amt5 : Operand → SymbolTable → Result Amt5 Diagnostic
field_amt5 op syms =
    field op syms (pos 0) (pos 31) "shift amount" (λ v. expect (new amt5_bits (low_bits 8 v)))

unfoldable pub field_imm21 : Operand → SymbolTable → Result Imm21 Diagnostic
field_imm21 op syms =
    field op syms (pos 0) (pos 0x1FFFFF) "immediate" (λ v. expect (new imm21_bits (low_bits 32 v)))

abbrev pub imm21_of : ℤ → Imm21
imm21_of v = expect (new imm21_bits (bit_and (low_bits 32 v) 0x1FFFFF))

unfoldable pub field_load_imm : Operand → SymbolTable → Result Imm21 Diagnostic
field_load_imm op syms = field op syms (negsuc (2 ^ 20 - 1)) (pos (2 ^ 20 - 1)) "immediate" imm21_of

unfoldable pub field_mark_tag : Operand → SymbolTable → Result Imm11 Diagnostic
field_mark_tag op syms =
    field op syms (pos 0) (pos 2047) "mark tag" (λ v. expect (new imm11_bits (low_bits 16 v)))

unfoldable pub field_wait_cond : Operand → SymbolTable → Result WaitCond Diagnostic
field_wait_cond op syms =
    field op syms (pos 0) (pos 3) "wait condition" (λ v. expect (new wait_cond_bits (low_bits 8 v)))

unfoldable pub field_wait_timeout : Operand → SymbolTable → Result WaitTimeout Diagnostic
field_wait_timeout op syms =
    field op syms (pos 0) (pos 511) "wait timeout"
      (λ v. expect (new wait_timeout_bits (low_bits 16 v)))

abbrev pub lower_code : ℕ → ℕ
lower_code c = if leb b'A' c && leb c b'Z' then c + 32 else c

-- `to_ascii_lowercase`, as codes.
abbrev pub lower : String → List ℕ
lower s = map lower_code (codes s)

abbrev pub same_codes : List ℕ → List ℕ → Bool
same_codes [] [] = true
same_codes (a ∷ as_) (b ∷ bs) = a == b && same_codes as_ bs
same_codes _ _ = false

abbrev pub is_crc : OperandKind → Bool
is_crc (ident s) = same_codes (lower s) (codes "crc")
is_crc (num _) = false

unfoldable pub resolve_sr : Operand → SymbolTable → Result Sr5 Diagnostic
resolve_sr op syms =
    if is_crc op.kind
    then ok (expect (new sr5_bits 0))
    else field op syms (pos 0) (pos 31) "special register"
        (λ v. expect (new sr5_bits (low_bits 8 v)))

unfoldable pub target_of : Span → String → Option Sym → Result ℕ Diagnostic
target_of span name (some (label t)) = ok t
target_of span name (some (equ _)) = err (error span (constant_for_label name))
target_of span name none = err (error span (undefined_label name))

unfoldable pub resolve_branch_target : Operand → ℕ → SymbolTable → Result Imm11 Diagnostic
resolve_branch_target op addr syms = elim op.kind [
  | num _ ↦ err (error op.span target_not_label)
  | ident name ↦ do
    target ← target_of op.span name (get syms name)
    off ← checked (difference target addr) (negsuc 1023) (pos 1023) op.span "branch offset"
    ok (imm11_of off)
]
