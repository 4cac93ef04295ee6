-- ===== src/Asm/Encoder/Ranges.antt =====
-- The values that resolved operands can have.
use Prim.Native.String.{String}
use native.Mathlib.Nat.{one-le-pow}
use tamal.Base.{
  ℕ, ◌<◌, Option, some, none, leb, Bool-cases, inl, inr, Result, Result-cases, ok, err, ◌>>=◌,
  arith,
}
use tamal.Base.Int.{ℤ, pos, negsuc, low_bits}
use tamal.Abi.Isa.Operand.{
  Fits, new, bit_count_new, reg_bits, imm11_bits, imm21_bits, tar4_bits, amt5_bits, wait_cond_bits,
  wait_timeout_bits, sr5_bits,
}
use tamal.Asm.Diagnostics.{Span, Diagnostic}
use tamal.Asm.Parser.{Operand, OperandKind, ident, num}
use tamal.Asm.Symbol.{SymbolTable}
use tamal.Asm.Encoder.Resolve.{
  expect, checked, field, reg_number, resolve_name, resolve_reg, resolve_imm, resolve_sr, is_crc,
  resolve_branch_target, field_u8, field_imm11, field_bitcount, field_tar4, field_amt5, field_imm21,
  field_load_imm, field_mark_tag, field_wait_cond, field_wait_timeout,
}
use tamal.Asm.Encoder.Branch.{Lands, lands, resolve_branch_target-Lands}

-- A result whose value, if there is one, fits a field.
pub data Bounded (bits : ℕ) : Result ℕ Diagnostic → Type 0 where
  bounded : {a : ℕ} → Fits bits a → Bounded bits (ok a)
  unbounded : {e : Diagnostic} → Bounded bits (err e)

-- What holds of a result, if there is one.
pub data Holds {A : Type 0} (Q : A → Type 0) : Result A Diagnostic → Type 0 where
  holds : {a : A} → Q a → Holds Q (ok a)
  fails : {e : Diagnostic} → Holds Q (err e)

pub expect-Fits : (bits v : ℕ) → Fits bits (expect (new bits v))
unfolding new
expect-Fits bits v = ground (arith, one-le-pow bits 2 (omega arith))

bit_count-Fits : (v : ℕ) → Fits 3 (expect (bit_count_new v))
unfolding bit_count_new
bit_count-Fits v = ground arith

byte-Fits : (v : ℤ) → Fits 8 (low_bits 8 v)
byte-Fits (pos n) = omega arith
byte-Fits (negsuc n) = omega arith

name-Holds :
    (span : Span) (name : String) (n : Option ℕ) → Holds (λ r. r < 16) (resolve_name span name n)
unfolding resolve_name
name-Holds span name none = fails
name-Holds span name (some n) = elim (Bool-cases (leb 16 n)) [
  | inl e ↦ rw e fails
  | inr e ↦ rw e (holds (ground (arith, e)))
]

reg-Holds :
    (k : OperandKind) (span : Span)
    → Holds (λ r. r < 16) (resolve_reg (record { kind = k; span = span }))
unfolding resolve_reg
reg-Holds (num n) span = fails
reg-Holds (ident name) span = name-Holds span name (reg_number name)

-- A register operand that resolves is one of `x0` to `x15`.
pub resolve_reg-Holds : (op : Operand) → Holds (λ r. r < 16) (resolve_reg op)
resolve_reg-Holds op = reg-Holds op.kind op.span

field-Bounded :
    (bits : ℕ) (op : Operand) (syms : SymbolTable) (lo hi : ℤ) (what : String) (convert : ℤ → ℕ)
    → ((v : ℤ) → Fits bits (convert v))
    → Bounded bits (field op syms lo hi what convert)
field-Bounded bits op syms lo hi what convert h = by_imm (resolve_imm op syms)
  where
    by_checked : (r : Result ℤ Diagnostic) → Bounded bits (r >>= λ v. ok (convert v))
    by_checked (ok v) = bounded (h v)
    by_checked (err e) = unbounded

    by_imm :
        (r : Result ℤ Diagnostic)
        → Bounded bits (r >>= λ value. checked value lo hi op.span what >>= λ v. ok (convert v))
    by_imm (ok value) = by_checked (checked value lo hi op.span what)
    by_imm (err e) = unbounded

Lands-Fits :
    {addr off : ℕ} {syms : SymbolTable} {k : OperandKind}
    → Lands addr syms off k
    → Fits imm11_bits off
Lands-Fits (lands name t g e f) = f

pub reg-Fits : (op : Operand) → Bounded reg_bits (resolve_reg op)
reg-Fits op = narrow (resolve_reg op) (resolve_reg-Holds op)
  where
    narrow : (m : Result ℕ Diagnostic) → Holds (λ r. r < 16) m → Bounded reg_bits m
    narrow m (holds q) = bounded (omega (arith, q))
    narrow m fails = unbounded

module _ (op : Operand) (syms : SymbolTable) where
  pub u8-Fits : (what : String) → Bounded 8 (field_u8 op syms what)
  u8-Fits what = unfold field_u8 in field-Bounded 8 op syms _ _ what _ byte-Fits

  pub imm11-Fits : Bounded imm11_bits (field_imm11 op syms)
  imm11-Fits =
      unfold field_imm11 in field-Bounded imm11_bits op syms _ _ _ _ (λ v. expect-Fits 11 _)

  pub bitcount-Fits : Bounded 3 (field_bitcount op syms)
  bitcount-Fits = unfold field_bitcount in field-Bounded 3 op syms _ _ _ _ (λ v. bit_count-Fits _)

  pub tar4-Fits : Bounded tar4_bits (field_tar4 op syms)
  tar4-Fits = unfold field_tar4 in field-Bounded tar4_bits op syms _ _ _ _ (λ v. expect-Fits 4 _)

  pub amt5-Fits : Bounded amt5_bits (field_amt5 op syms)
  amt5-Fits = unfold field_amt5 in field-Bounded amt5_bits op syms _ _ _ _ (λ v. expect-Fits 5 _)

  pub imm21-Fits : Bounded imm21_bits (field_imm21 op syms)
  imm21-Fits =
      unfold field_imm21 in field-Bounded imm21_bits op syms _ _ _ _ (λ v. expect-Fits 21 _)

  pub load_imm-Fits : Bounded imm21_bits (field_load_imm op syms)
  load_imm-Fits =
      unfold field_load_imm in field-Bounded imm21_bits op syms _ _ _ _ (λ v. expect-Fits 21 _)

  pub mark_tag-Fits : Bounded imm11_bits (field_mark_tag op syms)
  mark_tag-Fits =
      unfold field_mark_tag in field-Bounded imm11_bits op syms _ _ _ _ (λ v. expect-Fits 11 _)

  pub wait_cond-Fits : Bounded wait_cond_bits (field_wait_cond op syms)
  wait_cond-Fits =
      unfold field_wait_cond in field-Bounded wait_cond_bits op syms _ _ _ _ (λ v. expect-Fits 2 _)

  pub wait_timeout-Fits : Bounded wait_timeout_bits (field_wait_timeout op syms)
  wait_timeout-Fits =
      unfold field_wait_timeout in
      field-Bounded wait_timeout_bits op syms _ _ _ _ (λ v. expect-Fits 9 _)

  pub sr-Fits : Bounded sr5_bits (resolve_sr op syms)
  sr-Fits = elim (Bool-cases (is_crc op.kind)) [
    | inl e ↦ unfold resolve_sr in rw e (bounded (expect-Fits 5 0))
    | inr e ↦
        unfold resolve_sr in
        rw e (field-Bounded sr5_bits op syms _ _ _ _ (λ v. expect-Fits 5 (low_bits 8 v)))
  ]

  pub target-Fits : (addr : ℕ) → Bounded imm11_bits (resolve_branch_target op addr syms)
  target-Fits addr = elim (Result-cases (resolve_branch_target op addr syms)) [
    | inl (off, e) ↦ rw e (bounded (Lands-Fits (resolve_branch_target-Lands op addr syms off e)))
    | inr (x, e) ↦ rw e unbounded
  ]
