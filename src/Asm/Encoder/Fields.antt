-- ===== src/Asm/Encoder/Fields.antt =====
-- What the numeric operands of crates/tamal-asm/src/encoder.rs keep of their values.
use Prim.Native.String.{String}
use tamal.Base.{
  ℕ, ◌+◌, ◌-◌, ◌^◌, ◌<◌, ◌≡◌, refl, ap, ◌∙◌, true, false, Bool-cases, inl, inr, ◌&&◌, Result, ok,
  err, ◌>>=◌, arith,
}
use tamal.Base.Int.{ℤ, pos, negsuc, leb_ℤ, low_bits, signed}
use tamal.Abi.Isa.Operand.{
  new, bit_count_new, imm11_bits, imm21_bits, tar4_bits, amt5_bits, wait_cond_bits,
  wait_timeout_bits, sr5_bits,
}
use tamal.Asm.Diagnostics.{Diagnostic, error, out_of_range}
use tamal.Asm.Parser.{Operand}
use tamal.Asm.Symbol.{SymbolTable}
use tamal.Asm.Encoder.Resolve.{
  expect, checked, field, resolve_imm, field_u8, field_imm11, imm11_of, imm21_of, field_bitcount,
  field_tar4, field_amt5, field_imm21, field_load_imm, field_mark_tag, field_wait_cond,
  field_wait_timeout, resolve_sr, is_crc, resolve_reg,
}
use tamal.Asm.Encoder.Ranges.{Holds, resolve_reg-Holds}
use tamal.Asm.Encoder.Li.Effect.{imm11_of-mod, imm21_of-mod}

-- A value from `lo` to `hi` is a field that reads as the value, any other value is out of range, and an
-- operand without a value is an error.
pub data Kept (op : Operand) (syms : SymbolTable) (what : String) (lo hi : ℤ) (read : ℕ → ℤ)
    : Result ℕ Diagnostic → Type 0 where
  kept :
      {v : ℤ} {w : ℕ}
      → resolve_imm op syms ≡ ok v
      → leb_ℤ lo v ≡ true
      → leb_ℤ v hi ≡ true
      → read w ≡ v
      → Kept op syms what lo hi read (ok w)
  beyond :
      {v : ℤ}
      → resolve_imm op syms ≡ ok v
      → (leb_ℤ lo v && leb_ℤ v hi) ≡ false
      → Kept op syms what lo hi read (err (error op.span (out_of_range what v lo hi)))
  unresolved : {e : Diagnostic} → resolve_imm op syms ≡ err e → Kept op syms what lo hi read (err e)

Converts : ℤ → ℤ → (ℕ → ℤ) → (ℤ → ℕ) → Type 0
Converts lo hi read convert = (v : ℤ) → leb_ℤ lo v ≡ true → leb_ℤ v hi ≡ true → read (convert v) ≡ v

field-Kept :
    (op : Operand) (syms : SymbolTable) (what : String) (lo hi : ℤ) (read : ℕ → ℤ) (convert : ℤ → ℕ)
    → Converts lo hi read convert
    → Kept op syms what lo hi read (field op syms lo hi what convert)
unfolding Converts checked
field-Kept op syms what lo hi read convert h = by_value (resolve_imm op syms) refl
  where
    by_value :
        (r : Result ℤ Diagnostic)
        → resolve_imm op syms ≡ r
        → Kept op syms what lo hi read
            (r >>= λ value. checked value lo hi op.span what >>= λ v. ok (convert v))
    by_value (err e) k = unresolved k
    by_value (ok v) k = elim (Bool-cases (leb_ℤ lo v)) [
      | inr n ↦ rw (checked, n) (beyond k (rw n))
      | inl a ↦ elim (Bool-cases (leb_ℤ v hi)) [
        | inl b ↦ rw (checked, a, b) (kept k a b (h v a b))
        | inr n ↦ rw (checked, a, n) (beyond k (rw (a, n)))
      ]
    ]

u8-Converts : Converts (pos 0) (pos 255) pos (λ v. low_bits 8 v)
unfolding Converts new
u8-Converts (pos n) a b = (ground arith)
u8-Converts (negsuc n) a b = cc

bit_count-Converts :
    Converts (pos 1) (pos 8) (λ w. pos (w + 1)) (λ v. expect (bit_count_new (low_bits 8 v)))
unfolding Converts bit_count_new
bit_count-Converts (pos n) a b = (ground arith)
bit_count-Converts (negsuc n) a b = cc

tar4-Converts : Converts (pos 0) (pos 15) pos (λ v. expect (new tar4_bits (low_bits 8 v)))
unfolding Converts new
tar4-Converts (pos n) a b = (ground arith)
tar4-Converts (negsuc n) a b = cc

amt5-Converts : Converts (pos 0) (pos 31) pos (λ v. expect (new amt5_bits (low_bits 8 v)))
unfolding Converts new
amt5-Converts (pos n) a b = (ground arith)
amt5-Converts (negsuc n) a b = cc

imm21-Converts : Converts (pos 0) (pos 0x1FFFFF) pos (λ v. expect (new imm21_bits (low_bits 32 v)))
unfolding Converts new
imm21-Converts (pos n) a b = (ground arith)
imm21-Converts (negsuc n) a b = cc

mark_tag-Converts : Converts (pos 0) (pos 2047) pos (λ v. expect (new imm11_bits (low_bits 16 v)))
unfolding Converts new
mark_tag-Converts (pos n) a b = (ground arith)
mark_tag-Converts (negsuc n) a b = cc

wait_cond-Converts : Converts (pos 0) (pos 3) pos (λ v. expect (new wait_cond_bits (low_bits 8 v)))
unfolding Converts new
wait_cond-Converts (pos n) a b = (ground arith)
wait_cond-Converts (negsuc n) a b = cc

wait_timeout-Converts :
    Converts (pos 0) (pos 511) pos (λ v. expect (new wait_timeout_bits (low_bits 16 v)))
unfolding Converts new
wait_timeout-Converts (pos n) a b = (ground arith)
wait_timeout-Converts (negsuc n) a b = cc

sr5-Converts : Converts (pos 0) (pos 31) pos (λ v. expect (new sr5_bits (low_bits 8 v)))
unfolding Converts new
sr5-Converts (pos n) a b = (ground arith)
sr5-Converts (negsuc n) a b = cc

imm11-Converts : Converts (negsuc 1023) (pos 1023) (signed 11) imm11_of
unfolding Converts
imm11-Converts (pos n) a b = ap (signed 11) (imm11_of-mod (pos n)) ∙ (ground arith)
imm11-Converts (negsuc n) a b = ap (signed 11) (imm11_of-mod (negsuc n)) ∙ (ground arith)

load_imm-Converts : Converts (negsuc (2 ^ 20 - 1)) (pos (2 ^ 20 - 1)) (signed 21) imm21_of
unfolding Converts
load_imm-Converts (pos n) a b = ap (signed 21) (imm21_of-mod (pos n)) ∙ (ground arith)
load_imm-Converts (negsuc n) a b = ap (signed 21) (imm21_of-mod (negsuc n)) ∙ (ground arith)

-- Every kind of operand, by the range of its values, and by how the engine reads the field.
pub record KeepsOperands (op : Operand) (syms : SymbolTable) : Type 0 where
  pub register : Holds (λ r. r < 16) (resolve_reg op)
  pub byte : (what : String) → Kept op syms what (pos 0) (pos 255) pos (field_u8 op syms what)
  pub imm11 : Kept op syms "immediate" (negsuc 1023) (pos 1023) (signed 11) (field_imm11 op syms)
  pub bit_count :
      Kept op syms "bit count" (pos 1) (pos 8) (λ w. pos (w + 1)) (field_bitcount op syms)
  pub tar : Kept op syms "TAR count" (pos 0) (pos 15) pos (field_tar4 op syms)
  pub amount : Kept op syms "shift amount" (pos 0) (pos 31) pos (field_amt5 op syms)
  pub imm21 : Kept op syms "immediate" (pos 0) (pos (2 ^ 21 - 1)) pos (field_imm21 op syms)
  pub load_imm :
      Kept op syms "immediate"
        (negsuc (2 ^ 20 - 1))
        (pos (2 ^ 20 - 1))
        (signed 21)
        (field_load_imm op syms)
  pub mark_tag : Kept op syms "mark tag" (pos 0) (pos 2047) pos (field_mark_tag op syms)
  pub wait_cond : Kept op syms "wait condition" (pos 0) (pos 3) pos (field_wait_cond op syms)
  pub wait_timeout : Kept op syms "wait timeout" (pos 0) (pos 511) pos (field_wait_timeout op syms)
  pub crc_register : is_crc op.kind ≡ true → resolve_sr op syms ≡ ok 0
  pub special_register :
      is_crc op.kind ≡ false
      → Kept op syms "special register" (pos 0) (pos 31) pos (resolve_sr op syms)

-- Every numeric operand whose value is in the range of its field becomes a field that reads as the value:
-- signed for an immediate of 11 bits and for that of load_imm, one more for a bit count, and as it stands for
-- the rest. Any other value is refused as out of range, and an operand without a value by its own error. The
-- name crc is special register 0, and a register operand that is accepted is one of x0 to x15.
pub operands-Kept : (op : Operand) (syms : SymbolTable) → KeepsOperands op syms
unfolding field_u8 field_imm11 field_bitcount field_tar4 field_amt5 field_imm21 field_load_imm
    field_mark_tag field_wait_cond field_wait_timeout new
operands-Kept op syms = record {
  register = resolve_reg-Holds op;
  byte = λ what. field-Kept op syms what _ _ pos _ u8-Converts;
  imm11 = field-Kept op syms _ _ _ (signed 11) _ imm11-Converts;
  bit_count = field-Kept op syms _ _ _ (λ w. pos (w + 1)) _ bit_count-Converts;
  tar = field-Kept op syms _ _ _ pos _ tar4-Converts;
  amount = field-Kept op syms _ _ _ pos _ amt5-Converts;
  imm21 = field-Kept op syms _ _ _ pos _ imm21-Converts;
  load_imm = field-Kept op syms _ _ _ (signed 21) _ load_imm-Converts;
  mark_tag = field-Kept op syms _ _ _ pos _ mark_tag-Converts;
  wait_cond = field-Kept op syms _ _ _ pos _ wait_cond-Converts;
  wait_timeout = field-Kept op syms _ _ _ pos _ wait_timeout-Converts;
  crc_register = λ e. unfold resolve_sr in rw e;
  special_register = λ e. unfold resolve_sr in rw e (field-Kept op syms _ _ _ pos _ sr5-Converts);
}
