-- ===== src/Asm/Encoder/Li.antt =====
-- The expansion of the pseudo-instruction `li`.
pub mod Effect
use Prim.Native.String.{String}
use text.Mathlib.Text.{◌==◌ as str_eq}
use tamal.Base.{
  ℕ, ◌+◌, ◌-◌, ◌^◌, List, [], ◌∷◌, ◌++◌, length, Bool, ◌&&◌, not, ◌==◌, if◌then◌else◌, bit_and, u16,
  u32, ◌>>>◌, Result, ok, err, ◌>>=◌,
}
use tamal.Base.Int.{ℤ, pos, negsuc, leb_ℤ, is_zero, low_bits, signed, difference}
use tamal.Abi.Isa.Operand.{new, imm21_bits, reg_bits}
use tamal.Abi.Isa.Instr.{Reg, Instr, load_imm, lui, addi}
use tamal.Asm.Diagnostics.{Diagnostic, error, li_too_wide}
use tamal.Asm.Parser.{Operand}
use tamal.Asm.Symbol.{SymbolTable}
use tamal.Asm.Encoder.Resolve.{resolve_imm, expect, imm11_of, imm21_of}

-- The low 11 bits of a word, as the signed number that `addi` adds.
unfoldable pub li_low : ℕ → ℤ
li_low w =
    let low11 = bit_and w 0x7FF in
    if not (bit_and low11 0x400 == 0) then difference low11 0x800 else pos low11

unfoldable pub tile_li : Reg → ℤ → List Instr
tile_li rd value =
    if leb_ℤ (negsuc (2 ^ 20 - 1)) value && leb_ℤ value (pos (2 ^ 20 - 1))
    then load_imm rd (imm21_of value) ∷ []
    else (let w = low_bits 32 value in
        let lo = li_low w in
        let hi = u32 (w + (2 ^ 32 - low_bits 32 lo)) >>> 11 in
        let out = lui rd (expect (new imm21_bits hi)) ∷ [] in
        if not (is_zero lo) then out ++ addi rd rd (imm11_of lo) ∷ [] else out)

unfoldable pub li_value : Operand → SymbolTable → Result ℤ Diagnostic
li_value op syms = do
  v ← resolve_imm op syms
  if not (leb_ℤ (negsuc (2 ^ 31 - 1)) v && leb_ℤ v (pos (2 ^ 32 - 1)))
      then err (error op.span (li_too_wide v))
      else ok (signed 32 (low_bits 32 v))

unfoldable pub li_word_count : ℤ → ℕ
li_word_count value = u16 (length (tile_li (expect (new reg_bits 0)) value))

abbrev pub sized : Result ℤ Diagnostic → ℕ
sized (ok v) = li_word_count v
sized (err _) = 1

unfoldable pub instr_word_count : String → List Operand → SymbolTable → ℕ
instr_word_count mnemonic (a ∷ b ∷ []) syms =
    if str_eq mnemonic "li" then sized (li_value b syms) else 1
instr_word_count mnemonic _ syms = 1
