-- ===== src/Asm/Encoder/Line.antt =====
-- `encode_line`: one instruction line to its instructions.
pub mod Sizes
pub mod Valid
use Prim.Native.String.{String}
use text.Mathlib.Text.{◌==◌ as str_eq}
use tamal.Base.{
  ℕ, List, [], ◌∷◌, length, Bool, true, false, ◌||◌, Option, none, some, ◌==◌, if◌then◌else◌,
  Result, ok, err, ◌>>=◌, ◌>>◌,
}
use tamal.Abi.Isa.Operand.{ShiftOp, sll, srl, sra, new, imm11_bits, reg_bits}
use tamal.Abi.Isa.Instr
use tamal.Abi.Isa.Instr.{Instr, Reg, Imm11, Cfg6}
use tamal.Abi.Config.{
  Role, controller, target, IoMode, x1, x2, x4, Sck, sck20, sck33, sck50, sck66, AlertSource,
  alert_pin, alert_io1, Config, ConfigError, unsupported_role, unsupported_io_mode, unsupported_sck,
  pack, decode_config,
}
use tamal.Asm.Diagnostics.{
  Span, Message, Diagnostic, error, with_help, operand_count, expected_keyword, unknown_role,
  unknown_io_mode, unknown_sck, unknown_alert_source, unavailable_role, unavailable_io_mode,
  unavailable_sck, unsupported_instruction, unknown_instruction, linkage_help,
}
use tamal.Asm.Parser.{OperandKind, ident, num, Operand}
use tamal.Asm.Symbol.{SymbolTable}
use tamal.Asm.Encoder.Resolve.{
  codes, lower, same_codes, expect, reg_number, resolve_reg, resolve_sr, resolve_branch_target,
  field_u8, field_imm11, field_bitcount, field_tar4, field_amt5, field_imm21, field_load_imm,
  field_mark_tag, field_wait_cond, field_wait_timeout,
}
use tamal.Asm.Encoder.Li.{tile_li, li_value}
use tamal.Asm.Encoder.Args.{is_register, args0, args1, args2, args3}
use tamal.Asm.Encoder.SetConfig.{encode_set_config}
use tamal.Asm.Encoder.Forms.{Seq, rrr, rri, shift, branch, zero_reg}

-- The last arms of the `match` on the mnemonic: branches and pseudo-instructions.
unfoldable pub encode_pseudo : String → List Operand → Span → ℕ → SymbolTable → Seq
encode_pseudo mnemonic operands span addr syms =
    if str_eq mnemonic "beq"
    then branch operands span mnemonic addr syms Instr.beq
    else if str_eq mnemonic "bne"
    then branch operands span mnemonic addr syms Instr.bne
    else if str_eq mnemonic "bltu"
    then branch operands span mnemonic addr syms Instr.bltu
    else if str_eq mnemonic "bgeu"
    then branch operands span mnemonic addr syms Instr.bgeu
    else if str_eq mnemonic "nop"
    then (do
      args0 operands span mnemonic
      ok (Instr.addi zero_reg zero_reg (expect (new imm11_bits 0)) ∷ []))
    else if str_eq mnemonic "li"
    then (do
      (a, b) ← args2 operands span mnemonic
      rd ← resolve_reg a
      v ← li_value b syms
      ok (tile_li rd v))
    else if str_eq mnemonic "j"
    then (do
      a ← args1 operands span mnemonic
      off ← resolve_branch_target a addr syms
      ok (Instr.beq zero_reg zero_reg off ∷ []))
    else if str_eq mnemonic "beqz"
    then (do
      (a, b) ← args2 operands span mnemonic
      rs ← resolve_reg a
      off ← resolve_branch_target b addr syms
      ok (Instr.beq rs zero_reg off ∷ []))
    else if str_eq mnemonic "bnez"
    then (do
      (a, b) ← args2 operands span mnemonic
      rs ← resolve_reg a
      off ← resolve_branch_target b addr syms
      ok (Instr.bne rs zero_reg off ∷ []))
    else if str_eq mnemonic "la" || str_eq mnemonic "call" || str_eq mnemonic "ret"
    then err (with_help (error span (unsupported_instruction mnemonic)) linkage_help)
    else err (error span (unknown_instruction mnemonic))

-- The arms of the DATA group, then those after them.
unfoldable pub encode_data : String → List Operand → Span → ℕ → SymbolTable → Seq
encode_data mnemonic operands span addr syms =
    if str_eq mnemonic "load_imm"
    then (do
      (a, b) ← args2 operands span mnemonic
      r ← resolve_reg a
      v ← field_load_imm b syms
      ok (Instr.load_imm r v ∷ []))
    else if str_eq mnemonic "lui"
    then (do
      (a, b) ← args2 operands span mnemonic
      r ← resolve_reg a
      v ← field_imm21 b syms
      ok (Instr.lui r v ∷ []))
    else if str_eq mnemonic "mov" || str_eq mnemonic "mv"
    then (do
      (a, b) ← args2 operands span mnemonic
      rd ← resolve_reg a
      rs ← resolve_reg b
      ok (Instr.mov rd rs ∷ []))
    else if str_eq mnemonic "add"
    then rrr operands span mnemonic Instr.add
    else if str_eq mnemonic "sub"
    then rrr operands span mnemonic Instr.sub
    else if str_eq mnemonic "and"
    then rrr operands span mnemonic Instr.and
    else if str_eq mnemonic "or"
    then rrr operands span mnemonic Instr.or
    else if str_eq mnemonic "xor"
    then rrr operands span mnemonic Instr.xor
    else if str_eq mnemonic "addi"
    then rri operands span mnemonic syms Instr.addi
    else if str_eq mnemonic "andi"
    then rri operands span mnemonic syms Instr.andi
    else if str_eq mnemonic "ori"
    then rri operands span mnemonic syms Instr.ori
    else if str_eq mnemonic "xori"
    then rri operands span mnemonic syms Instr.xori
    else if str_eq mnemonic "sll"
    then shift operands span mnemonic syms sll
    else if str_eq mnemonic "srl"
    then shift operands span mnemonic syms srl
    else if str_eq mnemonic "sra"
    then shift operands span mnemonic syms sra
    else if str_eq mnemonic "rdsr"
    then (do
      (a, b) ← args2 operands span mnemonic
      r ← resolve_reg a
      sr ← resolve_sr b syms
      ok (Instr.rdsr r sr ∷ []))
    else encode_pseudo mnemonic operands span addr syms

-- The arms of the groups BUS and CTRL, then those after them.
unfoldable pub encode_line : String → List Operand → Span → ℕ → SymbolTable → Seq
encode_line mnemonic operands span addr syms =
    if str_eq mnemonic "cs_assert"
    then (do args0 operands span mnemonic; ok (Instr.cs_assert ∷ []))
    else if str_eq mnemonic "cs_deassert"
    then (do args0 operands span mnemonic; ok (Instr.cs_deassert ∷ []))
    else if str_eq mnemonic "rst_assert"
    then (do args0 operands span mnemonic; ok (Instr.rst_assert ∷ []))
    else if str_eq mnemonic "rst_deassert"
    then (do args0 operands span mnemonic; ok (Instr.rst_deassert ∷ []))
    else if str_eq mnemonic "crc_reset"
    then (do args0 operands span mnemonic; ok (Instr.crc_reset ∷ []))
    else if str_eq mnemonic "put_byte"
    then (do
      a ← args1 operands span mnemonic
      if is_register a
          then (do r ← resolve_reg a; ok (Instr.put_byte_reg r ∷ []))
          else (do v ← field_u8 a syms "byte"; ok (Instr.put_byte_imm v ∷ [])))
    else if str_eq mnemonic "get_byte"
    then (do a ← args1 operands span mnemonic; r ← resolve_reg a; ok (Instr.get_byte r ∷ []))
    else if str_eq mnemonic "put_bits"
    then (do
      (a, b) ← args2 operands span mnemonic
      if is_register a
          then (do r ← resolve_reg a; n ← field_bitcount b syms; ok (Instr.put_bits_reg r n ∷ []))
          else (do
            n ← field_bitcount a syms
            v ← field_u8 b syms "byte"
            ok (Instr.put_bits_imm n v ∷ [])))
    else if str_eq mnemonic "get_bits"
    then (do
      (a, b) ← args2 operands span mnemonic
      r ← resolve_reg a
      n ← field_bitcount b syms
      ok (Instr.get_bits r n ∷ []))
    else if str_eq mnemonic "tar"
    then (do
      a ← args1 operands span mnemonic
      if is_register a
          then (do r ← resolve_reg a; ok (Instr.tar_reg r ∷ []))
          else (do n ← field_tar4 a syms; ok (Instr.tar_imm n ∷ [])))
    else if str_eq mnemonic "get_alert"
    then (do a ← args1 operands span mnemonic; r ← resolve_reg a; ok (Instr.get_alert r ∷ []))
    else if str_eq mnemonic "halt"
    then (do
      a ← args1 operands span mnemonic
      v ← field_u8 a syms "halt status"
      ok (Instr.halt v ∷ []))
    else if str_eq mnemonic "wait_on"
    then (do
      (a, b, c) ← args3 operands span mnemonic
      r ← resolve_reg a
      cond ← field_wait_cond b syms
      timeout ← field_wait_timeout c syms
      ok (Instr.wait_on r cond timeout ∷ []))
    else if str_eq mnemonic "set_config"
    then (do i ← encode_set_config operands span; ok (i ∷ []))
    else if str_eq mnemonic "mark"
    then (do
      (a, b) ← args2 operands span mnemonic
      tag ← field_mark_tag a syms
      r ← resolve_reg b
      ok (Instr.mark tag r ∷ []))
    else encode_data mnemonic operands span addr syms
