-- ===== src/Abi/Isa/Decode.antt =====
-- `Instr::decode` of crates/tamal-abi/src/isa.rs and its three groups.
use tamal.Base.{
  ℕ, Bool, ◌&&◌, ◌==◌, if◌then◌else◌, Option, none, some, Result, ok, err, bit_and, u8, ◌>>>◌,
}
use tamal.Abi.Isa.Operand.{
  ShiftOp, from_bits, bit_count_from_stored, shift_op_from_bits, reg_bits, imm11_bits, imm21_bits,
  tar4_bits, cfg6_bits, sr5_bits, amt5_bits, wait_cond_bits, wait_timeout_bits,
}
use tamal.Abi.Isa.Fields.{
  Fields, split_word, unpack_bits_imm, join_imm21, wait_unpack, shift_unpack,
}
use tamal.Abi.Isa.Instr.{
  Instr, DecodeError, reserved_field_non_zero, illegal_opcode, cs_assert, cs_deassert, put_byte_imm,
  put_byte_reg, get_byte, put_bits_imm, put_bits_reg, get_bits, tar_imm, tar_reg, rst_assert,
  rst_deassert, get_alert, halt, beq, bne, bltu, bgeu, wait_on, set_config, mark, crc_reset,
  load_imm, lui, mov, add, addi, sub, and, andi, or, ori, xor, xori, shift, rdsr,
}

-- Accepts `i` only where every reserved field is zero.
unfoldable pub only : Bool → Instr → Result Instr DecodeError
only reserved_zero i = if reserved_zero then ok i else err reserved_field_non_zero

unfoldable pub decode_bus : Fields → Result Instr DecodeError
decode_bus f =
    let (n3, byte) = unpack_bits_imm f.imm in
    let imm_hi8 = bit_and (f.imm >>> 8) 0x7 in
    let imm_hi4 = bit_and (f.imm >>> 4) 0x7F in
    if f.sub == 0x0
    then only (f.rd == 0 && f.rs1 == 0 && f.rs2 == 0 && f.imm == 0) cs_assert
    else if f.sub == 0x1
    then only (f.rd == 0 && f.rs1 == 0 && f.rs2 == 0 && f.imm == 0) cs_deassert
    else if f.sub == 0x2
    then only (f.rd == 0 && f.rs1 == 0 && f.rs2 == 0 && imm_hi8 == 0) (put_byte_imm byte)
    else if f.sub == 0x3
    then only (f.rd == 0 && f.rs2 == 0 && f.imm == 0) (put_byte_reg (from_bits reg_bits f.rs1))
    else if f.sub == 0x4
    then only (f.rs1 == 0 && f.rs2 == 0 && f.imm == 0) (get_byte (from_bits reg_bits f.rd))
    else if f.sub == 0x5
    then only (f.rd == 0 && f.rs1 == 0 && f.rs2 == 0) (put_bits_imm (bit_count_from_stored n3) byte)
    else if f.sub == 0x6
    then only (f.rd == 0 && f.rs2 == 0 && byte == 0)
        (put_bits_reg (from_bits reg_bits f.rs1) (bit_count_from_stored n3))
    else if f.sub == 0x7
    then only (f.rs1 == 0 && f.rs2 == 0 && byte == 0)
        (get_bits (from_bits reg_bits f.rd) (bit_count_from_stored n3))
    else if f.sub == 0x8
    then only (f.rd == 0 && f.rs1 == 0 && f.rs2 == 0 && imm_hi4 == 0)
        (tar_imm (from_bits tar4_bits (u8 (bit_and f.imm 0xF))))
    else if f.sub == 0x9
    then only (f.rd == 0 && f.rs2 == 0 && f.imm == 0) (tar_reg (from_bits reg_bits f.rs1))
    else if f.sub == 0xA
    then only (f.rd == 0 && f.rs1 == 0 && f.rs2 == 0 && f.imm == 0) rst_assert
    else if f.sub == 0xB
    then only (f.rd == 0 && f.rs1 == 0 && f.rs2 == 0 && f.imm == 0) rst_deassert
    else if f.sub == 0xC
    then only (f.rs1 == 0 && f.rs2 == 0 && f.imm == 0) (get_alert (from_bits reg_bits f.rd))
    else err illegal_opcode

unfoldable pub decode_ctrl : Fields → Result Instr DecodeError
decode_ctrl f =
    let (cond, timeout) = wait_unpack f.imm in
    let imm_hi8 = bit_and (f.imm >>> 8) 0x7 in
    let imm_hi6 = bit_and (f.imm >>> 6) 0x1F in
    if f.sub == 0x0
    then only (f.rd == 0 && f.rs1 == 0 && f.rs2 == 0 && imm_hi8 == 0)
        (halt (u8 (bit_and f.imm 0xFF)))
    else if f.sub == 0x1
    then only (f.rd == 0)
        (beq (from_bits reg_bits f.rs1) (from_bits reg_bits f.rs2) (from_bits imm11_bits f.imm))
    else if f.sub == 0x2
    then only (f.rd == 0)
        (bne (from_bits reg_bits f.rs1) (from_bits reg_bits f.rs2) (from_bits imm11_bits f.imm))
    else if f.sub == 0x3
    then only (f.rd == 0)
        (bltu (from_bits reg_bits f.rs1) (from_bits reg_bits f.rs2) (from_bits imm11_bits f.imm))
    else if f.sub == 0x4
    then only (f.rd == 0)
        (bgeu (from_bits reg_bits f.rs1) (from_bits reg_bits f.rs2) (from_bits imm11_bits f.imm))
    else if f.sub == 0x5
    then only (f.rs1 == 0 && f.rs2 == 0) (
        wait_on (from_bits reg_bits f.rd) (from_bits wait_cond_bits cond)
          (from_bits wait_timeout_bits timeout))
    else if f.sub == 0x6
    then only (f.rd == 0 && f.rs1 == 0 && f.rs2 == 0 && imm_hi6 == 0)
        (set_config (from_bits cfg6_bits (u8 (bit_and f.imm 0x3F))))
    else if f.sub == 0x7
    then only (f.rd == 0 && f.rs2 == 0)
        (mark (from_bits imm11_bits f.imm) (from_bits reg_bits f.rs1))
    else if f.sub == 0x8
    then only (f.rd == 0 && f.rs1 == 0 && f.rs2 == 0 && f.imm == 0) crc_reset
    else err illegal_opcode

-- The arm of `SHIFT`: `Some(op) if rs2 == 0 && sh_mid == 0`, else a reserved field.
unfoldable pub decode_shift : Fields → Option ShiftOp → Bool → ℕ → Result Instr DecodeError
decode_shift f none reserved_zero sh_amt = err reserved_field_non_zero
decode_shift f (some op) reserved_zero sh_amt =
    if reserved_zero
    then ok
        (shift (from_bits reg_bits f.rd) (from_bits reg_bits f.rs1) op (from_bits amt5_bits sh_amt))
    else err reserved_field_non_zero

unfoldable pub decode_data : Fields → Result Instr DecodeError
decode_data f =
    let i21 = join_imm21 f.rs1 f.rs2 f.imm in
    let (sh_op, sh_mid, sh_amt) = shift_unpack f.imm in
    let imm_hi5 = bit_and (f.imm >>> 5) 0x3F in
    if f.sub == 0x0
    then ok (load_imm (from_bits reg_bits f.rd) (from_bits imm21_bits i21))
    else if f.sub == 0x1
    then ok (lui (from_bits reg_bits f.rd) (from_bits imm21_bits i21))
    else if f.sub == 0x2
    then only (f.rs2 == 0 && f.imm == 0) (mov (from_bits reg_bits f.rd) (from_bits reg_bits f.rs1))
    else if f.sub == 0x3
    then only (f.imm == 0)
        (add (from_bits reg_bits f.rd) (from_bits reg_bits f.rs1) (from_bits reg_bits f.rs2))
    else if f.sub == 0x4
    then only (f.rs2 == 0)
        (addi (from_bits reg_bits f.rd) (from_bits reg_bits f.rs1) (from_bits imm11_bits f.imm))
    else if f.sub == 0x5
    then only (f.imm == 0)
        (sub (from_bits reg_bits f.rd) (from_bits reg_bits f.rs1) (from_bits reg_bits f.rs2))
    else if f.sub == 0x6
    then only (f.imm == 0)
        (and (from_bits reg_bits f.rd) (from_bits reg_bits f.rs1) (from_bits reg_bits f.rs2))
    else if f.sub == 0x7
    then only (f.rs2 == 0)
        (andi (from_bits reg_bits f.rd) (from_bits reg_bits f.rs1) (from_bits imm11_bits f.imm))
    else if f.sub == 0x8
    then only (f.imm == 0)
        (or (from_bits reg_bits f.rd) (from_bits reg_bits f.rs1) (from_bits reg_bits f.rs2))
    else if f.sub == 0x9
    then only (f.rs2 == 0)
        (ori (from_bits reg_bits f.rd) (from_bits reg_bits f.rs1) (from_bits imm11_bits f.imm))
    else if f.sub == 0xA
    then only (f.imm == 0)
        (xor (from_bits reg_bits f.rd) (from_bits reg_bits f.rs1) (from_bits reg_bits f.rs2))
    else if f.sub == 0xB
    then only (f.rs2 == 0)
        (xori (from_bits reg_bits f.rd) (from_bits reg_bits f.rs1) (from_bits imm11_bits f.imm))
    else if f.sub == 0xC
    then decode_shift f (shift_op_from_bits sh_op) (f.rs2 == 0 && sh_mid == 0) sh_amt
    else if f.sub == 0xD
    then only (f.rs1 == 0 && f.rs2 == 0 && imm_hi5 == 0)
        (rdsr (from_bits reg_bits f.rd) (from_bits sr5_bits (u8 (bit_and f.imm 0x1F))))
    else err illegal_opcode

unfoldable pub decode_fields : Fields → Result Instr DecodeError
decode_fields f =
    if f.group == 0b00
    then decode_bus f
    else if f.group == 0b01
    then decode_ctrl f
    else if f.group == 0b10
    then decode_data f
    else err illegal_opcode

unfoldable pub decode : ℕ → Result Instr DecodeError
decode w = decode_fields (split_word w)
