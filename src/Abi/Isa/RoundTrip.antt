-- ===== src/Abi/Isa/RoundTrip.antt =====
-- `decode` on the words that `encode` writes.
use tamal.Base.{ℕ, ◌+◌, ◌*◌, ◌/◌, ◌%◌, ◌≡◌, ◌∙◌, ap, arith, ok, u16}
use tamal.Base.Bits.{bit_and_mask}
use tamal.Abi.Isa.Operand.{shift_op_bits}
use tamal.Abi.Isa.Fields.{join_word}
use tamal.Abi.Isa.Layout.{InRange, fields, split-join}
use tamal.Abi.Isa.Packing.{
  from_bits-Fits, bit_count-Fits, pack_bits_imm-sum, unpack_bits_imm-parts, split_imm21-parts,
  join_imm21-sum, wait_pack-sum, wait_unpack-parts, shift_pack-sum, shift_unpack-parts,
  shift_op-bits_inverse,
}
use tamal.Abi.Isa.Encode.{encode}
use tamal.Abi.Isa.Decode.{
  decode, decode_fields, decode_bus, decode_ctrl, decode_data, decode_shift, only,
}
use tamal.Abi.Isa.Instr.{
  Instr, IsValid, cs_assert, cs_deassert, put_byte_imm, put_byte_reg, get_byte, put_bits_imm,
  put_bits_reg, get_bits, tar_imm, tar_reg, rst_assert, rst_deassert, get_alert, halt, beq, bne,
  bltu, bgeu, wait_on, set_config, mark, crc_reset, load_imm, lui, mov, add, addi, sub, and, andi,
  or, ori, xor, xori, shift, rdsr,
}

decode-join :
    (g s d a b i : ℕ)
    → InRange g s d a b i
    → decode (join_word g s d a b i) ≡ decode_fields (fields g s d a b i)
unfolding decode
decode-join g s d a b i h = ap decode_fields (split-join g s d a b i h)

-- Decoding the word of any instruction with operands in range gives the instruction back.
pub decode-encode : (i : Instr) → IsValid i → decode (encode i) ≡ ok i
unfolding encode decode_fields decode_bus decode_ctrl decode_data decode_shift only
decode-encode cs_assert h = decode-join 0b00 0x0 0 0 0 0 (omega arith) ∙ ground (arith)
decode-encode cs_deassert h = decode-join 0b00 0x1 0 0 0 0 (omega arith) ∙ ground (arith)
decode-encode (put_byte_imm b) h =
    decode-join 0b00 0x2 0 0 0 (u16 b) (omega arith)
    ∙ ground (arith, bit_and_mask 3 (b / 256), unpack_bits_imm-parts b)
decode-encode (put_byte_reg rs) h =
    decode-join 0b00 0x3 0 rs 0 0 (omega arith) ∙ ground (arith, from_bits-Fits 5 rs)
decode-encode (get_byte rd) h =
    decode-join 0b00 0x4 rd 0 0 0 (omega arith) ∙ ground (arith, from_bits-Fits 5 rd)
decode-encode (put_bits_imm n b) h = rw (pack_bits_imm-sum n b (omega arith) (omega arith)) (
    decode-join 0b00 0x5 0 0 0 (n * 256 + b) (omega arith)
    ∙ ground (arith, unpack_bits_imm-parts (n * 256 + b), bit_count-Fits n))
decode-encode (put_bits_reg rs n) h = rw (pack_bits_imm-sum n 0 (omega arith) (omega arith)) (
    decode-join 0b00 0x6 0 rs 0 (n * 256 + 0) (omega arith)
    ∙ ground (arith, from_bits-Fits 5 rs, unpack_bits_imm-parts (n * 256 + 0), bit_count-Fits n))
decode-encode (get_bits rd n) h = rw (pack_bits_imm-sum n 0 (omega arith) (omega arith)) (
    decode-join 0b00 0x7 rd 0 0 (n * 256 + 0) (omega arith)
    ∙ ground (arith, from_bits-Fits 5 rd, unpack_bits_imm-parts (n * 256 + 0), bit_count-Fits n))
decode-encode (tar_imm n) h =
    decode-join 0b00 0x8 0 0 0 (u16 n) (omega arith)
    ∙ ground (arith, bit_and_mask 7 (n / 16), bit_and_mask 4 n, from_bits-Fits 4 n)
decode-encode (tar_reg rs) h =
    decode-join 0b00 0x9 0 rs 0 0 (omega arith) ∙ ground (arith, from_bits-Fits 5 rs)
decode-encode rst_assert h = decode-join 0b00 0xA 0 0 0 0 (omega arith) ∙ ground (arith)
decode-encode rst_deassert h = decode-join 0b00 0xB 0 0 0 0 (omega arith) ∙ ground (arith)
decode-encode (get_alert rd) h =
    decode-join 0b00 0xC rd 0 0 0 (omega arith) ∙ ground (arith, from_bits-Fits 5 rd)
decode-encode (halt s) h =
    decode-join 0b01 0x0 0 0 0 (u16 s) (omega arith)
    ∙ ground (arith, bit_and_mask 3 (s / 256), bit_and_mask 8 s)
decode-encode (beq a b off) h =
    decode-join 0b01 0x1 0 a b off (omega arith)
    ∙ ground (arith, from_bits-Fits 5 a, from_bits-Fits 5 b, from_bits-Fits 11 off)
decode-encode (bne a b off) h =
    decode-join 0b01 0x2 0 a b off (omega arith)
    ∙ ground (arith, from_bits-Fits 5 a, from_bits-Fits 5 b, from_bits-Fits 11 off)
decode-encode (bltu a b off) h =
    decode-join 0b01 0x3 0 a b off (omega arith)
    ∙ ground (arith, from_bits-Fits 5 a, from_bits-Fits 5 b, from_bits-Fits 11 off)
decode-encode (bgeu a b off) h =
    decode-join 0b01 0x4 0 a b off (omega arith)
    ∙ ground (arith, from_bits-Fits 5 a, from_bits-Fits 5 b, from_bits-Fits 11 off)
decode-encode (wait_on rd c t) h = rw (wait_pack-sum c t (omega arith) (omega arith)) (
    decode-join 0b01 0x5 rd 0 0 (c * 512 + t) (omega arith)
    ∙ ground (
      arith,
      from_bits-Fits 5 rd,
      wait_unpack-parts (c * 512 + t),
      from_bits-Fits 2 c,
      from_bits-Fits 9 t,
    ))
decode-encode (set_config p) h =
    decode-join 0b01 0x6 0 0 0 (u16 p) (omega arith)
    ∙ ground (arith, bit_and_mask 5 (p / 64), bit_and_mask 6 p, from_bits-Fits 6 p)
decode-encode (mark lbl rs) h =
    decode-join 0b01 0x7 0 rs 0 lbl (omega arith)
    ∙ ground (arith, from_bits-Fits 11 lbl, from_bits-Fits 5 rs)
decode-encode crc_reset h = decode-join 0b01 0x8 0 0 0 0 (omega arith) ∙ ground (arith)
decode-encode (load_imm rd i) h = rw (split_imm21-parts i) (
    decode-join 0b10 0x0 rd (i / 65536 % 32) (i / 2048 % 32) (i % 2048) (omega arith)
    ∙ ground (
      arith,
      from_bits-Fits 5 rd,
      from_bits-Fits 21 i,
      join_imm21-sum (i / 65536 % 32) (i / 2048 % 32) (i % 2048),
    ))
decode-encode (lui rd i21) h = rw (split_imm21-parts i21) (
    decode-join 0b10 0x1 rd (i21 / 65536 % 32) (i21 / 2048 % 32) (i21 % 2048) (omega arith)
    ∙ ground (
      arith,
      from_bits-Fits 5 rd,
      from_bits-Fits 21 i21,
      join_imm21-sum (i21 / 65536 % 32) (i21 / 2048 % 32) (i21 % 2048),
    ))
decode-encode (mov rd rs) h =
    decode-join 0b10 0x2 rd rs 0 0 (omega arith)
    ∙ ground (arith, from_bits-Fits 5 rd, from_bits-Fits 5 rs)
decode-encode (add rd a b) h =
    decode-join 0b10 0x3 rd a b 0 (omega arith)
    ∙ ground (arith, from_bits-Fits 5 rd, from_bits-Fits 5 a, from_bits-Fits 5 b)
decode-encode (addi rd a i) h =
    decode-join 0b10 0x4 rd a 0 i (omega arith)
    ∙ ground (arith, from_bits-Fits 5 rd, from_bits-Fits 5 a, from_bits-Fits 11 i)
decode-encode (sub rd a b) h =
    decode-join 0b10 0x5 rd a b 0 (omega arith)
    ∙ ground (arith, from_bits-Fits 5 rd, from_bits-Fits 5 a, from_bits-Fits 5 b)
decode-encode (and rd a b) h =
    decode-join 0b10 0x6 rd a b 0 (omega arith)
    ∙ ground (arith, from_bits-Fits 5 rd, from_bits-Fits 5 a, from_bits-Fits 5 b)
decode-encode (andi rd a i) h =
    decode-join 0b10 0x7 rd a 0 i (omega arith)
    ∙ ground (arith, from_bits-Fits 5 rd, from_bits-Fits 5 a, from_bits-Fits 11 i)
decode-encode (or rd a b) h =
    decode-join 0b10 0x8 rd a b 0 (omega arith)
    ∙ ground (arith, from_bits-Fits 5 rd, from_bits-Fits 5 a, from_bits-Fits 5 b)
decode-encode (ori rd a i) h =
    decode-join 0b10 0x9 rd a 0 i (omega arith)
    ∙ ground (arith, from_bits-Fits 5 rd, from_bits-Fits 5 a, from_bits-Fits 11 i)
decode-encode (xor rd a b) h =
    decode-join 0b10 0xA rd a b 0 (omega arith)
    ∙ ground (arith, from_bits-Fits 5 rd, from_bits-Fits 5 a, from_bits-Fits 5 b)
decode-encode (xori rd a i) h =
    decode-join 0b10 0xB rd a 0 i (omega arith)
    ∙ ground (arith, from_bits-Fits 5 rd, from_bits-Fits 5 a, from_bits-Fits 11 i)
decode-encode (shift rd a op amt) h =
    rw (shift_pack-sum (shift_op_bits op) amt ((shift_op-bits_inverse op).0) (omega arith)) (
      decode-join 0b10 0xC rd a 0 (shift_op_bits op * 512 + amt)
        (omega (arith, shift_op-bits_inverse op))
      ∙ ground (
        arith,
        from_bits-Fits 5 rd,
        from_bits-Fits 5 a,
        shift_unpack-parts (shift_op_bits op * 512 + amt),
        shift_op-bits_inverse op,
        from_bits-Fits 5 amt,
      ))
decode-encode (rdsr rd sr) h =
    decode-join 0b10 0xD rd 0 0 (u16 sr) (omega arith)
    ∙ ground (
      arith,
      from_bits-Fits 5 rd,
      bit_and_mask 6 (sr / 32),
      bit_and_mask 5 sr,
      from_bits-Fits 5 sr,
    )
