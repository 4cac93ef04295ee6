-- ===== src/Abi/Isa/Encode.antt =====
-- `Instr::encode` and `program_to_le_bytes` of crates/tamal-abi/src/isa.rs.
use tamal.Base.{ℕ, List, [], ◌∷◌, ◌++◌, u8, u16, ◌>>>◌}
use tamal.Abi.Isa.Operand.{shift_op_bits}
use tamal.Abi.Isa.Fields.{join_word, pack_bits_imm, split_imm21, wait_pack, shift_pack}
use tamal.Abi.Isa.Instr.{
  Instr, cs_assert, cs_deassert, put_byte_imm, put_byte_reg, get_byte, put_bits_imm, put_bits_reg,
  get_bits, tar_imm, tar_reg, rst_assert, rst_deassert, get_alert, halt, beq, bne, bltu, bgeu,
  wait_on, set_config, mark, crc_reset, load_imm, lui, mov, add, addi, sub, and, andi, or, ori, xor,
  xori, shift, rdsr,
}

unfoldable pub encode : Instr → ℕ
encode cs_assert = join_word 0b00 0x0 0 0 0 0
encode cs_deassert = join_word 0b00 0x1 0 0 0 0
encode (put_byte_imm b) = join_word 0b00 0x2 0 0 0 (u16 b)
encode (put_byte_reg rs) = join_word 0b00 0x3 0 rs 0 0
encode (get_byte rd) = join_word 0b00 0x4 rd 0 0 0
encode (put_bits_imm n b) = join_word 0b00 0x5 0 0 0 (pack_bits_imm n b)
encode (put_bits_reg rs n) = join_word 0b00 0x6 0 rs 0 (pack_bits_imm n 0)
encode (get_bits rd n) = join_word 0b00 0x7 rd 0 0 (pack_bits_imm n 0)
encode (tar_imm n) = join_word 0b00 0x8 0 0 0 (u16 n)
encode (tar_reg rs) = join_word 0b00 0x9 0 rs 0 0
encode rst_assert = join_word 0b00 0xA 0 0 0 0
encode rst_deassert = join_word 0b00 0xB 0 0 0 0
encode (get_alert rd) = join_word 0b00 0xC rd 0 0 0
encode (halt s) = join_word 0b01 0x0 0 0 0 (u16 s)
encode (beq a b off) = join_word 0b01 0x1 0 a b off
encode (bne a b off) = join_word 0b01 0x2 0 a b off
encode (bltu a b off) = join_word 0b01 0x3 0 a b off
encode (bgeu a b off) = join_word 0b01 0x4 0 a b off
encode (wait_on rd c t) = join_word 0b01 0x5 rd 0 0 (wait_pack c t)
encode (set_config p) = join_word 0b01 0x6 0 0 0 (u16 p)
encode (mark lbl rs) = join_word 0b01 0x7 0 rs 0 lbl
encode crc_reset = join_word 0b01 0x8 0 0 0 0
encode (load_imm rd i) = let (rs1, rs2, imm) = split_imm21 i in join_word 0b10 0x0 rd rs1 rs2 imm
encode (lui rd i21) = let (rs1, rs2, imm) = split_imm21 i21 in join_word 0b10 0x1 rd rs1 rs2 imm
encode (mov rd rs) = join_word 0b10 0x2 rd rs 0 0
encode (add rd a b) = join_word 0b10 0x3 rd a b 0
encode (addi rd a i) = join_word 0b10 0x4 rd a 0 i
encode (sub rd a b) = join_word 0b10 0x5 rd a b 0
encode (and rd a b) = join_word 0b10 0x6 rd a b 0
encode (andi rd a i) = join_word 0b10 0x7 rd a 0 i
encode (or rd a b) = join_word 0b10 0x8 rd a b 0
encode (ori rd a i) = join_word 0b10 0x9 rd a 0 i
encode (xor rd a b) = join_word 0b10 0xA rd a b 0
encode (xori rd a i) = join_word 0b10 0xB rd a 0 i
encode (shift rd a op amt) = join_word 0b10 0xC rd a 0 (shift_pack (shift_op_bits op) amt)
encode (rdsr rd sr) = join_word 0b10 0xD rd 0 0 (u16 sr)

-- `u32::to_le_bytes`
unfoldable pub to_le_bytes : ℕ → List ℕ
to_le_bytes w = u8 w ∷ u8 (w >>> 8) ∷ u8 (w >>> 16) ∷ u8 (w >>> 24) ∷ []

unfoldable pub program_to_le_bytes : List Instr → List ℕ
program_to_le_bytes [] = []
program_to_le_bytes (instr ∷ program) = to_le_bytes (encode instr) ++ program_to_le_bytes program
