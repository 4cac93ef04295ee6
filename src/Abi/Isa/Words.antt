-- ===== src/Abi/Isa/Words.antt =====
-- The range of instruction words.
use tamal.Base.{◌^◌, ◌<◌, List, [], ◌∷◌, All, IsU32, map}
use tamal.Abi.Isa.Layout.{join_word-lt}
use tamal.Abi.Isa.Encode.{encode}
use tamal.Abi.Isa.Instr.{
  Instr, cs_assert, cs_deassert, put_byte_imm, put_byte_reg, get_byte, put_bits_imm, put_bits_reg,
  get_bits, tar_imm, tar_reg, rst_assert, rst_deassert, get_alert, halt, beq, bne, bltu, bgeu,
  wait_on, set_config, mark, crc_reset, load_imm, lui, mov, add, addi, sub, and, andi, or, ori, xor,
  xori, shift, rdsr,
}

pub encode-lt : (i : Instr) → encode i < 2 ^ 32
unfolding encode
encode-lt cs_assert = join_word-lt _ _ _ _ _ _
encode-lt cs_deassert = join_word-lt _ _ _ _ _ _
encode-lt (put_byte_imm b) = join_word-lt _ _ _ _ _ _
encode-lt (put_byte_reg rs) = join_word-lt _ _ _ _ _ _
encode-lt (get_byte rd) = join_word-lt _ _ _ _ _ _
encode-lt (put_bits_imm n b) = join_word-lt _ _ _ _ _ _
encode-lt (put_bits_reg rs n) = join_word-lt _ _ _ _ _ _
encode-lt (get_bits rd n) = join_word-lt _ _ _ _ _ _
encode-lt (tar_imm n) = join_word-lt _ _ _ _ _ _
encode-lt (tar_reg rs) = join_word-lt _ _ _ _ _ _
encode-lt rst_assert = join_word-lt _ _ _ _ _ _
encode-lt rst_deassert = join_word-lt _ _ _ _ _ _
encode-lt (get_alert rd) = join_word-lt _ _ _ _ _ _
encode-lt (halt s) = join_word-lt _ _ _ _ _ _
encode-lt (beq a b off) = join_word-lt _ _ _ _ _ _
encode-lt (bne a b off) = join_word-lt _ _ _ _ _ _
encode-lt (bltu a b off) = join_word-lt _ _ _ _ _ _
encode-lt (bgeu a b off) = join_word-lt _ _ _ _ _ _
encode-lt (wait_on rd c t) = join_word-lt _ _ _ _ _ _
encode-lt (set_config p) = join_word-lt _ _ _ _ _ _
encode-lt (mark lbl rs) = join_word-lt _ _ _ _ _ _
encode-lt crc_reset = join_word-lt _ _ _ _ _ _
encode-lt (load_imm rd i) = join_word-lt _ _ _ _ _ _
encode-lt (lui rd i21) = join_word-lt _ _ _ _ _ _
encode-lt (mov rd rs) = join_word-lt _ _ _ _ _ _
encode-lt (add rd a b) = join_word-lt _ _ _ _ _ _
encode-lt (addi rd a i) = join_word-lt _ _ _ _ _ _
encode-lt (sub rd a b) = join_word-lt _ _ _ _ _ _
encode-lt (and rd a b) = join_word-lt _ _ _ _ _ _
encode-lt (andi rd a i) = join_word-lt _ _ _ _ _ _
encode-lt (or rd a b) = join_word-lt _ _ _ _ _ _
encode-lt (ori rd a i) = join_word-lt _ _ _ _ _ _
encode-lt (xor rd a b) = join_word-lt _ _ _ _ _ _
encode-lt (xori rd a i) = join_word-lt _ _ _ _ _ _
encode-lt (shift rd a op amt) = join_word-lt _ _ _ _ _ _
encode-lt (rdsr rd sr) = join_word-lt _ _ _ _ _ _

pub encode-IsU32 : (is : List Instr) → All IsU32 (map encode is)
encode-IsU32 [] = tt
encode-IsU32 (i ∷ is) = (encode-lt i, encode-IsU32 is)
