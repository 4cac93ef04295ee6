-- ===== src/Abi/Isa/Fields.antt =====
-- The six raw fields of an instruction word in crates/tamal-abi/src/isa.rs, and the packings of the
-- immediate field.
use tamal.Base.{ℕ, bit_and, bit_or, u8, u16, shl16, shl32, ◌>>>◌}

pub record Fields : Type 0 where
  pub group : ℕ
  pub sub : ℕ
  pub rd : ℕ
  pub rs1 : ℕ
  pub rs2 : ℕ
  pub imm : ℕ

unfoldable pub split_word : ℕ → Fields
split_word w = record {
  group = u8 (bit_and (w >>> 30) 0x3);
  sub = u8 (bit_and (w >>> 26) 0xf);
  rd = u8 (bit_and (w >>> 21) 0x1f);
  rs1 = u8 (bit_and (w >>> 16) 0x1f);
  rs2 = u8 (bit_and (w >>> 11) 0x1f);
  imm = u16 (bit_and w 0x7ff);
}

infixl 60 ◌or◌
abbrev ◌or◌ : ℕ → ℕ → ℕ
a or b = bit_or a b

unfoldable pub join_word : ℕ → ℕ → ℕ → ℕ → ℕ → ℕ → ℕ
join_word group sub rd rs1 rs2 imm =
    shl32 (bit_and group 0x3) 30
    or shl32 (bit_and sub 0xf) 26
    or shl32 (bit_and rd 0x1f) 21
    or shl32 (bit_and rs1 0x1f) 16
    or shl32 (bit_and rs2 0x1f) 11
    or bit_and imm 0x7ff

unfoldable pub pack_bits_imm : ℕ → ℕ → ℕ
pack_bits_imm n_minus_1 byte = bit_or (shl16 (bit_and n_minus_1 0x7) 8) byte

unfoldable pub unpack_bits_imm : ℕ → ℕ × ℕ
unpack_bits_imm imm = (u8 (bit_and (imm >>> 8) 0x7), u8 (bit_and imm 0xff))

unfoldable pub split_imm21 : ℕ → ℕ × ℕ × ℕ
split_imm21 i21 =
    (u8 (bit_and (i21 >>> 16) 0x1f), u8 (bit_and (i21 >>> 11) 0x1f), u16 (bit_and i21 0x7ff))

unfoldable pub join_imm21 : ℕ → ℕ → ℕ → ℕ
join_imm21 rs1 rs2 imm =
    shl32 (bit_and rs1 0x1f) 16 or shl32 (bit_and rs2 0x1f) 11 or bit_and imm 0x7ff

unfoldable pub wait_pack : ℕ → ℕ → ℕ
wait_pack cond timeout = bit_or (shl16 (bit_and cond 0x3) 9) (bit_and timeout 0x1ff)

unfoldable pub wait_unpack : ℕ → ℕ × ℕ
wait_unpack imm = (u8 (bit_and (imm >>> 9) 0x3), bit_and imm 0x1ff)

unfoldable pub shift_pack : ℕ → ℕ → ℕ
shift_pack op amt = bit_or (shl16 (bit_and op 0x3) 9) (bit_and amt 0x1f)

unfoldable pub shift_unpack : ℕ → ℕ × ℕ × ℕ
shift_unpack imm =
    (u8 (bit_and (imm >>> 9) 0x3), u8 (bit_and (imm >>> 5) 0xf), u8 (bit_and imm 0x1f))
