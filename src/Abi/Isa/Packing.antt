-- ===== src/Abi/Isa/Packing.antt =====
-- The operand newtypes and the packings of the immediate field in plain arithmetic.
use tamal.Base.{ℕ, ◌+◌, ◌*◌, ◌/◌, ◌%◌, ◌^◌, ◌<◌, ◌≡◌, refl, ◌∙◌, arith, some, bit_or}
use tamal.Base.Bits.{bit_and_mask, bit_or_field}
use tamal.Abi.Isa.Operand.{
  from_bits, Fits, bit_count_from_stored, shift_op_bits, shift_op_from_bits, ShiftOp, sll, srl, sra,
}
use tamal.Abi.Isa.Fields.{
  pack_bits_imm, unpack_bits_imm, split_imm21, join_imm21, wait_pack, wait_unpack, shift_pack,
  shift_unpack,
}
use native.Mathlib.Nat.{mod-eq_of_lt}

pub from_bits-mod : (k v : ℕ) → from_bits k v ≡ v % 2 ^ k
unfolding from_bits
from_bits-mod k v = bit_and_mask k v

pub from_bits-Fits : (k v : ℕ) → Fits k v → from_bits k v ≡ v
from_bits-Fits k v h = from_bits-mod k v ∙ mod-eq_of_lt h

pub bit_count-Fits : (n : ℕ) → Fits 3 n → bit_count_from_stored n ≡ n
unfolding bit_count_from_stored
bit_count-Fits n h = bit_and_mask 3 n ∙ omega arith

pub pack_bits_imm-sum : (n b : ℕ) → n < 8 → b < 256 → pack_bits_imm n b ≡ n * 256 + b
unfolding pack_bits_imm
pack_bits_imm-sum n b hn hb =
    rw (bit_and_mask 3 n)
      (bit_or_field 8 (n % 8 * 2 ^ 8 % 2 ^ 16) n b b (omega arith) refl hb ∙ omega arith)

pub unpack_bits_imm-parts : (i : ℕ) → unpack_bits_imm i ≡ (i / 256 % 8, i % 256)
unfolding unpack_bits_imm
unpack_bits_imm-parts i = ground (arith, bit_and_mask 3 (i / 256), bit_and_mask 8 i)

pub split_imm21-parts : (i : ℕ) → split_imm21 i ≡ (i / 65536 % 32, i / 2048 % 32, i % 2048)
unfolding split_imm21
split_imm21-parts i =
    ground (arith, bit_and_mask 5 (i / 65536), bit_and_mask 5 (i / 2048), bit_and_mask 11 i)

pub join_imm21-sum :
    (a b i : ℕ) → a < 32 → b < 32 → i < 2048 → join_imm21 a b i ≡ a * 65536 + b * 2048 + i
unfolding join_imm21
join_imm21-sum a b i ha hb hi =
    rw (bit_and_mask 5 a, bit_and_mask 5 b, bit_and_mask 11 i)
      (bit_or_field 11 _ (a * 32 + b) (i % 2048) i (omega (arith, high)) (omega arith) hi
        ∙ omega arith)
  where
    high : bit_or (a % 32 * 2 ^ 16 % 2 ^ 32) (b % 32 * 2 ^ 11 % 2 ^ 32) ≡ a * 2 ^ 16 + b * 2 ^ 11
    high =
        bit_or_field 16 (a % 32 * 2 ^ 16 % 2 ^ 32) a _ (b * 2 ^ 11) (omega arith) (omega arith)
          (omega arith)

pub wait_pack-sum : (c t : ℕ) → c < 4 → t < 512 → wait_pack c t ≡ c * 512 + t
unfolding wait_pack
wait_pack-sum c t hc ht =
    rw (bit_and_mask 2 c, bit_and_mask 9 t)
      (bit_or_field 9 (c % 4 * 2 ^ 9 % 2 ^ 16) c (t % 512) t (omega arith) (omega arith) ht
        ∙ omega arith)

pub wait_unpack-parts : (i : ℕ) → wait_unpack i ≡ (i / 512 % 4, i % 512)
unfolding wait_unpack
wait_unpack-parts i = ground (arith, bit_and_mask 2 (i / 512), bit_and_mask 9 i)

pub shift_pack-sum : (o t : ℕ) → o < 4 → t < 32 → shift_pack o t ≡ o * 512 + t
unfolding shift_pack
shift_pack-sum o t ho ht =
    rw (bit_and_mask 2 o, bit_and_mask 5 t)
      (bit_or_field 9 (o % 4 * 2 ^ 9 % 2 ^ 16) o (t % 32) t (omega arith) (omega arith)
          (omega arith)
        ∙ omega arith)

pub shift_unpack-parts : (i : ℕ) → shift_unpack i ≡ (i / 512 % 4, i / 32 % 16, i % 32)
unfolding shift_unpack
shift_unpack-parts i =
    ground (arith, bit_and_mask 2 (i / 512), bit_and_mask 4 (i / 32), bit_and_mask 5 i)

pub shift_op-bits_inverse :
    (op : ShiftOp) → (shift_op_bits op < 4) × (shift_op_from_bits (shift_op_bits op) ≡ some op)
unfolding shift_op_bits shift_op_from_bits
shift_op-bits_inverse sll = (omega arith, refl)
shift_op-bits_inverse srl = (omega arith, refl)
shift_op-bits_inverse sra = (omega arith, refl)
