-- ===== src/Abi/Isa/Operand.antt =====
-- The operand newtypes of crates/tamal-abi/src/isa.rs. A newtype over an unsigned integer is that
-- integer; the macro `bounded!` gives each a width, and its three functions take the width here.
use tamal.Base.{ℕ, ◌+◌, ◌-◌, ◌^◌, ◌<◌, Option, none, some, ◌&&◌, leb, ◌==◌, if◌then◌else◌}
use tamal.Base.{bit_and, u8}

abbrev pub max_value : ℕ → ℕ
max_value bits = 2 ^ bits - 1

unfoldable pub new : ℕ → ℕ → Option ℕ
new bits v = if leb v (max_value bits) then some v else none

unfoldable pub from_bits : ℕ → ℕ → ℕ
from_bits bits v = bit_and v (max_value bits)

-- The widths of the nine newtypes that the macro declares.
abbrev pub reg_bits : ℕ
reg_bits = 5

abbrev pub imm11_bits : ℕ
imm11_bits = 11

abbrev pub imm21_bits : ℕ
imm21_bits = 21

abbrev pub tar4_bits : ℕ
tar4_bits = 4

abbrev pub cfg6_bits : ℕ
cfg6_bits = 6

abbrev pub sr5_bits : ℕ
sr5_bits = 5

abbrev pub amt5_bits : ℕ
amt5_bits = 5

abbrev pub wait_cond_bits : ℕ
wait_cond_bits = 2

abbrev pub wait_timeout_bits : ℕ
wait_timeout_bits = 9

-- What `new` guarantees of its result.
abbrev pub Fits : ℕ → ℕ → Type 0
Fits bits v = v < 2 ^ bits

-- A bit count 1 to 8, held as the count less one.
abbrev pub BitCount : Type 0
BitCount = ℕ

unfoldable pub bit_count_new : ℕ → Option BitCount
bit_count_new count = if leb 1 count && leb count 8 then some (count - 1) else none

unfoldable pub bit_count_count : BitCount → ℕ
bit_count_count n = u8 (n + 1)

unfoldable pub bit_count_from_stored : ℕ → BitCount
bit_count_from_stored s = bit_and s 0x7

pub data ShiftOp : Type 0 where
  sll srl sra : ShiftOp

unfoldable pub shift_op_bits : ShiftOp → ℕ
shift_op_bits sll = 0b00
shift_op_bits srl = 0b01
shift_op_bits sra = 0b10

unfoldable pub shift_op_from_bits : ℕ → Option ShiftOp
shift_op_from_bits v =
    let two = bit_and v 0x3 in
    if two == 0b00
    then some sll
    else if two == 0b01
    then some srl
    else if two == 0b10
    then some sra
    else none
