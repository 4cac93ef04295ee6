-- ===== src/Abi/Crc8.antt =====
-- crates/tamal-abi/src/crc8.rs: CRC-8 with polynomial 0x07, initial value 0, most significant bit
-- first, no reflection and no final XOR.
pub mod Detection
use tamal.Base.{
  ℕ, zero, suc, List, [], ◌∷◌, bit_and, bit_xor, u8, ◌<<<◌, ◌>>>◌, ◌==◌, if◌then◌else◌,
}

-- One round of the loop, on bit `i` of the byte.
unfoldable pub crc8_round : ℕ → ℕ → ℕ → ℕ
crc8_round c byte i =
    let feedback = bit_xor (bit_and (c >>> 7) 1) (bit_and (byte >>> i) 1) in
    let shifted = u8 (c <<< 1) in if feedback == 1 then bit_xor shifted 0x07 else shifted

-- The rounds that are left, for bits `n - 1` down to 0.
unfoldable pub crc8_rounds : ℕ → ℕ → ℕ → ℕ
crc8_rounds zero c byte = c
crc8_rounds (suc i) c byte = crc8_rounds i (crc8_round c byte i) byte

unfoldable pub crc8_update : ℕ → ℕ → ℕ
crc8_update crc byte = crc8_rounds 8 crc byte

-- The `fold` over a slice, from the running value `c`.
unfoldable pub crc8_from : ℕ → List ℕ → ℕ
crc8_from c [] = c
crc8_from c (b ∷ bytes) = crc8_from (crc8_update c b) bytes

unfoldable pub crc8 : List ℕ → ℕ
crc8 bytes = crc8_from 0 bytes
