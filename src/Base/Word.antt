-- ===== src/Base/Word.antt =====
-- Machine words: casts to the fixed widths, shifts, and the ranges of the types.
use Prim.Native.Nat.{ℕ, ◌*◌, ◌/◌, ◌%◌, ◌^◌, ◌<◌}

abbrev pub u8 : ℕ → ℕ
u8 n = n % 2 ^ 8

abbrev pub u16 : ℕ → ℕ
u16 n = n % 2 ^ 16

abbrev pub u32 : ℕ → ℕ
u32 n = n % 2 ^ 32

-- `x << k` before it is cut to its width, and `x >> k`.
infixl 75 ◌<<<◌ ◌>>>◌
abbrev pub ◌<<<◌ : ℕ → ℕ → ℕ
x <<< k = x * 2 ^ k

abbrev pub ◌>>>◌ : ℕ → ℕ → ℕ
x >>> k = x / 2 ^ k

abbrev pub IsByte : ℕ → Type 0
IsByte b = b < 256

abbrev pub IsU32 : ℕ → Type 0
IsU32 w = w < 2 ^ 32

-- `x << k` on a `u16` and on a `u32`, which loses the bits that leave the word.
abbrev pub shl16 : ℕ → ℕ → ℕ
shl16 x k = u16 (x <<< k)

abbrev pub shl32 : ℕ → ℕ → ℕ
shl32 x k = u32 (x <<< k)

-- `x << k` on a `u8`.
abbrev pub shl8 : ℕ → ℕ → ℕ
shl8 x k = u8 (x <<< k)
