-- ===== src/Abi/Isa/Layout.antt =====
-- The bit layout of an instruction word in plain arithmetic.
use tamal.Base.{ℕ, ◌+◌, ◌*◌, ◌/◌, ◌%◌, ◌^◌, ◌<◌, ◌≡◌, refl, ◌∙◌, arith, bit_or, shl32}
use tamal.Base.Bits.{bit_and_mask, bit_or_field}
use tamal.Abi.Isa.Fields.{Fields, split_word, join_word}

-- Six numbers at the places of the fields.
abbrev pub joined : ℕ → ℕ → ℕ → ℕ → ℕ → ℕ → ℕ
joined g s d a b i = g * 2 ^ 30 + s * 2 ^ 26 + d * 2 ^ 21 + a * 2 ^ 16 + b * 2 ^ 11 + i

abbrev pub fields : ℕ → ℕ → ℕ → ℕ → ℕ → ℕ → Fields
fields g s d a b i = record { group = g; sub = s; rd = d; rs1 = a; rs2 = b; imm = i }

module _ (g s d a b i : ℕ) (g_fits : g < 4) (s_fits : s < 16) (d_fits : d < 32) (a_fits : a < 32)
    (b_fits : b < 32) (i_fits : i < 2048) where
  -- The chain of `|`, from the top field down.
  or_sub : bit_or (shl32 g 30) (shl32 s 26) ≡ g * 2 ^ 30 + s * 2 ^ 26
  or_sub =
      bit_or_field 30 (shl32 g 30) g (shl32 s 26) (s * 2 ^ 26) (omega arith) (omega arith)
        (omega arith)

  or_rd :
      bit_or (bit_or (shl32 g 30) (shl32 s 26)) (shl32 d 21) ≡ (g * 16 + s) * 2 ^ 26 + d * 2 ^ 21
  or_rd =
      bit_or_field 26 (bit_or (shl32 g 30) (shl32 s 26)) (g * 16 + s) (shl32 d 21) (d * 2 ^ 21)
        (omega (arith, or_sub)) (omega arith) (omega arith)

  or_rs1 :
      bit_or (bit_or (bit_or (shl32 g 30) (shl32 s 26)) (shl32 d 21)) (shl32 a 16)
      ≡ (g * 512 + s * 32 + d) * 2 ^ 21 + a * 2 ^ 16
  or_rs1 =
      bit_or_field 21 (bit_or (bit_or (shl32 g 30) (shl32 s 26)) (shl32 d 21))
        (g * 512 + s * 32 + d) (shl32 a 16) (a * 2 ^ 16) (omega (arith, or_rd)) (omega arith)
        (omega arith)

  or_rs2 :
      bit_or
        (bit_or (bit_or (bit_or (shl32 g 30) (shl32 s 26)) (shl32 d 21)) (shl32 a 16))
        (shl32 b 11)
      ≡ (g * 16384 + s * 1024 + d * 32 + a) * 2 ^ 16 + b * 2 ^ 11
  or_rs2 =
      bit_or_field 16 (bit_or (bit_or (bit_or (shl32 g 30) (shl32 s 26)) (shl32 d 21)) (shl32 a 16))
        (g * 16384 + s * 1024 + d * 32 + a) (shl32 b 11) (b * 2 ^ 11) (omega (arith, or_rs1))
        (omega arith) (omega arith)

  or_chain :
      bit_or
        (bit_or
          (bit_or (bit_or (bit_or (shl32 g 30) (shl32 s 26)) (shl32 d 21)) (shl32 a 16))
          (shl32 b 11))
        i
      ≡ joined g s d a b i
  or_chain =
      bit_or_field 11
        (bit_or (bit_or (bit_or (bit_or (shl32 g 30) (shl32 s 26)) (shl32 d 21)) (shl32 a 16))
          (shl32 b 11))
        (g * 524288 + s * 32768 + d * 1024 + a * 32 + b) i i (omega (arith, or_rs2)) refl i_fits
      ∙ omega arith

  pub joined-lt : joined g s d a b i < 2 ^ 32
  joined-lt = omega arith

pub join_word-joined :
    (g s d a b i : ℕ)
    → join_word g s d a b i ≡ joined (g % 4) (s % 16) (d % 32) (a % 32) (b % 32) (i % 2048)
unfolding join_word
join_word-joined g s d a b i =
    rw
      (
        bit_and_mask 2 g,
        bit_and_mask 4 s,
        bit_and_mask 5 d,
        bit_and_mask 5 a,
        bit_and_mask 5 b,
        bit_and_mask 11 i,
      )
      (or_chain (g % 4) (s % 16) (d % 32) (a % 32) (b % 32) (i % 2048) (omega arith) (omega arith)
        (omega arith) (omega arith) (omega arith) (omega arith))

abbrev pub split_fields : ℕ → Fields
split_fields w =
    fields (w / 2 ^ 30 % 4) (w / 2 ^ 26 % 16) (w / 2 ^ 21 % 32) (w / 2 ^ 16 % 32) (w / 2 ^ 11 % 32)
      (w % 2048)

pub split_word-fields : (w : ℕ) → split_word w ≡ split_fields w
unfolding split_word
split_word-fields w = ground (
  arith,
  bit_and_mask 2 (w / 2 ^ 30),
  bit_and_mask 4 (w / 2 ^ 26),
  bit_and_mask 5 (w / 2 ^ 21),
  bit_and_mask 5 (w / 2 ^ 16),
  bit_and_mask 5 (w / 2 ^ 11),
  bit_and_mask 11 w,
)

abbrev pub InRange : ℕ → ℕ → ℕ → ℕ → ℕ → ℕ → Type 0
InRange g s d a b i = (g < 4) × (s < 16) × (d < 32) × (a < 32) × (b < 32) × (i < 2048)

-- Joining and splitting undo one another.
pub split-join :
    (g s d a b i : ℕ)
    → InRange g s d a b i
    → split_word (join_word g s d a b i) ≡ fields g s d a b i
split-join g s d a b i h = rw (join_word-joined, split_word-fields) (ground arith)

pub join-split :
    (w : ℕ)
    → w < 2 ^ 32
    → let f = split_word w in join_word f.group f.sub f.rd f.rs1 f.rs2 f.imm ≡ w
join-split w h = rw (split_word-fields, join_word-joined) (omega arith)

-- A joined word has 32 bits, whatever is joined.
pub join_word-lt : (g s d a b i : ℕ) → join_word g s d a b i < 2 ^ 32
join_word-lt g s d a b i = rw join_word-joined (omega arith)
