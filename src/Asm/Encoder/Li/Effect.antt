-- ===== src/Asm/Encoder/Li/Effect.antt =====
-- What the engine computes from the expansion of `li`.
use tamal.Base.{
  ℕ, zero, suc, ◌+◌, ◌-◌, ◌*◌, ◌%◌, ◌^◌, ◌<◌, ◌≤◌, ◌≡◌, refl, ap, ◌∙◌, List, [], ◌∷◌, ◌++◌, Option,
  none, some, Bool, true, ◌&&◌, ◌==◌, ltb, not, if◌then◌else◌, u32, bit_and, arith, Bool-cases, inl,
  inr, ◌⊎◌, ◌>>>◌,
}
use tamal.Base.Bits.{bit_and_mask}
use tamal.Base.Table.{holds_below, of_holds_below}
use tamal.Base.Int.{ℤ, pos, negsuc, leb_ℤ, is_zero, low_bits, signed}
use tamal.Abi.Isa.Operand.{new, imm21_bits}
use tamal.Abi.Isa.Instr.{Reg, Instr, load_imm, lui, addi}
use tamal.Asm.Encoder.Resolve.{expect, imm11_of, imm21_of}
use tamal.Asm.Encoder.Li.{li_low, tile_li}

-- Sign extension of a field to a 32-bit word.
abbrev pub sign_extend : ℕ → ℕ → ℕ
sign_extend bits v = low_bits 32 (signed bits v)

-- What a register of the engine reads as after a write of this value, as in hdl/src/Tamal/RegFile.hs: the
-- low 4 bits of the selector are the slot, and slot 0 reads as 0, whatever is written.
abbrev pub kept : Reg → ℕ → ℕ
kept r v = if r % 16 == 0 then 0 else v

-- The value of register `rd` after an instruction that only writes `rd`, from the value before.
abbrev pub effect : Reg → Instr → ℕ → Option ℕ
effect rd (load_imm d i) x = if d == rd then some (kept rd (sign_extend 21 i)) else none
effect rd (lui d i) x = if d == rd then some (kept rd (u32 (i * 2 ^ 11))) else none
effect rd (addi d a i) x =
    if d == rd && a == rd then some (kept rd (u32 (kept rd x + sign_extend 11 i))) else none
effect rd _ x = none

abbrev pub effects : Reg → List Instr → ℕ → Option ℕ
effects rd [] x = some x
effects rd (i ∷ is) x = elim (effect rd i x) [ none ↦ none | some y ↦ effects rd is y ]

abbrev pub IsI32 : ℤ → Type 0
IsI32 (pos n) = n < 2 ^ 31
IsI32 (negsuc n) = n < 2 ^ 31

expect-new : (bits v : ℕ) → v < 2 ^ bits → expect (new bits v) ≡ v
unfolding new
expect-new bits v h = ground arith

pub imm11_of-mod : (v : ℤ) → imm11_of v ≡ low_bits 32 v % 2048
imm11_of-mod v =
    rw (bit_and_mask 11 (low_bits 32 v))
      (expect-new 11 (low_bits 32 v % 2048 % 65536) (omega arith) ∙ omega arith)

pub imm21_of-mod : (v : ℤ) → imm21_of v ≡ low_bits 32 v % 2097152
imm21_of-mod v =
    rw (bit_and_mask 21 (low_bits 32 v)) (expect-new 21 (low_bits 32 v % 2097152) (omega arith))

sign_bit : ℕ → Bool
sign_bit x = if ltb x 1024 then bit_and x 0x400 == 0 else not (bit_and x 0x400 == 0)

sign_bit_table : holds_below 2048 sign_bit ≡ true
unfolding holds_below sign_bit
sign_bit_table = refl

abbrev LowCases : ℕ → Type 0
LowCases w =
    ((li_low w ≡ pos (w % 2048)) × (w % 2048 < 1024))
    ⊎ ((li_low w ≡ negsuc (2047 - w % 2048)) × (1024 ≤ w % 2048))

low-LowCases : (w : ℕ) → LowCases w
unfolding li_low sign_bit
low-LowCases w =
    rw (bit_and_mask 11 w)
      (ground (arith, of_holds_below 2048 sign_bit (w % 2048) sign_bit_table (omega arith)))

word_low : (v : ℤ) → low_bits 32 v < 4294967296
word_low (pos n) = omega arith
word_low (negsuc n) = omega arith

loads : (rd i x : ℕ) → effects rd (load_imm rd i ∷ []) x ≡ some (kept rd (sign_extend 21 i))
loads rd i x = ground arith

lifts :
    (rd i x : ℕ) (is : List Instr)
    → effects rd (lui rd i ∷ is) x ≡ effects rd is (kept rd (u32 (i * 2048)))
lifts rd i x is = ground arith

adds :
    (rd i x : ℕ)
    → effects rd (addi rd rd i ∷ []) x ≡ some (kept rd (u32 (kept rd x + sign_extend 11 i)))
adds rd i x = ground arith

-- A sum on top of what was kept.
kept-add : (rd h e w : ℕ) → u32 (h + e) ≡ w → kept rd (u32 (kept rd (kept rd h) + e)) ≡ kept rd w
kept-add rd h e w s = elim (Bool-cases (rd % 16 == 0)) [ inl z ↦ rw z refl | inr n ↦ rw n s ]

-- The short form: a value of 21 bits.
load_effect :
    (rd x : ℕ) (v : ℤ)
    → (leb_ℤ (negsuc (2 ^ 20 - 1)) v && leb_ℤ v (pos (2 ^ 20 - 1))) ≡ true
    → effects rd (load_imm rd (imm21_of v) ∷ []) x ≡ some (kept rd (low_bits 32 v))
load_effect rd x v h =
    loads rd (imm21_of v) x ∙ rw imm21_of-mod (ap (λ w. some (kept rd w)) (extended v h))
  where
    extended :
        (v : ℤ)
        → (leb_ℤ (negsuc (2 ^ 20 - 1)) v && leb_ℤ v (pos (2 ^ 20 - 1))) ≡ true
        → sign_extend 21 (low_bits 32 v % 2097152) ≡ low_bits 32 v
    extended (pos n) h = ground arith
    extended (negsuc n) h = ground arith

-- The long form, on the 32-bit pattern of the value and the low part `lo`.
abbrev high : ℕ → ℤ → ℕ
high w lo = u32 (w + (2 ^ 32 - low_bits 32 lo)) >>> 11

abbrev long_form : ℕ → ℕ → ℤ → List Instr
long_form rd w lo =
    let out = lui rd (expect (new imm21_bits (high w lo))) ∷ [] in
    if not (is_zero lo) then out ++ addi rd rd (imm11_of lo) ∷ [] else out

high-lt : (w : ℕ) (lo : ℤ) → high w lo < 2097152
high-lt w lo = omega arith

lui_effect :
    (rd x w : ℕ) (lo : ℤ) (is : List Instr)
    → effects rd (lui rd (expect (new imm21_bits (high w lo))) ∷ is) x
      ≡ effects rd is (kept rd (u32 (high w lo * 2048)))
lui_effect rd x w lo is =
    lifts rd _ x is
    ∙ ap (λ h. effects rd is (kept rd (u32 (h * 2048)))) (expect-new 21 (high w lo) (high-lt w lo))

both_effect :
    (rd x w : ℕ) (lo : ℤ)
    → u32 (u32 (high w lo * 2048) + sign_extend 11 (low_bits 32 lo % 2048)) ≡ w
    → effects rd (lui rd (expect (new imm21_bits (high w lo))) ∷ addi rd rd (imm11_of lo) ∷ []) x
      ≡ some (kept rd w)
both_effect rd x w lo e =
    lui_effect rd x w lo (addi rd rd (imm11_of lo) ∷ [])
    ∙ adds rd (imm11_of lo) (kept rd (u32 (high w lo * 2048)))
    ∙ rw imm11_of-mod (ap some (kept-add rd _ _ w e))

long_effect :
    (rd x w : ℕ) → w < 4294967296 → effects rd (long_form rd w (li_low w)) x ≡ some (kept rd w)
long_effect rd x w h = elim (low-LowCases w) [
  | inl (e, lt) ↦ rw e (above (w % 2048) refl lt)
  | inr (e, le) ↦ rw e (both_effect rd x w (negsuc (2047 - w % 2048)) (ground (arith, le, h)))
]
  where
    above :
        (l : ℕ)
        → l ≡ w % 2048
        → w % 2048 < 1024
        → effects rd (long_form rd w (pos l)) x ≡ some (kept rd w)
    above zero e lt =
        lui_effect rd x w (pos 0) [] ∙ ap (λ v. some (kept rd v)) (omega (arith, e, h))
    above (suc l) e lt = both_effect rd x w (pos (suc l)) (ground (arith, e, lt, h))

-- After the expansion of `li rd, value`, whatever was in `rd`, it reads as the 32-bit pattern of the value,
-- except for `x0`, or any `rd` whose low 4 bits are 0, which reads as 0.
pub effects-tile_li :
    (rd x : ℕ) (value : ℤ) → effects rd (tile_li rd value) x ≡ some (kept rd (low_bits 32 value))
unfolding tile_li
effects-tile_li rd x value =
    elim (Bool-cases (leb_ℤ (negsuc (2 ^ 20 - 1)) value && leb_ℤ value (pos (2 ^ 20 - 1)))) [
      | inl e ↦ rw e (load_effect rd x value e)
      | inr e ↦ rw e (long_effect rd x (low_bits 32 value) (word_low value))
    ]
