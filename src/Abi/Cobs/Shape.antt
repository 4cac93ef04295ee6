-- ===== src/Abi/Cobs/Shape.antt =====
-- The output of `cobs_encode`: its bytes and its length; and the fuel of `cobs_decode`.
use tamal.Base.{
  ℕ, zero, suc, ◌+◌, ◌/◌, ◌≤◌, ◌≡◌, ◌≢◌, List, [], ◌∷◌, ◌++◌, length, length-append, All,
  All-append, IsByte, ok, err, arith, Result-cases, inl, inr, not, ◌&&◌, ◌==◌, if◌then◌else◌, ◌-◌,
}
use tamal.Abi.Cobs.{
  out_of_fuel, encode_loop, cobs_encode, copy_group, decode_loop, cobs_decode, is_empty,
}
use tamal.Abi.Cobs.Groups.{NonZero, Emits, nothing, ends_with_zero, zero_then, fills, ends, goes_on}
use tamal.Abi.Cobs.RoundTrip.{encode-Emits}

-- A byte that may stand before the frame delimiter.
abbrev pub IsStuffed : ℕ → Type 0
IsStuffed b = IsByte b × NonZero b

IsStuffed-grown :
    (g : List ℕ) (b : ℕ) → All IsStuffed g → IsByte b → b ≢ 0 → All IsStuffed (g ++ b ∷ [])
IsStuffed-grown g b h hb nz = All-append IsStuffed g (b ∷ []) h ((hb, nz), tt)

Emits-IsStuffed :
    {g bs out : List ℕ} → Emits g bs out → All IsStuffed g → All IsByte bs → All IsStuffed out
Emits-IsStuffed nothing h k = tt
Emits-IsStuffed (ends_with_zero g room) h k =
    (omega arith, All-append IsStuffed g (1 ∷ []) h (omega arith, tt))
Emits-IsStuffed (zero_then g x xs out room e) h (_, k) =
    (omega arith, All-append IsStuffed g out h (Emits-IsStuffed e tt k))
Emits-IsStuffed (fills g b rest out nz f e) h (hb, k) = (
  omega arith,
  All-append IsStuffed (g ++ b ∷ []) out (IsStuffed-grown g b h hb nz) (Emits-IsStuffed e tt k),
)
Emits-IsStuffed (ends g b nz s) h (hb, k) = (omega arith, IsStuffed-grown g b h hb nz)
Emits-IsStuffed (goes_on g b x xs out nz s e) h (hb, k) =
    Emits-IsStuffed e (IsStuffed-grown g b h hb nz) k

-- The output is bytes, and none of them is the frame delimiter 0.
pub cobs_encode-IsStuffed : (bs : List ℕ) → All IsByte bs → All IsStuffed (cobs_encode bs)
cobs_encode-IsStuffed [] h = unfold cobs_encode encode_loop in omega arith
cobs_encode-IsStuffed (b ∷ bs) h = Emits-IsStuffed (encode-Emits b bs) tt h

Emits-length :
    {g bs out : List ℕ}
    → Emits g bs out
    → length out ≤ length g + length bs + (length g + length bs) / 254 + 1
Emits-length nothing = omega arith
Emits-length (ends_with_zero g room) = omega (arith, length-append g (1 ∷ []))
Emits-length (zero_then g x xs out room e) = omega (arith, length-append g out, Emits-length e)
Emits-length (fills g b rest out nz f e) =
    omega (arith, length-append (g ++ b ∷ []) out, length-append g (b ∷ []), Emits-length e)
Emits-length (ends g b nz s) = omega (arith, length-append g (b ∷ []))
Emits-length (goes_on g b x xs out nz s e) = omega (arith, length-append g (b ∷ []), Emits-length e)

-- The overhead is at most one byte, and one more for each full 254 bytes.
pub length-cobs_encode : (bs : List ℕ) → length (cobs_encode bs) ≤ length bs + length bs / 254 + 1
length-cobs_encode [] = unfold cobs_encode encode_loop in omega arith
length-cobs_encode (b ∷ bs) = omega (arith, Emits-length (encode-Emits b bs))

copy-result :
    (n : ℕ) (bs out bs' out' : List ℕ)
    → copy_group n bs out ≡ ok (bs', out')
    → (length bs' ≤ length bs) × (length bs' + length out' ≡ length bs + length out)
unfolding copy_group
copy-result zero bs out bs' out' e = ground arith
copy-result (suc n) [] out bs' out' e = cc
copy-result (suc n) (d ∷ bs) out bs' out' e =
    ground (arith, copy-result n bs (out ++ d ∷ []) bs' out', length-append out (d ∷ []))

copy-ne-out_of_fuel : (n : ℕ) (bs out : List ℕ) → copy_group n bs out ≢ err out_of_fuel
unfolding copy_group
copy-ne-out_of_fuel zero bs out e = cc
copy-ne-out_of_fuel (suc n) [] out e = cc
copy-ne-out_of_fuel (suc n) (d ∷ bs) out e =
    ground (arith, copy-ne-out_of_fuel n bs (out ++ d ∷ []))

decode_loop-ne-out_of_fuel :
    (fuel : ℕ) (bs out : List ℕ) → length bs ≤ fuel → decode_loop fuel bs out ≢ err out_of_fuel
unfolding decode_loop
decode_loop-ne-out_of_fuel fuel [] out h e = cc
decode_loop-ne-out_of_fuel zero (c ∷ bs) out h e = absurd (omega arith)
decode_loop-ne-out_of_fuel (suc fuel) (c ∷ bs) out h e =
    elim (Result-cases (copy_group (c - 1) bs out)) [
      | inl ((bs', out'), p) ↦ ground (
        arith,
        p,
        copy-result (c - 1) bs out bs' out' p,
        decode_loop-ne-out_of_fuel fuel bs'
            (if not (c == 0xFF) && not (is_empty bs') then out' ++ 0 ∷ [] else out'),
      )
      | inr (x, p) ↦ ground (arith, p, copy-ne-out_of_fuel (c - 1) bs out)
    ]

-- `cobs_decode` ends on every input, well formed or not.
pub cobs_decode-ne-out_of_fuel : (bs : List ℕ) → cobs_decode bs ≢ err out_of_fuel
unfolding cobs_decode
cobs_decode-ne-out_of_fuel [] e = cc
cobs_decode-ne-out_of_fuel (b ∷ bs) e = decode_loop-ne-out_of_fuel _ (b ∷ bs) [] (omega arith) e
