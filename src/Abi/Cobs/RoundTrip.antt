-- ===== src/Abi/Cobs/RoundTrip.antt =====
-- `cobs_decode` on what `cobs_encode` writes.
use tamal.Base.{
  ℕ, zero, suc, ◌≤◌, ◌≡◌, refl, sym, ap, ◌∙◌, ◌≢◌, false, List, [], ◌∷◌, ◌++◌, length,
  length-append, append_assoc, append-nil, All, All-append, ok, arith,
}
use tamal.Abi.Cobs.{is_empty, encode_loop, cobs_encode, copy_group, decode_loop, cobs_decode}
use tamal.Abi.Cobs.Groups.{
  NonZero, read_short, read_full, read_last, Emits, nothing, ends_with_zero, zero_then, fills, ends,
  goes_on, loop-Emits,
}

Emits-nonempty :
    {g : List ℕ} {b : ℕ} {bs out : List ℕ} → Emits g (b ∷ bs) out → is_empty out ≡ false
Emits-nonempty (ends_with_zero g room) = refl
Emits-nonempty (zero_then g x xs out room e) = refl
Emits-nonempty (fills g b rest out h f e) = refl
Emits-nonempty (ends g b h s) = refl
Emits-nonempty (goes_on g b x xs out h s e) = Emits-nonempty e

grown : (g : List ℕ) (b : ℕ) → All NonZero g → b ≢ 0 → All NonZero (g ++ b ∷ [])
grown g b h nz = All-append NonZero g (b ∷ []) h (nz, tt)

length_grown : (g : List ℕ) (b : ℕ) → length (g ++ b ∷ []) ≡ suc (length g)
length_grown g b = omega (arith, length-append g (b ∷ []))

-- Decoding the output gives the open group and the bytes that were left.
Emits-decode :
    {g bs out : List ℕ}
    → Emits g bs out
    → All NonZero g
    → (fuel : ℕ) (acc : List ℕ) → length out ≤ fuel
    → decode_loop fuel out acc ≡ ok (acc ++ (g ++ bs))
Emits-decode nothing h fuel acc enough = unfold decode_loop in ap ok (sym (append-nil acc))
Emits-decode (goes_on g b x xs out nz s e) h fuel acc enough =
    Emits-decode e (grown g b h nz) fuel acc enough ∙ rw (append_assoc g (b ∷ []))
Emits-decode (ends g b nz s) h fuel acc enough =
    read_last fuel _ (g ++ b ∷ []) acc (omega (arith, length_grown g b)) (grown g b h nz)
      (omega (arith, length_grown g b)) (omega arith)
Emits-decode e h zero acc enough = absurd (omega arith)
Emits-decode (ends_with_zero g room) h (suc fuel) acc enough =
    read_short fuel _ g (1 ∷ []) acc refl h room refl
    ∙ read_last fuel 1 [] (acc ++ (g ++ 0 ∷ [])) refl tt (omega arith)
        (omega (arith, length-append g (1 ∷ [])))
    ∙ rw append-nil
Emits-decode (zero_then g x xs out room e) h (suc fuel) acc enough =
    read_short fuel _ g out acc refl h room (Emits-nonempty e)
    ∙ Emits-decode e tt fuel (acc ++ (g ++ 0 ∷ [])) (omega (arith, length-append g out))
    ∙ rw (append_assoc acc (g ++ 0 ∷ []), append_assoc g (0 ∷ []))
Emits-decode (fills g b rest out nz f e) h (suc fuel) acc enough =
    read_full fuel 255 (g ++ b ∷ []) out acc (omega (arith, length_grown g b)) (grown g b h nz)
      (omega (arith, length_grown g b))
    ∙ Emits-decode e tt fuel (acc ++ (g ++ b ∷ [])) (omega (arith, length-append (g ++ b ∷ []) out))
    ∙ rw (append_assoc acc (g ++ b ∷ []), append_assoc g (b ∷ []))

pub encode-Emits : (b : ℕ) (bs : List ℕ) → Emits [] (b ∷ bs) (cobs_encode (b ∷ bs))
unfolding cobs_encode
encode-Emits b bs = loop-Emits (b ∷ bs) [] (omega arith) (λ e. cc)

enters_loop : (bs : List ℕ) → is_empty bs ≡ false → cobs_decode bs ≡ decode_loop (length bs) bs []
unfolding cobs_decode
enters_loop [] h = cc
enters_loop (b ∷ bs) h = refl

-- On every message, the empty one and those with full groups of 254 bytes included, decoding gives back
-- what was encoded.
pub cobs_decode-encode : (bs : List ℕ) → cobs_decode (cobs_encode bs) ≡ ok bs
cobs_decode-encode [] = unfold cobs_encode encode_loop cobs_decode decode_loop copy_group in refl
cobs_decode-encode (b ∷ bs) =
    enters_loop _ (Emits-nonempty (encode-Emits b bs))
    ∙ Emits-decode (encode-Emits b bs) tt _ [] (omega arith)

pub cobs_encode-nonempty : (bs : List ℕ) → is_empty (cobs_encode bs) ≡ false
cobs_encode-nonempty [] = unfold cobs_encode encode_loop in refl
cobs_encode-nonempty (b ∷ bs) = Emits-nonempty (encode-Emits b bs)
