-- ===== src/Abi/Wire/Frames.antt =====
-- Frames: what `frame_decode` accepts, and what it refuses.
use tamal.Base.{
  ℕ, ◌≡◌, ◌≢◌, refl, sym, ap, ◌∙◌, List, [], ◌∷◌, ◌++◌, split_last, split_last-append, All,
  All-append, IsByte, Result, ok, err, ◌>>=◌, Result-cases, Ended, ended, bare, with_last, map_err,
  ok_or, ◌==◌, eq→==, ne→==, ==→eq, Bool-cases, inl, inr, false, if◌then◌else◌, arith,
}
use tamal.Abi.Crc8.{crc8}
use tamal.Abi.Crc8.Detection.{crc8-IsByte, crc8_detects}
use tamal.Abi.Cobs.{cobs_encode, cobs_decode, is_empty}
use tamal.Abi.Cobs.Stuffed.{Stuffs, cobs_decode-Stuffs}
use tamal.Abi.Cobs.RoundTrip.{cobs_decode-encode, cobs_encode-nonempty}
use tamal.Abi.Cobs.Shape.{IsStuffed, cobs_encode-IsStuffed}
use tamal.Abi.Wire.{
  delimiter, strip_delimiter, check_crc, frame_encode, frame_decode, from_cobs_error, bad_crc,
  bad_cobs, short_frame, WireError,
}

-- A frame of any bytes `bs` and last byte `crc`, as it stands on the wire.
abbrev pub on_wire : List ℕ → ℕ → List ℕ
on_wire bs crc = cobs_encode (bs ++ crc ∷ []) ++ delimiter ∷ []

-- The frame layer sees such a frame as its bytes and its last byte.
pub frame_decode-on_wire :
    (bs : List ℕ) (crc : ℕ) → frame_decode (on_wire bs crc) ≡ check_crc (crc, bs)
unfolding frame_decode strip_delimiter
frame_decode-on_wire bs crc = rw (
  split_last-append (cobs_encode (bs ++ crc ∷ [])) delimiter,
  cobs_decode-encode,
  split_last-append bs crc,
)

-- Decoding the frame of a message gives the message, but the frame of the empty message is refused as
-- too short.
pub frame_decode-encode :
    (logical : List ℕ)
    → frame_decode (frame_encode logical)
      ≡ (if is_empty logical then err short_frame else ok logical)
unfolding frame_encode check_crc
frame_decode-encode [] = frame_decode-on_wire [] (crc8 [])
frame_decode-encode (b ∷ bs) = frame_decode-on_wire (b ∷ bs) _ ∙ rw (eq→== (crc8 (b ∷ bs)) _ refl)

-- A frame in which one byte of the message was replaced by another, at any place, is refused for its CRC.
pub frame_decode_corrupt :
    (front back : List ℕ) (a b : ℕ)
    → IsByte a
    → IsByte b
    → a ≢ b
    → frame_decode (on_wire (front ++ b ∷ back) (crc8 (front ++ a ∷ back))) ≡ err bad_crc
frame_decode_corrupt front back a b ha hb ne =
    frame_decode-on_wire (front ++ b ∷ back) _
    ∙ refused front (λ e. crc8_detects front back a b ha hb ne (sym e))
  where
    refused :
        (f : List ℕ)
        → crc8 (f ++ b ∷ back) ≢ crc8 (front ++ a ∷ back)
        → check_crc (crc8 (front ++ a ∷ back), f ++ b ∷ back) ≡ err bad_crc
    refused [] n = unfold check_crc in rw (ne→== _ _ n)
    refused (x ∷ f) n = unfold check_crc in rw (ne→== _ _ n)

ne_nil : {xs : List ℕ} → is_empty xs ≡ false → xs ≢ []
ne_nil h e = cc (h, ap is_empty e)

-- The bytes of a frame are stuffed bytes, at least one, then a delimiter.
pub frame_encode_shape :
    (logical : List ℕ)
    → All IsByte logical
    → (b : ℕ) × (body : List ℕ) × (frame_encode logical ≡ (b ∷ body) ++ delimiter ∷ [])
      × All IsStuffed (b ∷ body)
unfolding frame_encode
frame_encode_shape logical h =
    shape (cobs_encode (logical ++ crc8 logical ∷ [])) refl
      (cobs_encode-IsStuffed _ (All-append IsByte logical _ h (crc8-IsByte logical, tt)))
  where
    shape :
        (out : List ℕ)
        → cobs_encode (logical ++ crc8 logical ∷ []) ≡ out
        → All IsStuffed out
        → (b : ℕ) × (body : List ℕ) × (out ++ delimiter ∷ [] ≡ (b ∷ body) ++ delimiter ∷ [])
          × All IsStuffed (b ∷ body)
    shape [] e k = absurd (ne_nil (cobs_encode-nonempty (logical ++ crc8 logical ∷ [])) e)
    shape (b ∷ body) e k = (b, body, refl, k)

check_sound :
    (crc : ℕ) (bs l : List ℕ) → check_crc (crc, bs) ≡ ok l → (l ≢ []) × (bs ≡ l) × (crc8 l ≡ crc)
unfolding check_crc
check_sound crc [] l e = cc
check_sound crc (b ∷ bs) l e = elim (Bool-cases (crc8 (b ∷ bs) == crc)) [
  | inl c ↦ ground (arith, c, ==→eq (crc8 (b ∷ bs)) crc c)
  | inr n ↦ cc n
]

-- The body of a frame whose delimiter has been taken off.
body_decode : List ℕ → Result (List ℕ) WireError
body_decode body = do
  decoded ← map_err from_cobs_error (cobs_decode body)
  parts ← ok_or (split_last decoded) short_frame
  check_crc parts

frame_decode-body :
    (body : List ℕ) (y : ℕ)
    → frame_decode (body ++ y ∷ []) ≡ (if y == delimiter then body_decode body else err bad_cobs)
unfolding frame_decode strip_delimiter body_decode
frame_decode-body body y =
    rw (split_last-append body y)
      (elim (Bool-cases (y == delimiter)) [ inl e ↦ rw e | inr e ↦ rw e ])

Accepts : List ℕ → List ℕ → Type 0
Accepts body l = (cobs_decode body ≡ ok (l ++ crc8 l ∷ [])) × (l ≢ [])

body_sound : (body l : List ℕ) → body_decode body ≡ ok l → Accepts body l
unfolding body_decode Accepts
body_sound body l h = elim (Result-cases (cobs_decode body)) [
  | inl (decoded, e) ↦ parts decoded (ended decoded) e (rw e at h)
  | inr (x, e) ↦ cc (e)
]
  where
    parts :
        (decoded : List ℕ)
        → Ended decoded
        → cobs_decode body ≡ ok decoded
        → (ok_or (split_last decoded) short_frame >>= check_crc) ≡ ok l
        → Accepts body l
    parts decoded bare e k = cc
    parts decoded (with_last front y) e k =
        let (ne, same, crc) = check_sound y front l (rw split_last-append at k) in
        (cc (e, same, crc), ne)

-- What `frame_decode` accepts is a body and a delimiter. The message is not empty, and the body is groups
-- that stand for the message and its CRC: each a code byte, then one byte less than it says, none of them 0,
-- with a 0 of the message between a group and the next unless the code is 255. More than one body may stand
-- for a message, since an empty group may end it after a full one.
pub frame_decode_sound :
    (wire l : List ℕ)
    → frame_decode wire ≡ ok l
    → (body : List ℕ) × (wire ≡ body ++ delimiter ∷ []) × Stuffs body (l ++ crc8 l ∷ []) × (l ≢ [])
unfolding Accepts
frame_decode_sound wire l h = go (ended wire) h
  where
    refused : ◌≡◌ {A = Result (List ℕ) WireError} (err bad_cobs) (ok l) → ⊥
    refused e = cc

    go :
        {w : List ℕ}
        → Ended w
        → frame_decode w ≡ ok l
        → (body : List ℕ) × (w ≡ body ++ delimiter ∷ []) × Stuffs body (l ++ crc8 l ∷ []) × (l ≢ [])
    go bare k = absurd (unfold frame_decode strip_delimiter in cc k)
    go (with_last body y) k = elim (Bool-cases (y == delimiter)) [
      | inl d ↦
          let (decoded, ne) = body_sound body l (rw (frame_decode-body, d) at k) in
          (body, rw (==→eq y delimiter d), cobs_decode-Stuffs body _ decoded, ne)
      | inr n ↦ absurd (refused (rw (frame_decode-body, n) at k))
    ]
