-- ===== src/Runs/Framing.antt =====
-- Frames of crates/tamal-abi at concrete bytes.
use tamal.Base.{ℕ, ◌≡◌, ◌≢◌, refl, ok, err, arith, List, [], ◌∷◌, ◌++◌, All, IsByte, IsU32}
use tamal.Abi.Crc8.{crc8}
use tamal.Abi.Crc8.Detection.{crc8_detects}
use tamal.Abi.Cobs.{
  CobsError, cobs_encode, cobs_decode, encode_loop, encode_step, decode_loop, copy_group,
}
use tamal.Abi.Cobs.RoundTrip.{cobs_decode-encode}
use tamal.Abi.Cobs.Shape.{IsStuffed, cobs_encode-IsStuffed}
use tamal.Abi.Wire.{
  WireError, ControlMsg, delimiter, le_bytes_to_words, exact_words, from_le_bytes, frame_encode,
  frame_decode, encode_control, decode_control, decode_result,
}
use tamal.Abi.Cobs.Stuffed.{Stuffs}
use tamal.Abi.Wire.Frames.{on_wire, frame_decode-encode, frame_decode_corrupt, frame_decode_sound}
use tamal.Abi.Wire.RoundTrip.{decode-encode_control, decode_result-encode_control}

abbrev two_bytes : List ℕ
two_bytes = 0x11 ∷ 0x00 ∷ []

two_bytes-IsByte : All IsByte two_bytes
two_bytes-IsByte = (omega arith, (omega arith, tt))

abbrev two_words : List ℕ
two_words = 0x90220FFF ∷ 0x40000022 ∷ []

two_words-IsU32 : All IsU32 two_words
two_words-IsU32 = (omega arith, (omega arith, tt))

stuffed : cobs_encode two_bytes ≡ 2 ∷ 0x11 ∷ 1 ∷ []
unfolding cobs_encode encode_loop encode_step
stuffed = refl

-- A code byte that promises more than there is.
short_group : cobs_decode (5 ∷ 1 ∷ []) ≡ err CobsError.truncated_group
unfolding cobs_decode decode_loop copy_group
short_group = refl

crc8_detects_example : crc8 (7 ∷ 0x10 ∷ 9 ∷ []) ≢ crc8 (7 ∷ 0x30 ∷ 9 ∷ [])
crc8_detects_example =
    crc8_detects (7 ∷ []) (9 ∷ []) 0x10 0x30 (omega arith) (omega arith) (λ e. omega (arith, e))

cobs_decode-encode_example : cobs_decode (cobs_encode two_bytes) ≡ ok two_bytes
cobs_decode-encode_example = cobs_decode-encode two_bytes

cobs_encode-IsStuffed_example : All IsStuffed (cobs_encode two_bytes)
cobs_encode-IsStuffed_example = cobs_encode-IsStuffed two_bytes two_bytes-IsByte

frame_decode-encode_example : frame_decode (frame_encode two_bytes) ≡ ok two_bytes
frame_decode-encode_example = frame_decode-encode two_bytes

frame_decode_corrupt_example :
    frame_decode (on_wire (7 ∷ 0x30 ∷ 9 ∷ []) (crc8 (7 ∷ 0x10 ∷ 9 ∷ []))) ≡ err WireError.bad_crc
frame_decode_corrupt_example =
    frame_decode_corrupt (7 ∷ []) (9 ∷ []) 0x10 0x30 (omega arith) (omega arith)
      (λ e. omega (arith, e))

frame_decode_sound_example :
    (body : List ℕ) × (frame_encode two_bytes ≡ body ++ delimiter ∷ [])
    × Stuffs body (two_bytes ++ crc8 two_bytes ∷ [])
    × (two_bytes ≢ [])
frame_decode_sound_example =
    frame_decode_sound (frame_encode two_bytes) two_bytes (frame_decode-encode two_bytes)

decode-encode_control_example :
    decode_control (encode_control (ControlMsg.load_program two_words))
    ≡ ok (ControlMsg.load_program two_words)
decode-encode_control_example =
    decode-encode_control (ControlMsg.load_program two_words) two_words-IsU32

decode_result-encode_control_example :
    decode_result (encode_control ControlMsg.trigger) ≡ err (WireError.wrong_opcode 0x81 0x02)
decode_result-encode_control_example = decode_result-encode_control ControlMsg.trigger

word_read : le_bytes_to_words (1 ∷ 2 ∷ 0 ∷ 0 ∷ []) ≡ ok (0x201 ∷ [])
unfolding le_bytes_to_words exact_words from_le_bytes
word_read = refl
