-- ===== src/Abi/Wire/RoundTrip.antt =====
-- Messages through frames, from one side to the other.
use tamal.Base.{ℕ, ◌≡◌, List, ◌∷◌, length, All, IsU32, ok, err, ne→==, arith, suc, ◌≢◌}
use tamal.Abi.Wire.{
  ControlMsg, load_program, trigger, wrong_opcode, unknown_opcode, bad_payload_len, op_load_program,
  op_trigger, op_trace_drain, words_to_le_bytes, frame_encode, frame_decode, control_bytes,
  encode_control, control_of, decode_control, result_of, decode_result,
}
use tamal.Abi.Wire.Words.{le_bytes_to_words-words}
use tamal.Abi.Wire.Frames.{frame_decode-encode}

abbrev pub IsWords : ControlMsg → Type 0
IsWords (load_program words) = All IsU32 words
IsWords trigger = Unit

opened :
    (op : ℕ) (payload : List ℕ) → frame_decode (frame_encode (op ∷ payload)) ≡ ok (op ∷ payload)
opened op payload = frame_decode-encode (op ∷ payload)

-- The device reads back each control message that the host encodes.
pub decode-encode_control :
    (msg : ControlMsg) → IsWords msg → decode_control (encode_control msg) ≡ ok msg
unfolding decode_control encode_control control_bytes control_of
decode-encode_control trigger h = rw opened
decode-encode_control (load_program words) h = rw opened (rw (le_bytes_to_words-words words h))

-- The host reads back the words of a `TRACE_DRAIN` frame.
pub decode_result-words :
    (words : List ℕ)
    → All IsU32 words
    → decode_result (frame_encode (op_trace_drain ∷ words_to_le_bytes words)) ≡ ok words
unfolding decode_result result_of
decode_result-words words h = rw opened (le_bytes_to_words-words words h)

abbrev pub opcode : ControlMsg → ℕ
opcode (load_program _) = op_load_program
opcode trigger = op_trigger

-- No control message is taken for a drain: the error names the opcode that was expected and the message's.
pub decode_result-encode_control :
    (msg : ControlMsg)
    → decode_result (encode_control msg) ≡ err (wrong_opcode op_trace_drain (opcode msg))
unfolding decode_result encode_control control_bytes result_of
decode_result-encode_control trigger = rw opened
decode_result-encode_control (load_program words) = rw opened

-- A frame with an opcode that is neither `LOAD_PROGRAM` nor `TRIGGER` is refused with that opcode, and a
-- `TRIGGER` with a payload is refused for its length.
pub decode_control_refuses :
    (op b : ℕ) (payload : List ℕ)
    → op ≢ op_load_program
    → op ≢ op_trigger
    → (decode_control (frame_encode (op ∷ payload)) ≡ err (unknown_opcode op))
      × (decode_control (frame_encode (op_trigger ∷ b ∷ payload)) ≡ err bad_payload_len)
unfolding decode_control control_of
decode_control_refuses op b payload hl ht = (
  rw (opened, ne→== op op_load_program hl, ne→== op op_trigger ht),
  rw opened (rw (ne→== (suc (suc (length payload))) 1 (omega arith))),
)
