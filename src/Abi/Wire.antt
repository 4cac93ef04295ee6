-- ===== src/Abi/Wire.antt =====
-- crates/tamal-abi/src/wire.rs: the frames and messages between the host and the rig.
pub mod Words
pub mod RoundTrip
pub mod Frames
use tamal.Base.{
  ℕ, suc, ◌+◌, ◌*◌, ◌%◌, ◌^◌, List, [], ◌∷◌, ◌++◌, length, split_last, Option, none, some, ◌==◌,
  if◌then◌else◌, Result, ok, err, ◌>>=◌, map_err, ok_or,
}
use tamal.Abi.Isa.Encode.{to_le_bytes}
use tamal.Abi.Crc8.{crc8}
use tamal.Abi.Cobs.{CobsError, cobs_encode, cobs_decode}

abbrev pub op_load_program : ℕ
op_load_program = 0x01

abbrev pub op_trigger : ℕ
op_trigger = 0x02

abbrev pub op_trace_drain : ℕ
op_trace_drain = 0x81

abbrev pub delimiter : ℕ
delimiter = 0x00

pub data ControlMsg : Type 0 where
  load_program : List ℕ → ControlMsg
  trigger : ControlMsg

pub data WireError : Type 0 where
  bad_crc bad_cobs short_frame bad_payload_len : WireError
  unknown_opcode : ℕ → WireError
  wrong_opcode : ℕ → ℕ → WireError

-- `impl From<CobsError> for WireError`
unfoldable pub from_cobs_error : CobsError → WireError
from_cobs_error _ = bad_cobs

unfoldable pub words_to_le_bytes : List ℕ → List ℕ
words_to_le_bytes [] = []
words_to_le_bytes (w ∷ words) = to_le_bytes w ++ words_to_le_bytes words

-- `u32::from_le_bytes`
unfoldable pub from_le_bytes : ℕ → ℕ → ℕ → ℕ → ℕ
from_le_bytes a b c d = a + b * 2 ^ 8 + c * 2 ^ 16 + d * 2 ^ 24

-- `bytes.chunks_exact(4)`, each chunk read as a word; a shorter rest is left out.
unfoldable pub exact_words : List ℕ → List ℕ
exact_words (a ∷ b ∷ c ∷ d ∷ rest) = from_le_bytes a b c d ∷ exact_words rest
exact_words _ = []

unfoldable pub le_bytes_to_words : List ℕ → Result (List ℕ) WireError
le_bytes_to_words bytes =
    if length bytes % 4 == 0 then ok (exact_words bytes) else err bad_payload_len

unfoldable pub frame_encode : List ℕ → List ℕ
frame_encode logical = cobs_encode (logical ++ crc8 logical ∷ []) ++ delimiter ∷ []

-- The body of a frame that ends with the delimiter.
unfoldable pub strip_delimiter : Option (ℕ × List ℕ) → Result (List ℕ) WireError
strip_delimiter none = err bad_cobs
strip_delimiter (some (last, body)) = if last == delimiter then ok body else err bad_cobs

-- The checks on the decoded bytes, the CRC last.
unfoldable pub check_crc : ℕ × List ℕ → Result (List ℕ) WireError
check_crc (crc, []) = err short_frame
check_crc (crc, b ∷ logical) = if crc8 (b ∷ logical) == crc then ok (b ∷ logical) else err bad_crc

unfoldable pub frame_decode : List ℕ → Result (List ℕ) WireError
frame_decode wire = do
  body ← strip_delimiter (split_last wire)
  decoded ← map_err from_cobs_error (cobs_decode body)
  parts ← ok_or (split_last decoded) short_frame
  check_crc parts

-- The logical bytes of a control message.
unfoldable pub control_bytes : ControlMsg → List ℕ
control_bytes trigger = op_trigger ∷ []
control_bytes (load_program words) = op_load_program ∷ words_to_le_bytes words

unfoldable pub encode_control : ControlMsg → List ℕ
encode_control msg = frame_encode (control_bytes msg)

-- The dispatch on `logical[0]`. `frame_decode` gives no empty frame, so the index does not panic; the
-- first clause stands for that.
unfoldable pub control_of : List ℕ → Result ControlMsg WireError
control_of [] = err short_frame
control_of (op ∷ payload) =
    if op == op_load_program
    then (do words ← le_bytes_to_words payload; ok (load_program words))
    else if op == op_trigger
    then (if length (op ∷ payload) == 1 then ok trigger else err bad_payload_len)
    else err (unknown_opcode op)

unfoldable pub decode_control : List ℕ → Result ControlMsg WireError
decode_control wire = do logical ← frame_decode wire; control_of logical

-- The opcode check of `decode_result`, with the same remark on `logical[0]`.
unfoldable pub result_of : List ℕ → Result (List ℕ) WireError
result_of [] = err short_frame
result_of (op ∷ payload) =
    if op == op_trace_drain then le_bytes_to_words payload else err (wrong_opcode op_trace_drain op)

unfoldable pub decode_result : List ℕ → Result (List ℕ) WireError
decode_result wire = do logical ← frame_decode wire; result_of logical
