-- ===== src/Abi/Trace.antt =====
-- crates/tamal-abi/src/trace.rs: the drained trace ring.
pub mod Layout
use tamal.Base.{
  ℕ, ◌+◌, Bool, List, [], ◌∷◌, ◌++◌, bit_and, u8, u16, ◌>>>◌, ◌==◌, if◌then◌else◌, Result, ok, err,
}

pub record Revision : Type 0 where
  pub major : ℕ
  pub minor : ℕ
  pub patch : ℕ

-- `Revision::EXPECTED`
abbrev pub expected : Revision
expected = record { major = 0; minor = 1; patch = 0 }

unfoldable pub revision_from_word : ℕ → Revision
revision_from_word w = record {
  major = u8 (w >>> 24);
  minor = u8 (w >>> 16);
  patch = u16 (bit_and w 0xFFFF);
}

pub data Record : Type 0 where
  capture : ℕ → ℕ → Record
  mark : ℕ → ℕ → Record

pub data TrapReason : Type 0 where
  none decode config rdsr illegal : TrapReason

unfoldable pub trap_reason_from_bits : ℕ → TrapReason
trap_reason_from_bits v =
    if v == 0
    then none
    else if v == 1
    then decode
    else if v == 2
    then config
    else if v == 3
    then rdsr
    else illegal

pub record Halt : Type 0 where
  pub trap : Bool
  pub reason : TrapReason
  pub ovf : Bool
  pub status : ℕ

pub record Trace : Type 0 where
  pub revision : Revision
  pub records : List Record
  pub halt : Halt

pub data TraceError : Type 0 where
  empty truncated_mark missing_terminator : TraceError
  unknown_record_tag : ℕ → TraceError

unfoldable pub capture_of : ℕ → Record
capture_of w = capture (u8 (bit_and (w >>> 8) 0xF)) (u8 (bit_and w 0xFF))

unfoldable pub mark_of : ℕ → ℕ → Record
mark_of w payload = mark (u16 (bit_and w 0x3FFF)) payload

unfoldable pub halt_of : ℕ → Halt
halt_of w = record {
  trap = bit_and (w >>> 9) 1 == 1;
  reason = trap_reason_from_bits (u8 (bit_and (w >>> 10) 0x7));
  ovf = bit_and (w >>> 8) 1 == 1;
  status = u8 (bit_and w 0xFF);
}

unfoldable pub tag_of : ℕ → ℕ
tag_of w = bit_and (w >>> 30) 0x3

-- The `loop` of `decode_trace` on the words from index `i`. After a CAPTURE that is the last word the next
-- round finds no word; after a MARK that is the last word the payload is missing.
unfoldable pub records_loop : List ℕ → Revision → List Record → Result Trace TraceError
records_loop [] revision records = err missing_terminator
records_loop (w ∷ []) revision records =
    if tag_of w == 0b00
    then err missing_terminator
    else if tag_of w == 0b10
    then err truncated_mark
    else if tag_of w == 0b11
    then ok (record { revision = revision; records = records; halt = halt_of w })
    else err (unknown_record_tag (u8 (tag_of w)))
records_loop (w ∷ next ∷ rest) revision records =
    let after_capture = records_loop (next ∷ rest) revision (records ++ capture_of w ∷ []) in
    let after_mark = records_loop rest revision (records ++ mark_of w next ∷ []) in
    if tag_of w == 0b00
    then after_capture
    else if tag_of w == 0b10
    then after_mark
    else if tag_of w == 0b11
    then ok (record { revision = revision; records = records; halt = halt_of w })
    else err (unknown_record_tag (u8 (tag_of w)))

unfoldable pub decode_trace : List ℕ → Result Trace TraceError
decode_trace [] = err empty
decode_trace (w ∷ words) = records_loop words (revision_from_word w) []
