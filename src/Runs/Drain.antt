-- ===== src/Runs/Drain.antt =====
-- Trace rings of crates/tamal-abi at concrete words.
use tamal.Base.{◌+◌, ◌*◌, ◌^◌, ◌≡◌, ok, err, arith, List, [], ◌∷◌, ◌++◌, All, true, false}
use tamal.Abi.Trace.{Record, TrapReason, Trace, TraceError, decode_trace, expected}
use tamal.Abi.Trace.Layout.{
  RecordFits, revision_word, ring_words, halt_word, decode_trace-layout, decode_trace_cut,
}

abbrev two_records : List Record
two_records = Record.capture 8 0xA5 ∷ Record.mark 3 0xDEADBEEF ∷ []

two_records-RecordFits : All RecordFits two_records
two_records-RecordFits = ((omega arith, omega arith), (omega arith, tt))

abbrev a_trace : Trace
a_trace = record {
  revision = expected;
  records = two_records;
  halt = record { trap = true; reason = TrapReason.config; ovf = false; status = 0x22 };
}

decode_trace-layout_example :
    decode_trace
      (revision_word expected ∷ ring_words two_records ++ halt_word a_trace.halt ∷ 0x55 ∷ [])
    ≡ ok a_trace
decode_trace-layout_example =
    decode_trace-layout a_trace (0x55 ∷ []) (omega arith, omega arith, omega arith)
      two_records-RecordFits (omega arith)

decode_trace_cut_example :
    (decode_trace (revision_word expected ∷ ring_words two_records)
      ≡ err TraceError.missing_terminator)
    × (decode_trace (revision_word expected ∷ (ring_words two_records ++ (2 * 2 ^ 30 + 5) ∷ []))
        ≡ err TraceError.truncated_mark)
decode_trace_cut_example =
    decode_trace_cut expected two_records 5 two_records-RecordFits (omega arith)
