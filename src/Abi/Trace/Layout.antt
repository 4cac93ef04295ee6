-- ===== src/Abi/Trace/Layout.antt =====
-- The documented layout of the trace words as a writer, and `decode_trace` against it.
use tamal.Base.{
  ℕ, ◌+◌, ◌*◌, ◌/◌, ◌%◌, ◌^◌, ◌<◌, ◌≡◌, refl, ◌∙◌, ◌≢◌, Bool, true, false, List, [], ◌∷◌, ◌++◌,
  append_assoc, append-nil, All, ok, err, ◌==◌, eq→==, ne→==, arith,
}
use tamal.Base.Bits.{bit_and_mask}
use tamal.Abi.Trace.{
  Revision, Record, capture, mark, TrapReason, none, decode, config, rdsr, illegal, Halt, Trace,
  truncated_mark, missing_terminator, revision_from_word, trap_reason_from_bits, capture_of,
  mark_of, halt_of, tag_of, records_loop, decode_trace,
}

-- `[major8 | minor8 | patch16]`
pub revision_word : Revision → ℕ
revision_word r = r.major * 2 ^ 24 + r.minor * 2 ^ 16 + r.patch

-- CAPTURE is `[00 | 18'0 | nbits(4) | byte(8)]`; MARK is `[10 | 16'0 | label(14)]`, then its payload.
pub record_words : Record → List ℕ
record_words (capture nbits byte) = (nbits * 2 ^ 8 + byte) ∷ []
record_words (mark label payload) = (2 * 2 ^ 30 + label) ∷ payload ∷ []

abbrev reason_bits : TrapReason → ℕ
reason_bits none = 0
reason_bits decode = 1
reason_bits config = 2
reason_bits rdsr = 3
reason_bits illegal = 4

abbrev bit : Bool → ℕ
bit true = 1
bit false = 0

-- `[11 | 17'0 | reason(3) | trap(1) | ovf(1) | status(8)]`
pub halt_word : Halt → ℕ
halt_word h =
    3 * 2 ^ 30 + reason_bits h.reason * 2 ^ 10 + bit h.trap * 2 ^ 9 + bit h.ovf * 2 ^ 8 + h.status

pub ring_words : List Record → List ℕ
ring_words [] = []
ring_words (r ∷ records) = record_words r ++ ring_words records

abbrev pub RecordFits : Record → Type 0
RecordFits (capture nbits byte) = (nbits < 16) × (byte < 256)
RecordFits (mark label payload) = label < 2 ^ 14

abbrev pub RevisionFits : Revision → Type 0
RevisionFits r = (r.major < 256) × (r.minor < 256) × (r.patch < 65536)

tag-mod : (w : ℕ) → tag_of w ≡ w / 2 ^ 30 % 4
unfolding tag_of
tag-mod w = bit_and_mask 2 (w / 2 ^ 30)

revision-back : (r : Revision) → RevisionFits r → revision_from_word (revision_word r) ≡ r
unfolding revision_from_word revision_word
revision-back r h = ground (arith, bit_and_mask 16 (r.major * 2 ^ 24 + r.minor * 2 ^ 16 + r.patch))

capture-back : (n b : ℕ) → n < 16 → b < 256 → capture_of (n * 2 ^ 8 + b) ≡ capture n b
unfolding capture_of
capture-back n b hn hb =
    ground (arith, bit_and_mask 4 ((n * 256 + b) / 256), bit_and_mask 8 (n * 256 + b))

mark-back : (l p : ℕ) → l < 2 ^ 14 → mark_of (2 * 2 ^ 30 + l) p ≡ mark l p
unfolding mark_of
mark-back l p h = ground (arith, bit_and_mask 14 (2 * 2 ^ 30 + l))

reason-back : (r : TrapReason) → (reason_bits r < 8) × (trap_reason_from_bits (reason_bits r) ≡ r)
unfolding trap_reason_from_bits
reason-back none = (omega arith, refl)
reason-back decode = (omega arith, refl)
reason-back config = (omega arith, refl)
reason-back rdsr = (omega arith, refl)
reason-back illegal = (omega arith, refl)

bit-back : (b : Bool) → (bit b < 2) × ((bit b == 1) ≡ b)
bit-back true = (omega arith, refl)
bit-back false = (omega arith, refl)

module _ (h : Halt) (fits : h.status < 256) where
  -- The fields of the terminator, by the places that the word holds.
  halt_fields :
      (halt_word h / 2 ^ 30 % 4 ≡ 3)
      × (halt_word h / 2 ^ 10 % 8 ≡ reason_bits h.reason)
      × (halt_word h / 2 ^ 9 % 2 ≡ bit h.trap)
      × (halt_word h / 2 ^ 8 % 2 ≡ bit h.ovf)
      × (halt_word h % 2 ^ 8 ≡ h.status)
  unfolding halt_word
  halt_fields = omega (arith, reason-back h.reason, bit-back h.trap, bit-back h.ovf)

  halt-back : halt_of (halt_word h) ≡ h
  unfolding halt_of
  halt-back = ground (
    arith,
    halt_fields,
    bit_and_mask 3 (halt_word h / 2 ^ 10),
    bit_and_mask 1 (halt_word h / 2 ^ 9),
    bit_and_mask 1 (halt_word h / 2 ^ 8),
    bit_and_mask 8 (halt_word h),
    reason-back h.reason,
    bit-back h.trap,
    bit-back h.ovf,
  )

  halt-ends :
      (rest : List ℕ) (v : Revision) (acc : List Record)
      → records_loop (halt_word h ∷ rest) v acc
        ≡ ok (record { revision = v; records = acc; halt = h })
  unfolding records_loop
  halt-ends [] v acc = ground (arith, tag-mod (halt_word h), halt_fields, halt-back)
  halt-ends (w ∷ rest) v acc = ground (arith, tag-mod (halt_word h), halt_fields, halt-back)

-- One record is read back, whatever words follow, if any word does.
record-read :
    (r : Record) (w : ℕ) (rest : List ℕ) (v : Revision) (acc : List Record)
    → RecordFits r
    → records_loop (record_words r ++ w ∷ rest) v acc ≡ records_loop (w ∷ rest) v (acc ++ r ∷ [])
unfolding record_words records_loop
record-read (capture n b) w rest v acc h =
    rw (tag-mod (n * 2 ^ 8 + b), capture-back n b h.0 h.1)
      (rw (eq→== ((n * 256 + b) / 1073741824 % 4) 0 (omega arith)))
record-read (mark l p) w rest v acc h =
    rw (tag-mod (2 * 2 ^ 30 + l), mark-back l p h)
      (rw (
        ne→== ((2147483648 + l) / 1073741824 % 4) 0 (omega arith),
        eq→== ((2147483648 + l) / 1073741824 % 4) 2 (omega arith),
      ))

next_word :
    (r : Record) (xs : List ℕ) (v : Revision) (acc : List Record)
    → RecordFits r
    → xs ≢ []
    → records_loop (record_words r ++ xs) v acc ≡ records_loop xs v (acc ++ r ∷ [])
next_word r [] v acc h more = absurd (more refl)
next_word r (w ∷ rest) v acc h more = record-read r w rest v acc h

append-ne : (xs : List ℕ) (w : ℕ) (rest : List ℕ) → xs ++ w ∷ rest ≢ []
append-ne [] w rest e = cc
append-ne (x ∷ xs) w rest e = cc

-- The words of all records are read back into them, in order, before a further word.
records-read :
    (rs : List Record) (w : ℕ) (rest : List ℕ) (v : Revision) (acc : List Record)
    → All RecordFits rs
    → records_loop (ring_words rs ++ w ∷ rest) v acc ≡ records_loop (w ∷ rest) v (acc ++ rs)
unfolding ring_words
records-read [] w rest v acc h = rw append-nil
records-read (r ∷ rs) w rest v acc (hr, h) = rw (append_assoc (record_words r)) (
    next_word r (ring_words rs ++ w ∷ rest) v acc hr (append-ne (ring_words rs) w rest)
    ∙ records-read rs w rest v (acc ++ r ∷ []) h
    ∙ rw (append_assoc acc (r ∷ []) rs))

ring-ne : (r : Record) (rs : List Record) → ring_words (r ∷ rs) ≢ []
unfolding ring_words record_words
ring-ne (capture n b) rs e = cc
ring-ne (mark l p) rs e = cc

last_record :
    (r : Record) (v : Revision) (acc : List Record)
    → RecordFits r
    → records_loop (ring_words (r ∷ [])) v acc ≡ err missing_terminator
unfolding ring_words record_words records_loop
last_record (capture n b) v acc h =
    rw (tag-mod (n * 2 ^ 8 + b)) (rw (eq→== ((n * 256 + b) / 1073741824 % 4) 0 (omega arith)))
last_record (mark l p) v acc h = rw (tag-mod (2 * 2 ^ 30 + l)) (
    rw (
      ne→== ((2147483648 + l) / 1073741824 % 4) 0 (omega arith),
      eq→== ((2147483648 + l) / 1073741824 % 4) 2 (omega arith),
    ))

unfold_first :
    (r : Record) (rs : List Record) (v : Revision) (acc : List Record)
    → records_loop (ring_words (r ∷ rs)) v acc
      ≡ records_loop (record_words r ++ ring_words rs) v acc
unfolding ring_words
unfold_first r rs v acc = refl

no_terminator :
    (rs : List Record) (v : Revision) (acc : List Record)
    → All RecordFits rs
    → records_loop (ring_words rs) v acc ≡ err missing_terminator
no_terminator [] v acc h = unfold ring_words records_loop in refl
no_terminator (r ∷ []) v acc (hr, h) = last_record r v acc hr
no_terminator (r ∷ r' ∷ rs) v acc (hr, h) =
    unfold_first r (r' ∷ rs) v acc
    ∙ next_word r (ring_words (r' ∷ rs)) v acc hr (ring-ne r' rs)
    ∙ no_terminator (r' ∷ rs) v (acc ++ r ∷ []) h

no_payload :
    (label : ℕ) (v : Revision) (acc : List Record)
    → label < 2 ^ 14
    → records_loop ((2 * 2 ^ 30 + label) ∷ []) v acc ≡ err truncated_mark
unfolding records_loop
no_payload l v acc h = rw (tag-mod (2 * 2 ^ 30 + l)) (
    rw (
      ne→== ((2147483648 + l) / 1073741824 % 4) 0 (omega arith),
      eq→== ((2147483648 + l) / 1073741824 % 4) 2 (omega arith),
    ))

-- A ring that is written by the documented layout decodes to the trace that was written, whatever words
-- stand behind the terminator.
pub decode_trace-layout :
    (t : Trace) (rest : List ℕ)
    → RevisionFits t.revision
    → All RecordFits t.records
    → t.halt.status < 256
    → decode_trace (revision_word t.revision ∷ ring_words t.records ++ halt_word t.halt ∷ rest)
      ≡ ok t
unfolding decode_trace
decode_trace-layout t rest hv hr hs = rw (revision-back t.revision hv) (
    records-read t.records (halt_word t.halt) rest t.revision [] hr
    ∙ halt-ends t.halt hs rest t.revision t.records)

-- A drain that is cut before the terminator is refused: at the end of a record for the missing terminator,
-- and between a MARK and its payload as a truncated MARK.
pub decode_trace_cut :
    (v : Revision) (rs : List Record) (label : ℕ)
    → All RecordFits rs
    → label < 2 ^ 14
    → (decode_trace (revision_word v ∷ ring_words rs) ≡ err missing_terminator)
      × (decode_trace (revision_word v ∷ (ring_words rs ++ (2 * 2 ^ 30 + label) ∷ []))
          ≡ err truncated_mark)
unfolding decode_trace
decode_trace_cut v rs label hr hl = (
  no_terminator rs _ [] hr,
  records-read rs (2 * 2 ^ 30 + label) [] _ [] hr ∙ no_payload label _ rs hl,
)
