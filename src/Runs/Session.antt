-- ===== src/Runs/Session.antt =====
-- The host of crates/tamal-loader at concrete programs, polls and rigs.
use tamal.Base.{
  ℕ, zero, suc, ◌<◌, ◌≤◌, ◌≡◌, refl, Result, ok, err, arith, List, [], ◌∷◌, ◌++◌, length, All, none,
  IsU32, false,
}
use tamal.Abi.Crc8.{crc8, crc8_from, crc8_update, crc8_rounds, crc8_round}
use tamal.Abi.Cobs.{cobs_encode, encode_loop, encode_step}
use tamal.Abi.Wire.{
  words_to_le_bytes, le_bytes_to_words, exact_words, from_le_bytes, frame_encode, delimiter,
}
use tamal.Abi.Trace.{
  Trace, TrapReason, decode_trace, expected, records_loop, tag_of, revision_from_word, halt_of,
  trap_reason_from_bits,
}
use tamal.Loader.Error.{Error, TransportError, max_program_words}
use tamal.Loader.Program.{validate_program_bytes, expect_words}
use tamal.Loader.Program.Valid.{validate-words, validate_sound}
use tamal.Loader.Transport.{Transport, idle, byte, read_frame}
use tamal.Loader.Transport.Framing.{
  closes, waits, brings, quiet, lull, stray, read_frame-frame_encode,
}
use tamal.Loader.Device.{RunOptions, saturating_succ, load_program, trigger, read_trace, run}
use tamal.Loader.Device.Retry.{
  IsLost, timed_out, Drains, drains, Fails, never, again, run-Fails, run-Fails_all, run-ok,
}
use tamal.Loader.Device.Rig.{RigState, rig, run-rig}

abbrev words : List ℕ
words = 0x40000022 ∷ []

words-IsU32 : All IsU32 words
words-IsU32 = (omega arith, tt)

validate-words_example : validate_program_bytes (words_to_le_bytes words) ≡ ok words
validate-words_example = validate-words words words-IsU32

one_word : validate_program_bytes (1 ∷ 2 ∷ 0 ∷ 0 ∷ []) ≡ ok (0x201 ∷ [])
unfolding validate_program_bytes expect_words le_bytes_to_words exact_words from_le_bytes
one_word = refl

validate_sound_example :
    (length {A = ℕ} (0x201 ∷ []) ≤ max_program_words)
    × (words_to_le_bytes (0x201 ∷ []) ≡ 1 ∷ 2 ∷ 0 ∷ 0 ∷ [])
validate_sound_example =
    validate_sound (1 ∷ 2 ∷ 0 ∷ 0 ∷ []) (0x201 ∷ [])
      (omega arith, (omega arith, (omega arith, (omega arith, tt)))) one_word

-- The frame of the one byte 7 is `03 07 15 00`.
framed : frame_encode (7 ∷ []) ≡ (3 ∷ 7 ∷ 0x15 ∷ []) ++ delimiter ∷ []
unfolding frame_encode cobs_encode encode_loop encode_step crc8 crc8_from crc8_update crc8_rounds
    crc8_round
framed = refl

read_frame-frame_encode_example :
    read_frame (
      (idle ∷ byte 0 ∷ []) ++ ((byte 3 ∷ idle ∷ byte 7 ∷ byte 0x15 ∷ byte 0 ∷ []) ++ (byte 9 ∷ [])))
    ≡ (ok (frame_encode (7 ∷ [])), byte 9 ∷ [])
read_frame-frame_encode_example =
    read_frame-frame_encode (7 ∷ []) (omega arith, tt) (lull (stray quiet))
      (brings 3 (waits (brings 7 (brings 0x15 closes)))) framed

-- An engine that halts with status 0x22, whatever the program.
abbrev halts : List ℕ → List ℕ
halts _ = 0x00010000 ∷ 0xC0000022 ∷ []

abbrev halted : Trace
halted = record {
  revision = expected;
  records = [];
  halt = record { trap = false; reason = TrapReason.none; ovf = false; status = 0x22 };
}

halts-halted : decode_trace (halts words) ≡ ok halted
unfolding decode_trace records_loop tag_of revision_from_word halt_of trap_reason_from_bits
halts-halted = refl

abbrev twice : RunOptions
twice = record { deadline = 500; retries = 1 }

abbrev fresh : RigState
fresh = record { memory = []; reply = none }

run-rig_example :
    run (rig halts) fresh words twice ≡ (ok halted, record { memory = words; reply = none })
run-rig_example =
    run-rig halts words twice fresh halted words-IsU32 (omega arith, (omega arith, tt)) halts-halted

answered : run (rig halts) fresh words twice ≡ (ok halted, record { memory = words; reply = none })
answered =
    run-rig halts words twice fresh halted words-IsU32 (omega arith, (omega arith, tt)) halts-halted

run-ok_example :
    (n : ℕ) × (n < saturating_succ 1)
    × (s1 : RigState) × Fails (rig halts) words twice n fresh s1
    × Drains (rig halts) words twice s1 (ok halted) (record { memory = words; reply = none })
run-ok_example = run-ok (rig halts) words twice answered

-- A port that takes every message and counts the reads it has left before one fails for good.
abbrev silent_read : ℕ → Result (List ℕ) TransportError × ℕ
silent_read zero = (err (TransportError.io 5), zero)
silent_read (suc n) = (err TransportError.timeout, n)

abbrev silent : Transport
silent = record { State = ℕ; send = λ s _. (ok tt, s); read_frame = λ s _. silent_read s }

silent_timeout :
    (n : ℕ) → Drains silent words twice (suc n) (err (Error.transport TransportError.timeout)) n
unfolding load_program trigger read_trace
silent_timeout n = drains {s1 = suc n} {s2 = suc n} refl refl refl

silent_fault : Drains silent words twice 0 (err (Error.transport (TransportError.io 5))) 0
unfolding load_program trigger read_trace
silent_fault = drains {s1 = 0} {s2 = 0} refl refl refl

io-fatal : ¬ (IsLost (Error.transport (TransportError.io 5)))
io-fatal h = elim h [ ]

two_attempts : saturating_succ 1 ≡ 2
unfolding saturating_succ
two_attempts = refl

run-Fails_example : run silent 1 words twice ≡ (err (Error.transport (TransportError.io 5)), 0)
run-Fails_example =
    run-Fails silent words twice (again (silent_timeout 0) timed_out never)
      (omega (arith, two_attempts)) silent_fault io-fatal

run-Fails_all_example :
    run silent 2 words twice ≡ (err (Error.retries_exhausted (saturating_succ 1)), 0)
run-Fails_all_example = run-Fails_all silent words twice (
    unfold saturating_succ in
    again (silent_timeout 1) timed_out (again (silent_timeout 0) timed_out never))
