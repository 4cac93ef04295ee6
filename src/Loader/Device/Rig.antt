-- ===== src/Loader/Device/Rig.antt =====
-- The host against a rig that keeps the protocol: LOAD_PROGRAM commits words, TRIGGER runs them, and
-- the drain of the trace ring answers the next read. What the engine does with a program is a parameter.
use tamal.Base.{
  ℕ, zero, ◌≡◌, ◌<◌, List, ◌∷◌, Option, none, some, All, IsU32, Result, ok, err, arith,
}
use tamal.Abi.Wire.{
  ControlMsg, WireError, op_trace_drain, words_to_le_bytes, frame_encode, decode_control,
}
use tamal.Abi.Wire.RoundTrip.{decode-encode_control, decode_result-words}
use tamal.Abi.Trace.{Trace, decode_trace}
use tamal.Loader.Error.{TransportError, timeout}
use tamal.Loader.Transport.{Transport}
use tamal.Loader.Device.{RunOptions, saturating_succ, load_program, trigger, read_trace, run}
use tamal.Loader.Device.Retry.{Drains, drains, never, run-Fails}

pub record RigState : Type 0 where
  pub memory : List ℕ
  pub reply : Option (List ℕ)

module _ (engine : List ℕ → List ℕ) where
  abbrev pub receive : RigState → Result ControlMsg WireError → RigState
  receive s (ok (ControlMsg.load_program words)) = record { memory = words; reply = s.reply }
  receive s (ok ControlMsg.trigger) = record {
    memory = s.memory;
    reply = some (frame_encode (op_trace_drain ∷ words_to_le_bytes (engine s.memory)));
  }
  receive s (err _) = s

  abbrev pub answer : RigState → Option (List ℕ) → Result (List ℕ) TransportError × RigState
  answer s none = (err timeout, s)
  answer s (some frame) = (ok frame, record { memory = s.memory; reply = none })

  abbrev pub rig : Transport
  rig = record {
    State = RigState;
    send = λ s frame. (ok tt, receive s (decode_control frame));
    read_frame = λ s _. answer s s.reply;
  }

  rig-Drains :
      (words : List ℕ) (opts : RunOptions) (s : RigState) (t : Trace)
      → All IsU32 words
      → All IsU32 (engine words)
      → decode_trace (engine words) ≡ ok t
      → Drains rig words opts s (ok t) (record { memory = words; reply = none })
  rig-Drains words opts s t hw he ht =
      drains {s = s} {s1 = record { memory = words; reply = s.reply }}
        {s2 = record {
          memory = words;
          reply = some (frame_encode (op_trace_drain ∷ words_to_le_bytes (engine words)));
        }}
        {s3 = record { memory = words; reply = none }} {r = ok t}
        (unfold load_program in rw (decode-encode_control (ControlMsg.load_program words) hw))
        (unfold trigger in rw (decode-encode_control ControlMsg.trigger tt))
        (unfold read_trace in rw (decode_result-words (engine words) he, ht))

  -- Against such a rig, `run` gives the trace of the ring that the engine leaves for the words that were
  -- asked for, at the first attempt.
  pub run-rig :
      (words : List ℕ) (opts : RunOptions) (s : RigState) (t : Trace)
      → All IsU32 words
      → All IsU32 (engine words)
      → decode_trace (engine words) ≡ ok t
      → run rig s words opts ≡ (ok t, record { memory = words; reply = none })
  run-rig words opts s t hw he ht =
      run-Fails rig words opts never attempts (rig-Drains words opts s t hw he ht) tt
    where
      attempts : zero < saturating_succ opts.retries
      attempts = unfold saturating_succ in ground arith
