-- ===== src/Loader/Device.antt =====
-- crates/tamal-loader/src/device.rs: a session with a rig over a transport.
-- A method on `&mut self` takes the transport's state and gives its result and the state afterwards.
pub mod Retry
pub mod Rig
use tamal.Base.{
  ℕ, zero, suc, ◌+◌, ◌-◌, ◌^◌, Bool, true, false, List, ltb, if◌then◌else◌, Result, ok, err, ◌>>=◌,
  map_err,
}
use tamal.Abi.Wire.{ControlMsg, encode_control, decode_result}
use tamal.Abi.Trace.{Trace, decode_trace}
use tamal.Loader.Error.{Error, transport, wire, trace, retries_exhausted, timeout}
use tamal.Loader.Transport.{Transport}

pub record RunOptions : Type 0 where
  pub deadline : ℕ
  pub retries : ℕ

-- `m?` in a method: an error returns at once, with the state it left.
abbrev pub and_then {ℓ} :
    {S : Type ℓ} {A : Type 0} {B : Type 0}
    → Result A Error × S
    → (A → S → Result B Error × S)
    → Result B Error × S
and_then (ok a, s) f = f a s
and_then (err e, s) f = (err e, s)

-- `u32::saturating_add(1)`
unfoldable pub saturating_succ : ℕ → ℕ
saturating_succ n = if ltb n (2 ^ 32 - 1) then n + 1 else 2 ^ 32 - 1

-- The errors of a drain that `run` answers with another attempt.
unfoldable pub recoverable : Error → Bool
recoverable (transport timeout) = true
recoverable (wire _) = true
recoverable (trace _) = true
recoverable _ = false

module _ (T : Transport) where
  unfoldable pub load_program : T.State → List ℕ → Result (Unit {0}) Error × T.State
  load_program s words =
      let (sent, s') = T.send s (encode_control (ControlMsg.load_program words)) in
      (map_err transport sent, s')

  unfoldable pub trigger : T.State → Result (Unit {0}) Error × T.State
  trigger s =
      let (sent, s') = T.send s (encode_control ControlMsg.trigger) in (map_err transport sent, s')

  unfoldable pub read_trace : T.State → ℕ → Result Trace Error × T.State
  read_trace s deadline =
      let (read, s') = T.read_frame s deadline in
      let parsed = do
        frame ← map_err transport read
        words ← map_err wire (decode_result frame)
        map_err trace (decode_trace words)
      in (parsed, s')

  -- The arms of the `match` on a drain; the second argument is the rest of the loop.
  unfoldable pub after_drain :
      Result Trace Error × T.State
      → (T.State → Result Trace Error × T.State)
      → Result Trace Error × T.State
  after_drain (ok t, s) again = (ok t, s)
  after_drain (err e, s) again = if recoverable e then again s else (err e, s)

  -- The loop, with the attempts that are left.
  unfoldable pub run_loop : ℕ → ℕ → T.State → List ℕ → RunOptions → Result Trace Error × T.State
  run_loop zero attempts s words opts = (err (retries_exhausted attempts), s)
  run_loop (suc left) attempts s words opts =
      let again : T.State → Result Trace Error × T.State =
        λ s'. run_loop left attempts s' words opts in
      and_then (load_program s words)
        (λ _ s1. and_then (trigger s1) (λ _ s2. after_drain (read_trace s2 opts.deadline) again))

  unfoldable pub run : T.State → List ℕ → RunOptions → Result Trace Error × T.State
  run s words opts =
      let attempts = saturating_succ opts.retries in run_loop attempts attempts s words opts
