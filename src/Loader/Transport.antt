-- ===== src/Loader/Transport.antt =====
-- crates/tamal-loader/src/transport.rs: the interface of a byte pipe, and the framing of the UART reads.
-- The serial port is a library: what its `read` returns is a list of polls.
pub mod Framing
use tamal.Base.{
  ℕ, Bool, true, false, List, [], ◌∷◌, ◌++◌, Option, none, some, ◌==◌, if◌then◌else◌, Result, ok,
  err,
}
use tamal.Abi.Cobs.{is_empty}
use tamal.Abi.Wire.{delimiter}
use tamal.Loader.Error.{TransportError, timeout, io}

-- `trait Transport`: a call gives its result and the transport afterwards. A `Duration` is a number.
pub record Transport : Type 1 where
  pub State : Type 0
  pub send : State → List ℕ → Result (Unit {0}) TransportError × State
  pub read_frame : State → ℕ → Result (List ℕ) TransportError × State

-- The returned frame, if this byte closes one, and the accumulator.
unfoldable pub push_frame_byte : List ℕ → ℕ → Option (List ℕ) × List ℕ
push_frame_byte acc byte =
    if byte == delimiter
    then (if is_empty acc then (none, acc) else (some (acc ++ byte ∷ []), []))
    else (none, acc ++ byte ∷ [])

-- One round of the loop of `UartTransport::read_frame`: the deadline has passed, or what `port.read` gives.
-- `Ok(0)` and an error of kind `TimedOut` are `idle`.
pub data Poll : Type 0 where
  expired idle : Poll
  byte failed : ℕ → Poll

-- The loop, with the accumulated bytes, and the polls that are left afterwards. Time passes at every poll,
-- so the deadline is reached when the list ends.
unfoldable pub read_loop : List Poll → List ℕ → Result (List ℕ) TransportError × List Poll
read_loop [] acc = (err timeout, [])
read_loop (expired ∷ polls) acc = (err timeout, polls)
read_loop (idle ∷ polls) acc = read_loop polls acc
read_loop (failed e ∷ polls) acc = (err (io e), polls)
read_loop (byte b ∷ polls) acc =
    let (frame, acc') = push_frame_byte acc b in
    let more = read_loop polls acc' in elim frame [ some f ↦ (ok f, polls) | none ↦ more ]

unfoldable pub read_frame : List Poll → Result (List ℕ) TransportError × List Poll
read_frame polls = read_loop polls []
