-- ===== src/Loader/Error.antt =====
-- The error types of crates/tamal-loader/src/error.rs and of transport.rs. An `io::Error` is a number
-- that stands for it, and the message of a failed `open` is left out.
use tamal.Base.{ℕ}
use tamal.Abi.Wire.{WireError}
use tamal.Abi.Trace.{TraceError}

pub data TransportError : Type 0 where
  open_failed timeout : TransportError
  io : ℕ → TransportError

-- `panicked` has no counterpart: an `expect` of the program that met an error.
pub data Error : Type 0 where
  transport : TransportError → Error
  wire : WireError → Error
  trace : TraceError → Error
  bad_program_length program_too_large : ℕ → Error
  retries_exhausted : ℕ → Error
  panicked : Error

abbrev pub max_program_words : ℕ
max_program_words = 1024
