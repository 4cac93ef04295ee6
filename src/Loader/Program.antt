-- ===== src/Loader/Program.antt =====
-- `validate_program_bytes` of crates/tamal-loader/src/error.rs.
pub mod Valid
use tamal.Base.{ℕ, ◌/◌, ◌%◌, List, length, ltb, ◌==◌, not, if◌then◌else◌, Result, ok, err}
use tamal.Abi.Wire.{WireError, le_bytes_to_words}
use tamal.Loader.Error.{Error, bad_program_length, program_too_large, panicked, max_program_words}

-- `.expect("length checked to be a multiple of 4")`
unfoldable pub expect_words : Result (List ℕ) WireError → Result (List ℕ) Error
expect_words (ok words) = ok words
expect_words (err _) = err panicked

unfoldable pub validate_program_bytes : List ℕ → Result (List ℕ) Error
validate_program_bytes bytes =
    let words = length bytes / 4 in
    if not (length bytes % 4 == 0)
    then err (bad_program_length (length bytes))
    else if ltb max_program_words words
    then err (program_too_large words)
    else expect_words (le_bytes_to_words bytes)
