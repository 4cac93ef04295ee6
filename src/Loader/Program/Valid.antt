-- ===== src/Loader/Program/Valid.antt =====
-- What `validate_program_bytes` lets through.
use tamal.Base.{
  ℕ, ◌≤◌, ◌≡◌, ◌≢◌, List, length, All, IsByte, IsU32, leb, if◌then◌else◌, ok, err, Result-cases, ap,
  inl, inr, arith,
}
use tamal.Abi.Wire.{words_to_le_bytes, le_bytes_to_words}
use tamal.Abi.Wire.Words.{length-words, le_bytes_to_words-words, words-le_bytes_to_words}
use tamal.Loader.Error.{program_too_large, panicked, max_program_words}
use tamal.Loader.Program.{expect_words, validate_program_bytes}

-- The bytes of any program are read back as its words when there are at most 1024, and else refused with
-- their number.
pub validate-words :
    (ws : List ℕ)
    → All IsU32 ws
    → validate_program_bytes (words_to_le_bytes ws)
      ≡ (if leb (length ws) max_program_words then ok ws else err (program_too_large (length ws)))
unfolding validate_program_bytes expect_words
validate-words ws h = rw (length-words ws, le_bytes_to_words-words ws h) (ground arith)

-- A program that is let through has at most 1024 words, and they are the bytes of the file.
pub validate_sound :
    (bs ws : List ℕ)
    → All IsByte bs
    → validate_program_bytes bs ≡ ok ws
    → (length ws ≤ max_program_words) × (words_to_le_bytes ws ≡ bs)
unfolding validate_program_bytes expect_words
validate_sound bs ws h e = elim (Result-cases (le_bytes_to_words bs)) [
  | inl (vs, p) ↦ ground (
    arith,
    p,
    words-le_bytes_to_words bs vs h p,
    length-words vs,
    ap length (words-le_bytes_to_words bs vs h p),
  )
  | inr (x, p) ↦ ground (arith, p)
]

-- The `expect` on the words meets no error, on any bytes.
pub validate-ne-panicked : (bs : List ℕ) → validate_program_bytes bs ≢ err panicked
unfolding validate_program_bytes expect_words le_bytes_to_words
validate-ne-panicked bs e = ground arith
