-- ===== src/Abi/Wire/Words.antt =====
-- Words as little-endian bytes, both ways.
use tamal.Base.{
  ℕ, ◌+◌, ◌*◌, ◌/◌, ◌%◌, ◌^◌, ◌≡◌, refl, subst, ap₂, List, [], ◌∷◌, ◌++◌, length, All, IsByte,
  IsU32, ok, ◌==◌, eq→==, ==→eq, Bool-cases, inl, inr, arith,
}
use tamal.Abi.Isa.Instr.{Instr}
use tamal.Abi.Isa.Encode.{to_le_bytes, encode, program_to_le_bytes}
use tamal.Abi.Wire.{words_to_le_bytes, from_le_bytes, exact_words, le_bytes_to_words}
use mathlib.Core.List.{map}

length-to_le_bytes : (w : ℕ) (rest : List ℕ) → length (to_le_bytes w ++ rest) ≡ length rest + 4
unfolding to_le_bytes
length-to_le_bytes w rest = omega arith

word_of_bytes :
    (w : ℕ)
    → IsU32 w
    → from_le_bytes (w % 2 ^ 8) (w / 2 ^ 8 % 2 ^ 8) (w / 2 ^ 16 % 2 ^ 8) (w / 2 ^ 24 % 2 ^ 8) ≡ w
unfolding from_le_bytes
word_of_bytes w h = omega arith

pub length-words : (ws : List ℕ) → length (words_to_le_bytes ws) ≡ 4 * length ws
unfolding words_to_le_bytes
length-words [] = refl
length-words (w ∷ ws) = omega (arith, length-to_le_bytes w (words_to_le_bytes ws), length-words ws)

exact-words : (ws : List ℕ) → All IsU32 ws → exact_words (words_to_le_bytes ws) ≡ ws
unfolding words_to_le_bytes exact_words to_le_bytes
exact-words [] h = refl
exact-words (w ∷ ws) (hw, h) = ap₂ ◌∷◌ (word_of_bytes w hw) (exact-words ws h)

-- Unpacking what was packed gives the words back.
pub le_bytes_to_words-words :
    (ws : List ℕ) → All IsU32 ws → le_bytes_to_words (words_to_le_bytes ws) ≡ ok ws
unfolding le_bytes_to_words
le_bytes_to_words-words ws h =
    rw (length-words ws, eq→== (4 * length ws % 4) 0 (omega arith), exact-words ws h)

bytes_of_word :
    (a b c d : ℕ)
    → IsByte a
    → IsByte b
    → IsByte c
    → IsByte d
    → to_le_bytes (from_le_bytes a b c d) ≡ a ∷ b ∷ c ∷ d ∷ []
unfolding to_le_bytes from_le_bytes
bytes_of_word a b c d ha hb hc hd = ground arith

words-exact :
    (bs : List ℕ) → All IsByte bs → length bs % 4 ≡ 0 → words_to_le_bytes (exact_words bs) ≡ bs
unfolding words_to_le_bytes exact_words
words-exact [] h e = refl
words-exact (a ∷ []) h e = absurd (omega arith)
words-exact (a ∷ b ∷ []) h e = absurd (omega arith)
words-exact (a ∷ b ∷ c ∷ []) h e = absurd (omega arith)
words-exact (a ∷ b ∷ c ∷ d ∷ bs) (ha, (hb, (hc, (hd, h)))) e =
    rw (bytes_of_word a b c d ha hb hc hd, words-exact bs h (omega arith))

-- What unpacking accepts it reads without loss: packing the words gives the bytes back.
pub words-le_bytes_to_words :
    (bs ws : List ℕ) → All IsByte bs → le_bytes_to_words bs ≡ ok ws → words_to_le_bytes ws ≡ bs
unfolding le_bytes_to_words
words-le_bytes_to_words bs ws h e = elim (Bool-cases (length bs % 4 == 0)) [
  | inl z ↦ subst (λ v. words_to_le_bytes v ≡ bs) (cc z) (words-exact bs h (==→eq _ 0 z))
  | inr n ↦ cc n
]

-- An assembled program as bytes is its instruction words as bytes.
pub program_to_le_bytes-words :
    (program : List Instr) → program_to_le_bytes program ≡ words_to_le_bytes (map encode program)
unfolding program_to_le_bytes words_to_le_bytes
program_to_le_bytes-words [] = refl
program_to_le_bytes-words (i ∷ program) = rw (program_to_le_bytes-words program)
