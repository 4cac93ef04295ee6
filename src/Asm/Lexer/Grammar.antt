-- ===== src/Asm/Lexer/Grammar.antt =====
-- A grammar of the tokens of crates/tamal-asm/src/lexer.rs and of what stands between them.
use tamal.Base.{
  ℕ, ◌+◌, ◌*◌, ◌==◌, ◌≡◌, ◌≤◌, ◌<◌, true, ◌||◌, some, List, [], ◌∷◌, ◌++◌, length, length-append,
  All, arith,
}
use tamal.Base.Int.{ℤ, pos, negate}
use tamal.Base.Text.{ascii}
use tamal.Base.Bytes.{not_newline, Stops}
use tamal.Asm.Lexer.{TokKind, is_ident_start, is_ident_continue, to_digit, i64_max}

-- What stands between tokens: a space, a comment up to its newline.
pub data Blank : List ℕ → List ℕ → Type 0 where
  space :
      {c : ℕ} {rest : List ℕ} → (c == b' ' || c == b'\t' || c == b'\r') ≡ true → Blank (c ∷ []) rest
  comment :
      {c : ℕ} {text rest : List ℕ}
      → (c == b'#' || c == b';') ≡ true
      → All (λ b. not_newline b ≡ true) text
      → Stops not_newline rest
      → Blank (c ∷ text) rest

-- The digits of a number in this radix, the highest one first.
pub data Digits (radix : ℕ) : List ℕ → ℕ → Type 0 where
  no_digits : Digits radix [] 0
  digit :
      (front : List ℕ) (c n d : ℕ)
      → Digits radix front n
      → to_digit radix c ≡ some d
      → Digits radix (front ++ c ∷ []) (n * radix + d)

pub data Prefix : ℕ → List ℕ → Type 0 where
  decimal : Prefix 10 []
  hexadecimal : {c : ℕ} → (c == b'x' || c == b'X') ≡ true → Prefix 16 (b'0' ∷ c ∷ [])
  binary : {c : ℕ} → (c == b'b' || c == b'B') ≡ true → Prefix 2 (b'0' ∷ c ∷ [])

pub data Sign : List ℕ → (ℕ → ℤ) → Type 0 where
  unsigned : Sign [] pos
  minus : Sign (b'-' ∷ []) (λ mag. negate (pos mag))

-- The text of a token, in front of this rest: names and numbers are as long as they can be.
pub data Lexeme : TokKind → List ℕ → List ℕ → Type 0 where
  a_newline : {rest : List ℕ} → Lexeme TokKind.newline (b'\n' ∷ []) rest
  a_comma : {rest : List ℕ} → Lexeme TokKind.comma (b',' ∷ []) rest
  a_colon : {rest : List ℕ} → Lexeme TokKind.colon (b':' ∷ []) rest
  name :
      {c : ℕ} {text rest : List ℕ}
      → is_ident_start c ≡ true
      → All (λ b. is_ident_continue b ≡ true) text
      → Stops is_ident_continue rest
      → Lexeme (TokKind.ident (ascii (c ∷ text))) (c ∷ text) rest
  dotted :
      {c : ℕ} {text rest : List ℕ}
      → All (λ b. is_ident_continue b ≡ true) (c ∷ text)
      → Stops is_ident_continue rest
      → Lexeme (TokKind.directive (ascii (c ∷ text))) (b'.' ∷ c ∷ text) rest
  numeral :
      (sign : List ℕ) (value : ℕ → ℤ) (radix : ℕ) (prefix : List ℕ) (c : ℕ) (digits : List ℕ)
      (mag : ℕ) {rest : List ℕ}
      → Sign sign value
      → Prefix radix prefix
      → Digits radix (c ∷ digits) mag
      → mag ≤ i64_max
      → Stops is_ident_continue rest
      → Lexeme (TokKind.num (value mag)) (sign ++ prefix ++ c ∷ digits) rest

pub Blank-length : (text rest : List ℕ) → Blank text rest → 0 < length text
Blank-length _ _ (space h) = omega arith
Blank-length _ _ (comment h every stop) = omega arith

pub Lexeme-length : (kind : TokKind) (text rest : List ℕ) → Lexeme kind text rest → 0 < length text
Lexeme-length _ _ _ a_newline = omega arith
Lexeme-length _ _ _ a_comma = omega arith
Lexeme-length _ _ _ a_colon = omega arith
Lexeme-length _ _ _ (name h every stop) = omega arith
Lexeme-length _ _ _ (dotted every stop) = omega arith
Lexeme-length _ _ _ (numeral sign value radix prefix c digits mag s p d b stop) =
    let all = length-append (sign ++ prefix) (c ∷ digits) in omega arith
