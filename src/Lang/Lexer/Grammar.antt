-- ===== src/Lang/Lexer/Grammar.antt =====
-- A grammar of the tokens of crates/tamal-lang/src/lexer.rs and of what stands between them.
use tamal.Base.{
  ℕ, ◌==◌, ◌≡◌, ◌≢◌, Bool, true, false, ◌||◌, Option, none, some, List, [], ◌∷◌, ◌++◌, length, All,
  ◌<◌, arith,
}
use tamal.Base.Bytes.{is_digit, not_newline, Stops}
use tamal.Lang.Lexer.{Tok, is_ident_start, is_ident_continue, is_number_continue}

-- The text of a token that always has the same one.
abbrev pub mark : Tok → Option (List ℕ)
mark Tok.ident = none
mark Tok.number = none
mark Tok.lbrace = some (b'{' ∷ [])
mark Tok.rbrace = some (b'}' ∷ [])
mark Tok.comma = some (b',' ∷ [])
mark Tok.lbracket = some (b'[' ∷ [])
mark Tok.rbracket = some (b']' ∷ [])
mark Tok.lparen = some (b'(' ∷ [])
mark Tok.rparen = some (b')' ∷ [])
mark Tok.equals = some (b'=' ∷ [])
mark Tok.colon = some (b':' ∷ [])
mark Tok.arrow = some (b'-' ∷ b'>' ∷ [])
mark Tok.plus = some (b'+' ∷ [])
mark Tok.plus_plus = some (b'+' ∷ b'+' ∷ [])
mark Tok.caret = some (b'^' ∷ [])
mark Tok.newline = some (b'\n' ∷ [])
mark Tok.eof = none

-- The token and this byte are a longer token.
abbrev pub extends : Tok → ℕ → Bool
extends Tok.plus b = b == b'+'
extends _ b = false

-- No end of a block comment is in the text.
abbrev pub Inside : List ℕ → Type 0
Inside text = (xs ys : List ℕ) → text ≢ xs ++ b'*' ∷ b'/' ∷ ys

-- What stands between tokens: a space, a line comment up to its newline, a block comment up to the first
-- end after its opening.
pub data Blank : List ℕ → List ℕ → Type 0 where
  space :
      {c : ℕ} {rest : List ℕ} → (c == b' ' || c == b'\t' || c == b'\r') ≡ true → Blank (c ∷ []) rest
  line :
      {text rest : List ℕ}
      → All (λ b. not_newline b ≡ true) text
      → Stops not_newline rest
      → Blank (b'/' ∷ b'/' ∷ text) rest
  block :
      (text : List ℕ) {rest : List ℕ}
      → Inside text
      → Blank (b'/' ∷ b'*' ∷ text ++ b'*' ∷ b'/' ∷ []) rest

-- The text of a token, in front of this rest: words are as long as they can be, and so is `+`.
pub data Lexeme : Tok → List ℕ → List ℕ → Type 0 where
  sign :
      {kind : Tok} {c : ℕ} {text rest : List ℕ}
      → mark kind ≡ some (c ∷ text)
      → Stops (extends kind) rest
      → Lexeme kind (c ∷ text) rest
  name :
      {c : ℕ} {text rest : List ℕ}
      → is_ident_start c ≡ true
      → All (λ b. is_ident_continue b ≡ true) text
      → Stops is_ident_continue rest
      → Lexeme Tok.ident (c ∷ text) rest
  numeral :
      {c : ℕ} {text rest : List ℕ}
      → is_digit c ≡ true
      → All (λ b. is_number_continue b ≡ true) text
      → Stops is_number_continue rest
      → Lexeme Tok.number (c ∷ text) rest

pub Blank-length : (text rest : List ℕ) → Blank text rest → 0 < length text
Blank-length _ _ (space h) = omega arith
Blank-length _ _ (line every stop) = omega arith
Blank-length _ _ (block text h) = omega arith

pub Lexeme-length : (kind : Tok) (text rest : List ℕ) → Lexeme kind text rest → 0 < length text
Lexeme-length _ _ _ (sign m stop) = omega arith
Lexeme-length _ _ _ (name h every stop) = omega arith
Lexeme-length _ _ _ (numeral h every stop) = omega arith
