-- ===== src/Lang/Lexer.antt =====
-- crates/tamal-lang/src/lexer.rs. The source is a list of bytes, and the index `i` goes with the list
-- of the bytes that are left from it on.
pub mod Grammar
mod Comments
pub mod Lexed
use tamal.Base.{
  ℕ, zero, suc, ◌+◌, ◌==◌, leb, if◌then◌else◌, Bool, true, false, ◌&&◌, ◌||◌, not, List, [], ◌∷◌,
  ◌++◌, Option, none, some, length,
}
use tamal.Base.Bytes.{is_alphabetic, is_digit, take_while, not_newline}
use tamal.Asm.Diagnostics.{Span, Diagnostic, error, unterminated_comment, unexpected_character}
use tamal.Asm.Outcome.{Outcome}
use tamal.Asm.Scanner.{Token, Scan, gap, token, fault, lex_with}

pub data Tok : Type 0 where
  ident number lbrace rbrace comma lbracket rbracket lparen rparen : Tok
  equals colon arrow plus plus_plus caret newline eof : Tok

unfoldable pub is_ident_start : ℕ → Bool
is_ident_start c = c == b'_' || is_alphabetic c

unfoldable pub is_ident_continue : ℕ → Bool
is_ident_continue c = c == b'_' || (is_alphabetic c || is_digit c)

unfoldable pub is_number_continue : ℕ → Bool
is_number_continue c = c == b'_' || (is_alphabetic c || is_digit c)

-- The bytes of a block comment after its opening, up to its end, and what is left.
unfoldable pub comment_end : List ℕ → Option (List ℕ × List ℕ)
comment_end [] = none
comment_end (b ∷ []) = none
comment_end (b ∷ c ∷ bytes) =
    let more = comment_end (c ∷ bytes) in
    if b == b'*' && c == b'/'
    then some (b ∷ c ∷ [], bytes)
    else elim more [ none ↦ none | some (body, rest) ↦ some (b ∷ body, rest) ]

unfoldable pub scan_comment : ℕ → ℕ → Option (List ℕ × List ℕ) → Scan Tok
scan_comment i total none = fault (error (record { start = i; end = total }) unterminated_comment)
scan_comment i total (some (body, rest)) = gap (b'/' ∷ b'*' ∷ body) rest

-- `/`, where what follows it is left.
unfoldable pub scan_slash : ℕ → ℕ → List ℕ → Scan Tok
scan_slash i total [] =
    fault (error (record { start = i; end = i + 1 }) (unexpected_character b'/'))
scan_slash i total (c ∷ bytes) =
    if c == b'/'
    then (let (taken, rest) = take_while not_newline (c ∷ bytes) in gap (b'/' ∷ taken) rest)
    else if c == b'*'
    then scan_comment i total (comment_end bytes)
    else fault (error (record { start = i; end = i + 1 }) (unexpected_character b'/'))

-- A byte that may have a second one with it, as in `->` and `++`.
unfoldable pub scan_pair : ℕ → ℕ → Tok → List ℕ → Scan Tok → Scan Tok
scan_pair b c kind [] other = other
scan_pair b c kind (d ∷ bytes) other = if d == c then token kind (b ∷ d ∷ []) bytes else other

unfoldable pub scan_word : ℕ → List ℕ → ℕ → Scan Tok
scan_word c bytes i =
    if is_ident_start c
    then (let (taken, rest) = take_while is_ident_continue bytes in
        token Tok.ident (c ∷ taken) rest)
    else if is_digit c
    then (let (taken, rest) = take_while is_number_continue bytes in
        token Tok.number (c ∷ taken) rest)
    else fault (error (record { start = i; end = i + 1 }) (unexpected_character c))

-- The token of one byte, if the byte always is one.
unfoldable pub single : ℕ → Option Tok
single c =
    if c == b'\n'
    then some Tok.newline
    else if c == b'{'
    then some Tok.lbrace
    else if c == b'}'
    then some Tok.rbrace
    else if c == b','
    then some Tok.comma
    else if c == b'['
    then some Tok.lbracket
    else if c == b']'
    then some Tok.rbracket
    else if c == b'('
    then some Tok.lparen
    else if c == b')'
    then some Tok.rparen
    else if c == b'='
    then some Tok.equals
    else if c == b':'
    then some Tok.colon
    else if c == b'^'
    then some Tok.caret
    else none

unfoldable pub scan : ℕ → ℕ → ℕ → List ℕ → Scan Tok
scan i total c bytes =
    if c == b' ' || c == b'\t' || c == b'\r'
    then gap (c ∷ []) bytes
    else if c == b'/'
    then scan_slash i total bytes
    else elim (single c) [
      | some kind ↦ token kind (c ∷ []) bytes
      | none ↦
          if c == b'-'
          then scan_pair c b'>' Tok.arrow bytes (scan_word c bytes i)
          else if c == b'+'
          then scan_pair c b'+' Tok.plus_plus bytes (token Tok.plus (c ∷ []) bytes)
          else scan_word c bytes i
    ]

unfoldable pub lex : List ℕ → Outcome (List (Token Tok))
lex = lex_with scan Tok.eof
