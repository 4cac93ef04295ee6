-- ===== src/Asm/Lexer.antt =====
-- crates/tamal-asm/src/lexer.rs. The source is a list of bytes; Asm/Scanner has the loop.
pub mod Grammar
pub mod Lexed
use Prim.Native.String.{String}
use tamal.Base.{
  ℕ, zero, suc, ◌+◌, ◌-◌, ◌*◌, ◌^◌, ◌==◌, leb, ltb, if◌then◌else◌, Bool, true, false, ◌&&◌, ◌||◌,
  List, [], ◌∷◌, ◌++◌, Option, none, some, length,
}
use tamal.Base.Int.{ℤ, pos, negate}
use tamal.Base.Text.{ascii}
use tamal.Base.Bytes.{is_alphabetic, is_digit, not_newline, take_while}
use tamal.Asm.Diagnostics.{
  Span, Diagnostic, error, unexpected_character, empty_directive, malformed_number, invalid_number,
}
use tamal.Asm.Outcome.{Outcome}
use tamal.Asm.Scanner.{Token, Scan, gap, token, fault, lex_with}

pub data TokKind : Type 0 where
  ident : String → TokKind
  num : ℤ → TokKind
  directive : String → TokKind
  comma colon newline eof : TokKind

unfoldable pub is_ident_start : ℕ → Bool
is_ident_start c = is_alphabetic c || c == b'_'

unfoldable pub is_ident_continue : ℕ → Bool
is_ident_continue c = (is_alphabetic c || is_digit c) || c == b'_'

-- `char::to_digit` in a radix of at most 36.
abbrev pub below_radix : ℕ → ℕ → Option ℕ
below_radix radix d = if ltb d radix then some d else none

abbrev pub to_digit : ℕ → ℕ → Option ℕ
to_digit radix c =
    if is_digit c
    then below_radix radix (c - b'0')
    else if leb b'a' c && leb c b'z'
    then below_radix radix (c - b'a' + 10)
    else if leb b'A' c && leb c b'Z'
    then below_radix radix (c - b'A' + 10)
    else none

-- `i64::MAX`.
abbrev pub i64_max : ℕ
i64_max = 2 ^ 63 - 1

-- `i64::from_str_radix` of digits without a sign, after those that make up the first argument.
unfoldable pub from_digits : ℕ → ℕ → List ℕ → Option ℕ
from_digits radix n [] = some n
from_digits radix n (c ∷ digits) = elim (to_digit radix c) [
  | none ↦ none
  | some d ↦
      (let value = n * radix + d in
        let more = from_digits radix value digits in if leb value i64_max then more else none)
]

-- The prefix of a literal, if it has one, with its radix, and what is left.
unfoldable pub radix_prefix : List ℕ → ℕ × List ℕ × List ℕ
radix_prefix [] = (10, [], [])
radix_prefix (b ∷ []) = (10, [], b ∷ [])
radix_prefix (b ∷ c ∷ bytes) =
    if b == b'0' && (c == b'x' || c == b'X')
    then (16, b ∷ c ∷ [], bytes)
    else if b == b'0' && (c == b'b' || c == b'B')
    then (2, b ∷ c ∷ [], bytes)
    else (10, [], b ∷ c ∷ bytes)

unfoldable pub scan_directive : ℕ → List ℕ × List ℕ → Scan TokKind
scan_directive i ([], rest) = fault (error (record { start = i; end = i + 1 }) empty_directive)
scan_directive i (c ∷ name, rest) = token (directive (ascii (c ∷ name))) (b'.' ∷ c ∷ name) rest

-- The literal of this sign, prefix and digits, and what is left.
unfoldable pub number_token : ℕ → List ℕ → (ℕ → ℤ) → ℕ → List ℕ → List ℕ × List ℕ → Scan TokKind
number_token i sign value radix prefix ([], rest) =
    fault (error (record { start = i; end = i + length (sign ++ prefix) }) malformed_number)
number_token i sign value radix prefix (c ∷ digits, rest) =
    elim (from_digits radix 0 (c ∷ digits)) [
      | some mag ↦ token (num (value mag)) (sign ++ prefix ++ c ∷ digits) rest
      | none ↦ fault (
          error (record { start = i; end = i + length (sign ++ prefix ++ c ∷ digits) })
            (invalid_number (ascii (prefix ++ c ∷ digits))))
    ]

unfoldable pub scan_number : ℕ → List ℕ → (ℕ → ℤ) → List ℕ → Scan TokKind
scan_number i sign value bytes =
    let (radix, prefix, body) = radix_prefix bytes in
    number_token i sign value radix prefix (take_while is_ident_continue body)

unfoldable pub scan : ℕ → ℕ → ℕ → List ℕ → Scan TokKind
scan i total c bytes =
    if c == b' ' || c == b'\t' || c == b'\r'
    then gap (c ∷ []) bytes
    else if c == b'#' || c == b';'
    then (let (text, rest) = take_while not_newline bytes in gap (c ∷ text) rest)
    else if c == b'\n'
    then token newline (c ∷ []) bytes
    else if c == b','
    then token comma (c ∷ []) bytes
    else if c == b':'
    then token colon (c ∷ []) bytes
    else if c == b'.'
    then scan_directive i (take_while is_ident_continue bytes)
    else if c == b'-'
    then scan_number i (c ∷ []) (λ mag. negate (pos mag)) bytes
    else if is_digit c
    then scan_number i [] pos (c ∷ bytes)
    else if is_ident_start c
    then (let (text, rest) = take_while is_ident_continue bytes in
        token (ident (ascii (c ∷ text))) (c ∷ text) rest)
    else fault (error (record { start = i; end = i + 1 }) (unexpected_character c))

unfoldable pub lex : List ℕ → Outcome (List (Token TokKind))
lex = lex_with scan eof
