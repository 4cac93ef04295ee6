-- ===== src/Lang/Lexer/Lexed.antt =====
-- lex of crates/tamal-lang/src/lexer.rs against the grammar of Lexer/Grammar.
use tamal.Base.{
  ℕ, ◌==◌, ◌≡◌, refl, sym, ap, subst, true, false, if◌then◌else◌, ◌||◌, Option, none, some, List,
  [], ◌∷◌, ==→eq,
}
use tamal.Base.Bytes.{
  is_digit, not_newline, take_while, Stops, Stops-false, branch, Taken, taken, take_while-Taken,
}
use tamal.Asm.Scanner.{Scan, gap, token}
use tamal.Asm.Outcome.{Yields}
use tamal.Asm.Scanner.Lexed.{Lexed, lex_with-Lexed, Scanned, a_gap, a_token, a_fault}
use tamal.Lang.Lexer.{
  Tok, is_ident_start, is_ident_continue, is_number_continue, comment_end, scan_comment, scan_slash,
  scan_pair, scan_word, single, scan, lex,
}
use tamal.Lang.Lexer.Grammar.{
  Blank-length, Lexeme-length, mark, extends, Blank, Lexeme, space, line, block, sign, name,
  numeral,
}
use tamal.Lang.Lexer.Comments.{Closed, comment_end-Closed, endless, closed}

-- The bytes of a line comment, from its second `/` on.
abbrev line_of : ℕ → List ℕ → Scan Tok
line_of c bytes = let (text, rest) = take_while not_newline (c ∷ bytes) in gap (b'/' ∷ text) rest

line_of-Scanned : (bytes : List ℕ) → Scanned Blank Lexeme (b'/' ∷ b'/' ∷ bytes) (line_of b'/' bytes)
unfolding take_while
line_of-Scanned bytes = whole (take_while not_newline bytes) (take_while-Taken not_newline bytes)
  where
    whole :
        (pair : List ℕ × List ℕ)
        → Taken not_newline bytes pair
        → Scanned Blank Lexeme (b'/' ∷ b'/' ∷ bytes) (gap (b'/' ∷ b'/' ∷ pair.0) pair.1)
    whole pair (taken e every stop) = a_gap (rw e) (line every stop)

module _ (i total : ℕ) where
  scan_slash-Scanned :
      (bytes : List ℕ) → Scanned Blank Lexeme (b'/' ∷ bytes) (scan_slash i total bytes)
  unfolding scan_slash scan_comment
  scan_slash-Scanned [] = a_fault
  scan_slash-Scanned (c ∷ bytes) =
      branch (Scanned Blank Lexeme (b'/' ∷ c ∷ bytes)) (c == b'/')
        (λ h.
          subst (λ d. Scanned Blank Lexeme (b'/' ∷ d ∷ bytes) (line_of d bytes)) (sym (==→eq c _ h))
            (line_of-Scanned bytes))
        (λ _.
          branch (Scanned Blank Lexeme (b'/' ∷ c ∷ bytes)) (c == b'*')
            (λ h. a_block (comment_end bytes) (==→eq c _ h) (comment_end-Closed bytes))
            (λ _. a_fault))
    where
      a_block :
          (end : Option (List ℕ × List ℕ))
          → c ≡ b'*'
          → Closed bytes end
          → Scanned Blank Lexeme (b'/' ∷ c ∷ bytes) (scan_comment i total end)
      a_block end h endless = a_fault
      a_block end h (closed text {rest} e k) = a_gap (rw (h, e)) (block text k)

  scan_word-Scanned :
      (c : ℕ) (bytes : List ℕ) → Scanned Blank Lexeme (c ∷ bytes) (scan_word c bytes i)
  unfolding scan_word
  scan_word-Scanned c bytes =
      branch (Scanned Blank Lexeme (c ∷ bytes)) (is_ident_start c)
        (λ h.
          a_name h (take_while is_ident_continue bytes) (take_while-Taken is_ident_continue bytes))
        (λ _.
          branch (Scanned Blank Lexeme (c ∷ bytes)) (is_digit c)
            (λ h.
              a_numeral h (take_while is_number_continue bytes)
                (take_while-Taken is_number_continue bytes))
            (λ _. a_fault))
    where
      a_name :
          is_ident_start c ≡ true
          → (pair : List ℕ × List ℕ) → Taken is_ident_continue bytes pair
          → Scanned Blank Lexeme (c ∷ bytes) (token Tok.ident (c ∷ pair.0) pair.1)
      a_name h pair (taken e every stop) = a_token (ap (c ∷◌) e) (name h every stop)

      a_numeral :
          is_digit c ≡ true
          → (pair : List ℕ × List ℕ) → Taken is_number_continue bytes pair
          → Scanned Blank Lexeme (c ∷ bytes) (token Tok.number (c ∷ pair.0) pair.1)
      a_numeral h pair (taken e every stop) = a_token (ap (c ∷◌) e) (numeral h every stop)

-- What `single` says of a byte.
data Single (c : ℕ) : Option Tok → Type 0 where
  other : Single c none
  known :
      {kind : Tok}
      → mark kind ≡ some (c ∷ [])
      → ((b : ℕ) → extends kind b ≡ false)
      → Single c (some kind)

single-Single : (c : ℕ) → Single c (single c)
unfolding single
single-Single c =
    at Tok.newline b'\n' refl (λ _. refl)
      (at Tok.lbrace b'{' refl (λ _. refl)
        (at Tok.rbrace b'}' refl (λ _. refl)
          (at Tok.comma b',' refl (λ _. refl)
            (at Tok.lbracket b'[' refl (λ _. refl)
              (at Tok.rbracket b']' refl (λ _. refl)
                (at Tok.lparen b'(' refl (λ _. refl)
                  (at Tok.rparen b')' refl (λ _. refl)
                    (at Tok.equals b'=' refl (λ _. refl)
                      (at Tok.colon b':' refl (λ _. refl)
                        (at Tok.caret b'^' refl (λ _. refl) (other)))))))))))
  where
    at :
        (kind : Tok) (k : ℕ) {rest : Option Tok}
        → mark kind ≡ some (k ∷ [])
        → ((b : ℕ) → extends kind b ≡ false)
        → Single c rest
        → Single c (if c == k then some kind else rest)
    at kind k m never h =
        branch (Single c) (c == k)
          (λ t. known (subst (λ x. mark kind ≡ some (x ∷ [])) (sym (==→eq c k t)) m) never) (λ _. h)

scan_pair-Scanned :
    (b c : ℕ) (kind : Tok) (bytes : List ℕ) {rest : Scan Tok}
    → mark kind ≡ some (b ∷ c ∷ [])
    → ((x : ℕ) → extends kind x ≡ false)
    → (Stops (λ x. x == c) bytes → Scanned Blank Lexeme (b ∷ bytes) rest)
    → Scanned Blank Lexeme (b ∷ bytes) (scan_pair b c kind bytes rest)
unfolding scan_pair
scan_pair-Scanned b c kind [] m never h = h tt
scan_pair-Scanned b c kind (d ∷ bytes) m never h =
    branch (Scanned Blank Lexeme (b ∷ d ∷ bytes)) (d == c)
      (λ t. a_token refl (
        sign (subst (λ x. mark kind ≡ some (b ∷ x ∷ [])) (sym (==→eq d c t)) m)
          (Stops-false (extends kind) never bytes)))
      h

scan-Scanned :
    (i total c : ℕ) (bytes : List ℕ) → Scanned Blank Lexeme (c ∷ bytes) (scan i total c bytes)
unfolding scan
scan-Scanned i total c bytes =
    branch (Scanned Blank Lexeme (c ∷ bytes)) (c == b' ' || c == b'\t' || c == b'\r')
      (λ h. a_gap refl (space h))
      (λ _.
        branch (Scanned Blank Lexeme (c ∷ bytes)) (c == b'/')
          (λ h.
            subst (λ x. Scanned Blank Lexeme (x ∷ bytes) (scan_slash i total bytes))
              (sym (==→eq c _ h)) (scan_slash-Scanned i total bytes))
          (λ _. arm (single-Single c)))
  where
    minus :
        (c == b'-') ≡ true
        → Scanned Blank Lexeme (c ∷ bytes) (scan_pair c b'>' Tok.arrow bytes (scan_word c bytes i))
    minus h =
        scan_pair-Scanned c b'>' Tok.arrow bytes
          (ap (λ x. some (x ∷ b'>' ∷ [])) (sym (==→eq c _ h))) (λ _. refl)
          (λ _. scan_word-Scanned i total c bytes)

    plus :
        (c == b'+') ≡ true
        → Scanned Blank Lexeme
            (c ∷ bytes)
            (scan_pair c b'+' Tok.plus_plus bytes (token Tok.plus (c ∷ []) bytes))
    plus h =
        scan_pair-Scanned c b'+' Tok.plus_plus bytes
          (ap (λ x. some (x ∷ b'+' ∷ [])) (sym (==→eq c _ h))) (λ _. refl)
          (λ stop. a_token refl (sign (ap (λ x. some (x ∷ [])) (sym (==→eq c _ h))) stop))

    arm :
        {o : Option Tok}
        → Single c o
        → Scanned Blank Lexeme (c ∷ bytes) (elim o [
          | some kind ↦ token kind (c ∷ []) bytes
          | none ↦
              if c == b'-'
              then scan_pair c b'>' Tok.arrow bytes (scan_word c bytes i)
              else if c == b'+'
              then scan_pair c b'+' Tok.plus_plus bytes (token Tok.plus (c ∷ []) bytes)
              else scan_word c bytes i
        ])
    arm other = branch (Scanned Blank Lexeme (c ∷ bytes)) (c == b'-') minus (λ _.
        branch (Scanned Blank Lexeme (c ∷ bytes)) (c == b'+') plus
          (λ _. scan_word-Scanned i total c bytes))
    arm (known {kind} m never) = a_token refl (sign m (Stops-false (extends kind) never bytes))

-- On every source the lexer of the compiler gives an answer, and tokens that it gives are those of the
-- source by the grammar: with the spaces and comments between them they make up the source, each with the
-- span that it covers. A block comment goes up to the first end after its opening, and names, numbers and
-- `+` are as long as they can be.
pub lex-Lexed : (src : List ℕ) → Yields (Lexed Blank Lexeme Tok.eof 0 src) (lex src)
unfolding lex
lex-Lexed = lex_with-Lexed scan Tok.eof Blank-length Lexeme-length scan-Scanned
