-- ===== src/Asm/Lexer/Lexed.antt =====
-- lex of crates/tamal-asm/src/lexer.rs against the grammar of Lexer/Grammar.
use tamal.Base.{
  ℕ, ◌+◌, ◌*◌, ◌==◌, ◌≡◌, ◌≤◌, refl, sym, ap, subst, true, if◌then◌else◌, leb, ◌&&◌, ◌||◌, Option,
  none, some, List, [], ◌∷◌, ◌++◌, append_assoc, append-nil, ==→eq, length, arith,
}
use tamal.Base.Int.{ℤ, pos, negate}
use tamal.Base.Text.{ascii}
use tamal.Base.Bytes.{
  is_digit, not_newline, take_while, both, branch, Taken, taken, take_while-Taken,
}
use tamal.Asm.Diagnostics.{error, invalid_number}
use tamal.Asm.Outcome.{Yields}
use tamal.Asm.Scanner.{Scan, gap, token, fault}
use tamal.Asm.Scanner.Lexed.{Lexed, lex_with-Lexed, Scanned, a_gap, a_token, a_fault}
use tamal.Asm.Lexer.{
  TokKind, is_ident_start, is_ident_continue, to_digit, i64_max, from_digits, radix_prefix,
  scan_directive, number_token, scan_number, scan, lex,
}
use tamal.Asm.Lexer.Grammar.{
  Blank, Lexeme, Blank-length, Lexeme-length, Digits, no_digits, digit, Prefix, decimal,
  hexadecimal, binary, Sign, unsigned, minus, space, comment, a_newline, a_comma, a_colon, name,
  dotted, numeral,
}

leb→le : (a b : ℕ) → leb a b ≡ true → a ≤ b
leb→le a b h = ground arith

-- The value of the digits, when those of the first argument have the value `n`.
data Valued (radix : ℕ) (digits : List ℕ) : Option ℕ → Type 0 where
  no_value : Valued radix digits none
  valued : {mag : ℕ} → Digits radix digits mag → mag ≤ i64_max → Valued radix digits (some mag)

from_digits-Valued :
    (radix n : ℕ) (front digits : List ℕ)
    → Digits radix front n
    → n ≤ i64_max
    → Valued radix (front ++ digits) (from_digits radix n digits)
unfolding from_digits
from_digits-Valued radix n front [] h b =
    subst (λ x. Valued radix x (some n)) (sym (append-nil front)) (valued h b)
from_digits-Valued radix n front (c ∷ digits) h b =
    step (to_digit radix c) refl (λ value front. from_digits-Valued radix value front digits)
  where
    step :
        (o : Option ℕ)
        → to_digit radix c ≡ o
        → ((value : ℕ) (front : List ℕ)
            → Digits radix front value
            → value ≤ i64_max
            → Valued radix (front ++ digits) (from_digits radix value digits))
        → Valued radix (front ++ c ∷ digits) (elim o [
          | none ↦ none
          | some d ↦
              (let more = from_digits radix (n * radix + d) digits in
                if leb (n * radix + d) i64_max then more else none)
        ])
    step none e rec = no_value
    step (some d) e rec =
        branch (Valued radix (front ++ c ∷ digits)) (leb (n * radix + d) i64_max)
          (λ t.
            subst (λ x. Valued radix x (from_digits radix (n * radix + d) digits))
              (append_assoc front (c ∷ []) digits)
              (rec (n * radix + d) (front ++ c ∷ []) (digit front c n d h e) (leb→le _ _ t)))
          (λ _. no_value)

data Split (bytes : List ℕ) : ℕ × List ℕ × List ℕ → Type 0 where
  parts :
      {radix : ℕ} {prefix body : List ℕ}
      → Prefix radix prefix
      → bytes ≡ prefix ++ body
      → Split bytes (radix, prefix, body)

radix_prefix-Split : (bytes : List ℕ) → Split bytes (radix_prefix bytes)
unfolding radix_prefix
radix_prefix-Split [] = parts decimal refl
radix_prefix-Split (b ∷ []) = parts decimal refl
radix_prefix-Split (b ∷ c ∷ bytes) =
    branch (Split (b ∷ c ∷ bytes)) (b == b'0' && (c == b'x' || c == b'X'))
      (λ h. let (hb, hc) = both (b == b'0') (c == b'x' || c == b'X') h in at 16 hb (hexadecimal hc))
      (λ _.
        branch (Split (b ∷ c ∷ bytes)) (b == b'0' && (c == b'b' || c == b'B'))
          (λ h. let (hb, hc) = both (b == b'0') (c == b'b' || c == b'B') h in at 2 hb (binary hc))
          (λ _. parts decimal refl))
  where
    at :
        (radix : ℕ)
        → (b == b'0') ≡ true
        → Prefix radix (b'0' ∷ c ∷ [])
        → Split (b ∷ c ∷ bytes) (radix, b ∷ c ∷ [], bytes)
    at radix h p =
        subst (λ x. Split (x ∷ c ∷ bytes) (radix, x ∷ c ∷ [], bytes)) (sym (==→eq b _ h))
          (parts p refl)

-- Three parts and the rest, from two splits.
three_parts :
    (sign bytes prefix body word rest : List ℕ)
    → bytes ≡ prefix ++ body
    → body ≡ word ++ rest
    → sign ++ bytes ≡ (sign ++ prefix ++ word) ++ rest
three_parts sign bytes prefix body word rest e k =
    rw (e, k, append_assoc (sign ++ prefix) word rest, append_assoc sign prefix (word ++ rest))

scan_number-Scanned :
    (i : ℕ) (sign : List ℕ) (value : ℕ → ℤ) (bytes : List ℕ)
    → Sign sign value
    → Scanned Blank Lexeme (sign ++ bytes) (scan_number i sign value bytes)
unfolding scan_number number_token
scan_number-Scanned i sign value bytes s = whole (radix_prefix bytes) (radix_prefix-Split bytes)
  where
    final :
        {radix : ℕ} {prefix body : List ℕ}
        → Prefix radix prefix
        → bytes ≡ prefix ++ body
        → {pair : List ℕ × List ℕ} → Taken is_ident_continue body pair
        → Scanned Blank Lexeme (sign ++ bytes) (number_token i sign value radix prefix pair)
    final p e (taken {text = []} k every stop) = a_fault
    final {radix} {prefix} {body} p e (taken {text = c ∷ digits} {rest} k every stop) =
        literal (from_digits-Valued radix 0 [] (c ∷ digits) no_digits (omega arith))
      where
        covers :
            {mag : ℕ}
            → Digits radix (c ∷ digits) mag
            → mag ≤ i64_max
            → Scanned Blank Lexeme
                (sign ++ bytes)
                (token (TokKind.num (value mag)) (sign ++ prefix ++ c ∷ digits) rest)
        covers {mag} h b =
            a_token (three_parts sign bytes prefix body (c ∷ digits) rest e k)
              (numeral sign value radix prefix c digits mag s p h b stop)

        literal :
            {o : Option ℕ}
            → Valued radix (c ∷ digits) o
            → Scanned Blank Lexeme (sign ++ bytes) (elim o [
              | some mag ↦ token (TokKind.num (value mag)) (sign ++ prefix ++ c ∷ digits) rest
              | none ↦ fault (
                  error
                    (record { start = i; end = i + length (sign ++ prefix ++ c ∷ digits) })
                    (invalid_number (ascii (prefix ++ c ∷ digits))))
            ])
        literal no_value = a_fault
        literal (valued h b) = covers h b

    whole :
        (t : ℕ × List ℕ × List ℕ)
        → Split bytes t
        → Scanned Blank Lexeme
            (sign ++ bytes)
            (number_token i sign value t.0 t.1 (take_while is_ident_continue t.2))
    whole t (parts p e) = final p e (take_while-Taken is_ident_continue _)

scan-Scanned :
    (i total c : ℕ) (bytes : List ℕ) → Scanned Blank Lexeme (c ∷ bytes) (scan i total c bytes)
unfolding scan scan_directive
scan-Scanned i total c bytes =
    branch P (c == b' ' || c == b'\t' || c == b'\r') (λ h. a_gap refl (space h))
      (λ _.
        branch P (c == b'#' || c == b';') (λ h. a_comment h (take_while-Taken not_newline bytes))
          (λ _. fixed a_newline (
            fixed a_comma (
              fixed a_colon (
                branch P (c == b'.')
                  (λ h. directive_at (==→eq c _ h) (take_while-Taken is_ident_continue bytes))
                  (λ _.
                    branch P (c == b'-') (λ h. minus_at (==→eq c _ h))
                      (λ _.
                        branch P (is_digit c)
                          (λ _. scan_number-Scanned i [] pos (c ∷ bytes) unsigned)
                          (λ _.
                            branch P (is_ident_start c)
                              (λ h. a_name h (take_while-Taken is_ident_continue bytes))
                              (λ _. a_fault)))))))))
  where
    P : Scan TokKind → Type 0
    P = Scanned Blank Lexeme (c ∷ bytes)

    fixed :
        {k : ℕ} {kind : TokKind} {rest : Scan TokKind}
        → Lexeme kind (k ∷ []) bytes
        → P rest
        → P (if c == k then token kind (c ∷ []) bytes else rest)
    fixed {k} {kind} word h =
        branch P (c == k)
          (λ t. a_token refl (subst (λ x. Lexeme kind (x ∷ []) bytes) (sym (==→eq c k t)) word))
          (λ _. h)

    a_comment :
        (c == b'#' || c == b';') ≡ true
        → {pair : List ℕ × List ℕ} → Taken not_newline bytes pair
        → P (gap (c ∷ pair.0) pair.1)
    a_comment h (taken e every stop) = a_gap (ap (c ∷◌) e) (comment h every stop)

    directive_at :
        c ≡ b'.'
        → {pair : List ℕ × List ℕ} → Taken is_ident_continue bytes pair
        → P (scan_directive i pair)
    directive_at h (taken {text = []} e every stop) = a_fault
    directive_at h (taken {text = d ∷ text} e every stop) = a_token (rw (h, e)) (dotted every stop)

    minus_at : c ≡ b'-' → P (scan_number i (c ∷ []) (λ mag. negate (pos mag)) bytes)
    minus_at h =
        subst
          (λ x.
            Scanned Blank Lexeme (x ∷ bytes)
              (scan_number i (x ∷ []) (λ mag. negate (pos mag)) bytes))
          (sym h) (scan_number-Scanned i (b'-' ∷ []) (λ mag. negate (pos mag)) bytes minus)

    a_name :
        is_ident_start c ≡ true
        → {pair : List ℕ × List ℕ} → Taken is_ident_continue bytes pair
        → P (token (TokKind.ident (ascii (c ∷ pair.0))) (c ∷ pair.0) pair.1)
    a_name h (taken e every stop) = a_token (ap (c ∷◌) e) (name h every stop)

-- On every source the lexer gives an answer, and tokens that it gives are those of the source by the
-- grammar: with the spaces and comments between them they make up the source, each with the span that
-- it covers; names and numbers are as long as they can be, and a number has the value of its digits.
pub lex-Lexed : (src : List ℕ) → Yields (Lexed Blank Lexeme TokKind.eof 0 src) (lex src)
unfolding lex
lex-Lexed = lex_with-Lexed scan TokKind.eof Blank-length Lexeme-length scan-Scanned
