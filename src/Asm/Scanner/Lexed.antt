-- ===== src/Asm/Scanner/Lexed.antt =====
-- The tokens that the loop of Asm/Scanner gives, by a grammar of what stands in front of the bytes left.
use tamal.Base.{
  ℕ, zero, suc, ◌+◌, ◌≤◌, ◌≡◌, sym, ap, ◌∙◌, ◌<◌, subst, List, [], ◌∷◌, ◌++◌, append_assoc, length,
  length-append, arith,
}
use tamal.Asm.Diagnostics.{Diagnostic}
use tamal.Asm.Outcome.{done, failed, Yields, yields, fails, Yields-map}
use tamal.Asm.Scanner.{Token, spanned, Scan, gap, token, fault, lex_loop, lex_with}

-- The tokens of a text that starts at this index of the source.
pub data Lexed {K : Type 0} (Blank : List ℕ → List ℕ → Type 0)
    (Lexeme : K → List ℕ → List ℕ → Type 0) (last : K) : ℕ → List ℕ → List (Token K) → Type 0 where
  ended : {i : ℕ} → Lexed Blank Lexeme last i [] (spanned last i i ∷ [])
  skipped :
      {i : ℕ} (text rest : List ℕ) {toks : List (Token K)}
      → Blank text rest
      → Lexed Blank Lexeme last (i + length text) rest toks
      → Lexed Blank Lexeme last i (text ++ rest) toks
  lexeme :
      {i : ℕ} {kind : K} (text rest : List ℕ) {toks : List (Token K)}
      → Lexeme kind text rest
      → Lexed Blank Lexeme last (i + length text) rest toks
      → Lexed Blank Lexeme last i (text ++ rest) (spanned kind i (i + length text) ∷ toks)

-- What a round of the loop finds is in front of the bytes that are left.
pub data Scanned {K : Type 0} (Blank : List ℕ → List ℕ → Type 0)
    (Lexeme : K → List ℕ → List ℕ → Type 0) (bytes : List ℕ) : Scan K → Type 0 where
  a_gap :
      {text rest : List ℕ}
      → bytes ≡ text ++ rest
      → Blank text rest
      → Scanned Blank Lexeme bytes (gap text rest)
  a_token :
      {kind : K} {text rest : List ℕ}
      → bytes ≡ text ++ rest
      → Lexeme kind text rest
      → Scanned Blank Lexeme bytes (token kind text rest)
  a_fault : {d : Diagnostic} → Scanned Blank Lexeme bytes (fault d)

module _ {K : Type 0} {Blank : List ℕ → List ℕ → Type 0} {Lexeme : K → List ℕ → List ℕ → Type 0}
    (scan : ℕ → ℕ → ℕ → List ℕ → Scan K) (last : K)
    (Blank-length : (text rest : List ℕ) → Blank text rest → 0 < length text)
    (Lexeme-length : (kind : K) (text rest : List ℕ) → Lexeme kind text rest → 0 < length text)
    (scan-Scanned : (i total c : ℕ) (bytes : List ℕ)
      → Scanned Blank Lexeme (c ∷ bytes) (scan i total c bytes)) where
  -- The tokens that the loop has, and those that it adds.
  data Onto (i : ℕ) (bytes : List ℕ) (toks : List (Token K)) : List (Token K) → Type 0 where
    onto :
        (more : List (Token K))
        → Lexed Blank Lexeme last i bytes more
        → Onto i bytes toks (toks ++ more)

  Onto-Blank :
      {i : ℕ} {bytes text rest : List ℕ} {toks out : List (Token K)}
      → bytes ≡ text ++ rest
      → Blank text rest
      → Onto (i + length text) rest toks out
      → Onto i bytes toks out
  Onto-Blank {i} {text} {rest} {toks} e blank (onto more p) =
      subst (λ x. Onto i x toks (toks ++ more)) (sym e) (onto more (skipped text rest blank p))

  Onto-Lexeme :
      {i : ℕ} {kind : K} {bytes text rest : List ℕ} {toks out : List (Token K)}
      → bytes ≡ text ++ rest
      → Lexeme kind text rest
      → Onto (i + length text) rest (toks ++ spanned kind i (i + length text) ∷ []) out
      → Onto i bytes toks out
  Onto-Lexeme {i} {kind} {text} {rest} {toks} e word (onto more p) =
      let tok : Token K = spanned kind i (i + length text) in
      subst (λ x. Onto i x toks ((toks ++ tok ∷ []) ++ more)) (sym e)
        (subst (Onto i (text ++ rest) toks) (sym (append_assoc toks (tok ∷ []) more))
          (onto (tok ∷ more) (lexeme text rest word p)))

  Onto-nil :
      {i : ℕ} {bytes : List ℕ} {out : List (Token K)}
      → Onto i bytes [] out
      → Lexed Blank Lexeme last i bytes out
  Onto-nil (onto more p) = p

  -- A list in two parts of which the first is not empty.
  length-parts :
      (bytes text rest : List ℕ) → bytes ≡ text ++ rest → length bytes ≡ length text + length rest
  length-parts bytes text rest e = ap length e ∙ length-append text rest

  -- One round, when the rounds after it are right.
  round-Onto :
      (fuel total i : ℕ) (bytes : List ℕ) (toks : List (Token K)) (s : Scan K)
      → length bytes ≤ suc fuel
      → i + length bytes ≡ total
      → Scanned Blank Lexeme bytes s
      → ((i : ℕ) (rest : List ℕ) (toks : List (Token K))
          → length rest ≤ fuel
          → i + length rest ≡ total
          → Yields (Onto i rest toks) (lex_loop scan last fuel total i rest toks))
      → Yields (Onto i bytes toks) (elim s [
        | gap text rest ↦ lex_loop scan last fuel total (i + length text) rest toks
        | token kind text rest ↦
            lex_loop scan last fuel total
              (i + length text)
              rest
              (toks ++ spanned kind i (i + length text) ∷ [])
        | fault d ↦ failed d
      ])
  round-Onto fuel total i bytes toks s enough sum (a_gap {text} {rest} e blank) rec =
      let parts = length-parts bytes text rest e in
      let some_text = Blank-length _ _ blank in
      Yields-map (λ _. Onto-Blank e blank)
        (rec (i + length text) rest toks (omega arith) (omega arith))
  round-Onto fuel total i bytes toks s enough sum (a_token {kind} {text} {rest} e word) rec =
      let parts = length-parts bytes text rest e in
      let some_text = Lexeme-length _ _ _ word in
      Yields-map (λ _. Onto-Lexeme e word)
        (rec (i + length text) rest _ (omega arith) (omega arith))
  round-Onto fuel total i bytes toks s enough sum a_fault rec = fails

  lex_loop-Onto :
      (fuel total i : ℕ) (bytes : List ℕ) (toks : List (Token K))
      → length bytes ≤ fuel
      → i + length bytes ≡ total
      → Yields (Onto i bytes toks) (lex_loop scan last fuel total i bytes toks)
  unfolding lex_loop
  lex_loop-Onto fuel total i [] toks enough sum =
      subst (λ x. Yields (Onto i [] toks) (done (toks ++ spanned last x x ∷ []))) (omega arith)
        (yields (onto _ ended))
  lex_loop-Onto zero total i (c ∷ bytes) toks enough sum = ground arith
  lex_loop-Onto (suc fuel) total i (c ∷ bytes) toks enough sum =
      round-Onto fuel total i (c ∷ bytes) toks (scan i total c bytes) enough sum
        (scan-Scanned i total c bytes) (lex_loop-Onto fuel total)

  -- The loop gives an answer, and tokens that it gives are those of the source by the grammar.
  pub lex_with-Lexed :
      (src : List ℕ) → Yields (Lexed Blank Lexeme last 0 src) (lex_with scan last src)
  unfolding lex_with
  lex_with-Lexed src =
      Yields-map (λ _. Onto-nil)
        (lex_loop-Onto (length src) (length src) 0 src [] (omega arith) (omega arith))
