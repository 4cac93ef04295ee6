-- ===== src/Asm/Scanner.antt =====
-- The loop that lex of crates/tamal-asm/src/lexer.rs and lex of crates/tamal-lang/src/lexer.rs are. The
-- source is a list of bytes, and an index goes with the list of the bytes that are left from it on.
pub mod Lexed
use tamal.Base.{ℕ, zero, suc, ◌+◌, List, [], ◌∷◌, ◌++◌, length}
use tamal.Asm.Diagnostics.{Span, Diagnostic}
use tamal.Asm.Outcome.{Outcome, done, failed, exhausted}

-- A token of this kind.
pub record Token (K : Type 0) : Type 0 where
  pub kind : K
  pub span : Span

abbrev pub spanned : {K : Type 0} → K → ℕ → ℕ → Token K
spanned kind i j = record { kind = kind; span = record { start = i; end = j } }

-- What one round of the loop finds: bytes to skip, a token, or an error, with the bytes that are left.
pub data Scan (K : Type 0) : Type 0 where
  gap : List ℕ → List ℕ → Scan K
  token : K → List ℕ → List ℕ → Scan K
  fault : Diagnostic → Scan K

-- The loop with this body, which has the index, the length of the source, and the bytes that are left,
-- and the kind of the last token.
module _ {K : Type 0} (scan : ℕ → ℕ → ℕ → List ℕ → Scan K) (last : K) where
  unfoldable pub lex_loop : ℕ → ℕ → ℕ → List ℕ → List (Token K) → Outcome (List (Token K))
  lex_loop fuel total i [] toks = done (toks ++ spanned last total total ∷ [])
  lex_loop zero total i (c ∷ bytes) toks = exhausted
  lex_loop (suc fuel) total i (c ∷ bytes) toks = elim (scan i total c bytes) [
    | gap text rest ↦ lex_loop fuel total (i + length text) rest toks
    | token kind text rest ↦
        lex_loop fuel total (i + length text) rest (toks ++ spanned kind i (i + length text) ∷ [])
    | fault d ↦ failed d
  ]

  -- Each round takes a byte at least, so as many rounds as bytes are enough.
  unfoldable pub lex_with : List ℕ → Outcome (List (Token K))
  lex_with src = lex_loop (length src) (length src) 0 src []
