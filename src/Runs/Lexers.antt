-- ===== src/Runs/Lexers.antt =====
-- The lexers of crates/tamal-lang and crates/tamal-asm, and the assembler's parser, on short texts.
use tamal.Base.Int.{pos, negsuc}
use tamal.Asm.Lexer.{TokKind}
use tamal.Asm.Diagnostics.{Span, malformed_number}
use tamal.Asm.Parser.{OperandKind, LineKind}
use tamal.Asm.Parse.{parse}
use tamal.Asm.Source.{assemble}
use tamal.Asm.Source.Assembled.{Assembled, assemble-Assembled}
use tamal.Asm.Outcome.{◌>>=◌}
use tamal.Base.{ℕ, List, [], ◌∷◌, ◌≡◌, refl}
use tamal.Base.Bytes
use tamal.Asm.Diagnostics.{error, unterminated_comment, unexpected_character}
use tamal.Asm.Outcome.{done, failed, Yields}
use tamal.Asm.Scanner.{spanned}
use tamal.Asm.Scanner.Lexed.{Lexed}
use tamal.Lang.Lexer.{Tok, lex}
use tamal.Lang.Lexer.Grammar.{Blank, Lexeme}
use tamal.Lang.Lexer.Lexed.{lex-Lexed}

-- a1 ++/*-*/ + -> 0x1
abbrev text : List ℕ
text =
    b'a' ∷ b'1' ∷ b' ' ∷ b'+' ∷ b'+' ∷ b'/' ∷ b'*' ∷ b'-' ∷ b'*' ∷ b'/' ∷ b' ' ∷ b'+' ∷ b' ' ∷ b'-'
    ∷ b'>' ∷ b' ' ∷ b'0' ∷ b'x' ∷ b'1' ∷ []

lex-text :
    lex text
    ≡ done (
        spanned Tok.ident 0 2
        ∷ spanned Tok.plus_plus 3 5
        ∷ spanned Tok.plus 11 12
        ∷ spanned Tok.arrow 13 15
        ∷ spanned Tok.number 16 19
        ∷ spanned Tok.eof 19 19
        ∷ [])
unfolding lex tamal.Asm.Scanner.lex_with tamal.Asm.Scanner.lex_loop tamal.Lang.Lexer.scan
    tamal.Lang.Lexer.single tamal.Lang.Lexer.scan_pair tamal.Lang.Lexer.scan_word
    tamal.Lang.Lexer.scan_slash tamal.Lang.Lexer.scan_comment tamal.Lang.Lexer.comment_end
    tamal.Base.Bytes.take_while tamal.Lang.Lexer.is_ident_start tamal.Lang.Lexer.is_ident_continue
    tamal.Lang.Lexer.is_number_continue
lex-text = refl

-- The end of the comment stands in its opening.
lex-unterminated :
    lex (b'a' ∷ b'/' ∷ b'*' ∷ b'/' ∷ [])
    ≡ failed (error (record { start = 1; end = 4 }) unterminated_comment)
unfolding lex tamal.Asm.Scanner.lex_with tamal.Asm.Scanner.lex_loop tamal.Lang.Lexer.scan
    tamal.Lang.Lexer.single tamal.Lang.Lexer.scan_word tamal.Lang.Lexer.scan_slash
    tamal.Lang.Lexer.scan_comment tamal.Lang.Lexer.comment_end tamal.Base.Bytes.take_while
    tamal.Lang.Lexer.is_ident_start tamal.Lang.Lexer.is_ident_continue
lex-unterminated = refl

lex-minus :
    lex (b'-' ∷ b'1' ∷ [])
    ≡ failed (error (record { start = 0; end = 1 }) (unexpected_character b'-'))
unfolding lex tamal.Asm.Scanner.lex_with tamal.Asm.Scanner.lex_loop tamal.Lang.Lexer.scan
    tamal.Lang.Lexer.single tamal.Lang.Lexer.scan_pair tamal.Lang.Lexer.scan_word
    tamal.Lang.Lexer.is_ident_start
lex-minus = refl

lex-Lexed_example : Yields (Lexed Blank Lexeme Tok.eof 0 text) (lex text)
lex-Lexed_example = lex-Lexed text

-- x5 0x1F, -5
abbrev line : List ℕ
line = b'x' ∷ b'5' ∷ b' ' ∷ b'0' ∷ b'x' ∷ b'1' ∷ b'F' ∷ b',' ∷ b' ' ∷ b'-' ∷ b'5' ∷ []

asm_lex-line :
    tamal.Asm.Lexer.lex line
    ≡ done (
        spanned (TokKind.ident "x5") 0 2
        ∷ spanned (TokKind.num (pos 0x1F)) 3 7
        ∷ spanned TokKind.comma 7 8
        ∷ spanned (TokKind.num (negsuc 4)) 9 11
        ∷ spanned TokKind.eof 11 11
        ∷ [])
unfolding tamal.Asm.Lexer.lex tamal.Asm.Scanner.lex_with tamal.Asm.Scanner.lex_loop
    tamal.Asm.Lexer.scan tamal.Asm.Lexer.scan_number tamal.Asm.Lexer.number_token
    tamal.Asm.Lexer.radix_prefix tamal.Asm.Lexer.from_digits tamal.Asm.Lexer.is_ident_start
    tamal.Asm.Lexer.is_ident_continue tamal.Base.Bytes.take_while
asm_lex-line = refl

asm_lex-prefix :
    tamal.Asm.Lexer.lex (b'-' ∷ b'0' ∷ b'b' ∷ [])
    ≡ failed (error (record { start = 0; end = 3 }) malformed_number)
unfolding tamal.Asm.Lexer.lex tamal.Asm.Scanner.lex_with tamal.Asm.Scanner.lex_loop
    tamal.Asm.Lexer.scan tamal.Asm.Lexer.scan_number tamal.Asm.Lexer.number_token
    tamal.Asm.Lexer.radix_prefix tamal.Base.Bytes.take_while
asm_lex-prefix = refl

-- go: beq x1, 2
abbrev code : List ℕ
code = b'g' ∷ b'o' ∷ b':' ∷ b' ' ∷ b'b' ∷ b'e' ∷ b'q' ∷ b' ' ∷ b'x' ∷ b'1' ∷ b',' ∷ b' ' ∷ b'2' ∷ []

abbrev span : ℕ → ℕ → Span
span i j = record { start = i; end = j }

parse-code :
    (tamal.Asm.Lexer.lex code >>= parse)
    ≡ done (
        record { kind = LineKind.label "go"; span = span 0 3 }
        ∷ record {
          kind = LineKind.instr "beq" (
              record { kind = OperandKind.ident "x1"; span = span 8 10 }
              ∷ record { kind = OperandKind.num (pos 2); span = span 12 13 }
              ∷ []);
          span = span 4 13;
        }
        ∷ [])
unfolding tamal.Asm.Lexer.lex tamal.Asm.Scanner.lex_with tamal.Asm.Scanner.lex_loop
    tamal.Asm.Lexer.scan tamal.Asm.Lexer.scan_number tamal.Asm.Lexer.number_token
    tamal.Asm.Lexer.radix_prefix tamal.Asm.Lexer.from_digits tamal.Asm.Lexer.is_ident_start
    tamal.Asm.Lexer.is_ident_continue tamal.Base.Bytes.take_while parse tamal.Asm.Parse.parse_loop
    tamal.Asm.Parse.parse_line tamal.Asm.Parse.name_line tamal.Asm.Parse.label_line
    tamal.Asm.Parse.operand_line tamal.Asm.Parse.parse_operands tamal.Asm.Parse.operands_from
    tamal.Asm.Parse.after_operand tamal.Asm.Parse.after_comma tamal.Asm.Parse.parse_operand
    tamal.Asm.Parse.ends_line
parse-code = refl

assemble-Assembled_example : Yields (Assembled code) (assemble code)
assemble-Assembled_example = assemble-Assembled code
