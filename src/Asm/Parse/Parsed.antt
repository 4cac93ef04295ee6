-- ===== src/Asm/Parse/Parsed.antt =====
-- parse of crates/tamal-asm/src/parser.rs against the grammar of Parse/Grammar.
use Prim.Native.String.{String}
use tamal.Base.{ℕ, zero, suc, ◌<◌, ◌≤◌, ◌≡◌, ◌≢◌, refl, true, List, [], ◌∷◌, length, arith}
use tamal.Base.Bytes.{branch}
use tamal.Asm.Outcome.{Outcome, done, ◌>>=◌, Yields, yields, fails, Yields-bind, Yields-map}
use tamal.Asm.Scanner.{Token}
use tamal.Asm.Lexer.{TokKind}
use tamal.Asm.Parser.{Operand, LineKind, Line}
use tamal.Asm.Parse.{
  ends_line, parse_operand, Operands, after_comma, after_operand, operands_from, parse_operands,
  operand_line, label_line, name_line, parse_line, parse_loop, parse,
}
use tamal.Asm.Parse.Grammar.{
  HasEnd, IsOperand, Ends, Listed, Arguments, line_from, Parsed, here, there, of_name, of_number,
  by_newline, by_eof, last, more, without, listed, finished, blank, label, instruction, directive,
}

HasEnd-tail :
    {tok : Token TokKind} {rest : List (Token TokKind)}
    → tok.kind ≢ TokKind.eof
    → HasEnd (tok ∷ rest)
    → HasEnd rest
HasEnd-tail ne (here e) = absurd (ne e)
HasEnd-tail ne (there h) = h

parse_operand-IsOperand :
    (tok : Token TokKind) (kind : TokKind)
    → tok.kind ≡ kind
    → Yields (IsOperand tok) (parse_operand kind tok.span)
unfolding parse_operand
parse_operand-IsOperand tok (TokKind.ident s) e = yields (of_name e)
parse_operand-IsOperand tok (TokKind.num n) e = yields (of_number e)
parse_operand-IsOperand tok (TokKind.directive s) e = fails
parse_operand-IsOperand tok TokKind.comma e = fails
parse_operand-IsOperand tok TokKind.colon e = fails
parse_operand-IsOperand tok TokKind.newline e = fails
parse_operand-IsOperand tok TokKind.eof e = fails

IsOperand-ne-eof : {tok : Token TokKind} {op : Operand} → IsOperand tok op → tok.kind ≢ TokKind.eof
IsOperand-ne-eof (of_name e) h = cc
IsOperand-ne-eof (of_number e) h = cc

-- The operands that were taken, and tokens that are left.
data Took (toks : List (Token TokKind)) : Operands → Type 0 where
  took :
      {ops : List Operand} {left : List (Token TokKind)} {end : ℕ}
      → Listed toks ops end left
      → HasEnd left
      → length left < length toks
      → Took toks (ops, left, end)

not-HasEnd-nil : ¬ (HasEnd [])
not-HasEnd-nil h = elim h [ ]

Took-more :
    {tok next : Token TokKind} {rest : List (Token TokKind)} {op : Operand} (r : Operands)
    → IsOperand tok op
    → next.kind ≡ TokKind.comma
    → Took rest r
    → Yields (Took (tok ∷ next ∷ rest)) (done (op ∷ r.0, r.1, r.2))
Took-more r p e (took l h b) = yields (took (more p e l) h (omega arith))

after_comma-Took :
    (tok next : Token TokKind) (rest : List (Token TokKind)) (op : Operand)
    → IsOperand tok op
    → next.kind ≡ TokKind.comma
    → HasEnd rest
    → (taken : Outcome Operands) → Yields (Took rest) taken
    → Yields (Took (tok ∷ next ∷ rest)) (after_comma op rest taken)
unfolding after_comma
after_comma-Took tok next [] op p e h taken rec = absurd (not-HasEnd-nil h)
after_comma-Took tok next (t ∷ rest) op p e h taken rec =
    branch (Yields (Took (tok ∷ next ∷ t ∷ rest))) (ends_line t.kind) (λ _. fails)
      (λ _. Yields-bind rec (λ r q. Took-more r p e q))

after_operand-Took :
    (tok next : Token TokKind) (rest : List (Token TokKind)) (op : Operand) (kind : TokKind)
    → next.kind ≡ kind
    → IsOperand tok op
    → HasEnd (next ∷ rest)
    → (taken : Outcome Operands) → (HasEnd rest → Yields (Took rest) taken)
    → Yields (Took (tok ∷ next ∷ rest)) (after_operand kind next op rest taken)
unfolding after_operand
after_operand-Took tok next rest op TokKind.comma e p h taken rec =
    let k = HasEnd-tail (λ x. cc) h in after_comma-Took tok next rest op p e k taken (rec k)
after_operand-Took tok next rest op TokKind.newline e p h taken rec =
    yields (took (last p (by_newline e)) h (omega arith))
after_operand-Took tok next rest op TokKind.eof e p h taken rec =
    yields (took (last p (by_eof e)) h (omega arith))
after_operand-Took tok next rest op (TokKind.ident s) e p h taken rec = fails
after_operand-Took tok next rest op (TokKind.num n) e p h taken rec = fails
after_operand-Took tok next rest op (TokKind.directive s) e p h taken rec = fails
after_operand-Took tok next rest op TokKind.colon e p h taken rec = fails

operands_from-Took :
    (toks : List (Token TokKind)) → HasEnd toks → Yields (Took toks) (operands_from toks)
unfolding operands_from
operands_from-Took [] h = absurd (not-HasEnd-nil h)
operands_from-Took (tok ∷ []) h =
    Yields-bind (parse_operand-IsOperand tok tok.kind refl)
      (λ op p. absurd (not-HasEnd-nil (HasEnd-tail (IsOperand-ne-eof p) h)))
operands_from-Took (tok ∷ next ∷ rest) h =
    Yields-bind (parse_operand-IsOperand tok tok.kind refl) (λ op p.
      after_operand-Took tok next rest op next.kind refl p (HasEnd-tail (IsOperand-ne-eof p) h)
        (operands_from rest) (operands_from-Took rest))

-- The operands of a line that starts before these tokens.
data Filled (end : ℕ) (toks : List (Token TokKind)) : Operands → Type 0 where
  filled :
      {ops : List Operand} {left : List (Token TokKind)} {last_end : ℕ}
      → Arguments end toks ops last_end left
      → HasEnd left
      → length left ≤ length toks
      → Filled end toks (ops, left, last_end)

Filled-Took :
    {end : ℕ} {toks : List (Token TokKind)} (r : Operands) → Took toks r → Filled end toks r
Filled-Took r (took l h b) = filled (listed l) h (omega arith)

Ends-ends_line :
    (tok : Token TokKind) (kind : TokKind) → tok.kind ≡ kind → ends_line kind ≡ true → Ends tok
unfolding ends_line
Ends-ends_line tok TokKind.newline e h = by_newline e
Ends-ends_line tok TokKind.eof e h = by_eof e
Ends-ends_line tok (TokKind.ident s) e h = cc
Ends-ends_line tok (TokKind.num n) e h = cc
Ends-ends_line tok (TokKind.directive s) e h = cc
Ends-ends_line tok TokKind.comma e h = cc
Ends-ends_line tok TokKind.colon e h = cc

parse_operands-Filled :
    (toks : List (Token TokKind)) (end : ℕ)
    → HasEnd toks
    → Yields (Filled end toks) (parse_operands toks end)
unfolding parse_operands
parse_operands-Filled [] end h = absurd (not-HasEnd-nil h)
parse_operands-Filled (tok ∷ rest) end h =
    branch (Yields (Filled end (tok ∷ rest))) (ends_line tok.kind)
      (λ t. yields (filled (without (Ends-ends_line tok tok.kind refl t)) h (omega arith)))
      (λ _. Yields-map Filled-Took (operands_from-Took (tok ∷ rest) h))

-- The lines after a part of the tokens are right.
abbrev Rest : ℕ → (List (Token TokKind) → Outcome (List Line)) → Type 0
Rest n lines_from =
    (toks : List (Token TokKind))
    → length toks ≤ n
    → HasEnd toks
    → Yields (Parsed toks) (lines_from toks)

operand_line-Parsed :
    (kind : List Operand → LineKind) (tok : Token TokKind) (rest : List (Token TokKind)) (n : ℕ)
    (lines_from : List (Token TokKind) → Outcome (List Line))
    → Rest n lines_from
    → length rest ≤ n
    → HasEnd rest
    → ((ops : List Operand) (end : ℕ) (left : List (Token TokKind)) (lines : List Line)
        → Arguments tok.span.end rest ops end left
        → Parsed left lines
        → Parsed (tok ∷ rest) (line_from tok end (kind ops) ∷ lines))
    → Yields (Parsed (tok ∷ rest)) (operand_line kind tok rest lines_from)
unfolding operand_line
operand_line-Parsed kind tok rest n lines_from rec b h make =
    Yields-bind (parse_operands-Filled rest tok.span.end h) step
  where
    step :
        (r : Operands)
        → Filled tok.span.end rest r
        → Yields
            (Parsed (tok ∷ rest))
            (lines_from r.1 >>= λ lines. done (line_from tok r.2 (kind r.0) ∷ lines))
    step r (filled {ops} {left} {last_end} a k c) =
        Yields-bind (rec left (omega arith) k)
          (λ lines q. yields (make ops last_end left lines a q))

instr_line-Parsed :
    (name : String) (tok : Token TokKind) (rest : List (Token TokKind))
    → tok.kind ≡ TokKind.ident name
    → (n : ℕ) → (lines_from : List (Token TokKind) → Outcome (List Line)) → Rest n lines_from
    → length rest ≤ n
    → HasEnd rest
    → Yields (Parsed (tok ∷ rest)) (operand_line (LineKind.instr name) tok rest lines_from)
instr_line-Parsed name tok rest e n lines_from rec b h =
    operand_line-Parsed (LineKind.instr name) tok rest n lines_from rec b h
      (λ ops end left lines a q. instruction e a q)

-- A name at the start of a line, before a token of this kind.
name_line-Parsed :
    (name : String) (tok next : Token TokKind) (rest : List (Token TokKind)) (kind : TokKind)
    → next.kind ≡ kind
    → tok.kind ≡ TokKind.ident name
    → (n : ℕ) → (lines_from : List (Token TokKind) → Outcome (List Line)) → Rest n lines_from
    → length (next ∷ rest) ≤ n
    → HasEnd (next ∷ rest)
    → Yields (Parsed (tok ∷ next ∷ rest)) (name_line kind name tok next rest lines_from)
unfolding name_line label_line
name_line-Parsed name tok next rest TokKind.colon c e n lines_from rec b h =
    Yields-bind (rec rest (omega arith) (HasEnd-tail (λ x. cc) h)) (λ lines q. yields (label e c q))
name_line-Parsed name tok next rest TokKind.comma c e n lines_from rec b h =
    instr_line-Parsed name tok (next ∷ rest) e n lines_from rec b h
name_line-Parsed name tok next rest TokKind.newline c e n lines_from rec b h =
    instr_line-Parsed name tok (next ∷ rest) e n lines_from rec b h
name_line-Parsed name tok next rest TokKind.eof c e n lines_from rec b h =
    instr_line-Parsed name tok (next ∷ rest) e n lines_from rec b h
name_line-Parsed name tok next rest (TokKind.ident s) c e n lines_from rec b h =
    instr_line-Parsed name tok (next ∷ rest) e n lines_from rec b h
name_line-Parsed name tok next rest (TokKind.num m) c e n lines_from rec b h =
    instr_line-Parsed name tok (next ∷ rest) e n lines_from rec b h
name_line-Parsed name tok next rest (TokKind.directive s) c e n lines_from rec b h =
    instr_line-Parsed name tok (next ∷ rest) e n lines_from rec b h

parse_line-Parsed :
    (kind : TokKind) (tok : Token TokKind) (rest : List (Token TokKind))
    → tok.kind ≡ kind
    → (n : ℕ) → (lines_from : List (Token TokKind) → Outcome (List Line)) → Rest n lines_from
    → length rest ≤ n
    → HasEnd (tok ∷ rest)
    → Yields (Parsed (tok ∷ rest)) (parse_line kind tok rest lines_from)
unfolding parse_line
parse_line-Parsed TokKind.eof tok rest e n lines_from rec b h = yields (finished e)
parse_line-Parsed TokKind.newline tok rest e n lines_from rec b h =
    Yields-map (λ _. blank e) (rec rest b (HasEnd-tail (λ x. cc) h))
parse_line-Parsed (TokKind.ident name) tok [] e n lines_from rec b h =
    absurd (not-HasEnd-nil (HasEnd-tail (λ x. cc) h))
parse_line-Parsed (TokKind.ident name) tok (next ∷ rest) e n lines_from rec b h =
    name_line-Parsed name tok next rest next.kind refl e n lines_from rec b
      (HasEnd-tail (λ x. cc) h)
parse_line-Parsed (TokKind.directive name) tok rest e n lines_from rec b h =
    operand_line-Parsed (LineKind.directive name) tok rest n lines_from rec b
      (HasEnd-tail (λ x. cc) h) (λ ops end left lines a q. directive e a q)
parse_line-Parsed (TokKind.num m) tok rest e n lines_from rec b h = fails
parse_line-Parsed TokKind.comma tok rest e n lines_from rec b h = fails
parse_line-Parsed TokKind.colon tok rest e n lines_from rec b h = fails

parse_loop-Parsed :
    (fuel : ℕ) (toks : List (Token TokKind))
    → length toks ≤ fuel
    → HasEnd toks
    → Yields (Parsed toks) (parse_loop fuel toks)
unfolding parse_loop
parse_loop-Parsed fuel [] b h = absurd (not-HasEnd-nil h)
parse_loop-Parsed zero (tok ∷ rest) b h = ground arith
parse_loop-Parsed (suc fuel) (tok ∷ rest) b h =
    parse_line-Parsed tok.kind tok rest refl fuel (parse_loop fuel) (parse_loop-Parsed fuel)
      (omega arith) h

-- On tokens that have an end of source, parse reads no token past the last one and gives an answer, an
-- error or lines, and the lines are those of the tokens by the grammar.
pub parse-Parsed : (toks : List (Token TokKind)) → HasEnd toks → Yields (Parsed toks) (parse toks)
unfolding parse
parse-Parsed toks h = parse_loop-Parsed (length toks) toks (omega arith) h
