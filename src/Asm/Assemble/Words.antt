-- ===== src/Asm/Assemble/Words.antt =====
-- The length of a program, in the two passes.
use Prim.Native.String.{String}
use text.Mathlib.Text.{◌==◌ as str_eq}
use tamal.Base.{
  ℕ, ◌+◌, ◌≤◌, ◌≡◌, refl, sym, ap, ◌∙◌, List, [], ◌∷◌, ◌++◌, length, length-append, Bool, true,
  false, ltb, ◌||◌, if◌then◌else◌, Bool-cases, inl, inr, Result, ok, err, arith,
}
use tamal.Abi.Isa.Instr.{Instr}
use tamal.Asm.Diagnostics.{Span, Diagnostic}
use tamal.Asm.Parser.{Operand, label, directive, instr, Line, LineKind}
use tamal.Asm.Symbol.{SymbolTable}
use tamal.Asm.Encoder.Li.{instr_word_count}
use tamal.Asm.Encoder.Line.{encode_line}
use tamal.Asm.Encoder.Line.Sizes.{encode_line-count}
use tamal.Asm.Passes.{collect_equs, assign_addresses, addresses_loop, address_step}
use tamal.Asm.Passes.Labels.{snoc-ne}
use tamal.Asm.Passes.Equs.{NoNewEqus, NoNewEqus-SameLi, loop-NoNewEqus}
use tamal.Asm.Assemble.{
  Program, Pass, max_words, is_ident, validate_directive, encoded, pass_step, pass_loop, finish,
  assemble_lines,
}

if-IsNil :
    (b : Bool) (x y ds : List Diagnostic)
    → (x ≡ [] → ds ≡ [])
    → (y ≡ [] → ds ≡ [])
    → (if b then x else y) ≡ []
    → ds ≡ []
if-IsNil true x y ds h k e = h e
if-IsNil false x y ds h k e = k e

-- A clean pass began with no diagnostic.
directive_clean :
    (name : String) (args : List Operand) (span : Span) (ds : List Diagnostic)
    → validate_directive name args span ds ≡ []
    → ds ≡ []
unfolding validate_directive
directive_clean name args span ds = if-IsNil (str_eq name "equ") _ _ ds same (
    if-IsNil (str_eq name "text") _ _ ds same (
      if-IsNil (str_eq name "globl") _ _ ds (if-IsNil (is_ident args) _ _ ds same (more _)) (
        if-IsNil
          (str_eq name "macro"
            || str_eq name "data"
            || str_eq name "word"
            || str_eq name "align"
            || str_eq name "option")
          _ _ ds (more _) (more _))))
  where
    same : ds ≡ [] → ds ≡ []
    same e = e

    more : (d : Diagnostic) → ds ++ d ∷ [] ≡ [] → ds ≡ []
    more d e = absurd (snoc-ne ds d e)

-- What a clean step on the line leaves: no diagnostic before, and as many more instructions as words.
abbrev Clean : SymbolTable → SymbolTable → List Diagnostic → ℕ → Line → Pass → Type 0
Clean syms before ds addr line s =
    (s.diags ≡ [])
    × (length (pass_step syms line s).instrs + addr
        ≡ length s.instrs + (address_step line before ds addr).2)

encoded_clean :
    (syms before : SymbolTable) (ds : List Diagnostic) (addr : ℕ) (m : String) (ops : List Operand)
    (span : Span) (s : Pass) (r : Result (List Instr) Diagnostic)
    → NoNewEqus before syms
    → encode_line m ops span s.addr syms ≡ r
    → (encoded s span (instr_word_count m ops syms) r).diags ≡ []
    → (s.diags ≡ [])
      × (length (encoded s span (instr_word_count m ops syms) r).instrs
          ≡ length s.instrs + instr_word_count m ops before)
unfolding encoded
encoded_clean syms before ds addr m ops span s (ok seq) h e c = (
  c,
  length-append s.instrs seq
      ∙ ap (λ n. length s.instrs + n)
          (encode_line-count m ops span s.addr syms before seq (NoNewEqus-SameLi before syms h) e),
)
encoded_clean syms before ds addr m ops span s (err d) h e c = absurd (snoc-ne s.diags d c)

step-Clean :
    (syms before : SymbolTable) (ds : List Diagnostic) (addr : ℕ) (k : LineKind) (span : Span)
    (s : Pass)
    → NoNewEqus before syms
    → (pass_step syms (record { kind = k; span = span }) s).diags ≡ []
    → Clean syms before ds addr (record { kind = k; span = span }) s
unfolding pass_step address_step
step-Clean syms before ds addr (label name) span s h c = (c, refl)
step-Clean syms before ds addr (directive name args) span s h c =
    (directive_clean name args span s.diags c, refl)
step-Clean syms before ds addr (instr m ops) span s h c =
    let (none_before, count) = encoded_clean syms before ds addr m ops span s _ h refl c in
    (none_before, omega (arith, count))

pub loop_clean :
    (lines : List Line) (syms before : SymbolTable) (ds : List Diagnostic) (addr : ℕ) (s : Pass)
    → NoNewEqus (addresses_loop lines before ds addr).0 syms
    → (pass_loop syms lines s).diags ≡ []
    → (s.diags ≡ [])
      × (length (pass_loop syms lines s).instrs + addr
          ≡ length s.instrs + (addresses_loop lines before ds addr).2)
unfolding pass_loop addresses_loop
loop_clean [] syms before ds addr s h c = (c, refl)
loop_clean (line ∷ lines) syms before ds addr s h c =
    let next = address_step line before ds addr in
    let (clean, later) = loop_clean lines syms next.0 next.1 next.2 (pass_step syms line s) h c in
    let (clean_before, now) =
      step-Clean syms before ds addr line.kind line.span s (whole h) clean in
    (clean_before, omega (arith, later, now))
  where
    whole :
        NoNewEqus
          (addresses_loop lines
            (address_step line before ds addr).0
            (address_step line before ds addr).1
            (address_step line before ds addr).2).0
          syms
        → NoNewEqus before syms
    whole k name v e =
        loop-NoNewEqus (line ∷ lines) before ds addr name v (unfold addresses_loop in k name v e)

pub finish-ok :
    (s : Pass) (ds : List Diagnostic) (p : Program)
    → finish s ds ≡ ok p
    → (ds ≡ []) × (p.instrs ≡ s.instrs)
unfolding finish
finish-ok s [] p e = (refl, instrs_of (record { instrs = s.instrs; spans = s.spans }) e)
  where
    instrs_of :
        (q : Program)
        → ◌≡◌ {A = Result Program (List Diagnostic)} (ok q) (ok p)
        → p.instrs ≡ q.instrs
    instrs_of q k = let same : q ≡ p = cc k in sym (ap (λ (x : Program). x.instrs) same)
finish-ok s (d ∷ ds) p e = absurd (refused e)
  where
    refused : ◌≡◌ {A = Result Program (List Diagnostic)} (err (d ∷ ds)) (ok p) → ⊥
    refused k = cc k

pub short_enough :
    (total : ℕ) (d : Diagnostic) (ds : List Diagnostic)
    → (if ltb max_words total then ds ++ d ∷ [] else ds) ≡ []
    → (total ≤ max_words) × (ds ≡ [])
short_enough total d ds e = elim (Bool-cases (ltb max_words total)) [
  | inl h ↦ absurd (snoc-ne ds d (rw h at e))
  | inr h ↦ (ground (arith, h), rw h at e)
]

-- The words that pass 1 counts for the lines.
abbrev pub total_words : List Line → ℕ
total_words lines = (assign_addresses lines (collect_equs lines).0).2

-- Lines that assemble give as many instructions as pass 1 counted words, and at most 1024.
pub assemble_lines-total :
    (lines : List Line) (p : Program)
    → assemble_lines lines ≡ ok p
    → (length p.instrs ≡ total_words lines) × (length p.instrs ≤ max_words)
unfolding assemble_lines assign_addresses
assemble_lines-total lines p e =
    let equs = (collect_equs lines).0 in
    let pass1 = addresses_loop lines equs [] 0 in
    let start : Pass = record {
      instrs = [];
      spans = [];
      addr = 0;
      diags = (collect_equs lines).1 ++ pass1.1;
    } in
    let (clean, same) = finish-ok (pass_loop pass1.0 lines start) _ p e in
    let (short, clean_pass) = short_enough pass1.2 _ _ clean in
    let (_, count) = loop_clean lines pass1.0 equs [] 0 start (λ _ _ h. h) clean_pass in
    (
      omega (arith, count, ap (λ (is : List Instr). length is) same),
      omega (arith, short, count, ap (λ (is : List Instr). length is) same),
    )
