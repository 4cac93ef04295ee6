-- ===== src/Asm/Assemble/Labels.antt =====
-- The addresses of labels against the instructions that are emitted.
use Prim.Native.String.{String}
use tamal.Base.{
  ℕ, ◌≤◌, ◌≡◌, refl, sym, ap, subst, ◌∙◌, List, [], ◌∷◌, ◌++◌, length, some, ok, arith,
}
use tamal.Abi.Isa.Instr.{Instr}
use tamal.Asm.Diagnostics.{Span, Diagnostic}
use tamal.Asm.Parser.{label, Line}
use tamal.Asm.Symbol
use tamal.Asm.Symbol.{SymbolTable, get}
use tamal.Asm.Passes.{collect_equs, assign_addresses, addresses_loop}
use tamal.Asm.Passes.Equs.{loop-NoNewEqus}
use tamal.Asm.Passes.Labels.{loop-le, loop-append, label_address}
use tamal.Asm.Assemble.{Program, Pass, max_words, pass_loop, assemble_lines}
use tamal.Asm.Assemble.Words.{loop_clean, finish-ok, short_enough}

pass_loop-append :
    (syms : SymbolTable) (front back : List Line) (s : Pass)
    → pass_loop syms (front ++ back) s ≡ pass_loop syms back (pass_loop syms front s)
unfolding pass_loop
pass_loop-append syms [] back s = refl
pass_loop-append syms (line ∷ front) back s = pass_loop-append syms front back _

nil_right : (xs ys : List Diagnostic) → xs ++ ys ≡ [] → ys ≡ []
nil_right [] ys e = e
nil_right (x ∷ xs) ys e = absurd (cc e)

-- The symbols after pass 1, and the state with which pass 2 starts.
abbrev pub table : List Line → SymbolTable
table lines = (assign_addresses lines (collect_equs lines).0).0

abbrev pub start : List Line → Pass
start lines = record {
  instrs = [];
  spans = [];
  addr = 0;
  diags = (collect_equs lines).1 ++ (assign_addresses lines (collect_equs lines).0).1;
}

-- The instructions of the lines before `back`, as the program that assembles holds them.
abbrev pub emitted : List Line → List Line → List Instr
emitted front back = (pass_loop (table (front ++ back)) front (start (front ++ back))).instrs

module _ (front back : List Line) (equs : SymbolTable) (s : Pass) where
  abbrev reached : SymbolTable × List Diagnostic × ℕ
  reached = addresses_loop front equs [] 0

  abbrev total : SymbolTable × List Diagnostic × ℕ
  total = addresses_loop back reached.0 reached.1 reached.2

  front_count :
      s.instrs ≡ []
      → (pass_loop total.0 back (pass_loop total.0 front s)).diags ≡ []
      → (s.diags ≡ []) × (length (pass_loop total.0 front s).instrs ≡ reached.2)
  front_count e c =
      let (clean, _) =
        loop_clean back total.0 reached.0 reached.1 reached.2 (pass_loop total.0 front s)
          (λ _ _ h. h) c in
      let (clean_start, count) =
        loop_clean front total.0 equs [] 0 s (loop-NoNewEqus back reached.0 reached.1 reached.2)
          clean in
      (clean_start, omega (arith, count, ap (λ (is : List Instr). length is) e))

Clean : List Line → Pass → SymbolTable × List Diagnostic × ℕ → Type 0
Clean lines s w = ((pass_loop w.0 lines s).diags ≡ []) × (w.1 ≡ []) × (w.2 ≤ max_words)

-- The claim for the result `w` of pass 1.
Addressed : List Line → String → Pass → SymbolTable × List Diagnostic × ℕ → Type 0
Addressed front name s w =
    get w.0 name ≡ some (Symbol.label (length (pass_loop w.0 front s).instrs))

Clean-Addressed :
    (front back : List Line) (name : String) (span : Span) (equs : SymbolTable) (s : Pass)
    → s.instrs ≡ []
    → Clean
        (front ++ record { kind = label name; span = span } ∷ back)
        s
        (total front (record { kind = label name; span = span } ∷ back) equs s)
    → Addressed front name s (total front (record { kind = label name; span = span } ∷ back) equs s)
unfolding Clean Addressed
Clean-Addressed front back name span equs s e (c, clean, short) =
    let rest = record { kind = label name; span = span } ∷ back in
    let r = reached front rest equs s in
    let (_, count) = front_count front rest equs s e (
      subst (λ (t : Pass). t.diags ≡ []) (pass_loop-append (total front rest equs s).0 front rest s)
        c) in
    label_address name span back r.0 r.1 r.2 clean
    ∙ ap (λ n. some (Symbol.label n)) (omega (arith, count, short, loop-le rest r.0 r.1 r.2))

whole-Addressed :
    (front back : List Line) (name : String) (span : Span) (equs : SymbolTable) (s : Pass)
    (w : SymbolTable × List Diagnostic × ℕ)
    → w ≡ total front (record { kind = label name; span = span } ∷ back) equs s
    → s.instrs ≡ []
    → Clean (front ++ record { kind = label name; span = span } ∷ back) s w
    → Addressed front name s w
whole-Addressed front back name span equs s w q e c = subst (Addressed front name s) (sym q) (
    Clean-Addressed front back name span equs s e
      (subst (Clean (front ++ record { kind = label name; span = span } ∷ back) s) q c))

-- In lines that assemble, a label's address is the number of instructions that the lines before it gave.
pub assemble_lines-label :
    (front back : List Line) (name : String) (span : Span) (p : Program)
    → assemble_lines (front ++ record { kind = label name; span = span } ∷ back) ≡ ok p
    → get (table (front ++ record { kind = label name; span = span } ∷ back)) name
      ≡ some
          (Symbol.label (length (emitted front (record { kind = label name; span = span } ∷ back))))
unfolding assemble_lines assign_addresses Clean Addressed
assemble_lines-label front back name span p e =
    let lines = front ++ record { kind = label name; span = span } ∷ back in
    let equs = (collect_equs lines).0 in
    let w = addresses_loop lines equs [] 0 in
    let (clean, _) = finish-ok (pass_loop w.0 lines (start lines)) _ p e in
    let (short, clean_pass) = short_enough w.2 _ _ clean in
    let (clean_start, _) = loop_clean lines w.0 equs [] 0 (start lines) (λ _ _ h. h) clean_pass in
    whole-Addressed front back name span equs (start lines) w
      (loop-append front (record { kind = label name; span = span } ∷ back) equs [] 0) refl
      (clean_pass, nil_right (collect_equs lines).1 w.1 clean_start, short)
