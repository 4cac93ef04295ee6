-- ===== src/Asm/Passes/Labels.antt =====
-- What pass 1 does to labels, to the rest of the table and to the address.
use Prim.Native.String.{String}
use text.Mathlib.Text.{◌==◌ as str_eq}
use text.Mathlib.TextEquality.{eq_iff}
use text.Mathlib.TextPositions.{eq_refl}
use tamal.Base.{
  ℕ, ◌≤◌, ◌≡◌, ◌≢◌, refl, sym, ap, subst, ◌∙◌, List, [], ◌∷◌, ◌++◌, Option, some, none, true, false,
  Bool-cases, inl, inr, u16, arith,
}
use tamal.Asm.Diagnostics.{Span, Diagnostic}
use tamal.Asm.Parser.{label, directive, instr, Line, LineKind}
use tamal.Asm.Symbol
use tamal.Asm.Symbol.{Sym, SymbolTable, get, entry, insert}
use tamal.Asm.Passes.{inserted, address_step, addresses_loop}
use tamal.Asm.Passes.Equs.{get-cons, insert-entry}

-- Adding a diagnostic leaves some.
pub snoc-ne : (ds : List Diagnostic) (d : Diagnostic) → ds ++ d ∷ [] ≢ []
snoc-ne [] d e = cc e
snoc-ne (x ∷ ds) d e = cc e

-- Every symbol of `before` stands in `after` with the same value.
abbrev pub Kept : SymbolTable → SymbolTable → Type 0
Kept before after = (n : String) (x : Sym) → get before n ≡ some x → get after n ≡ some x

-- What a clean insertion does.
data Inserts (before : SymbolTable) (name : String) (s : Sym) (ds : List Diagnostic)
    : SymbolTable × List Diagnostic → Type 0 where
  fresh :
      {after : SymbolTable}
      → Kept before after
      → get after name ≡ some s
      → Inserts before name s ds (after, ds)
  duplicate : (d : Diagnostic) → Inserts before name s ds (before, ds ++ d ∷ [])

get-none : (syms : SymbolTable) (name : String) → entry syms name ≡ none → get syms name ≡ none
unfolding get
get-none syms name e =
    ap (λ x. elim x as (λ _. Option Sym) [ none ↦ none | some (s, _) ↦ some s ]) e

cons-Kept :
    (syms : SymbolTable) (name : String) (s : Sym) (span : Span)
    → entry syms name ≡ none
    → Kept syms ((name, s, span) ∷ syms)
cons-Kept syms name s span e n x h = elim (Bool-cases (str_eq name n)) [
  | inl q ↦ absurd (
      none_ne (
        sym (get-none syms name e)
        ∙ subst (λ m. get syms m ≡ some x) (sym ((eq_iff name n).0 q)) h))
  | inr q ↦ get-cons syms name n s span false q ∙ h
]
  where
    none_ne : ◌≡◌ {A = Option Sym} none (some x) → ⊥
    none_ne k = cc k

inserted-Inserts :
    (syms : SymbolTable) (name : String) (s : Sym) (span : Span) (ds : List Diagnostic)
    → Inserts syms name s ds (inserted syms name span (insert syms name s span) ds)
inserted-Inserts syms name s span ds = by_entry (entry syms name) refl
  where
    by_entry :
        (e : Option (Sym × Span))
        → entry syms name ≡ e
        → Inserts syms name s ds (inserted syms name span (insert syms name s span) ds)
    by_entry none g = rw (insert-entry syms name s span none g) (
        unfold inserted in
        fresh (cons-Kept syms name s span g) (get-cons syms name name s span true (eq_refl name)))
    by_entry (some (x, prev)) g =
        rw (insert-entry syms name s span (some (x, prev)) g) (unfold inserted in duplicate _)

Inserts-Kept :
    {before : SymbolTable} {name : String} {s : Sym} {ds : List Diagnostic}
    {r : SymbolTable × List Diagnostic}
    → Inserts before name s ds r
    → Kept before r.0
Inserts-Kept (fresh k g) = k
Inserts-Kept (duplicate d) = λ n x h. h

Inserts-clean :
    {before : SymbolTable} {name : String} {s : Sym} {ds : List Diagnostic}
    {r : SymbolTable × List Diagnostic}
    → Inserts before name s ds r
    → r.1 ≡ []
    → (ds ≡ []) × (get r.0 name ≡ some s)
Inserts-clean (fresh k g) e = (e, g)
Inserts-clean {ds = ds} (duplicate d) e = absurd (snoc-ne ds d e)

-- What a step keeps, by the kind of the line.
step-Kept :
    (k : LineKind) (span : Span) (syms : SymbolTable) (ds : List Diagnostic) (addr : ℕ)
    → Kept syms (address_step (record { kind = k; span = span }) syms ds addr).0
unfolding address_step
step-Kept (label name) span syms ds addr =
    Inserts-Kept (inserted-Inserts syms name (Symbol.label (u16 addr)) span ds)
step-Kept (directive name args) span syms ds addr = λ n x h. h
step-Kept (instr m ops) span syms ds addr = λ n x h. h

step_clean :
    (k : LineKind) (span : Span) (syms : SymbolTable) (ds : List Diagnostic) (addr : ℕ)
    → (address_step (record { kind = k; span = span }) syms ds addr).1 ≡ []
    → ds ≡ []
unfolding address_step
step_clean (label name) span syms ds addr e =
    (Inserts-clean (inserted-Inserts syms name (Symbol.label (u16 addr)) span ds) e).0
step_clean (directive name args) span syms ds addr e = e
step_clean (instr m ops) span syms ds addr e = e

step-le :
    (k : LineKind) (span : Span) (syms : SymbolTable) (ds : List Diagnostic) (addr : ℕ)
    → addr ≤ (address_step (record { kind = k; span = span }) syms ds addr).2
unfolding address_step
step-le (label name) span syms ds addr = omega arith
step-le (directive name args) span syms ds addr = omega arith
step-le (instr m ops) span syms ds addr = omega arith

pub loop-Kept :
    (lines : List Line) (syms : SymbolTable) (ds : List Diagnostic) (addr : ℕ)
    → Kept syms (addresses_loop lines syms ds addr).0
unfolding addresses_loop
loop-Kept [] syms ds addr n x h = h
loop-Kept (line ∷ lines) syms ds addr n x h =
    loop-Kept lines _ _ _ n x (step-Kept line.kind line.span syms ds addr n x h)

pub loop_clean :
    (lines : List Line) (syms : SymbolTable) (ds : List Diagnostic) (addr : ℕ)
    → (addresses_loop lines syms ds addr).1 ≡ []
    → ds ≡ []
unfolding addresses_loop
loop_clean [] syms ds addr e = e
loop_clean (line ∷ lines) syms ds addr e =
    step_clean line.kind line.span syms ds addr (loop_clean lines _ _ _ e)

pub loop-le :
    (lines : List Line) (syms : SymbolTable) (ds : List Diagnostic) (addr : ℕ)
    → addr ≤ (addresses_loop lines syms ds addr).2
unfolding addresses_loop
loop-le [] syms ds addr = omega arith
loop-le (line ∷ lines) syms ds addr =
    let next = address_step line syms ds addr in
    omega (arith, step-le line.kind line.span syms ds addr, loop-le lines next.0 next.1 next.2)

pub loop-append :
    (front back : List Line) (syms : SymbolTable) (ds : List Diagnostic) (addr : ℕ)
    → addresses_loop (front ++ back) syms ds addr
      ≡ addresses_loop back
          (addresses_loop front syms ds addr).0
          (addresses_loop front syms ds addr).1
          (addresses_loop front syms ds addr).2
unfolding addresses_loop
loop-append [] back syms ds addr = refl
loop-append (line ∷ front) back syms ds addr = loop-append front back _ _ _

-- A label that pass 1 meets without a diagnostic has the address that was reached.
pub label_address :
    (name : String) (span : Span) (back : List Line) (syms : SymbolTable) (ds : List Diagnostic)
    (addr : ℕ)
    → (addresses_loop (record { kind = label name; span = span } ∷ back) syms ds addr).1 ≡ []
    → get (addresses_loop (record { kind = label name; span = span } ∷ back) syms ds addr).0 name
      ≡ some (Symbol.label (u16 addr))
unfolding addresses_loop address_step
label_address name span back syms ds addr e =
    let r = inserted syms name span (insert syms name (Symbol.label (u16 addr)) span) ds in
    let (_, found) =
      Inserts-clean (inserted-Inserts syms name (Symbol.label (u16 addr)) span ds)
        (loop_clean back r.0 r.1 addr e) in
    loop-Kept back r.0 r.1 addr name _ found
