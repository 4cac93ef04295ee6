-- ===== src/Asm/Passes/Equs.antt =====
-- What pass 1 does to the constants of the table.
use Prim.Native.String.{String}
use text.Mathlib.Text.{◌==◌ as str_eq}
use tamal.Base.{
  ℕ, ◌≡◌, refl, sym, ap, ◌∙◌, List, [], ◌∷◌, Option, some, none, Bool, true, false, if◌then◌else◌,
  Bool-cases, inl, inr, Result, Result-cases, ok, err, u16,
}
use tamal.Base.Int.{ℤ}
use tamal.Asm.Diagnostics.{Span, Diagnostic}
use tamal.Asm.Parser.{ident, num, OperandKind, label, directive, instr, Line, LineKind}
use tamal.Asm.Symbol
use tamal.Asm.Symbol.{Sym, equ, SymbolTable, get, entry, insert}
use tamal.Asm.Encoder.Resolve.{resolve_imm, constant}
use tamal.Asm.Encoder.Li.{li_value}
use tamal.Asm.Encoder.Line.Sizes.{SameLi}
use tamal.Asm.Passes.{inserted, address_step, addresses_loop}

-- Every constant of `after` is a constant of `before`.
abbrev pub NoNewEqus : SymbolTable → SymbolTable → Type 0
NoNewEqus before after =
    (name : String) (v : ℤ) → get after name ≡ some (equ v) → get before name ≡ some (equ v)

pub get-cons :
    (syms : SymbolTable) (name n : String) (s : Sym) (span : Span) (b : Bool)
    → str_eq name n ≡ b
    → get ((name, s, span) ∷ syms) n ≡ (if b then some s else get syms n)
unfolding get entry
get-cons syms name n s span true e =
    ap
      (λ b. elim (if b then some (s, span) else entry syms n) as (λ _. Option Sym) [
        | none ↦ none
        | some (x, _) ↦ some x
      ])
      e
get-cons syms name n s span false e =
    ap
      (λ b. elim (if b then some (s, span) else entry syms n) as (λ _. Option Sym) [
        | none ↦ none
        | some (x, _) ↦ some x
      ])
      e

label_hides :
    (syms : SymbolTable) (name n : String) (addr : ℕ) (span : Span) (v : ℤ)
    → get ((name, Symbol.label addr, span) ∷ syms) n ≡ some (equ v)
    → get syms n ≡ some (equ v)
label_hides syms name n addr span v h = elim (Bool-cases (str_eq name n)) [
  | inl e ↦ absurd (label_ne (sym (get-cons syms name n (Symbol.label addr) span true e) ∙ h))
  | inr e ↦ sym (get-cons syms name n (Symbol.label addr) span false e) ∙ h
]
  where
    label_ne : ◌≡◌ {A = Option Sym} (some (Symbol.label addr)) (some (equ v)) → ⊥
    label_ne k = cc k

-- The result of an insertion, by the entry that there is.
pub insert-entry :
    (syms : SymbolTable) (name : String) (s : Sym) (span : Span) (e : Option (Sym × Span))
    → entry syms name ≡ e
    → insert syms name s span ≡ (elim e as (λ _. Result SymbolTable Span) [
      | some (_, prev) ↦ err prev
      | none ↦ ok ((name, s, span) ∷ syms)
    ])
unfolding insert
insert-entry syms name s span e g =
    ap
      (λ x. elim x as (λ _. Result SymbolTable Span) [
        | some (_, prev) ↦ err prev
        | none ↦ ok ((name, s, span) ∷ syms)
      ])
      g

inserted-NoNewEqus :
    (syms : SymbolTable) (name : String) (addr : ℕ) (span : Span) (diags : List Diagnostic)
    → NoNewEqus syms (inserted syms name span (insert syms name (Symbol.label addr) span) diags).0
inserted-NoNewEqus syms name addr span diags = by_entry (entry syms name) refl
  where
    by_entry :
        (e : Option (Sym × Span))
        → entry syms name ≡ e
        → NoNewEqus syms
            (inserted syms name span (insert syms name (Symbol.label addr) span) diags).0
    by_entry none g =
        rw (insert-entry syms name (Symbol.label addr) span none g)
          (unfold inserted in λ n v. label_hides syms name n addr span v)
    by_entry (some (x, prev)) g =
        rw (insert-entry syms name (Symbol.label addr) span (some (x, prev)) g)
          (unfold inserted in λ n v h. h)

step-NoNewEqus :
    (line : Line) (syms : SymbolTable) (diags : List Diagnostic) (addr : ℕ)
    → NoNewEqus syms (address_step line syms diags addr).0
unfolding address_step
step-NoNewEqus line syms diags addr = by_kind line.kind refl
  where
    by_kind : (k : LineKind) → line.kind ≡ k → NoNewEqus syms (address_step line syms diags addr).0
    by_kind (label name) e = rw e (inserted-NoNewEqus syms name (u16 addr) line.span diags)
    by_kind (directive name args) e = rw e (λ _ _ h. h)
    by_kind (instr m ops) e = rw e (λ _ _ h. h)

pub loop-NoNewEqus :
    (lines : List Line) (syms : SymbolTable) (diags : List Diagnostic) (addr : ℕ)
    → NoNewEqus syms (addresses_loop lines syms diags addr).0
unfolding addresses_loop
loop-NoNewEqus [] syms diags addr = λ _ _ h. h
loop-NoNewEqus (line ∷ lines) syms diags addr =
    λ name v h. step-NoNewEqus line syms diags addr name v (loop-NoNewEqus lines _ _ _ name v h)

constant-ok :
    (span : Span) (name : String) (s : Option Sym) (v : ℤ)
    → constant span name s ≡ ok v
    → s ≡ some (equ v)
unfolding constant
constant-ok span name none v e = cc e
constant-ok span name (some (equ z)) v e = cc e
constant-ok span name (some (Symbol.label a)) v e = cc e

imm-NoNewEqus :
    (before after : SymbolTable)
    → NoNewEqus before after
    → (k : OperandKind) (span : Span) (v : ℤ)
    → resolve_imm (record { kind = k; span = span }) after ≡ ok v
    → resolve_imm (record { kind = k; span = span }) before ≡ ok v
unfolding resolve_imm constant
imm-NoNewEqus before after h (num n) span v e = e
imm-NoNewEqus before after h (ident name) span v e =
    rw (h name v (constant-ok span name (get after name) v e))

pub NoNewEqus-SameLi : (before after : SymbolTable) → NoNewEqus before after → SameLi before after
unfolding li_value
NoNewEqus-SameLi before after h b v e = elim (Result-cases (resolve_imm b after)) [
  | inl (z, g) ↦ rw (imm-NoNewEqus before after h b.kind b.span z g) (rw g at e)
  | inr (x, g) ↦ absurd (refused x (rw g at e))
]
  where
    refused : (x : Diagnostic) → ◌≡◌ {A = Result ℤ Diagnostic} (err x) (ok v) → ⊥
    refused x k = cc k
