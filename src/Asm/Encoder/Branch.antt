-- ===== src/Asm/Encoder/Branch.antt =====
-- Where a branch goes.
use Prim.Native.String.{String}
use tamal.Base.{
  ℕ, ◌+◌, ◌%◌, ◌≡◌, refl, sym, ap, ◌∙◌, Option, some, none, Bool, false, not, ◌||◌, Bool-cases, inl,
  inr, Result, ok, err, ◌>>=◌, u32, arith,
}
use tamal.Base.Int.{ℤ, pos, negsuc, leb_ℤ, low_bits, difference}
use tamal.Abi.Isa.Operand.{Fits, imm11_bits}
use tamal.Asm.Diagnostics.{Span, Diagnostic}
use tamal.Asm.Parser.{ident, num, OperandKind, Operand}
use tamal.Asm.Symbol
use tamal.Asm.Symbol.{Sym, equ, SymbolTable, get}
use tamal.Asm.Encoder.Resolve.{checked, imm11_of, target_of, resolve_branch_target}
use tamal.Asm.Encoder.Li.Effect.{sign_extend, imm11_of-mod}

-- The offset `off` at address `addr` is for the label that the operand names.
pub data Lands (addr : ℕ) (syms : SymbolTable) (off : ℕ) : OperandKind → Type 0 where
  lands :
      (name : String) (t : ℕ)
      → get syms name ≡ some (Symbol.label t)
      → u32 (addr + sign_extend 11 off) ≡ u32 t
      → Fits imm11_bits off
      → Lands addr syms off (ident name)

abbrev in_range : ℤ → Bool
in_range z = not (leb_ℤ (negsuc 1023) z) || not (leb_ℤ z (pos 1023))

extended : (z : ℤ) → in_range z ≡ false → sign_extend 11 (low_bits 32 z % 2048) ≡ low_bits 32 z
extended (pos n) h = ground arith
extended (negsuc n) h = ground arith

difference_lands : (t addr : ℕ) → u32 (addr + low_bits 32 (difference t addr)) ≡ u32 t
difference_lands t addr = ground arith

checked-ok :
    (v w : ℤ) (span : Span) (what : String)
    → checked v (negsuc 1023) (pos 1023) span what ≡ ok w
    → (in_range v ≡ false) × (v ≡ w)
unfolding checked
checked-ok v w span what e = elim (Bool-cases (in_range v)) [
  | inl h ↦ absurd (refused _ (rw h at e))
  | inr h ↦ (h, cc (rw h at e))
]
  where
    refused : (x : Diagnostic) → ◌≡◌ {A = Result ℤ Diagnostic} (err x) (ok w) → ⊥
    refused x k = cc k

distance-Lands :
    (addr t off : ℕ) (syms : SymbolTable) (name : String)
    → get syms name ≡ some (Symbol.label t)
    → in_range (difference t addr) ≡ false
    → imm11_of (difference t addr) ≡ off
    → Lands addr syms off (ident name)
distance-Lands addr t off syms name g h o =
    let field = sym (imm11_of-mod (difference t addr)) ∙ o in
    lands name t g (rw (← field, extended (difference t addr) h) (difference_lands t addr))
      (omega (arith, field))

label-Lands :
    (addr off : ℕ) (syms : SymbolTable) (name : String) (span : Span) (s : Option Sym)
    → get syms name ≡ s
    → (target_of span name s >>= λ target.
        checked (difference target addr) (negsuc 1023) (pos 1023) span "branch offset" >>= λ z.
        ok (imm11_of z))
      ≡ ok off
    → Lands addr syms off (ident name)
unfolding target_of
label-Lands addr off syms name span none g k = cc k
label-Lands addr off syms name span (some (equ v)) g k = cc k
label-Lands addr off syms name span (some (Symbol.label t)) g k =
    near (checked (difference t addr) (negsuc 1023) (pos 1023) span "branch offset") refl k
  where
    near :
        (r : Result ℤ Diagnostic)
        → checked (difference t addr) (negsuc 1023) (pos 1023) span "branch offset" ≡ r
        → (r >>= λ z. ok (imm11_of z)) ≡ ok off
        → Lands addr syms off (ident name)
    near (ok z) c o =
        let (h, same) = checked-ok (difference t addr) z span "branch offset" c in
        distance-Lands addr t off syms name g h (ap imm11_of same ∙ cc o)
    near (err x) c o = cc o

kind-Lands :
    (k : OperandKind) (span : Span) (addr off : ℕ) (syms : SymbolTable)
    → resolve_branch_target (record { kind = k; span = span }) addr syms ≡ ok off
    → Lands addr syms off k
unfolding resolve_branch_target
kind-Lands (num n) span addr off syms e = cc e
kind-Lands (ident name) span addr off syms e =
    label-Lands addr off syms name span (get syms name) refl e

-- A branch target that resolves names a label, and the address plus the sign-extended offset is the
-- label's address, as 32-bit words.
pub resolve_branch_target-Lands :
    (op : Operand) (addr : ℕ) (syms : SymbolTable) (off : ℕ)
    → resolve_branch_target op addr syms ≡ ok off
    → Lands addr syms off op.kind
resolve_branch_target-Lands op addr syms off e = kind-Lands op.kind op.span addr off syms e
