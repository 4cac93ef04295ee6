-- ===== src/Lang/RegAlloc.antt =====
-- The register allocator of crates/tamal-lang/src/regalloc.rs. A register is its number; the array
-- `busy` and the map `bindings` are functions, and the scope stack is its last scope, `current`,
-- with those below it, innermost first. The root scope is never popped, so there always is one.
pub mod Counts
pub mod Alloc
pub mod Scopes
pub mod Blocks
pub mod Pool
pub mod Names
pub mod Refines
use Prim.Native.String.{String}
use text.Mathlib.Text.{◌==◌ as str_eq}
use tamal.Base.{
  ℕ, zero, suc, ◌+◌, ◌==◌, ltb, if◌then◌else◌, Bool, true, false, List, [], ◌∷◌, ◌++◌, Option, none,
  some, Result, ok, err, ◌>>=◌,
}
use tamal.Asm.Diagnostics.{
  Span, Diagnostic, error, with_help, out_of_registers, live_variables_help,
}

abbrev pub Reg : Type 0
Reg = ℕ

abbrev pub num_regs : ℕ
num_regs = 16

pub record Scope : Type 0 where
  pub regs : List Reg
  pub names : List String

pub record RegAlloc : Type 0 where
  pub busy : Reg → Bool
  pub current : Scope
  pub outer : List Scope
  pub bindings : String → Option Reg

-- `Scope::default()`.
abbrev pub empty_scope : Scope
empty_scope = record { regs = []; names = [] }

unfoldable pub new : RegAlloc
new = record { busy = λ _. false; current = empty_scope; outer = []; bindings = λ _. none }

-- `busy[n] = b` and `bindings.insert(name, reg)`, as new functions.
unfoldable pub mark : (Reg → Bool) → Reg → Bool → Reg → Bool
mark busy n b m = if m == n then b else busy m

unfoldable pub rebind : (String → Option Reg) → String → Option Reg → String → Option Reg
rebind bindings name reg other = if str_eq other name then reg else bindings other

unfoldable pub enter_scope : RegAlloc → RegAlloc
enter_scope a = record {
  busy = a.busy;
  current = empty_scope;
  outer = a.current ∷ a.outer;
  bindings = a.bindings;
}

-- The loops of `exit_scope` over the registers and over the names of the scope.
unfoldable pub release : (Reg → Bool) → List Reg → Reg → Bool
release busy [] = busy
release busy (reg ∷ regs) = release (mark busy reg false) regs

unfoldable pub forget : (String → Option Reg) → List String → String → Option Reg
forget bindings [] = bindings
forget bindings (name ∷ names) = forget (rebind bindings name none) names

unfoldable pub exit_scope : RegAlloc → RegAlloc
exit_scope a = elim a.outer [
  | [] ↦ a
  | scope ∷ below ↦ record {
    busy = release a.busy a.current.regs;
    current = scope;
    outer = below;
    bindings = forget a.bindings a.current.names;
  }
]

-- The loop of `alloc` over `n..NUM_REGS`, with `left` numbers to go.
unfoldable pub first_free : (Reg → Bool) → ℕ → Reg → Option Reg
first_free busy zero n = none
first_free busy (suc left) n = if busy n then first_free busy left (suc n) else some n

-- `regs.push(reg)` on the last scope.
unfoldable pub hold : Scope → Reg → Scope
hold scope reg = record { regs = scope.regs ++ reg ∷ []; names = scope.names }

unfoldable pub alloc : RegAlloc → Span → Result (Reg × RegAlloc) Diagnostic
alloc a span = elim (first_free a.busy 15 1) [
  | some n ↦ ok (
    n,
    record {
      busy = mark a.busy n true;
      current = hold a.current n;
      outer = a.outer;
      bindings = a.bindings;
    },
  )
  | none ↦ err (with_help (error span out_of_registers) live_variables_help)
]

unfoldable pub temp : RegAlloc → Span → Result (Reg × RegAlloc) Diagnostic
temp a span = alloc a span

unfoldable pub name_reg : RegAlloc → String → Reg → RegAlloc
name_reg a name reg = record {
  busy = a.busy;
  current = record { regs = a.current.regs; names = a.current.names ++ name ∷ [] };
  outer = a.outer;
  bindings = rebind a.bindings name (some reg);
}

unfoldable pub bind : RegAlloc → String → Span → Result (Reg × RegAlloc) Diagnostic
bind a name span = alloc a span >>= λ (reg, b). ok (reg, name_reg b name reg)

unfoldable pub lookup : RegAlloc → String → Option Reg
lookup a name = a.bindings name

-- `regs.retain(|&r| r != reg)` and `regs.contains(&reg)`.
unfoldable pub retain_ne : Reg → List Reg → List Reg
retain_ne reg [] = []
retain_ne reg (r ∷ regs) = let rest = retain_ne reg regs in if r == reg then rest else r ∷ rest

unfoldable pub contains : List Reg → Reg → Bool
contains [] reg = false
contains (r ∷ regs) reg = if r == reg then true else contains regs reg

-- `busy.get_mut(n)` writes only below 16.
unfoldable pub mark_checked : (Reg → Bool) → Reg → Bool → Reg → Bool
mark_checked busy n b = if ltb n num_regs then mark busy n b else busy

unfoldable pub free : RegAlloc → Reg → RegAlloc
free a reg = record {
  busy = mark_checked a.busy reg false;
  current = record { regs = retain_ne reg a.current.regs; names = a.current.names };
  outer = a.outer;
  bindings = a.bindings;
}

unfoldable pub reserve : RegAlloc → Reg → RegAlloc
reserve a reg = record {
  busy = mark_checked a.busy reg true;
  current = if contains a.current.regs reg then a.current else hold a.current reg;
  outer = a.outer;
  bindings = a.bindings;
}
