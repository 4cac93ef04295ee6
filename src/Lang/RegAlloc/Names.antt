-- ===== src/Lang/RegAlloc/Names.antt =====
-- The names that a scope binds.
use Prim.Native.String.{String}
use text.Mathlib.TextEquality.{eq_iff}
use tamal.Base.{◌≡◌, ◌≢◌, ok, arith, some, none}
use tamal.Asm.Diagnostics.{Span}
use tamal.Lang.RegAlloc.{
  Reg, RegAlloc, enter_scope, exit_scope, bind, name_reg, lookup, forget, rebind, hold,
}
use tamal.Lang.RegAlloc.Alloc.{taking}
use tamal.Lang.RegAlloc.Blocks.{bind_lem}

abbrev Bound : RegAlloc → String → Reg → RegAlloc → Type 0
Bound a name reg b =
    (lookup b name ≡ some reg)
    × (lookup (exit_scope b) name ≡ none)
    × ((other : String) → other ≢ name → lookup (exit_scope b) other ≡ lookup a other)

Bound-name_reg :
    (a : RegAlloc) (name : String) (reg : Reg)
    → Bound a name reg (name_reg (taking (enter_scope a) reg) name reg)
unfolding name_reg lookup taking enter_scope exit_scope forget rebind hold
Bound-name_reg a name reg = (
  ground (arith, eq_iff name name),
  ground (arith, eq_iff name name),
  λ other ne. ground (arith, eq_iff other name),
)

-- A name bound in a new scope is its register there. When the scope closes the name is bound no
-- more, also where it was bound before the scope, and every other name is as it was.
pub bind-exit_scope :
    (a : RegAlloc) (name : String) (span : Span) {reg : Reg} {b : RegAlloc}
    → bind (enter_scope a) name span ≡ ok (reg, b)
    → (lookup b name ≡ some reg)
      × (lookup (exit_scope b) name ≡ none)
      × ((other : String) → other ≢ name → lookup (exit_scope b) other ≡ lookup a other)
bind-exit_scope a name span {reg} e =
    rw (bind_lem (enter_scope a) name span e).1 (Bound-name_reg a name reg)
