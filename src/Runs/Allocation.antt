-- ===== src/Runs/Allocation.antt =====
-- The register allocator of crates/tamal-lang on short runs of calls.
use Prim.Native.String.{String}
use tamal.Base.{some, none, ok, ◌≡◌, ◌≢◌, refl, arith, List, [], ◌∷◌}
use tamal.Asm.Diagnostics.{Span}
use tamal.Lang.RegAlloc
use tamal.Lang.RegAlloc.{
  Reg, RegAlloc, new, enter_scope, exit_scope, temp, bind, name_reg, free, lookup,
}
use tamal.Lang.RegAlloc.Counts.{IsTidy, new-IsTidy, count, count_scopes}
use tamal.Lang.RegAlloc.Alloc.{taking}
use tamal.Lang.RegAlloc.Blocks.{Block, done, takes, gives_back, nested, SameRegs, exit_scope-Block}
use tamal.Lang.RegAlloc.Names.{bind-exit_scope}
use tamal.Lang.RegAlloc.Pool.{
  pool_of, Action, frees, PoolAllocated, temp-PoolAllocated, enters, exits, temps, Step-IsTidy,
}
use tamal.Lang.RegAlloc.Refines.{Steps, start, step, Moves, Steps-Moves}

abbrev here : Span
here = record { start = 0; end = 4 }

-- x1 is taken.
abbrev one : RegAlloc
one = taking new 1

temp-new : temp new here ≡ ok (1, one)
unfolding temp RegAlloc.alloc RegAlloc.first_free new taking
temp-new = refl

one-IsTidy : IsTidy one
one-IsTidy = Step-IsTidy (temps here temp-new) new-IsTidy

-- Inside a scope of its own, x2 is next.
abbrev two : RegAlloc
two = taking (enter_scope one) 2

temp-one : temp (enter_scope one) here ≡ ok (2, two)
unfolding temp RegAlloc.alloc RegAlloc.first_free new taking enter_scope RegAlloc.mark
temp-one = refl

abbrev actions : List Action
actions =
    Action.allocating 1
    ∷ Action.entering
    ∷ Action.allocating 2
    ∷ Action.freeing 2
    ∷ Action.exiting
    ∷ []

steps : Steps actions new (exit_scope (free two 2))
unfolding taking enter_scope count count_scopes new RegAlloc.hold RegAlloc.mark
steps =
    step (temps here temp-new)
      (step enters (step (temps here temp-one) (step (frees 2 refl) (step exits start))))

Steps-Moves_example :
    IsTidy (exit_scope (free two 2))
    × Moves actions (pool_of new) (pool_of (exit_scope (free two 2)))
Steps-Moves_example = Steps-Moves steps new-IsTidy

temp-PoolAllocated_example : PoolAllocated one here (temp one here)
temp-PoolAllocated_example = temp-PoolAllocated here one-IsTidy

two_is_current : count 2 two.current.regs ≡ 1
unfolding taking enter_scope RegAlloc.hold count
two_is_current = refl

work : Block (enter_scope one) (exit_scope (enter_scope (free two 2)))
work = takes here temp-one (gives_back 2 (omega (arith, two_is_current)) (nested done done))

exit_scope-Block_example : SameRegs one (exit_scope (exit_scope (enter_scope (free two 2))))
exit_scope-Block_example = exit_scope-Block one-IsTidy work

-- The name x for x1, and for x2 in a scope inside.
abbrev outer_x : RegAlloc
outer_x = name_reg one "x" 1

bind_inner :
    bind (enter_scope outer_x) "x" here ≡ ok (2, name_reg (taking (enter_scope outer_x) 2) "x" 2)
unfolding bind RegAlloc.alloc RegAlloc.first_free new taking enter_scope RegAlloc.mark name_reg
bind_inner = refl

lookup_outer : lookup outer_x "x" ≡ some 1
unfolding lookup name_reg RegAlloc.rebind
lookup_outer = refl

bind-exit_scope_example :
    (lookup (name_reg (taking (enter_scope outer_x) 2) "x" 2) "x" ≡ some 2)
    × (lookup (exit_scope (name_reg (taking (enter_scope outer_x) 2) "x" 2)) "x" ≡ none)
    × ((other : String)
        → other ≢ "x"
        → lookup (exit_scope (name_reg (taking (enter_scope outer_x) 2) "x" 2)) other
          ≡ lookup outer_x other)
bind-exit_scope_example = bind-exit_scope outer_x "x" here bind_inner
