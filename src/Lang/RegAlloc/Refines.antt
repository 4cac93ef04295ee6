-- ===== src/Lang/RegAlloc/Refines.antt =====
-- The calls on an allocator as moves of the pool that it stands for.
use Prim.Native.String.{String}
use tamal.Base.{◌≡◌, refl, sym, ap, ap₂, List, [], ◌∷◌, arith, subst, ◌∙◌, map}
use mathlib.Core.Path.{fun_ext}
use tamal.Lang.RegAlloc.{
  Reg, Scope, RegAlloc, enter_scope, exit_scope, temp, name_reg, free, reserve,
}
use tamal.Lang.RegAlloc.Counts.{count, IsTidy, count-hold, count-retain_ne, contains-count}
use tamal.Lang.RegAlloc.Alloc.{IsLowestFree, taking}
use tamal.Lang.RegAlloc.Scopes.{exit_root}
use tamal.Lang.RegAlloc.Blocks.{alloc-Took, bind_lem, exit_scope-scopes}
use tamal.Lang.RegAlloc.Pool.{
  RegSet, Pool, Action, none_held, with_reg, without_reg, Move, rests, opens, closes, takes, drops,
  retakes, regs_of, pool_of, Step, enters, exits, temps, binds, frees, reserves, Step-IsTidy,
  taken-count_scopes, lowest_taken, pool-taking,
}

pool-enter_scope : (a : RegAlloc) → pool_of (enter_scope a) ≡ none_held ∷ pool_of a
unfolding enter_scope count
pool-enter_scope a = refl

pool-free :
    (a : RegAlloc) (reg : Reg)
    → pool_of (free a reg) ≡ without_reg (regs_of a.current) reg ∷ map regs_of a.outer
unfolding free
pool-free a reg =
    ap (λ (s : RegSet). s ∷ map regs_of a.outer)
      (fun_ext λ n. ground (arith, count-retain_ne n reg a.current.regs))

pool-reserve :
    (a : RegAlloc) (reg : Reg)
    → pool_of (reserve a reg) ≡ with_reg (regs_of a.current) reg ∷ map regs_of a.outer
unfolding reserve
pool-reserve a reg =
    ap (λ (s : RegSet). s ∷ map regs_of a.outer)
      (fun_ext λ n. ground (arith, contains-count reg a.current.regs, count-hold n reg a.current))

pool-name_reg :
    (a : RegAlloc) (name : String) (reg : Reg) → pool_of (name_reg a name reg) ≡ pool_of a
unfolding name_reg
pool-name_reg a name reg = refl

exit_scope-Move :
    (a : RegAlloc) (scopes : List Scope)
    → a.outer ≡ scopes
    → Move Action.exiting (pool_of a) (pool_of (exit_scope a))
exit_scope-Move a [] e =
    subst (λ (b : RegAlloc). Move Action.exiting (pool_of a) (pool_of b)) (sym (exit_root a e))
      (rw e rests)
exit_scope-Move a (s ∷ below) e =
    let k = exit_scope-scopes a s below e in
    subst (λ (p : Pool). Move Action.exiting (regs_of a.current ∷ map regs_of a.outer) p)
      (sym (ap₂ (λ (t : Scope) (ts : List Scope). regs_of t ∷ map regs_of ts) k.0 k.1))
      (rw e closes)

took-Move :
    {a : RegAlloc} {reg : Reg} (b : RegAlloc)
    → IsTidy a
    → IsLowestFree a.busy reg
    → pool_of b ≡ pool_of (taking a reg)
    → Move (Action.allocating reg) (pool_of a) (pool_of b)
took-Move {a} {reg} b t low e =
    subst (λ (p : Pool). Move (Action.allocating reg) (pool_of a) p) (sym (e ∙ pool-taking a reg))
      (takes reg (lowest_taken t low))

-- Every call on a tidy allocator is a move of the pool that it stands for.
pub Step-Move :
    {act : Action} {a b : RegAlloc} → Step act a b → IsTidy a → Move act (pool_of a) (pool_of b)
unfolding temp
Step-Move {a} enters t =
    subst (λ (p : Pool). Move Action.entering (pool_of a) p) (sym (pool-enter_scope a)) opens
Step-Move {a} exits t = exit_scope-Move a a.outer refl
Step-Move {a} {b} (temps span e) t =
    let k = alloc-Took a span e in took-Move b t k.lowest (ap (λ (c : RegAlloc). pool_of c) k.after)
Step-Move {a} {b} (binds {reg} name span e) t =
    let k = bind_lem a name span e in
    took-Move b t k.0 (ap (λ (c : RegAlloc). pool_of c) k.1 ∙ pool-name_reg (taking a reg) name reg)
Step-Move {a} (frees reg mine) t =
    subst (λ (p : Pool). Move (Action.freeing reg) (pool_of a) p) (sym (pool-free a reg))
      (drops reg)
Step-Move {a} (reserves reg mine lo hi) t =
    subst (λ (p : Pool). Move (Action.reserving reg) (pool_of a) p) (sym (pool-reserve a reg))
      (retakes reg (ground (arith, taken-count_scopes a.outer reg)))

-- Calls in a row, and moves in a row, by the actions from the first to the last.
pub data Steps : List Action → RegAlloc → RegAlloc → Type 0 where
  start : {a : RegAlloc} → Steps [] a a
  step :
      {act : Action} {acts : List Action} {a b c : RegAlloc}
      → Step act a b
      → Steps acts b c
      → Steps (act ∷ acts) a c

pub data Moves : List Action → Pool → Pool → Type 0 where
  still : {p : Pool} → Moves [] p p
  move :
      {act : Action} {acts : List Action} {p q r : Pool}
      → Move act p q
      → Moves acts q r
      → Moves (act ∷ acts) p r

-- A run of calls on a tidy allocator keeps it tidy, and does to the stack of register sets that it stands
-- for what the actions do one by one, when a register is freed or reserved only where no outer scope holds
-- it, and reserved only from x1 to x15. An allocation takes the lowest of x1 to x15 that is in no set into
-- the innermost one, and it is the register that the call gives; a scope opens with an empty set, and
-- closing drops its set, but leaves the outermost one; freeing takes the register out of the innermost set,
-- and reserving puts it in.
pub Steps-Moves :
    {acts : List Action} {a b : RegAlloc}
    → Steps acts a b
    → IsTidy a
    → IsTidy b × Moves acts (pool_of a) (pool_of b)
Steps-Moves start t = (t, still)
Steps-Moves (step s steps) t =
    let ih = Steps-Moves steps (Step-IsTidy s t) in (ih.0, move (Step-Move s t) ih.1)
