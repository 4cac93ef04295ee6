-- ===== src/Lang/RegAlloc/Pool.antt =====
-- The promise of the allocator: a stack of sets of registers, one for each open scope, from which
-- the lowest register outside all of them is taken.
use Prim.Native.String.{String}
use tamal.Base.{
  ◌≤◌, ◌<◌, ◌≡◌, refl, sym, ap, ltb, List, [], ◌∷◌, ok, err, Result, arith, if◌then◌else◌, ◌==◌,
  ◌∙◌, Bool, true, false, ◌||◌, map,
}
use mathlib.Core.Path.{fun_ext}
use tamal.Asm.Diagnostics.{
  Span, Diagnostic, error, with_help, out_of_registers, live_variables_help,
}
use tamal.Lang.RegAlloc.{Reg, Scope, RegAlloc, enter_scope, exit_scope, temp, bind, free, reserve}
use tamal.Lang.RegAlloc.Counts.{count, count_scopes, holders, IsTidy, count-hold}
use tamal.Lang.RegAlloc.Alloc.{
  IsLowestFree, Allocated, alloc-Allocated, took, refused, taking, enter_scope-IsTidy,
}
use tamal.Lang.RegAlloc.Scopes.{exit_scope-IsTidy, free-IsTidy, reserve-IsTidy}
use tamal.Lang.RegAlloc.Blocks.{temp-IsTidy, bind-IsTidy}

abbrev pub RegSet : Type 0
RegSet = Reg → Bool

abbrev pub Pool : Type 0
Pool = List RegSet

abbrev pub none_held : RegSet
none_held n = false

abbrev pub with_reg : RegSet → Reg → RegSet
with_reg set reg n = if n == reg then true else set n

abbrev pub without_reg : RegSet → Reg → RegSet
without_reg set reg n = if n == reg then false else set n

-- A register is taken when some open scope holds it.
abbrev pub taken : Pool → RegSet
taken [] n = false
taken (set ∷ sets) n = set n || taken sets n

-- What a caller asks of the allocator; an allocation is named by the register that it gives.
pub data Action : Type 0 where
  entering exiting : Action
  allocating freeing reserving : Reg → Action

-- What the action does to the pool. Closing a scope leaves the outermost one as it is.
pub data Move : Action → Pool → Pool → Type 0 where
  opens : {p : Pool} → Move Action.entering p (none_held ∷ p)
  closes : {set below : RegSet} {p : Pool} → Move Action.exiting (set ∷ below ∷ p) (below ∷ p)
  rests : {set : RegSet} → Move Action.exiting (set ∷ []) (set ∷ [])
  takes :
      {set : RegSet} {p : Pool} (reg : Reg)
      → IsLowestFree (taken (set ∷ p)) reg
      → Move (Action.allocating reg) (set ∷ p) (with_reg set reg ∷ p)
  drops :
      {set : RegSet} {p : Pool} (reg : Reg)
      → Move (Action.freeing reg) (set ∷ p) (without_reg set reg ∷ p)
  retakes :
      {set : RegSet} {p : Pool} (reg : Reg)
      → taken p reg ≡ false
      → Move (Action.reserving reg) (set ∷ p) (with_reg set reg ∷ p)

-- The registers of a scope, as a set, and the pool that an allocator stands for.
abbrev pub regs_of : Scope → RegSet
regs_of scope n = ltb 0 (count n scope.regs)

abbrev pub pool_of : RegAlloc → Pool
pool_of a = regs_of a.current ∷ map regs_of a.outer

-- The calls that the emitter makes. A register goes back, or is taken again, only where no outer
-- scope holds it.
pub data Step : Action → RegAlloc → RegAlloc → Type 0 where
  enters : {a : RegAlloc} → Step Action.entering a (enter_scope a)
  exits : {a : RegAlloc} → Step Action.exiting a (exit_scope a)
  temps :
      {a b : RegAlloc} {reg : Reg} (span : Span)
      → temp a span ≡ ok (reg, b)
      → Step (Action.allocating reg) a b
  binds :
      {a b : RegAlloc} {reg : Reg} (name : String) (span : Span)
      → bind a name span ≡ ok (reg, b)
      → Step (Action.allocating reg) a b
  frees :
      {a : RegAlloc} (reg : Reg)
      → count_scopes reg a.outer ≡ 0
      → Step (Action.freeing reg) a (free a reg)
  reserves :
      {a : RegAlloc} (reg : Reg)
      → count_scopes reg a.outer ≡ 0
      → 1 ≤ reg
      → reg < 16
      → Step (Action.reserving reg) a (reserve a reg)

-- Every step keeps the invariant.
pub Step-IsTidy : {act : Action} {a b : RegAlloc} → Step act a b → IsTidy a → IsTidy b
Step-IsTidy enters t = enter_scope-IsTidy t
Step-IsTidy exits t = exit_scope-IsTidy t
Step-IsTidy (temps span e) t = temp-IsTidy span e t
Step-IsTidy (binds name span e) t = bind-IsTidy name span e t
Step-IsTidy (frees reg mine) t = free-IsTidy reg t mine
Step-IsTidy (reserves reg mine lo hi) t = reserve-IsTidy reg t mine lo hi

pub taken-count_scopes :
    (scopes : List Scope) (n : Reg) → taken (map regs_of scopes) n ≡ ltb 0 (count_scopes n scopes)
unfolding count_scopes
taken-count_scopes [] n = refl
taken-count_scopes (s ∷ scopes) n = ground (arith, taken-count_scopes scopes n)

-- In a tidy allocator the busy registers are those that the pool has taken.
pub busy-taken : {a : RegAlloc} → IsTidy a → (n : Reg) → a.busy n ≡ taken (pool_of a) n
unfolding holders
busy-taken {a} t n = ground (arith, t.held n, taken-count_scopes a.outer n)

pub lowest_taken :
    {a : RegAlloc} {reg : Reg}
    → IsTidy a
    → IsLowestFree a.busy reg
    → IsLowestFree (taken (pool_of a)) reg
lowest_taken {a} {reg} t low = record {
  free_before = sym (busy-taken t reg) ∙ low.free_before;
  not_zero = low.not_zero;
  in_file = low.in_file;
  below = λ m lo hi. sym (busy-taken t m) ∙ low.below m lo hi;
}

-- An allocation takes the lowest register that no open scope holds, into the current scope, and is
-- refused only where the open scopes hold all fifteen.
pub data PoolAllocated (a : RegAlloc) (span : Span)
    : Result (Reg × RegAlloc) Diagnostic → Type 0 where
  pool_took :
      {b : RegAlloc} (reg : Reg)
      → IsLowestFree (taken (pool_of a)) reg
      → pool_of b ≡ with_reg (regs_of a.current) reg ∷ map regs_of a.outer
      → PoolAllocated a span (ok (reg, b))
  pool_full :
      ((m : Reg) → 1 ≤ m → m < 16 → taken (pool_of a) m ≡ true)
      → PoolAllocated a span (err (with_help (error span out_of_registers) live_variables_help))

pub pool-taking :
    (a : RegAlloc) (reg : Reg)
    → pool_of (taking a reg) ≡ with_reg (regs_of a.current) reg ∷ map regs_of a.outer
unfolding taking
pool-taking a reg =
    ap (λ (s : RegSet). s ∷ map regs_of a.outer)
      (fun_ext λ n. ground (arith, count-hold n reg a.current))

pub temp-PoolAllocated :
    {a : RegAlloc} (span : Span) → IsTidy a → PoolAllocated a span (temp a span)
unfolding temp
temp-PoolAllocated {a} span t = of_result (alloc-Allocated a span)
  where
    of_result :
        {r : Result (Reg × RegAlloc) Diagnostic} → Allocated a span r → PoolAllocated a span r
    of_result (took reg low) = pool_took reg (lowest_taken t low) (pool-taking a reg)
    of_result (refused all) = pool_full (λ m lo hi. sym (busy-taken t m) ∙ all m lo hi)
