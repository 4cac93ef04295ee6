-- ===== src/Lang/RegAlloc/Blocks.antt =====
-- Work done inside one scope, with the scopes that it opens and closes in turn.
use Prim.Native.String.{String}
use tamal.Base.{◌<◌, ◌≡◌, refl, sym, ap, List, ◌∷◌, ok, err, Result, arith, subst, ◌∙◌}
use tamal.Asm.Diagnostics.{Span, Diagnostic}
use tamal.Lang.RegAlloc.{
  Reg, Scope, RegAlloc, enter_scope, exit_scope, alloc, temp, bind, name_reg, free,
}
use tamal.Lang.RegAlloc.Counts.{count, count_scopes, holders, IsTidy}
use tamal.Lang.RegAlloc.Alloc.{
  IsLowestFree, Allocated, alloc-Allocated, took, refused, taking, taking-IsTidy,
  enter_scope-IsTidy,
}
use tamal.Lang.RegAlloc.Scopes.{exit_scope-IsTidy, free-IsTidy}

-- What a successful allocation gives.
pub record Took (a : RegAlloc) (reg : Reg) (b : RegAlloc) : Type 0 where
  pub lowest : IsLowestFree a.busy reg
  pub after : b ≡ taking a reg

invert :
    {a : RegAlloc} {span : Span} {r : Result (Reg × RegAlloc) Diagnostic} {reg : Reg} {b : RegAlloc}
    → Allocated a span r
    → r ≡ ok (reg, b)
    → Took a reg b
invert {a} (took n low) e = record {
  lowest = subst (λ m. IsLowestFree a.busy m) (cc) low;
  after = cc;
}
invert (refused all) e = cc

pub alloc-Took :
    (a : RegAlloc) (span : Span) {reg : Reg} {b : RegAlloc}
    → alloc a span ≡ ok (reg, b)
    → Took a reg b
alloc-Took a span e = invert (alloc-Allocated a span) e

bound_of :
    (name : String) {a : RegAlloc} {span : Span} {r : Result (Reg × RegAlloc) Diagnostic}
    {reg : Reg} {b : RegAlloc}
    → Allocated a span r
    → (elim r as (λ _. Result (Reg × RegAlloc) Diagnostic) [
      | ok t ↦ ok (t.0, name_reg t.1 name t.0)
      | err e ↦ err e
    ])
      ≡ ok (reg, b)
    → IsLowestFree a.busy reg × (b ≡ name_reg (taking a reg) name reg)
bound_of name {a} (took n low) e = (subst (λ m. IsLowestFree a.busy m) (cc) low, cc)
bound_of name (refused all) e = cc

pub bind_lem :
    (a : RegAlloc) (name : String) (span : Span) {reg : Reg} {b : RegAlloc}
    → bind a name span ≡ ok (reg, b)
    → IsLowestFree a.busy reg × (b ≡ name_reg (taking a reg) name reg)
unfolding bind
bind_lem a name span e = bound_of name (alloc-Allocated a span) e

-- Allocations, releases of registers of the scope itself, and inner scopes with work of their own.
pub data Block : RegAlloc → RegAlloc → Type 0 where
  done : {a : RegAlloc} → Block a a
  takes :
      {a b c : RegAlloc} {reg : Reg} (span : Span)
      → temp a span ≡ ok (reg, b)
      → Block b c
      → Block a c
  binds :
      {a b c : RegAlloc} {reg : Reg} (name : String) (span : Span)
      → bind a name span ≡ ok (reg, b)
      → Block b c
      → Block a c
  gives_back :
      {a c : RegAlloc} (reg : Reg) → 0 < count reg a.current.regs → Block (free a reg) c → Block a c
  nested : {a b c : RegAlloc} → Block (enter_scope a) b → Block (exit_scope b) c → Block a c

pub temp-IsTidy :
    {a : RegAlloc} (span : Span) {reg : Reg} {b : RegAlloc}
    → temp a span ≡ ok (reg, b)
    → IsTidy a
    → IsTidy b
unfolding temp
temp-IsTidy {a} span e t =
    let k = alloc-Took a span e in
    rw k.after (taking-IsTidy t k.lowest.free_before k.lowest.not_zero k.lowest.in_file)

name_reg-IsTidy :
    {a : RegAlloc} (name : String) (reg : Reg) → IsTidy a → IsTidy (name_reg a name reg)
unfolding name_reg holders
name_reg-IsTidy name reg t = record {
  held = t.held;
  once = t.once;
  no_zero = t.no_zero;
  in_range = t.in_range;
}

pub bind-IsTidy :
    {a : RegAlloc} (name : String) (span : Span) {reg : Reg} {b : RegAlloc}
    → bind a name span ≡ ok (reg, b)
    → IsTidy a
    → IsTidy b
bind-IsTidy {a} name span {reg} e t =
    let k = bind_lem a name span e in
    rw k.1 (name_reg-IsTidy name reg (taking-IsTidy t k.0.free_before k.0.not_zero k.0.in_file))

-- A register of the current scope is held by no other.
pub not_outer :
    {a : RegAlloc} (reg : Reg)
    → IsTidy a
    → 0 < count reg a.current.regs
    → count_scopes reg a.outer ≡ 0
unfolding holders
not_outer reg t h = omega (arith, t.once reg)

-- Work in a scope keeps the invariant.
pub Block-IsTidy : {a b : RegAlloc} → Block a b → IsTidy a → IsTidy b
Block-IsTidy done t = t
Block-IsTidy (takes span e rest) t = Block-IsTidy rest (temp-IsTidy span e t)
Block-IsTidy (binds name span e rest) t = Block-IsTidy rest (bind-IsTidy name span e t)
Block-IsTidy (gives_back reg mine rest) t =
    Block-IsTidy rest (free-IsTidy reg t (not_outer reg t mine))
Block-IsTidy (nested inner rest) t =
    Block-IsTidy rest (exit_scope-IsTidy (Block-IsTidy inner (enter_scope-IsTidy t)))

temp-outer :
    (a : RegAlloc) (span : Span) {reg : Reg} {b : RegAlloc}
    → temp a span ≡ ok (reg, b)
    → b.outer ≡ a.outer
unfolding temp taking
temp-outer a span e = ap (λ (c : RegAlloc). c.outer) (alloc-Took a span e).after

bind-outer :
    (a : RegAlloc) (name : String) (span : Span) {reg : Reg} {b : RegAlloc}
    → bind a name span ≡ ok (reg, b)
    → b.outer ≡ a.outer
unfolding taking name_reg
bind-outer a name span e = ap (λ (c : RegAlloc). c.outer) (bind_lem a name span e).1

free-outer : (a : RegAlloc) (reg : Reg) → (free a reg).outer ≡ a.outer
unfolding free
free-outer a reg = refl

pub exit_scope-scopes :
    (a : RegAlloc) (scope : Scope) (below : List Scope)
    → a.outer ≡ scope ∷ below
    → ((exit_scope a).current ≡ scope) × ((exit_scope a).outer ≡ below)
unfolding exit_scope
exit_scope-scopes a scope below e = rw e (refl, refl)

enter_scope-outer : (a : RegAlloc) → (enter_scope a).outer ≡ a.current ∷ a.outer
unfolding enter_scope
enter_scope-outer a = refl

-- The scopes below the current one are as they were.
pub Block-outer : {a b : RegAlloc} → Block a b → b.outer ≡ a.outer
Block-outer done = refl
Block-outer {a} (takes span e rest) = Block-outer rest ∙ temp-outer a span e
Block-outer {a} (binds name span e rest) = Block-outer rest ∙ bind-outer a name span e
Block-outer {a} (gives_back reg mine rest) = Block-outer rest ∙ free-outer a reg
Block-outer {a} (nested {b} inner rest) =
    Block-outer rest
    ∙ (exit_scope-scopes b a.current a.outer (Block-outer inner ∙ enter_scope-outer a)).1

-- What a scope gives back when it closes: all that was taken in it and in the scopes inside it.
pub record SameRegs (a b : RegAlloc) : Type 0 where
  pub busy_same : (n : Reg) → b.busy n ≡ a.busy n
  pub current_same : b.current ≡ a.current
  pub outer_same : b.outer ≡ a.outer

held_same :
    {a b : RegAlloc}
    → IsTidy a
    → IsTidy b
    → b.current ≡ a.current
    → b.outer ≡ a.outer
    → SameRegs a b
unfolding holders
held_same {a} {b} s t e f = record {
  busy_same = λ n. t.held n ∙ rw (e, f) (sym (s.held n));
  current_same = e;
  outer_same = f;
}

-- Opening a scope, working in it and closing it leaves the busy registers and the open scopes as
-- they were, where the allocator is tidy before.
pub exit_scope-Block :
    {a b : RegAlloc} → IsTidy a → Block (enter_scope a) b → SameRegs a (exit_scope b)
exit_scope-Block {a} {b} t work =
    let scopes = exit_scope-scopes b a.current a.outer (Block-outer work ∙ enter_scope-outer a) in
    held_same t (exit_scope-IsTidy (Block-IsTidy work (enter_scope-IsTidy t))) scopes.0 scopes.1
