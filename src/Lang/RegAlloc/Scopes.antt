-- ===== src/Lang/RegAlloc/Scopes.antt =====
-- The scopes of the allocator: what closing one gives back, and the operations as steps.
use tamal.Base.{◌+◌, ◌≤◌, ◌<◌, ◌==◌, ltb, if◌then◌else◌, false, List, [], ◌∷◌, ◌≡◌, refl, arith}
use tamal.Lang.RegAlloc.{Reg, Scope, RegAlloc, mark, mark_checked, exit_scope, free, reserve}
use tamal.Lang.RegAlloc.Counts.{
  count, count_scopes, holders, IsTidy, count-hold, count-retain_ne, contains-count, release_lem,
}

-- The registers of the current scope, given back.
pub holders-exit_scope :
    (a : RegAlloc) (s : Scope) (below : List Scope) (n : Reg)
    → a.outer ≡ s ∷ below
    → holders (exit_scope a) n + count n a.current.regs ≡ holders a n
unfolding holders exit_scope count_scopes
holders-exit_scope a s below n e = rw e (omega arith)

pub busy-exit_scope :
    (a : RegAlloc) (s : Scope) (below : List Scope) (n : Reg)
    → a.outer ≡ s ∷ below
    → (exit_scope a).busy n ≡ (if ltb 0 (count n a.current.regs) then false else a.busy n)
unfolding exit_scope
busy-exit_scope a s below n e = rw e (release_lem a.busy a.current.regs n)

exit_nested-IsTidy :
    {a : RegAlloc} (s : Scope) (below : List Scope)
    → a.outer ≡ s ∷ below
    → IsTidy a
    → IsTidy (exit_scope a)
exit_nested-IsTidy {a} s below e t = record {
  held = λ n.
      ground (
        arith,
        t.held n,
        t.once n,
        busy-exit_scope a s below n e,
        holders-exit_scope a s below n e,
      );
  once = λ n. omega (arith, t.once n, holders-exit_scope a s below n e);
  no_zero = omega (arith, t.no_zero, holders-exit_scope a s below 0 e);
  in_range = λ n h. omega (arith, t.in_range n, holders-exit_scope a s below n e);
}

pub exit_root : (a : RegAlloc) → a.outer ≡ [] → exit_scope a ≡ a
unfolding exit_scope
exit_root a e = rw e

-- Closing a scope keeps the invariant, and does nothing at the root.
pub exit_scope-IsTidy : {a : RegAlloc} → IsTidy a → IsTidy (exit_scope a)
exit_scope-IsTidy {a} t = on a.outer refl
  where
    on : (scopes : List Scope) → a.outer ≡ scopes → IsTidy (exit_scope a)
    on [] e = rw (exit_root a e) t
    on (s ∷ below) e = exit_nested-IsTidy s below e t

pub holders-free :
    (a : RegAlloc) (reg n : Reg)
    → holders (free a reg) n ≡ (if n == reg then count_scopes n a.outer else holders a n)
unfolding holders free
holders-free a reg n = ground (arith, count-retain_ne n reg a.current.regs)

-- Giving back a register that no outer scope holds keeps the invariant.
pub free-IsTidy :
    {a : RegAlloc} (reg : Reg) → IsTidy a → count_scopes reg a.outer ≡ 0 → IsTidy (free a reg)
unfolding free mark_checked mark
free-IsTidy {a} reg t mine = record {
  held = λ n. ground (arith, t.held n, t.in_range n, holders-free a reg n);
  once = λ n. ground (arith, t.once n, holders-free a reg n);
  no_zero = ground (arith, t.no_zero, holders-free a reg 0);
  in_range = λ n h. ground (arith, t.in_range n, holders-free a reg n);
}

pub holders-reserve :
    (a : RegAlloc) (reg n : Reg)
    → holders (reserve a reg) n
      ≡ holders a n + (if n == reg then (if ltb 0 (count reg a.current.regs) then 0 else 1) else 0)
unfolding holders reserve
holders-reserve a reg n =
    ground (arith, contains-count reg a.current.regs, count-hold n reg a.current)

holders_current :
    (a : RegAlloc) (reg : Reg)
    → count_scopes reg a.outer ≡ 0
    → holders a reg ≡ count reg a.current.regs
unfolding holders
holders_current a reg mine = omega arith

-- Taking a register again that no outer scope holds keeps the invariant.
pub reserve-IsTidy :
    {a : RegAlloc} (reg : Reg)
    → IsTidy a
    → count_scopes reg a.outer ≡ 0
    → 1 ≤ reg
    → reg < 16
    → IsTidy (reserve a reg)
unfolding reserve mark_checked mark
reserve-IsTidy {a} reg t mine lo hi = record {
  held =
      λ n. ground (arith, t.held n, t.once n, holders_current a reg mine, holders-reserve a reg n);
  once = λ n. ground (arith, t.once n, holders_current a reg mine, holders-reserve a reg n);
  no_zero = ground (arith, t.no_zero, holders-reserve a reg 0);
  in_range = λ n h. ground (arith, t.in_range n, holders-reserve a reg n);
}
