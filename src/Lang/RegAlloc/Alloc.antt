-- ===== src/Lang/RegAlloc/Alloc.antt =====
-- Which register `alloc` takes, and what each operation does to the counts of held registers.
use tamal.Base.{
  ℕ, zero, suc, ◌+◌, ◌≤◌, ◌<◌, ◌==◌, if◌then◌else◌, Bool, true, false, Bool-cases, Option, none,
  some, Result, ok, err, ◌≡◌, inl, inr, arith, ==→eq,
}
use tamal.Asm.Diagnostics.{
  Span, Diagnostic, error, with_help, out_of_registers, live_variables_help,
}
use tamal.Lang.RegAlloc.{Reg, RegAlloc, mark, first_free, hold, enter_scope, alloc}
use tamal.Lang.RegAlloc.Counts.{count, count_scopes, holders, IsTidy, count-hold}

-- The register is the lowest of x1 to x15 that is not taken.
pub record IsLowestFree (taken : Reg → Bool) (reg : Reg) : Type 0 where
  pub free_before : taken reg ≡ false
  pub not_zero : 1 ≤ reg
  pub in_file : reg < 16
  pub below : (m : Reg) → 1 ≤ m → m < reg → taken m ≡ true

-- How the search from `n` on, with `left` numbers to go, can end.
data Search (busy : Reg → Bool) (left n : ℕ) : Option Reg → Type 0 where
  found :
      (m : Reg)
      → n ≤ m
      → m < n + left
      → busy m ≡ false
      → ((k : Reg) → n ≤ k → k < m → busy k ≡ true)
      → Search busy left n (some m)
  full : ((k : Reg) → n ≤ k → k < n + left → busy k ≡ true) → Search busy left n none

-- A fact about `n` and about all that follow it, up to a bound.
extend :
    (busy : Reg → Bool) (n top : ℕ)
    → busy n ≡ true
    → ((k : Reg) → suc n ≤ k → k < top → busy k ≡ true)
    → (k : Reg) → n ≤ k
    → k < top
    → busy k ≡ true
extend busy n top here later k lo hi = elim (Bool-cases (k == n)) [
  | inl e ↦ rw (==→eq k n e) here
  | inr e ↦ later k (ground arith) hi
]

Search-suc :
    (busy : Reg → Bool) (left n : ℕ) {r : Option Reg}
    → busy n ≡ true
    → Search busy left (suc n) r
    → Search busy (suc left) n r
Search-suc busy left n here (found m lo hi free_m below) =
    found m (omega arith) (omega arith) free_m (extend busy n m here below)
Search-suc busy left n here (full all) =
    full (λ k lo hi. extend busy n (suc n + left) here all k lo (omega arith))

first_free-Search : (busy : Reg → Bool) (left n : ℕ) → Search busy left n (first_free busy left n)
unfolding first_free
first_free-Search busy zero n = full (λ k lo hi. absurd (omega arith))
first_free-Search busy (suc left) n = elim (Bool-cases (busy n)) [
  | inl e ↦ rw e (Search-suc busy left n e (first_free-Search busy left (suc n)))
  | inr e ↦ rw e (found n (omega arith) (omega arith) e (λ k lo hi. absurd (omega arith)))
]

-- The allocator after it took a register.
unfoldable pub taking : RegAlloc → Reg → RegAlloc
taking a n = record {
  busy = mark a.busy n true;
  current = hold a.current n;
  outer = a.outer;
  bindings = a.bindings;
}

-- How an allocation can end.
pub data Allocated (a : RegAlloc) (span : Span) : Result (Reg × RegAlloc) Diagnostic → Type 0 where
  took : (reg : Reg) → IsLowestFree a.busy reg → Allocated a span (ok (reg, taking a reg))
  refused :
      ((m : Reg) → 1 ≤ m → m < 16 → a.busy m ≡ true)
      → Allocated a span (err (with_help (error span out_of_registers) live_variables_help))

pub alloc-Allocated : (a : RegAlloc) (span : Span) → Allocated a span (alloc a span)
unfolding alloc taking
alloc-Allocated a span = of_search (first_free-Search a.busy 15 1)
  where
    of_search :
        {r : Option Reg}
        → Search a.busy 15 1 r
        → Allocated a span (elim r as (λ _. Result (Reg × RegAlloc) Diagnostic) [
          | some n ↦ ok (
            n,
            record {
              busy = mark a.busy n true;
              current = hold a.current n;
              outer = a.outer;
              bindings = a.bindings;
            },
          )
          | none ↦ err (with_help (error span out_of_registers) live_variables_help)
        ])
    of_search (found m lo hi free_m below) =
        took m
          (record { free_before = free_m; not_zero = lo; in_file = omega arith; below = below })
    of_search (full all) = refused all

pub holders-taking :
    (a : RegAlloc) (reg n : Reg)
    → holders (taking a reg) n ≡ holders a n + (if n == reg then 1 else 0)
unfolding holders taking
holders-taking a reg n = omega (arith, count-hold n reg a.current)

pub holders-enter_scope : (a : RegAlloc) (n : Reg) → holders (enter_scope a) n ≡ holders a n
unfolding holders enter_scope count count_scopes
holders-enter_scope a n = omega arith

-- Taking a register that is not busy keeps the invariant.
pub taking-IsTidy :
    {a : RegAlloc} {reg : Reg}
    → IsTidy a
    → a.busy reg ≡ false
    → 1 ≤ reg
    → reg < 16
    → IsTidy (taking a reg)
unfolding taking mark
taking-IsTidy {a} {reg} t idle lo hi = record {
  held = λ n. ground (arith, t.held n, t.held reg, holders-taking a reg n);
  once = λ n. ground (arith, t.once n, t.held n, holders-taking a reg n);
  no_zero = ground (arith, t.no_zero, holders-taking a reg 0);
  in_range = λ n h. ground (arith, t.in_range n, holders-taking a reg n);
}

pub enter_scope-IsTidy : {a : RegAlloc} → IsTidy a → IsTidy (enter_scope a)
unfolding enter_scope
enter_scope-IsTidy {a} t = record {
  held = λ n. ground (arith, t.held n, holders-enter_scope a n);
  once = λ n. omega (arith, t.once n, holders-enter_scope a n);
  no_zero = omega (arith, t.no_zero, holders-enter_scope a 0);
  in_range = λ n h. omega (arith, t.in_range n, holders-enter_scope a n);
}
