-- ===== src/Lang/RegAlloc/Counts.antt =====
-- How often a register is held by the open scopes, and the allocator seen through that count.
use tamal.Base.{
  ℕ, ◌+◌, ◌≤◌, ◌==◌, ltb, if◌then◌else◌, Bool, false, List, [], ◌∷◌, ◌++◌, ◌≡◌, refl, arith,
}
use tamal.Lang.RegAlloc.{Reg, Scope, RegAlloc, new, mark, release, retain_ne, contains, hold}

-- How often a list has a register.
unfoldable pub count : Reg → List Reg → ℕ
count n [] = 0
count n (r ∷ regs) = (if n == r then 1 else 0) + count n regs

unfoldable pub count_scopes : Reg → List Scope → ℕ
count_scopes n [] = 0
count_scopes n (scope ∷ scopes) = count n scope.regs + count_scopes n scopes

-- How often the open scopes hold a register.
unfoldable pub holders : RegAlloc → Reg → ℕ
holders a n = count n a.current.regs + count_scopes n a.outer

-- The open scopes hold registers from 1 to 15, each at most once, and these are the busy ones.
pub record IsTidy (a : RegAlloc) : Type 0 where
  pub held : (n : Reg) → a.busy n ≡ ltb 0 (holders a n)
  pub once : (n : Reg) → holders a n ≤ 1
  pub no_zero : holders a 0 ≡ 0
  pub in_range : (n : Reg) → 16 ≤ n → holders a n ≡ 0

pub new-IsTidy : IsTidy new
unfolding new holders count count_scopes
new-IsTidy = record {
  held = λ n. refl;
  once = λ n. omega arith;
  no_zero = refl;
  in_range = λ n h. refl;
}

pub count-append : (n : Reg) (xs ys : List Reg) → count n (xs ++ ys) ≡ count n xs + count n ys
unfolding count
count-append n [] ys = omega arith
count-append n (x ∷ xs) ys = omega (arith, count-append n xs ys)

pub count-hold :
    (n reg : Reg) (scope : Scope)
    → count n (hold scope reg).regs ≡ count n scope.regs + (if n == reg then 1 else 0)
unfolding hold count
count-hold n reg scope = omega (arith, count-append n scope.regs (reg ∷ []))

pub count-retain_ne :
    (n reg : Reg) (regs : List Reg)
    → count n (retain_ne reg regs) ≡ (if n == reg then 0 else count n regs)
unfolding retain_ne count
count-retain_ne n reg [] = ground arith
count-retain_ne n reg (r ∷ regs) = ground (arith, count-retain_ne n reg regs)

pub contains-count : (reg : Reg) (regs : List Reg) → contains regs reg ≡ ltb 0 (count reg regs)
unfolding contains count
contains-count reg [] = refl
contains-count reg (r ∷ regs) = ground (arith, contains-count reg regs)

-- Releasing a list of registers frees these and no other.
pub release_lem :
    (busy : Reg → Bool) (regs : List Reg) (n : Reg)
    → release busy regs n ≡ (if ltb 0 (count n regs) then false else busy n)
unfolding release mark count
release_lem busy [] n = refl
release_lem busy (r ∷ regs) n = ground (arith, release_lem (mark busy r false) regs n)
