-- ===== src/Base/Table.antt =====
-- Facts about all bytes, checked by evaluation.
use Prim.Native.Nat.{ℕ, zero, suc, ◌<◌}
use mathlib.Core.Path.{◌≡◌}
use mathlib.Core.Bool.{Bool, true, false}
use native.Mathlib.Omega.{arith}

-- The test holds of every number below the bound; it stops at the first failure.
unfoldable pub holds_below : ℕ → (ℕ → Bool) → Bool
holds_below zero p = true
holds_below (suc n) p = elim (p n) [ true ↦ holds_below n p | false ↦ false ]

pub of_holds_below : (n : ℕ) (p : ℕ → Bool) (x : ℕ) → holds_below n p ≡ true → x < n → p x ≡ true
unfolding holds_below
of_holds_below zero p x h lt = absurd (omega arith)
of_holds_below (suc n) p x h lt = ground (arith, of_holds_below n p x)
