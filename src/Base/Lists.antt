-- ===== src/Base/Lists.antt =====
-- Lists measured by native numbers, under the library's names.
use Prim.Native.Nat.{ℕ, suc, ◌+◌}
use mathlib.Core.Path.{◌≡◌, refl}
use mathlib.Core.List.{List, [], ◌∷◌, ◌++◌}
use mathlib.Core.Option.{Option, none, some}
use native.Mathlib.Omega.{arith}

module _ {ℓ} {A : Type ℓ} where
  abbrev pub length : List A → ℕ
  length [] = 0
  length (x ∷ xs) = suc (length xs)

  pub length-append : (xs ys : List A) → length (xs ++ ys) ≡ length xs + length ys
  length-append [] ys = omega arith
  length-append (x ∷ xs) ys = omega (arith, length-append xs ys)

  abbrev pub All {κ} : (A → Type κ) → List A → Type κ
  All P [] = Unit {κ}
  All P (x ∷ xs) = P x × All P xs

  pub All-append {κ} : (P : A → Type κ) (xs ys : List A) → All P xs → All P ys → All P (xs ++ ys)
  All-append P [] ys h k = k
  All-append P (x ∷ xs) ys (p, h) k = (p, All-append P xs ys h k)

  -- `split_last` of a slice: the last element and what stands before it.
  abbrev pub split_last : List A → Option (A × List A)
  split_last [] = none
  split_last (x ∷ xs) = elim (split_last xs) [
    | none ↦ some (x, [])
    | some (y, front) ↦ some (y, x ∷ front)
  ]

  pub split_last-append : (xs : List A) (y : A) → split_last (xs ++ y ∷ []) ≡ some (y, xs)
  split_last-append [] y = refl
  split_last-append (x ∷ xs) y = rw (split_last-append xs y)

  -- A list is empty, or an initial part with a last element.
  pub data Ended : List A → Type ℓ where
    bare : Ended []
    with_last : (front : List A) (y : A) → Ended (front ++ y ∷ [])

  pub ended : (xs : List A) → Ended xs
  ended [] = bare
  ended (x ∷ xs) = longer x (ended xs)
    where
      longer : {ys : List A} (x : A) → Ended ys → Ended (x ∷ ys)
      longer x bare = with_last [] x
      longer x (with_last front y) = with_last (x ∷ front) y
