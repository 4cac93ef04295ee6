-- ===== src/Asm/Outcome.antt =====
-- `Result<T, Diagnostic>` of a computation with bounded depth: a value, an error, or no answer, where the
-- depth is used up or an index is out of range.
use tamal.Base.{Result, ok, err, ◌≡◌, subst}
use tamal.Asm.Diagnostics.{Diagnostic}

pub data Outcome {ℓ} (A : Type ℓ) : Type ℓ where
  done : A → Outcome A
  failed : Diagnostic → Outcome A
  exhausted : Outcome A

-- `m?` and the rest of a function.
infixl 5 ◌>>=◌ ◌>>◌
abbrev pub ◌>>=◌ {ℓ κ} : {A : Type ℓ} {B : Type κ} → Outcome A → (A → Outcome B) → Outcome B
m >>= next = elim m [ done a ↦ next a | failed d ↦ failed d | exhausted ↦ exhausted ]

abbrev pub ◌>>◌ {κ} : {B : Type κ} → Outcome (Unit {0}) → Outcome B → Outcome B
m >> rest = elim m [ done _ ↦ rest | failed d ↦ failed d | exhausted ↦ exhausted ]

abbrev pub outcome {ℓ} : {A : Type ℓ} → Result A Diagnostic → Outcome A
outcome (ok a) = done a
outcome (err d) = failed d

-- The computation gives an answer, and a value that it gives has the property.
pub data Yields {ℓ κ} {A : Type ℓ} (P : A → Type κ) : Outcome A → Type (ℓ ⊔ κ) where
  yields : {a : A} → P a → Yields P (done a)
  fails : {d : Diagnostic} → Yields P (failed d)

module _ {ℓ κ μ ν} {A : Type ℓ} {B : Type κ} {P : A → Type μ} {Q : B → Type ν} where
  pub Yields-bind :
      {m : Outcome A} {next : A → Outcome B}
      → Yields P m
      → ((a : A) → P a → Yields Q (next a))
      → Yields Q (m >>= next)
  Yields-bind (yields {a} p) rest = rest a p
  Yields-bind fails rest = fails

module _ {ℓ μ} {A : Type ℓ} {P : A → Type μ} where
  pub Yields-map {ν} :
      {Q : A → Type ν} {m : Outcome A} → ((a : A) → P a → Q a) → Yields P m → Yields Q m
  Yields-map f (yields {a} p) = yields (f a p)
  Yields-map f fails = fails

  pub value_of_Yields : {m : Outcome A} {a : A} → Yields P m → m ≡ done a → P a
  value_of_Yields (yields p) e = subst P (cc) p
  value_of_Yields fails e = cc
