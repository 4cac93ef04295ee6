-- ===== src/Base/Errors.antt =====
-- Rust's `Result<T, E>` with the `?` operator as `do`.
use mathlib.Core.Path.{◌≡◌, refl}
use mathlib.Core.Option.{Option, none, some}
use mathlib.Core.Logic.{◌⊎◌, inl, inr}

pub data Result {ℓ κ} (A : Type ℓ) (E : Type κ) : Type (ℓ ⊔ κ) where
  ok : A → Result A E
  err : E → Result A E

-- `m?` followed by the rest of a function, and by a rest that does not use the value of a unit.
abbrev pub ◌>>=◌ {ι κ μ} :
    {T : Type ι} {E : Type κ} {U : Type μ} → Result T E → (T → Result U E) → Result U E
m >>= next = elim m [ ok t ↦ next t | err e ↦ err e ]

abbrev pub ◌>>◌ {κ μ} : {E : Type κ} {U : Type μ} → Result (Unit {0}) E → Result U E → Result U E
m >> rest = elim m [ ok _ ↦ rest | err e ↦ err e ]

infixl 5 ◌>>=◌ ◌>>◌
-- `e?` where the error is lifted by `From`.
abbrev pub map_err {ℓ κ μ} :
    {A : Type ℓ} {E : Type κ} {F : Type μ} → (E → F) → Result A E → Result A F
map_err f (ok a) = ok a
map_err f (err e) = err (f e)

abbrev pub ok_or {ℓ κ} : {A : Type ℓ} {E : Type κ} → Option A → E → Result A E
ok_or none e = err e
ok_or (some a) e = ok a

pub Result-cases {ℓ κ} :
    {A : Type ℓ} {E : Type κ} (m : Result A E) → ((a : A) × (m ≡ ok a)) ⊎ ((e : E) × (m ≡ err e))
Result-cases (ok a) = inl (a, refl)
Result-cases (err e) = inr (e, refl)
