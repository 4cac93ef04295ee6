-- ===== src/Base/Bits.antt =====
-- `|` of disjoint fields and `&` with a low mask, as arithmetic, at every width. Both follow the
-- digits that the native operations stand for, with any count of digits that is enough.
use Prim.Native.Nat.{
  ℕ, zero, suc, ◌+◌, ◌-◌, ◌*◌, ◌/◌, ◌%◌, ◌^◌, ◌≤◌, ◌<◌, min, max, bit_and, bit_or, digits,
  bit_and-bitwise, bit_or-bitwise,
}
use mathlib.Core.Path.{◌≡◌, refl, ap}
use native.Mathlib.Nat.{pow-suc, one-le-pow, div-add-mod, mod-lt, le_refl}
use native.Mathlib.Omega.{arith}

double_pow : (q k : ℕ) → q * 2 ^ suc k ≡ 2 * (q * 2 ^ k)
double_pow q k = omega (arith, ap (λ (t : ℕ). q * t) (pow-suc 2 k))

-- `a` is a multiple of `2 ^ k` and `r` lies below it.
or_digits : (n k a q r : ℕ) → a ≤ n → a ≡ q * 2 ^ k → r < 2 ^ k → digits (λ y. y) max n a r ≡ a + r
or_digits zero k a q r enough e fits = omega arith
or_digits (suc n) k zero q r enough e fits = omega arith
or_digits (suc n) zero (suc a) q r enough e fits = omega (
  arith,
  or_digits n zero (suc a / 2) (suc a / 2) (r / 2) (omega arith) (omega arith) (omega arith),
)
or_digits (suc n) (suc k) (suc a) q r enough e fits = omega (
  arith,
  double_pow q k,
  or_digits n k (suc a / 2) q (r / 2) (omega arith) (omega (arith, double_pow q k))
      (omega (arith, pow-suc 2 k)),
)

and_digits :
    (n k a q r m : ℕ)
    → a ≤ n
    → a ≡ q * 2 ^ k + r
    → r < 2 ^ k
    → m + 1 ≡ 2 ^ k
    → digits (λ y. 0) min n a m ≡ r
and_digits zero k a q r m enough e fits mask = omega arith
and_digits (suc n) k zero q r m enough e fits mask = omega arith
and_digits (suc n) zero (suc a) q r m enough e fits mask = omega (
  arith,
  and_digits n zero (suc a / 2) (suc a / 2) 0 (m / 2) (omega arith) (omega arith) (omega arith)
      (omega arith),
)
and_digits (suc n) (suc k) (suc a) q r m enough e fits mask = omega (
  arith,
  double_pow q k,
  pow-suc 2 k,
  and_digits n k (suc a / 2) q (r / 2) (m / 2) (omega arith) (omega (arith, double_pow q k))
      (omega (arith, pow-suc 2 k)) (omega (arith, pow-suc 2 k)),
)

-- `(q << k) | r` is a sum when `r` fits `k` bits.
pub bit_or_add : (k q r : ℕ) → r < 2 ^ k → bit_or (q * 2 ^ k) r ≡ q * 2 ^ k + r
bit_or_add k q r fits =
    rw bit_or-bitwise (or_digits (q * 2 ^ k) k (q * 2 ^ k) q r (le_refl _) refl fits)

-- A mask of `k` low bits is the remainder by `2 ^ k`.
pub bit_and_mask : (k a : ℕ) → bit_and a (2 ^ k - 1) ≡ a % 2 ^ k
bit_and_mask k a = rw bit_and-bitwise (
    and_digits a k a (a / 2 ^ k) (a % 2 ^ k) (2 ^ k - 1) (le_refl _) (split)
      (mod-lt a (one-le-pow k 2 (omega arith))) (omega (arith, one-le-pow k 2 (omega arith))))
  where
    split : a ≡ a / 2 ^ k * 2 ^ k + a % 2 ^ k
    split = omega (arith, div-add-mod a (2 ^ k))

-- One `|` of a chain that adds lower and lower fields.
pub bit_or_field : (k x q r s : ℕ) → x ≡ q * 2 ^ k → r ≡ s → s < 2 ^ k → bit_or x r ≡ q * 2 ^ k + s
bit_or_field k x q r s e d fits = rw (e, d) (bit_or_add k q s fits)
