-- ===== src/Base/Text.antt =====
-- `str::to_string` of a slice of the source that is ASCII: the text of a list of bytes.
use Prim.Native.Nat.{ℕ, Ordering, compare}
use Prim.Native.Char.{Char, char, nul, IsScalar}
use Prim.Native.String.{String, [] as []ˢ, ◌∷◌ as ◌∷ˢ◌}
use mathlib.Core.Path.{◌≡◌, refl}
use mathlib.Core.List.{List, [], ◌∷◌}

pub IsScalar-compare : (n : ℕ) → compare n 55296 ≡ Ordering.lt → IsScalar n
IsScalar-compare n e = rw e tt

abbrev char_by_order : (n : ℕ) (o : Ordering) → compare n 55296 ≡ o → Char
char_by_order n Ordering.lt e = char n (IsScalar-compare n e)
char_by_order n Ordering.eq e = nul
char_by_order n Ordering.gt e = nul

-- The character of an ASCII byte.
abbrev ascii_char : ℕ → Char
ascii_char n = char_by_order n (compare n 55296) refl

abbrev pub ascii : List ℕ → String
ascii [] = []ˢ
ascii (b ∷ bytes) = ascii_char b ∷ˢ ascii bytes
