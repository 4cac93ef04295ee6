-- ===== src/Base/Bytes.antt =====
-- What the lexers of crates/tamal-asm and crates/tamal-lang share: the classes of bytes and the loops.
use tamal.Base.{
  ℕ, ◌==◌, leb, if◌then◌else◌, Bool, true, false, ◌&&◌, ◌||◌, not, List, [], ◌∷◌, ◌++◌, All, ◌≡◌,
  refl, ap,
}

-- `u8::is_ascii_alphabetic`, `is_ascii_digit` and `is_ascii_alphanumeric`.
abbrev pub is_alphabetic : ℕ → Bool
is_alphabetic c = leb b'a' c && leb c b'z' || leb b'A' c && leb c b'Z'

abbrev pub is_digit : ℕ → Bool
is_digit c = leb b'0' c && leb c b'9'

abbrev pub not_newline : ℕ → Bool
not_newline c = not (c == b'\n')

-- A `while` over the bytes that pass the test: these, and what is left.
unfoldable pub take_while : (ℕ → Bool) → List ℕ → List ℕ × List ℕ
take_while p [] = ([], [])
take_while p (b ∷ bytes) =
    let (taken, rest) = take_while p bytes in if p b then (b ∷ taken, rest) else ([], b ∷ bytes)

-- The list does not start with an element that passes the test.
abbrev pub Stops : (ℕ → Bool) → List ℕ → Type 0
Stops p [] = Unit
Stops p (b ∷ bytes) = p b ≡ false

pub both : (s t : Bool) → (s && t) ≡ true → (s ≡ true) × (t ≡ true)
both true true h = (refl, refl)
both true false h = cc
both false t h = cc

pub branch {ℓ} :
    {A : Type ℓ} (P : A → Type 0) (t : Bool) {x y : A}
    → (t ≡ true → P x)
    → (t ≡ false → P y)
    → P (if t then x else y)
branch P true f g = f refl
branch P false f g = g refl

pub data Taken (p : ℕ → Bool) (bytes : List ℕ) : List ℕ × List ℕ → Type 0 where
  taken :
      {text rest : List ℕ}
      → bytes ≡ text ++ rest
      → All (λ b. p b ≡ true) text
      → Stops p rest
      → Taken p bytes (text, rest)

pub take_while-Taken : (p : ℕ → Bool) (bytes : List ℕ) → Taken p bytes (take_while p bytes)
unfolding take_while
take_while-Taken p [] = taken refl tt tt
take_while-Taken p (b ∷ bytes) = longer (take_while p bytes) (take_while-Taken p bytes)
  where
    longer :
        (pair : List ℕ × List ℕ)
        → Taken p bytes pair
        → Taken p (b ∷ bytes) (if p b then (b ∷ pair.0, pair.1) else ([], b ∷ bytes))
    longer pair (taken e every stop) =
        branch (Taken p (b ∷ bytes)) (p b) (λ h. taken (ap (b ∷◌) e) (h, every) stop)
          (λ h. taken refl tt h)

pub Stops-false : (p : ℕ → Bool) → ((b : ℕ) → p b ≡ false) → (bytes : List ℕ) → Stops p bytes
Stops-false p h [] = tt
Stops-false p h (b ∷ bytes) = h b
