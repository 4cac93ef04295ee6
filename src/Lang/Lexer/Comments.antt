-- ===== src/Lang/Lexer/Comments.antt =====
-- The end of a block comment in crates/tamal-lang/src/lexer.rs: the first one after its opening.
use tamal.Base.{
  ℕ, ◌==◌, ◌≡◌, refl, sym, ap, subst, true, false, if◌then◌else◌, ◌&&◌, Option, none, some, List,
  [], ◌∷◌, ◌++◌, ==→eq,
}
use tamal.Base.Bytes.{both, branch}
use tamal.Lang.Lexer.{comment_end}
use tamal.Lang.Lexer.Grammar.{Inside}

-- The comment's text up to its end.
pub data Closed (bytes : List ℕ) : Option (List ℕ × List ℕ) → Type 0 where
  endless : Closed bytes none
  closed :
      (text : List ℕ) {rest : List ℕ}
      → bytes ≡ (text ++ b'*' ∷ b'/' ∷ []) ++ rest
      → Inside text
      → Closed bytes (some (text ++ b'*' ∷ b'/' ∷ [], rest))

Inside-nil : Inside []
Inside-nil [] ys e = cc
Inside-nil (x ∷ xs) ys e = cc

no_end : (b c : ℕ) → (b == b'*' && c == b'/') ≡ false → b ≡ b'*' → c ≡ b'/' → ⊥
no_end b c h hb hc = let both_hold : (b == b'*' && c == b'/') ≡ true = rw (hb, hc) in cc

-- A byte in front, where it and the next byte are no end.
Inside-cons :
    (b c : ℕ) (text bytes rest : List ℕ)
    → (b == b'*' && c == b'/') ≡ false
    → c ∷ bytes ≡ (text ++ b'*' ∷ b'/' ∷ []) ++ rest
    → Inside text
    → Inside (b ∷ text)
Inside-cons b c [] bytes rest h e k [] ys f = cc
Inside-cons b c (d ∷ text) bytes rest h e k [] ys f = no_end b c h (cc) (cc)
Inside-cons b c text bytes rest h e k (x ∷ xs) ys f = k xs ys (cc)

pub comment_end-Closed : (bytes : List ℕ) → Closed bytes (comment_end bytes)
unfolding comment_end
comment_end-Closed [] = endless
comment_end-Closed (b ∷ []) = endless
comment_end-Closed (b ∷ c ∷ bytes) =
    later (comment_end (c ∷ bytes)) (comment_end-Closed (c ∷ bytes))
  where
    ends : (b == b'*' && c == b'/') ≡ true → Closed (b ∷ c ∷ bytes) (some (b ∷ c ∷ [], bytes))
    ends h =
        let (hb, hc) = both (b == b'*') (c == b'/') h in
        subst (λ x. Closed (x ∷ c ∷ bytes) (some (x ∷ c ∷ [], bytes))) (sym (==→eq b _ hb))
          (subst (λ y. Closed (b'*' ∷ y ∷ bytes) (some (b'*' ∷ y ∷ [], bytes))) (sym (==→eq c _ hc))
            (closed [] refl Inside-nil))

    later :
        (more : Option (List ℕ × List ℕ))
        → Closed (c ∷ bytes) more
        → Closed (b ∷ c ∷ bytes) (
            if b == b'*' && c == b'/'
            then some (b ∷ c ∷ [], bytes)
            else elim more [ none ↦ none | some (body, rest) ↦ some (b ∷ body, rest) ])
    later more endless =
        branch (Closed (b ∷ c ∷ bytes)) (b == b'*' && c == b'/') ends (λ h. endless)
    later more (closed text e k) =
        branch (Closed (b ∷ c ∷ bytes)) (b == b'*' && c == b'/') ends
          (λ h. closed (b ∷ text) (ap (b ∷◌) e) (Inside-cons b c text _ _ h e k))
