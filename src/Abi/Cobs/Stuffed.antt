-- ===== src/Abi/Cobs/Stuffed.antt =====
-- What `cobs_decode` accepts: bodies of groups, and the messages that they stand for.
use tamal.Base.{
  ℕ, zero, suc, ◌-◌, ◌≡◌, ◌≢◌, refl, sym, ap, subst, ◌∙◌, Bool-cases, inl, inr, ◌&&◌, not, List, [],
  ◌∷◌, ◌++◌, append_assoc, append-nil, length, All, ◌==◌, ==→eq, ltb, if◌then◌else◌, Result, ok,
  err, ◌>>=◌, arith,
}
use tamal.Base.Bytes.{branch}
use tamal.Abi.Cobs.{CobsError, is_empty, copy_group, decode_loop, cobs_decode}
use tamal.Abi.Cobs.Groups.{NonZero}

-- The code byte of a group is one more than its count of bytes, none of which is 0. Between a group and the
-- next one stands a 0 in the message, unless the group is full, with the code 255.
pub data Stuffs : List ℕ → List ℕ → Type 0 where
  last_group : (code : ℕ) (g : List ℕ) → code ≡ suc (length g) → All NonZero g → Stuffs (code ∷ g) g
  full_group :
      (code : ℕ) (g body message : List ℕ)
      → code ≡ suc (length g)
      → All NonZero g
      → code ≡ 255
      → Stuffs body message
      → Stuffs (code ∷ g ++ body) (g ++ message)
  group :
      (code : ℕ) (g body message : List ℕ)
      → code ≡ suc (length g)
      → All NonZero g
      → code ≢ 255
      → Stuffs body message
      → Stuffs (code ∷ g ++ body) (g ++ 0 ∷ message)

-- What holds of a result, if there is one.
data Gives {A : Type 0} (P : A → Type 0) : Result A CobsError → Type 0 where
  gives : {a : A} → P a → Gives P (ok a)
  refuses : {e : CobsError} → Gives P (err e)

Gives-value :
    {A : Type 0} {P : A → Type 0} {r : Result A CobsError} {a : A} → Gives P r → r ≡ ok a → P a
Gives-value {P} (gives p) e = subst P (cc) p
Gives-value refuses e = cc

data Copied (n : ℕ) (bytes out : List ℕ) : List ℕ × List ℕ → Type 0 where
  copied :
      (g rest : List ℕ)
      → n ≡ length g
      → bytes ≡ g ++ rest
      → All NonZero g
      → Copied n bytes out (rest, out ++ g)

Copied-cons :
    {n d : ℕ} {bytes out : List ℕ}
    → NonZero d
    → {p : List ℕ × List ℕ} → Copied n bytes (out ++ d ∷ []) p
    → Copied (suc n) (d ∷ bytes) out p
Copied-cons {n} {d} {bytes} {out} nz (copied g rest e k h) =
    subst (λ (o : List ℕ). Copied (suc n) (d ∷ bytes) out (rest, o))
      (sym (append_assoc out (d ∷ []) g))
      (copied (d ∷ g) rest (omega (arith, e)) (ap (d ∷◌) k) (nz, h))

Gives-map :
    {A : Type 0} {P Q : A → Type 0} {r : Result A CobsError}
    → ((a : A) → P a → Q a)
    → Gives P r
    → Gives Q r
Gives-map f (gives p) = gives (f _ p)
Gives-map f refuses = refuses

copy_group-Copied :
    (n : ℕ) (bytes out : List ℕ) → Gives (Copied n bytes out) (copy_group n bytes out)
unfolding copy_group
copy_group-Copied zero bytes out =
    subst (λ (o : List ℕ). Gives (Copied zero bytes out) (ok (bytes, o))) (append-nil out)
      (gives (copied [] bytes refl refl tt))
copy_group-Copied (suc n) [] out = refuses
copy_group-Copied (suc n) (d ∷ bytes) out = elim (Bool-cases (d == 0)) [
  | inl z ↦ rw (z, copy_group) refuses
  | inr nz ↦
      rw (nz, copy_group)
        (Gives-map (λ _ c. Copied-cons (λ e. ground (arith, e, nz)) c)
          (copy_group-Copied n bytes (out ++ d ∷ [])))
]

-- What the loop adds to the output.
data Added (bytes out : List ℕ) : List ℕ → Type 0 where
  added : (message : List ℕ) → Stuffs bytes message → Added bytes out (out ++ message)

-- After a group, where the rest of the loop is right.
Reads : ℕ → Type 0
Reads fuel = (x : ℕ) (xs out : List ℕ) → Gives (Added (x ∷ xs) out) (decode_loop fuel (x ∷ xs) out)

Added-full :
    (code : ℕ) (g body out : List ℕ) {m : List ℕ}
    → code ≡ suc (length g)
    → All NonZero g
    → code ≡ 255
    → Added body (out ++ g) m
    → Added (code ∷ g ++ body) out m
Added-full code g body out e h f (added message s) =
    subst (λ (o : List ℕ). Added (code ∷ g ++ body) out o) (sym (append_assoc out g message))
      (added (g ++ message) (full_group code g body message e h f s))

Added-group :
    (code : ℕ) (g body out : List ℕ) {m : List ℕ}
    → code ≡ suc (length g)
    → All NonZero g
    → code ≢ 255
    → Added body ((out ++ g) ++ 0 ∷ []) m
    → Added (code ∷ g ++ body) out m
Added-group code g body out e h f (added message s) =
    subst (λ (o : List ℕ). Added (code ∷ g ++ body) out o)
      (sym (append_assoc (out ++ g) (0 ∷ []) message ∙ append_assoc out g (0 ∷ message)))
      (added (g ++ 0 ∷ message) (group code g body message e h f s))

after_group :
    (fuel code : ℕ) (g rest out : List ℕ)
    → code ≡ suc (length g)
    → All NonZero g
    → Reads fuel
    → Gives (Added (code ∷ g ++ rest) out) (
        decode_loop fuel rest
          (if not (code == 0xFF) && not (is_empty rest) then (out ++ g) ++ 0 ∷ [] else out ++ g))
unfolding Reads
after_group fuel code g [] out e h rec = elim (Bool-cases (code == 0xFF)) [
  | inl f ↦ rw (f, append-nil) (unfold decode_loop in final)
  | inr f ↦ rw (f, append-nil) (unfold decode_loop in final)
]
  where
    final : Gives (Added (code ∷ g) out) (ok (out ++ g))
    final = gives (added g (last_group code g e h))
after_group fuel code g (x ∷ xs) out e h rec = elim (Bool-cases (code == 0xFF)) [
  | inl f ↦ rw f (
      Gives-map (λ _ a. Added-full code g (x ∷ xs) out e h (==→eq code 255 f) a)
        (rec x xs (out ++ g)))
  | inr f ↦ rw f (
      Gives-map (λ _ a. Added-group code g (x ∷ xs) out e h (λ k. ground (arith, k, f)) a)
        (rec x xs ((out ++ g) ++ 0 ∷ [])))
]

round-Added :
    (fuel code : ℕ) (rest out : List ℕ)
    → code ≢ 0
    → {c : Result (List ℕ × List ℕ) CobsError} → Gives (Copied (code - 1) rest out) c
    → Reads fuel
    → Gives (Added (code ∷ rest) out) (
        c >>= λ (rest', out').
        decode_loop fuel rest'
          (if not (code == 0xFF) && not (is_empty rest') then out' ++ 0 ∷ [] else out'))
round-Added fuel code rest out nz refuses rec = refuses
round-Added fuel code rest out nz (gives (copied g left e k h)) rec =
    subst
      (λ (b : List ℕ). Gives (Added (code ∷ b) out) (
        decode_loop fuel left
          (if not (code == 0xFF) && not (is_empty left) then (out ++ g) ++ 0 ∷ [] else out ++ g)))
      (sym k) (after_group fuel code g left out (omega (arith, e, nz)) h rec)

decode_loop-Added : (fuel : ℕ) → Reads fuel
unfolding Reads decode_loop
decode_loop-Added zero x xs out = refuses
decode_loop-Added (suc fuel) x xs out =
    branch (Gives (Added (x ∷ xs) out)) (x == 0) (λ _. refuses)
      (λ n.
        branch (Gives (Added (x ∷ xs) out)) (ltb (length xs) (x - 1)) (λ _. refuses)
          (λ _.
            round-Added fuel x xs out (λ e. ground (arith, e, n)) (copy_group-Copied (x - 1) xs out)
              (decode_loop-Added fuel)))

Added-nil : {bytes m : List ℕ} → Added bytes [] m → Stuffs bytes m
Added-nil (added message s) = s

-- A body that decodes is groups, and decodes to the message that they stand for.
pub cobs_decode-Stuffs :
    (body message : List ℕ) → cobs_decode body ≡ ok message → Stuffs body message
unfolding cobs_decode Reads
cobs_decode-Stuffs [] message e = cc
cobs_decode-Stuffs (b ∷ body) message e =
    Gives-value (Gives-map (λ _. Added-nil) (decode_loop-Added (length (b ∷ body)) b body [])) e
