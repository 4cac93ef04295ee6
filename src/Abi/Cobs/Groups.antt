-- ===== src/Abi/Cobs/Groups.antt =====
-- What a run of the loop of `cobs_encode` writes, case by case, and how `cobs_decode` reads one group.
use tamal.Base.{
  ℕ, zero, suc, ◌+◌, ◌-◌, ◌≤◌, ◌<◌, ◌≡◌, refl, sym, ap, ◌∙◌, ◌≢◌, ◌⊎◌, inl, inr, Bool, true, false,
  ◌&&◌, not, List, [], ◌∷◌, ◌++◌, length, length-append, append_assoc, append-nil, All, u8, ltb,
  ◌==◌, eq→==, ne→==, ==→eq, if◌then◌else◌, Bool-cases, ok, arith,
}
use tamal.Abi.Cobs.{is_empty, encode_step, encode_loop, copy_group, decode_loop}

abbrev pub NonZero : ℕ → Type 0
NonZero b = b ≢ 0

-- What one round adds to the output does not depend on what is there.
step-append :
    (b : ℕ) (last : Bool) (g out : List ℕ)
    → encode_step b last g out ≡ ((encode_step b last g []).0, out ++ (encode_step b last g []).1)
unfolding encode_step
step-append b true g out = ground (arith, append_assoc out (u8 (u8 (length g) + 1) ∷ g) (1 ∷ []))
step-append b false g out = ground (arith, append-nil out)

-- The loop only appends to the output.
loop-append : (bs g out : List ℕ) → encode_loop bs g out ≡ out ++ encode_loop bs g []
unfolding encode_loop
loop-append [] g out = sym (append-nil out)
loop-append (b ∷ bs) g out =
    let s = encode_step b (is_empty bs) g [] in
    rw step-append (
      loop-append bs s.0 (out ++ s.1)
      ∙ append_assoc out s.1 _
      ∙ ap (λ (t : List ℕ). out ++ t) (sym (loop-append bs s.0 s.1)))

loop_round :
    (b : ℕ) (rest g : List ℕ) {g' out' : List ℕ}
    → encode_step b (is_empty rest) g [] ≡ (g', out')
    → encode_loop (b ∷ rest) g [] ≡ out' ++ encode_loop rest g' []
loop_round b rest g {g'} {out'} e = unfold encode_loop in rw e (loop-append rest g' out')

module _ (g : List ℕ) where
  pub zero_last : length g ≤ 253 → encode_loop (0 ∷ []) g [] ≡ suc (length g) ∷ (g ++ 1 ∷ [])
  unfolding encode_loop encode_step
  zero_last room = ground arith

  pub zero_more :
      (x : ℕ) (xs : List ℕ)
      → length g ≤ 253
      → encode_loop (0 ∷ x ∷ xs) g [] ≡ suc (length g) ∷ (g ++ encode_loop (x ∷ xs) [] [])
  zero_more x xs room = loop_round 0 (x ∷ xs) g step
    where
      step : encode_step 0 false g [] ≡ ([], suc (length g) ∷ g)
      step = unfold encode_step in ground arith

module _ (g : List ℕ) (b : ℕ) (h : b ≢ 0) where
  pub full_group :
      (rest : List ℕ)
      → length g ≡ 253
      → encode_loop (b ∷ rest) g [] ≡ 255 ∷ ((g ++ b ∷ []) ++ encode_loop rest [] [])
  full_group rest e = loop_round b rest g (step (is_empty rest))
    where
      step : (l : Bool) → encode_step b l g [] ≡ ([], 255 ∷ (g ++ b ∷ []))
      step l = unfold encode_step in ground (arith, length-append g (b ∷ []))

  pub byte_last : length g < 253 → encode_loop (b ∷ []) g [] ≡ suc (suc (length g)) ∷ (g ++ b ∷ [])
  unfolding encode_loop encode_step
  byte_last e = ground (arith, length-append g (b ∷ []))

  pub byte_more :
      (x : ℕ) (xs : List ℕ)
      → length g < 253
      → encode_loop (b ∷ x ∷ xs) g [] ≡ encode_loop (x ∷ xs) (g ++ b ∷ []) []
  byte_more x xs e = loop_round b (x ∷ xs) g step
    where
      step : encode_step b false g [] ≡ (g ++ b ∷ [], [])
      step = unfold encode_step in ground (arith, length-append g (b ∷ []))

-- Reading a group of `length g` bytes.
copy-All :
    (g rest out : List ℕ)
    → All NonZero g
    → copy_group (length g) (g ++ rest) out ≡ ok (rest, out ++ g)
unfolding copy_group
copy-All [] rest out h = rw append-nil
copy-All (d ∷ g) rest out (hd, hg) =
    rw (ne→== d 0 hd) (copy-All g rest (out ++ d ∷ []) hg ∙ cc (append_assoc out (d ∷ []) g))

-- A group of at most 254 bytes is read as such; unless it is full or the input ends there, it owes a zero.
read_group :
    (fuel code : ℕ) (g rest out : List ℕ)
    → code ≡ suc (length g)
    → All NonZero g
    → length g ≤ 254
    → decode_loop (suc fuel) (code ∷ (g ++ rest)) out
      ≡ decode_loop fuel rest
          (if not (length g == 254) && not (is_empty rest) then (out ++ g) ++ 0 ∷ [] else out ++ g)
read_group fuel code g rest out e h room = rw e (
    unfold decode_loop in
    rw (ne→== (suc (length g)) 0 (omega arith), enough, exact, copy-All g rest out h, full))
  where
    enough : ltb (length (g ++ rest)) (suc (length g) - 1) ≡ false
    enough = ground (arith, length-append g rest)

    exact : suc (length g) - 1 ≡ length g
    exact = omega arith

    full : (suc (length g) == 255) ≡ (length g == 254)
    full = ground arith

module _ (fuel code : ℕ) (g rest out : List ℕ) (e : code ≡ suc (length g)) (h : All NonZero g) where
  pub read_short :
      length g ≤ 253
      → is_empty rest ≡ false
      → decode_loop (suc fuel) (code ∷ (g ++ rest)) out
        ≡ decode_loop fuel rest (out ++ (g ++ 0 ∷ []))
  read_short room more =
      read_group fuel code g rest out e h (omega arith)
      ∙ rw (ne→== (length g) 254 (omega arith), more, append_assoc)

  pub read_full :
      length g ≡ 254
      → decode_loop (suc fuel) (code ∷ (g ++ rest)) out ≡ decode_loop fuel rest (out ++ g)
  read_full f = read_group fuel code g rest out e h (omega arith) ∙ rw (eq→== (length g) 254 f)

-- The last group of the input owes nothing.
pub read_last :
    (fuel code : ℕ) (g out : List ℕ)
    → code ≡ suc (length g)
    → All NonZero g
    → length g ≤ 254
    → 0 < fuel
    → decode_loop fuel (code ∷ g) out ≡ ok (out ++ g)
read_last zero code g out e h room f = absurd (omega arith)
read_last (suc fuel) code g out e h room f =
    ap (λ (t : List ℕ). decode_loop (suc fuel) (code ∷ t) out) (sym (append-nil g))
    ∙ read_group fuel code g [] out e h room
    ∙ ended (not (length g == 254))
  where
    ended :
        (b : Bool)
        → decode_loop fuel [] (if b && false then (out ++ g) ++ 0 ∷ [] else out ++ g)
          ≡ ok (out ++ g)
    ended true = unfold decode_loop in refl
    ended false = unfold decode_loop in refl

full_or_short : (g : List ℕ) → length g ≤ 253 → (length g ≡ 253) ⊎ (length g < 253)
full_or_short g room = elim (Bool-cases (length g == 253)) [
  | inl f ↦ inl (==→eq _ _ f)
  | inr n ↦ inr (ground arith)
]

-- The output for the bytes that are left, given the group that is opens: one rule for each case of a round.
pub data Emits : List ℕ → List ℕ → List ℕ → Type 0 where
  nothing : Emits [] [] []
  ends_with_zero : (g : List ℕ) → length g ≤ 253 → Emits g (0 ∷ []) (suc (length g) ∷ (g ++ 1 ∷ []))
  zero_then :
      (g : List ℕ) (x : ℕ) (xs out : List ℕ)
      → length g ≤ 253
      → Emits [] (x ∷ xs) out
      → Emits g (0 ∷ x ∷ xs) (suc (length g) ∷ (g ++ out))
  fills :
      (g : List ℕ) (b : ℕ) (rest out : List ℕ)
      → b ≢ 0
      → length g ≡ 253
      → Emits [] rest out
      → Emits g (b ∷ rest) (255 ∷ ((g ++ b ∷ []) ++ out))
  ends :
      (g : List ℕ) (b : ℕ)
      → b ≢ 0
      → length g < 253
      → Emits g (b ∷ []) (suc (suc (length g)) ∷ (g ++ b ∷ []))
  goes_on :
      (g : List ℕ) (b x : ℕ) (xs out : List ℕ)
      → b ≢ 0
      → length g < 253
      → Emits (g ++ b ∷ []) (x ∷ xs) out
      → Emits g (b ∷ x ∷ xs) out

-- Every run of the loop follows these rules.
pub loop-Emits :
    (bs g : List ℕ) → length g ≤ 253 → (bs ≡ [] → g ≡ []) → Emits g bs (encode_loop bs g [])
loop-Emits [] g room opens = unfold encode_loop in rw (opens refl) nothing
loop-Emits (zero ∷ []) g room opens = rw (zero_last g room) (ends_with_zero g room)
loop-Emits (zero ∷ x ∷ xs) g room opens =
    rw (zero_more g x xs room)
      (zero_then g x xs _ room (loop-Emits (x ∷ xs) [] (omega arith) (λ e. cc)))
loop-Emits (suc b ∷ []) g room opens = elim (full_or_short g room) [
  | inl f ↦
      rw (full_group g (suc b) (omega arith) [] f)
        (fills g (suc b) [] _ (omega arith) f (loop-Emits [] [] (omega arith) (λ e. refl)))
  | inr s ↦ rw (byte_last g (suc b) (omega arith) s) (ends g (suc b) (omega arith) s)
]
loop-Emits (suc b ∷ x ∷ xs) g room opens = elim (full_or_short g room) [
  | inl f ↦ rw (full_group g (suc b) (omega arith) (x ∷ xs) f) (
      fills g (suc b) (x ∷ xs) _ (omega arith) f (loop-Emits (x ∷ xs) [] (omega arith) (λ e. refl)))
  | inr s ↦ rw (byte_more g (suc b) (omega arith) x xs s) (
      goes_on g (suc b) x xs _ (omega arith) s (
        loop-Emits (x ∷ xs) (g ++ suc b ∷ []) (omega (arith, length-append g (suc b ∷ [])))
          (λ e. cc)))
]
