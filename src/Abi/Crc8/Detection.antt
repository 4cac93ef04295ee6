-- ===== src/Abi/Crc8/Detection.antt =====
-- What the CRC detects: a byte that was replaced, and the residue of a message with its CRC.
use tamal.Base.{
  ℕ, zero, suc, ◌+◌, ◌-◌, ◌*◌, ◌/◌, ◌%◌, ◌^◌, ◌≤◌, ◌<◌, ◌≡◌, refl, ◌∙◌, ◌≢◌, true, List, [], ◌∷◌,
  ◌++◌, IsByte, arith, ◌==◌, ==→eq, if◌then◌else◌, bit_xor,
}
use tamal.Base.Bits.{bit_and_mask}
use tamal.Base.Table.{holds_below, of_holds_below}
use tamal.Abi.Crc8.{crc8_round, crc8_rounds, crc8_update, crc8_from, crc8}

xor_seven_table : holds_below 256 (λ e. bit_xor e 0x07 == e / 8 * 8 + (7 - e % 8)) ≡ true
unfolding holds_below
xor_seven_table = refl

xor_seven : (e : ℕ) → e < 256 → bit_xor e 0x07 ≡ e / 8 * 8 + (7 - e % 8)
xor_seven e h = ==→eq _ _ (of_holds_below 256 _ e xor_seven_table h)

xor_bits : (x y : ℕ) → x < 2 → y < 2 → bit_xor x y ≡ (x + y) % 2
xor_bits zero zero hx hy = refl
xor_bits zero (suc zero) hx hy = refl
xor_bits (suc zero) zero hx hy = refl
xor_bits (suc zero) (suc zero) hx hy = refl
xor_bits (suc (suc x)) y hx hy = absurd (omega arith)
xor_bits x (suc (suc y)) hx hy = absurd (omega arith)

-- The bit of the byte that round `i` reads.
abbrev bit_at : ℕ → ℕ → ℕ
bit_at byte i = byte / 2 ^ i % 2

-- A round in plain arithmetic, for the bit `t`.
abbrev stepped : ℕ → ℕ → ℕ
stepped c t = let e = c * 2 % 256 in if (c / 128 + t) % 2 == 1 then e / 8 * 8 + (7 - e % 8) else e

round-stepped : (c byte i : ℕ) → c < 256 → crc8_round c byte i ≡ stepped c (bit_at byte i)
unfolding crc8_round
round-stepped c byte i h = ground (
  arith,
  bit_and_mask 1 (c / 128),
  bit_and_mask 1 (byte / 2 ^ i),
  xor_seven (c * 2 % 256),
  xor_bits (c / 128 % 2) (byte / 2 ^ i % 2),
)

stepped-IsByte : (c t : ℕ) → stepped c t < 256
stepped-IsByte c t = ground arith

round-IsByte : (c byte i : ℕ) → IsByte c → IsByte (crc8_round c byte i)
round-IsByte c byte i h = rw (round-stepped c byte i h) (stepped-IsByte c _)

rounds-IsByte : (n c byte : ℕ) → IsByte c → IsByte (crc8_rounds n c byte)
unfolding crc8_rounds
rounds-IsByte zero c byte h = h
rounds-IsByte (suc n) c byte h = rounds-IsByte n _ byte (round-IsByte c byte n h)

-- The lowest bit after a step is the feedback.
stepped_parity : (c t : ℕ) → stepped c t % 2 ≡ (c / 128 + t) % 2
stepped_parity c t = ground arith

stepped_injective : (c d t : ℕ) → c < 256 → d < 256 → stepped c t ≡ stepped d t → c ≡ d
stepped_injective c d t hc hd e = ground (arith, stepped_parity c t, stepped_parity d t)

-- Equal low bits after a step come from equal low bits before it, one fewer.
stepped_low :
    (k c d t u : ℕ)
    → k < 8
    → c < 256
    → d < 256
    → stepped c t % 2 ^ suc k ≡ stepped d u % 2 ^ suc k
    → c % 2 ^ k ≡ d % 2 ^ k
stepped_low (suc (suc (suc (suc (suc (suc (suc (suc k)))))))) c d t u hk hc hd e =
    absurd (omega arith)
stepped_low k c d t u hk hc hd e = ground (arith, stepped_parity c t, stepped_parity d u)

low_parity : (k c d : ℕ) → k < 8 → c % 2 ^ suc k ≡ d % 2 ^ suc k → c % 2 ≡ d % 2
low_parity (suc (suc (suc (suc (suc (suc (suc (suc k)))))))) c d hk e = absurd (omega arith)
low_parity k c d hk e = omega arith

low_bits_join :
    (n a b : ℕ)
    → n < 8
    → bit_at a n ≡ bit_at b n
    → a % 2 ^ n ≡ b % 2 ^ n
    → a % 2 ^ suc n ≡ b % 2 ^ suc n
low_bits_join (suc (suc (suc (suc (suc (suc (suc (suc k)))))))) a b hn e h = absurd (omega arith)
low_bits_join n a b hn e h = omega arith

-- With `n` rounds to go, runs that end alike agree in the lowest `8 - n` bits, whatever the bytes.
rounds_low :
    (n k c d a b : ℕ)
    → n + k ≡ 8
    → IsByte c
    → IsByte d
    → crc8_rounds n c a ≡ crc8_rounds n d b
    → c % 2 ^ k ≡ d % 2 ^ k
unfolding crc8_rounds
rounds_low zero k c d a b e hc hd h = rw h
rounds_low (suc n) k c d a b e hc hd h =
    stepped_low k c d (bit_at a n) (bit_at b n) (omega arith) hc hd (
      rw (← round-stepped c a n hc, ← round-stepped d b n hd)
        (rounds_low n (suc k) _ _ a b (omega arith) (round-IsByte c a n hc) (round-IsByte d b n hd)
          h))

rounds_injective :
    (n c d byte : ℕ) → IsByte c → IsByte d → crc8_rounds n c byte ≡ crc8_rounds n d byte → c ≡ d
unfolding crc8_rounds
rounds_injective zero c d byte hc hd h = h
rounds_injective (suc n) c d byte hc hd h = stepped_injective c d (bit_at byte n) hc hd (
    rw (← round-stepped c byte n hc, ← round-stepped d byte n hd)
      (rounds_injective n _ _ byte (round-IsByte c byte n hc) (round-IsByte d byte n hd) h))

first_bits :
    (n c a b : ℕ)
    → suc n ≤ 8
    → IsByte c
    → crc8_rounds (suc n) c a ≡ crc8_rounds (suc n) c b
    → bit_at a n ≡ bit_at b n
unfolding crc8_rounds
first_bits n c a b hn hc h =
    omega (arith, parity, stepped_parity c (bit_at a n), stepped_parity c (bit_at b n))
  where
    parity : stepped c (bit_at a n) % 2 ≡ stepped c (bit_at b n) % 2
    parity =
        rw (← round-stepped c a n hc, ← round-stepped c b n hc)
          (low_parity (7 - n) _ _ (omega arith) (
            rounds_low n (suc (7 - n)) _ _ a b (omega arith) (round-IsByte c a n hc)
              (round-IsByte c b n hc) h))

same_round :
    (c a b n : ℕ) → IsByte c → bit_at a n ≡ bit_at b n → crc8_round c b n ≡ crc8_round c a n
same_round c a b n hc e = rw (round-stepped c b n hc, round-stepped c a n hc, e)

rounds_suc : (n c a : ℕ) → crc8_rounds (suc n) c a ≡ crc8_rounds n (crc8_round c a n) a
unfolding crc8_rounds
rounds_suc n c a = refl

-- From one state, bytes that lead to one state agree in the bits that were read.
rounds_read :
    (n c a b : ℕ) → n ≤ 8 → IsByte c → crc8_rounds n c a ≡ crc8_rounds n c b → a % 2 ^ n ≡ b % 2 ^ n
rounds_read zero c a b hn hc h = omega arith
rounds_read (suc n) c a b hn hc h = low_bits_join n a b (omega arith) same (
    rounds_read n (crc8_round c a n) a b (omega arith) (round-IsByte c a n hc)
      (rw (rounds_suc, rounds_suc, same_round c a b n hc same) at h))
  where
    same : bit_at a n ≡ bit_at b n
    same = first_bits n c a b hn hc h

pub update-IsByte : (c b : ℕ) → IsByte c → IsByte (crc8_update c b)
unfolding crc8_update
update-IsByte c b h = rounds-IsByte 8 c b h

pub crc8_from-IsByte : (c : ℕ) (bs : List ℕ) → IsByte c → IsByte (crc8_from c bs)
unfolding crc8_from
crc8_from-IsByte c [] h = h
crc8_from-IsByte c (b ∷ bs) h = crc8_from-IsByte (crc8_update c b) bs (update-IsByte c b h)

pub crc8-IsByte : (bs : List ℕ) → IsByte (crc8 bs)
unfolding crc8
crc8-IsByte bs = crc8_from-IsByte 0 bs (omega arith)

update_self_table : holds_below 256 (λ c. crc8_update c c == 0) ≡ true
unfolding holds_below crc8_update crc8_rounds crc8_round
update_self_table = refl

crc8_from-append : (c : ℕ) (xs ys : List ℕ) → crc8_from c (xs ++ ys) ≡ crc8_from (crc8_from c xs) ys
unfolding crc8_from
crc8_from-append c [] ys = refl
crc8_from-append c (x ∷ xs) ys = crc8_from-append (crc8_update c x) xs ys

-- A message followed by its own CRC byte has CRC 0, on every message.
pub crc8_residue : (msg : List ℕ) → crc8 (msg ++ crc8 msg ∷ []) ≡ 0
unfolding crc8 crc8_from
crc8_residue msg =
    crc8_from-append 0 msg _
    ∙ ==→eq _ _ (of_holds_below 256 _ (crc8_from 0 msg) update_self_table (crc8-IsByte msg))

crc8_from_injective :
    (bs : List ℕ) (c d : ℕ) → IsByte c → IsByte d → crc8_from c bs ≡ crc8_from d bs → c ≡ d
unfolding crc8_from crc8_update
crc8_from_injective [] c d hc hd h = h
crc8_from_injective (b ∷ bs) c d hc hd h =
    rounds_injective 8 c d b hc hd
      (crc8_from_injective bs _ _ (update-IsByte c b hc) (update-IsByte d b hd) h)

-- Two messages that differ in exactly one byte, at any place, have different CRCs.
pub crc8_detects :
    (front back : List ℕ) (a b : ℕ)
    → IsByte a
    → IsByte b
    → a ≢ b
    → crc8 (front ++ a ∷ back) ≢ crc8 (front ++ b ∷ back)
unfolding crc8
crc8_detects front back a b ha hb ne h =
    ne (read_alike start (crc8_from-IsByte 0 front (omega arith)) ends)
  where
    start : ℕ
    start = crc8_from 0 front

    ends : crc8_from (crc8_update start a) back ≡ crc8_from (crc8_update start b) back
    ends = unfold crc8_from in rw (crc8_from-append, crc8_from-append) at h

    read_alike :
        (c : ℕ)
        → IsByte c
        → crc8_from (crc8_update c a) back ≡ crc8_from (crc8_update c b) back
        → a ≡ b
    read_alike c hc e = omega (
      arith,
      rounds_read 8 c a b (omega arith) hc (
          unfold crc8_update in
          crc8_from_injective back _ _ (update-IsByte c a hc) (update-IsByte c b hc) e),
    )
