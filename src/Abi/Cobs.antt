-- ===== src/Abi/Cobs.antt =====
-- crates/tamal-abi/src/cobs.rs: consistent overhead byte stuffing. A `Vec` that is pushed to is a
-- list that is appended to.
pub mod Groups
pub mod Stuffed
pub mod Shape
pub mod RoundTrip
use tamal.Base.{
  ℕ, zero, suc, ◌+◌, ◌-◌, Bool, true, false, ◌&&◌, not, List, [], ◌∷◌, ◌++◌, length, u8, ltb, ◌==◌,
  if◌then◌else◌, Result, ok, err, ◌>>=◌,
}

-- `out_of_fuel` has no counterpart in the program: the loop of `cobs_decode` ran out of rounds.
pub data CobsError : Type 0 where
  empty truncated_group interior_zero out_of_fuel : CobsError

abbrev pub is_empty : List ℕ → Bool
is_empty [] = true
is_empty (_ ∷ _) = false

-- `out.push(group.len() as u8 + 1); out.extend_from_slice(&group)`
abbrev pub flush : List ℕ → List ℕ → List ℕ
flush out group = out ++ u8 (u8 (length group) + 1) ∷ group

-- One round of the loop of `cobs_encode` on the byte `b`: the new group and output. `last` is that no
-- byte follows.
unfoldable pub encode_step : ℕ → Bool → List ℕ → List ℕ → List ℕ × List ℕ
encode_step b last group out =
    let group' = group ++ b ∷ [] in
    if b == 0
    then ([], if last then flush out group ++ 1 ∷ [] else flush out group)
    else if length group' == 254
    then ([], out ++ 0xFF ∷ group')
    else if last
    then ([], flush out group')
    else (group', out)

unfoldable pub encode_loop : List ℕ → List ℕ → List ℕ → List ℕ
encode_loop [] group out = out
encode_loop (b ∷ rest) group out =
    let (group', out') = encode_step b (is_empty rest) group out in encode_loop rest group' out'

unfoldable pub cobs_encode : List ℕ → List ℕ
cobs_encode data' =
    let out = encode_loop data' [] [] in if is_empty data' then out ++ 1 ∷ [] else out

-- The inner `for` of `cobs_decode`: copies `n` bytes, none of which may be 0. It gives the bytes after
-- them and the new output. The caller has checked that there are `n` bytes, so the input never ends here.
unfoldable pub copy_group : ℕ → List ℕ → List ℕ → Result (List ℕ × List ℕ) CobsError
copy_group zero rest out = ok (rest, out)
copy_group (suc n) [] out = err truncated_group
copy_group (suc n) (d ∷ rest) out =
    let more = copy_group n rest (out ++ d ∷ []) in if d == 0 then err interior_zero else more

-- The `while` of `cobs_decode` on the bytes from index `i`.
unfoldable pub decode_loop : ℕ → List ℕ → List ℕ → Result (List ℕ) CobsError
decode_loop fuel [] out = ok out
decode_loop zero (code ∷ rest) out = err out_of_fuel
decode_loop (suc fuel) (code ∷ rest) out =
    if code == 0
    then err interior_zero
    else if ltb (length rest) (code - 1)
    then err truncated_group
    else do
      (rest', out') ← copy_group (code - 1) rest out
      decode_loop fuel rest'
          (if not (code == 0xFF) && not (is_empty rest') then out' ++ 0 ∷ [] else out')

-- Each round reads a code byte, so as many rounds as bytes are enough.
unfoldable pub cobs_decode : List ℕ → Result (List ℕ) CobsError
cobs_decode [] = err empty
cobs_decode (b ∷ rest) = decode_loop (length (b ∷ rest)) (b ∷ rest) []
