-- ===== src/Abi/Isa/Canonical.antt =====
-- Words that decode, and the words that their instructions encode to.
use tamal.Base.{
  ℕ, ◌+◌, ◌*◌, ◌/◌, ◌%◌, ◌^◌, ◌<◌, ◌≡◌, arith, Result, ok, err, Bool, true, false, ◌==◌, ◌&&◌,
  if◌then◌else◌, Option, none, some, refl, Bool-cases, ==→eq, inl, inr, subst,
}
use tamal.Base.Bits.{bit_and_mask}
use tamal.Abi.Isa.Operand.{ShiftOp, shift_op_bits, shift_op_from_bits, sll, srl, sra}
use tamal.Abi.Isa.Fields.{join_word}
use tamal.Abi.Isa.Layout.{InRange, fields, join-split, split_fields, split_word-fields}
use tamal.Abi.Isa.Packing.{
  from_bits-Fits, bit_count-Fits, pack_bits_imm-sum, unpack_bits_imm-parts, split_imm21-parts,
  join_imm21-sum, wait_pack-sum, wait_unpack-parts, shift_pack-sum, shift_unpack-parts,
}
use tamal.Abi.Isa.Encode.{encode}
use tamal.Abi.Isa.Decode.{
  decode, decode_fields, decode_bus, decode_ctrl, decode_data, decode_shift, only,
}
use tamal.Abi.Isa.Instr.{Instr, IsValid, DecodeError}

-- Either the decoder refuses, or its instruction has operands in range and encodes to `w`.
data Rebuilds (w : ℕ) : Result Instr DecodeError → Type 0 where
  rebuilds : {n : Instr} → IsValid n × (encode n ≡ w) → Rebuilds w (ok n)
  refuses : {e : DecodeError} → Rebuilds w (err e)

Rebuilds-ok :
    {w : ℕ} {x : Result Instr DecodeError} {n : Instr}
    → Rebuilds w x
    → x ≡ ok n
    → IsValid n × (encode n ≡ w)
Rebuilds-ok {w} {n = m} (rebuilds h) e = subst (λ n. IsValid n × (encode n ≡ w)) (cc) h
Rebuilds-ok refuses e = cc

only-Rebuilds :
    {w : ℕ} (c : Bool) (n : Instr) → (c ≡ true → IsValid n × (encode n ≡ w)) → Rebuilds w (only c n)
unfolding only
only-Rebuilds true n h = rebuilds (h refl)
only-Rebuilds false n h = refuses

if_eq-Rebuilds :
    {w : ℕ} (s k : ℕ) {x y : Result Instr DecodeError}
    → (s ≡ k → Rebuilds w x)
    → Rebuilds w y
    → Rebuilds w (if s == k then x else y)
if_eq-Rebuilds {w} s k {x} {y} hx hy = elim (Bool-cases (s == k)) [
  | inl e ↦ rw e (hx (==→eq s k e))
  | inr e ↦ rw e hy
]

shift_op-from_bits_inverse :
    (v : ℕ) → v < 4 → (op : ShiftOp) → shift_op_from_bits v ≡ some op → shift_op_bits op ≡ v
unfolding shift_op_from_bits shift_op_bits
shift_op-from_bits_inverse v h sll e = ground (arith, bit_and_mask 2 v)
shift_op-from_bits_inverse v h srl e = ground (arith, bit_and_mask 2 v)
shift_op-from_bits_inverse v h sra e = ground (arith, bit_and_mask 2 v)

module _ (s d a b i : ℕ) (e : s ≡ 12) (r : InRange 0 s d a b i) where
  shift_arm :
      (o : Option ShiftOp) (c : Bool)
      → shift_op_from_bits (i / 512 % 4) ≡ o
      → c ≡ (b == 0 && i / 32 % 16 == 0)
      → Rebuilds (join_word 2 s d a b i) (decode_shift (fields 2 s d a b i) o c (i % 32))
  unfolding decode_shift encode
  shift_arm none c q h = refuses
  shift_arm (some op) false q h = refuses
  shift_arm (some op) true q h = rebuilds (
      ground (
        arith,
        from_bits-Fits 5 d,
        from_bits-Fits 5 a,
        from_bits-Fits 5 (i % 32),
        shift_op-from_bits_inverse (i / 512 % 4) (omega arith) op,
        shift_pack-sum (i / 512 % 4) (i % 32),
      ))

  shift-Rebuilds : Rebuilds (join_word 2 s d a b i) (
      decode_shift
        (fields 2 s d a b i)
        (shift_op_from_bits (i / 512 % 4))
        (b == 0 && i / 32 % 16 == 0)
        (i % 32))
  shift-Rebuilds = shift_arm _ _ refl refl

module _ (s d a b i : ℕ) (r : InRange 0 s d a b i) where
  bus-Rebuilds : Rebuilds (join_word 0 s d a b i) (decode_bus (fields 0 s d a b i))
  unfolding decode_bus encode
  bus-Rebuilds =
      if_eq-Rebuilds s 0 (λ e. only-Rebuilds _ _ (λ c. ground (arith)))
        (if_eq-Rebuilds s 1 (λ e. only-Rebuilds _ _ (λ c. ground (arith)))
          (if_eq-Rebuilds s 2
            (λ e.
              only-Rebuilds _ _
                (λ c. ground (arith, bit_and_mask 3 (i / 256), unpack_bits_imm-parts i)))
            (if_eq-Rebuilds s 3 (λ e. only-Rebuilds _ _ (λ c. ground (arith, from_bits-Fits 5 a)))
              (if_eq-Rebuilds s 4 (λ e. only-Rebuilds _ _ (λ c. ground (arith, from_bits-Fits 5 d)))
                (if_eq-Rebuilds s 5
                  (λ e. only-Rebuilds _ _ (λ c. ground (
                    arith,
                    pack_bits_imm-sum (i / 256 % 8) (i % 256),
                    bit_count-Fits (i / 256 % 8),
                    unpack_bits_imm-parts i,
                  )))
                  (if_eq-Rebuilds s 6
                    (λ e. only-Rebuilds _ _ (λ c. ground (
                      arith,
                      from_bits-Fits 5 a,
                      pack_bits_imm-sum (i / 256 % 8) 0,
                      bit_count-Fits (i / 256 % 8),
                      unpack_bits_imm-parts i,
                    )))
                    (if_eq-Rebuilds s 7
                      (λ e. only-Rebuilds _ _ (λ c. ground (
                        arith,
                        from_bits-Fits 5 d,
                        pack_bits_imm-sum (i / 256 % 8) 0,
                        bit_count-Fits (i / 256 % 8),
                        unpack_bits_imm-parts i,
                      )))
                      (if_eq-Rebuilds s 8
                        (λ e. only-Rebuilds _ _ (λ c. ground (
                          arith,
                          bit_and_mask 7 (i / 16),
                          bit_and_mask 4 i,
                          from_bits-Fits 4 (i % 16),
                        )))
                        (if_eq-Rebuilds s 9
                          (λ e. only-Rebuilds _ _ (λ c. ground (arith, from_bits-Fits 5 a)))
                          (if_eq-Rebuilds s 10 (λ e. only-Rebuilds _ _ (λ c. ground (arith)))
                            (if_eq-Rebuilds s 11 (λ e. only-Rebuilds _ _ (λ c. ground (arith)))
                              (if_eq-Rebuilds s 12
                                (λ e. only-Rebuilds _ _ (λ c. ground (arith, from_bits-Fits 5 d)))
                                (refuses)))))))))))))

module _ (s d a b i : ℕ) (r : InRange 0 s d a b i) where
  ctrl-Rebuilds : Rebuilds (join_word 1 s d a b i) (decode_ctrl (fields 1 s d a b i))
  unfolding decode_ctrl encode
  ctrl-Rebuilds =
      if_eq-Rebuilds s 0
        (λ e. only-Rebuilds _ _ (λ c. ground (arith, bit_and_mask 3 (i / 256), bit_and_mask 8 i)))
        (if_eq-Rebuilds s 1
          (λ e.
            only-Rebuilds _ _
              (λ c. ground (arith, from_bits-Fits 5 a, from_bits-Fits 5 b, from_bits-Fits 11 i)))
          (if_eq-Rebuilds s 2
            (λ e.
              only-Rebuilds _ _
                (λ c. ground (arith, from_bits-Fits 5 a, from_bits-Fits 5 b, from_bits-Fits 11 i)))
            (if_eq-Rebuilds s 3
              (λ e.
                only-Rebuilds _ _ (λ c.
                  ground (arith, from_bits-Fits 5 a, from_bits-Fits 5 b, from_bits-Fits 11 i)))
              (if_eq-Rebuilds s 4
                (λ e. only-Rebuilds _ _ (λ c.
                  ground (arith, from_bits-Fits 5 a, from_bits-Fits 5 b, from_bits-Fits 11 i)))
                (if_eq-Rebuilds s 5
                  (λ e. only-Rebuilds _ _ (λ c. ground (
                    arith,
                    from_bits-Fits 5 d,
                    wait_unpack-parts i,
                    from_bits-Fits 2 (i / 512 % 4),
                    from_bits-Fits 9 (i % 512),
                    wait_pack-sum (i / 512 % 4) (i % 512),
                  )))
                  (if_eq-Rebuilds s 6
                    (λ e. only-Rebuilds _ _ (λ c. ground (
                      arith,
                      bit_and_mask 5 (i / 64),
                      bit_and_mask 6 i,
                      from_bits-Fits 6 (i % 64),
                    )))
                    (if_eq-Rebuilds s 7
                      (λ e.
                        only-Rebuilds _ _
                          (λ c. ground (arith, from_bits-Fits 11 i, from_bits-Fits 5 a)))
                      (if_eq-Rebuilds s 8 (λ e. only-Rebuilds _ _ (λ c. ground (arith)))
                        (refuses)))))))))

module _ (s d a b i : ℕ) (r : InRange 0 s d a b i) where
  data-Rebuilds : Rebuilds (join_word 2 s d a b i) (decode_data (fields 2 s d a b i))
  unfolding decode_data encode
  data-Rebuilds =
      if_eq-Rebuilds s 0
        (λ e. rebuilds (
          ground (
            arith,
            from_bits-Fits 5 d,
            join_imm21-sum a b i,
            from_bits-Fits 21 (a * 65536 + b * 2048 + i),
            split_imm21-parts (a * 65536 + b * 2048 + i),
          )))
        (if_eq-Rebuilds s 1
          (λ e. rebuilds (
            ground (
              arith,
              from_bits-Fits 5 d,
              join_imm21-sum a b i,
              from_bits-Fits 21 (a * 65536 + b * 2048 + i),
              split_imm21-parts (a * 65536 + b * 2048 + i),
            )))
          (if_eq-Rebuilds s 2
            (λ e. only-Rebuilds _ _ (λ c. ground (arith, from_bits-Fits 5 d, from_bits-Fits 5 a)))
            (if_eq-Rebuilds s 3
              (λ e.
                only-Rebuilds _ _
                  (λ c. ground (arith, from_bits-Fits 5 d, from_bits-Fits 5 a, from_bits-Fits 5 b)))
              (if_eq-Rebuilds s 4
                (λ e. only-Rebuilds _ _ (λ c.
                  ground (arith, from_bits-Fits 5 d, from_bits-Fits 5 a, from_bits-Fits 11 i)))
                (if_eq-Rebuilds s 5
                  (λ e. only-Rebuilds _ _ (λ c.
                    ground (arith, from_bits-Fits 5 d, from_bits-Fits 5 a, from_bits-Fits 5 b)))
                  (if_eq-Rebuilds s 6
                    (λ e. only-Rebuilds _ _ (λ c.
                      ground (arith, from_bits-Fits 5 d, from_bits-Fits 5 a, from_bits-Fits 5 b)))
                    (if_eq-Rebuilds s 7
                      (λ e. only-Rebuilds _ _ (λ c.
                        ground
                          (arith, from_bits-Fits 5 d, from_bits-Fits 5 a, from_bits-Fits 11 i)))
                      (if_eq-Rebuilds s 8
                        (λ e. only-Rebuilds _ _ (λ c.
                          ground
                            (arith, from_bits-Fits 5 d, from_bits-Fits 5 a, from_bits-Fits 5 b)))
                        (if_eq-Rebuilds s 9
                          (λ e. only-Rebuilds _ _ (λ c.
                            ground
                              (arith, from_bits-Fits 5 d, from_bits-Fits 5 a, from_bits-Fits 11 i)))
                          (if_eq-Rebuilds s 10
                            (λ e. only-Rebuilds _ _ (λ c.
                              ground (
                                arith,
                                from_bits-Fits 5 d,
                                from_bits-Fits 5 a,
                                from_bits-Fits 5 b,
                              )))
                            (if_eq-Rebuilds s 11
                              (λ e. only-Rebuilds _ _ (λ c. ground (
                                arith,
                                from_bits-Fits 5 d,
                                from_bits-Fits 5 a,
                                from_bits-Fits 11 i,
                              )))
                              (if_eq-Rebuilds s 12
                                (λ e. rw (shift_unpack-parts i) (shift-Rebuilds s d a b i e r))
                                (if_eq-Rebuilds s 13
                                  (λ e. only-Rebuilds _ _ (λ c. ground (
                                    arith,
                                    from_bits-Fits 5 d,
                                    bit_and_mask 6 (i / 32),
                                    bit_and_mask 5 i,
                                    from_bits-Fits 5 (i % 32),
                                  )))
                                  (refuses))))))))))))))

fields-Rebuilds :
    (g s d a b i : ℕ)
    → InRange g s d a b i
    → Rebuilds (join_word g s d a b i) (decode_fields (fields g s d a b i))
unfolding decode_fields
fields-Rebuilds g s d a b i r =
    if_eq-Rebuilds g 0 (λ e. rw e (bus-Rebuilds s d a b i (omega arith)))
      (if_eq-Rebuilds g 1 (λ e. rw e (ctrl-Rebuilds s d a b i (omega arith)))
        (if_eq-Rebuilds g 2 (λ e. rw e (data-Rebuilds s d a b i (omega arith))) refuses))

decode-Rebuilds : (w : ℕ) → w < 2 ^ 32 → Rebuilds w (decode w)
unfolding decode
decode-Rebuilds w h = rw split_word-fields (
    subst (λ v. Rebuilds v (decode_fields (split_fields w)))
      (rw split_word-fields at (join-split w h)) (fields-Rebuilds _ _ _ _ _ _ (omega arith)))

-- Where `decode` accepts a 32-bit word, the operands are in range and `encode` gives the word back.
pub encode-decode : (w : ℕ) (n : Instr) → w < 2 ^ 32 → decode w ≡ ok n → IsValid n × (encode n ≡ w)
encode-decode w n h e = Rebuilds-ok (decode-Rebuilds w h) e
