-- ===== src/Asm/Encoder/Line/Valid.antt =====
-- The ranges of the operands in the instructions of a line.
use Prim.Native.String.{String}
use tamal.Base.{
  ℕ, ◌-◌, ◌^◌, ◌≡◌, List, [], ◌∷◌, All, ◌&&◌, Bool-cases, inl, inr, Result, ok, err, ◌>>=◌,
}
use tamal.Base.Int.{ℤ, pos, negsuc, leb_ℤ, low_bits, is_zero}
use tamal.Abi.Isa.Operand.{
  Fits, reg_bits, imm11_bits, imm21_bits, ShiftOp, amt5_bits, tar4_bits, wait_cond_bits,
  wait_timeout_bits, sr5_bits,
}
use tamal.Abi.Isa.Instr.{Instr, IsValid}
use tamal.Abi.Config.{
  Config, ConfigError, unsupported_role, unsupported_io_mode, unsupported_sck, pack,
}
use tamal.Abi.Config.Strict.{pack-payload}
use tamal.Asm.Diagnostics.{Span, Diagnostic}
use tamal.Asm.Parser.{Operand}
use tamal.Asm.Symbol.{SymbolTable}
use tamal.Asm.Encoder.Resolve.{
  resolve_reg, resolve_sr, resolve_branch_target, field_u8, field_imm11, field_bitcount, field_tar4,
  field_amt5, field_imm21, field_load_imm, field_mark_tag, field_wait_cond, field_wait_timeout,
}
use tamal.Asm.Encoder.Ranges.{
  Holds, holds, fails, Bounded, bounded, unbounded, expect-Fits, reg-Fits, u8-Fits, imm11-Fits,
  bitcount-Fits, tar4-Fits, amt5-Fits, imm21-Fits, load_imm-Fits, mark_tag-Fits, wait_cond-Fits,
  wait_timeout-Fits, sr-Fits, target-Fits,
}
use tamal.Asm.Encoder.Li.{li_low, tile_li}
use tamal.Asm.Encoder.SetConfig.{check_config, encode_set_config}
use tamal.Asm.Encoder.Forms.{Seq, rrr, rri, shift, branch, zero_reg}
use tamal.Asm.Encoder.Line.{encode_pseudo, encode_data, encode_line}
use tamal.Asm.Encoder.Line.Sizes.{Ok, made, failed, Ok-inverse, Ok-if, Ok-bind, Ok-then}

abbrev AllValid : List Instr → Type 0
AllValid is = All IsValid is

-- The rest of a line after an operand, whose value fits a field.
Ok-operand :
    {P : List Instr → Type 0} {bits : ℕ} (m : Result ℕ Diagnostic) {f : ℕ → Seq}
    → Bounded bits m
    → ((a : ℕ) → Fits bits a → Ok P (f a))
    → Ok P (m >>= f)
Ok-operand m (bounded q) h = h _ q
Ok-operand m unbounded h = failed

both : {A B : Type 0} → A → B → A × B
both a b = (a, b)

made-Valid : (i : Instr) → IsValid i → Ok AllValid (ok (i ∷ []))
made-Valid i h = made (h, tt)

zero_reg-Fits : Fits reg_bits zero_reg
zero_reg-Fits = expect-Fits 5 0

-- One rule for each kind of operand.
module _ {P : List Instr → Type 0} (op : Operand) {f : ℕ → Seq} where
  Ok-reg : ((a : ℕ) → Fits reg_bits a → Ok P (f a)) → Ok P (resolve_reg op >>= f)
  Ok-reg h = Ok-operand _ (reg-Fits op) h

  Ok-imm11 :
      (syms : SymbolTable)
      → ((a : ℕ) → Fits imm11_bits a → Ok P (f a))
      → Ok P (field_imm11 op syms >>= f)
  Ok-imm11 syms h = Ok-operand _ (imm11-Fits op syms) h

  Ok-bitcount :
      (syms : SymbolTable) → ((a : ℕ) → Fits 3 a → Ok P (f a)) → Ok P (field_bitcount op syms >>= f)
  Ok-bitcount syms h = Ok-operand _ (bitcount-Fits op syms) h

  Ok-tar4 :
      (syms : SymbolTable)
      → ((a : ℕ) → Fits tar4_bits a → Ok P (f a))
      → Ok P (field_tar4 op syms >>= f)
  Ok-tar4 syms h = Ok-operand _ (tar4-Fits op syms) h

  Ok-amt5 :
      (syms : SymbolTable)
      → ((a : ℕ) → Fits amt5_bits a → Ok P (f a))
      → Ok P (field_amt5 op syms >>= f)
  Ok-amt5 syms h = Ok-operand _ (amt5-Fits op syms) h

  Ok-imm21 :
      (syms : SymbolTable)
      → ((a : ℕ) → Fits imm21_bits a → Ok P (f a))
      → Ok P (field_imm21 op syms >>= f)
  Ok-imm21 syms h = Ok-operand _ (imm21-Fits op syms) h

  Ok-load_imm :
      (syms : SymbolTable)
      → ((a : ℕ) → Fits imm21_bits a → Ok P (f a))
      → Ok P (field_load_imm op syms >>= f)
  Ok-load_imm syms h = Ok-operand _ (load_imm-Fits op syms) h

  Ok-mark_tag :
      (syms : SymbolTable)
      → ((a : ℕ) → Fits imm11_bits a → Ok P (f a))
      → Ok P (field_mark_tag op syms >>= f)
  Ok-mark_tag syms h = Ok-operand _ (mark_tag-Fits op syms) h

  Ok-wait_cond :
      (syms : SymbolTable)
      → ((a : ℕ) → Fits wait_cond_bits a → Ok P (f a))
      → Ok P (field_wait_cond op syms >>= f)
  Ok-wait_cond syms h = Ok-operand _ (wait_cond-Fits op syms) h

  Ok-wait_timeout :
      (syms : SymbolTable)
      → ((a : ℕ) → Fits wait_timeout_bits a → Ok P (f a))
      → Ok P (field_wait_timeout op syms >>= f)
  Ok-wait_timeout syms h = Ok-operand _ (wait_timeout-Fits op syms) h

  Ok-sr :
      (syms : SymbolTable)
      → ((a : ℕ) → Fits sr5_bits a → Ok P (f a))
      → Ok P (resolve_sr op syms >>= f)
  Ok-sr syms h = Ok-operand _ (sr-Fits op syms) h

  Ok-u8 :
      (syms : SymbolTable) (what : String)
      → ((a : ℕ) → Fits 8 a → Ok P (f a))
      → Ok P (field_u8 op syms what >>= f)
  Ok-u8 syms what h = Ok-operand _ (u8-Fits op syms what) h

  Ok-target :
      (addr : ℕ) (syms : SymbolTable)
      → ((a : ℕ) → Fits imm11_bits a → Ok P (f a))
      → Ok P (resolve_branch_target op addr syms >>= f)
  Ok-target addr syms h = Ok-operand _ (target-Fits op syms addr) h

ruleset valid_rules = (
  Ok-if, Ok-reg, Ok-u8, Ok-imm11, Ok-bitcount, Ok-tar4, Ok-amt5, Ok-imm21, Ok-load_imm, Ok-mark_tag,
  Ok-wait_cond, Ok-wait_timeout, Ok-sr, Ok-target, Ok-bind, Ok-then, made-Valid, both, failed,
  zero_reg-Fits,
)

rrr-Valid :
    (ops : List Operand) (span : Span) (m : String) (ctor : ℕ → ℕ → ℕ → Instr)
    → ((a b c : ℕ) → Fits reg_bits a → Fits reg_bits b → Fits reg_bits c → IsValid (ctor a b c))
    → Ok AllValid (rrr ops span m ctor)
unfolding rrr
rrr-Valid ops span m ctor h = search (valid_rules, h) depth 20

rri-Valid :
    (ops : List Operand) (span : Span) (m : String) (syms : SymbolTable) (ctor : ℕ → ℕ → ℕ → Instr)
    → ((a b c : ℕ) → Fits reg_bits a → Fits reg_bits b → Fits imm11_bits c → IsValid (ctor a b c))
    → Ok AllValid (rri ops span m syms ctor)
unfolding rri
rri-Valid ops span m syms ctor h = search (valid_rules, h) depth 20

shift-Valid :
    (ops : List Operand) (span : Span) (m : String) (syms : SymbolTable) (op : ShiftOp)
    → Ok AllValid (shift ops span m syms op)
unfolding shift
shift-Valid ops span m syms op = search valid_rules depth 20

branch-Valid :
    (ops : List Operand) (span : Span) (m : String) (addr : ℕ) (syms : SymbolTable)
    (ctor : ℕ → ℕ → ℕ → Instr)
    → ((a b c : ℕ) → Fits reg_bits a → Fits reg_bits b → Fits imm11_bits c → IsValid (ctor a b c))
    → Ok AllValid (branch ops span m addr syms ctor)
unfolding branch
branch-Valid ops span m addr syms ctor h = search (valid_rules, h) depth 20

Holds-bind :
    {A B : Type 0} {Q : B → Type 0} (m : Result A Diagnostic) {f : A → Result B Diagnostic}
    → ((a : A) → Holds Q (f a))
    → Holds Q (m >>= f)
Holds-bind (ok a) h = h a
Holds-bind (err e) h = fails

check_config-Holds :
    (a b c : Operand) (cfg : Config) (r : Result Config ConfigError)
    → Holds IsValid (check_config a b c (pack cfg) r)
unfolding check_config
check_config-Holds a b c cfg (ok _) = holds (pack-payload cfg).1
check_config-Holds a b c cfg (err unsupported_role) = fails
check_config-Holds a b c cfg (err unsupported_io_mode) = fails
check_config-Holds a b c cfg (err unsupported_sck) = fails

set_config-Holds : (ops : List Operand) (span : Span) → Holds IsValid (encode_set_config ops span)
unfolding encode_set_config
set_config-Holds ops span = search (Holds-bind, check_config-Holds) depth 20

Ok-set_config :
    (ops : List Operand) (span : Span)
    → Ok AllValid (encode_set_config ops span >>= λ i. ok (i ∷ []))
Ok-set_config ops span = single (encode_set_config ops span) (set_config-Holds ops span)
  where
    single : (m : Result Instr Diagnostic) → Holds IsValid m → Ok AllValid (m >>= λ i. ok (i ∷ []))
    single m (holds q) = made-Valid _ q
    single m fails = failed

tile_li-Valid : (rd : ℕ) (v : ℤ) → Fits reg_bits rd → AllValid (tile_li rd v)
unfolding tile_li
tile_li-Valid rd v h =
    elim (Bool-cases (leb_ℤ (negsuc (2 ^ 20 - 1)) v && leb_ℤ v (pos (2 ^ 20 - 1)))) [
      | inl e ↦ rw e ((h, expect-Fits 21 _), tt)
      | inr e ↦ rw e (elim (Bool-cases (is_zero (li_low (low_bits 32 v)))) [
        | inl z ↦ rw z ((h, expect-Fits 21 _), tt)
        | inr z ↦ rw z ((h, expect-Fits 21 _), ((h, h, expect-Fits 11 _), tt))
      ])
    ]

made-li : (rd : ℕ) (v : ℤ) → Fits reg_bits rd → Ok AllValid (ok (tile_li rd v))
made-li rd v h = made (tile_li-Valid rd v h)

module _ (m : String) (ops : List Operand) (span : Span) (addr : ℕ) (syms : SymbolTable) where
  pseudo-Valid : Ok AllValid (encode_pseudo m ops span addr syms)
  unfolding encode_pseudo
  pseudo-Valid = search (branch-Valid, made-li, valid_rules, expect-Fits 11 0) depth 40

  data-Valid : Ok AllValid (encode_data m ops span addr syms)
  unfolding encode_data
  data-Valid = search (pseudo-Valid, rrr-Valid, rri-Valid, shift-Valid, valid_rules) depth 40

  line-Valid : Ok AllValid (encode_line m ops span addr syms)
  unfolding encode_line
  line-Valid = search (data-Valid, Ok-set_config, valid_rules) depth 40

-- Every instruction that a line becomes has its operands in range.
pub encode_line-Valid :
    (m : String) (ops : List Operand) (span : Span) (addr : ℕ) (syms : SymbolTable)
    (is : List Instr)
    → encode_line m ops span addr syms ≡ ok is
    → All IsValid is
encode_line-Valid m ops span addr syms is e = Ok-inverse _ (line-Valid m ops span addr syms) e
