-- ===== src/Abi/Isa/Instr.antt =====
-- The instructions of crates/tamal-abi/src/isa.rs, one constructor for each opcode of the groups BUS,
-- CTRL and DATA.
use tamal.Base.{ℕ}
use tamal.Abi.Isa.Operand.{
  BitCount, ShiftOp, Fits, reg_bits, imm11_bits, imm21_bits, tar4_bits, cfg6_bits, sr5_bits,
  amt5_bits, wait_cond_bits, wait_timeout_bits,
}

abbrev pub Reg : Type 0
Reg = ℕ

abbrev pub Imm11 : Type 0
Imm11 = ℕ

abbrev pub Imm21 : Type 0
Imm21 = ℕ

abbrev pub Tar4 : Type 0
Tar4 = ℕ

abbrev pub Cfg6 : Type 0
Cfg6 = ℕ

abbrev pub Sr5 : Type 0
Sr5 = ℕ

abbrev pub Amt5 : Type 0
Amt5 = ℕ

abbrev pub WaitCond : Type 0
WaitCond = ℕ

abbrev pub WaitTimeout : Type 0
WaitTimeout = ℕ

pub data Instr : Type 0 where
  cs_assert : Instr
  cs_deassert : Instr
  put_byte_imm : ℕ → Instr
  put_byte_reg : Reg → Instr
  get_byte : Reg → Instr
  put_bits_imm : BitCount → ℕ → Instr
  put_bits_reg : Reg → BitCount → Instr
  get_bits : Reg → BitCount → Instr
  tar_imm : Tar4 → Instr
  tar_reg : Reg → Instr
  rst_assert : Instr
  rst_deassert : Instr
  get_alert : Reg → Instr
  halt : ℕ → Instr
  beq : Reg → Reg → Imm11 → Instr
  bne : Reg → Reg → Imm11 → Instr
  bltu : Reg → Reg → Imm11 → Instr
  bgeu : Reg → Reg → Imm11 → Instr
  wait_on : Reg → WaitCond → WaitTimeout → Instr
  set_config : Cfg6 → Instr
  mark : Imm11 → Reg → Instr
  crc_reset : Instr
  load_imm : Reg → Imm21 → Instr
  lui : Reg → Imm21 → Instr
  mov : Reg → Reg → Instr
  add : Reg → Reg → Reg → Instr
  addi : Reg → Reg → Imm11 → Instr
  sub : Reg → Reg → Reg → Instr
  and : Reg → Reg → Reg → Instr
  andi : Reg → Reg → Imm11 → Instr
  or : Reg → Reg → Reg → Instr
  ori : Reg → Reg → Imm11 → Instr
  xor : Reg → Reg → Reg → Instr
  xori : Reg → Reg → Imm11 → Instr
  shift : Reg → Reg → ShiftOp → Amt5 → Instr
  rdsr : Reg → Sr5 → Instr

pub data DecodeError : Type 0 where
  reserved_field_non_zero opcode_unimplemented illegal_opcode : DecodeError

-- The ranges that the operand types of the source guarantee.
abbrev pub IsValid : Instr → Type 0
IsValid cs_assert = Unit
IsValid cs_deassert = Unit
IsValid (put_byte_imm x) = Fits 8 x
IsValid (put_byte_reg x) = Fits reg_bits x
IsValid (get_byte x) = Fits reg_bits x
IsValid (put_bits_imm x y) = Fits 3 x × Fits 8 y
IsValid (put_bits_reg x y) = Fits reg_bits x × Fits 3 y
IsValid (get_bits x y) = Fits reg_bits x × Fits 3 y
IsValid (tar_imm x) = Fits tar4_bits x
IsValid (tar_reg x) = Fits reg_bits x
IsValid rst_assert = Unit
IsValid rst_deassert = Unit
IsValid (get_alert x) = Fits reg_bits x
IsValid (halt x) = Fits 8 x
IsValid (beq x y z) = Fits reg_bits x × Fits reg_bits y × Fits imm11_bits z
IsValid (bne x y z) = Fits reg_bits x × Fits reg_bits y × Fits imm11_bits z
IsValid (bltu x y z) = Fits reg_bits x × Fits reg_bits y × Fits imm11_bits z
IsValid (bgeu x y z) = Fits reg_bits x × Fits reg_bits y × Fits imm11_bits z
IsValid (wait_on x y z) = Fits reg_bits x × Fits wait_cond_bits y × Fits wait_timeout_bits z
IsValid (set_config x) = Fits cfg6_bits x
IsValid (mark x y) = Fits imm11_bits x × Fits reg_bits y
IsValid crc_reset = Unit
IsValid (load_imm x y) = Fits reg_bits x × Fits imm21_bits y
IsValid (lui x y) = Fits reg_bits x × Fits imm21_bits y
IsValid (mov x y) = Fits reg_bits x × Fits reg_bits y
IsValid (add x y z) = Fits reg_bits x × Fits reg_bits y × Fits reg_bits z
IsValid (addi x y z) = Fits reg_bits x × Fits reg_bits y × Fits imm11_bits z
IsValid (sub x y z) = Fits reg_bits x × Fits reg_bits y × Fits reg_bits z
IsValid (and x y z) = Fits reg_bits x × Fits reg_bits y × Fits reg_bits z
IsValid (andi x y z) = Fits reg_bits x × Fits reg_bits y × Fits imm11_bits z
IsValid (or x y z) = Fits reg_bits x × Fits reg_bits y × Fits reg_bits z
IsValid (ori x y z) = Fits reg_bits x × Fits reg_bits y × Fits imm11_bits z
IsValid (xor x y z) = Fits reg_bits x × Fits reg_bits y × Fits reg_bits z
IsValid (xori x y z) = Fits reg_bits x × Fits reg_bits y × Fits imm11_bits z
IsValid (shift x y _ v) = Fits reg_bits x × Fits reg_bits y × Fits amt5_bits v
IsValid (rdsr x y) = Fits reg_bits x × Fits sr5_bits y
