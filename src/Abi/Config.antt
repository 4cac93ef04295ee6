-- ===== src/Abi/Config.antt =====
-- crates/tamal-abi/src/config.rs: the payload of `SET_CONFIG`.
pub mod Strict
use tamal.Base.{ℕ, bit_and, bit_or, shl8, ◌>>>◌, ◌==◌, ◌&&◌, not, if◌then◌else◌, Result, ok, err}
use tamal.Abi.Isa.Operand.{from_bits, cfg6_bits}
use tamal.Abi.Isa.Instr.{Cfg6}

pub data Role : Type 0 where
  controller target : Role

pub data IoMode : Type 0 where
  x1 x2 x4 : IoMode

pub data Sck : Type 0 where
  sck20 sck33 sck50 sck66 : Sck

pub data AlertSource : Type 0 where
  alert_pin alert_io1 : AlertSource

pub record Config : Type 0 where
  pub role : Role
  pub io_mode : IoMode
  pub sck : Sck
  pub alert_source : AlertSource

pub data ConfigError : Type 0 where
  unsupported_role unsupported_io_mode unsupported_sck : ConfigError

abbrev pub role_bits : Role → ℕ
role_bits controller = 0
role_bits target = 1

abbrev pub io_bits : IoMode → ℕ
io_bits x1 = 0
io_bits x2 = 1
io_bits x4 = 2

abbrev pub sck_bits : Sck → ℕ
sck_bits sck20 = 0
sck_bits sck33 = 1
sck_bits sck50 = 2
sck_bits sck66 = 3

abbrev pub alert_bits : AlertSource → ℕ
alert_bits alert_pin = 0
alert_bits alert_io1 = 1

unfoldable pub pack : Config → Cfg6
pack c = from_bits cfg6_bits (
    bit_or
      (bit_or (bit_or (shl8 (role_bits c.role) 5) (shl8 (io_bits c.io_mode) 3))
        (shl8 (sck_bits c.sck) 1))
      (alert_bits c.alert_source))

unfoldable pub decode_config : Cfg6 → Result Config ConfigError
decode_config p =
    let role = bit_and (p >>> 5) 0x1 in
    let io = bit_and (p >>> 3) 0x3 in
    let sck = bit_and (p >>> 1) 0x3 in
    let alert = bit_and p 0x1 in
    if role == 0b0 && io == 0b00 && sck == 0b00
    then ok (record {
      role = controller;
      io_mode = x1;
      sck = sck20;
      alert_source = if alert == 0 then alert_pin else alert_io1;
    })
    else if role == 0b1
    then err unsupported_role
    else if not (io == 0b00)
    then err unsupported_io_mode
    else err unsupported_sck
