-- ===== src/Runs/Isa.antt =====
-- Instructions and configurations of crates/tamal-abi at concrete values.
use tamal.Base.{◌≡◌, refl, ok, err, arith}
use tamal.Abi.Isa.Operand.{ShiftOp, from_bits}
use tamal.Abi.Isa.Fields.{split_word}
use tamal.Abi.Isa.Instr.{Instr, IsValid}
use tamal.Abi.Isa.Encode.{encode}
use tamal.Abi.Isa.Decode.{decode, decode_fields, decode_data, only}
use tamal.Abi.Isa.RoundTrip.{decode-encode}
use tamal.Abi.Isa.Canonical.{encode-decode}
use tamal.Abi.Config.{Config, Role, IoMode, Sck, AlertSource, ConfigError, pack, decode_config}
use tamal.Abi.Config.Strict.{supported, decode_config-pack, pack-decode_config}

-- `shift x3, x4, sra, 7`
abbrev a_shift : Instr
a_shift = Instr.shift 3 4 ShiftOp.sra 7

decode-encode_example : decode (encode a_shift) ≡ ok a_shift
decode-encode_example = decode-encode a_shift (omega arith, omega arith, omega arith)

-- `addi x1, x2, -1`
addi_decodes : decode 0x902207FF ≡ ok (Instr.addi 1 2 0x7FF)
unfolding decode decode_fields split_word decode_data only from_bits
addi_decodes = refl

encode-decode_example :
    IsValid (Instr.addi 1 2 0x7FF) × (encode (Instr.addi 1 2 0x7FF) ≡ 0x902207FF)
encode-decode_example = encode-decode 0x902207FF (Instr.addi 1 2 0x7FF) (omega arith) addi_decodes

abbrev fast_target : Config
fast_target = record {
  role = Role.target;
  io_mode = IoMode.x4;
  sck = Sck.sck66;
  alert_source = AlertSource.alert_io1;
}

abbrev controller_io1 : Config
controller_io1 = record {
  role = Role.controller;
  io_mode = IoMode.x1;
  sck = Sck.sck20;
  alert_source = AlertSource.alert_io1;
}

decode_config-pack_example : decode_config (pack fast_target) ≡ err ConfigError.unsupported_role
decode_config-pack_example = decode_config-pack fast_target

one_decodes : decode_config 1 ≡ ok controller_io1
unfolding decode_config
one_decodes = refl

pack-decode_config_example :
    (pack controller_io1 ≡ 1) × (supported controller_io1 ≡ ok controller_io1)
pack-decode_config_example = pack-decode_config 1 controller_io1 (omega arith) one_decodes
