-- ===== src/Abi/Config/Strict.antt =====
-- What `decode_config` accepts, against a table of what version 1 supports.
use tamal.Base.{ℕ, ◌^◌, ◌+◌, ◌*◌, ◌/◌, ◌<◌, ◌≡◌, refl, Result, ok, err, arith, bit_or, shl8, ◌∙◌}
use tamal.Base.Bits.{bit_and_mask, bit_or_field}
use tamal.Abi.Isa.Packing.{from_bits-Fits}
use tamal.Abi.Config.{
  Role, IoMode, Sck, AlertSource, Config, ConfigError, controller, target, x1, x2, x4, sck20, sck33,
  sck50, sck66, alert_pin, alert_io1, unsupported_role, unsupported_io_mode, unsupported_sck,
  role_bits, io_bits, sck_bits, alert_bits, pack, decode_config,
}

-- The support table of version 1: controller role, one lane, 20 MHz; the role is judged first.
abbrev supported_sck : Config → Sck → Result Config ConfigError
supported_sck c sck20 = ok c
supported_sck c _ = err unsupported_sck

abbrev supported_io : Config → IoMode → Sck → Result Config ConfigError
supported_io c x1 s = supported_sck c s
supported_io c _ s = err unsupported_io_mode

abbrev supported_role : Config → Role → IoMode → Sck → Result Config ConfigError
supported_role c controller i s = supported_io c i s
supported_role c target i s = err unsupported_role

abbrev pub supported : Config → Result Config ConfigError
supported c = supported_role c c.role c.io_mode c.sck

-- The payload in plain arithmetic.
abbrev payload : Config → ℕ
payload c =
    role_bits c.role * 32 + io_bits c.io_mode * 8 + sck_bits c.sck * 2 + alert_bits c.alert_source

role-lt : (r : Role) → role_bits r < 2
role-lt controller = omega arith
role-lt target = omega arith

io-lt : (i : IoMode) → io_bits i < 3
io-lt x1 = omega arith
io-lt x2 = omega arith
io-lt x4 = omega arith

sck-lt : (s : Sck) → sck_bits s < 4
sck-lt sck20 = omega arith
sck-lt sck33 = omega arith
sck-lt sck50 = omega arith
sck-lt sck66 = omega arith

alert-lt : (a : AlertSource) → alert_bits a < 2
alert-lt alert_pin = omega arith
alert-lt alert_io1 = omega arith

pack_bits :
    (r i s a : ℕ)
    → r < 2
    → i < 4
    → s < 4
    → a < 2
    → bit_or (bit_or (bit_or (shl8 r 5) (shl8 i 3)) (shl8 s 1)) a ≡ r * 32 + i * 8 + s * 2 + a
pack_bits r i s a hr hi hs ha =
    bit_or_field 1 (bit_or (bit_or (shl8 r 5) (shl8 i 3)) (shl8 s 1)) (r * 16 + i * 4 + s) a a
      (omega (arith, second)) refl ha
    ∙ omega arith
  where
    first : bit_or (shl8 r 5) (shl8 i 3) ≡ r * 2 ^ 5 + i * 2 ^ 3
    first =
        bit_or_field 5 (shl8 r 5) r (shl8 i 3) (i * 2 ^ 3) (omega arith) (omega arith) (omega arith)

    second : bit_or (bit_or (shl8 r 5) (shl8 i 3)) (shl8 s 1) ≡ (r * 4 + i) * 2 ^ 3 + s * 2
    second =
        bit_or_field 3 (bit_or (shl8 r 5) (shl8 i 3)) (r * 4 + i) (shl8 s 1) (s * 2)
          (omega (arith, first)) (omega arith) (omega arith)

-- Packing puts the fields at `[5]`, `[4:3]`, `[2:1]` and `[0]`.
pub pack-payload : (c : Config) → (pack c ≡ payload c) × (pack c < 64)
unfolding pack
pack-payload c = rw joined (rw (from_bits-Fits 6 (payload c) below) (refl, below))
  where
    joined :
        bit_or
          (bit_or
            (bit_or (shl8 (role_bits c.role) 5) (shl8 (io_bits c.io_mode) 3))
            (shl8 (sck_bits c.sck) 1))
          (alert_bits c.alert_source)
        ≡ payload c
    joined =
        pack_bits (role_bits c.role) (io_bits c.io_mode) (sck_bits c.sck)
          (alert_bits c.alert_source) (role-lt c.role) (omega (arith, io-lt c.io_mode))
          (sck-lt c.sck) (alert-lt c.alert_source)

    below : payload c < 2 ^ 6
    below = omega (arith, role-lt c.role, io-lt c.io_mode, sck-lt c.sck, alert-lt c.alert_source)

-- Decoding a packed configuration gives it back where version 1 supports it, and else the error of the
-- first unsupported field.
pub decode_config-pack : (c : Config) → decode_config (pack c) ≡ supported c
unfolding decode_config
decode_config-pack c = ground (
  arith,
  pack-payload c,
  bit_and_mask 1 (payload c / 32),
  bit_and_mask 2 (payload c / 8),
  bit_and_mask 2 (payload c / 2),
  bit_and_mask 1 (payload c),
)

-- A configuration that decoding gives for a 6-bit payload is supported, and packs back to the payload.
pub pack-decode_config :
    (p : ℕ) (c : Config) → p < 64 → decode_config p ≡ ok c → (pack c ≡ p) × (supported c ≡ ok c)
unfolding decode_config
pack-decode_config p c h e = ground (
  arith,
  pack-payload c,
  bit_and_mask 1 (p / 32),
  bit_and_mask 2 (p / 8),
  bit_and_mask 2 (p / 2),
  bit_and_mask 1 p,
)
