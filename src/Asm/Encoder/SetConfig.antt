-- ===== src/Asm/Encoder/SetConfig.antt =====
-- `encode_set_config`.
use tamal.Base.{ℕ, List, if◌then◌else◌, Result, ok, err, ◌>>=◌}
use tamal.Abi.Isa.Instr.{Instr, Cfg6}
use tamal.Abi.Config.{
  Role, controller, target, IoMode, x1, x2, x4, Sck, sck20, sck33, sck50, sck66, AlertSource,
  alert_pin, alert_io1, Config, ConfigError, unsupported_role, unsupported_io_mode, unsupported_sck,
  pack, decode_config,
}
use tamal.Asm.Diagnostics.{
  Span, Diagnostic, error, expected_keyword, unknown_role, unknown_io_mode, unknown_sck,
  unknown_alert_source, unavailable_role, unavailable_io_mode, unavailable_sck,
}
use tamal.Asm.Parser.{ident, num, Operand}
use tamal.Asm.Encoder.Resolve.{codes, lower, same_codes}
use tamal.Asm.Encoder.Args.{args4}

abbrev pub keyword : Operand → Result (List ℕ) Diagnostic
keyword op = elim op.kind [ ident s ↦ ok (lower s) | num _ ↦ err (error op.span expected_keyword) ]

unfoldable pub role_of : Span → List ℕ → Result Role Diagnostic
role_of span w =
    if same_codes w (codes "controller")
    then ok controller
    else if same_codes w (codes "target")
    then ok target
    else err (error span (unknown_role w))

unfoldable pub io_mode_of : Span → List ℕ → Result IoMode Diagnostic
io_mode_of span w =
    if same_codes w (codes "x1")
    then ok x1
    else if same_codes w (codes "x2")
    then ok x2
    else if same_codes w (codes "x4")
    then ok x4
    else err (error span (unknown_io_mode w))

unfoldable pub sck_of : Span → List ℕ → Result Sck Diagnostic
sck_of span w =
    if same_codes w (codes "sck20")
    then ok sck20
    else if same_codes w (codes "sck33")
    then ok sck33
    else if same_codes w (codes "sck50")
    then ok sck50
    else if same_codes w (codes "sck66")
    then ok sck66
    else err (error span (unknown_sck w))

unfoldable pub alert_of : Span → List ℕ → Result AlertSource Diagnostic
alert_of span w =
    if same_codes w (codes "alert_pin")
    then ok alert_pin
    else if same_codes w (codes "alert_io1")
    then ok alert_io1
    else err (error span (unknown_alert_source w))

-- The check of the packed configuration, and where its error points.
unfoldable pub check_config :
    Operand → Operand → Operand → Cfg6 → Result Config ConfigError → Result Instr Diagnostic
check_config a b c payload (ok _) = ok (Instr.set_config payload)
check_config a b c payload (err unsupported_role) = err (error a.span unavailable_role)
check_config a b c payload (err unsupported_io_mode) = err (error b.span unavailable_io_mode)
check_config a b c payload (err unsupported_sck) = err (error c.span unavailable_sck)

unfoldable pub encode_set_config : List Operand → Span → Result Instr Diagnostic
encode_set_config operands span = do
  (a, b, c, d) ← args4 operands span "set_config"
  role_word ← keyword a
  role ← role_of a.span role_word
  io_word ← keyword b
  io_mode ← io_mode_of b.span io_word
  sck_word ← keyword c
  sck ← sck_of c.span sck_word
  alert_word ← keyword d
  alert_source ← alert_of d.span alert_word
  let payload =
      pack (record { role = role; io_mode = io_mode; sck = sck; alert_source = alert_source })
  check_config a b c payload (decode_config payload)
