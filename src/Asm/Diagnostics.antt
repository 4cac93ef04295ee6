-- ===== src/Asm/Diagnostics.antt =====
-- crates/tamal-asm/src/diagnostics.rs, which crates/tamal-lang uses too. A message is its kind with the values that its text shows.
use Prim.Native.String.{String}
use tamal.Base.{ℕ, List, [], ◌∷◌, ◌++◌, Option, none, some}
use tamal.Base.Int.{ℤ}

pub record Span : Type 0 where
  pub start : ℕ
  pub end : ℕ

pub data Severity : Type 0 where
  error_severity warning_severity : Severity

-- What a value is checked for in tamal-lang, and what is wrong with it: a byte out of range, or a
-- type and the integer or the count of bytes that was found.
pub data Place : Type 0 where
  body_of : String → Place
  argument_of default_of : String → String → Place

pub data Problem : Type 0 where
  not_a_byte : ℤ → Problem
  found_integer : String → ℤ → Problem
  found_bytes : String → ℕ → Problem

pub data Message : Type 0 where
  expected_register : Message
  unknown_register : String → Message
  unavailable_register : String → ℕ → Message
  label_for_constant : String → Message
  undefined_symbol : String → Message
  out_of_range : String → ℤ → ℤ → ℤ → Message
  li_too_wide : ℤ → Message
  operand_count : String → ℕ → ℕ → Message
  target_not_label : Message
  constant_for_label : String → Message
  undefined_label : String → Message
  expected_keyword : Message
  unknown_role unknown_io_mode unknown_sck unknown_alert_source : List ℕ → Message
  unavailable_role unavailable_io_mode unavailable_sck : Message
  unsupported_instruction : String → Message
  unknown_instruction : String → Message
  equ_operands equ_name : Message
  duplicate_symbol : String → Message
  first_defined_here : Message
  globl_operands : Message
  unsupported_directive unknown_directive : String → Message
  program_length : ℕ → Message
  register_file_help linkage_help directives_help : Message
  out_of_registers live_variables_help : Message
  unknown_name unknown_function : String → Message
  builtins_help inlined_help positional_first_help : Message
  already_expanding : String → Message
  builtin_arity : String → ℕ → Message
  builtin_named : String → String → Message
  expected_integer expected_bytes positional_after_named : Message
  byte_range : ℤ → Message
  arity_of : String → ℕ → ℕ → Message
  no_parameter bound_twice missing_value : String → String → Message
  type_problem : Place → Problem → Message
  too_many_lines too_many_lines_help nested_expansion budget_ran_out : Message
  too_many_expansions too_many_expansions_help not_in_frame expect_outside expect_help : Message
  fn_as_statement unknown_proc : String → Message
  fn_statement_help unknown_proc_help inlined_proc_help unroll_help : Message
  repeat_range : ℤ → Message
  is_keyword : String → String → Message
  is_builtin is_fn duplicate_fn duplicate_proc duplicate_const : String → Message
  builtin_list_help keyword_list_help halt_help : Message
  test_count : ℕ → Message
  never_halts : String → Message
  unterminated_comment empty_directive malformed_number : Message
  invalid_number : String → Message
  expected_line expected_operand trailing_comma expected_comma : Message
  unexpected_character : ℕ → Message

pub record Diagnostic : Type 0 where
  pub severity : Severity
  pub message : Message
  pub primary : Span
  pub labels : List (Span × Message)
  pub help : Option Message

unfoldable pub error : Span → Message → Diagnostic
error primary message = record {
  severity = error_severity;
  message = message;
  primary = primary;
  labels = [];
  help = none;
}

unfoldable pub with_label : Diagnostic → Span → Message → Diagnostic
with_label d span text = record {
  severity = d.severity;
  message = d.message;
  primary = d.primary;
  labels = d.labels ++ (span, text) ∷ [];
  help = d.help;
}

unfoldable pub with_help : Diagnostic → Message → Diagnostic
with_help d help = record {
  severity = d.severity;
  message = d.message;
  primary = d.primary;
  labels = d.labels;
  help = some help;
}
