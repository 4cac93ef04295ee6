-- ===== src/Lang/Consteval.antt =====
-- Compile-time evaluation: crates/tamal-lang/src/consteval.rs. The hash maps are lists of entries,
-- and the chain `active` has its innermost name first.
pub mod Eval
pub mod Types
pub mod Defaults
pub mod Total
pub mod Depth
use Prim.Native.String.{String}
use text.Mathlib.Text.{◌==◌ as str_eq}
use tamal.Base.{
  ℕ, zero, suc, ◌+◌, ◌/◌, ◌^◌, bit_xor, ltb, if◌then◌else◌, Bool, true, false, List, [], ◌∷◌,
  Option, none, some, Result, ok, err, length,
}
use tamal.Base.Int.{ℤ, pos, negsuc, leb_ℤ}
use tamal.Asm.Diagnostics.{
  Span, Diagnostic, error, with_help, Place, Problem, not_a_byte, found_integer, found_bytes,
  type_problem, unknown_name, expected_integer, expected_bytes, byte_range, positional_after_named,
  positional_first_help, arity_of, no_parameter, bound_twice,
}
use tamal.Lang.Ast.{Ty, byte_type, int_type, bytes_type, type_name, Param, FnDef, Expr, span_of}

pub data Value : Type 0 where
  int : ℤ → Value
  bytes : List ℕ → Value

abbrev pub Table : Type 0
Table = List (String × Value)

pub record Env : Type 0 where
  pub consts : Table
  pub locals : Table
  pub fns : List FnDef
  pub active : List String

-- `HashMap::get` and `contains_key`.
unfoldable pub get_value : Table → String → Option Value
get_value [] name = none
get_value ((n, v) ∷ table) name = if str_eq n name then some v else get_value table name

unfoldable pub contains_key : Table → String → Bool
contains_key table name = elim (get_value table name) [ none ↦ false | some _ ↦ true ]

unfoldable pub find_fn : List FnDef → String → Option FnDef
find_fn [] name = none
find_fn (f ∷ fns) name = if str_eq f.name name then some f else find_fn fns name

unfoldable pub is_listed : List String → String → Bool
is_listed [] name = false
is_listed (n ∷ names) name = if str_eq n name then true else is_listed names name

unfoldable pub new : Env
new = record { consts = []; locals = []; fns = []; active = [] }

unfoldable pub insert_const : Env → String → Value → Env
insert_const env name value = record {
  consts = (name, value) ∷ env.consts;
  locals = env.locals;
  fns = env.fns;
  active = env.active;
}

unfoldable pub has_const : Env → String → Bool
has_const env name = contains_key env.consts name

unfoldable pub get : Env → String → Option Value
get env name = elim (get_value env.locals name) [
  | some v ↦ some v
  | none ↦ get_value env.consts name
]

unfoldable pub default_scope_for : Env → String → Env
default_scope_for env callee = record {
  consts = env.consts;
  locals = [];
  fns = env.fns;
  active = callee ∷ env.active;
}

unfoldable pub child_for_call_values : Env → Table → Env
child_for_call_values env bindings = record {
  consts = env.consts;
  locals = bindings;
  fns = env.fns;
  active = env.active;
}

unfoldable pub get_fn : Env → String → Option FnDef
get_fn env name = find_fn env.fns name

-- The environment with the function, and whether it was new.
unfoldable pub define_fn : Env → FnDef → Env × Bool
define_fn env f = elim (find_fn env.fns f.name) [
  | some _ ↦ (env, false)
  | none ↦ (
    record { consts = env.consts; locals = env.locals; fns = f ∷ env.fns; active = env.active },
    true,
  )
]

unfoldable pub is_active : Env → String → Bool
is_active env name = is_listed env.active name

unfoldable pub child_for_call : Env → String → Table → Env
child_for_call env callee bindings =
    let e = child_for_call_values env bindings in
    record { consts = e.consts; locals = e.locals; fns = e.fns; active = callee ∷ e.active }

-- `a ^ b`, `(n >> 8)` and `n & 0xff` on `i64`, whose bits are the two's complement.
unfoldable pub xor_ℤ : ℤ → ℤ → ℤ
xor_ℤ (pos a) (pos b) = pos (bit_xor a b)
xor_ℤ (pos a) (negsuc b) = negsuc (bit_xor a b)
xor_ℤ (negsuc a) (pos b) = negsuc (bit_xor a b)
xor_ℤ (negsuc a) (negsuc b) = pos (bit_xor a b)

unfoldable pub shift_right : ℤ → ℕ → ℤ
shift_right (pos n) k = pos (n / 2 ^ k)
shift_right (negsuc n) k = negsuc (n / 2 ^ k)

-- `(0..=255).contains(n)` and `u8::try_from`.
abbrev pub in_byte : ℤ → Bool
in_byte (pos n) = ltb n 256
in_byte (negsuc n) = false

unfoldable pub byte_of : ℤ → Option ℕ
byte_of (pos n) = if ltb n 256 then some n else none
byte_of (negsuc n) = none

unfoldable pub check_int : Ty → ℤ → Span → Place → Result (Unit {0}) Diagnostic
check_int int_type n span what = ok tt
check_int byte_type n span what =
    if in_byte n then ok tt else err (error span (type_problem what (not_a_byte n)))
check_int bytes_type n span what =
    err (error span (type_problem what (found_integer (type_name bytes_type) n)))

unfoldable pub check_bytes : Ty → List ℕ → Span → Place → Result (Unit {0}) Diagnostic
check_bytes bytes_type b span what = ok tt
check_bytes ty b span what =
    err (error span (type_problem what (found_bytes (type_name ty) (length b))))

unfoldable pub check_type : Value → Ty → Span → Place → Result (Unit {0}) Diagnostic
check_type (int n) ty span what = check_int ty n span what
check_type (bytes b) ty span what = check_bytes ty b span what

-- `params.get(i)`, and the parameter of a name.
unfoldable pub param_at : List Param → ℕ → Option Param
param_at [] i = none
param_at (p ∷ params) zero = some p
param_at (p ∷ params) (suc i) = param_at params i

unfoldable pub param_named : List Param → String → Option Param
param_named [] name = none
param_named (p ∷ params) name = if str_eq p.name name then some p else param_named params name

-- The parameter that an argument binds, and `seen_named` after it. `given` is `args.len()`.
unfoldable pub param_for :
    String → List Param → ℕ → Option String → Span → ℕ → Bool → Result (Param × Bool) Diagnostic
param_for callee params given none span i true =
    err (with_help (error span positional_after_named) positional_first_help)
param_for callee params given none span i false = elim (param_at params i) [
  | some p ↦ ok (p, false)
  | none ↦ err (error span (arity_of callee (length params) given))
]
param_for callee params given (some name) span i seen = elim (param_named params name) [
  | some p ↦ ok (p, true)
  | none ↦ err (error span (no_parameter callee name))
]
