-- ===== src/Lang/Consteval/Eval.antt =====
-- The evaluator of crates/tamal-lang/src/consteval.rs. It is a recursion on the expression in which
-- the bodies and the defaults of functions are left to an evaluator of less depth; `eval` ties the
-- knot on the depth, and gives no answer where a function is called at depth 0.
use Prim.Native.String.{String}
use text.Mathlib.Text.{◌==◌ as str_eq}
use tamal.Base.{
  ℕ, zero, suc, if◌then◌else◌, Bool, true, false, List, [], ◌∷◌, ◌++◌, none, some, length,
}
use tamal.Base.Int.{ℤ, pos, low_bits}
use tamal.Abi.Crc8.{crc8}
use tamal.Asm.Diagnostics.{
  Span, error, with_help, body_of, argument_of, default_of, unknown_name, unknown_function,
  builtins_help, inlined_help, already_expanding, builtin_arity, builtin_named, expected_integer,
  expected_bytes, byte_range, bound_twice, missing_value,
}
use tamal.Asm.Outcome.{Outcome, done, failed, exhausted, outcome, ◌>>=◌, ◌>>◌}
use tamal.Lang.Ast.{
  BinOp, Expr, Exprs, Args, no_elems, elem, no_args, arg, args_len, span_of, Param, FnDef,
}
use tamal.Lang.Consteval.{
  Value, Table, Env, contains_key, get, default_scope_for, get_fn, is_active, child_for_call, xor_ℤ,
  shift_right, byte_of, check_type, param_for, is_listed,
}

abbrev pub builtins : List String
builtins = "crc8" ∷ "len" ∷ "lo" ∷ "hi" ∷ []

-- What `eval_int`, `eval_bytes` and `eval_byte` make of the value of `e`.
unfoldable pub as_int : Expr → Value → Outcome ℤ
as_int e (Value.int n) = done n
as_int e (Value.bytes b) = failed (error (span_of e) expected_integer)

unfoldable pub as_bytes : Expr → Value → Outcome (List ℕ)
as_bytes e (Value.bytes b) = done b
as_bytes e (Value.int n) = failed (error (span_of e) expected_bytes)

unfoldable pub as_byte : Expr → ℤ → Outcome ℕ
as_byte e n = elim (byte_of n) [
  | some b ↦ done b
  | none ↦ failed (error (span_of e) (byte_range n))
]

-- A name by itself.
unfoldable pub name_value : String → Span → Env → Outcome Value
name_value name span env = elim (get env name) [
  | some v ↦ done v
  | none ↦ failed (error span (unknown_name name))
]

-- A builtin on its argument `e`, whose value is `m`.
unfoldable pub builtin_value : String → Expr → Outcome Value → Outcome Value
builtin_value func e m =
    if str_eq func "crc8"
    then (m >>= as_bytes e >>= λ b. done (Value.int (pos (crc8 b))))
    else if str_eq func "len"
    then (m >>= as_bytes e >>= λ b. done (Value.int (pos (length b))))
    else if str_eq func "lo"
    then (m >>= as_int e >>= λ n. done (Value.int (pos (low_bits 8 n))))
    else (m >>= as_int e >>= λ n. done (Value.int (pos (low_bits 8 (shift_right n 8)))))

-- The check that a parameter is unbound, and that the argument's value has its type.
unfoldable pub bind_value : String → Param → Span → Table → Outcome Value → Outcome Table
bind_value callee p span bound m = elim (contains_key bound p.name) [
  | true ↦ failed (error span (bound_twice p.name callee))
  | false ↦ (do
    v ← m
    outcome (check_type v p.ty span (argument_of p.name callee))
    done ((p.name, v) ∷ bound))
]

-- The loop of `bind_args` over the parameters, for those that have no value yet.
unfoldable pub fill_defaults :
    (Expr → Env → Outcome Value) → String → List Param → Table → Env → Span → Outcome Table
fill_defaults rec callee [] bound scope call_span = done bound
fill_defaults rec callee (p ∷ params) bound scope call_span = elim (contains_key bound p.name) [
  | true ↦ fill_defaults rec callee params bound scope call_span
  | false ↦ elim p.default [
    | none ↦ failed (error call_span (missing_value callee p.name))
    | some default ↦ (do
      v ← rec default scope
      outcome (check_type v p.ty p.span (default_of p.name callee))
      fill_defaults rec callee params ((p.name, v) ∷ bound) scope call_span)
  ]
]

-- `eval_fn_call`, where `bindings` is what binding the arguments gives.
unfoldable pub fn_value :
    (Expr → Env → Outcome Value) → FnDef → Span → Env → (FnDef → Outcome Table) → Outcome Value
fn_value rec f span env bindings = elim (is_active env f.name) [
  | true ↦ failed (with_help (error span (already_expanding f.name)) inlined_help)
  | false ↦ (do
    bound ← bindings f
    v ← rec f.body (child_for_call env f.name bound)
    outcome (check_type v f.ret (span_of f.body) (body_of f.name))
    done v)
]

-- The last arm of `eval_call`.
unfoldable pub user_call :
    (Expr → Env → Outcome Value) → String → Span → Env → (FnDef → Outcome Table) → Outcome Value
user_call rec func span env bindings = elim (get_fn env func) [
  | some f ↦ fn_value rec f span env bindings
  | none ↦ failed (with_help (error span (unknown_function func)) builtins_help)
]

unfoldable mutual
  pub eval_with : (Expr → Env → Outcome Value) → Expr → Env → Outcome Value
  eval_with rec (Expr.int value span) env = done (Value.int value)
  eval_with rec (Expr.name name span) env = name_value name span env
  eval_with rec (Expr.bytes elems span) env =
      elems_with rec elems env >>= λ out. done (Value.bytes out)
  eval_with rec (Expr.binary BinOp.concat lhs rhs span) env = do
    a ← eval_with rec lhs env >>= as_bytes lhs
    b ← eval_with rec rhs env >>= as_bytes rhs
    done (Value.bytes (a ++ b))
  eval_with rec (Expr.binary BinOp.xor lhs rhs span) env = do
    a ← eval_with rec lhs env >>= as_int lhs
    b ← eval_with rec rhs env >>= as_int rhs
    done (Value.int (xor_ℤ a b))
  eval_with rec (Expr.call func args span) env = elim (is_listed builtins func) [
    | true ↦ builtin_with rec func args span env
    | false ↦ user_call rec func span env λ f. do
      bound ← args_with rec f.name f.params (args_len args) args env 0 false []
      fill_defaults rec f.name f.params bound (default_scope_for env f.name) span
  ]

  -- The elements of a byte string.
  pub elems_with : (Expr → Env → Outcome Value) → Exprs → Env → Outcome (List ℕ)
  elems_with rec no_elems env = done []
  elems_with rec (elem e elems) env = do
    b ← eval_with rec e env >>= as_int e >>= as_byte e
    rest ← elems_with rec elems env
    done (b ∷ rest)

  -- A builtin, with the checks of `builtin_arg`.
  pub builtin_with : (Expr → Env → Outcome Value) → String → Args → Span → Env → Outcome Value
  builtin_with rec func no_args span env = failed (error span (builtin_arity func 0))
  builtin_with rec func (arg none e s no_args) span env = builtin_value func e (eval_with rec e env)
  builtin_with rec func (arg (some name) e s no_args) span env =
      failed (error s (builtin_named func name))
  builtin_with rec func (arg key e s (arg key' e' s' more)) span env =
      failed (error span (builtin_arity func (suc (suc (args_len more)))))

  -- The loop of `bind_args` over the arguments, from the `i`th on.
  pub args_with :
      (Expr → Env → Outcome Value)
      → String
      → List Param
      → ℕ
      → Args
      → Env
      → ℕ
      → Bool
      → Table
      → Outcome Table
  args_with rec callee params given no_args env i seen bound = done bound
  args_with rec callee params given (arg key e span args) env i seen bound = do
    (p, seen') ← outcome (param_for callee params given key span i seen)
    bound' ← bind_value callee p span bound (eval_with rec e env)
    args_with rec callee params given args env (suc i) seen' bound'

-- At depth 0 there is no evaluator to leave a function to.
unfoldable pub eval : ℕ → Expr → Env → Outcome Value
eval zero e env = eval_with (λ _ _. exhausted) e env
eval (suc depth) e env = eval_with (eval depth) e env

unfoldable pub eval_int : ℕ → Expr → Env → Outcome ℤ
eval_int depth e env = eval depth e env >>= as_int e

unfoldable pub eval_bytes : ℕ → Expr → Env → Outcome (List ℕ)
eval_bytes depth e env = eval depth e env >>= as_bytes e

unfoldable pub eval_byte : ℕ → Expr → Env → Outcome ℕ
eval_byte depth e env = eval_int depth e env >>= as_byte e

unfoldable pub bind_args : ℕ → String → List Param → Args → Env → Span → Outcome Table
bind_args depth callee params args env call_span = do
  bound ← args_with (eval depth) callee params (args_len args) args env 0 false []
  fill_defaults (eval depth) callee params bound (default_scope_for env callee) call_span
