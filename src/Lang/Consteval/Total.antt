-- ===== src/Lang/Consteval/Total.antt =====
-- One level of evaluation, over an evaluator for the functions that can be called.
use Prim.Native.String.{String}
use text.Mathlib.Text.{◌==◌ as str_eq}
use tamal.Base.{
  ℕ, suc, Bool, true, false, Bool-cases, List, [], Option, none, some, All, All-append, ◌≡◌, refl,
  inl, inr,
}
use tamal.Asm.Diagnostics.{Span, body_of}
use tamal.Asm.Outcome.{Outcome, ◌>>=◌, Yields, yields, fails, Yields-bind, Yields-map}
use tamal.Lang.Ast.{
  BinOp, Expr, Exprs, Args, no_elems, elem, no_args, arg, args_len, span_of, Param, FnDef,
}
use tamal.Lang.Consteval.{
  Value, Table, Env, get, get_fn, find_fn, is_active, is_listed, default_scope_for, child_for_call,
  child_for_call_values,
}
use tamal.Lang.Consteval.Eval.{
  builtins, as_int, as_bytes, name_value, builtin_value, fn_value, user_call, eval_with, elems_with,
  builtin_with, args_with,
}
use tamal.Lang.Consteval.Types.{
  IsByte, IsValue, an_int, a_string, HasType, AreValues, AreBindings, AreBindings-AreValues,
  as_int-Yields, as_bytes-Yields, as_byte-Yields, param_for-Among, bind_value-AreBindings,
  check_type-HasType,
}
use tamal.Lang.Consteval.Defaults.{Evaluator, IsEnv, get-IsValue, fill_defaults-Filled}

-- The evaluator has an answer for the functions that can be called from an environment.
abbrev pub Ready : Evaluator → Env → Type 0
Ready rec env =
    (name : String) (f : FnDef) (e : Expr) (locals : Table)
    → find_fn env.fns name ≡ some f
    → is_active env f.name ≡ false
    → AreValues locals
    → Yields IsValue (rec e (child_for_call env f.name locals))

builtin_value-IsValue :
    (func : String) (e : Expr) {m : Outcome Value}
    → Yields IsValue m
    → Yields IsValue (builtin_value func e m)
unfolding builtin_value
builtin_value-IsValue func e {m} h = elim (Bool-cases (str_eq func "crc8")) [
  | inl t ↦ rw t (Yields-bind of_bytes λ _ _. yields an_int)
  | inr t ↦ rw t (elim (Bool-cases (str_eq func "len")) [
    | inl u ↦ rw u (Yields-bind of_bytes λ _ _. yields an_int)
    | inr u ↦ rw u (elim (Bool-cases (str_eq func "lo")) [
      | inl w ↦ rw w (Yields-bind of_int λ _ _. yields an_int)
      | inr w ↦ rw w (Yields-bind of_int λ _ _. yields an_int)
    ])
  ])
]
  where
    of_bytes : Yields (All IsByte) (m >>= as_bytes e)
    of_bytes = Yields-bind h λ _ v. as_bytes-Yields e v

    of_int : Yields (λ _. Unit {0}) (m >>= as_int e)
    of_int = Yields-bind h λ _ v. as_int-Yields e v

-- A call: of a function that is known, not being expanded, and given arguments of its types.
pub fn_value-HasType :
    (rec : Evaluator) (env : Env) (name : String) (f : FnDef) (span : Span)
    (bindings : FnDef → Outcome Table)
    → Ready rec env
    → find_fn env.fns name ≡ some f
    → (is_active env f.name ≡ false → Yields (AreBindings f.params) (bindings f))
    → Yields (λ v. IsValue v × HasType f.ret v) (fn_value rec f span env bindings)
unfolding fn_value
fn_value-HasType rec env name f span bindings ready known bound =
    elim (Bool-cases (is_active env f.name)) [
      | inl e ↦ rw (e, fn_value) fails
      | inr e ↦
          rw (e, fn_value)
            (Yields-bind (bound e) λ table h.
              Yields-bind
                (ready name f f.body table known e (AreBindings-AreValues f.params table h))
                λ v q.
                  Yields-bind (check_type-HasType v f.ret (span_of f.body) (body_of f.name))
                    λ _ typed. yields (q, typed))
    ]

user_call-IsValue :
    (rec : Evaluator) (func : String) (span : Span) (env : Env) (bindings : FnDef → Outcome Table)
    → Ready rec env
    → ((f : FnDef)
        → find_fn env.fns func ≡ some f
        → is_active env f.name ≡ false
        → Yields (AreBindings f.params) (bindings f))
    → Yields IsValue (user_call rec func span env bindings)
unfolding user_call get_fn
user_call-IsValue rec func span env bindings ready bound = at (find_fn env.fns func) refl
  where
    at :
        (r : Option FnDef)
        → find_fn env.fns func ≡ r
        → Yields IsValue (user_call rec func span env bindings)
    at none e = rw (e, user_call) fails
    at (some f) e =
        rw (e, user_call)
          (Yields-map (λ v h. h.0)
            (fn_value-HasType rec env func f span bindings ready e (bound f e)))

name_value-IsValue :
    (name : String) (span : Span) (env : Env)
    → IsEnv env
    → Yields IsValue (name_value name span env)
unfolding name_value
name_value-IsValue name span env h = at (get env name) refl
  where
    at : (r : Option Value) → get env name ≡ r → Yields IsValue (name_value name span env)
    at none e = rw (e, name_value) fails
    at (some v) e = rw (e, name_value) (yields (get-IsValue env name h e))

either_arm :
    (b : Bool) {m k : Outcome Value}
    → Yields IsValue m
    → Yields IsValue k
    → Yields IsValue (elim b as (λ _. Outcome Value) [ true ↦ m | false ↦ k ])
either_arm true p q = p
either_arm false p q = q

mutual
  unfolding eval_with default_scope_for child_for_call child_for_call_values

  pub eval_with-IsValue :
      (rec : Evaluator) (e : Expr) (env : Env)
      → Ready rec env
      → IsEnv env
      → Yields IsValue (eval_with rec e env)
  eval_with-IsValue rec (Expr.int value span) env ready h = yields an_int
  eval_with-IsValue rec (Expr.name name span) env ready h = name_value-IsValue name span env h
  eval_with-IsValue rec (Expr.bytes elems span) env ready h =
      Yields-bind (elems_with-IsByte rec elems env ready h) λ out q. yields (a_string q)
  eval_with-IsValue rec (Expr.binary BinOp.concat lhs rhs span) env ready h =
      Yields-bind (Yields-bind (eval_with-IsValue rec lhs env ready h) λ _ v. as_bytes-Yields lhs v)
        λ a p.
          Yields-bind
            (Yields-bind (eval_with-IsValue rec rhs env ready h) λ _ v. as_bytes-Yields rhs v)
            λ b q. yields (a_string (All-append IsByte a b p q))
  eval_with-IsValue rec (Expr.binary BinOp.xor lhs rhs span) env ready h =
      Yields-bind (Yields-bind (eval_with-IsValue rec lhs env ready h) λ _ v. as_int-Yields lhs v)
        λ a p.
          Yields-bind
            (Yields-bind (eval_with-IsValue rec rhs env ready h) λ _ v. as_int-Yields rhs v)
            λ b q. yields an_int
  eval_with-IsValue rec (Expr.call func args span) env ready h =
      either_arm (is_listed builtins func) (builtin_with-IsValue rec func args span env ready h) (
        user_call-IsValue rec func span env _ ready λ f known idle.
          Yields-bind
            (args_with-AreBindings rec f.name f.params (args_len args) args env 0 false [] ready h
              tt)
            λ bound b.
              Yields-map (λ t filled. filled.typed)
                (fill_defaults-Filled rec f.name f.params f.params bound
                  (default_scope_for env f.name) span (λ e. ready func f e [] known idle tt)
                  (λ p m. m) b))

  elems_with-IsByte :
      (rec : Evaluator) (elems : Exprs) (env : Env)
      → Ready rec env
      → IsEnv env
      → Yields (All IsByte) (elems_with rec elems env)
  elems_with-IsByte rec no_elems env ready h = yields tt
  elems_with-IsByte rec (elem e elems) env ready h =
      Yields-bind
        (Yields-bind (Yields-bind (eval_with-IsValue rec e env ready h) λ _ v. as_int-Yields e v)
          λ n _. as_byte-Yields e n)
        λ b p. Yields-bind (elems_with-IsByte rec elems env ready h) λ rest q. yields (p, q)

  builtin_with-IsValue :
      (rec : Evaluator) (func : String) (args : Args) (span : Span) (env : Env)
      → Ready rec env
      → IsEnv env
      → Yields IsValue (builtin_with rec func args span env)
  builtin_with-IsValue rec func no_args span env ready h = fails
  builtin_with-IsValue rec func (arg none e s no_args) span env ready h =
      builtin_value-IsValue func e (eval_with-IsValue rec e env ready h)
  builtin_with-IsValue rec func (arg (some name) e s no_args) span env ready h = fails
  builtin_with-IsValue rec func (arg none e s (arg key' e' s' more)) span env ready h = fails
  builtin_with-IsValue rec func (arg (some name) e s (arg key' e' s' more)) span env ready h = fails

  pub args_with-AreBindings :
      (rec : Evaluator) (callee : String) (params : List Param) (given : ℕ) (args : Args)
      (env : Env) (i : ℕ) (seen : Bool) (bound : Table)
      → Ready rec env
      → IsEnv env
      → AreBindings params bound
      → Yields (AreBindings params) (args_with rec callee params given args env i seen bound)
  args_with-AreBindings rec callee params given no_args env i seen bound ready h b = yields b
  args_with-AreBindings rec callee params given (arg key e span args) env i seen bound ready h b =
      Yields-bind (param_for-Among callee params given key span i seen) λ r among.
        Yields-bind
          (bind_value-AreBindings callee r.0 span bound among (eval_with-IsValue rec e env ready h)
            b)
          λ bound' b'.
            args_with-AreBindings rec callee params given args env (suc i) r.1 bound' ready h b'
