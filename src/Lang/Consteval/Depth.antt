-- ===== src/Lang/Consteval/Depth.antt =====
-- The depth that evaluation needs: one level for each function that is not being expanded.
use Prim.Native.String.{String}
use text.Mathlib.Text.{◌==◌ as str_eq}
use text.Mathlib.TextEquality.{eq_iff}
use tamal.Base.{
  ℕ, zero, suc, ◌+◌, ◌<◌, ◌≤◌, if◌then◌else◌, Bool, true, false, Bool-cases, List, [], ◌∷◌, some,
  ◌≡◌, inl, inr, arith, length,
}
use tamal.Asm.Diagnostics.{Span}
use tamal.Asm.Outcome.{Outcome, exhausted, Yields, Yields-bind, Yields-map}
use tamal.Lang.Ast.{Expr, Args, args_len, Param, FnDef}
use tamal.Lang.Consteval.{
  Value, Table, Env, get_fn, find_fn, is_active, is_listed, default_scope_for, child_for_call,
  child_for_call_values,
}
use tamal.Lang.Consteval.Eval.{builtins, user_call, eval_with, eval, bind_args}
use tamal.Lang.Consteval.Types.{IsValue, HasType, AreValues, AreBindings}
use tamal.Lang.Consteval.Defaults.{Evaluator, IsEnv, Binds, fill_defaults-Filled}
use tamal.Lang.Consteval.Total.{Ready, fn_value-HasType, eval_with-IsValue, args_with-AreBindings}

-- How many of the functions are not being expanded.
unfoldable pub idle_fns : List String → List FnDef → ℕ
idle_fns active [] = 0
idle_fns active (f ∷ fns) = (if is_listed active f.name then 0 else 1) + idle_fns active fns

abbrev pub idle : Env → ℕ
idle env = idle_fns env.active env.fns

idle_fns-cons-le :
    (active : List String) (name : String) (fns : List FnDef)
    → idle_fns (name ∷ active) fns ≤ idle_fns active fns
unfolding idle_fns is_listed
idle_fns-cons-le active name [] = omega arith
idle_fns-cons-le active name (f ∷ fns) = ground (arith, idle_fns-cons-le active name fns)

-- A function that is found and idle is one less once it is being expanded.
idle_fns-cons-lt :
    (active : List String) (name : String) (fns : List FnDef) {f : FnDef}
    → find_fn fns name ≡ some f
    → is_listed active f.name ≡ false
    → idle_fns (f.name ∷ active) fns < idle_fns active fns
unfolding idle_fns is_listed find_fn
idle_fns-cons-lt active name [] known free = cc
idle_fns-cons-lt active name (g ∷ fns) {f} known free = elim (Bool-cases (str_eq g.name name)) [
  | inl e ↦ here (rw e at known)
  | inr e ↦
      ground (arith, idle_fns-cons-lt active name fns (rw e at known) free, eq_iff f.name g.name)
]
  where
    here : some g ≡ some f → idle_fns (f.name ∷ active) (g ∷ fns) < idle_fns active (g ∷ fns)
    here e = ground (arith, idle_fns-cons-le active f.name fns, eq_iff f.name g.name)

child-IsEnv :
    (env : Env) (callee : String) (locals : Table)
    → IsEnv env
    → AreValues locals
    → IsEnv (child_for_call env callee locals)
unfolding child_for_call child_for_call_values
child-IsEnv env callee locals h b = record { consts_ok = h.consts_ok; locals_ok = b }

child-idle :
    (env : Env) (name : String) (f : FnDef) (locals : Table)
    → find_fn env.fns name ≡ some f
    → is_active env f.name ≡ false
    → idle (child_for_call env f.name locals) < idle env
unfolding child_for_call child_for_call_values is_active
child-idle env name f locals known free = idle_fns-cons-lt env.active name env.fns known free

-- With a level for each idle function, every expression has an answer, and byte strings hold bytes.
pub eval-IsValue :
    (depth : ℕ) (e : Expr) (env : Env)
    → idle env ≤ depth
    → IsEnv env
    → Yields IsValue (eval depth e env)
unfolding eval
eval-IsValue zero e env enough h =
    eval_with-IsValue (λ _ _. exhausted) e env
      (λ name f body locals known free b.
        absurd (omega (arith, child-idle env name f locals known free)))
      h
eval-IsValue (suc depth) e env enough h =
    eval_with-IsValue (eval depth) e env
      (λ name f body locals known free b.
        eval-IsValue depth body (child_for_call env f.name locals)
          (omega (arith, child-idle env name f locals known free))
          (child-IsEnv env f.name locals h b))
      h

Ready-eval : (depth : ℕ) (env : Env) → idle env ≤ suc depth → IsEnv env → Ready (eval depth) env
Ready-eval depth env enough h name f body locals known free b =
    eval-IsValue depth body (child_for_call env f.name locals)
      (omega (arith, child-idle env name f locals known free)) (child-IsEnv env f.name locals h b)

-- The arguments and the defaults of a call give each parameter a value of its type and nothing else,
-- or the call is refused.
pub bind_args-Binds :
    (depth : ℕ) (callee : String) (params : List Param) (args : Args) (env : Env) (span : Span)
    → idle env ≤ depth
    → IsEnv env
    → Yields (Binds params) (bind_args depth callee params args env span)
unfolding bind_args default_scope_for child_for_call child_for_call_values
bind_args-Binds depth callee params args env span enough h =
    Yields-bind
      (args_with-AreBindings (eval depth) callee params (args_len args) args env 0 false []
        (Ready-eval depth env (omega arith) h) h tt)
      λ bound b.
        Yields-map (λ t f. record { typed = f.typed; complete = f.filled })
          (fill_defaults-Filled (eval depth) callee params params bound
            (default_scope_for env callee) span
            (λ e.
              eval-IsValue depth e (default_scope_for env callee)
                (omega (arith, idle_fns-cons-le env.active callee env.fns))
                (child-IsEnv env callee [] h tt))
            (λ p m. m) b)

user_call-HasType :
    (rec : Evaluator) (func : String) (span : Span) (env : Env) (f : FnDef)
    (bindings : FnDef → Outcome Table)
    → Ready rec env
    → find_fn env.fns func ≡ some f
    → (is_active env f.name ≡ false → Yields (AreBindings f.params) (bindings f))
    → Yields (HasType f.ret) (user_call rec func span env bindings)
unfolding user_call get_fn
user_call-HasType rec func span env f bindings ready known bound =
    rw (known, user_call)
      (Yields-map (λ v h. h.1) (fn_value-HasType rec env func f span bindings ready known bound))

right_arm :
    {P : Value → Type 0} (b : Bool) (m k : Outcome Value)
    → b ≡ false
    → Yields P k
    → Yields P (elim b as (λ _. Outcome Value) [ true ↦ m | false ↦ k ])
right_arm true m k e q = cc
right_arm false m k e q = q

call-HasType :
    (rec : Evaluator) (func : String) (args : Args) (span : Span) (env : Env) (f : FnDef)
    → Ready rec env
    → IsEnv env
    → is_listed builtins func ≡ false
    → find_fn env.fns func ≡ some f
    → Yields (HasType f.ret) (eval_with rec (Expr.call func args span) env)
unfolding eval_with default_scope_for child_for_call child_for_call_values
call-HasType rec func args span env f ready h other known =
    right_arm (is_listed builtins func) _ _ other (
      user_call-HasType rec func span env f _ ready known λ free.
        Yields-bind
          (args_with-AreBindings rec f.name f.params (args_len args) args env 0 false [] ready h tt)
          λ bound b.
            Yields-map (λ t filled. filled.typed)
              (fill_defaults-Filled rec f.name f.params f.params bound
                (default_scope_for env f.name) span (λ e. ready func f e [] known free tt)
                (λ p m. m) b))

-- A call of a function has an answer: a value of the declared type of the result, or an error.
pub eval-HasType :
    (depth : ℕ) (func : String) (args : Args) (span : Span) (env : Env) (f : FnDef)
    → idle env ≤ depth
    → IsEnv env
    → is_listed builtins func ≡ false
    → get_fn env func ≡ some f
    → Yields (HasType f.ret) (eval depth (Expr.call func args span) env)
unfolding eval get_fn
eval-HasType zero func args span env f enough h other known =
    call-HasType (λ _ _. exhausted) func args span env f
      (λ name g body locals known' free b.
        absurd (omega (arith, child-idle env name g locals known' free)))
      h other known
eval-HasType (suc depth) func args span env f enough h other known =
    call-HasType (eval depth) func args span env f (Ready-eval depth env enough h) h other known

-- A level for each function of the module is enough, whatever is being expanded.
pub idle-le-length : (env : Env) → idle env ≤ length env.fns
unfolding idle_fns
idle-le-length env = on env.fns
  where
    on : (fns : List FnDef) → idle_fns env.active fns ≤ length fns
    on [] = omega arith
    on (f ∷ fns) = ground (arith, on fns)
