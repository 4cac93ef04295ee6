-- ===== src/Lang/Driver/Total.antt =====
-- The constants, the test and the whole of `lower`.
use tamal.Base.{true, Bool-cases, inl, inr, List, [], ◌∷◌, none, some, All, ◌≡◌, refl, arith, ◌∙◌}
use tamal.Asm.Diagnostics.{Span}
use tamal.Asm.Outcome.{Yields, yields, fails, Yields-bind, Yields-map}
use tamal.Lang.Ast.{Const, FnDef, ProcDef, Test, Module}
use tamal.Lang.Consteval
use tamal.Lang.Consteval.{
  Value, Env, is_listed, find_fn, define_fn, get_fn, has_const, insert_const,
}
use tamal.Lang.Consteval.Defaults.{IsEnv}
use tamal.Lang.Consteval.Depth.{eval-IsValue, idle-le-length}
use tamal.Lang.Emit.{AsmLine}
use tamal.Lang.Emit.Lower.{eval_depth}
use tamal.Lang.Emit.Whole.{IsDisciplined, emit-IsDisciplined}
use tamal.Lang.Driver.{resolve_const, resolve_consts, halts, check_tests, lower}
use tamal.Lang.Driver.Accepted.{IsCallable, install_fns-Extends, AreNew, check_procs-IsProc}

-- The constants add values, and leave the functions.
record Resolved (env env' : Env) : Type 0 where
  env_ok : IsEnv env'
  fns_same : env'.fns ≡ env.fns

resolve_const-Resolved :
    (env : Env) (c : Const) → IsEnv env → Yields (Resolved env) (resolve_const env c)
unfolding resolve_const insert_const
resolve_const-Resolved env c h = elim (Bool-cases (has_const env c.name)) [
  | inl e ↦ rw (e, resolve_const) fails
  | inr e ↦
      rw (e, resolve_const)
        (Yields-bind
          (eval-IsValue (eval_depth env) c.value env (omega (arith, idle-le-length env)) h)
          λ v q. yields (record {
            env_ok = record { consts_ok = (q, h.consts_ok); locals_ok = h.locals_ok };
            fns_same = refl;
          }))
]

resolve_consts-Resolved :
    (consts : List Const) (env : Env)
    → IsEnv env
    → Yields (Resolved env) (resolve_consts consts env)
unfolding resolve_consts
resolve_consts-Resolved [] env h = yields (record { env_ok = h; fns_same = refl })
resolve_consts-Resolved (c ∷ consts) env h = Yields-bind (resolve_const-Resolved env c h) λ env₁ x.
    Yields-map (λ env₂ y. record { env_ok = y.env_ok; fns_same = y.fns_same ∙ x.fns_same })
      (resolve_consts-Resolved consts env₁ x.env_ok)

-- One test, with a halt at its top level.
abbrev pub IsRunnable : List Test → Type 0
IsRunnable tests = (test : Test) × (tests ≡ test ∷ []) × (halts test.stmts ≡ true)

check_tests-IsRunnable : (tests : List Test) → Yields (λ _. IsRunnable tests) (check_tests tests)
unfolding check_tests
check_tests-IsRunnable [] = fails
check_tests-IsRunnable (a ∷ []) = elim (Bool-cases (halts a.stmts)) [
  | inl e ↦ rw (e, check_tests) (yields (a, refl, e))
  | inr e ↦ rw (e, check_tests) fails
]
check_tests-IsRunnable (a ∷ b ∷ tests) = fails

-- An accepted module: every `fn` is reached by its name, and no `proc` has the name of a `fn`, of a
-- builtin, of a keyword or of another `proc`; there is one test, and the lines are disciplined.
pub record IsAccepted (module_ : Module) (lines : List (AsmLine × Span)) : Type 0 where
  pub env : Env
  pub fns_found : All (λ (f : FnDef). IsCallable f.name × (get_fn env f.name ≡ some f)) module_.fns
  pub procs_callable :
      All (λ (p : ProcDef). IsCallable p.name × (get_fn env p.name ≡ none)) module_.procs
  pub procs_new : AreNew [] module_.procs
  pub runnable : IsRunnable module_.tests
  pub disciplined : IsDisciplined lines

new-IsEnv : IsEnv Consteval.new
unfolding Consteval.new
new-IsEnv = record { consts_ok = tt; locals_ok = tt }

-- `lower` ends on every module: with an error, or with lines for an accepted module.
pub lower-IsAccepted : (module_ : Module) → Yields (IsAccepted module_) (lower module_)
unfolding lower get_fn
lower-IsAccepted module_ =
    Yields-bind (install_fns-Extends module_.fns Consteval.new new-IsEnv) λ env x.
      Yields-bind (check_procs-IsProc [] env module_.procs) λ _ p.
        Yields-bind (resolve_consts-Resolved module_.consts env x.env_ok) λ env' r.
          Yields-bind (check_tests-IsRunnable module_.tests) λ _ t.
            Yields-map
              (λ lines d. record {
                env = env;
                fns_found = x.found;
                procs_callable = p.0;
                procs_new = p.1;
                runnable = t;
                disciplined = d;
              })
              (emit-IsDisciplined module_ env' r.env_ok)
