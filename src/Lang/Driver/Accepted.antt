-- ===== src/Lang/Driver/Accepted.antt =====
-- What `lower` gives for every module, and what it accepts.
use Prim.Native.String.{String}
use text.Mathlib.Text.{◌==◌ as str_eq}
use text.Mathlib.TextEquality.{eq_iff}
use tamal.Base.{
  true, false, Bool-cases, inl, inr, List, [], ◌∷◌, Option, none, some, All, ◌≡◌, refl, subst,
}
use tamal.Asm.Diagnostics.{Span, error, is_fn, duplicate_proc}
use tamal.Asm.Outcome.{Outcome, done, failed, Yields, yields, fails, Yields-bind, Yields-map}
use tamal.Lang.Ast.{stmt_keywords, FnDef, ProcDef}
use tamal.Lang.Consteval.{Env, is_listed, find_fn, define_fn, get_fn}
use tamal.Lang.Consteval.Eval.{builtins}
use tamal.Lang.Consteval.Defaults.{IsEnv}
use tamal.Lang.Driver.{check_callable_name, defined, install_fns, check_proc, check_procs}

-- A name that a `fn` or a `proc` may have.
pub record IsCallable (name : String) : Type 0 where
  pub not_builtin : is_listed builtins name ≡ false
  pub not_keyword : is_listed stmt_keywords name ≡ false

check_callable_name-IsCallable :
    (name : String) (span : Span) (kind : String)
    → Yields (λ _. IsCallable name) (check_callable_name name span kind)
unfolding check_callable_name
check_callable_name-IsCallable name span kind = elim (Bool-cases (is_listed builtins name)) [
  | inl e ↦ rw (e, check_callable_name) fails
  | inr e ↦ elim (Bool-cases (is_listed stmt_keywords name)) [
    | inl f ↦ rw (e, f, check_callable_name) fails
    | inr f ↦ rw (e, f, check_callable_name) (yields (record { not_builtin = e; not_keyword = f }))
  ]
]

define_fn_new :
    (f : FnDef) (env : Env)
    → find_fn env.fns f.name ≡ none
    → define_fn env f ≡ (record env { fns = f ∷ env.fns }, true)
unfolding define_fn
define_fn_new f env e = rw (e, define_fn) refl

define_fn_old :
    (f g : FnDef) (env : Env) → find_fn env.fns f.name ≡ some g → define_fn env f ≡ (env, false)
unfolding define_fn
define_fn_old f g env e = rw (e, define_fn) refl

-- An environment to which functions were added, with nothing else changed.
pub record Extends (env : Env) (fns : List FnDef) (env' : Env) : Type 0 where
  pub env_ok : IsEnv env'
  pub old :
      (name : String) (g : FnDef) → find_fn env.fns name ≡ some g → find_fn env'.fns name ≡ some g
  pub found : All (λ (f : FnDef). IsCallable f.name × (find_fn env'.fns f.name ≡ some f)) fns

find_fn-cons :
    (f : FnDef) (fns : List FnDef) (name : String) (g : FnDef)
    → find_fn fns f.name ≡ none
    → find_fn fns name ≡ some g
    → find_fn (f ∷ fns) name ≡ some g
unfolding find_fn
find_fn-cons f fns name g new old = elim (Bool-cases (str_eq f.name name)) [
  | inl e ↦
      absurd (clash (subst (λ (n : String). find_fn fns n ≡ none) ((eq_iff f.name name).0 e) new))
  | inr e ↦ rw e old
]
  where
    clash : find_fn fns name ≡ none → ⊥
    clash n = cc

find_fn_self : (f : FnDef) (fns : List FnDef) → find_fn (f ∷ fns) f.name ≡ some f
unfolding find_fn
find_fn_self f fns = rw ((eq_iff f.name f.name).1 refl) refl

define_fn-Extends :
    (f : FnDef) (env : Env)
    → IsCallable f.name
    → IsEnv env
    → Yields (Extends env (f ∷ [])) (defined f (define_fn env f))
unfolding defined
define_fn-Extends f env c h = at (find_fn env.fns f.name) refl
  where
    at :
        (r : Option FnDef)
        → find_fn env.fns f.name ≡ r
        → Yields (Extends env (f ∷ [])) (defined f (define_fn env f))
    at (some g) e = rw (define_fn_old f g env e) fails
    at none e = rw (define_fn_new f env e) (
        yields (record {
          env_ok = record { consts_ok = h.consts_ok; locals_ok = h.locals_ok };
          old = λ name g known. find_fn-cons f env.fns name g e known;
          found = ((c, find_fn_self f env.fns), tt);
        }))

pub install_fns-Extends :
    (fns : List FnDef) (env : Env) → IsEnv env → Yields (Extends env fns) (install_fns fns env)
unfolding install_fns
install_fns-Extends [] env h =
    yields (record { env_ok = h; old = λ name g known. known; found = tt })
install_fns-Extends (f ∷ fns) env h =
    Yields-bind (check_callable_name-IsCallable f.name f.name_span "fn") λ _ c.
      Yields-bind (define_fn-Extends f env c h) λ env₁ x.
        Yields-map
          (λ env₂ y. record {
            env_ok = y.env_ok;
            old = λ name g known. y.old name g (x.old name g known);
            found = ((x.found.0.0, y.old f.name f x.found.0.1), y.found);
          })
          (install_fns-Extends fns env₁ x.env_ok)

-- A `proc` that may be called, and is reached by its name.
abbrev pub IsProc : Env → ProcDef → Type 0
IsProc env p = IsCallable p.name × (get_fn env p.name ≡ none)

check_proc-IsProc :
    (earlier : List String) (env : Env) (p : ProcDef)
    → Yields (λ _. IsProc env p × (is_listed earlier p.name ≡ false)) (check_proc earlier env p)
unfolding check_proc
check_proc-IsProc earlier env p =
    Yields-bind (check_callable_name-IsCallable p.name p.name_span "proc")
      λ _ c. at c (get_fn env p.name) refl
  where
    at :
        IsCallable p.name
        → (r : Option FnDef) → get_fn env p.name ≡ r
        → Yields
            (λ (_ : Unit {0}). IsProc env p × (is_listed earlier p.name ≡ false))
            (elim (get_fn env p.name) as (λ _. Outcome (Unit {0})) [
              | some _ ↦ failed (error p.name_span (is_fn p.name))
              | none ↦ elim (is_listed earlier p.name) [
                | true ↦ failed (error p.name_span (duplicate_proc p.name))
                | false ↦ done tt
              ]
            ])
    at c (some f) e = rw e fails
    at c none e = elim (Bool-cases (is_listed earlier p.name)) [
      | inl d ↦ rw (e, d) fails
      | inr d ↦ rw (e, d) (yields ((c, refl), refl))
    ]

-- No name of the list is among the earlier ones or comes twice.
abbrev pub AreNew : List String → List ProcDef → Type 0
AreNew earlier [] = Unit {0}
AreNew earlier (p ∷ procs) = (is_listed earlier p.name ≡ false) × AreNew (p.name ∷ earlier) procs

pub check_procs-IsProc :
    (earlier : List String) (env : Env) (procs : List ProcDef)
    → Yields (λ _. All (IsProc env) procs × AreNew earlier procs) (check_procs earlier env procs)
unfolding check_procs
check_procs-IsProc earlier env [] = yields (tt, tt)
check_procs-IsProc earlier env (p ∷ procs) = Yields-bind (check_proc-IsProc earlier env p) λ _ c.
    Yields-map (λ _ r. ((c.0, r.0), (c.1, r.1))) (check_procs-IsProc (p.name ∷ earlier) env procs)
