-- ===== src/Lang/Consteval/Defaults.antt =====
-- The parameters that no argument binds, and tables with a value for every parameter.
use Prim.Native.String.{String}
use text.Mathlib.Text.{◌==◌ as str_eq}
use text.Mathlib.TextEquality.{eq_iff}
use tamal.Base.{
  if◌then◌else◌, true, Bool-cases, List, [], ◌∷◌, Option, none, some, All, ◌≡◌, ◌∙◌, refl, inl, inr,
  arith,
}
use tamal.Asm.Diagnostics.{Span, error, default_of, missing_value}
use tamal.Asm.Outcome.{
  Outcome, failed, outcome, ◌>>=◌, ◌>>◌, Yields, yields, fails, Yields-bind, Yields-map,
}
use tamal.Lang.Ast.{Expr, Param}
use tamal.Lang.Consteval.{Value, Table, Env, get_value, contains_key, get, check_type}
use tamal.Lang.Consteval.Eval.{fill_defaults}
use tamal.Lang.Consteval.Types.{
  IsValue, AreValues, get_value-IsValue, Among, first, later, AreBindings, check_type-HasType,
}

abbrev pub Evaluator : Type 0
Evaluator = Expr → Env → Outcome Value

-- The byte strings of an environment hold bytes.
pub record IsEnv (env : Env) : Type 0 where
  pub consts_ok : AreValues env.consts
  pub locals_ok : AreValues env.locals

pub get-IsValue :
    (env : Env) (name : String) {v : Value} → IsEnv env → get env name ≡ some v → IsValue v
unfolding get
get-IsValue env name {v} h e = at (get_value env.locals name) refl
  where
    at : (r : Option Value) → get_value env.locals name ≡ r → IsValue v
    at none q = get_value-IsValue env.consts name h.consts_ok (rw (q, get) at e)
    at (some w) q = get_value-IsValue env.locals name h.locals_ok (q ∙ rw (q, get) at e)

-- Every parameter has an entry.
abbrev pub AreBound : Table → List Param → Type 0
AreBound table params = All (λ (p : Param). contains_key table p.name ≡ true) params

-- A table that gives each parameter a value of its type, and nothing else.
pub record Binds (params : List Param) (table : Table) : Type 0 where
  pub typed : AreBindings params table
  pub complete : AreBound table params

-- What a table has, a longer one has.
abbrev pub Keeps : Table → Table → Type 0
Keeps table longer =
    (name : String) → contains_key table name ≡ true → contains_key longer name ≡ true

contains_key-cons :
    (table : Table) (key name : String) (v : Value)
    → contains_key ((key, v) ∷ table) name
      ≡ (if str_eq key name then true else contains_key table name)
unfolding contains_key get_value
contains_key-cons table key name v = ground arith

contains_key_self :
    (table : Table) (key : String) (v : Value) → contains_key ((key, v) ∷ table) key ≡ true
contains_key_self table key v = ground (arith, contains_key-cons table key key v, eq_iff key key)

cons-Keeps : (table : Table) (key : String) (v : Value) → Keeps table ((key, v) ∷ table)
cons-Keeps table key v name h = ground (arith, contains_key-cons table key name v)

-- The table after the defaults: typed, with an entry for each of the parameters and of the old keys.
pub record Filled (params rest : List Param) (bound table : Table) : Type 0 where
  pub typed : AreBindings params table
  pub filled : AreBound table rest
  pub kept : Keeps bound table

pub fill_defaults-Filled :
    (rec : Evaluator) (callee : String) (params rest : List Param) (bound : Table) (scope : Env)
    (span : Span)
    → ((e : Expr) → Yields IsValue (rec e scope))
    → ((p : Param) → Among p rest → Among p params)
    → AreBindings params bound
    → Yields (Filled params rest bound) (fill_defaults rec callee rest bound scope span)
unfolding fill_defaults
fill_defaults-Filled rec callee params [] bound scope span ready sub h =
    yields (record { typed = h; filled = tt; kept = λ name q. q })
fill_defaults-Filled rec callee params (p ∷ rest) bound scope span ready sub h =
    elim (Bool-cases (contains_key bound p.name)) [
      | inl e ↦
          rw (e, fill_defaults)
            (Yields-map
              (λ table f. record {
                typed = f.typed;
                filled = (f.kept p.name e, f.filled);
                kept = f.kept;
              })
              (fill_defaults-Filled rec callee params rest bound scope span ready
                (λ q m. sub q (later m)) h))
      | inr e ↦
          rw (e, fill_defaults)
            (from_default
              (λ v b.
                fill_defaults-Filled rec callee params rest ((p.name, v) ∷ bound) scope span ready
                  (λ q m. sub q (later m)) b)
              p.default)
    ]
  where
    from_default :
        ((v : Value)
          → AreBindings params ((p.name, v) ∷ bound)
          → Yields
              (Filled params rest ((p.name, v) ∷ bound))
              (fill_defaults rec callee rest ((p.name, v) ∷ bound) scope span))
        → (default : Option Expr)
        → Yields (Filled params (p ∷ rest) bound) (elim default as (λ _. Outcome Table) [
          | none ↦ failed (error span (missing_value callee p.name))
          | some default ↦ (do
            v ← rec default scope
            outcome (check_type v p.ty p.span (default_of p.name callee))
            fill_defaults rec callee rest ((p.name, v) ∷ bound) scope span)
        ])
    from_default again none = fails
    from_default again (some default) = Yields-bind (ready default) λ v q.
        Yields-bind (check_type-HasType v p.ty p.span (default_of p.name callee)) λ _ typed.
          Yields-map
            (λ table f. record {
              typed = f.typed;
              filled = (f.kept p.name (contains_key_self bound p.name v), f.filled);
              kept = λ name k. f.kept name (cons-Keeps bound p.name v name k);
            })
            (again v (
              record { param = p; among = sub p first; named = refl; typed = typed; value = q },
              h,
            ))
