-- ===== src/Lang/Driver.antt =====
-- The checks of crates/tamal-lang/src/lib.rs on a module, and its lowering. Each error is the one
-- diagnostic of the list that the program gives.
pub mod Accepted
pub mod Total
use Prim.Native.String.{String}
use text.Mathlib.Text.{◌==◌ as str_eq}
use tamal.Base.{ℕ, suc, if◌then◌else◌, Bool, true, false, List, [], ◌∷◌, Option, none, some, length}
use tamal.Asm.Diagnostics.{
  Span, error, with_help, is_builtin, is_keyword, is_fn, duplicate_fn, duplicate_proc,
  duplicate_const, builtin_list_help, keyword_list_help, halt_help, test_count, never_halts,
}
use tamal.Asm.Outcome.{Outcome, done, failed, ◌>>=◌, ◌>>◌}
use tamal.Lang.Ast.{stmt_keywords, Const, FnDef, ProcDef, Stmt, Stmts, no_stmts, stmt, Test, Module}
use tamal.Lang.Consteval
use tamal.Lang.Consteval.{Env, is_listed, define_fn, get_fn, has_const, insert_const}
use tamal.Lang.Consteval.Eval.{builtins, eval}
use tamal.Lang.Emit.{AsmLine}
use tamal.Lang.Emit.Lower.{eval_depth}
use tamal.Lang.Emit.Program.{emit}

unfoldable pub check_callable_name : String → Span → String → Outcome (Unit {0})
check_callable_name name span kind = elim (is_listed builtins name) [
  | true ↦ failed (with_help (error span (is_builtin name)) builtin_list_help)
  | false ↦ elim (is_listed stmt_keywords name) [
    | true ↦ failed (with_help (error span (is_keyword name kind)) keyword_list_help)
    | false ↦ done tt
  ]
]

-- The result of `define_fn`, or the error.
unfoldable pub defined : FnDef → Env × Bool → Outcome Env
defined f (env, true) = done env
defined f (env, false) = failed (error f.name_span (duplicate_fn f.name))

unfoldable pub install_fns : List FnDef → Env → Outcome Env
install_fns [] env = done env
install_fns (f ∷ fns) env = do
  check_callable_name f.name f.name_span "fn"
  env' ← defined f (define_fn env f)
  install_fns fns env'

-- The checks on one `proc`, whose earlier ones have the names `earlier`.
unfoldable pub check_proc : List String → Env → ProcDef → Outcome (Unit {0})
check_proc earlier env p = do
  check_callable_name p.name p.name_span "proc"
  elim (get_fn env p.name) [
    | some _ ↦ failed (error p.name_span (is_fn p.name))
    | none ↦ elim (is_listed earlier p.name) [
      | true ↦ failed (error p.name_span (duplicate_proc p.name))
      | false ↦ done tt
    ]
  ]

unfoldable pub check_procs : List String → Env → List ProcDef → Outcome (Unit {0})
check_procs earlier env [] = done tt
check_procs earlier env (p ∷ procs) =
    check_proc earlier env p >> check_procs (p.name ∷ earlier) env procs

unfoldable pub resolve_const : Env → Const → Outcome Env
resolve_const env c = elim (has_const env c.name) [
  | true ↦ failed (error c.name_span (duplicate_const c.name))
  | false ↦ (do v ← eval (eval_depth env) c.value env; done (insert_const env c.name v))
]

unfoldable pub resolve_consts : List Const → Env → Outcome Env
resolve_consts [] env = done env
resolve_consts (c ∷ consts) env = resolve_const env c >>= resolve_consts consts

-- `module.tests.get(1)`, for the place of the error.
unfoldable pub second_test : List Test → Span
second_test (a ∷ b ∷ tests) = b.name_span
second_test _ = record { start = 0; end = 0 }

unfoldable pub is_halt : Stmt → Bool
is_halt Stmt.pass = true
is_halt (Stmt.fail code span) = true
is_halt (Stmt.raw mnemonic operands span) = str_eq mnemonic "halt"
is_halt (Stmt.send payload append_crc span) = false
is_halt (Stmt.crc_region sends span) = false
is_halt (Stmt.config role io sck alert span) = false
is_halt (Stmt.frame body span) = false
is_halt (Stmt.recv targets span) = false
is_halt (Stmt.wait_state key span) = false
is_halt (Stmt.expect else_code span) = false
is_halt (Stmt.proc_call name name_span args span) = false
is_halt (Stmt.repeat count body span) = false

unfoldable pub halts : Stmts → Bool
halts no_stmts = false
halts (stmt s stmts) = if is_halt s then true else halts stmts

-- The checks on the tests: there is one, and it has a halt at its top level.
unfoldable pub check_tests : List Test → Outcome (Unit {0})
check_tests (test ∷ []) = elim (halts test.stmts) [
  | true ↦ done tt
  | false ↦ failed (with_help (error test.name_span (never_halts test.name)) halt_help)
]
check_tests tests = failed (error (second_test tests) (test_count (length tests)))

-- `lower`, from the parsed module on.
unfoldable pub lower : Module → Outcome (List (AsmLine × Span))
lower module_ = do
  env ← install_fns module_.fns Consteval.new
  check_procs [] env module_.procs
  env' ← resolve_consts module_.consts env
  check_tests module_.tests
  emit module_ env'
