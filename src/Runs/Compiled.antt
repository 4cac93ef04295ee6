-- ===== src/Runs/Compiled.antt =====
-- The compiler of crates/tamal-lang on the module of Runs/Language.
use tamal.Base.{true, [], ◌∷◌, List, ℕ, none, ◌≤◌, refl, arith}
use tamal.Asm.Outcome.{Outcome, Yields}
use tamal.Lang.Ast.{Expr, Args, no_args, arg, bytes_type, Stmt, no_stmts, stmt}
use tamal.Lang.Consteval
use tamal.Lang.Driver.{lower}
use tamal.Lang.Emit.{Emitter, new, procs_of}
use tamal.Lang.Emit.Program
use tamal.Lang.Emit.Lower.{eval_depth, lower_send, lower_crc_region}
use tamal.Lang.Emit.Straight.{IsOrderly}
use tamal.Lang.Emit.Frames.{Post}
use tamal.Lang.Emit.Sends.{Values, Checked, send-Checked}
use tamal.Lang.Emit.Sound.{idle_procs, lower-Post}
use tamal.Lang.Emit.Whole.{new-IsOrderly}
use tamal.Lang.Driver.Total.{IsAccepted}
use tamal.Lang.Driver.Total.{lower-IsAccepted}
use tamal.Lang.Consteval.{Value, Env}
use tamal.Lang.Consteval.Eval.{eval, eval_bytes, bind_args}
use tamal.Lang.Consteval.Types.{IsValue, a_string, HasType}
use tamal.Lang.Consteval.Defaults.{IsEnv, Binds}
use tamal.Lang.Consteval.Depth.{idle, idle_fns, eval-IsValue, eval-HasType, bind_args-Binds}
use tamal.Runs.Language.{at, num, var, hdr, sample}

lower-IsAccepted_example : Yields (IsAccepted sample) (lower sample)
lower-IsAccepted_example = lower-IsAccepted sample

-- The environment of the module, and the emitter that starts on it.
abbrev sample_env : Env
sample_env = record {
  consts = ("BASE", Value.bytes (2 ∷ [])) ∷ [];
  locals = [];
  fns = hdr ∷ [];
  active = [];
}

sample_env-IsEnv : IsEnv sample_env
sample_env-IsEnv = record { consts_ok = (a_string (omega arith, tt), tt); locals_ok = tt }

sample-IsOrderly : IsOrderly (new sample_env sample)
sample-IsOrderly = new-IsOrderly sample sample_env sample_env-IsEnv

one_idle : idle_procs (new sample_env sample).active_procs (new sample_env sample).procs ≤ 1
unfolding new procs_of idle_procs Consteval.is_listed
one_idle = omega arith

lower-Post_example :
    Yields
      (Post (new sample_env sample))
      (Program.lower 1 (stmt Stmt.pass no_stmts) (at 6) (new sample_env sample))
lower-Post_example =
    lower-Post 1 (stmt Stmt.pass no_stmts) (at 6) (new sample_env sample) one_idle sample-IsOrderly

abbrev hdr_args : Args
hdr_args = arg none (num 7) (at 3) no_args

hdr_idle : idle sample_env ≤ 1
unfolding idle_fns Consteval.is_listed
hdr_idle = omega arith

eval-IsValue_example : Yields IsValue (eval 1 (Expr.call "hdr" hdr_args (at 3)) sample_env)
eval-IsValue_example =
    eval-IsValue 1 (Expr.call "hdr" hdr_args (at 3)) sample_env hdr_idle sample_env-IsEnv

eval-HasType_example :
    Yields (HasType bytes_type) (eval 1 (Expr.call "hdr" hdr_args (at 3)) sample_env)
unfolding Consteval.is_listed Consteval.get_fn Consteval.find_fn
eval-HasType_example =
    eval-HasType 1 "hdr" hdr_args (at 3) sample_env hdr hdr_idle sample_env-IsEnv refl refl

bind_args-Binds_example :
    Yields (Binds hdr.params) (bind_args 1 "hdr" hdr.params hdr_args sample_env (at 3))
bind_args-Binds_example =
    bind_args-Binds 1 "hdr" hdr.params hdr_args sample_env (at 3) hdr_idle sample_env-IsEnv

-- An emitter without lines, in the environment of the module.
abbrev fresh : Emitter
fresh = new sample_env sample

send-Checked_example :
    Checked
      (at 3)
      fresh
      (eval_bytes (eval_depth sample_env) (var "BASE") sample_env)
      (lower_send (var "BASE") true (at 3) fresh)
    × ((total : Outcome (List ℕ)) × Values sample_env (var "BASE" ∷ var "BASE" ∷ []) total
        × Checked (at 3) fresh total (lower_crc_region (var "BASE" ∷ var "BASE" ∷ []) (at 3) fresh))
unfolding new
send-Checked_example =
    send-Checked (var "BASE") (var "BASE" ∷ var "BASE" ∷ []) (at 3) fresh sample_env-IsEnv
      (omega arith)
