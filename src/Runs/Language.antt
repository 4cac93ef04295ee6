-- ===== src/Runs/Language.antt =====
-- A tamal module: a `fn` with a default, a `proc`, a `repeat` in a frame, and its lines.
use Prim.Native.String.{String}
use tamal.Base.{ℕ, true, List, [], ◌∷◌, none, some, ◌≡◌, refl}
use tamal.Base.Int.{pos}
use tamal.Asm.Diagnostics.{Span}
use tamal.Asm.Outcome.{done}
use tamal.Lang.Ast.{
  BinOp, Expr, Exprs, Args, no_elems, elem, no_args, arg, byte_type, int_type, bytes_type, Param,
  FnDef, Const, RecvTarget, Stmt, Stmts, no_stmts, stmt, ProcDef, Test, Module,
}
use tamal.Abi.Crc8
use tamal.Lang.Ast
use tamal.Lang.Consteval
use tamal.Lang.Driver
use tamal.Lang.Driver.{lower}
use tamal.Lang.Emit
use tamal.Lang.RegAlloc
use tamal.Lang.Emit.{AsmLine, Label, new, procs_of}
use tamal.Lang.Emit.Program
use tamal.Lang.Emit.Lower.{lower_send, lower_crc_region}
use tamal.Lang.Consteval.{Value, Env}
use tamal.Lang.Consteval.Eval.{eval, bind_args}

abbrev pub at : ℕ → Span
at n = record { start = n; end = n }

abbrev pub num : ℕ → Expr
num n = Expr.int (pos n) (at 0)

abbrev pub var : String → Expr
var name = Expr.name name (at 0)

-- const BASE = [0x02]
abbrev base : Const
base = record { name = "BASE"; name_span = at 1; value = Expr.bytes (elem (num 2) no_elems) (at 1) }

-- fn hdr(n: byte, m: byte = 0x10) -> bytes { BASE ++ [n, m] }
abbrev pub hdr : FnDef
hdr = record {
  name = "hdr";
  name_span = at 2;
  params =
      record { name = "n"; ty = byte_type; default = none; span = at 2 }
      ∷ record { name = "m"; ty = byte_type; default = some (num 0x10); span = at 2 }
      ∷ [];
  ret = bytes_type;
  body =
      Expr.binary BinOp.concat (var "BASE")
        (Expr.bytes (elem (var "n") (elem (var "m") no_elems)) (at 2)) (at 2);
}

-- proc command(n: int) { send hdr(n) + crc8  wait_state r  expect crc else 0x11 }
abbrev command : ProcDef
command = record {
  name = "command";
  name_span = at 3;
  params = record { name = "n"; ty = int_type; default = none; span = at 3 } ∷ [];
  body =
      stmt (Stmt.send (Expr.call "hdr" (arg none (var "n") (at 3) no_args) (at 3)) true (at 3))
        (stmt (Stmt.wait_state (some "r") (at 4)) (stmt (Stmt.expect (num 0x11) (at 5)) no_stmts));
}

-- test t { frame { command(n = 7) repeat 2 { recv x } } pass }
abbrev pub sample : Module
sample = record {
  consts = base ∷ [];
  fns = hdr ∷ [];
  procs = command ∷ [];
  tests =
      record {
        name = "t";
        name_span = at 6;
        stmts =
            stmt
              (Stmt.frame
                (stmt
                  (Stmt.proc_call "command" (at 7) (arg (some "n") (num 7) (at 7) no_args) (at 7))
                  (stmt
                    (Stmt.repeat (num 2)
                      (stmt (Stmt.recv (RecvTarget.named "x" ∷ []) (at 8)) no_stmts) (at 8))
                    no_stmts))
                (at 9))
              (stmt Stmt.pass no_stmts);
      }
      ∷ [];
}

abbrev wait_label : Label
wait_label = record { prefix = "wait"; number = 0 }

abbrev fail_label : Label
fail_label = record { prefix = "fail"; number = 1 }

abbrev sample_lines : List (AsmLine × Span)
sample_lines =
    (AsmLine.globl_start, at 6)
    ∷ (AsmLine.start_label, at 6)
    ∷ (AsmLine.cs_assert, at 9)
    ∷ (AsmLine.put_byte 2, at 3)
    ∷ (AsmLine.put_byte 7, at 3)
    ∷ (AsmLine.put_byte 16, at 3)
    ∷ (AsmLine.put_byte 205, at 3)
    ∷ (AsmLine.label_line wait_label, at 4)
    ∷ (AsmLine.crc_reset, at 4)
    ∷ (AsmLine.get_byte 1, at 4)
    ∷ (AsmLine.li 2 15, at 4)
    ∷ (AsmLine.beq 1 2 wait_label, at 4)
    ∷ (AsmLine.get_byte 2, at 5)
    ∷ (AsmLine.rdsr_crc 2, at 5)
    ∷ (AsmLine.get_byte 1, at 8)
    ∷ (AsmLine.get_byte 1, at 8)
    ∷ (AsmLine.cs_deassert, at 9)
    ∷ (AsmLine.bnez 2 fail_label, at 5)
    ∷ (AsmLine.halt_byte 0, at 6)
    ∷ (AsmLine.label_line fail_label, at 5)
    ∷ (AsmLine.halt_byte 17, at 5)
    ∷ []

lower-sample : lower sample ≡ done sample_lines
unfolding Driver.check_callable_name Driver.defined Driver.install_fns Driver.check_proc
    Driver.check_procs Driver.resolve_const Driver.resolve_consts Driver.second_test Driver.is_halt
    Driver.halts Driver.check_tests Driver.lower Consteval.get_value Consteval.contains_key
    Consteval.find_fn Consteval.is_listed Consteval.new Consteval.insert_const Consteval.has_const
    Consteval.get Consteval.default_scope_for Consteval.child_for_call_values Consteval.get_fn
    Consteval.define_fn Consteval.is_active Consteval.child_for_call Consteval.xor_ℤ
    Consteval.shift_right Consteval.byte_of Consteval.check_int Consteval.check_bytes
    Consteval.check_type Consteval.param_at Consteval.param_named Consteval.param_for
    Consteval.Eval.as_int Consteval.Eval.as_bytes Consteval.Eval.as_byte Consteval.Eval.name_value
    Consteval.Eval.builtin_value Consteval.Eval.bind_value Consteval.Eval.fill_defaults
    Consteval.Eval.fn_value Consteval.Eval.user_call Consteval.Eval.eval Consteval.Eval.eval_int
    Consteval.Eval.eval_bytes Consteval.Eval.eval_byte Consteval.Eval.bind_args
    Consteval.Eval.eval_with Consteval.Eval.elems_with Consteval.Eval.builtin_with
    Consteval.Eval.args_with Ast.args_len Ast.span_of Ast.type_name Emit.procs_of Emit.find_proc
    Emit.new Emit.same_span Emit.with_sites Emit.budget_at Emit.budget_error Emit.push Emit.gensym
    Emit.in_frame Emit.legal_in_frame Emit.stmt_span Emit.enter_expansion_scope Emit.reserve_all
    Emit.reserve_pending Emit.reserve_deferred Emit.drop_last Emit.exit_expansion_scope
    Emit.Lower.push_bytes Emit.Lower.lower_send Emit.Lower.region_bytes Emit.Lower.lower_crc_region
    Emit.Lower.take_temp Emit.Lower.take_named Emit.Lower.give_back Emit.Lower.recv_target
    Emit.Lower.lower_recv Emit.Lower.take_response Emit.Lower.release_response Emit.Lower.wait_from
    Emit.Lower.lower_wait_state Emit.Lower.add_deferred Emit.Lower.defer Emit.Lower.expect_inside
    Emit.Lower.lower_expect Emit.Lower.verdicts Emit.Lower.open_frame Emit.Lower.close_frame
    Emit.Lower.lower_frame Emit.Lower.expanded Emit.Lower.rounds Emit.Lower.unrolled
    Emit.Lower.lower_repeat Emit.Lower.in_proc Emit.Lower.call_proc Emit.Lower.lower_call
    Emit.Program.barred Emit.Program.guarded Emit.Program.lower Emit.Program.push_trailers
    Emit.Program.flush_trailers Emit.Program.emit_tests Emit.Program.emit Emit.Program.lower_with
    Emit.Program.stmts_with RegAlloc.new RegAlloc.mark RegAlloc.rebind RegAlloc.enter_scope
    RegAlloc.release RegAlloc.forget RegAlloc.exit_scope RegAlloc.first_free RegAlloc.hold
    RegAlloc.alloc RegAlloc.temp RegAlloc.name_reg RegAlloc.bind RegAlloc.lookup RegAlloc.retain_ne
    RegAlloc.contains RegAlloc.mark_checked RegAlloc.free RegAlloc.reserve Crc8.crc8_round
    Crc8.crc8_rounds Crc8.crc8_update Crc8.crc8_from Crc8.crc8
lower-sample = refl
