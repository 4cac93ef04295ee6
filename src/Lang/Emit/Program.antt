-- ===== src/Lang/Emit/Program.antt =====
-- The dispatch on a statement, bodies of statements, and `emit`: crates/tamal-lang/src/emit.rs. The
-- lowering is a recursion on the statement in which the bodies of `proc`s are left to a lowering of
-- less depth; `lower` ties the knot on the depth.
use tamal.Base.{ℕ, zero, suc, Bool, true, false, ◌&&◌, not, List, [], ◌∷◌, length}
use tamal.Asm.Diagnostics.{Span, error, not_in_frame}
use tamal.Asm.Outcome.{Outcome, done, failed, exhausted, ◌>>=◌}
use tamal.Lang.Ast.{Stmt, Stmts, no_stmts, stmt, Test, Module}
use tamal.Lang.Consteval.{Env}
use tamal.Lang.Emit.{AsmLine, Trailer, Emitter, new, push, in_frame, legal_in_frame, stmt_span}
use tamal.Lang.Emit.Lower.{
  lower_send, lower_crc_region, lower_recv, lower_wait_state, lower_expect, lower_frame,
  lower_repeat, lower_call,
}

-- A statement that may not stand in a frame.
unfoldable pub barred : Stmt → Emitter → Bool
barred s em = in_frame em && not (legal_in_frame s)

-- `Emitter::stmt`, where `lowered` is what the dispatch gives.
unfoldable pub guarded : Stmt → Span → Emitter → Outcome Emitter → Outcome Emitter
guarded s entry em lowered = elim (barred s em) [
  | true ↦ failed (error (stmt_span s entry) not_in_frame)
  | false ↦ lowered
]

unfoldable mutual
  pub lower_with :
      (Stmts → Span → Emitter → Outcome Emitter) → Stmt → Span → Emitter → Outcome Emitter
  lower_with rec Stmt.pass entry em = push (AsmLine.halt_byte 0) entry em
  lower_with rec (Stmt.fail code span) entry em = push (AsmLine.halt_text code) span em
  lower_with rec (Stmt.raw mnemonic operands span) entry em =
      push (AsmLine.raw_line mnemonic operands) span em
  lower_with rec (Stmt.send payload append_crc span) entry em =
      lower_send payload append_crc span em
  lower_with rec (Stmt.crc_region sends span) entry em = lower_crc_region sends span em
  lower_with rec (Stmt.config role io sck alert span) entry em =
      push (AsmLine.set_config role io sck alert) span em
  lower_with rec (Stmt.frame body span) entry em =
      lower_frame (λ e. stmts_with rec body entry e) span em
  lower_with rec (Stmt.recv targets span) entry em = lower_recv targets span em
  lower_with rec (Stmt.wait_state key span) entry em = lower_wait_state key span em
  lower_with rec (Stmt.expect else_code span) entry em = lower_expect else_code span em
  lower_with rec (Stmt.proc_call name name_span args span) entry em =
      lower_call rec name name_span args span entry em
  lower_with rec (Stmt.repeat count body span) entry em =
      lower_repeat count (λ e. stmts_with rec body entry e) span em

  pub stmts_with :
      (Stmts → Span → Emitter → Outcome Emitter) → Stmts → Span → Emitter → Outcome Emitter
  stmts_with rec no_stmts entry em = done em
  stmts_with rec (stmt s stmts) entry em =
      guarded s entry em (lower_with rec s entry em) >>= stmts_with rec stmts entry

-- At depth 0 there is no lowering to leave the body of a `proc` to.
unfoldable pub lower : ℕ → Stmts → Span → Emitter → Outcome Emitter
lower zero stmts entry em = stmts_with (λ _ _ _. exhausted) stmts entry em
lower (suc depth) stmts entry em = stmts_with (lower depth) stmts entry em

-- The loop of `flush_trailers`.
unfoldable pub push_trailers : List Trailer → Emitter → Outcome Emitter
push_trailers [] em = done em
push_trailers (t ∷ trailers) em = do
  em₁ ← push (AsmLine.label_line t.label) t.span em
  em₂ ← push (AsmLine.halt_byte t.code) t.span em₁
  push_trailers trailers em₂

unfoldable pub flush_trailers : Emitter → Outcome Emitter
flush_trailers em = push_trailers em.trailers (record em { trailers = [] })

unfoldable pub emit_tests : ℕ → List Test → Emitter → Outcome Emitter
emit_tests depth [] em = done em
emit_tests depth (test ∷ tests) em = do
  em₁ ← push AsmLine.globl_start test.name_span em
  em₂ ← push AsmLine.start_label test.name_span em₁
  em₃ ← lower depth test.stmts test.name_span em₂
  em₄ ← flush_trailers em₃
  emit_tests depth tests em₄

-- The lines with their spans, from a level for each `proc`.
unfoldable pub emit : Module → Env → Outcome (List (AsmLine × Span))
emit module_ env = do
  em ← emit_tests (length module_.procs) module_.tests (new env module_)
  done em.lines
