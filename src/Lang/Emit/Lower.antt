-- ===== src/Lang/Emit/Lower.antt =====
-- The statements: `Emitter::stmt` and the `lower_` functions of crates/tamal-lang/src/emit.rs. The
-- lowering is a recursion on the statement in which the bodies of `proc`s are left to a lowering of
-- less depth; `lower` ties the knot on the depth. A `fn` has a level of evaluation for itself.
use Prim.Native.String.{String}
use tamal.Base.{
  ℕ, zero, suc, if◌then◌else◌, Bool, true, false, List, [], ◌∷◌, ◌++◌, Option, none, some, length,
  leb,
}
use tamal.Base.Int.{ℤ, pos, negsuc}
use tamal.Abi.Crc8.{crc8}
use tamal.Asm.Diagnostics.{
  Span, error, with_help, expect_outside, expect_help, fn_as_statement, fn_statement_help,
  unknown_proc, unknown_proc_help, already_expanding, inlined_proc_help, repeat_range, unroll_help,
}
use tamal.Asm.Outcome.{Outcome, done, failed, outcome, ◌>>=◌}
use tamal.Lang.Ast.{Expr, Args, span_of, RecvTarget, Stmts, ProcDef}
use tamal.Lang.Consteval.{Table, Env, get_fn, child_for_call_values, is_listed}
use tamal.Lang.Consteval.Eval.{eval_int, eval_bytes, eval_byte, bind_args}
use tamal.Lang.RegAlloc
use tamal.Lang.RegAlloc.{Reg, RegAlloc}
use tamal.Lang.Emit.{
  Label, AsmLine, Deferred, Emitter, find_proc, push, gensym, in_frame, enter_expansion_scope,
  exit_expansion_scope,
}

-- A depth of evaluation that is enough for any chain of calls.
abbrev pub eval_depth : Env → ℕ
eval_depth env = suc (length env.fns)

-- One `put_byte` for each byte.
unfoldable pub push_bytes : List ℕ → Span → Emitter → Outcome Emitter
push_bytes [] span em = done em
push_bytes (b ∷ bs) span em = push (AsmLine.put_byte b) span em >>= push_bytes bs span

unfoldable pub lower_send : Expr → Bool → Span → Emitter → Outcome Emitter
lower_send payload append_crc span em = do
  bs ← eval_bytes (eval_depth em.env) payload em.env
  push_bytes (if append_crc then bs ++ crc8 bs ∷ [] else bs) span em

-- The bytes of the sends of a region, in order.
unfoldable pub region_bytes : List Expr → Env → Outcome (List ℕ)
region_bytes [] env = done []
region_bytes (e ∷ sends) env = do
  bs ← eval_bytes (eval_depth env) e env
  rest ← region_bytes sends env
  done (bs ++ rest)

unfoldable pub lower_crc_region : List Expr → Span → Emitter → Outcome Emitter
lower_crc_region sends span em = do
  total ← region_bytes sends em.env
  push_bytes (total ++ crc8 total ∷ []) span em

-- `self.alloc.temp(span)?` and `self.alloc.bind(name, span)?`, and what follows.
unfoldable pub take_temp : Span → Emitter → Outcome (Reg × Emitter)
take_temp span em = outcome (RegAlloc.temp em.alloc span) >>= λ (reg, alloc).
    done (reg, record em { alloc = alloc })

unfoldable pub take_named : String → Span → Emitter → Outcome (Reg × Emitter)
take_named name span em = outcome (RegAlloc.bind em.alloc name span) >>= λ (reg, alloc).
    done (reg, record em { alloc = alloc })

unfoldable pub give_back : Reg → Emitter → Emitter
give_back reg em = record em { alloc = RegAlloc.free em.alloc reg }

unfoldable pub recv_target : RecvTarget → Span → Emitter → Outcome Emitter
recv_target (RecvTarget.named name) span em = do
  (reg, em') ← take_named name span em
  push (AsmLine.get_byte reg) span em'
recv_target RecvTarget.discard span em = do
  (reg, em') ← take_temp span em
  em'' ← push (AsmLine.get_byte reg) span em'
  done (give_back reg em'')

unfoldable pub lower_recv : List RecvTarget → Span → Emitter → Outcome Emitter
lower_recv [] span em = done em
lower_recv (target ∷ targets) span em = recv_target target span em >>= lower_recv targets span

-- The register of the response code: bound to the name, or a scratch register.
unfoldable pub take_response : Option String → Span → Emitter → Outcome (Reg × Emitter)
take_response none span em = take_temp span em
take_response (some name) span em = take_named name span em

unfoldable pub release_response : Option String → Reg → Emitter → Emitter
release_response none reg em = give_back reg em
release_response (some name) reg em = em

abbrev pub wait_state_code : ℕ
wait_state_code = 0x0F

-- The poll, from its label on.
unfoldable pub wait_from : Label → Option String → Span → Emitter → Outcome Emitter
wait_from label key span em₀ = do
  em₁ ← push (AsmLine.label_line label) span em₀
  em₂ ← push AsmLine.crc_reset span em₁
  (resp, em₃) ← take_response key span em₂
  em₄ ← push (AsmLine.get_byte resp) span em₃
  (k, em₅) ← take_temp span em₄
  em₆ ← push (AsmLine.li k wait_state_code) span em₅
  em₇ ← push (AsmLine.beq resp k label) span em₆
  done (release_response key resp (give_back k em₇))

unfoldable pub lower_wait_state : Option String → Span → Emitter → Outcome Emitter
lower_wait_state key span em = let (label, em') = gensym "wait" em in wait_from label key span em'

-- `frame.push(Deferred { … })` on the innermost frame.
unfoldable pub add_deferred : Deferred → List (List Deferred) → List (List Deferred)
add_deferred d [] = []
add_deferred d (frame ∷ frames) = (frame ++ d ∷ []) ∷ frames

unfoldable pub defer : Reg → ℕ → Span → Label × Emitter → Emitter
defer reg code span (label, em) = record em {
  frames = add_deferred (record { reg = reg; label = label; code = code; span = span }) em.frames;
}

unfoldable pub expect_inside : Expr → Span → Emitter → Outcome Emitter
expect_inside else_code span em = do
  code ← eval_byte (eval_depth em.env) else_code em.env
  (discard, em₁) ← take_temp span em
  em₂ ← push (AsmLine.get_byte discard) span em₁
  (res, em₃) ← take_temp span (give_back discard em₂)
  em₄ ← push (AsmLine.rdsr_crc res) span em₃
  done (defer res code span (gensym "fail" em₄))

unfoldable pub lower_expect : Expr → Span → Emitter → Outcome Emitter
lower_expect else_code span em = elim (in_frame em) [
  | true ↦ expect_inside else_code span em
  | false ↦ failed (with_help (error span expect_outside) expect_help)
]

-- The verdicts of a frame, after its `cs_deassert`.
unfoldable pub verdicts : List Deferred → Emitter → Outcome Emitter
verdicts [] em = done em
verdicts (d ∷ deferred) em = do
  em' ← push (AsmLine.bnez d.reg d.label) d.span em
  verdicts deferred (record em' {
    trailers = em'.trailers ++ record { span = d.span; label = d.label; code = d.code } ∷ [];
  })

unfoldable pub open_frame : Emitter → Emitter
open_frame em = record em { alloc = RegAlloc.enter_scope em.alloc; frames = [] ∷ em.frames }

-- The end of `lower_frame`, where the frame is popped. The stack has it: an empty one, where the
-- program would panic, changes nothing here.
unfoldable pub close_frame : Span → List (List Deferred) → Emitter → Outcome Emitter
close_frame span [] em = done em
close_frame span (deferred ∷ frames) em = do
  em₁ ← push AsmLine.cs_deassert span (record em { frames = frames })
  em₂ ← verdicts deferred em₁
  done (record em₂ { alloc = RegAlloc.exit_scope em₂.alloc })

unfoldable pub lower_frame : (Emitter → Outcome Emitter) → Span → Emitter → Outcome Emitter
lower_frame body span em = do
  em₁ ← push AsmLine.cs_assert span em
  em₂ ← body (open_frame em₁)
  close_frame span em₂.frames em₂

-- One expansion, of a body.
unfoldable pub expanded : (Emitter → Outcome Emitter) → Span → Emitter → Outcome Emitter
expanded body span em = do
  em₁ ← enter_expansion_scope span em
  em₂ ← body em₁
  done (exit_expansion_scope em₂)

unfoldable pub rounds : ℕ → (Emitter → Outcome Emitter) → Span → Emitter → Outcome Emitter
rounds zero body span em = done em
rounds (suc n) body span em = expanded body span em >>= rounds n body span

abbrev pub max_unroll : ℕ
max_unroll = 1024

unfoldable pub unrolled : ℤ → Expr → (Emitter → Outcome Emitter) → Span → Emitter → Outcome Emitter
unrolled (pos n) count body span em = elim (leb n max_unroll) [
  | true ↦ rounds n body span em
  | false ↦ failed (with_help (error (span_of count) (repeat_range (pos n))) unroll_help)
]
unrolled (negsuc n) count body span em =
    failed (with_help (error (span_of count) (repeat_range (negsuc n))) unroll_help)

unfoldable pub lower_repeat : Expr → (Emitter → Outcome Emitter) → Span → Emitter → Outcome Emitter
lower_repeat count body span em = do
  n ← eval_int (eval_depth em.env) count em.env
  unrolled n count body span em

-- The body of a `proc` in its own value scope, with its name on the chain.
unfoldable pub in_proc : String → Table → (Emitter → Outcome Emitter) → Emitter → Outcome Emitter
in_proc name bindings body em = do
  em' ← body (record em {
    env = child_for_call_values em.env bindings;
    active_procs = name ∷ em.active_procs;
  })
  done (record em' { env = em.env; active_procs = em.active_procs })

unfoldable pub call_proc :
    (Stmts → Span → Emitter → Outcome Emitter)
    → ProcDef
    → String
    → Args
    → Span
    → Span
    → Emitter
    → Outcome Emitter
call_proc rec p name args span entry em = elim (is_listed em.active_procs name) [
  | true ↦ failed (with_help (error span (already_expanding name)) inlined_proc_help)
  | false ↦ (do
    bindings ← bind_args (eval_depth em.env) name p.params args em.env span
    expanded (in_proc name bindings (rec p.body entry)) span em)
]

unfoldable pub lower_call :
    (Stmts → Span → Emitter → Outcome Emitter)
    → String
    → Span
    → Args
    → Span
    → Span
    → Emitter
    → Outcome Emitter
lower_call rec name name_span args span entry em = elim (get_fn em.env name) [
  | some _ ↦ failed (with_help (error span (fn_as_statement name)) fn_statement_help)
  | none ↦ elim (find_proc em.procs name) [
    | none ↦ failed (with_help (error name_span (unknown_proc name)) unknown_proc_help)
    | some p ↦ call_proc rec p name args span entry em
  ]
]
