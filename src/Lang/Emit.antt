-- ===== src/Lang/Emit.antt =====
-- Lowering a module to lines of assembly: crates/tamal-lang/src/emit.rs. A line is its kind with its
-- operands, in place of its text. Every error ends the compilation, with one diagnostic, and the
-- emitter is dropped with it: so no state is kept on that path.
pub mod Lower
pub mod Program
pub mod Bus
pub mod Straight
pub mod Transfers
pub mod Sends
pub mod Frames
pub mod Verdicts
pub mod Expansions
pub mod Calls
pub mod Sound
pub mod Whole
use Prim.Native.String.{String}
use text.Mathlib.Text.{◌==◌ as str_eq}
use tamal.Base.{
  ℕ, suc, ◌+◌, u32, ◌==◌, leb, if◌then◌else◌, Bool, true, false, ◌&&◌, not, List, [], ◌∷◌, ◌++◌,
  map, Option, none, some, length,
}
use tamal.Asm.Diagnostics.{
  Span, Diagnostic, Message, error, with_help, with_label, too_many_lines, too_many_lines_help,
  nested_expansion, budget_ran_out, too_many_expansions, too_many_expansions_help,
}
use tamal.Asm.Outcome.{Outcome, done, failed, ◌>>=◌}
use tamal.Lang.Ast.{Stmt, ProcDef, Module}
use tamal.Lang.Consteval.{Env}
use tamal.Lang.RegAlloc
use tamal.Lang.RegAlloc.{Reg, RegAlloc}

abbrev pub max_emitted_lines : ℕ
max_emitted_lines = 4096

abbrev pub max_expansions : ℕ
max_expansions = 65536

-- The label `__<prefix><n>`.
pub record Label : Type 0 where
  pub prefix : String
  pub number : ℕ

pub data AsmLine : Type 0 where
  globl_start start_label cs_assert cs_deassert crc_reset : AsmLine
  label_line : Label → AsmLine
  halt_byte put_byte : ℕ → AsmLine
  halt_text : String → AsmLine
  raw_line : String → List String → AsmLine
  set_config : String → String → String → String → AsmLine
  bnez : Reg → Label → AsmLine
  get_byte rdsr_crc : Reg → AsmLine
  li : Reg → ℕ → AsmLine
  beq : Reg → Reg → Label → AsmLine

pub record Deferred : Type 0 where
  pub reg : Reg
  pub label : Label
  pub code : ℕ
  pub span : Span

pub record Trailer : Type 0 where
  pub span : Span
  pub label : Label
  pub code : ℕ

-- `frames` and `active_procs` have their innermost entry first, and `expansion_sites` its outermost.
pub record Emitter : Type 0 where
  pub env : Env
  pub lines : List (AsmLine × Span)
  pub alloc : RegAlloc
  pub counter : ℕ
  pub trailers : List Trailer
  pub frames : List (List Deferred)
  pub procs : List ProcDef
  pub active_procs : List String
  pub expansions : ℕ
  pub expansion_sites : List Span

-- The map of the `proc`s, in which the last of a name counts.
unfoldable pub procs_of : List ProcDef → List ProcDef → List ProcDef
procs_of [] found = found
procs_of (p ∷ procs) found = procs_of procs (p ∷ found)

unfoldable pub find_proc : List ProcDef → String → Option ProcDef
find_proc [] name = none
find_proc (p ∷ procs) name = if str_eq p.name name then some p else find_proc procs name

unfoldable pub new : Env → Module → Emitter
new env module_ = record {
  env = env;
  lines = [];
  alloc = RegAlloc.new;
  counter = 0;
  trailers = [];
  frames = [];
  procs = procs_of module_.procs [];
  active_procs = [];
  expansions = 0;
  expansion_sites = [];
}

unfoldable pub same_span : Span → Span → Bool
same_span a b = a.start == b.start && a.end == b.end

unfoldable pub with_sites : Diagnostic → List Span → Diagnostic
with_sites d [] = d
with_sites d (nested ∷ sites) = with_sites (with_label d nested nested_expansion) sites

-- The caret of a budget error stands on the outermost expansion, with the others as labels.
unfoldable pub budget_at : Span → List Span → Span → Message → Message → Diagnostic
budget_at primary nested site message help =
    let d = with_sites (with_help (error primary message) help) nested in
    if same_span primary site then d else with_label d site budget_ran_out

unfoldable pub budget_error : List Span → Span → Message → Message → Diagnostic
budget_error [] site message help = budget_at site [] site message help
budget_error (primary ∷ nested) site message help = budget_at primary nested site message help

unfoldable pub push : AsmLine → Span → Emitter → Outcome Emitter
push line span em = elim (leb max_emitted_lines (length em.lines)) [
  | true ↦ failed (budget_error em.expansion_sites span too_many_lines too_many_lines_help)
  | false ↦ done (record em { lines = em.lines ++ (line, span) ∷ [] })
]

-- `gensym`: the label, and the emitter after it.
unfoldable pub gensym : String → Emitter → Label × Emitter
gensym prefix em =
    (record { prefix = prefix; number = em.counter }, record em { counter = u32 (suc em.counter) })

unfoldable pub in_frame : Emitter → Bool
in_frame em = elim em.frames [ [] ↦ false | _ ∷ _ ↦ true ]

unfoldable pub legal_in_frame : Stmt → Bool
legal_in_frame Stmt.pass = false
legal_in_frame (Stmt.fail code span) = false
legal_in_frame (Stmt.config role io sck alert span) = false
legal_in_frame (Stmt.frame body span) = false
legal_in_frame (Stmt.raw mnemonic operands span) = true
legal_in_frame (Stmt.send payload append_crc span) = true
legal_in_frame (Stmt.crc_region sends span) = true
legal_in_frame (Stmt.recv targets span) = true
legal_in_frame (Stmt.wait_state key span) = true
legal_in_frame (Stmt.expect else_code span) = true
legal_in_frame (Stmt.proc_call name name_span args span) = true
legal_in_frame (Stmt.repeat count body span) = true

unfoldable pub stmt_span : Stmt → Span → Span
stmt_span Stmt.pass entry = entry
stmt_span (Stmt.fail code span) entry = span
stmt_span (Stmt.config role io sck alert span) entry = span
stmt_span (Stmt.frame body span) entry = span
stmt_span (Stmt.raw mnemonic operands span) entry = span
stmt_span (Stmt.send payload append_crc span) entry = span
stmt_span (Stmt.crc_region sends span) entry = span
stmt_span (Stmt.recv targets span) entry = span
stmt_span (Stmt.wait_state key span) entry = span
stmt_span (Stmt.expect else_code span) entry = span
stmt_span (Stmt.proc_call name name_span args span) entry = span
stmt_span (Stmt.repeat count body span) entry = span

unfoldable pub enter_expansion_scope : Span → Emitter → Outcome Emitter
enter_expansion_scope site em = elim (leb max_expansions em.expansions) [
  | true ↦
      failed (budget_error em.expansion_sites site too_many_expansions too_many_expansions_help)
  | false ↦ done (record em {
    expansions = suc em.expansions;
    expansion_sites = em.expansion_sites ++ site ∷ [];
    alloc = RegAlloc.enter_scope em.alloc;
  })
]

-- The registers of the innermost frame's verdicts, if one is open, taken again in the current scope.
unfoldable pub reserve_all : List Deferred → RegAlloc → RegAlloc
reserve_all [] alloc = alloc
reserve_all (d ∷ deferred) alloc = reserve_all deferred (RegAlloc.reserve alloc d.reg)

unfoldable pub reserve_pending : List (List Deferred) → RegAlloc → RegAlloc
reserve_pending [] alloc = alloc
reserve_pending (frame ∷ frames) alloc = reserve_all frame alloc

unfoldable pub reserve_deferred : Emitter → Emitter
reserve_deferred em = record em { alloc = reserve_pending em.frames em.alloc }

-- `expansion_sites.pop()`.
unfoldable pub drop_last : List Span → List Span
drop_last [] = []
drop_last (site ∷ sites) = elim sites [ [] ↦ [] | _ ∷ _ ↦ site ∷ drop_last sites ]

unfoldable pub exit_expansion_scope : Emitter → Emitter
exit_expansion_scope em = reserve_deferred (record em {
  expansion_sites = drop_last em.expansion_sites;
  alloc = RegAlloc.exit_scope em.alloc;
})
