-- ===== src/Lang/Emit/Sound.antt =====
-- Every statement, every depth and the whole of `emit`.
use Prim.Native.String.{String}
use text.Mathlib.Text.{◌==◌ as str_eq}
use text.Mathlib.TextEquality.{eq_iff}
use tamal.Base.{
  ℕ, zero, suc, ◌+◌, ◌<◌, ◌≤◌, if◌then◌else◌, false, Bool-cases, inl, inr, List, [], ◌∷◌, some, ◌≡◌,
  refl, arith, length,
}
use tamal.Asm.Diagnostics.{Span}
use tamal.Asm.Outcome.{Outcome, exhausted, Yields, yields, fails, Yields-map}
use tamal.Lang.Ast.{Stmt, Stmts, no_stmts, stmt, ProcDef}
use tamal.Lang.Consteval.{is_listed}
use tamal.Lang.Emit.{AsmLine, Deferred, Emitter, find_proc, push, legal_in_frame}
use tamal.Lang.Emit.Program.{barred, guarded, lower_with, stmts_with, lower}
use tamal.Lang.Emit.Bus.{observe, settled, bus_of}
use tamal.Lang.Emit.Straight.{IsOrderly, Steady, push-Steady}
use tamal.Lang.Emit.Transfers.{
  lower_send-Steady, lower_crc_region-Steady, lower_recv-Steady, lower_wait_state-Steady,
}
use tamal.Lang.Emit.Frames.{
  Post, Post-of_Steady, Post-then, lower_expect-Post, no_frame_of_in_frame,
}
use tamal.Lang.Emit.Verdicts.{lower_frame-Post}
use tamal.Lang.Emit.Expansions.{Post-refl, lower_repeat-Post}
use tamal.Lang.Emit.Calls.{Ready, lower_call-Post}

-- A statement that may not stand in a frame stands outside every frame.
outside :
    (s : Stmt) (em : Emitter) → legal_in_frame s ≡ false → barred s em ≡ false → em.frames ≡ []
unfolding barred
outside s em illegal b = no_frame_of_in_frame em (ground arith)

guarded-Post :
    (s : Stmt) (entry : Span) {em : Emitter} {lowered : Outcome Emitter}
    → (barred s em ≡ false → Yields (Post em) lowered)
    → Yields (Post em) (guarded s entry em lowered)
unfolding guarded
guarded-Post s entry {em} h = elim (Bool-cases (barred s em)) [
  | inl e ↦ rw (e, guarded) fails
  | inr e ↦ rw (e, guarded) (h e)
]

pub settled_outside :
    (frames : List (List Deferred)) → frames ≡ [] → settled (bus_of frames) ≡ some (bus_of frames)
unfolding settled
settled_outside frames e = rw e refl

-- A line that the observer passes over, as a statement.
pub line-Post :
    (line : AsmLine) (span : Span) {em : Emitter}
    → IsOrderly em
    → observe line (bus_of em.frames) ≡ some (bus_of em.frames)
    → Yields (Post em) (push line span em)
line-Post line span i quiet = Yields-map (λ em' s. Post-of_Steady s) (push-Steady line span i quiet)

pub Steady-Post : {em : Emitter} {m : Outcome Emitter} → Yields (Steady em) m → Yields (Post em) m
Steady-Post h = Yields-map (λ em' s. Post-of_Steady s) h

mutual
  unfolding lower_with observe legal_in_frame

  lower_with-Post :
      (rec : Stmts → Span → Emitter → Outcome Emitter) (s : Stmt) (entry : Span) (em : Emitter)
      → IsOrderly em
      → Ready rec em.procs em.active_procs
      → barred s em ≡ false
      → Yields (Post em) (lower_with rec s entry em)
  lower_with-Post rec Stmt.pass entry em i ready b =
      line-Post (AsmLine.halt_byte 0) entry i
        (settled_outside em.frames (outside Stmt.pass em refl b))
  lower_with-Post rec (Stmt.fail code span) entry em i ready b =
      line-Post (AsmLine.halt_text code) span i
        (settled_outside em.frames (outside (Stmt.fail code span) em refl b))
  lower_with-Post rec (Stmt.raw mnemonic operands span) entry em i ready b =
      line-Post (AsmLine.raw_line mnemonic operands) span i refl
  lower_with-Post rec (Stmt.send payload append_crc span) entry em i ready b =
      Steady-Post (lower_send-Steady payload append_crc span i)
  lower_with-Post rec (Stmt.crc_region sends span) entry em i ready b =
      Steady-Post (lower_crc_region-Steady sends span i)
  lower_with-Post rec (Stmt.config role io sck alert span) entry em i ready b =
      line-Post (AsmLine.set_config role io sck alert) span i
        (settled_outside em.frames (outside (Stmt.config role io sck alert span) em refl b))
  lower_with-Post rec (Stmt.frame body span) entry em i ready b =
      lower_frame-Post _ span i (outside (Stmt.frame body span) em refl b)
        λ e j p a. stmts_with-Post rec body entry e j (rw (p, a) ready)
  lower_with-Post rec (Stmt.recv targets span) entry em i ready b =
      Steady-Post (lower_recv-Steady targets span i)
  lower_with-Post rec (Stmt.wait_state key span) entry em i ready b =
      Steady-Post (lower_wait_state-Steady key span i)
  lower_with-Post rec (Stmt.expect else_code span) entry em i ready b =
      lower_expect-Post else_code span i
  lower_with-Post rec (Stmt.proc_call name name_span args span) entry em i ready b =
      lower_call-Post rec name name_span args span entry i ready
  lower_with-Post rec (Stmt.repeat count body span) entry em i ready b =
      lower_repeat-Post count _ span i
        λ e j p a. stmts_with-Post rec body entry e j (rw (p, a) ready)

  stmts_with-Post :
      (rec : Stmts → Span → Emitter → Outcome Emitter) (stmts : Stmts) (entry : Span) (em : Emitter)
      → IsOrderly em
      → Ready rec em.procs em.active_procs
      → Yields (Post em) (stmts_with rec stmts entry em)
  stmts_with-Post rec no_stmts entry em i ready = yields (Post-refl i)
  stmts_with-Post rec (stmt s stmts) entry em i ready =
      Post-then (guarded-Post s entry (lower_with-Post rec s entry em i ready)) λ em' q.
        stmts_with-Post rec stmts entry em' q.orderly
          (rw (q.same.procs_same, q.same.active_same) ready)

-- How many of the `proc`s are not being expanded.
unfoldable pub idle_procs : List String → List ProcDef → ℕ
idle_procs active [] = 0
idle_procs active (p ∷ procs) = (if is_listed active p.name then 0 else 1) + idle_procs active procs

idle_procs-cons-le :
    (active : List String) (name : String) (procs : List ProcDef)
    → idle_procs (name ∷ active) procs ≤ idle_procs active procs
unfolding idle_procs is_listed
idle_procs-cons-le active name [] = omega arith
idle_procs-cons-le active name (p ∷ procs) = ground (arith, idle_procs-cons-le active name procs)

idle_procs-cons-lt :
    (active : List String) (name : String) (procs : List ProcDef) {p : ProcDef}
    → find_proc procs name ≡ some p
    → is_listed active name ≡ false
    → idle_procs (name ∷ active) procs < idle_procs active procs
unfolding idle_procs is_listed find_proc
idle_procs-cons-lt active name [] known free = cc
idle_procs-cons-lt active name (q ∷ procs) {p} known free = elim (Bool-cases (str_eq q.name name)) [
  | inl e ↦
      ground (arith, idle_procs-cons-le active name procs, eq_iff q.name name, eq_iff name q.name)
  | inr e ↦ ground (
    arith,
    idle_procs-cons-lt active name procs (rw e at known) free,
    eq_iff q.name name,
    eq_iff name q.name,
  )
]

pub idle_procs-le-length :
    (active : List String) (procs : List ProcDef) → idle_procs active procs ≤ length procs
unfolding idle_procs
idle_procs-le-length active [] = omega arith
idle_procs-le-length active (p ∷ procs) = ground (arith, idle_procs-le-length active procs)

-- With a level for each `proc` that is not being expanded, statements are lowered to the end.
pub lower-Post :
    (depth : ℕ) (stmts : Stmts) (entry : Span) (em : Emitter)
    → idle_procs em.active_procs em.procs ≤ depth
    → IsOrderly em
    → Yields (Post em) (lower depth stmts entry em)
unfolding lower
lower-Post zero stmts entry em enough i =
    stmts_with-Post (λ _ _ _. exhausted) stmts entry em i
      λ name p entry' known free e j q a.
        absurd (omega (arith, idle_procs-cons-lt em.active_procs name em.procs known free))
lower-Post (suc depth) stmts entry em enough i =
    stmts_with-Post (lower depth) stmts entry em i λ name p entry' known free e j q a.
      lower-Post depth p.body entry' e
        (rw (q, a) (omega (arith, idle_procs-cons-lt em.active_procs name em.procs known free))) j
