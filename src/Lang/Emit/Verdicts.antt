-- ===== src/Lang/Emit/Verdicts.antt =====
-- The end of a frame: the release, and the verdicts in order.
use Prim.Native.String.{String}
use tamal.Base.{◌≤◌, List, [], ◌∷◌, some, ◌≡◌, refl, sym, ap, subst, length, eq→==}
use tamal.Asm.Diagnostics.{Span}
use tamal.Asm.Outcome.{Outcome, Yields, yields, Yields-bind}
use tamal.Lang.Ast.{ProcDef}
use tamal.Lang.Consteval.Defaults.{IsEnv}
use tamal.Lang.RegAlloc
use tamal.Lang.RegAlloc.{Reg, RegAlloc, contains}
use tamal.Lang.Emit.{AsmLine, Deferred, Emitter}
use tamal.Lang.Emit.Lower.{verdicts, open_frame, close_frame, lower_frame}
use tamal.Lang.Emit.Bus.{
  released, asserted, observe, watch, judge, assert_line, release_line, regs_of,
}
use tamal.Lang.Emit.Straight.{IsOrderly, Same, Same-trans, Pushed, push-Pushed}
use tamal.Lang.Emit.Frames.{Grows, Post, seen_line, room_for, none_open, more}

-- The emitter after `cs_deassert`, with the verdicts that are still to come.
record Judging (pending : List Deferred) (em₀ em : Emitter) : Type 0 where
  seen : watch em.lines (some (released [])) ≡ some (released (regs_of pending))
  no_frames : em.frames ≡ []
  env_ok : IsEnv em.env
  few_lines : length em.lines ≤ 4096
  few_expansions : em.expansions ≤ 65536
  same : Same em₀ em

judged :
    (d : Deferred) (pending : List Deferred)
    → judge d.reg (released (regs_of (d ∷ pending))) ≡ some (released (regs_of pending))
unfolding judge
judged d pending = rw (eq→== d.reg d.reg refl) refl

verdicts-Judging :
    (pending : List Deferred) (em₀ em : Emitter)
    → Judging pending em₀ em
    → Yields (Judging [] em₀) (verdicts pending em)
unfolding verdicts observe
verdicts-Judging [] em₀ em j = yields j
verdicts-Judging (d ∷ pending) em₀ em j =
    Yields-bind (push-Pushed (AsmLine.bnez d.reg d.label) d.span em) λ em' p.
      verdicts-Judging pending em₀ _ (
        rw p.appended (record {
          seen =
              seen_line (AsmLine.bnez d.reg d.label) d.span em (released (regs_of (d ∷ pending))) _
                j.seen (judged d pending);
          no_frames = j.no_frames;
          env_ok = j.env_ok;
          few_lines = room_for (AsmLine.bnez d.reg d.label) d.span em p.room;
          few_expansions = j.few_expansions;
          same = record {
            env_same = j.same.env_same;
            procs_same = j.same.procs_same;
            active_same = j.same.active_same;
            sites_same = j.same.sites_same;
          };
        }))

-- What a body does, for the emitters that go with a chain of expansions.
abbrev pub Works : List ProcDef → List String → (Emitter → Outcome Emitter) → Type 0
Works procs active body =
    (e : Emitter)
    → IsOrderly e
    → e.procs ≡ procs
    → e.active_procs ≡ active
    → Yields (Post e) (body e)

opened-IsOrderly :
    (span : Span) {em em' : Emitter}
    → IsOrderly em
    → em.frames ≡ []
    → Pushed AsmLine.cs_assert span em em'
    → IsOrderly (open_frame em') × Same em (open_frame em') × ((open_frame em').frames ≡ [] ∷ [])
unfolding open_frame observe assert_line RegAlloc.enter_scope
opened-IsOrderly span {em} i e p = rw p.appended (
  record {
    seen = seen_line AsmLine.cs_assert span em (released []) _ (rw e at i.seen) refl;
    held = tt;
    env_ok = i.env_ok;
    few_lines = room_for AsmLine.cs_assert span em p.room;
    few_expansions = i.few_expansions;
  },
  record { env_same = refl; procs_same = refl; active_same = refl; sites_same = refl },
  ap (λ (fs : List (List Deferred)). [] ∷ fs) e,
)

-- The frames after the body: the frame that was opened, over the frames before.
opened_frame :
    {frames after : List (List Deferred)}
    → Grows ([] ∷ frames) after
    → (frame : List Deferred) × (after ≡ frame ∷ frames)
opened_frame (more {frame'} new e) = (frame', refl)

closing-Judging :
    (span : Span) (frame : List Deferred) (em₀ : Emitter) {em em' : Emitter}
    → IsOrderly em
    → Same em₀ em
    → em.frames ≡ frame ∷ []
    → Pushed AsmLine.cs_deassert span (record em { frames = [] }) em'
    → Judging frame em₀ em'
unfolding observe release_line
closing-Judging span frame em₀ {em} i same e p = rw p.appended (record {
  seen = seen_line AsmLine.cs_deassert span em (asserted (regs_of frame)) _ (rw e at i.seen) refl;
  no_frames = refl;
  env_ok = i.env_ok;
  few_lines = room_for AsmLine.cs_deassert span em p.room;
  few_expansions = i.few_expansions;
  same = record {
    env_same = same.env_same;
    procs_same = same.procs_same;
    active_same = same.active_same;
    sites_same = same.sites_same;
  };
})

closed-Post :
    {em₀ em : Emitter}
    → em₀.frames ≡ []
    → Judging [] em₀ em
    → Post em₀ (record em { alloc = RegAlloc.exit_scope em.alloc })
closed-Post {em₀} {em} e j = record {
  orderly = record {
    seen = rw j.no_frames j.seen;
    held = rw j.no_frames tt;
    env_ok = j.env_ok;
    few_lines = j.few_lines;
    few_expansions = j.few_expansions;
  };
  same = record {
    env_same = j.same.env_same;
    procs_same = j.same.procs_same;
    active_same = j.same.active_same;
    sites_same = j.same.sites_same;
  };
  grown = rw (j.no_frames, e) none_open;
}

close_frame-Post :
    (span : Span) (frame : List Deferred) {em₀ em : Emitter}
    → em₀.frames ≡ []
    → IsOrderly em
    → Same em₀ em
    → em.frames ≡ frame ∷ []
    → Yields (Post em₀) (close_frame span (frame ∷ []) em)
unfolding close_frame
close_frame-Post span frame {em₀} {em} outside i same e =
    Yields-bind (push-Pushed AsmLine.cs_deassert span (record em { frames = [] })) λ em₁ p.
      Yields-bind (verdicts-Judging frame em₀ em₁ (closing-Judging span frame em₀ i same e p))
        λ em₂ j. yields (closed-Post outside j)

-- A frame, outside every other.
pub lower_frame-Post :
    (body : Emitter → Outcome Emitter) (span : Span) {em : Emitter}
    → IsOrderly em
    → em.frames ≡ []
    → Works em.procs em.active_procs body
    → Yields (Post em) (lower_frame body span em)
unfolding lower_frame
lower_frame-Post body span {em} i e works =
    Yields-bind (push-Pushed AsmLine.cs_assert span em) λ em₁ p.
      let o = opened-IsOrderly span i e p in
      Yields-bind (works (open_frame em₁) o.0 o.1.procs_same o.1.active_same) λ em₂ q.
        let (frame, f) =
          opened_frame (subst (λ (fs : List (List Deferred)). Grows fs em₂.frames) o.2 q.grown) in
        subst (λ (fs : List (List Deferred)). Yields (Post em) (close_frame span fs em₂)) (sym f)
          (close_frame-Post span frame e q.orderly (Same-trans o.1 q.same) f)
