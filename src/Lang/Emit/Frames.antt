-- ===== src/Lang/Emit/Frames.antt =====
-- `expect` and `frame`: the verdicts that wait for the end of a frame.
use tamal.Base.{
  ℕ, suc, ◌<◌, ◌≤◌, Bool, true, false, Bool-cases, inl, inr, List, [], ◌∷◌, ◌++◌, Option, some,
  All-append, ◌≡◌, refl, arith, ◌∙◌, sym, ap, subst, length, length-append, append_assoc,
  append-nil,
}
use mathlib.Core.List.{map-append}
use tamal.Asm.Diagnostics.{Span}
use tamal.Asm.Outcome.{Outcome, ◌>>=◌, Yields, yields, fails, Yields-bind, Yields-map}
use tamal.Lang.Ast.{Expr}
use tamal.Lang.RegAlloc.{Reg, contains}
use tamal.Lang.Emit.{AsmLine, Deferred, Emitter, gensym, in_frame}
use tamal.Lang.Emit.Lower.{add_deferred, defer, expect_inside, lower_expect}
use tamal.Lang.Emit.Bus.{
  Bus, released, asserted, observe, watch, watch-append, then_observe, latch, regs_of, Fresh,
}
use tamal.Lang.Emit.Straight.{
  IsOrderly, Same, Same-trans, Steady, Steady-trans, Pushed, push-Pushed, take_temp-Taken,
  give_back-Steady,
}
use tamal.Lang.Emit.Transfers.{eval_byte-Yields, get_byte-Steady, still_fresh}

-- Verdicts may join the innermost frame.
pub data Grows : List (List Deferred) → List (List Deferred) → Type 0 where
  none_open : Grows [] []
  more :
      {frame frame' : List Deferred} {frames : List (List Deferred)} (new : List Deferred)
      → frame' ≡ frame ++ new
      → Grows (frame ∷ frames) (frame' ∷ frames)

pub Grows-refl : (frames : List (List Deferred)) → Grows frames frames
Grows-refl [] = none_open
Grows-refl (frame ∷ frames) = more [] (sym (append-nil frame))

pub Grows-trans : {a b c : List (List Deferred)} → Grows a b → Grows b c → Grows a c
Grows-trans none_open g = g
Grows-trans (more {frame} new e) (more new' e') =
    more (new ++ new') (e' ∙ ap (λ (l : List Deferred). l ++ new') e ∙ append_assoc frame new new')

-- After a statement.
pub record Post (em em' : Emitter) : Type 0 where
  pub orderly : IsOrderly em'
  pub same : Same em em'
  pub grown : Grows em.frames em'.frames

pub Post-of_Steady : {em em' : Emitter} → Steady em em' → Post em em'
Post-of_Steady {em} s = record {
  orderly = s.orderly;
  same = s.same;
  grown =
      subst (λ (fs : List (List Deferred)). Grows em.frames fs) (sym s.frames_same)
        (Grows-refl em.frames);
}

pub Post-trans : {a b c : Emitter} → Post a b → Post b c → Post a c
Post-trans s t = record {
  orderly = t.orderly;
  same = Same-trans s.same t.same;
  grown = Grows-trans s.grown t.grown;
}

pub Post-then :
    {em : Emitter} {m : Outcome Emitter} {next : Emitter → Outcome Emitter}
    → Yields (Post em) m
    → ((em' : Emitter) → Post em em' → Yields (Post em') (next em'))
    → Yields (Post em) (m >>= next)
Post-then h rest = Yields-bind h λ em' s. Yields-map (λ em'' t. Post-trans s t) (rest em' s)

-- What an observer makes of one more line.
pub seen_line :
    (line : AsmLine) (span : Span) (em : Emitter) (bus : Bus) (next : Option Bus)
    → watch em.lines (some (released [])) ≡ some bus
    → observe line bus ≡ next
    → watch (em.lines ++ (line, span) ∷ []) (some (released [])) ≡ next
seen_line line span em bus next seen e =
    watch-append em.lines line span (some (released []))
    ∙ ap (λ (b : Option Bus). then_observe b line) seen
    ∙ e

pub room_for :
    (line : AsmLine) (span : Span) (em : Emitter)
    → suc (length em.lines) ≤ 4096
    → length (em.lines ++ (line, span) ∷ []) ≤ 4096
room_for line span em room = omega (arith, room, length-append {0} em.lines ((line, span) ∷ []))

latched_after :
    (frame : List Deferred) (d : Deferred)
    → contains (regs_of frame) d.reg ≡ false
    → latch d.reg (asserted (regs_of frame)) ≡ some (asserted (regs_of (frame ++ d ∷ [])))
unfolding latch
latched_after frame d fresh = rw (fresh, map-append) refl

-- The end of an `expect` in a frame, on the emitter that holds the register of the residue.
deferred :
    (reg : Reg) (code : ℕ) (span : Span) (frame : List Deferred) (frames : List (List Deferred))
    {em em' : Emitter}
    → IsOrderly em
    → em.frames ≡ frame ∷ frames
    → contains (regs_of frame) reg ≡ false
    → reg < 16
    → em.alloc.busy reg ≡ true
    → Pushed (AsmLine.rdsr_crc reg) span em em'
    → Post em (defer reg code span (gensym "fail" em'))
unfolding defer gensym add_deferred observe
deferred reg code span frame frames {em} {em'} i e fresh lt busy p =
    let d : Deferred = record {
      reg = reg;
      label = (gensym "fail" em).0;
      code = code;
      span = span;
    } in
    rw p.appended (record {
      orderly = record {
        seen = rw e (
            seen_line (AsmLine.rdsr_crc reg) span em (asserted (regs_of frame)) _ (rw e at i.seen)
              (latched_after frame d fresh));
        held = rw e (
            All-append (λ (d : Deferred). (em.alloc.busy d.reg ≡ true) × (d.reg < 16)) frame
              (d ∷ []) (rw e at i.held) ((busy, lt), tt));
        env_ok = i.env_ok;
        few_lines = room_for (AsmLine.rdsr_crc reg) span em p.room;
        few_expansions = i.few_expansions;
      };
      same = record { env_same = refl; procs_same = refl; active_same = refl; sites_same = refl };
      grown = rw e (more (d ∷ []) refl);
    })

-- The frame that is open.
open_frame_of :
    (frames : List (List Deferred))
    → (elim frames as (λ _. Bool) [ [] ↦ false | _ ∷ _ ↦ true ]) ≡ true
    → (frame : List Deferred) × (rest : List (List Deferred)) × (frames ≡ frame ∷ rest)
open_frame_of [] e = cc
open_frame_of (frame ∷ rest) e = (frame, rest, refl)

expect_inside-Post :
    (else_code : Expr) (span : Span) (frame : List Deferred) (frames : List (List Deferred))
    {em : Emitter}
    → IsOrderly em
    → em.frames ≡ frame ∷ frames
    → Yields (Post em) (expect_inside else_code span em)
unfolding expect_inside
expect_inside-Post else_code span frame frames {em} i e =
    Yields-bind (eval_byte-Yields else_code em.env i.env_ok) λ code _.
      Yields-bind (take_temp-Taken span i) λ t k.
        Yields-bind (get_byte-Steady t.0 span k.steady.orderly (still_fresh t.0 k.steady k.fresh))
          λ em₂ s.
            let back =
              give_back-Steady t.0 s.orderly (still_fresh t.0 (Steady-trans k.steady s) k.fresh) in
            Yields-bind (take_temp-Taken span back.orderly) λ u j.
              Yields-bind (push-Pushed (AsmLine.rdsr_crc u.0) span u.1) λ em₄ p.
                let all = Steady-trans (Steady-trans (Steady-trans k.steady s) back) j.steady in
                yields (
                  Post-trans (Post-of_Steady all) (
                    deferred u.0 code span frame frames j.steady.orderly (all.frames_same ∙ e)
                      (subst (λ (fs : List (List Deferred)). Fresh u.0 fs)
                        (back.frames_same ∙ s.frames_same ∙ k.steady.frames_same ∙ e) j.fresh)
                      j.in_file j.now_busy p))

frame_of_in_frame :
    (em : Emitter)
    → in_frame em ≡ true
    → (frame : List Deferred) × (rest : List (List Deferred)) × (em.frames ≡ frame ∷ rest)
unfolding in_frame
frame_of_in_frame em e = open_frame_of em.frames e

no_frame_of :
    (frames : List (List Deferred))
    → (elim frames as (λ _. Bool) [ [] ↦ false | _ ∷ _ ↦ true ]) ≡ false
    → frames ≡ []
no_frame_of [] e = refl
no_frame_of (frame ∷ rest) e = cc

pub no_frame_of_in_frame : (em : Emitter) → in_frame em ≡ false → em.frames ≡ []
unfolding in_frame
no_frame_of_in_frame em e = no_frame_of em.frames e

pub lower_expect-Post :
    (else_code : Expr) (span : Span) {em : Emitter}
    → IsOrderly em
    → Yields (Post em) (lower_expect else_code span em)
unfolding lower_expect
lower_expect-Post else_code span {em} i = elim (Bool-cases (in_frame em)) [
  | inl t ↦
      (let (frame, rest, e) = frame_of_in_frame em t in
        rw (t, lower_expect) (expect_inside-Post else_code span frame rest i e))
  | inr t ↦ rw (t, lower_expect) fails
]
