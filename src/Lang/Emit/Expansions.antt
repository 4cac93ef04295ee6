-- ===== src/Lang/Emit/Expansions.antt =====
-- `repeat` and the calls of `proc`s: bodies in a register scope of their own.
use tamal.Base.{
  ℕ, zero, suc, ◌≤◌, leb, Bool, true, Bool-cases, inl, inr, List, [], ◌∷◌, ◌++◌, ◌≡◌, refl, arith,
  ◌∙◌, ap, subst,
}
use tamal.Base.Int.{ℤ, pos, negsuc}
use tamal.Asm.Diagnostics.{Span}
use tamal.Asm.Outcome.{Outcome, Yields, yields, fails, Yields-bind}
use tamal.Lang.Ast.{Expr}
use tamal.Lang.RegAlloc
use tamal.Lang.RegAlloc.{Reg, RegAlloc, mark, mark_checked}
use tamal.Lang.Emit.{
  Deferred, Emitter, enter_expansion_scope, exit_expansion_scope, reserve_all, reserve_pending,
  reserve_deferred, drop_last, max_expansions,
}
use tamal.Lang.Emit.Lower.{expanded, rounds, unrolled, lower_repeat, max_unroll}
use tamal.Lang.Emit.Bus.{AreHeld, HeldBy}
use tamal.Lang.Emit.Straight.{IsOrderly, Same, Same-refl}
use tamal.Lang.Emit.Transfers.{eval_int-Yields}
use tamal.Lang.Emit.Frames.{Grows, Grows-refl, Post, Post-then}
use tamal.Lang.Emit.Verdicts.{Works}

drop_last-append : (sites : List Span) (site : Span) → drop_last (sites ++ site ∷ []) ≡ sites
unfolding drop_last
drop_last-append [] site = refl
drop_last-append (a ∷ []) site = refl
drop_last-append (a ∷ b ∷ sites) site =
    ap (λ (l : List Span). a ∷ l) (drop_last-append (b ∷ sites) site)

-- What is busy stays busy when registers are taken again.
reserve_all_mono :
    (frame : List Deferred) (alloc : RegAlloc) (n : Reg)
    → alloc.busy n ≡ true
    → (reserve_all frame alloc).busy n ≡ true
unfolding reserve_all RegAlloc.reserve mark_checked mark
reserve_all_mono [] alloc n b = b
reserve_all_mono (d ∷ frame) alloc n b =
    reserve_all_mono frame (RegAlloc.reserve alloc d.reg) n (ground arith)

-- Every register that is taken again is busy, whatever was freed before.
reserve_all-AreHeld :
    (frame : List Deferred) (busy : Reg → Bool) (alloc : RegAlloc)
    → AreHeld busy frame
    → AreHeld (reserve_all frame alloc).busy frame
unfolding reserve_all RegAlloc.reserve mark_checked mark
reserve_all-AreHeld [] busy alloc h = tt
reserve_all-AreHeld (d ∷ frame) busy alloc ((b, lt), h) = (
  (reserve_all_mono frame (RegAlloc.reserve alloc d.reg) d.reg (ground arith), lt),
  reserve_all-AreHeld frame busy (RegAlloc.reserve alloc d.reg) h,
)

-- An expansion that was entered within the budget.
record Entered (site : Span) (em em' : Emitter) : Type 0 where
  entered : em' ≡ record em {
    expansions = suc em.expansions;
    expansion_sites = em.expansion_sites ++ site ∷ [];
    alloc = RegAlloc.enter_scope em.alloc;
  }
  room : suc em.expansions ≤ 65536

enter_expansion_scope-Entered :
    (site : Span) (em : Emitter) → Yields (Entered site em) (enter_expansion_scope site em)
unfolding enter_expansion_scope
enter_expansion_scope-Entered site em = elim (Bool-cases (leb max_expansions em.expansions)) [
  | inl e ↦ rw (e, enter_expansion_scope) fails
  | inr e ↦ rw (e, enter_expansion_scope) (yields (record { entered = refl; room = ground arith }))
]

-- The emitter inside the expansion.
record Inside (site : Span) (em e : Emitter) : Type 0 where
  orderly : IsOrderly e
  env_same : e.env ≡ em.env
  procs_same : e.procs ≡ em.procs
  active_same : e.active_procs ≡ em.active_procs
  frames_same : e.frames ≡ em.frames
  sites_more : e.expansion_sites ≡ em.expansion_sites ++ site ∷ []

Entered-Inside :
    {site : Span} {em em' : Emitter} → IsOrderly em → Entered site em em' → Inside site em em'
unfolding RegAlloc.enter_scope
Entered-Inside i e = rw e.entered (record {
  orderly = record {
    seen = i.seen;
    held = i.held;
    env_ok = i.env_ok;
    few_lines = i.few_lines;
    few_expansions = e.room;
  };
  env_same = refl;
  procs_same = refl;
  active_same = refl;
  frames_same = refl;
  sites_more = refl;
})

reserve_pending-HeldBy :
    (frames : List (List Deferred)) (busy : Reg → Bool) (alloc : RegAlloc)
    → HeldBy busy frames
    → HeldBy (reserve_pending frames alloc).busy frames
unfolding reserve_pending
reserve_pending-HeldBy [] busy alloc h = tt
reserve_pending-HeldBy (frame ∷ frames) busy alloc h = reserve_all-AreHeld frame busy alloc h

left_IsOrderly : {e : Emitter} → IsOrderly e → IsOrderly (exit_expansion_scope e)
unfolding exit_expansion_scope reserve_deferred
left_IsOrderly {e} i = record {
  seen = i.seen;
  held = reserve_pending-HeldBy e.frames e.alloc.busy (RegAlloc.exit_scope e.alloc) i.held;
  env_ok = i.env_ok;
  few_lines = i.few_lines;
  few_expansions = i.few_expansions;
}

left-Post :
    {site : Span} {em em₁ em₂ : Emitter}
    → Inside site em em₁
    → Post em₁ em₂
    → Post em (exit_expansion_scope em₂)
unfolding exit_expansion_scope reserve_deferred
left-Post {site} {em} {em₁} {em₂} o q = record {
  orderly = left_IsOrderly q.orderly;
  same = record {
    env_same = q.same.env_same ∙ o.env_same;
    procs_same = q.same.procs_same ∙ o.procs_same;
    active_same = q.same.active_same ∙ o.active_same;
    sites_same =
        ap drop_last (q.same.sites_same ∙ o.sites_more) ∙ drop_last-append em.expansion_sites site;
  };
  grown = subst (λ (fs : List (List Deferred)). Grows fs em₂.frames) o.frames_same q.grown;
}

pub expanded-Post :
    (body : Emitter → Outcome Emitter) (span : Span) {em : Emitter}
    → IsOrderly em
    → Works em.procs em.active_procs body
    → Yields (Post em) (expanded body span em)
unfolding expanded
expanded-Post body span {em} i works = Yields-bind (enter_expansion_scope-Entered span em) λ em₁ e.
    let o = Entered-Inside i e in
    Yields-bind (works em₁ o.orderly o.procs_same o.active_same) λ em₂ q. yields (left-Post o q)

pub Post-refl : {em : Emitter} → IsOrderly em → Post em em
Post-refl {em} i = record { orderly = i; same = Same-refl em; grown = Grows-refl em.frames }

-- A body works for the emitters that come after others, too.
Works-Same :
    {em em' : Emitter} (body : Emitter → Outcome Emitter)
    → Same em em'
    → Works em.procs em.active_procs body
    → Works em'.procs em'.active_procs body
Works-Same body s works e i p a = works e i (p ∙ s.procs_same) (a ∙ s.active_same)

rounds-Post :
    (n : ℕ) (body : Emitter → Outcome Emitter) (span : Span) {em : Emitter}
    → IsOrderly em
    → Works em.procs em.active_procs body
    → Yields (Post em) (rounds n body span em)
unfolding rounds
rounds-Post zero body span i works = yields (Post-refl i)
rounds-Post (suc n) body span i works =
    Post-then (expanded-Post body span i works)
      λ em' q. rounds-Post n body span q.orderly (Works-Same body q.same works)

unrolled-Post :
    (n : ℤ) (count : Expr) (body : Emitter → Outcome Emitter) (span : Span) {em : Emitter}
    → IsOrderly em
    → Works em.procs em.active_procs body
    → Yields (Post em) (unrolled n count body span em)
unfolding unrolled
unrolled-Post (pos n) count body span i works = elim (Bool-cases (leb n max_unroll)) [
  | inl e ↦ rw (e, unrolled) (rounds-Post n body span i works)
  | inr e ↦ rw (e, unrolled) fails
]
unrolled-Post (negsuc n) count body span i works = fails

pub lower_repeat-Post :
    (count : Expr) (body : Emitter → Outcome Emitter) (span : Span) {em : Emitter}
    → IsOrderly em
    → Works em.procs em.active_procs body
    → Yields (Post em) (lower_repeat count body span em)
unfolding lower_repeat
lower_repeat-Post count body span {em} i works =
    Yields-bind (eval_int-Yields count em.env i.env_ok)
      λ n _. unrolled-Post n count body span i works
