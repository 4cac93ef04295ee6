-- ===== src/Lang/Emit/Whole.antt =====
-- A module with its tests: the lines of `emit`, as the observer sees them.
use tamal.Base.{ℕ, ◌+◌, ◌≤◌, List, [], ◌∷◌, some, ◌≡◌, refl, arith, ◌∙◌, length}
use tamal.Asm.Diagnostics.{Span}
use tamal.Asm.Outcome.{Yields, yields, Yields-bind, Yields-map}
use tamal.Lang.Ast.{ProcDef, Test, Module}
use tamal.Lang.Consteval.{Env}
use tamal.Lang.Consteval.Defaults.{IsEnv}
use tamal.Lang.Emit.{AsmLine, Deferred, Trailer, Emitter, procs_of, new}
use tamal.Lang.Emit.Program.{push_trailers, flush_trailers, emit_tests, emit}
use tamal.Lang.Emit.Bus.{released, observe, watch}
use tamal.Lang.Emit.Straight.{IsOrderly, Steady, Steady-refl, Steady-then, push-Steady}
use tamal.Lang.Emit.Frames.{Grows, none_open, more, Post, Post-of_Steady, Post-trans, Post-then}
use tamal.Lang.Emit.Expansions.{Post-refl}
use tamal.Lang.Emit.Sound.{line-Post, settled_outside, idle_procs, idle_procs-le-length, lower-Post}

push_trailers-Steady :
    (trailers : List Trailer) {em : Emitter}
    → IsOrderly em
    → em.frames ≡ []
    → Yields (Steady em) (push_trailers trailers em)
unfolding push_trailers observe
push_trailers-Steady [] i none = yields (Steady-refl i)
push_trailers-Steady (t ∷ trailers) {em} i none =
    Steady-then (push-Steady (AsmLine.label_line t.label) t.span i refl) λ em₁ a.
      let none₁ = a.frames_same ∙ none in
      Steady-then
        (push-Steady (AsmLine.halt_byte t.code) t.span a.orderly (settled_outside em₁.frames none₁))
        λ em₂ b. push_trailers-Steady trailers b.orderly (b.frames_same ∙ none₁)

flush_trailers-Post :
    {em : Emitter} → IsOrderly em → em.frames ≡ [] → Yields (Post em) (flush_trailers em)
unfolding flush_trailers
flush_trailers-Post {em} i none =
    Yields-map (λ em' s. Post-trans cleared (Post-of_Steady s))
      (push_trailers-Steady em.trailers cleared.orderly none)
  where
    cleared : Post em (record em { trailers = [] })
    cleared = record {
      orderly = record {
        seen = i.seen;
        held = i.held;
        env_ok = i.env_ok;
        few_lines = i.few_lines;
        few_expansions = i.few_expansions;
      };
      same = record { env_same = refl; procs_same = refl; active_same = refl; sites_same = refl };
      grown = rw none none_open;
    }

Grows-none : {frames after : List (List Deferred)} → Grows frames after → frames ≡ [] → after ≡ []
Grows-none none_open e = refl
Grows-none (more added f) e = cc

emit_tests-Post :
    (depth : ℕ) (tests : List Test) {em : Emitter}
    → IsOrderly em
    → em.frames ≡ []
    → idle_procs em.active_procs em.procs ≤ depth
    → Yields (Post em) (emit_tests depth tests em)
unfolding emit_tests observe
emit_tests-Post depth [] i none enough = yields (Post-refl i)
emit_tests-Post depth (test ∷ tests) {em} i none enough =
    Post-then (line-Post AsmLine.globl_start test.name_span i refl) λ em₁ a.
      Post-then (line-Post AsmLine.start_label test.name_span a.orderly refl) λ em₂ b.
        let ab = Post-trans a b in
        Post-then
          (lower-Post depth test.stmts test.name_span em₂
            (rw (ab.same.active_same, ab.same.procs_same) enough) b.orderly)
          λ em₃ c.
            let abc = Post-trans ab c in
            Post-then (flush_trailers-Post c.orderly (Grows-none abc.grown none)) λ em₄ d.
              let all = Post-trans abc d in
              emit_tests-Post depth tests d.orderly (Grows-none all.grown none)
                (rw (all.same.active_same, all.same.procs_same) enough)

procs_of-length :
    (procs found : List ProcDef) → length (procs_of procs found) ≡ length procs + length found
unfolding procs_of
procs_of-length [] found = omega arith
procs_of-length (p ∷ procs) found = omega (arith, procs_of-length procs (p ∷ found))

-- Lines that the observer accepts and that leave nothing open, within the budget.
pub record IsDisciplined (lines : List (AsmLine × Span)) : Type 0 where
  pub accepted : watch lines (some (released [])) ≡ some (released [])
  pub short : length lines ≤ 4096

pub new-IsOrderly : (module_ : Module) (env : Env) → IsEnv env → IsOrderly (new env module_)
unfolding new watch
new-IsOrderly module_ env h = record {
  seen = refl;
  held = tt;
  env_ok = h;
  few_lines = omega arith;
  few_expansions = omega arith;
}

-- Every module is lowered to the end: to an error, or to lines that the observer accepts.
pub emit-IsDisciplined :
    (module_ : Module) (env : Env) → IsEnv env → Yields IsDisciplined (emit module_ env)
unfolding emit new
emit-IsDisciplined module_ env h =
    Yields-bind
      (emit_tests-Post (length module_.procs) module_.tests (new-IsOrderly module_ env h) refl (
        omega (
          arith,
          idle_procs-le-length [] (procs_of module_.procs []),
          procs_of-length module_.procs [],
        )))
      λ em q. yields (record {
        accepted = rw (Grows-none q.grown refl) at q.orderly.seen;
        short = q.orderly.few_lines;
      })
