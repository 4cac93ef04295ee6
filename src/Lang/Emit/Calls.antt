-- ===== src/Lang/Emit/Calls.antt =====
-- Calls of `proc`s, which are expanded in place.
use Prim.Native.String.{String}
use tamal.Base.{false, Bool-cases, inl, inr, List, ◌∷◌, Option, none, some, ◌≡◌, refl, arith, ap}
use tamal.Asm.Diagnostics.{Span}
use tamal.Asm.Outcome.{Outcome, Yields, yields, fails, Yields-bind}
use tamal.Lang.Ast.{Args, Stmts, FnDef, ProcDef}
use tamal.Lang.Consteval.{Table, get_fn, child_for_call_values, is_listed}
use tamal.Lang.Consteval.Types.{AreValues, AreBindings-AreValues}
use tamal.Lang.Consteval.Depth.{bind_args-Binds, idle-le-length}
use tamal.Lang.Emit.{Emitter, find_proc}
use tamal.Lang.Emit.Lower.{eval_depth, in_proc, call_proc, lower_call}
use tamal.Lang.Emit.Straight.{IsOrderly}
use tamal.Lang.Emit.Frames.{Post}
use tamal.Lang.Emit.Verdicts.{Works}
use tamal.Lang.Emit.Expansions.{expanded-Post}

-- What the lowering of less depth does for the `proc`s that may be called.
abbrev pub Ready : (Stmts → Span → Emitter → Outcome Emitter) → List ProcDef → List String → Type 0
Ready rec procs active =
    (name : String) (p : ProcDef) (entry : Span)
    → find_proc procs name ≡ some p
    → is_listed active name ≡ false
    → Works procs (name ∷ active) (rec p.body entry)

child-IsOrderly :
    (name : String) (bindings : Table) {em : Emitter}
    → IsOrderly em
    → AreValues bindings
    → IsOrderly (record em {
      env = child_for_call_values em.env bindings;
      active_procs = name ∷ em.active_procs;
    })
unfolding child_for_call_values
child-IsOrderly name bindings i b = record {
  seen = i.seen;
  held = i.held;
  env_ok = record { consts_ok = i.env_ok.consts_ok; locals_ok = b };
  few_lines = i.few_lines;
  few_expansions = i.few_expansions;
}

in_proc-Works :
    (name : String) (bindings : Table) (body : Emitter → Outcome Emitter) (procs : List ProcDef)
    (active : List String)
    → AreValues bindings
    → Works procs (name ∷ active) body
    → Works procs active (in_proc name bindings body)
unfolding in_proc
in_proc-Works name bindings body procs active b works em i p a =
    Yields-bind
      (works _ (child-IsOrderly name bindings i b) p (ap (λ (l : List String). name ∷ l) a))
      λ em' q. yields (record {
        orderly = record {
          seen = q.orderly.seen;
          held = q.orderly.held;
          env_ok = i.env_ok;
          few_lines = q.orderly.few_lines;
          few_expansions = q.orderly.few_expansions;
        };
        same = record {
          env_same = refl;
          procs_same = q.same.procs_same;
          active_same = refl;
          sites_same = q.same.sites_same;
        };
        grown = q.grown;
      })

call_proc-Post :
    (rec : Stmts → Span → Emitter → Outcome Emitter) (p : ProcDef) (name : String) (args : Args)
    (span entry : Span) {em : Emitter}
    → IsOrderly em
    → Ready rec em.procs em.active_procs
    → find_proc em.procs name ≡ some p
    → Yields (Post em) (call_proc rec p name args span entry em)
unfolding call_proc
call_proc-Post rec p name args span entry {em} i ready known =
    elim (Bool-cases (is_listed em.active_procs name)) [
      | inl e ↦ rw (e, call_proc) fails
      | inr e ↦
          rw (e, call_proc)
            (Yields-bind
              (bind_args-Binds (eval_depth em.env) name p.params args em.env span
                (omega (arith, idle-le-length em.env)) i.env_ok)
              λ bindings b. expanded-Post _ span i (
                in_proc-Works name bindings (rec p.body entry) em.procs em.active_procs
                  (AreBindings-AreValues p.params bindings b.typed) (ready name p entry known e)))
    ]

pub lower_call-Post :
    (rec : Stmts → Span → Emitter → Outcome Emitter) (name : String) (name_span : Span)
    (args : Args) (span entry : Span) {em : Emitter}
    → IsOrderly em
    → Ready rec em.procs em.active_procs
    → Yields (Post em) (lower_call rec name name_span args span entry em)
unfolding lower_call
lower_call-Post rec name name_span args span entry {em} i ready = at_fn (get_fn em.env name) refl
  where
    at_proc :
        (r : Option ProcDef)
        → find_proc em.procs name ≡ r
        → get_fn em.env name ≡ none
        → Yields (Post em) (lower_call rec name name_span args span entry em)
    at_proc none e f = rw (f, e, lower_call) fails
    at_proc (some p) e f =
        rw (f, e, lower_call) (call_proc-Post rec p name args span entry i ready e)

    at_fn :
        (r : Option FnDef)
        → get_fn em.env name ≡ r
        → Yields (Post em) (lower_call rec name name_span args span entry em)
    at_fn (some f) e = rw (e, lower_call) fails
    at_fn none e = at_proc (find_proc em.procs name) refl e
