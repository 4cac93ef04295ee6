-- ===== src/Lang/Emit/Straight.antt =====
-- The invariant of the emitter, and the statements that open no scope.
use Prim.Native.String.{String}
use tamal.Base.{
  suc, ◌<◌, ◌≤◌, leb, true, Bool-cases, List, [], ◌∷◌, ◌++◌, Option, some, length, length-append,
  ◌≡◌, refl, inl, inr, arith, ◌∙◌, ap, Result, ok, err,
}
use tamal.Asm.Diagnostics.{Span, Diagnostic}
use tamal.Asm.Outcome.{
  Outcome, done, outcome, ◌>>=◌, Yields, yields, fails, Yields-bind, Yields-map,
}
use tamal.Lang.Consteval.Defaults.{IsEnv}
use tamal.Lang.RegAlloc
use tamal.Lang.RegAlloc.{Reg, RegAlloc, mark, mark_checked, name_reg}
use tamal.Lang.RegAlloc.Alloc.{IsLowestFree, Allocated, alloc-Allocated, took, refused, taking}
use tamal.Lang.Emit.{AsmLine, Deferred, Emitter, push, max_emitted_lines}
use tamal.Lang.Emit.Lower.{take_temp, take_named, give_back}
use tamal.Lang.Emit.Bus.{
  Bus, released, overwrite, observe, watch, watch-append, then_observe, bus_of, HeldBy, Fresh,
  fresh_of_idle, HeldBy-mono, HeldBy-free,
}

-- What holds of the emitter between two statements: an observer of its lines accepts them and is left
-- with the residues of the open frame, whose registers are busy, and both budgets are kept.
pub record IsOrderly (em : Emitter) : Type 0 where
  pub seen : watch em.lines (some (released [])) ≡ some (bus_of em.frames)
  pub held : HeldBy em.alloc.busy em.frames
  pub env_ok : IsEnv em.env
  pub few_lines : length em.lines ≤ 4096
  pub few_expansions : em.expansions ≤ 65536

-- What a statement leaves as it was.
pub record Same (em em' : Emitter) : Type 0 where
  pub env_same : em'.env ≡ em.env
  pub procs_same : em'.procs ≡ em.procs
  pub active_same : em'.active_procs ≡ em.active_procs
  pub sites_same : em'.expansion_sites ≡ em.expansion_sites

pub Same-refl : (em : Emitter) → Same em em
Same-refl em = record { env_same = refl; procs_same = refl; active_same = refl; sites_same = refl }

pub Same-trans : {a b c : Emitter} → Same a b → Same b c → Same a c
Same-trans s t = record {
  env_same = t.env_same ∙ s.env_same;
  procs_same = t.procs_same ∙ s.procs_same;
  active_same = t.active_same ∙ s.active_same;
  sites_same = t.sites_same ∙ s.sites_same;
}

-- After work that opens no scope and adds no verdict.
pub record Steady (em em' : Emitter) : Type 0 where
  pub orderly : IsOrderly em'
  pub same : Same em em'
  pub frames_same : em'.frames ≡ em.frames

pub Steady-refl : {em : Emitter} → IsOrderly em → Steady em em
Steady-refl {em} i = record { orderly = i; same = Same-refl em; frames_same = refl }

pub Steady-trans : {a b c : Emitter} → Steady a b → Steady b c → Steady a c
Steady-trans s t = record {
  orderly = t.orderly;
  same = Same-trans s.same t.same;
  frames_same = t.frames_same ∙ s.frames_same;
}

-- Work in a row.
pub Steady-then :
    {em : Emitter} {m : Outcome Emitter} {next : Emitter → Outcome Emitter}
    → Yields (Steady em) m
    → ((em' : Emitter) → Steady em em' → Yields (Steady em') (next em'))
    → Yields (Steady em) (m >>= next)
Steady-then h rest = Yields-bind h λ em' s. Yields-map (λ em'' t. Steady-trans s t) (rest em' s)

-- A line that is appended within the budget.
pub record Pushed (line : AsmLine) (span : Span) (em em' : Emitter) : Type 0 where
  pub appended : em' ≡ record em { lines = em.lines ++ (line, span) ∷ [] }
  pub room : suc (length em.lines) ≤ 4096

pub push-Pushed :
    (line : AsmLine) (span : Span) (em : Emitter) → Yields (Pushed line span em) (push line span em)
unfolding push
push-Pushed line span em = elim (Bool-cases (leb max_emitted_lines (length em.lines))) [
  | inl e ↦ rw (e, push) fails
  | inr e ↦ rw (e, push) (yields (record { appended = refl; room = ground arith }))
]

-- A line that the observer passes over.
pub push-Steady :
    (line : AsmLine) (span : Span) {em : Emitter}
    → IsOrderly em
    → observe line (bus_of em.frames) ≡ some (bus_of em.frames)
    → Yields (Steady em) (push line span em)
push-Steady line span {em} i quiet = Yields-map after (push-Pushed line span em)
  where
    after : (em' : Emitter) → Pushed line span em em' → Steady em em'
    after em' p = rw p.appended (record {
      orderly = record {
        seen =
            watch-append em.lines line span (some (released []))
            ∙ ap (λ (b : Option Bus). then_observe b line) i.seen
            ∙ quiet;
        held = i.held;
        env_ok = i.env_ok;
        few_lines = omega (arith, p.room, length-append {0} em.lines ((line, span) ∷ []));
        few_expansions = i.few_expansions;
      };
      same = record { env_same = refl; procs_same = refl; active_same = refl; sites_same = refl };
      frames_same = refl;
    })

-- A write to a register outside the pending verdicts.
pub overwrite_fresh :
    (reg : Reg) (frames : List (List Deferred))
    → Fresh reg frames
    → overwrite reg (bus_of frames) ≡ some (bus_of frames)
unfolding overwrite RegAlloc.contains
overwrite_fresh reg [] fresh = refl
overwrite_fresh reg (frame ∷ frames) fresh = rw fresh refl

-- A register that was taken, with the emitter that holds it.
pub record Taken (em : Emitter) (taken : Reg × Emitter) : Type 0 where
  pub steady : Steady em taken.1
  pub fresh : Fresh taken.0 em.frames
  pub in_file : taken.0 < 16
  pub now_busy : taken.1.alloc.busy taken.0 ≡ true

Taken-alloc :
    {em : Emitter} (reg : Reg) (alloc : RegAlloc)
    → IsOrderly em
    → IsLowestFree em.alloc.busy reg
    → alloc.busy ≡ mark em.alloc.busy reg true
    → Taken em (reg, record em { alloc = alloc })
unfolding mark
Taken-alloc {em} reg alloc i low busy = record {
  steady = record {
    orderly = record {
      seen = i.seen;
      held = HeldBy-mono em.alloc.busy alloc.busy em.frames (λ n b. rw busy (ground arith)) i.held;
      env_ok = i.env_ok;
      few_lines = i.few_lines;
      few_expansions = i.few_expansions;
    };
    same = record { env_same = refl; procs_same = refl; active_same = refl; sites_same = refl };
    frames_same = refl;
  };
  fresh = fresh_of_idle em.alloc.busy em.frames reg i.held low.free_before;
  in_file = low.in_file;
  now_busy = rw busy (ground arith);
}

pub take_temp-Taken :
    (span : Span) {em : Emitter} → IsOrderly em → Yields (Taken em) (take_temp span em)
unfolding take_temp RegAlloc.temp taking
take_temp-Taken span {em} i = of_result (alloc-Allocated em.alloc span)
  where
    of_result :
        {r : Result (Reg × RegAlloc) Diagnostic}
        → Allocated em.alloc span r
        → Yields (Taken em) (outcome r >>= λ (reg, alloc). done (reg, record em { alloc = alloc }))
    of_result (took reg low) = yields (Taken-alloc reg (taking em.alloc reg) i low refl)
    of_result (refused all) = fails

pub take_named-Taken :
    (name : String) (span : Span) {em : Emitter}
    → IsOrderly em
    → Yields (Taken em) (take_named name span em)
unfolding take_named RegAlloc.bind taking name_reg
take_named-Taken name span {em} i = of_result (alloc-Allocated em.alloc span)
  where
    of_result :
        {r : Result (Reg × RegAlloc) Diagnostic}
        → Allocated em.alloc span r
        → Yields (Taken em) (
            outcome (elim r as (λ _. Result (Reg × RegAlloc) Diagnostic) [
              | ok t ↦ ok (t.0, name_reg t.1 name t.0)
              | err e ↦ err e
            ])
            >>= λ (reg, alloc). done (reg, record em { alloc = alloc }))
    of_result (took reg low) =
        yields (Taken-alloc reg (name_reg (taking em.alloc reg) name reg) i low refl)
    of_result (refused all) = fails

pub give_back-Steady :
    (reg : Reg) {em : Emitter} → IsOrderly em → Fresh reg em.frames → Steady em (give_back reg em)
unfolding give_back RegAlloc.free
give_back-Steady reg {em} i fresh = record {
  orderly = record {
    seen = i.seen;
    held = HeldBy-free em.alloc.busy em.frames reg fresh i.held;
    env_ok = i.env_ok;
    few_lines = i.few_lines;
    few_expansions = i.few_expansions;
  };
  same = record { env_same = refl; procs_same = refl; active_same = refl; sites_same = refl };
  frames_same = refl;
}
