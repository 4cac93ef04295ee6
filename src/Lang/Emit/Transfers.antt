-- ===== src/Lang/Emit/Transfers.antt =====
-- The statements that move bytes: `send`, `crc_region`, `recv` and `wait_state`.
use Prim.Native.String.{String}
use tamal.Base.{ℕ, Bool, List, [], ◌∷◌, Option, none, some, All, All-append, refl, arith, ◌≤◌}
use tamal.Asm.Diagnostics.{Span}
use tamal.Asm.Outcome.{done, ◌>>=◌, Yields, yields, Yields-bind, Yields-map}
use tamal.Lang.Ast.{Expr, RecvTarget}
use tamal.Lang.Consteval.{Env}
use tamal.Lang.Consteval.Eval.{eval_bytes, eval_int, eval_byte}
use tamal.Lang.Consteval.Types.{IsByte, as_bytes-Yields, as_int-Yields, as_byte-Yields}
use tamal.Lang.Consteval.Defaults.{IsEnv}
use tamal.Lang.Consteval.Depth.{idle, eval-IsValue, idle-le-length}
use tamal.Lang.RegAlloc.{Reg}
use tamal.Lang.Emit.{Label, AsmLine, Emitter, push, gensym}
use tamal.Lang.Emit.Lower.{
  eval_depth, push_bytes, lower_send, region_bytes, lower_crc_region, take_temp, give_back,
  recv_target, lower_recv, take_response, release_response, wait_from, lower_wait_state,
  wait_state_code,
}
use tamal.Lang.Emit.Bus.{Fresh, observe}
use tamal.Lang.Emit.Straight.{
  IsOrderly, Steady, Steady-refl, Steady-trans, Steady-then, push-Steady, overwrite_fresh, Taken,
  take_temp-Taken, take_named-Taken, give_back-Steady,
}

enough : (env : Env) → idle env ≤ eval_depth env
enough env = omega (arith, idle-le-length env)

pub eval_bytes-Yields :
    (e : Expr) (env : Env) → IsEnv env → Yields (All IsByte) (eval_bytes (eval_depth env) e env)
unfolding eval_bytes
eval_bytes-Yields e env h =
    Yields-bind (eval-IsValue (eval_depth env) e env (enough env) h) λ v p. as_bytes-Yields e p

pub eval_int-Yields :
    (e : Expr) (env : Env) → IsEnv env → Yields (λ _. Unit {0}) (eval_int (eval_depth env) e env)
unfolding eval_int
eval_int-Yields e env h =
    Yields-bind (eval-IsValue (eval_depth env) e env (enough env) h) λ v p. as_int-Yields e p

pub eval_byte-Yields :
    (e : Expr) (env : Env) → IsEnv env → Yields IsByte (eval_byte (eval_depth env) e env)
unfolding eval_byte
eval_byte-Yields e env h = Yields-bind (eval_int-Yields e env h) λ n _. as_byte-Yields e n

pub push_bytes-Steady :
    (bs : List ℕ) (span : Span) {em : Emitter}
    → IsOrderly em
    → Yields (Steady em) (push_bytes bs span em)
unfolding push_bytes observe
push_bytes-Steady [] span i = yields (Steady-refl i)
push_bytes-Steady (b ∷ bs) span i =
    Steady-then (push-Steady (AsmLine.put_byte b) span i refl)
      λ em' s. push_bytes-Steady bs span s.orderly

pub lower_send-Steady :
    (payload : Expr) (append_crc : Bool) (span : Span) {em : Emitter}
    → IsOrderly em
    → Yields (Steady em) (lower_send payload append_crc span em)
unfolding lower_send
lower_send-Steady payload append_crc span {em} i =
    Yields-bind (eval_bytes-Yields payload em.env i.env_ok) λ bs _. push_bytes-Steady _ span i

pub region_bytes-Yields :
    (sends : List Expr) (env : Env) → IsEnv env → Yields (All IsByte) (region_bytes sends env)
unfolding region_bytes
region_bytes-Yields [] env h = yields tt
region_bytes-Yields (e ∷ sends) env h = Yields-bind (eval_bytes-Yields e env h) λ bs p.
    Yields-bind (region_bytes-Yields sends env h) λ rest q. yields (All-append IsByte bs rest p q)

pub lower_crc_region-Steady :
    (sends : List Expr) (span : Span) {em : Emitter}
    → IsOrderly em
    → Yields (Steady em) (lower_crc_region sends span em)
unfolding lower_crc_region
lower_crc_region-Steady sends span {em} i =
    Yields-bind (region_bytes-Yields sends em.env i.env_ok) λ total _. push_bytes-Steady _ span i

-- The frames after steady work, for a register that was fresh before it.
pub still_fresh :
    {em em' : Emitter} (reg : Reg) → Steady em em' → Fresh reg em.frames → Fresh reg em'.frames
still_fresh reg s fresh = rw s.frames_same fresh

-- A byte read into a register that spares the pending verdicts.
pub get_byte-Steady :
    (reg : Reg) (span : Span) {em : Emitter}
    → IsOrderly em
    → Fresh reg em.frames
    → Yields (Steady em) (push (AsmLine.get_byte reg) span em)
unfolding observe
get_byte-Steady reg span {em} i fresh =
    push-Steady (AsmLine.get_byte reg) span i (overwrite_fresh reg em.frames fresh)

recv_target-Steady :
    (target : RecvTarget) (span : Span) {em : Emitter}
    → IsOrderly em
    → Yields (Steady em) (recv_target target span em)
unfolding recv_target
recv_target-Steady (RecvTarget.named name) span {em} i =
    Yields-bind (take_named-Taken name span i) λ t k.
      Yields-map (λ em'' s. Steady-trans k.steady s)
        (get_byte-Steady t.0 span k.steady.orderly (still_fresh t.0 k.steady k.fresh))
recv_target-Steady RecvTarget.discard span {em} i = Yields-bind (take_temp-Taken span i) λ t k.
    Yields-bind (get_byte-Steady t.0 span k.steady.orderly (still_fresh t.0 k.steady k.fresh))
      λ em'' s. yields (
        Steady-trans (Steady-trans k.steady s)
          (give_back-Steady t.0 s.orderly (still_fresh t.0 (Steady-trans k.steady s) k.fresh)))

pub lower_recv-Steady :
    (targets : List RecvTarget) (span : Span) {em : Emitter}
    → IsOrderly em
    → Yields (Steady em) (lower_recv targets span em)
unfolding lower_recv
lower_recv-Steady [] span i = yields (Steady-refl i)
lower_recv-Steady (target ∷ targets) span i =
    Steady-then (recv_target-Steady target span i) λ em' s. lower_recv-Steady targets span s.orderly

take_response-Taken :
    (key : Option String) (span : Span) {em : Emitter}
    → IsOrderly em
    → Yields (Taken em) (take_response key span em)
unfolding take_response
take_response-Taken none span i = take_temp-Taken span i
take_response-Taken (some name) span i = take_named-Taken name span i

release_response-Steady :
    (key : Option String) (reg : Reg) {em : Emitter}
    → IsOrderly em
    → Fresh reg em.frames
    → Steady em (release_response key reg em)
unfolding release_response
release_response-Steady none reg i fresh = give_back-Steady reg i fresh
release_response-Steady (some name) reg i fresh = Steady-refl i

li-Steady :
    (reg : Reg) (n : ℕ) (span : Span) {em : Emitter}
    → IsOrderly em
    → Fresh reg em.frames
    → Yields (Steady em) (push (AsmLine.li reg n) span em)
unfolding observe
li-Steady reg n span {em} i fresh =
    push-Steady (AsmLine.li reg n) span i (overwrite_fresh reg em.frames fresh)

-- The second register of the poll, its comparison and the releases.
compare-Steady :
    (key : Option String) (resp : Reg) (label : Label) (span : Span) {em : Emitter}
    → IsOrderly em
    → Fresh resp em.frames
    → Yields (Steady em) (do
      (k, em₅) ← take_temp span em
      em₆ ← push (AsmLine.li k wait_state_code) span em₅
      em₇ ← push (AsmLine.beq resp k label) span em₆
      done (release_response key resp (give_back k em₇)))
unfolding observe
compare-Steady key resp label span {em} i fresh = Yields-bind (take_temp-Taken span i) λ t k.
    Yields-bind
      (li-Steady t.0 wait_state_code span k.steady.orderly (still_fresh t.0 k.steady k.fresh))
      λ em₆ s. Yields-bind (push-Steady (AsmLine.beq resp t.0 label) span s.orderly refl) λ em₇ u.
        let all = Steady-trans (Steady-trans k.steady s) u in
        let back = give_back-Steady t.0 u.orderly (still_fresh t.0 all k.fresh) in
        yields (
          Steady-trans (Steady-trans all back) (
            release_response-Steady key resp back.orderly
              (still_fresh resp (Steady-trans all back) fresh)))

wait_from-Steady :
    (label : Label) (key : Option String) (span : Span) {em : Emitter}
    → IsOrderly em
    → Yields (Steady em) (wait_from label key span em)
unfolding wait_from observe
wait_from-Steady label key span i =
    Steady-then (push-Steady (AsmLine.label_line label) span i refl) λ em₁ a.
      Steady-then (push-Steady AsmLine.crc_reset span a.orderly refl) λ em₂ b.
        Yields-bind (take_response-Taken key span b.orderly) λ t k.
          Yields-bind (get_byte-Steady t.0 span k.steady.orderly (still_fresh t.0 k.steady k.fresh))
            λ em₄ c.
              let all = Steady-trans k.steady c in
              Yields-map (λ em₅ d. Steady-trans all d)
                (compare-Steady key t.0 label span c.orderly (still_fresh t.0 all k.fresh))

pub gensym-Steady : (prefix : String) {em : Emitter} → IsOrderly em → Steady em (gensym prefix em).1
unfolding gensym
gensym-Steady prefix {em} i = record {
  orderly = record {
    seen = i.seen;
    held = i.held;
    env_ok = i.env_ok;
    few_lines = i.few_lines;
    few_expansions = i.few_expansions;
  };
  same = record { env_same = refl; procs_same = refl; active_same = refl; sites_same = refl };
  frames_same = refl;
}

pub lower_wait_state-Steady :
    (key : Option String) (span : Span) {em : Emitter}
    → IsOrderly em
    → Yields (Steady em) (lower_wait_state key span em)
unfolding lower_wait_state
lower_wait_state-Steady key span {em} i =
    Yields-map (λ em' s. Steady-trans (gensym-Steady "wait" i) s)
      (wait_from-Steady (gensym "wait" em).0 key span (gensym-Steady "wait" i).orderly)
