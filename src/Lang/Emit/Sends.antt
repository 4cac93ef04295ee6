-- ===== src/Lang/Emit/Sends.antt =====
-- The bytes that `send` and `crc_region` put on the bus.
use tamal.Base.{
  ℕ, ◌+◌, ◌≤◌, ◌<◌, leb, true, Bool-cases, inl, inr, List, [], ◌∷◌, ◌++◌, map, length,
  length-append, All, All-append, ◌≡◌, refl, sym, subst, append_assoc, append-nil, arith,
}
use tamal.Abi.Crc8.{crc8}
use tamal.Abi.Crc8.Detection.{crc8_residue, crc8-IsByte}
use tamal.Asm.Diagnostics.{Span, Diagnostic, too_many_lines, too_many_lines_help}
use tamal.Asm.Outcome.{Outcome, done, failed, exhausted, ◌>>=◌, Yields, yields, fails}
use tamal.Lang.Ast.{Expr}
use tamal.Lang.Consteval.{Env}
use tamal.Lang.Consteval.Eval.{eval_bytes}
use tamal.Lang.Consteval.Types.{IsByte}
use tamal.Lang.Consteval.Defaults.{IsEnv}
use tamal.Lang.Emit.{AsmLine, Emitter, push, max_emitted_lines, budget_error}
use tamal.Lang.Emit.Lower.{eval_depth, push_bytes, region_bytes, lower_send, lower_crc_region}
use tamal.Lang.Emit.Transfers.{eval_bytes-Yields, region_bytes-Yields}

-- A run of `put_byte` lines.
abbrev pub puts : List ℕ → Span → List (AsmLine × Span)
puts bs span = map (λ (b : ℕ). (AsmLine.put_byte b, span)) bs

-- The lines are appended where the program stays within 4096 of them, with the rest of the emitter as it
-- was, and are refused where it does not.
pub data Put (bs : List ℕ) (span : Span) (em : Emitter) : Outcome Emitter → Type 0 where
  fits :
      length em.lines + length bs ≤ 4096
      → Put bs span em (done (record em { lines = em.lines ++ puts bs span }))
  overflows :
      4096 < length em.lines + length bs
      → Put bs span em
          (failed (budget_error em.expansion_sites span too_many_lines too_many_lines_help))

Put-cons :
    (b : ℕ) (bs : List ℕ) (span : Span) (em : Emitter) {r : Outcome Emitter}
    → Put bs span (record em { lines = em.lines ++ (AsmLine.put_byte b, span) ∷ [] }) r
    → Put (b ∷ bs) span em r
Put-cons b bs span em (fits h) =
    subst (λ (l : List (AsmLine × Span)). Put (b ∷ bs) span em (done (record em { lines = l })))
      (sym (append_assoc em.lines ((AsmLine.put_byte b, span) ∷ []) (puts bs span)))
      (fits (omega (arith, h, length-append {0} em.lines ((AsmLine.put_byte b, span) ∷ []))))
Put-cons b bs span em (overflows h) =
    overflows (omega (arith, h, length-append {0} em.lines ((AsmLine.put_byte b, span) ∷ [])))

push_bytes-Put :
    (bs : List ℕ) (span : Span) (em : Emitter)
    → length em.lines ≤ 4096
    → Put bs span em (push_bytes bs span em)
unfolding push_bytes push
push_bytes-Put [] span em h =
    subst (λ (l : List (AsmLine × Span)). Put [] span em (done (record em { lines = l })))
      (append-nil em.lines) (fits (omega (arith, h)))
push_bytes-Put (b ∷ bs) span em h = elim (Bool-cases (leb max_emitted_lines (length em.lines))) [
  | inl e ↦ rw (e, push) (overflows (ground (arith, e)))
  | inr e ↦
      rw (e, push)
        (Put-cons b bs span em (
          push_bytes-Put bs span (record em { lines = em.lines ++ (AsmLine.put_byte b, span) ∷ [] })
            (ground (arith, e, length-append {0} em.lines ((AsmLine.put_byte b, span) ∷ [])))))
]

-- The values of the sends of a region one after the other, or the error of the first that has none.
pub data Values (env : Env) : List Expr → Outcome (List ℕ) → Type 0 where
  all : Values env [] (done [])
  stops :
      {e : Expr} {sends : List Expr} {d : Diagnostic}
      → eval_bytes (eval_depth env) e env ≡ failed d
      → Values env (e ∷ sends) (failed d)
  value :
      {e : Expr} {sends : List Expr} {bs rest : List ℕ}
      → eval_bytes (eval_depth env) e env ≡ done bs
      → Values env sends (done rest)
      → Values env (e ∷ sends) (done (bs ++ rest))
  stops_later :
      {e : Expr} {sends : List Expr} {bs : List ℕ} {d : Diagnostic}
      → eval_bytes (eval_depth env) e env ≡ done bs
      → Values env sends (failed d)
      → Values env (e ∷ sends) (failed d)

-- A statement that puts out the bytes of this value and their CRC, and has no other error than that of the
-- value or of too many lines. The CRC of all the bytes is 0.
pub data Checked (span : Span) (em : Emitter) : Outcome (List ℕ) → Outcome Emitter → Type 0 where
  no_value : {d : Diagnostic} → Checked span em (failed d) (failed d)
  checked :
      {bs : List ℕ} {r : Outcome Emitter}
      → All IsByte (bs ++ crc8 bs ∷ [])
      → crc8 (bs ++ crc8 bs ∷ []) ≡ 0
      → Put (bs ++ crc8 bs ∷ []) span em r
      → Checked span em (done bs) r

module _ (span : Span) (em : Emitter) (room : length em.lines ≤ 4096) where
  value-Checked :
      {m : Outcome (List ℕ)}
      → Yields (All IsByte) m
      → Checked span em m (m >>= λ bs. push_bytes (bs ++ crc8 bs ∷ []) span em)
  value-Checked (yields {a = bs} p) =
      checked (All-append IsByte bs (crc8 bs ∷ []) p (crc8-IsByte bs, tt)) (crc8_residue bs)
        (push_bytes-Put (bs ++ crc8 bs ∷ []) span em room)
  value-Checked fails = no_value

Values-exhausted : {env : Env} {sends : List Expr} → ¬ (Values env sends exhausted)
Values-exhausted v = elim v [ ]

region_bytes-Values :
    (env : Env) (sends : List Expr) → IsEnv env → Values env sends (region_bytes sends env)
unfolding region_bytes
region_bytes-Values env [] h = all
region_bytes-Values env (e ∷ sends) h =
    first (eval_bytes (eval_depth env) e env) refl (eval_bytes-Yields e env h)
      (region_bytes sends env) (region_bytes-Values env sends h)
  where
    first :
        (m : Outcome (List ℕ))
        → eval_bytes (eval_depth env) e env ≡ m
        → Yields (All IsByte) m
        → (more : Outcome (List ℕ)) → Values env sends more
        → Values env (e ∷ sends) (m >>= λ bs. more >>= λ rest. done (bs ++ rest))
    first (failed d) k q more v = stops k
    first (done bs) k q (done rest) v = value k v
    first (done bs) k q (failed d) v = stops_later k v
    first (done bs) k q exhausted v = absurd (Values-exhausted v)
    first exhausted k q more v = elim q [ ]

-- In an environment whose byte strings hold bytes, and with at most 4096 lines so far, `send` with a CRC
-- appends `put_byte` lines of the bytes of its value and of their CRC, and `crc_region` those of the values
-- of its sends in order and of the CRC of them all. All these bytes have the CRC 0. They change nothing
-- else, and end with an error just where a value has one, or where the lines would be more than 4096.
pub send-Checked :
    (payload : Expr) (sends : List Expr) (span : Span) (em : Emitter)
    → IsEnv em.env
    → length em.lines ≤ 4096
    → Checked span em
        (eval_bytes (eval_depth em.env) payload em.env)
        (lower_send payload true span em)
      × ((total : Outcome (List ℕ)) × Values em.env sends total
          × Checked span em total (lower_crc_region sends span em))
unfolding lower_send lower_crc_region
send-Checked payload sends span em h room = (
  value-Checked span em room (eval_bytes-Yields payload em.env h),
  (
    region_bytes sends em.env,
    region_bytes-Values em.env sends h,
    value-Checked span em room (region_bytes-Yields sends em.env h),
  ),
)
