-- ===== src/Loader/Device/Retry.antt =====
-- The retry policy of `Device::run`: what it answers, by the attempts that fail before.
use tamal.Base.{
  ℕ, zero, suc, ◌+◌, ◌-◌, ◌<◌, ◌≡◌, refl, ap, sym, ◌∙◌, true, false, List, Result, ok, err, arith,
  Bool-cases, inl, inr,
}
use tamal.Abi.Trace.{Trace, TraceError}
use tamal.Abi.Wire.{WireError}
use tamal.Loader.Error.{
  Error, transport, open_failed, timeout, io, wire, trace, bad_program_length, program_too_large,
  retries_exhausted, panicked,
}
use tamal.Loader.Transport.{Transport}
use tamal.Loader.Device.{
  RunOptions, saturating_succ, recoverable, load_program, trigger, read_trace, after_drain,
  and_then, run_loop, run,
}

-- A drain that was lost or is malformed, as the doc of `run` puts it: none came in time, or the frame or the
-- trace in it does not decode.
pub data IsLost : Error → Type 0 where
  timed_out : IsLost (transport timeout)
  bad_frame : {e : WireError} → IsLost (wire e)
  bad_trace : {e : TraceError} → IsLost (trace e)

recoverable-IsLost : {e : Error} → IsLost e → recoverable e ≡ true
unfolding recoverable
recoverable-IsLost timed_out = refl
recoverable-IsLost bad_frame = refl
recoverable-IsLost bad_trace = refl

IsLost-recoverable : (e : Error) → recoverable e ≡ true → IsLost e
unfolding recoverable
IsLost-recoverable (transport timeout) h = timed_out
IsLost-recoverable (transport open_failed) h = cc
IsLost-recoverable (transport (io n)) h = cc
IsLost-recoverable (bad_program_length n) h = cc
IsLost-recoverable (program_too_large n) h = cc
IsLost-recoverable (retries_exhausted n) h = cc
IsLost-recoverable panicked h = cc
IsLost-recoverable (wire e) h = bad_frame
IsLost-recoverable (trace e) h = bad_trace

-- An error that is no lost drain ends the loop.
fatal-recoverable : (e : Error) → ¬ (IsLost e) → recoverable e ≡ false
fatal-recoverable e n = elim (Bool-cases (recoverable e)) [
  | inl h ↦ absurd (n (IsLost-recoverable e h))
  | inr h ↦ h
]

module _ (T : Transport) (words : List ℕ) (opts : RunOptions) where
  -- An attempt whose two messages are sent, and the answer that is then read.
  pub data Drains : T.State → Result Trace Error → T.State → Type 0 where
    drains :
        {s s1 s2 s3 : T.State} {r : Result Trace Error}
        → load_program T s words ≡ (ok tt, s1)
        → trigger T s1 ≡ (ok tt, s2)
        → read_trace T s2 opts.deadline ≡ (r, s3)
        → Drains s r s3

  -- Attempts one after the other, each with its messages sent and its drain lost.
  pub data Fails : ℕ → T.State → T.State → Type 0 where
    never : {s : T.State} → Fails zero s s
    again :
        {n : ℕ} {s s1 s2 : T.State} {e : Error}
        → Drains s (err e) s1
        → IsLost e
        → Fails n s1 s2
        → Fails (suc n) s s2

  loop-Drains :
      {s s' : T.State} {r : Result Trace Error} (left attempts : ℕ)
      → Drains s r s'
      → run_loop T (suc left) attempts s words opts
        ≡ after_drain T (r, s') (λ t. run_loop T left attempts t words opts)
  unfolding run_loop
  loop-Drains left attempts (drains l t d) = rw (l, t, d)

  recovers :
      (e : Error) (s : T.State) (rest : T.State → Result Trace Error × T.State)
      → recoverable e ≡ true
      → after_drain T (err e, s) rest ≡ rest s
  unfolding after_drain
  recovers e s rest h = rw h

  loop-Fails :
      {n : ℕ} {s s' : T.State} (left attempts m : ℕ)
      → m ≡ n + left
      → Fails n s s'
      → run_loop T m attempts s words opts ≡ run_loop T left attempts s' words opts
  loop-Fails {s = s} left attempts m e never =
      ap (λ k. run_loop T k attempts s words opts) (omega (arith, e))
  loop-Fails left attempts zero e (again d h f) = absurd (omega (arith, e))
  loop-Fails left attempts (suc m) e (again d h f) =
      loop-Drains m attempts d
      ∙ recovers _ _ _ (recoverable-IsLost h)
      ∙ loop-Fails left attempts m (omega (arith, e)) f

  -- The answer of an attempt that ends the loop.
  abbrev pub Settles : Result Trace Error → Type 0
  Settles (ok t) = Unit {0}
  Settles (err e) = ¬ (IsLost e)

  settled :
      (r : Result Trace Error) (s : T.State) (rest : T.State → Result Trace Error × T.State)
      → Settles r
      → after_drain T (r, s) rest ≡ (r, s)
  unfolding after_drain
  settled (ok t) s rest h = refl
  settled (err e) s rest h = rw (fatal-recoverable e h)

  -- After fewer lost drains than there are attempts, an attempt whose messages are sent and which reads a
  -- trace, or an error that is not a timeout and no malformed frame or trace, gives its answer as that of
  -- `run`.
  pub run-Fails :
      {n : ℕ} {s s' s'' : T.State} {r : Result Trace Error}
      → Fails n s s'
      → n < saturating_succ opts.retries
      → Drains s' r s''
      → Settles r
      → run T s words opts ≡ (r, s'')
  unfolding run
  run-Fails {n = n} {s'' = s''} {r = r} f h d k =
      let left = saturating_succ opts.retries - suc n in
      loop-Fails (suc left) _ _ (omega (arith, h)) f ∙ loop-Drains left _ d ∙ settled r s'' _ k

  -- When every attempt sends its messages and then times out or reads a malformed frame or trace, the error
  -- is that the retries are exhausted, with the number of attempts, `retries + 1` up to the largest u32.
  pub run-Fails_all :
      {s s' : T.State}
      → Fails (saturating_succ opts.retries) s s'
      → run T s words opts ≡ (err (retries_exhausted (saturating_succ opts.retries)), s')
  unfolding run
  run-Fails_all f = loop-Fails 0 _ _ (omega arith) f ∙ (unfold run_loop in refl)

  abbrev Succeeds : ℕ → T.State → Trace → T.State → Type 0
  Succeeds left s t s' = (n : ℕ) × (n < left) × (s1 : T.State) × Fails n s s1 × Drains s1 (ok t) s'

  later-Succeeds :
      (left : ℕ) (s s1 s' : T.State) (t : Trace) (e : Error)
      → Drains s (err e) s1
      → IsLost e
      → Succeeds left s1 t s'
      → Succeeds (suc left) s t s'
  later-Succeeds left s s1 s' t e d h (n, lt, s2, f, l) =
      (suc n, omega (arith, lt), s2, again d h f, l)

  module _ (left attempts : ℕ) (s s' : T.State) (t : Trace)
      (rest : (s2 : T.State)
        → run_loop T left attempts s2 words opts ≡ (ok t, s')
        → Succeeds left s2 t s') where
    abbrev retry : T.State → Result Trace Error × T.State
    retry s2 = run_loop T left attempts s2 words opts

    drained :
        (s1 s2 : T.State)
        → load_program T s words ≡ (ok tt, s1)
        → trigger T s1 ≡ (ok tt, s2)
        → (p : Result Trace Error × T.State) → read_trace T s2 opts.deadline ≡ p
        → after_drain T p retry ≡ (ok t, s')
        → Succeeds (suc left) s t s'
    drained s1 s2 l g (ok u, s3) d k =
        (0, omega arith, s, never, drains l g (d ∙ sym (settled (ok u) s3 retry tt) ∙ k))
    drained s1 s2 l g (err x, s3) d k = elim (Bool-cases (recoverable x)) [
      | inl h ↦
          later-Succeeds left s s3 s' t x (drains l g d) (IsLost-recoverable x h)
            (rest s3 (sym (recovers x s3 retry h) ∙ k))
      | inr h ↦
          absurd (cc (settled (err x) s3 retry (λ (p : IsLost x). cc (recoverable-IsLost p, h)), k))
    ]

    triggered :
        (s1 : T.State)
        → load_program T s words ≡ (ok tt, s1)
        → (p : Result (Unit {0}) Error × T.State) → trigger T s1 ≡ p
        → and_then p (λ _ s2. after_drain T (read_trace T s2 opts.deadline) retry) ≡ (ok t, s')
        → Succeeds (suc left) s t s'
    triggered s1 l (ok _, s2) g k = drained s1 s2 l g _ refl k
    triggered s1 l (err x, s2) g k = cc k

    loaded :
        (p : Result (Unit {0}) Error × T.State)
        → load_program T s words ≡ p
        → and_then p (λ _ s1.
          and_then (trigger T s1) (λ _ s2. after_drain T (read_trace T s2 opts.deadline) retry))
          ≡ (ok t, s')
        → Succeeds (suc left) s t s'
    loaded (ok _, s1) l k = triggered s1 l _ refl k
    loaded (err x, s1) l k = cc k

  loop-ok :
      (left attempts : ℕ) (s s' : T.State) (t : Trace)
      → run_loop T left attempts s words opts ≡ (ok t, s')
      → Succeeds left s t s'
  unfolding run_loop
  loop-ok zero attempts s s' t e = cc e
  loop-ok (suc left) attempts s s' t e =
      loaded left attempts s s' t (λ s2. loop-ok left attempts s2 s' t) _ refl e

  -- A trace that `run` returns was read by its last attempt, within the attempts allowed, and each attempt
  -- before it sent its messages and then timed out or read a malformed frame or trace.
  pub run-ok :
      {s s' : T.State} {t : Trace}
      → run T s words opts ≡ (ok t, s')
      → (n : ℕ) × (n < saturating_succ opts.retries)
        × (s1 : T.State) × Fails n s s1
        × Drains s1 (ok t) s'
  unfolding run
  run-ok e = loop-ok _ _ _ _ _ e
