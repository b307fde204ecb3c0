-- ===== src/Exec/Traces.antt =====
-- Which steps a wrapping step runs, and in what order.
use mathlib.Core.List.{append-nil, append_assoc}
use atc.Prelude.{
  ℕ, ◌≡◌, refl, ap, ◌∙◌, ◌⊎◌, inl, inr, Bool, true, false, Option, none, some, List, [], ◌∷◌, ◌++◌,
  if◌then◌else◌, arith, All,
}
use atc.Exec.Errors.{ErrorApi}
use atc.Exec.Steps.{
  Exit, done, failed, Ran, on_success_run, on_failure_run, ensure_run, on_abort_run, retry_loop,
  retry_run, after,
}
use atc.Exec.Outcome.{
  Outcome, success, failure, interrupted, errored, is_success, outcome, ensure-outcome,
}
use atc.Exec.Refinement.{HaveOutcomes}

abbrev is_failure : Outcome → Bool
is_failure failure = true
is_failure _ = false

-- An attempt after which no other is made.
abbrev pub stops : Option Outcome → Bool
stops (some success) = true
stops (some interrupted) = true
stops _ = false

module _ (api : ErrorApi) where
  open api use {Error, mentions, append_new}

  abbrev pub traces : List (Ran Error) → List ℕ
  traces [] = []
  traces (r ∷ rs) = r.trace ++ traces rs

  abbrev aborts : Exit Error → Bool
  aborts (failed e) = mentions e
  aborts _ = false

  -- A success hook is run exactly when the step succeeds, a failure hook exactly when it fails, an
  -- ensure hook always, and an abort hook exactly when the step's error mentions an interruption;
  -- each is run after its step.
  pub hook_traces :
      (s h : Ran Error) (a b : Outcome)
      → outcome api s ≡ some a
      → outcome api h ≡ some b
      → ((on_success_run api s h).trace ≡ (if is_success a then s.trace ++ h.trace else s.trace))
        × ((on_failure_run api s h).trace ≡ (if is_failure a then s.trace ++ h.trace else s.trace))
        × ((ensure_run api s h).trace ≡ s.trace ++ h.trace)
        × ((on_abort_run api s h).trace ≡ (if aborts s.exit then s.trace ++ h.trace else s.trace))
  unfolding on_success_run on_failure_run ensure_run on_abort_run
  hook_traces s h a b p q = (ground arith, ground arith, ground arith, ground arith)

  -- The attempts of a retry: those before the last one made, and those never made.
  pub record Attempts (rs : List (Ran Error)) : Type 0 where
    pub before : List (Ran Error)
    pub last : Ran Error
    pub unmade : List (Ran Error)
    pub all : rs ≡ before ++ last ∷ unmade
    pub go_on : All (λ r. stops (outcome api r) ≡ false) before
    pub ends : (stops (outcome api last) ≡ true) ⊎ (unmade ≡ [])

  retry_loop-stops :
      (start a : Ran Error) (rs : List (Ran Error))
      → stops (outcome api a) ≡ true
      → retry_loop api start (a ∷ rs) ≡ after start.trace a
  unfolding retry_loop
  retry_loop-stops start a rs h = ground arith

  retry_loop_goes_on :
      (start a : Ran Error) (rs : List (Ran Error)) (b : Outcome)
      → outcome api a ≡ some b
      → stops (some b) ≡ false
      → retry_loop api start (a ∷ rs) ≡ retry_loop api (after start.trace a) rs
  unfolding retry_loop
  retry_loop_goes_on start a rs b p h = ground arith

  retry_loop_one :
      (start a : Ran Error) (b : Outcome)
      → outcome api a ≡ some b
      → retry_loop api start (a ∷ []) ≡ after start.trace a
  unfolding retry_loop
  retry_loop_one start a b p = ground arith

  one_attempt :
      (a : Ran Error) (rs : List (Ran Error))
      → (stops (outcome api a) ≡ true) ⊎ (rs ≡ [])
      → Attempts (a ∷ rs)
  one_attempt a rs h = record {
    before = [];
    last = a;
    unmade = rs;
    all = refl;
    go_on = tt;
    ends = h;
  }

  more_attempts :
      (a : Ran Error) (rs : List (Ran Error))
      → stops (outcome api a) ≡ false
      → Attempts rs
      → Attempts (a ∷ rs)
  more_attempts a rs h t = record {
    before = a ∷ t.before;
    last = t.last;
    unmade = t.unmade;
    all = ap (λ l. a ∷ l) t.all;
    go_on = (h, t.go_on);
    ends = t.ends;
  }

  abbrev Follows : Ran Error → List (Ran Error) → Type 0
  Follows start rs =
      (t : Attempts rs) × (retry_loop api start rs ≡ after (start.trace ++ traces t.before) t.last)

  Follows-stop :
      (start a : Ran Error) (rs : List (Ran Error))
      → stops (outcome api a) ≡ true
      → Follows start (a ∷ rs)
  Follows-stop start a rs h = (
    one_attempt a rs (inl h),
    unfold one_attempt in rw append-nil (retry_loop-stops start a rs h),
  )

  Follows-more :
      (start a : Ran Error) (rs : List (Ran Error)) (b : Outcome)
      → outcome api a ≡ some b
      → stops (some b) ≡ false
      → Follows (after start.trace a) rs
      → Follows start (a ∷ rs)
  Follows-more start a rs b p h (t, e) = (
    more_attempts a rs (ap stops p ∙ h) t,
    unfold more_attempts in
        retry_loop_goes_on start a rs b p h
        ∙ e
        ∙ ap (λ l. after l t.last) (append_assoc start.trace a.trace (traces t.before)),
  )

  retry_loop-Follows :
      (start a : Ran Error) (rs : List (Ran Error)) (b : Outcome) (bs : List Outcome)
      → outcome api a ≡ some b
      → HaveOutcomes api rs bs
      → Follows start (a ∷ rs)
  retry_loop-Follows start a [] b bs p q = (
    one_attempt a [] (inr refl),
    unfold one_attempt in rw append-nil (retry_loop_one start a b p),
  )
  retry_loop-Follows start a (r ∷ rs) b [] p q = elim q [ ]
  retry_loop-Follows start a (r ∷ rs) success (c ∷ bs) p q =
      Follows-stop start a (r ∷ rs) (ap stops p)
  retry_loop-Follows start a (r ∷ rs) interrupted (c ∷ bs) p q =
      Follows-stop start a (r ∷ rs) (ap stops p)
  retry_loop-Follows start a (r ∷ rs) failure (c ∷ bs) p q =
      Follows-more start a (r ∷ rs) failure p refl
        (retry_loop-Follows (after start.trace a) r rs c bs q.0 q.1)
  retry_loop-Follows start a (r ∷ rs) errored (c ∷ bs) p q =
      Follows-more start a (r ∷ rs) errored p refl
        (retry_loop-Follows (after start.trace a) r rs c bs q.0 q.1)

  -- A retry of one attempt or more makes its attempts in order, up to the first that succeeds or is
  -- interrupted, or to the last: the attempts split into those made before, which neither succeeded
  -- nor were interrupted, the last one made, and those never made, of which there are none unless
  -- the last one stopped the retry. Exit and success are the last one's, and the trace is that of
  -- the attempts made.
  pub retry_attempts :
      (a : Ran Error) (rs : List (Ran Error)) (b : Outcome) (bs : List Outcome)
      → outcome api a ≡ some b
      → HaveOutcomes api rs bs
      → (t : Attempts (a ∷ rs)) × (retry_run api (a ∷ rs) ≡ after (traces t.before) t.last)
  unfolding retry_run
  retry_attempts a rs b bs p q =
      retry_loop-Follows (record { exit = done; succeeded = none; trace = [] }) a rs b bs p q

  retry_run-stops :
      (s next : Ran Error) → stops (outcome api s) ≡ true → retry_run api (s ∷ next ∷ []) ≡ s
  unfolding retry_run
  retry_run-stops s next h =
      retry_loop-stops (record { exit = done; succeeded = none; trace = [] }) s (next ∷ []) h

  retry_run_goes_on :
      (s next : Ran Error) (a b : Outcome)
      → outcome api s ≡ some a
      → stops (some a) ≡ false
      → outcome api next ≡ some b
      → retry_run api (s ∷ next ∷ []) ≡ after s.trace next
  unfolding retry_run
  retry_run_goes_on s next a b p h q =
      retry_loop_goes_on (record { exit = done; succeeded = none; trace = [] }) s (next ∷ []) a p h
      ∙ retry_loop_one s next b q

  -- An interrupted attempt ends a retry. The same attempt under an ensure step does not: the
  -- interruption is then inside a multierror, and the retry goes on to the next attempt after the
  -- ensure hook, with that attempt's outcome.
  pub ensure_hides_interrupt :
      (s h next : Ran Error) (a b : Outcome)
      → outcome api s ≡ some interrupted
      → outcome api h ≡ some a
      → outcome api next ≡ some b
      → ((retry_run api (s ∷ next ∷ [])).trace ≡ s.trace)
        × (outcome api (retry_run api (s ∷ next ∷ [])) ≡ some interrupted)
        × ((retry_run api (ensure_run api s h ∷ next ∷ [])).trace
            ≡ (s.trace ++ h.trace) ++ next.trace)
        × (outcome api (retry_run api (ensure_run api s h ∷ next ∷ [])) ≡ some b)
  ensure_hides_interrupt s h next a b p q r =
      let stopped = retry_run-stops s next (ap stops p) in
      let went_on =
        retry_run_goes_on (ensure_run api s h) next errored b
          (ensure-outcome api s h interrupted a p q) refl r in
      let ran = (hook_traces s h interrupted a p q).2 in
      (
        ap (λ t. t.trace) stopped,
        ap (outcome api) stopped ∙ p,
        ap (λ t. t.trace) went_on ∙ ap (λ l. l ++ next.trace) ran,
        ap (outcome api) went_on ∙ r,
      )
