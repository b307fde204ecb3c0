-- ===== src/Exec/Outcome.antt =====
-- An abstract view of the steps: a run has one of four outcomes, and each wrapping step is an
-- operation on outcomes. The code's protocol (`Run`, then `Succeeded`) implements it.
use atc.Prelude.{
  ℕ, ◌≡◌, Bool, true, false, Option, none, some, List, [], ◌∷◌, length, ltb, if◌then◌else◌, arith,
}
use atc.Exec.Errors.{ErrorApi}
use atc.Exec.Steps.{
  Exit, done, failed, panicked, Ran, on_success_run, on_failure_run, ensure_run, on_abort_run,
  try_run, timeout_run,
}

pub data Outcome : Type 0 where
  success failure interrupted errored : Outcome

abbrev pub is_error : Outcome → Bool
is_error success = false
is_error failure = false
is_error _ = true

abbrev pub is_success : Outcome → Bool
is_success success = true
is_success _ = false

abbrev pub success_then : Outcome → Outcome → Outcome
success_then success b = b
success_then a b = a

-- The hook of a failed step is run for its effect: only its error counts.
abbrev pub failure_then : Outcome → Outcome → Outcome
failure_then failure b = if is_error b then b else failure
failure_then a b = a

abbrev pub and_ensure : Outcome → Outcome → Outcome
and_ensure a b =
    if is_error a
    then errored
    else if is_error b
    then errored
    else if is_success a
    then b
    else failure

abbrev pub on_abort_of : Outcome → Outcome
on_abort_of a = if is_error a then errored else a

abbrev pub try_of : Outcome → Outcome
try_of interrupted = interrupted
try_of _ = success

abbrev pub timeout_of : {E : Type 0} → Option E → Bool → Outcome → Outcome
timeout_of (some e) fired a = errored
timeout_of none fired a = if fired then failure else a

-- An attempt that succeeds or is interrupted is the last one.
abbrev pub retry_of : Outcome → List Outcome → Outcome
retry_of a [] = a
retry_of success (b ∷ bs) = success
retry_of interrupted (b ∷ bs) = interrupted
retry_of failure (b ∷ bs) = retry_of b bs
retry_of errored (b ∷ bs) = retry_of b bs

abbrev pub all_of : List Outcome → Outcome
all_of [] = success
all_of (a ∷ bs) = and_ensure a (all_of bs)

abbrev pub aggregate_of : Option ℕ → List Outcome → Outcome
aggregate_of none bs = all_of bs
aggregate_of (some k) bs = if ltb k (length bs) then interrupted else all_of bs

module _ (api : ErrorApi) where
  open api use {Error, is_interrupted, interrupted_self, append_new, sources_new}

  -- `none` where the step panics, or its `Succeeded` would.
  abbrev pub outcome_of : Exit Error → Option Bool → Option Outcome
  outcome_of done none = none
  outcome_of done (some b) = some (if b then success else failure)
  outcome_of (failed e) b = some (if is_interrupted e then interrupted else errored)
  outcome_of panicked b = none

  abbrev pub outcome : Ran Error → Option Outcome
  outcome r = outcome_of r.exit r.succeeded

  pub on_success-outcome :
      (s h : Ran Error) (a b : Outcome)
      → outcome s ≡ some a
      → outcome h ≡ some b
      → outcome (on_success_run api s h) ≡ some (success_then a b)
  unfolding on_success_run
  on_success-outcome s h a b p q = ground arith

  pub on_failure-outcome :
      (s h : Ran Error) (a b : Outcome)
      → outcome s ≡ some a
      → outcome h ≡ some b
      → outcome (on_failure_run api s h) ≡ some (failure_then a b)
  unfolding on_failure_run
  on_failure-outcome s h a b p q = ground arith

  pub ensure-outcome :
      (s h : Ran Error) (a b : Outcome)
      → outcome s ≡ some a
      → outcome h ≡ some b
      → outcome (ensure_run api s h) ≡ some (and_ensure a b)
  unfolding ensure_run
  ensure-outcome s h a b p q = grind (arith, append_new)

  pub on_abort-outcome :
      (s h : Ran Error) (a b : Outcome)
      → outcome s ≡ some a
      → outcome h ≡ some b
      → outcome (on_abort_run api s h) ≡ some (on_abort_of a)
  unfolding on_abort_run
  on_abort-outcome s h a b p q = grind (arith, append_new)

  pub try-outcome :
      (s : Ran Error) (a : Outcome) → outcome s ≡ some a → outcome (try_run api s) ≡ some (try_of a)
  unfolding try_run
  try-outcome s a p = ground arith

  pub timeout-outcome :
      (s : Ran Error) (a : Outcome) (fired : Bool)
      → outcome s ≡ some a
      → outcome (timeout_run api none fired s) ≡ some (timeout_of {E = Error} none fired a)
  unfolding timeout_run
  timeout-outcome s a fired p = ground arith
