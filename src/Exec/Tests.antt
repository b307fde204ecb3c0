-- ===== src/Exec/Tests.antt =====
-- Concrete errors and plans: what some trees do, and the theorems at them.
use atc.Prelude.{ℕ, ◌≡◌, refl, Bool, true, false, ◌||◌, Option, none, some, [], ◌∷◌}
use atc.Exec.Errors.{ErrorApi}
use atc.Exec.Steps.{
  done, failed, Ran, after, identity_run, on_success_run, on_failure_run, ensure_run, on_abort_run,
  try_run, timeout_run, retry_run, aggregate_run,
}
use atc.Exec.Plan.{
  Factory, leaf, on_success, on_failure, ensure, try_, timeout, retry, aggregate, nil, cons, run,
}
use atc.Exec.Outcome.{success, failure, interrupted, outcome}
use atc.Exec.Refinement.{meaning, well_formed, run-refines-meaning}
use atc.Exec.Traces.{Attempts, traces, hook_traces, retry_attempts, ensure_hides_interrupt}

-- ErrInterrupted, an error of a step, and an error made by a library, with what its text mentions.
pub data TestError : Type 0 where
  stop : TestError
  plain : ℕ → TestError
  made : Bool → TestError

abbrev is_stop : TestError → Bool
is_stop stop = true
is_stop _ = false

abbrev text_mentions : TestError → Bool
text_mentions stop = true
text_mentions (plain n) = false
text_mentions (made b) = b

abbrev first_mentions : Option TestError → Bool
first_mentions none = false
first_mentions (some e) = text_mentions e

pub text_mentions_stop : (e : TestError) → is_stop e ≡ true → text_mentions e ≡ true
text_mentions_stop stop h = refl
text_mentions_stop (plain n) h = cc
text_mentions_stop (made b) h = cc

pub or_right : (a b : Bool) → b ≡ true → (a || b) ≡ true
or_right true b h = refl
or_right false b h = h

pub or_left : (a b : Bool) → a ≡ true → (a || b) ≡ true
or_left true b h = refl
or_left false b h = cc

abbrev pub test_api : ErrorApi
test_api = record {
  Error = TestError;
  interrupted = stop;
  is_interrupted = is_stop;
  mentions = text_mentions;
  append = λ o e. made (first_mentions o || text_mentions e);
  sources_failed = λ es. made false;
  interrupted_self = refl;
  append_new = λ o e. refl;
  sources_new = λ es. refl;
  mentions_self = text_mentions_stop;
  mentions_last = λ o e h. or_right (first_mentions o) (text_mentions e) h;
  mentions_first = λ d e h. or_left (text_mentions d) (text_mentions e) h;
}

abbrev passing : ℕ → Factory TestError
passing n = leaf n done (some true)

abbrev failing : ℕ → Factory TestError
failing n = leaf n done (some false)

abbrev stopped : ℕ → Factory TestError
stopped n = leaf n (failed stop) (some false)

abbrev broken : ℕ → Factory TestError
broken n = leaf n (failed (plain n)) none

-- Two attempts of a put and its get, with hooks around the retry, beside a task with a timeout.
abbrev plan : Factory TestError
plan = aggregate none (
    cons
      (ensure
        (on_failure (retry (cons (broken 1) (cons (on_success (passing 2) (passing 3)) nil)))
          (passing 4))
        (passing 5))
      (cons (try_ (timeout none true (stopped 6))) nil))

plan_runs :
    run test_api plan
    ≡ record { exit = done; succeeded = some true; trace = 1 ∷ 2 ∷ 3 ∷ 5 ∷ 6 ∷ [] }
unfolding run identity_run on_success_run on_failure_run ensure_run on_abort_run try_run timeout_run
    retry_run aggregate_run
plan_runs = refl

plan-well_formed : well_formed test_api plan ≡ true
unfolding well_formed
plan-well_formed = refl

run-refines-meaning_example : outcome test_api (run test_api plan) ≡ some (meaning test_api plan)
run-refines-meaning_example = run-refines-meaning test_api plan plan-well_formed

-- An interrupted step, a hook and a second attempt.
abbrev first_ran : Ran TestError
first_ran = record { exit = failed stop; succeeded = some false; trace = 1 ∷ [] }

abbrev second_ran : Ran TestError
second_ran = record { exit = done; succeeded = some true; trace = 2 ∷ [] }

abbrev third_ran : Ran TestError
third_ran = record { exit = done; succeeded = some false; trace = 3 ∷ [] }

retry_attempts_example :
    (t : Attempts test_api (third_ran ∷ first_ran ∷ second_ran ∷ [])) × (retry_run test_api
        (third_ran ∷ first_ran ∷ second_ran ∷ [])
      ≡ after (traces test_api t.before) t.last)
retry_attempts_example =
    retry_attempts test_api third_ran (first_ran ∷ second_ran ∷ []) failure
      (interrupted ∷ success ∷ []) refl (refl, (refl, tt))

hook_traces_example :
    ((on_success_run test_api first_ran second_ran).trace ≡ 1 ∷ [])
    × ((on_failure_run test_api first_ran second_ran).trace ≡ 1 ∷ [])
    × ((ensure_run test_api first_ran second_ran).trace ≡ 1 ∷ 2 ∷ [])
    × ((on_abort_run test_api first_ran second_ran).trace ≡ 1 ∷ 2 ∷ [])
hook_traces_example = hook_traces test_api first_ran second_ran interrupted success refl refl

ensure_hides_interrupt_example :
    ((retry_run test_api (first_ran ∷ third_ran ∷ [])).trace ≡ 1 ∷ [])
    × (outcome test_api (retry_run test_api (first_ran ∷ third_ran ∷ [])) ≡ some interrupted)
    × ((retry_run test_api (ensure_run test_api first_ran second_ran ∷ third_ran ∷ [])).trace
        ≡ 1 ∷ 2 ∷ 3 ∷ [])
    × (outcome test_api
          (retry_run test_api (ensure_run test_api first_ran second_ran ∷ third_ran ∷ []))
        ≡ some failure)
ensure_hides_interrupt_example =
    ensure_hides_interrupt test_api first_ran second_ran third_ran success failure refl refl refl
