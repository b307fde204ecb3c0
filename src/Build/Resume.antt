-- ===== src/Build/Resume.antt =====
-- engine/exec_engine.go and exec_engine_build_delegate.go: how a build ends.
use atc.Prelude.{
  ℕ, suc, ◌≡◌, refl, subst, ◌↔◌, Bool, true, false, Option, none, some, List, [], ◌∷◌, ◌++◌, All,
  arith,
}
use atc.Pipeline.Config.{Name, Outside, JobConfig, ResourceConfig, Config}
use atc.Pipeline.Messages.{Verdict}
use atc.Pipeline.Validate.{validate}
use atc.Exec.Errors.{ErrorApi}
use atc.Exec.Steps.{Exit, done, failed, panicked, Ran}
use atc.Exec.Plan.{run}
use atc.Exec.Outcome.{Outcome, success, failure, interrupted, errored, outcome, outcome_of}
use atc.Exec.Refinement.{meaning}
use atc.Exec.Calm.{CalmEnd, Calm, Quiet, AllQuiet, Calm-run}
use atc.Build.Plan.{VersionedResourceType, attempts_in, Plan, Plans}
use atc.Build.Create.{ok, Inputs, create}
use atc.Build.Made.{Closed, OnOk, create-OnOk}
use atc.Build.Engine.{
  World, build_leaf, build_step_factory, build_aggregate, build_do, build_retry, build_steps,
}
use atc.Build.Runs.{IsSane, create-runs}
use atc.Build.Total.{create-JobOk, All-map}
use atc.Build.Timeouts.{TimedJob, JobOk-TimedJob}
use atc.Pipeline.Validate.Accepts.{validate-IsAcceptable}

-- The statuses of a build that has ended.
pub data Status : Type 0 where
  succeeded failed_ errored_ aborted : Status

-- delegate.Finish, on whether there is an error.
unfoldable pub finish : Bool → Bool → Bool → Status
finish has_error success_ true = aborted
finish true success_ false = errored_
finish false true false = succeeded
finish false false false = failed_

-- What is asked of the step, unless the build is aborted.
unfoldable pub asked : Bool → Bool → Option Bool → Option Status
asked has_error true success_ = some (finish has_error false true)
asked has_error false none = none
asked has_error false (some b) = some (finish has_error b false)

-- Resume, once the process has exited: the step is asked for its success unless the build is
-- aborted. `none` is a panic.
unfoldable pub resume : {E : Type 0} → Bool → Ran E → Option Status
resume aborted_ r = elim r.exit [
  | panicked ↦ none
  | failed e ↦ asked true aborted_ r.succeeded
  | done ↦ asked false aborted_ r.succeeded
]

abbrev pub status_of : Outcome → Status
status_of success = succeeded
status_of failure = failed_
status_of interrupted = errored_
status_of errored = errored_

module _ (api : ErrorApi) (world : World (ErrorApi.Error api)) where
  open api use {Error, is_interrupted}
  open world use {exits, succeeds, parse_duration, signalled}

  -- Nothing interrupts: a task, get or put can be asked for its success, and has none after an error,
  -- which is not ErrInterrupted; and no aggregate step reads a signal. What `parses` accepts is what
  -- ParseDuration returns no error for, and its errors are its own.
  pub record IsQuiet (parses : Name → Bool) : Type 0 where
    pub leaves : (n : ℕ) (attempts : List ℕ) → CalmEnd api (exits n attempts) (succeeds n attempts)
    pub durations : (d : Name) → (parses d ≡ true) ↔ (parse_duration d ≡ none)
    pub duration_errors :
        (d : Name) (e : Error) → parse_duration d ≡ some e → is_interrupted e ≡ false
    pub signals : (n : ℕ) → signalled n ≡ none

  calm_outcome :
      (x : Exit Error) (b : Option Bool)
      → CalmEnd api x b
      → (o : Outcome) × (outcome_of api x b ≡ some o)
  calm_outcome done (some true) h = (success, refl)
  calm_outcome done (some false) h = (failure, refl)
  calm_outcome (failed e) (some false) h = (errored, ground arith)
  calm_outcome done none h = absurd h
  calm_outcome (failed e) (some true) h = absurd h
  calm_outcome (failed e) none h = absurd h
  calm_outcome panicked b h = absurd h

  IsQuiet-IsSane : {parses : Name → Bool} → IsQuiet parses → IsSane api world
  IsQuiet-IsSane q = record {
    leaves = λ n attempts.
        calm_outcome (exits n attempts) (succeeds n attempts) (IsQuiet.leaves q n attempts);
    durations = IsQuiet.duration_errors q;
  }

  Calm-resume :
      (r : Ran Error) (o : Outcome)
      → Calm api r
      → outcome api r ≡ some o
      → resume false r ≡ some (status_of o)
  unfolding resume asked finish
  Calm-resume r o c e = ground arith

  module _ {T : Type 0} (parses : Name → Bool) (quiet : IsQuiet parses) where
    BuildsQuiet : Plan T → Type 0
    BuildsQuiet p = (attempts : List ℕ) → Quiet api (build_step_factory world attempts p)

    BuildAllQuiet : Plans T → Type 0
    BuildAllQuiet ps =
        (attempts : List ℕ)
        → AllQuiet api (build_aggregate world attempts ps)
          × Quiet api (build_do world attempts ps)
          × ((i : ℕ) → AllQuiet api (build_retry world attempts i ps))

    BuildsQuiet-Closed : Closed (λ d. parses d ≡ true) BuildsQuiet BuildAllQuiet
    unfolding BuildsQuiet BuildAllQuiet build_step_factory build_aggregate build_do build_retry
        build_leaf Quiet AllQuiet
    BuildsQuiet-Closed = record {
      on_empty = λ attempts. tt;
      on_get = λ n g attempts. IsQuiet.leaves quiet n.id attempts;
      on_put = λ n p attempts. IsQuiet.leaves quiet n.id attempts;
      on_task = λ n t attempts. IsQuiet.leaves quiet n.id attempts;
      on_aggregate = λ n ps h attempts. rw (IsQuiet.signals quiet n.id) (h attempts).0;
      on_do = λ n ps h attempts. (h attempts).1;
      on_retry = λ n p ps hp h attempts. (hp (attempts ++ (1 ∷ [])), (h attempts).2 1);
      on_abort_hook = λ n p q hp hq attempts. (hp attempts, hq attempts);
      on_ensure_hook = λ n p q hp hq attempts. (hp attempts, hq attempts);
      on_success_hook = λ n p q hp hq attempts. (hp attempts, hq attempts);
      on_failure_hook = λ n p q hp hq attempts. (hp attempts, hq attempts);
      on_try = λ n p h attempts. h attempts;
      on_timeout = λ n d p timed h attempts. rw ((IsQuiet.durations quiet d).0 timed) (h attempts);
      on_nil = λ attempts. (tt, tt, λ i. tt);
      on_cons = λ p ps hp h attempts. (
        (hp attempts, (h attempts).0),
        (hp attempts, (h attempts).1),
        λ i. (hp (attempts ++ (suc i ∷ [])), (h attempts).2 (suc i)),
      );
    }

    finishes :
        (resources : List ResourceConfig) (types : List VersionedResourceType) (inputs : Inputs)
        (job : JobConfig T) (n n' : ℕ) (p : Plan T)
        → TimedJob (λ d. parses d ≡ true) job
        → create resources types inputs job n ≡ (ok p, n')
        → resume false (run api (build_steps world p))
          ≡ some (status_of (meaning api (build_steps world p)))
    unfolding BuildsQuiet build_steps
    finishes resources types inputs job n n' p timed e =
        Calm-resume (run api (build_steps world p)) _
          (Calm-run api (build_steps world p) (
            subst (λ r. OnOk BuildsQuiet r.0) e
              (create-OnOk (λ d. parses d ≡ true) BuildsQuiet BuildAllQuiet BuildsQuiet-Closed
                resources types inputs job n timed)
              (attempts_in p)))
          (create-runs api world (IsQuiet-IsSane quiet) resources types inputs job n n' p e)

-- For every job of a pipeline that Config.Validate accepts, Create makes a plan, and a build of it
-- that is neither aborted nor interrupted ends with the status of the outcome that its steps have
-- by the operations on outcomes: nothing panics, also when the errored steps are asked for success,
-- if steps parse the durations that Validate does, which it has seen of every timeout.
pub validated_job_finishes :
    (outside : Outside) (c : Config (Outside.TaskConfig outside)) (api : ErrorApi)
    (world : World (ErrorApi.Error api)) (types : List VersionedResourceType) (inputs : Inputs)
    (n : ℕ)
    → Verdict.errors (validate outside c) ≡ []
    → IsQuiet api world (Outside.parses_as_duration outside)
    → All
        (λ job.
          (p : Plan (Outside.TaskConfig outside)) × (n' : ℕ) × (create
              (Config.resources c)
              types
              inputs
              job
              n
            ≡ (ok p, n'))
          × (resume false (run api (build_steps world p))
              ≡ some (status_of (meaning api (build_steps world p)))))
        (Config.jobs c)
validated_job_finishes outside c api world types inputs n valid quiet =
    All-map
      (λ job ok_.
        let (p, n', e) = create-JobOk outside c types inputs job n ok_ in
        (
          p,
          n',
          e,
          finishes api world (Outside.parses_as_duration outside) quiet (Config.resources c) types
              inputs job n n' p (JobOk-TimedJob outside c job ok_) e,
        ))
      (Config.jobs c) ((validate-IsAcceptable outside c).0 valid).1.1.1.1
