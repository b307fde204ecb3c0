-- ===== src/Build/Tests.antt =====
-- The plan of a small job, the steps it is built into, and the theorems at it.
use atc.Prelude.{
  ℕ, suc, ◌≡◌, ◌↔◌, arith, if◌then◌else◌, refl, true, false, none, some, [], ◌∷◌, All,
}
use atc.Pipeline.Config.{is_set, Config, lookup_resource}
use atc.Pipeline.Tests.{outside, good, build_job, validates_good}
use atc.Exec.Errors.{ErrorApi}
use atc.Exec.Steps.{done}
use atc.Exec.Plan.{run}
use atc.Exec.Tests.{TestError, plain, test_api}
use atc.Exec.Outcome.{success, outcome}
use atc.Exec.Refinement.{meaning}
use atc.Build.Plan.{fresh, Plan, TaskPlan, do_, get, task, ensure, timeout, retry, nil, cons, ids}
use atc.Build.Create.{
  ok, Inputs, if_found, version_of, new_plan, construct_get, construct_task, construct_step,
  with_timeout, attempts_of, with_attempts, apply_hook, apply_hooks, construct_plan,
  construct_maybe, construct_sequence, construct_steps, construct_from_job, create,
}
use atc.Build.Engine.{World, build_steps}
use atc.Build.Ids.{Between, create-ids}
use atc.Build.Total.{create-validate}
use atc.Build.Runs.{IsSane, create-runs}
use atc.Build.Resume.{resume, status_of, IsQuiet, validated_job_finishes}

abbrev resource_inputs : Inputs
resource_inputs = (1, 40) ∷ []

abbrev the_task : TaskPlan ℕ
the_task = record {
  name = 5;
  privileged = false;
  tags = [];
  params = 0;
  input_mapping = 0;
  output_mapping = 0;
  config_path = 0;
  config = some 3;
  image = 0;
  resource_types = [];
}

-- Two attempts of the task, with a timeout for each.
abbrev tried : ℕ → Plan ℕ
tried n = retry (fresh (suc (suc (suc (suc n))))) (
    cons (timeout (fresh (suc n)) 7 (task (fresh n) the_task))
      (cons (timeout (fresh (suc (suc (suc n)))) 7 (task (fresh (suc (suc n))) the_task)) nil))

abbrev the_plan : Plan ℕ
the_plan =
    ensure (fresh 13)
      (do_ (fresh 7) (
        cons
          (get (fresh 1) (record {
            type = 30;
            name = 1;
            resource = 1;
            source = 70;
            params = 0;
            tags = [];
            version = some (some 40);
            version_from = none;
            resource_types = [];
          }))
          (cons (tried 2) nil)))
      (tried 8)

job_plan : create (Config.resources good) [] resource_inputs build_job 0 ≡ (ok the_plan, 13)
unfolding create if_found version_of new_plan construct_get construct_task construct_step
    with_timeout attempts_of with_attempts apply_hook apply_hooks construct_plan construct_maybe
    construct_sequence construct_steps construct_from_job lookup_resource
job_plan = refl

create-ids_example : Between 0 (ids the_plan) 13
create-ids_example =
    create-ids (Config.resources good) [] resource_inputs build_job 0 13 the_plan job_plan

create-validate_example :
    All
      (λ job.
        (p : Plan ℕ) × (n' : ℕ) × (create (Config.resources good) [] resource_inputs job 0
          ≡ (ok p, n')))
      (Config.jobs good)
create-validate_example = create-validate outside good [] resource_inputs 0 validates_good

-- Every step is done and succeeds.
abbrev world : World TestError
world = record {
  exits = λ n attempts. done;
  succeeds = λ n attempts. some true;
  parse_duration = λ d. if is_set d then none else some (plain 0);
  timer_fires = λ n. false;
  signalled = λ n. none;
}

durations_of_world : (d : ℕ) → (is_set d ≡ true) ↔ ((World.parse_duration world) d ≡ none)
durations_of_world d = ground arith

world_errors :
    (d : ℕ) (e : TestError)
    → (World.parse_duration world) d ≡ some e
    → (ErrorApi.is_interrupted test_api) e ≡ false
world_errors d e h = ground (arith, h)

world-IsSane : IsSane test_api world
world-IsSane = record { leaves = λ n attempts. (success, refl); durations = world_errors }

world-IsQuiet : IsQuiet test_api world is_set
world-IsQuiet = record {
  leaves = λ n attempts. tt;
  durations = durations_of_world;
  duration_errors = world_errors;
  signals = λ n. refl;
}

create-runs_example :
    outcome test_api (run test_api (build_steps world the_plan))
    ≡ some (meaning test_api (build_steps world the_plan))
create-runs_example =
    create-runs test_api world world-IsSane (Config.resources good) [] resource_inputs build_job 0
      13 the_plan job_plan

validated_job_finishes_example :
    All
      (λ job.
        (p : Plan ℕ) × (n' : ℕ) × (create (Config.resources good) [] resource_inputs job 0
          ≡ (ok p, n'))
        × (resume false (run test_api (build_steps world p))
            ≡ some (status_of (meaning test_api (build_steps world p)))))
      (Config.jobs good)
validated_job_finishes_example =
    validated_job_finishes outside good test_api world [] resource_inputs 0 validates_good
      world-IsQuiet
