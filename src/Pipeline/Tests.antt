-- ===== src/Pipeline/Tests.antt =====
-- A small pipeline: what its validation reports, and the theorems at it.
use atc.Prelude.{ℕ, ◌≡◌, ◌↔◌, refl, true, false, Option, none, some, List, [], ◌∷◌, if◌then◌else◌}
use atc.Pipeline.Config.{
  Name, is_set, pos, negsuc, ℤ, Outside, PlanFields, PlanConfig, plan, absent, present, no_sequence,
  PlanSequence, nil, cons, JobConfig, Config, lookup_resource, lookup_job, resource_name,
}
use atc.Pipeline.Plans.{inputs, outputs, plans, named, collect_plans}
use atc.Pipeline.Messages.{Identifier, Message, Part, Verdict, ◌⊕◌, optional}
use atc.Pipeline.Steps.{
  validate_plan, validate_action, validate_get, validate_put, validate_task, validate_limits,
  validate_passed, validate_passed_job, validate_resource_exists, validate_inapplicable_fields,
  validate_config, found_fields, has_field, found_types, one_action, unless, uses, image_warnings,
  identifier_of,
}
use atc.Pipeline.Valid.{IsValid}
use atc.Pipeline.Valid.Accepts.{validate_plan-IsValid}
use atc.Pipeline.Validate.{
  validate, validate_groups, validate_group, no_job_grouped, group_jobs, mark, ungrouped,
  unknown_jobs, unknown_resources, validate_resources, validate_resource_types, validate_resource,
  scan, position_of, same_name_errors, register, identifier, used_resources, unused, validate_jobs,
  validate_job, validate_retention, job_root, same_gets, count, contains_name,
}
use atc.Pipeline.Validate.Contract.{GroupsOk, ResourcesOk, IsAcceptable}
use atc.Pipeline.Validate.Groups.{validate_groups_lem}
use atc.Pipeline.Validate.Accepts.{validate_resources_lem, validate-IsAcceptable}
use atc.Task.Counter.{missing_platform}

-- Task configuration 0 has an error.
abbrev pub outside : Outside
outside = record {
  TaskConfig = ℕ;
  task_errors = λ t. if is_set t then [] else missing_platform ∷ [];
  has_image = λ t. false;
  parses_as_duration = is_set;
}

abbrev step : PlanFields ℕ → PlanConfig ℕ
step f = plan f no_sequence no_sequence absent absent absent absent absent

abbrev get : Name → List Name → ℤ → PlanConfig ℕ
get n passed tries = step (record {
  get = n;
  passed = passed;
  trigger = true;
  put = 0;
  resource = 0;
  task = 0;
  privileged = false;
  file = 0;
  config = none;
  params = 0;
  get_params = 0;
  input_mapping = 0;
  output_mapping = 0;
  tags = [];
  image = 0;
  timeout = 0;
  attempts = tries;
})

abbrev task : Option ℕ → PlanConfig ℕ
task config = step (record {
  get = 0;
  passed = [];
  trigger = false;
  put = 0;
  resource = 0;
  task = 5;
  privileged = false;
  file = 0;
  config = config;
  params = 0;
  get_params = 0;
  input_mapping = 0;
  output_mapping = 0;
  tags = [];
  image = 0;
  timeout = 7;
  attempts = pos 2;
})

abbrev job : Name → PlanSequence ℕ → JobConfig ℕ
job name sequence = record {
  name = name;
  public_ = true;
  serial = false;
  serial_groups = [];
  raw_max_in_flight = pos 0;
  build_logs_to_retain = pos 0;
  job_plan = sequence;
  abort = absent;
  failure = absent;
  ensure = present (task (some 3));
  success = absent;
}

-- Job 10 gets resource 1, and job 11 gets it after job 10.
abbrev pipeline : List (JobConfig ℕ) → Config ℕ
pipeline jobs = record {
  groups = record { group_name = 20; jobs = 10 ∷ 11 ∷ []; resources = 1 ∷ [] } ∷ [];
  resources = record { name = 1; type = 30; source = 70 } ∷ [];
  resource_types = [];
  jobs = jobs;
}

abbrev pub build_job : JobConfig ℕ
build_job = job 10 (cons (get 1 [] (pos 0)) (cons (task (some 3)) nil))

abbrev pub good : Config ℕ
good = pipeline (build_job ∷ job 11 (cons (get 1 (10 ∷ []) (pos 0)) nil) ∷ [])

-- Job 11 gets an unknown resource that is to have passed job 10, and its task has no configuration.
abbrev bad : Config ℕ
bad = pipeline (build_job ∷ job 11 (cons (get 2 (10 ∷ []) (negsuc 0)) (cons (task none) nil)) ∷ [])

evaluate : Config ℕ → Verdict
unfolding validate validate_groups validate_group no_job_grouped group_jobs mark ungrouped
    unknown_jobs unknown_resources validate_resources validate_resource_types validate_resource scan
    position_of same_name_errors register identifier used_resources unused validate_jobs
    validate_job validate_retention job_root same_gets count contains_name ◌⊕◌ optional inputs
    outputs plans named collect_plans validate_plan validate_action validate_get validate_put
    validate_task validate_limits validate_passed validate_passed_job validate_resource_exists
    validate_inapplicable_fields validate_config found_fields has_field found_types one_action
    unless uses image_warnings identifier_of lookup_resource lookup_job resource_name
evaluate = validate outside

accepts_good : Verdict.errors (evaluate good) ≡ []
unfolding evaluate
accepts_good = refl

pub validates_good : Verdict.errors (validate outside good) ≡ []
unfolding evaluate
validates_good = accepts_good

abbrev job_11 : Part → Part → Identifier
job_11 step position = step ∷ position ∷ Part.plan_root ∷ Part.jobs_name 11 ∷ []

refuses_bad :
    Verdict.errors (evaluate bad)
    ≡ Message.no_resource (job_11 (Part.get_of 2) (Part.at 0))
      ∷ Message.no_interaction (job_11 (Part.get_of 2) (Part.at 0)) 10 2
      ∷ Message.bad_attempts (job_11 (Part.get_of 2) (Part.at 0)) (negsuc 0)
      ∷ Message.no_task_configuration (job_11 (Part.task_of 5) (Part.at 1))
      ∷ []
unfolding evaluate
refuses_bad = refl

validate-IsAcceptable_example :
    (Verdict.errors (validate outside good) ≡ []) ↔ IsAcceptable outside good
validate-IsAcceptable_example = validate-IsAcceptable outside good

validate_plan-IsValid_example :
    (Verdict.errors (validate_plan outside bad (Part.plan_root ∷ []) (get 1 (10 ∷ []) (pos 0)))
      ≡ [])
    ↔ IsValid outside bad (get 1 (10 ∷ []) (pos 0))
validate_plan-IsValid_example =
    validate_plan-IsValid outside bad (Part.plan_root ∷ []) (get 1 (10 ∷ []) (pos 0))

validate_groups_lem_example : (validate_groups good ≡ []) ↔ GroupsOk outside good
validate_groups_lem_example = validate_groups_lem outside good

validate_resources_lem_example :
    (Verdict.errors (validate_resources good) ≡ []) ↔ ResourcesOk outside good
validate_resources_lem_example = validate_resources_lem outside good
