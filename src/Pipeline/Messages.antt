-- ===== src/Pipeline/Messages.antt =====
-- validate.go: what the validation of a pipeline reports.
use atc.Prelude.{ℕ, List, [], ◌++◌, Option, none, some}
use atc.Pipeline.Config.{Name, ℤ}
use atc.Task.Counter.{Message as TaskMessage}

-- The parts of an identifier such as `jobs.build.plan[0].aggregate[1].get.code`, the last one first.
pub data Part : Type 0 where
  jobs_name resources_name resource_types_name : Name → Part
  jobs_at resources_at resource_types_at : ℕ → Part
  at aggregate_at : ℕ → Part
  get_of put_of task_of : Name → Part
  plan_root try_part abort failure ensure success : Part

abbrev pub Identifier : Type 0
Identifier = List Part

-- The actions of a step, in the order of their names.
pub data Action : Type 0 where
  aggregate do_ get put task try_ : Action

pub data Field : Type 0 where
  resource passed trigger privileged config file : Field

pub data Message : Type 0 where
  no_action no_task_configuration both_file_and_config no_name no_type : Identifier → Message
  multiple_actions : Identifier → List Action → Message
  no_resource : Identifier → Message
  no_such_resource : Identifier → Name → Message
  unknown_passed_job : Identifier → Name → Message
  no_interaction : Identifier → Name → Name → Message
  invalid_task : Identifier → TaskMessage → Message
  invalid_fields : Identifier → List Field → Message
  bad_duration : Identifier → Name → Message
  bad_attempts negative_retention : Identifier → ℤ → Message
  same_name : Part → Part → Name → Message
  same_get : Identifier → Name → Message
  group_unknown_job group_unknown_resource : Name → Name → Message
  in_no_group not_used : Name → Message

-- The one warning: an image artifact beside an image in the task configuration.
pub data Warning : Type 0 where
  image_precedence : Identifier → Warning

pub record Verdict : Type 0 where
  pub warnings : List Warning
  pub errors : List Message

abbrev pub accepted : Verdict
accepted = record { warnings = []; errors = [] }

abbrev pub failing : List Message → Verdict
failing ms = record { warnings = []; errors = ms }

-- Both appends of a call of validatePlan.
infixr 45 ◌⊕◌
unfoldable pub ◌⊕◌ : Verdict → Verdict → Verdict
v ⊕ w = record {
  warnings = Verdict.warnings v ++ Verdict.warnings w;
  errors = Verdict.errors v ++ Verdict.errors w;
}

unfoldable pub optional : Option Verdict → Verdict
optional none = accepted
optional (some v) = v
