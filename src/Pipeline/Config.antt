-- ===== src/Pipeline/Config.antt =====
-- config.go and job_config.go: pipelines, jobs and plans, and the look-ups by name.
use atc.Prelude.{
  ℕ, Bool, true, false, not, ◌||◌, Option, none, some, List, [], ◌∷◌, ◌==◌, if◌then◌else◌,
}
use atc.Task.Counter.{Message as TaskMessage}

-- Names and other strings of a pipeline, which are only compared: 0 is the empty string.
abbrev pub Name : Type 0
Name = ℕ

abbrev pub is_set : Name → Bool
is_set n = not (n == 0)

-- Go's int, for the numbers that may be negative: `negsuc n` is -(n + 1).
pub data ℤ : Type 0 where
  pos : ℕ → ℤ
  negsuc : ℕ → ℤ

-- A source, params or another object that is only copied, as a number: 0 is the empty one.
abbrev pub Object : Type 0
Object = ℕ

-- TaskConfig, and what the validation of a pipeline asks of it, which `task_outside` of
-- Pipeline/TaskSteps fills; time.ParseDuration is the standard library's. `task_errors` are the lines
-- of TaskConfig.Validate, none where it returns nil.
pub record Outside : Type 1 where
  pub TaskConfig : Type 0
  pub task_errors : TaskConfig → List TaskMessage
  pub has_image : TaskConfig → Bool
  pub parses_as_duration : Name → Bool

-- The fields of a PlanConfig that hold no other plan.
pub record PlanFields (T : Type 0) : Type 0 where
  pub get : Name
  pub passed : List Name
  pub trigger : Bool
  pub put : Name
  pub resource : Name
  pub task : Name
  pub privileged : Bool
  pub file : Name
  pub config : Option T
  pub params : Object
  pub get_params : Object
  pub input_mapping : Object
  pub output_mapping : Object
  pub tags : List Name
  pub image : Name
  pub timeout : Name
  pub attempts : ℤ

-- do, aggregate, try, on_abort, on_failure, ensure, on_success; a pointer is `absent` or not.
mutual
  pub data PlanConfig (T : Type 0) : Type 0 where
    plan :
        PlanFields T
        → (do_ aggregate : MaybeSequence T) → (try_ abort failure ensure success : MaybePlan T)
        → PlanConfig T

  pub data MaybePlan (T : Type 0) : Type 0 where
    absent : MaybePlan T
    present : PlanConfig T → MaybePlan T

  pub data MaybeSequence (T : Type 0) : Type 0 where
    no_sequence : MaybeSequence T
    steps : PlanSequence T → MaybeSequence T

  pub data PlanSequence (T : Type 0) : Type 0 where
    nil : PlanSequence T
    cons : PlanConfig T → PlanSequence T → PlanSequence T

pub record JobConfig (T : Type 0) : Type 0 where
  pub name : Name
  pub public_ : Bool
  pub serial : Bool
  pub serial_groups : List Name
  pub raw_max_in_flight : ℤ
  pub build_logs_to_retain : ℤ
  pub job_plan : PlanSequence T
  pub abort : MaybePlan T
  pub failure : MaybePlan T
  pub ensure : MaybePlan T
  pub success : MaybePlan T

pub record GroupConfig : Type 0 where
  pub group_name : Name
  pub jobs : List Name
  pub resources : List Name

-- A resource or a resource type, as far as it is validated or copied into plans.
pub record ResourceConfig : Type 0 where
  pub name : Name
  pub type : Name
  pub source : Object

pub record Config (T : Type 0) : Type 0 where
  pub groups : List GroupConfig
  pub resources : List ResourceConfig
  pub resource_types : List ResourceConfig
  pub jobs : List (JobConfig T)

unfoldable pub lookup_resource : List ResourceConfig → Name → Option ResourceConfig
lookup_resource [] n = none
lookup_resource (r ∷ rs) n = if ResourceConfig.name r == n then some r else lookup_resource rs n

abbrev pub is_empty : {A : Type 0} → List A → Bool
is_empty [] = true
is_empty (x ∷ xs) = false

abbrev pub is_positive : ℤ → Bool
is_positive (pos n) = is_set n
is_positive (negsuc n) = false

module _ {T : Type 0} where
  unfoldable pub lookup_job : List (JobConfig T) → Name → Option (JobConfig T)
  lookup_job [] n = none
  lookup_job (j ∷ js) n = if JobConfig.name j == n then some j else lookup_job js n

  -- None where the code panics.
  unfoldable pub resource_name : PlanFields T → Option Name
  resource_name f =
      if is_set (PlanFields.resource f)
      then some (PlanFields.resource f)
      else if is_set (PlanFields.get f)
      then some (PlanFields.get f)
      else if is_set (PlanFields.put f)
      then some (PlanFields.put f)
      else none

  unfoldable pub job_is_public : Config T → Name → Option Bool
  job_is_public c n = elim (lookup_job (Config.jobs c) n) [
    | none ↦ none
    | some j ↦ some (JobConfig.public_ j)
  ]

  unfoldable pub max_in_flight : JobConfig T → ℤ
  max_in_flight j =
      if JobConfig.serial j || not (is_empty (JobConfig.serial_groups j))
      then pos 1
      else JobConfig.raw_max_in_flight j

  unfoldable pub get_serial_groups : JobConfig T → List Name
  get_serial_groups j =
      if not (is_empty (JobConfig.serial_groups j))
      then JobConfig.serial_groups j
      else if JobConfig.serial j || is_positive (JobConfig.raw_max_in_flight j)
      then JobConfig.name j ∷ []
      else []
