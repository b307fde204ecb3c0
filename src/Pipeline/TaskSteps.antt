-- ===== src/Pipeline/TaskSteps.antt =====
-- The task configurations of task.go in the validation of a pipeline (validate.go).
use text.Mathlib.Text.{◌==◌ as str_eq}
use atc.Prelude.{◌≡◌, ◌≢◌, ◌↔◌, ◌⊎◌, inl, inr, Bool, true, false, not, ◌||◌, Option, none, some}
use atc.Task.{TaskConfig, validate}
use atc.Task.Contract.{IsValid}
use atc.Task.Valid.{validate-IsValid}
use atc.Pipeline.Config.{Name, Outside}
use atc.Pipeline.Valid.{ConfigOk}

abbrev has_value {ℓ} : {A : Type ℓ} → Option A → Bool
has_value none = false
has_value (some a) = true

-- plan.TaskConfig.RootfsURI != "" || plan.TaskConfig.ImageResource != nil
abbrev pub has_task_image : {R : Type 0} → TaskConfig R → Bool
has_task_image config = not (str_eq config.rootfs_uri "") || has_value config.image_resource

-- `parses` is time.ParseDuration.
abbrev pub task_outside : Type 0 → (Name → Bool) → Outside
task_outside R parses = record {
  TaskConfig = TaskConfig R;
  task_errors = validate;
  has_image = has_task_image;
  parses_as_duration = parses;
}

-- A task step has a valid configuration or a file of one, but not both.
pub ConfigOk-IsValid :
    {R : Type 0} (parses : Name → Bool) (config : Option (TaskConfig R)) (file : Name)
    → ConfigOk (task_outside R parses) config file ↔ (
        ((config ≡ none) × (file ≢ 0))
        ⊎ ((t : TaskConfig R) × (config ≡ some t) × (file ≡ 0) × IsValid t))
ConfigOk-IsValid parses config file = (
  (λ c. elim c [
    | inl no_config ↦ inl no_config
    | inr given ↦ inr (given.0, given.1, given.2, (validate-IsValid given.0).0 given.3)
  ]),
  (λ c. elim c [
    | inl no_config ↦ inl no_config
    | inr given ↦ inr (given.0, given.1, given.2, (validate-IsValid given.0).1 given.3)
  ]),
)
