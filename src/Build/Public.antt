-- ===== src/Build/Public.antt =====
-- public_plan.go: what is shown of a plan, as the JSON that json.Marshal makes of it.
pub mod Redact
pub mod Read
pub mod Shown
pub mod Tests
use atc.Prelude.{ℕ, Bool, Option, none, some, if◌then◌else◌}
use atc.Pipeline.Config.{Name, is_set}
use atc.Build.Plan.{
  GetPlan, PutPlan, DependentGetPlan, TaskPlan, Plan, empty, aggregate, do_, retry, get, put,
  dependent_get, task, on_abort, ensure, on_success, on_failure, try_, timeout, Plans, nil, cons,
}

-- The names of the fields.
pub data Key : Type 0 where
  id_key aggregate_key do_key get_key put_key task_key on_abort_key ensure_key : Key
  on_success_key on_failure_key try_key timeout_key retry_key dependent_get_key : Key
  step_key type_key name_key resource_key version_key privileged_key duration_key : Key

-- JSON values: a string, a bool, a plan's id (`none` is the empty one), a version (`none` is null),
-- arrays and objects.
mutual
  pub data Json : Type 0 where
    text : Name → Json
    flag : Bool → Json
    plan_id version_of_plan : Option ℕ → Json
    array : Items → Json
    object : Fields → Json

  pub data Items : Type 0 where
    no_items : Items
    item : Json → Items → Items

  pub data Fields : Type 0 where
    no_fields : Fields
    field : Key → Json → Fields → Fields

-- Name, which is left out if it is empty, and Version, which is left out if the pointer is nil.
unfoldable pub name_field : Name → Fields → Fields
name_field name rest = if is_set name then field name_key (text name) rest else rest

unfoldable pub version_field : Option (Option ℕ) → Fields → Fields
version_field none rest = rest
version_field (some v) rest = field version_key (version_of_plan v) rest

unfoldable pub public_get : GetPlan → Json
unfolding name_field version_field
public_get g = object (
    field type_key (text (GetPlan.type g)) (
      name_field (GetPlan.name g) (
        field resource_key (text (GetPlan.resource g))
          (version_field (GetPlan.version g) no_fields))))

unfoldable pub public_put : PutPlan → Json
unfolding name_field
public_put p = object (
    field type_key (text (PutPlan.type p))
      (name_field (PutPlan.name p) (field resource_key (text (PutPlan.resource p)) no_fields)))

unfoldable pub public_dependent_get : DependentGetPlan → Json
unfolding name_field
public_dependent_get p = object (
    field type_key (text (DependentGetPlan.type p)) (
      name_field (DependentGetPlan.name p)
        (field resource_key (text (DependentGetPlan.resource p)) no_fields)))

unfoldable pub public_task : {T : Type 0} → TaskPlan T → Json
public_task t = object (
    field name_key (text (TaskPlan.name t))
      (field privileged_key (flag (TaskPlan.privileged t)) no_fields))

-- A step and what follows it under a hook's name.
abbrev pub step_and : Key → Json → Json → Json
step_and key step next = object (field step_key step (field key next no_fields))

abbrev pub with_id : ℕ → Key → Json → Json
with_id n key j = object (field id_key (plan_id (some n)) (field key j no_fields))

module _ {T : Type 0} where
  unfoldable mutual
    unfolding public_get public_put public_dependent_get public_task

    -- Public of a plan and of the steps in it.
    pub public : Plan T → Json
    public empty = object (field id_key (plan_id none) no_fields)
    public (aggregate n ps) = with_id n.id aggregate_key (array (public_all ps))
    public (do_ n ps) = with_id n.id do_key (array (public_all ps))
    public (retry n ps) = with_id n.id retry_key (array (public_all ps))
    public (get n g) = with_id n.id get_key (public_get g)
    public (put n p) = with_id n.id put_key (public_put p)
    public (dependent_get n p) = with_id n.id dependent_get_key (public_dependent_get p)
    public (task n t) = with_id n.id task_key (public_task t)
    public (on_abort n p q) =
        with_id n.id on_abort_key (step_and on_abort_key (public p) (public q))
    public (ensure n p q) = with_id n.id ensure_key (step_and ensure_key (public p) (public q))
    public (on_success n p q) =
        with_id n.id on_success_key (step_and on_success_key (public p) (public q))
    public (on_failure n p q) =
        with_id n.id on_failure_key (step_and on_failure_key (public p) (public q))
    public (try_ n p) = with_id n.id try_key (object (field step_key (public p) no_fields))
    public (timeout n d p) =
        with_id n.id timeout_key
          (object (field step_key (public p) (field duration_key (text d) no_fields)))

    pub public_all : Plans T → Items
    public_all nil = no_items
    public_all (cons p ps) = item (public p) (public_all ps)
