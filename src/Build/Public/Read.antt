-- ===== src/Build/Public/Read.antt =====
-- Reading the JSON of a plan back, as far as it goes.
use atc.Prelude.{ℕ, Bool, false, Option, none, some, []}
use atc.Pipeline.Config.{Name}
use atc.Build.Plan.{
  Header, fresh, GetPlan, PutPlan, DependentGetPlan, TaskPlan, Plan, empty, aggregate, do_, retry,
  get, put, dependent_get, task, on_abort, ensure, on_success, on_failure, try_, timeout, Plans,
  nil, cons,
}
use atc.Build.Public.{
  Key, aggregate_key, do_key, get_key, put_key, dependent_get_key, task_key, on_abort_key,
  ensure_key, on_success_key, on_failure_key, try_key, timeout_key, retry_key, name_key, Json, text,
  flag, plan_id, version_of_plan, array, object, Items, no_items, item, Fields, no_fields, field,
}

unfoldable pub text_in : Json → Name
text_in (text n) = n
text_in _ = 0

unfoldable pub flag_in : Json → Bool
flag_in (flag b) = b
flag_in _ = false

unfoldable pub id_in : Json → Option ℕ
id_in (plan_id o) = o
id_in _ = none

unfoldable pub version_in : Json → Option ℕ
version_in (version_of_plan v) = v
version_in _ = none

-- The text of the first field, if it has the name; and the fields after it.
unfoldable pub read_name : Fields → Name
read_name (field name_key j rest) = text_in j
read_name _ = 0

unfoldable pub after_name : Fields → Fields
after_name (field name_key j rest) = rest
after_name (field k j rest) = field k j rest
after_name no_fields = no_fields

unfoldable pub first : Fields → Json
first (field k j rest) = j
first no_fields = flag false

unfoldable pub after_first : Fields → Fields
after_first (field k j rest) = rest
after_first no_fields = no_fields

unfoldable pub read_version : Fields → Option (Option ℕ)
read_version (field k j rest) = some (version_in j)
read_version no_fields = none

unfoldable pub read_get : Fields → GetPlan
unfolding text_in first after_first read_name after_name read_version
read_get fs = record {
  type = text_in (first fs);
  name = read_name (after_first fs);
  resource = text_in (first (after_name (after_first fs)));
  source = 0;
  params = 0;
  tags = [];
  version = read_version (after_first (after_name (after_first fs)));
  version_from = none;
  resource_types = [];
}

unfoldable pub read_put : Fields → PutPlan
unfolding text_in first after_first read_name after_name
read_put fs = record {
  type = text_in (first fs);
  name = read_name (after_first fs);
  resource = text_in (first (after_name (after_first fs)));
  source = 0;
  params = 0;
  tags = [];
  resource_types = [];
}

unfoldable pub read_dependent_get : Fields → DependentGetPlan
unfolding text_in first after_first read_name after_name
read_dependent_get fs = record {
  type = text_in (first fs);
  name = read_name (after_first fs);
  resource = text_in (first (after_name (after_first fs)));
}

unfoldable pub read_task : {T : Type 0} → Fields → TaskPlan T
unfolding text_in flag_in first after_first
read_task fs = record {
  name = text_in (first fs);
  privileged = flag_in (first (after_first fs));
  tags = [];
  params = 0;
  input_mapping = 0;
  output_mapping = 0;
  config_path = 0;
  config = none;
  image = 0;
  resource_types = [];
}

module _ {T : Type 0} where
  -- A plan from the fields of its step, the plans that are the first two of these, its id and key.
  unfoldable pub read_object : Fields → (p q : Plan T) → Header → Key → Plan T
  unfolding text_in first after_first read_get read_put read_dependent_get read_task
  read_object fs p q n get_key = get n (read_get fs)
  read_object fs p q n put_key = put n (read_put fs)
  read_object fs p q n dependent_get_key = dependent_get n (read_dependent_get fs)
  read_object fs p q n task_key = task n (read_task fs)
  read_object fs p q n on_abort_key = on_abort n p q
  read_object fs p q n ensure_key = ensure n p q
  read_object fs p q n on_success_key = on_success n p q
  read_object fs p q n on_failure_key = on_failure n p q
  read_object fs p q n try_key = try_ n p
  read_object fs p q n timeout_key = timeout n (text_in (first (after_first fs))) p
  read_object fs p q n _ = empty

  unfoldable pub read_array : Plans T → Header → Key → Plan T
  read_array ps n aggregate_key = aggregate n ps
  read_array ps n do_key = do_ n ps
  read_array ps n retry_key = retry n ps
  read_array ps n _ = empty

  unfoldable mutual
    unfolding read_object read_array id_in

    pub read : Json → Plan T
    read (object fs) = read_plan fs
    read _ = empty

    pub read_plan : Fields → Plan T
    read_plan (field k j rest) = read_rest rest (id_in j)
    read_plan no_fields = empty

    pub read_rest : Fields → Option ℕ → Plan T
    read_rest (field k j rest) (some n) = read_value j n k
    read_rest (field k j rest) none = empty
    read_rest no_fields o = empty

    pub read_value : Json → ℕ → Key → Plan T
    read_value (object fs) n k = read_object fs (read_first fs) (read_second fs) (fresh n) k
    read_value (array items) n k = read_array (read_items items) (fresh n) k
    read_value _ n k = empty

    pub read_first : Fields → Plan T
    read_first (field k j rest) = read j
    read_first no_fields = empty

    pub read_second : Fields → Plan T
    read_second (field k j rest) = read_first rest
    read_second no_fields = empty

    pub read_items : Items → Plans T
    read_items no_items = nil
    read_items (item j js) = cons (read j) (read_items js)
