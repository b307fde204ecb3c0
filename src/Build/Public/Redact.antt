-- ===== src/Build/Public/Redact.antt =====
-- A plan without its attempts, sources, params, tags, resource types and task configurations.
use atc.Prelude.{none, []}
use atc.Build.Plan.{
  fresh, GetPlan, PutPlan, TaskPlan, Plan, empty, aggregate, do_, retry, get, put, dependent_get,
  task, on_abort, ensure, on_success, on_failure, try_, timeout, Plans, nil, cons,
}

abbrev pub redact_get : GetPlan → GetPlan
redact_get g = record g {
  source = 0;
  params = 0;
  tags = [];
  version_from = none;
  resource_types = [];
}

abbrev pub redact_put : PutPlan → PutPlan
redact_put p = record p { source = 0; params = 0; tags = []; resource_types = [] }

abbrev pub redact_task : {T : Type 0} → TaskPlan T → TaskPlan T
redact_task t = record {
  name = TaskPlan.name t;
  privileged = TaskPlan.privileged t;
  tags = [];
  params = 0;
  input_mapping = 0;
  output_mapping = 0;
  config_path = 0;
  config = none;
  image = 0;
  resource_types = [];
}

module _ {T : Type 0} where
  unfoldable mutual
    pub redact : Plan T → Plan T
    redact empty = empty
    redact (aggregate n ps) = aggregate (fresh n.id) (redact_all ps)
    redact (do_ n ps) = do_ (fresh n.id) (redact_all ps)
    redact (retry n ps) = retry (fresh n.id) (redact_all ps)
    redact (get n g) = get (fresh n.id) (redact_get g)
    redact (put n p) = put (fresh n.id) (redact_put p)
    redact (dependent_get n p) = dependent_get (fresh n.id) p
    redact (task n t) = task (fresh n.id) (redact_task t)
    redact (on_abort n p q) = on_abort (fresh n.id) (redact p) (redact q)
    redact (ensure n p q) = ensure (fresh n.id) (redact p) (redact q)
    redact (on_success n p q) = on_success (fresh n.id) (redact p) (redact q)
    redact (on_failure n p q) = on_failure (fresh n.id) (redact p) (redact q)
    redact (try_ n p) = try_ (fresh n.id) (redact p)
    redact (timeout n d p) = timeout (fresh n.id) d (redact p)

    pub redact_all : Plans T → Plans T
    redact_all nil = nil
    redact_all (cons p ps) = cons (redact p) (redact_all ps)
