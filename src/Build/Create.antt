-- ===== src/Build/Create.antt =====
-- scheduler/factory/build_factory.go: the plan of a build.
use atc.Prelude.{ℕ, zero, suc, Option, none, some, List, [], ◌∷◌, ◌==◌, if◌then◌else◌}
use atc.Pipeline.Config.{
  Name, is_set, ℤ, pos, negsuc, PlanFields, PlanConfig, plan, MaybePlan, absent, present,
  MaybeSequence, no_sequence, steps, PlanSequence, JobConfig, ResourceConfig, lookup_resource,
}
use atc.Pipeline.Config
use atc.Build.Plan.{
  VersionedResourceType, Header, fresh, Plan, empty, aggregate, do_, retry, get, put, dependent_get,
  task, on_abort, ensure, on_success, on_failure, try_, timeout, Plans, nil, cons,
}

-- ErrResourceNotFound; and the panic of `make` with a negative length.
pub data Failure : Type 0 where
  resource_not_found negative_length : Failure

pub data Result (A : Type 0) : Type 0 where
  ok : A → Result A
  err : Failure → Result A

-- The counter of the plan factory is state, which a failing call has advanced too.
abbrev pub M : Type 0 → Type 0
M A = ℕ → Result A × ℕ

abbrev pub pure : {A : Type 0} → A → M A
pure a n = (ok a, n)

abbrev pub fail : {A : Type 0} → Failure → M A
fail e n = (err e, n)

abbrev pub and_then : {A B : Type 0} → Result A × ℕ → (A → M B) → Result B × ℕ
and_then (ok a, n) k = k a n
and_then (err e, n) k = (err e, n)

infixl 5 ◌>>=◌
abbrev pub ◌>>=◌ : {A B : Type 0} → M A → (A → M B) → M B
◌>>=◌ m k n = and_then (m n) k

-- The look-up of a resource, and the error where there is none.
unfoldable pub if_found : {A : Type 0} → Option ResourceConfig → (ResourceConfig → M A) → M A
if_found none k = fail resource_not_found
if_found (some r) k = k r

-- A build input, by name and version.
abbrev pub Inputs : Type 0
Inputs = List (Name × ℕ)

unfoldable pub version_of : Inputs → Name → Option ℕ
version_of [] n = none
version_of (i ∷ is) n = if i.0 == n then some i.1 else version_of is n

module _ {T : Type 0} where
  -- PlanFactory.NewPlan, on the constructor of the step.
  unfoldable pub new_plan : (Header → Plan T) → M (Plan T)
  new_plan make n = (ok (make (fresh (suc n))), suc n)

  unfoldable pub id_of : Plan T → Option ℕ
  id_of empty = none
  id_of (aggregate n ps) = some n.id
  id_of (do_ n ps) = some n.id
  id_of (retry n ps) = some n.id
  id_of (get n g) = some n.id
  id_of (put n p) = some n.id
  id_of (dependent_get n p) = some n.id
  id_of (task n t) = some n.id
  id_of (on_abort n p q) = some n.id
  id_of (ensure n p q) = some n.id
  id_of (on_success n p q) = some n.id
  id_of (on_failure n p q) = some n.id
  id_of (try_ n p) = some n.id
  id_of (timeout n d p) = some n.id

  -- The put, the get of what it put, and the step that runs one after the other.
  unfoldable pub put_then_get :
      List VersionedResourceType → ResourceConfig → Name → PlanFields T → M (Plan T)
  put_then_get types r resource f = do
    put_plan ← new_plan (λ n. put n (record {
      type = ResourceConfig.type r;
      name = PlanFields.put f;
      resource = resource;
      source = ResourceConfig.source r;
      params = PlanFields.params f;
      tags = PlanFields.tags f;
      resource_types = types;
    }))
    get_plan ← new_plan (λ n. get n (record {
      type = ResourceConfig.type r;
      name = PlanFields.put f;
      resource = resource;
      source = ResourceConfig.source r;
      params = PlanFields.get_params f;
      tags = PlanFields.tags f;
      resource_types = types;
      version = none;
      version_from = id_of put_plan;
    }))
    new_plan (λ n. on_success n put_plan get_plan)

  unfoldable pub construct_put :
      List ResourceConfig → List VersionedResourceType → PlanFields T → M (Plan T)
  construct_put resources types f =
      let name =
        if is_set (PlanFields.resource f) then PlanFields.resource f else PlanFields.put f in
      if_found (lookup_resource resources name) (λ r. put_then_get types r name f)

  unfoldable pub construct_get :
      List ResourceConfig → List VersionedResourceType → Inputs → PlanFields T → M (Plan T)
  construct_get resources types inputs f =
      let name =
        if is_set (PlanFields.resource f) then PlanFields.resource f else PlanFields.get f in
      if_found (lookup_resource resources name) (λ r. new_plan (λ n. get n (record {
        type = ResourceConfig.type r;
        name = PlanFields.get f;
        resource = name;
        source = ResourceConfig.source r;
        params = PlanFields.params f;
        tags = PlanFields.tags f;
        resource_types = types;
        version = some (version_of inputs (PlanFields.get f));
        version_from = none;
      })))

  unfoldable pub construct_task : List VersionedResourceType → PlanFields T → M (Plan T)
  construct_task types f = new_plan (λ n. task n (record {
    name = PlanFields.task f;
    privileged = PlanFields.privileged f;
    tags = PlanFields.tags f;
    resource_types = types;
    params = PlanFields.params f;
    input_mapping = PlanFields.input_mapping f;
    output_mapping = PlanFields.output_mapping f;
    config_path = PlanFields.file f;
    config = PlanFields.config f;
    image = PlanFields.image f;
  }))

  unfoldable pub construct_nested : Option (M (Plan T)) → Option (M (Plans T)) → M (Plan T)
  construct_nested (some p) a = p >>= λ step. new_plan (λ n. try_ n step)
  construct_nested none (some ps) = ps >>= λ plans. new_plan (λ n. aggregate n plans)
  construct_nested none none = pure empty

  -- The switch of constructUnhookedPlan, on the actions that construct the plans of `do`, `try` and
  -- `aggregate`, with `none` for a nil pointer.
  unfoldable pub construct_step :
      List ResourceConfig
      → List VersionedResourceType
      → Inputs
      → PlanFields T
      → (do_ : Option (M (Plans T))) → (try_ : Option (M (Plan T)))
      → (aggregate : Option (M (Plans T))) → M (Plan T)
  construct_step resources types inputs f (some ps) t a =
      ps >>= λ plans. new_plan (λ n. do_ n plans)
  construct_step resources types inputs f none t a =
      if is_set (PlanFields.put f)
      then construct_put resources types f
      else if is_set (PlanFields.get f)
      then construct_get resources types inputs f
      else if is_set (PlanFields.task f)
      then construct_task types f
      else construct_nested t a

  unfoldable pub with_timeout : Name → M (Plan T) → M (Plan T)
  with_timeout duration m =
      if is_set duration then (m >>= λ step. new_plan (λ n. timeout n duration step)) else m

  -- The loop that constructs each attempt.
  unfoldable pub attempts_of : ℕ → M (Plan T) → M (Plans T)
  attempts_of zero m = pure nil
  attempts_of (suc k) m = m >>= λ p. attempts_of k m >>= λ ps. pure (cons p ps)

  unfoldable pub with_attempts : ℤ → M (Plan T) → M (Plan T)
  with_attempts (pos zero) m = m
  with_attempts (pos (suc k)) m = attempts_of (suc k) m >>= λ plans. new_plan (λ n. retry n plans)
  with_attempts (negsuc k) m = fail negative_length

  unfoldable pub apply_hook :
      (Header → Plan T → Plan T → Plan T) → Option (M (Plan T)) → M (Plan T) → M (Plan T)
  apply_hook make none m = m
  apply_hook make (some hook) m = m >>= λ step. hook >>= λ next. new_plan (λ n. make n step next)

  -- The hooks, from the innermost one.
  unfoldable pub apply_hooks :
      (abort failure success ensure : Option (M (Plan T))) → M (Plan T) → M (Plan T)
  apply_hooks ab fa su en m =
      apply_hook ensure en
        (apply_hook on_success su (apply_hook on_failure fa (apply_hook on_abort ab m)))

module _ {T : Type 0} (resources : List ResourceConfig) (types : List VersionedResourceType)
    (inputs : Inputs) where
  unfoldable mutual
    -- constructPlanFromConfig
    pub construct_plan : PlanConfig T → M (Plan T)
    construct_plan (plan f d a t ab fa en su) =
        apply_hooks (construct_maybe ab) (construct_maybe fa) (construct_maybe su)
          (construct_maybe en)
          (with_attempts (PlanFields.attempts f) (
            with_timeout (PlanFields.timeout f) (
              construct_step resources types inputs f (construct_sequence d) (construct_maybe t)
                (construct_sequence a))))

    pub construct_maybe : MaybePlan T → Option (M (Plan T))
    construct_maybe absent = none
    construct_maybe (present p) = some (construct_plan p)

    pub construct_sequence : MaybeSequence T → Option (M (Plans T))
    construct_sequence no_sequence = none
    construct_sequence (steps ps) = some (construct_steps ps)

    pub construct_steps : PlanSequence T → M (Plans T)
    construct_steps Config.nil = pure nil
    construct_steps (Config.cons p ps) =
        construct_plan p >>= λ q. construct_steps ps >>= λ qs. pure (cons q qs)

  -- constructPlanFromJob
  unfoldable pub construct_from_job : PlanSequence T → M (Plan T)
  construct_from_job (Config.cons p Config.nil) = construct_plan p
  construct_from_job Config.nil =
      construct_steps Config.nil >>= λ plans. new_plan (λ n. do_ n plans)
  construct_from_job (Config.cons p (Config.cons q ps)) =
      construct_steps (Config.cons p (Config.cons q ps)) >>= λ plans. new_plan (λ n. do_ n plans)

  unfoldable pub create : JobConfig T → M (Plan T)
  create job =
      apply_hooks (construct_maybe (JobConfig.abort job)) (construct_maybe (JobConfig.failure job))
        (construct_maybe (JobConfig.success job)) (construct_maybe (JobConfig.ensure job))
        (construct_from_job (JobConfig.job_plan job))
