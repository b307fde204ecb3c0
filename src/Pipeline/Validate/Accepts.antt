-- ===== src/Pipeline/Validate/Accepts.antt =====
-- Config.Validate accepts exactly the pipelines that meet the contract.
use atc.Prelude.{
  ℕ, ◌≡◌, ◌≢◌, refl, ◌↔◌, inl, true, false, not, some, List, [], ◌∷◌, ◌++◌, map, ◌||◌, All, arith,
}
use atc.Pipeline.Config.{Name, is_set, pos, Outside, ResourceConfig, JobConfig, Config}
use atc.Pipeline.Plans.{inputs, outputs}
use atc.Pipeline.Messages.{Identifier, Part, Verdict, ◌⊕◌}
use atc.Pipeline.Steps.{uses}
use atc.Pipeline.Valid.{IsValid, IsValidSteps}
use atc.Pipeline.Valid.Reports.{append-nil_iff, keep_iff, iff_trans, not_iff, uses_iff}
use atc.Pipeline.Valid.Accepts.{validate_plan-IsValid, maybe_iff}
use atc.Pipeline.Validate.{
  validate_resource, identifier, scan, unused, used_resources, validate_resources,
  validate_resource_types, validate_retention, validate_job, validate_jobs, job_root, validate,
}
use atc.Pipeline.Validate.Contract.{Distinct, IsComplete, IsUsed, ResourcesOk, JobOk, IsAcceptable}
use atc.Pipeline.Validate.Used.{JobUses-iff}
use atc.Pipeline.Validate.Groups.{validate_groups_lem}
use atc.Pipeline.Validate.Names.{scan_accepts, same_gets_accepts}

set_iff : (n : Name) → ((not (is_set n)) ≡ false) ↔ (n ≢ 0)
set_iff n = ground arith

resource_iff :
    (at : ℕ → Part) (named : Name → Part) (i : ℕ) (r : ResourceConfig)
    → (Verdict.errors (validate_resource at named i r) ≡ []) ↔ IsComplete r
unfolding validate_resource
resource_iff at named i r =
    append-nil_iff (iff_trans (keep_iff _ _) (set_iff (ResourceConfig.name r)))
      (iff_trans (keep_iff _ _) (set_iff (ResourceConfig.type r)))

resources_iff :
    (at : ℕ → Part) (named : Name → Part) (rs : List ResourceConfig)
    → (Verdict.errors (scan at ResourceConfig.name (validate_resource at named) [] 0 rs) ≡ [])
      ↔ (Distinct (map ResourceConfig.name rs) × All IsComplete rs)
resources_iff at named rs =
    scan_accepts at ResourceConfig.name (validate_resource at named) IsComplete
      (resource_iff at named) (λ r c. c.0) rs

uses-append :
    (xs ys : List (Name × Name)) (r : Name)
    → uses (xs ++ ys) (some r) ≡ (uses xs (some r) || uses ys (some r))
unfolding uses
uses-append [] ys r = refl
uses-append (x ∷ xs) ys r = ground (arith, uses-append xs ys r)

module _ {T : Type 0} where
  IsUsed-iff :
      (js : List (JobConfig T)) (r : Name)
      → (uses (used_resources js) (some r) ≡ true) ↔ IsUsed js r
  unfolding used_resources uses
  IsUsed-iff [] r = ground arith
  IsUsed-iff (j ∷ js) r = ground (
    arith,
    IsUsed-iff js r,
    JobUses-iff r j,
    uses_iff (inputs j) r,
    uses_iff (outputs j) r,
    uses-append (inputs j) (outputs j ++ used_resources js) r,
    uses-append (outputs j) (used_resources js) r,
  )

  unused_iff :
      (js : List (JobConfig T)) (rs : List ResourceConfig)
      → (unused (used_resources js) rs ≡ []) ↔ All (λ r. IsUsed js (ResourceConfig.name r)) rs
  unfolding unused
  unused_iff js [] = ((λ e. tt), (λ v. refl))
  unused_iff js (r ∷ rs) =
      append-nil_iff
        (iff_trans (keep_iff _ _) (iff_trans not_iff (IsUsed-iff js (ResourceConfig.name r))))
        (unused_iff js rs)

module _ (api : Outside) where
  open api use {TaskConfig}

  -- validateResources reports nothing exactly if the resources have distinct names and a type and
  -- each is gotten or put by a step of some job, in its plan or in a hook, at any depth.
  pub validate_resources_lem :
      (c : Config TaskConfig) → (Verdict.errors (validate_resources c) ≡ []) ↔ ResourcesOk api c
  unfolding validate_resources ◌⊕◌
  validate_resources_lem c =
      append-nil_iff (resources_iff _ _ (Config.resources c))
        (unused_iff (Config.jobs c) (Config.resources c))

  retention_iff :
      (ident : Identifier) (job : JobConfig TaskConfig)
      → (validate_retention api ident job ≡ [])
        ↔ ((n : ℕ) × (JobConfig.build_logs_to_retain job ≡ pos n))
  unfolding validate_retention
  retention_iff ident job = ground arith

  root_iff :
      (c : Config TaskConfig) (job : JobConfig TaskConfig)
      → IsValid api c (job_root api job) ↔ IsValidSteps api c (JobConfig.job_plan job)
  unfolding IsValid job_root
  root_iff c job = (
    λ v. v.1.0,
    λ v. (refl, (v, tt, tt, inl refl, inl refl, inl refl), (tt, tt, tt, tt), (inl refl, (0, refl))),
  )

  job_iff :
      (c : Config TaskConfig) (i : ℕ) (job : JobConfig TaskConfig)
      → (Verdict.errors (validate_job api c i job) ≡ []) ↔ JobOk api c job
  unfolding validate_job ◌⊕◌
  job_iff c i job =
      let ident = identifier Part.jobs_at Part.jobs_name i (JobConfig.name job) in
      append-nil_iff (iff_trans (keep_iff _ _) (set_iff (JobConfig.name job))) (
        append-nil_iff (retention_iff ident job) (
          append-nil_iff
            (iff_trans (validate_plan-IsValid api c (Part.plan_root ∷ ident) (job_root api job))
              (root_iff c job))
            (append-nil_iff (maybe_iff api c ident Part.abort (JobConfig.abort job)) (
              append-nil_iff (maybe_iff api c ident Part.failure (JobConfig.failure job)) (
                append-nil_iff (maybe_iff api c ident Part.ensure (JobConfig.ensure job)) (
                  append-nil_iff (maybe_iff api c ident Part.success (JobConfig.success job))
                    (same_gets_accepts ident (inputs job))))))))

  -- validateJobs reports nothing exactly if the jobs have distinct names and each is in order.
  pub validate_jobs_lem :
      (c : Config TaskConfig)
      → (Verdict.errors (validate_jobs api c) ≡ [])
        ↔ (Distinct (map JobConfig.name (Config.jobs c)) × All (JobOk api c) (Config.jobs c))
  unfolding validate_jobs
  validate_jobs_lem c =
      scan_accepts Part.jobs_at JobConfig.name (validate_job api c) (JobOk api c) (job_iff c)
        (λ job ok. ok.0) (Config.jobs c)

  -- Config.Validate reports no errors exactly if the pipeline is acceptable: its groups name what
  -- exists and leave no job out, its resources and resource types have distinct names and types, its
  -- resources are used, and its jobs have distinct names and are in order, with valid plans and hooks.
  pub validate-IsAcceptable :
      (c : Config TaskConfig) → (Verdict.errors (validate api c) ≡ []) ↔ IsAcceptable api c
  unfolding validate validate_resource_types ◌⊕◌
  validate-IsAcceptable c = append-nil_iff (validate_groups_lem api c) (
      append-nil_iff (validate_resources_lem c)
        (append-nil_iff (resources_iff _ _ (Config.resource_types c)) (validate_jobs_lem c)))
