-- ===== src/Pipeline/Valid.antt =====
-- What a plan must satisfy for validate.go to accept it, said without messages or an order of tests.
pub mod Reports
pub mod Fields
pub mod Action
pub mod Accepts
use atc.Prelude.{
  ℕ, ◌+◌, ◌≡◌, ◌≢◌, ◌⊎◌, Bool, true, false, Option, none, some, List, [], All, Any, if◌then◌else◌,
}
use atc.Pipeline.Config.{
  Name, is_set, ℤ, pos, Outside, PlanFields, PlanConfig, plan, MaybePlan, absent, present,
  MaybeSequence, no_sequence, steps, PlanSequence, nil, cons, JobConfig, Config, ResourceConfig,
  lookup_job,
}
use atc.Pipeline.Plans.{inputs, outputs}

abbrev pub bit : Bool → ℕ
bit true = 1
bit false = 0

abbrev pub is_present : {T : Type 0} → MaybePlan T → Bool
is_present absent = false
is_present (present p) = true

abbrev pub is_sequence : {T : Type 0} → MaybeSequence T → Bool
is_sequence no_sequence = false
is_sequence (steps ps) = true

module _ (api : Outside) where
  open api use {TaskConfig, task_errors, parses_as_duration}

  -- The resource of a step that is named `own`.
  abbrev pub resource_of : PlanFields TaskConfig → Name → Name
  resource_of f own = if is_set (PlanFields.resource f) then PlanFields.resource f else own

  abbrev pub ResourceExists : Config TaskConfig → PlanFields TaskConfig → Name → Type 0
  ResourceExists c f own = Any (λ r. ResourceConfig.name r ≡ resource_of f own) (Config.resources c)

  -- The job gets or puts the resource of the get step.
  abbrev pub Interacts : PlanFields TaskConfig → JobConfig TaskConfig → Type 0
  Interacts f job =
      Any (λ x. x.1 ≡ resource_of f (PlanFields.get f)) (inputs job)
      ⊎ Any (λ x. x.1 ≡ resource_of f (PlanFields.get f)) (outputs job)

  abbrev pub PassedOk : Config TaskConfig → PlanFields TaskConfig → Name → Type 0
  PassedOk c f j =
      (job : JobConfig TaskConfig) × (lookup_job (Config.jobs c) j ≡ some job) × Interacts f job

  abbrev pub GetOk : Config TaskConfig → PlanFields TaskConfig → Type 0
  GetOk c f =
      ((PlanFields.privileged f ≡ false) × (PlanFields.config f ≡ none) × (PlanFields.file f ≡ 0))
      × (ResourceExists c f (PlanFields.get f) × All (PassedOk c f) (PlanFields.passed f))

  abbrev pub PutOk : Config TaskConfig → PlanFields TaskConfig → Type 0
  PutOk c f =
      ((PlanFields.passed f ≡ [])
        × (PlanFields.trigger f ≡ false)
        × (PlanFields.privileged f ≡ false)
        × (PlanFields.config f ≡ none)
        × (PlanFields.file f ≡ 0))
      × ResourceExists c f (PlanFields.put f)

  -- A configuration without errors, or a file of one, but not both.
  abbrev pub ConfigOk : Option TaskConfig → Name → Type 0
  ConfigOk config file =
      ((config ≡ none) × (file ≢ 0))
      ⊎ ((t : TaskConfig) × (config ≡ some t) × (file ≡ 0) × (task_errors t ≡ []))

  abbrev pub TaskOk : PlanFields TaskConfig → Type 0
  TaskOk f =
      ConfigOk (PlanFields.config f) (PlanFields.file f)
      × ((PlanFields.resource f ≡ 0) × (PlanFields.passed f ≡ []) × (PlanFields.trigger f ≡ false))

  abbrev pub LimitsOk : PlanFields TaskConfig → Type 0
  LimitsOk f =
      ((PlanFields.timeout f ≡ 0) ⊎ (parses_as_duration (PlanFields.timeout f) ≡ true))
      × ((n : ℕ) × (PlanFields.attempts f ≡ pos n))

  abbrev pub actions : PlanFields TaskConfig → (do_ aggregate try_ : Bool) → ℕ
  actions f d a t =
      bit a
      + (bit d
          + (bit (is_set (PlanFields.get f))
              + (bit (is_set (PlanFields.put f)) + (bit (is_set (PlanFields.task f)) + bit t))))

  unfoldable mutual
    pub IsValid : Config TaskConfig → PlanConfig TaskConfig → Type 0
    IsValid c (plan f d a t ab fa en su) =
        (actions f (is_sequence d) (is_sequence a) (is_present t) ≡ 1)
        × (IsValidSequence c d
            × IsValidSequence c a
            × IsValidMaybe c t
            × ((PlanFields.get f ≡ 0) ⊎ GetOk c f)
            × ((PlanFields.put f ≡ 0) ⊎ PutOk c f)
            × ((PlanFields.task f ≡ 0) ⊎ TaskOk f))
        × (IsValidMaybe c ab × IsValidMaybe c en × IsValidMaybe c su × IsValidMaybe c fa)
        × LimitsOk f

    pub IsValidMaybe : Config TaskConfig → MaybePlan TaskConfig → Type 0
    IsValidMaybe c absent = Unit
    IsValidMaybe c (present p) = IsValid c p

    pub IsValidSequence : Config TaskConfig → MaybeSequence TaskConfig → Type 0
    IsValidSequence c no_sequence = Unit
    IsValidSequence c (steps ps) = IsValidSteps c ps

    pub IsValidSteps : Config TaskConfig → PlanSequence TaskConfig → Type 0
    IsValidSteps c nil = Unit
    IsValidSteps c (cons p ps) = IsValid c p × IsValidSteps c ps
