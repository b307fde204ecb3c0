-- ===== src/Pipeline/Validate/Contract.antt =====
-- What a pipeline must satisfy for Config.Validate to accept it.
use atc.Prelude.{ℕ, ◌≡◌, ◌≢◌, ◌⊎◌, List, [], ◌∷◌, map, All, Any}
use atc.Pipeline.Config.{Name, pos, Outside, JobConfig, GroupConfig, ResourceConfig, Config}
use atc.Pipeline.Plans.{inputs}
use atc.Pipeline.Validate.Used.{JobUses}
use atc.Pipeline.Valid.{IsValidSteps, IsValidMaybe}

unfoldable pub Distinct : List Name → Type 0
Distinct [] = Unit
Distinct (x ∷ xs) = All (λ y. x ≢ y) xs × Distinct xs

-- A step of some job gets or puts the resource.
abbrev pub IsUsed : {T : Type 0} → List (JobConfig T) → Name → Type 0
IsUsed jobs r = Any (JobUses r) jobs

abbrev pub IsComplete : ResourceConfig → Type 0
IsComplete r = (ResourceConfig.name r ≢ 0) × (ResourceConfig.type r ≢ 0)

module _ (api : Outside) where
  open api use {TaskConfig}

  abbrev pub InGroup : List GroupConfig → Name → Type 0
  InGroup gs j = Any (λ g. Any (λ n. n ≡ j) (GroupConfig.jobs g)) gs

  -- Groups name known jobs and resources, and where there are groups each job is in one.
  abbrev pub GroupsOk : Config TaskConfig → Type 0
  GroupsOk c =
      All
        (λ g.
          All (λ n. Any (λ j. JobConfig.name j ≡ n) (Config.jobs c)) (GroupConfig.jobs g)
          × All (λ n. Any (λ r. ResourceConfig.name r ≡ n) (Config.resources c))
              (GroupConfig.resources g))
        (Config.groups c)
      × ((Config.groups c ≡ [])
          ⊎ All (λ j. InGroup (Config.groups c) (JobConfig.name j)) (Config.jobs c))

  abbrev pub ResourcesOk : Config TaskConfig → Type 0
  ResourcesOk c =
      (Distinct (map ResourceConfig.name (Config.resources c))
        × All IsComplete (Config.resources c))
      × All (λ r. IsUsed (Config.jobs c) (ResourceConfig.name r)) (Config.resources c)

  abbrev pub JobOk : Config TaskConfig → JobConfig TaskConfig → Type 0
  JobOk c job =
      (JobConfig.name job ≢ 0)
      × (((n : ℕ) × (JobConfig.build_logs_to_retain job ≡ pos n))
          × (IsValidSteps api c (JobConfig.job_plan job)
              × (IsValidMaybe api c (JobConfig.abort job)
                  × (IsValidMaybe api c (JobConfig.failure job)
                      × (IsValidMaybe api c (JobConfig.ensure job)
                          × (IsValidMaybe api c (JobConfig.success job)
                              × Distinct (map (λ x. x.0) (inputs job))))))))

  abbrev pub IsAcceptable : Config TaskConfig → Type 0
  IsAcceptable c =
      GroupsOk c
      × (ResourcesOk c
          × ((Distinct (map ResourceConfig.name (Config.resource_types c))
                × All IsComplete (Config.resource_types c))
              × (Distinct (map JobConfig.name (Config.jobs c)) × All (JobOk c) (Config.jobs c))))
