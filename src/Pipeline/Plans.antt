-- ===== src/Pipeline/Plans.antt =====
-- job_config.go: the plans of a job, and the inputs and outputs among them.
use atc.Prelude.{List, [], ◌∷◌, ◌++◌, if◌then◌else◌}
use atc.Pipeline.Config.{
  Name, is_set, PlanFields, PlanConfig, plan, MaybePlan, absent, present, MaybeSequence,
  no_sequence, steps, PlanSequence, nil, cons, JobConfig,
}

module _ {T : Type 0} where
  -- A plan's own fields are what the inputs and outputs are read from.
  unfoldable mutual
    pub collect_plans : PlanConfig T → List (PlanFields T)
    collect_plans (plan f d a t ab fa en su) =
        collect_maybe ab
        ++ (collect_maybe su
            ++ (collect_maybe fa
                ++ (collect_maybe en
                    ++ (collect_maybe t
                        ++ (collect_sequence d ++ (collect_sequence a ++ (f ∷ [])))))))

    pub collect_maybe : MaybePlan T → List (PlanFields T)
    collect_maybe absent = []
    collect_maybe (present p) = collect_plans p

    pub collect_sequence : MaybeSequence T → List (PlanFields T)
    collect_sequence no_sequence = []
    collect_sequence (steps ps) = collect_steps ps

    pub collect_steps : PlanSequence T → List (PlanFields T)
    collect_steps nil = []
    collect_steps (cons p ps) = collect_plans p ++ collect_steps ps

  -- The plan around a job's plan, `PlanConfig{Do: &config.Plan, Abort: config.Abort, ...}`, has none
  -- of the fields that make a plan an input or an output.
  unfoldable pub plans : JobConfig T → List (PlanFields T)
  plans j =
      collect_maybe (JobConfig.abort j)
      ++ (collect_maybe (JobConfig.success j)
          ++ (collect_maybe (JobConfig.failure j)
              ++ (collect_maybe (JobConfig.ensure j) ++ collect_steps (JobConfig.job_plan j))))

  -- The plans that set a field, with the name of the resource that they use.
  unfoldable pub named : (PlanFields T → Name) → List (PlanFields T) → List (Name × Name)
  named field [] = []
  named field (f ∷ fs) =
      if is_set (field f)
      then (field f, if is_set (PlanFields.resource f) then PlanFields.resource f else field f)
        ∷ named field fs
      else named field fs

  -- Name and resource of each input and output.
  unfoldable pub inputs : JobConfig T → List (Name × Name)
  inputs j = named PlanFields.get (plans j)

  unfoldable pub outputs : JobConfig T → List (Name × Name)
  outputs j = named PlanFields.put (plans j)
