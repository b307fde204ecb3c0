-- ===== src/Build/Timeouts.antt =====
-- The timeouts in the plans of a job's configuration.
use atc.Prelude.{◌≡◌, inl, inr, true, arith}
use atc.Pipeline.Config.{
  Name, is_set, Outside, PlanFields, PlanConfig, plan, MaybePlan, absent, present, MaybeSequence,
  no_sequence, steps, PlanSequence, nil, cons, JobConfig, Config,
}
use atc.Pipeline.Valid.{IsValid, IsValidMaybe, IsValidSequence, IsValidSteps}
use atc.Pipeline.Validate.Contract.{JobOk}

module _ {T : Type 0} (D : Name → Type 0) where
  -- Every timeout that is set has the property, also those of hooks and nested steps.
  unfoldable mutual
    pub Timed : PlanConfig T → Type 0
    Timed (plan f d a t ab fa en su) =
        (is_set (PlanFields.timeout f) ≡ true → D (PlanFields.timeout f))
        × (TimedSequence d × TimedSequence a × TimedMaybe t)
        × (TimedMaybe ab × TimedMaybe fa × TimedMaybe en × TimedMaybe su)

    pub TimedMaybe : MaybePlan T → Type 0
    TimedMaybe absent = Unit
    TimedMaybe (present p) = Timed p

    pub TimedSequence : MaybeSequence T → Type 0
    TimedSequence no_sequence = Unit
    TimedSequence (steps ps) = TimedSteps ps

    pub TimedSteps : PlanSequence T → Type 0
    TimedSteps nil = Unit
    TimedSteps (cons p ps) = Timed p × TimedSteps ps

  pub record TimedJob (job : JobConfig T) : Type 0 where
    pub job_plan : TimedSteps (JobConfig.job_plan job)
    pub abort : TimedMaybe (JobConfig.abort job)
    pub failure : TimedMaybe (JobConfig.failure job)
    pub ensure : TimedMaybe (JobConfig.ensure job)
    pub success : TimedMaybe (JobConfig.success job)

  module _ (always : (d : Name) → D d) where
    mutual
      unfolding Timed

      plan-Timed : (p : PlanConfig T) → Timed p
      plan-Timed (plan f d a t ab fa en su) = (
        λ h. always (PlanFields.timeout f),
        (sequence-Timed d, sequence-Timed a, maybe-Timed t),
        (maybe-Timed ab, maybe-Timed fa, maybe-Timed en, maybe-Timed su),
      )

      maybe-Timed : (p : MaybePlan T) → TimedMaybe p
      maybe-Timed absent = tt
      maybe-Timed (present p) = plan-Timed p

      sequence-Timed : (ps : MaybeSequence T) → TimedSequence ps
      sequence-Timed no_sequence = tt
      sequence-Timed (steps ps) = steps-Timed ps

      steps-Timed : (ps : PlanSequence T) → TimedSteps ps
      steps-Timed nil = tt
      steps-Timed (cons p ps) = (plan-Timed p, steps-Timed ps)

    pub always-TimedJob : (job : JobConfig T) → TimedJob job
    always-TimedJob job = record {
      job_plan = steps-Timed (JobConfig.job_plan job);
      abort = maybe-Timed (JobConfig.abort job);
      failure = maybe-Timed (JobConfig.failure job);
      ensure = maybe-Timed (JobConfig.ensure job);
      success = maybe-Timed (JobConfig.success job);
    }

module _ (api : Outside) (c : Config (Outside.TaskConfig api)) where
  open api use {TaskConfig, parses_as_duration}

  abbrev pub Parses : Name → Type 0
  Parses d = parses_as_duration d ≡ true

  mutual
    unfolding Timed IsValid

    IsValid-Timed : (p : PlanConfig TaskConfig) → IsValid api c p → Timed Parses p
    IsValid-Timed (plan f d a t ab fa en su) v = (
      λ h. elim v.3.0 [ inl z ↦ absurd (ground (arith, h, z)) | inr parses ↦ parses ],
      (sequence_valid d v.1.0, sequence_valid a v.1.1, maybe_valid t v.1.2),
      (maybe_valid ab v.2.0, maybe_valid fa v.2.3, maybe_valid en v.2.1, maybe_valid su v.2.2),
    )

    maybe_valid : (p : MaybePlan TaskConfig) → IsValidMaybe api c p → TimedMaybe Parses p
    maybe_valid absent v = tt
    maybe_valid (present p) v = IsValid-Timed p v

    sequence_valid :
        (ps : MaybeSequence TaskConfig) → IsValidSequence api c ps → TimedSequence Parses ps
    sequence_valid no_sequence v = tt
    sequence_valid (steps ps) v = steps_valid ps v

    steps_valid : (ps : PlanSequence TaskConfig) → IsValidSteps api c ps → TimedSteps Parses ps
    steps_valid nil v = tt
    steps_valid (cons p ps) v = (IsValid-Timed p v.0, steps_valid ps v.1)

  -- In a job that is in order, every timeout parses as a duration.
  pub JobOk-TimedJob : (job : JobConfig TaskConfig) → JobOk api c job → TimedJob Parses job
  JobOk-TimedJob job v = record {
    job_plan = steps_valid (JobConfig.job_plan job) v.1.1.0;
    abort = maybe_valid (JobConfig.abort job) v.1.1.1.0;
    failure = maybe_valid (JobConfig.failure job) v.1.1.1.1.0;
    ensure = maybe_valid (JobConfig.ensure job) v.1.1.1.1.1.0;
    success = maybe_valid (JobConfig.success job) v.1.1.1.1.1.1.0;
  }
