-- ===== src/Pipeline/Validate/Used.antt =====
-- The resources that the steps of a job get and put, read off the job's configuration.
use atc.Prelude.{◌≡◌, ◌≢◌, ◌⊎◌, inl, inr, ◌↔◌, List, [], ◌∷◌, ◌++◌, Any, arith}
use atc.Prelude.Reports.{refl_iff}
use atc.Pipeline.Config.{
  Name, PlanFields, PlanConfig, plan, MaybePlan, absent, present, MaybeSequence, no_sequence, steps,
  PlanSequence, nil, cons, JobConfig,
}
use atc.Pipeline.Plans.{
  collect_plans, collect_maybe, collect_sequence, collect_steps, plans, named, inputs, outputs,
}
use atc.Pipeline.Valid.Reports.{iff_trans}

sum_iff : {A B C D : Type 0} → A ↔ C → B ↔ D → (A ⊎ B) ↔ (C ⊎ D)
sum_iff f g = (
  λ s. elim s [ inl a ↦ inl (f.0 a) | inr b ↦ inr (g.0 b) ],
  λ s. elim s [ inl c ↦ inl (f.1 c) | inr d ↦ inr (g.1 d) ],
)

module _ {A : Type 0} (P : A → Type 0) where
  Any-append_iff : (xs ys : List A) → Any P (xs ++ ys) ↔ (Any P xs ⊎ Any P ys)
  Any-append_iff [] ys = ((λ s. inr s), (λ s. elim s [ inl a ↦ absurd a | inr b ↦ b ]))
  Any-append_iff (x ∷ xs) ys = (
    λ s. elim s [
      | inl a ↦ inl (inl a)
      | inr b ↦ elim ((Any-append_iff xs ys).0 b) [ inl c ↦ inl (inr c) | inr d ↦ inr d ]
    ],
    λ s. elim s [
      | inl a ↦ elim a [ inl c ↦ inl c | inr d ↦ inr ((Any-append_iff xs ys).1 (inl d)) ]
      | inr b ↦ inr ((Any-append_iff xs ys).1 (inr b))
    ],
  )

  both_iff :
      {B C : Type 0} (xs ys : List A) → Any P xs ↔ B → Any P ys ↔ C → Any P (xs ++ ys) ↔ (B ⊎ C)
  both_iff xs ys f g = iff_trans (Any-append_iff xs ys) (sum_iff f g)

module _ {T : Type 0} where
  module _ (P : PlanFields T → Type 0) where
    -- Some step of a plan has the property: one of its hooks, the steps in it, or the plan itself.
    unfoldable mutual
      pub InPlan : PlanConfig T → Type 0
      InPlan (plan f d a t ab fa en su) =
          InMaybe ab
          ⊎ (InMaybe su
              ⊎ (InMaybe fa ⊎ (InMaybe en ⊎ (InMaybe t ⊎ (InSequence d ⊎ (InSequence a ⊎ P f))))))

      pub InMaybe : MaybePlan T → Type 0
      InMaybe absent = ⊥
      InMaybe (present p) = InPlan p

      pub InSequence : MaybeSequence T → Type 0
      InSequence no_sequence = ⊥
      InSequence (steps ps) = InSteps ps

      pub InSteps : PlanSequence T → Type 0
      InSteps nil = ⊥
      InSteps (cons p ps) = InPlan p ⊎ InSteps ps

    -- Some step of the job's plan or of its hooks.
    abbrev pub InJob : JobConfig T → Type 0
    InJob j =
        InMaybe (JobConfig.abort j)
        ⊎ (InMaybe (JobConfig.success j)
            ⊎ (InMaybe (JobConfig.failure j)
                ⊎ (InMaybe (JobConfig.ensure j) ⊎ InSteps (JobConfig.job_plan j))))

    one_iff : (f : PlanFields T) → Any P (f ∷ []) ↔ P f
    one_iff f = ((λ s. elim s [ inl p ↦ p | inr n ↦ absurd n ]), (λ p. inl p))

    mutual
      unfolding InPlan collect_plans

      plan_iff : (p : PlanConfig T) → Any P (collect_plans p) ↔ InPlan p
      plan_iff (plan f d a t ab fa en su) = both_iff P (collect_maybe ab) _ (maybe_plan_iff ab) (
          both_iff P (collect_maybe su) _ (maybe_plan_iff su) (
            both_iff P (collect_maybe fa) _ (maybe_plan_iff fa) (
              both_iff P (collect_maybe en) _ (maybe_plan_iff en) (
                both_iff P (collect_maybe t) _ (maybe_plan_iff t) (
                  both_iff P (collect_sequence d) _ (sequence_iff d)
                    (both_iff P (collect_sequence a) _ (sequence_iff a) (one_iff f)))))))

      maybe_plan_iff : (p : MaybePlan T) → Any P (collect_maybe p) ↔ InMaybe p
      maybe_plan_iff absent = refl_iff
      maybe_plan_iff (present p) = plan_iff p

      sequence_iff : (ps : MaybeSequence T) → Any P (collect_sequence ps) ↔ InSequence ps
      sequence_iff no_sequence = refl_iff
      sequence_iff (steps ps) = steps_iff ps

      steps_iff : (ps : PlanSequence T) → Any P (collect_steps ps) ↔ InSteps ps
      steps_iff nil = refl_iff
      steps_iff (cons p ps) = both_iff P (collect_plans p) _ (plan_iff p) (steps_iff ps)

    plans_iff : (j : JobConfig T) → Any P (plans j) ↔ InJob j
    unfolding plans
    plans_iff j =
        both_iff P (collect_maybe (JobConfig.abort j)) _ (maybe_plan_iff (JobConfig.abort j)) (
          both_iff P (collect_maybe (JobConfig.success j)) _ (maybe_plan_iff (JobConfig.success j))
            (both_iff P (collect_maybe (JobConfig.failure j)) _
              (maybe_plan_iff (JobConfig.failure j))
              (both_iff P (collect_maybe (JobConfig.ensure j)) _
                (maybe_plan_iff (JobConfig.ensure j)) (steps_iff (JobConfig.job_plan j)))))

  -- The step sets the field, and its resource, or else the field, names r.
  abbrev pub Names : (PlanFields T → Name) → Name → PlanFields T → Type 0
  Names field r f =
      (field f ≢ 0)
      × (((PlanFields.resource f ≢ 0) × (PlanFields.resource f ≡ r))
          ⊎ ((PlanFields.resource f ≡ 0) × (field f ≡ r)))

  -- Some step of the job, in its plan or a hook, at any depth, gets or puts the resource.
  abbrev pub JobUses : Name → JobConfig T → Type 0
  JobUses r j = InJob (Names PlanFields.get r) j ⊎ InJob (Names PlanFields.put r) j

  named_iff :
      (field : PlanFields T → Name) (r : Name) (fs : List (PlanFields T))
      → Any (λ x. x.1 ≡ r) (named field fs) ↔ Any (Names field r) fs
  unfolding named
  named_iff field r [] = refl_iff
  named_iff field r (f ∷ fs) = ground (arith, named_iff field r fs)

  pub JobUses-iff :
      (r : Name) (j : JobConfig T)
      → (Any (λ x. x.1 ≡ r) (inputs j) ⊎ Any (λ x. x.1 ≡ r) (outputs j)) ↔ JobUses r j
  unfolding inputs outputs
  JobUses-iff r j =
      sum_iff
        (iff_trans (named_iff PlanFields.get r (plans j)) (plans_iff (Names PlanFields.get r) j))
        (iff_trans (named_iff PlanFields.put r (plans j)) (plans_iff (Names PlanFields.put r) j))
