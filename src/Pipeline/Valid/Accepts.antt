-- ===== src/Pipeline/Valid/Accepts.antt =====
-- validatePlan reports no errors exactly for valid plans.
use atc.Prelude.{
  ℕ, suc, ◌≡◌, refl, ◌↔◌, ◌⊎◌, Bool, Option, none, some, [], ◌∷◌, arith, subst, ◌∙◌, sym,
}
use atc.Pipeline.Config.{
  Outside, PlanFields, PlanConfig, plan, MaybePlan, absent, present, MaybeSequence, no_sequence,
  steps, PlanSequence, nil, cons, Config,
}
use atc.Pipeline.Messages.{Identifier, Part, Verdict, ◌⊕◌, optional, Message}
use atc.Pipeline.Steps.{
  has, unless, one_action, found_types, validate_action, identifier_of, validate_limits,
  validate_plan, validate_maybe, validate_sequence, validate_steps,
}
use atc.Pipeline.Valid.{
  is_sequence, is_present, actions, GetOk, PutOk, TaskOk, IsValid, IsValidMaybe, IsValidSequence,
  IsValidSteps, LimitsOk,
}
use atc.Pipeline.Valid.Fields.{limits_iff, length-found_types}
use atc.Pipeline.Valid.Reports.{append-nil_iff, one_action_iff}
use atc.Pipeline.Valid.Action.{Clean, action_iff}

module _ (api : Outside) where
  open api use {TaskConfig}

  unless_iff : (o : Option Message) (v : Verdict) → Clean (unless o v) ↔ ((o ≡ none) × Clean v)
  unfolding unless
  unless_iff none v = ground arith
  unless_iff (some m) v = ground arith

  has-validate_maybe :
      (c : Config TaskConfig) (ident : Identifier) (part : Part) (p : MaybePlan TaskConfig)
      → has (validate_maybe api c ident part p) ≡ is_present p
  unfolding validate_maybe
  has-validate_maybe c ident part absent = refl
  has-validate_maybe c ident part (present p) = refl

  has-validate_sequence :
      (c : Config TaskConfig) (ident : Identifier) (part : ℕ → Part) (ps : MaybeSequence TaskConfig)
      → has (validate_sequence api c ident part ps) ≡ is_sequence ps
  unfolding validate_sequence
  has-validate_sequence c ident part no_sequence = refl
  has-validate_sequence c ident part (steps ps) = refl

  abbrev present_ones :
      MaybeSequence TaskConfig
      → MaybeSequence TaskConfig
      → MaybePlan TaskConfig
      → Bool × Bool × Bool
  present_ones d a t = (is_sequence d, is_sequence a, is_present t)

  tests :
      (c : Config TaskConfig) (ident : Identifier) (d a : MaybeSequence TaskConfig)
      (t : MaybePlan TaskConfig)
      → (
        has (validate_sequence api c ident Part.at d),
        has (validate_sequence api c ident Part.aggregate_at a),
        has (validate_maybe api c ident Part.try_part t),
      )
        ≡ present_ones d a t
  tests c ident d a t =
      rw
        (
          has-validate_sequence c ident Part.at d,
          has-validate_sequence c ident Part.aggregate_at a,
          has-validate_maybe c ident Part.try_part t,
        )
        refl

  count_iff :
      (ident : Identifier) (f : PlanFields TaskConfig) (d a t : Option Verdict)
      → (one_action ident (found_types api d a t f) ≡ none)
        ↔ (actions api f (has d) (has a) (has t) ≡ 1)
  count_iff ident f d a t =
      let one = one_action_iff ident (found_types api d a t f) in
      (
        λ e. sym (length-found_types api d a t f) ∙ one.0 e,
        λ n. one.1 (length-found_types api d a t f ∙ n),
      )

  -- The verdict of a plan from the verdicts of the plans in it.
  assemble :
      (c : Config TaskConfig) (ident at : Identifier) (f : PlanFields TaskConfig)
      (d a t ab en su fa : Option Verdict) {D A T Ab En Su Fa : Type 0}
      → Clean (optional d) ↔ D
      → Clean (optional a) ↔ A
      → Clean (optional t) ↔ T
      → Clean (optional ab) ↔ Ab
      → Clean (optional en) ↔ En
      → Clean (optional su) ↔ Su
      → Clean (optional fa) ↔ Fa
      → Clean (
          unless (one_action ident (found_types api d a t f)) (
            validate_action api c ident f d a t
            ⊕ optional ab
            ⊕ optional en
            ⊕ optional su
            ⊕ optional fa
            ⊕ validate_limits api at f))
        ↔ ((actions api f (has d) (has a) (has t) ≡ 1)
            × (D
                × A
                × T
                × ((PlanFields.get f ≡ 0) ⊎ GetOk api c f)
                × ((PlanFields.put f ≡ 0) ⊎ PutOk api c f)
                × ((PlanFields.task f ≡ 0) ⊎ TaskOk api f))
            × (Ab × En × Su × Fa)
            × LimitsOk api f)
  unfolding ◌⊕◌
  assemble c ident at f d a t ab en su fa id_ ia it iab ien isu ifa =
      let rest =
        append-nil_iff iab
          (append-nil_iff ien (append-nil_iff isu (append-nil_iff ifa (limits_iff api at f)))) in
      let count = count_iff ident f d a t in
      let body =
        append-nil_iff {P = Clean (validate_action api c ident f d a t)} ((λ e. e), (λ e. e))
          rest in
      (
        λ e.
            let u = (unless_iff _ _).0 e in
            let n = count.0 u.0 in
            let b = body.0 u.1 in
            let act = (action_iff api c ident f d a t n).0 b.0 in
            (
              n,
              (id_.0 act.0, ia.0 act.1, it.0 act.2, act.3, act.4, act.5),
              (b.1.0, b.1.1.0, b.1.1.1.0, b.1.1.1.1.0),
              b.1.1.1.1.1,
            ),
        λ v.
            let x = v.1 in
            (unless_iff _ _).1 (
              count.1 v.0,
              body.1 (
                (action_iff api c ident f d a t v.0).1
                    (id_.1 x.0, ia.1 x.1, it.1 x.2, x.3, x.4, x.5),
                (v.2.0, (v.2.1, (v.2.2, (v.2.3, v.3)))),
              ),
            ),
      )

  mutual
    unfolding validate_plan validate_maybe validate_sequence validate_steps optional ◌⊕◌ IsValid
        IsValidMaybe IsValidSequence IsValidSteps

    plan_iff :
        (c : Config TaskConfig) (ident : Identifier) (p : PlanConfig TaskConfig)
        → Clean (validate_plan api c ident p) ↔ IsValid api c p
    plan_iff c ident (plan f d a t ab fa en su) =
        subst
          (λ x. Clean (validate_plan api c ident (plan f d a t ab fa en su)) ↔ (
            (actions api f x.0 x.1 x.2 ≡ 1)
            × (IsValidSequence api c d
                × IsValidSequence api c a
                × IsValidMaybe api c t
                × ((PlanFields.get f ≡ 0) ⊎ GetOk api c f)
                × ((PlanFields.put f ≡ 0) ⊎ PutOk api c f)
                × ((PlanFields.task f ≡ 0) ⊎ TaskOk api f))
            × (IsValidMaybe api c ab
                × IsValidMaybe api c en
                × IsValidMaybe api c su
                × IsValidMaybe api c fa)
            × LimitsOk api f))
          (tests c ident d a t)
          (assemble c ident (identifier_of api ident f d a) f
            (validate_sequence api c ident Part.at d)
            (validate_sequence api c ident Part.aggregate_at a)
            (validate_maybe api c ident Part.try_part t)
            (validate_maybe api c (identifier_of api ident f d a) Part.abort ab)
            (validate_maybe api c (identifier_of api ident f d a) Part.ensure en)
            (validate_maybe api c (identifier_of api ident f d a) Part.success su)
            (validate_maybe api c (identifier_of api ident f d a) Part.failure fa)
            (sequence_iff c ident Part.at d) (sequence_iff c ident Part.aggregate_at a)
            (maybe_iff c ident Part.try_part t)
            (maybe_iff c (identifier_of api ident f d a) Part.abort ab)
            (maybe_iff c (identifier_of api ident f d a) Part.ensure en)
            (maybe_iff c (identifier_of api ident f d a) Part.success su)
            (maybe_iff c (identifier_of api ident f d a) Part.failure fa))

    pub maybe_iff :
        (c : Config TaskConfig) (ident : Identifier) (part : Part) (p : MaybePlan TaskConfig)
        → Clean (optional (validate_maybe api c ident part p)) ↔ IsValidMaybe api c p
    maybe_iff c ident part absent = ((λ e. tt), (λ v. refl))
    maybe_iff c ident part (present p) = plan_iff c (part ∷ ident) p

    sequence_iff :
        (c : Config TaskConfig) (ident : Identifier) (part : ℕ → Part)
        (ps : MaybeSequence TaskConfig)
        → Clean (optional (validate_sequence api c ident part ps)) ↔ IsValidSequence api c ps
    sequence_iff c ident part no_sequence = ((λ e. tt), (λ v. refl))
    sequence_iff c ident part (steps ps) = steps_iff c ident part 0 ps

    steps_iff :
        (c : Config TaskConfig) (ident : Identifier) (part : ℕ → Part) (i : ℕ)
        (ps : PlanSequence TaskConfig)
        → Clean (validate_steps api c ident part i ps) ↔ IsValidSteps api c ps
    steps_iff c ident part i nil = ((λ e. tt), (λ v. refl))
    steps_iff c ident part i (cons p ps) =
        append-nil_iff (plan_iff c (part i ∷ ident) p) (steps_iff c ident part (suc i) ps)

  -- The errors of validatePlan are none, for a plan at any place in the pipeline, exactly if the plan
  -- is valid.
  pub validate_plan-IsValid :
      (c : Config TaskConfig) (ident : Identifier) (p : PlanConfig TaskConfig)
      → (Verdict.errors (validate_plan api c ident p) ≡ []) ↔ IsValid api c p
  validate_plan-IsValid c ident p = plan_iff c ident p
