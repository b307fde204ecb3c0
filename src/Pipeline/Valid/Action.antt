-- ===== src/Pipeline/Valid/Action.antt =====
-- The switch of validatePlan reports nothing exactly if no action's check does.
use atc.Prelude.{
  ◌≡◌, refl, ◌↔◌, ◌⊎◌, inl, inr, false, Option, none, some, [], ◌∷◌, arith, Bool-cases,
}
use atc.Pipeline.Config.{is_set, Outside, PlanFields, Config}
use atc.Pipeline.Messages.{Identifier, Part, Verdict, optional}
use atc.Pipeline.Steps.{has, validate_action}
use atc.Pipeline.Valid.{actions, GetOk, PutOk, TaskOk}
use atc.Pipeline.Valid.Fields.{get_iff, put_iff, task_iff}

-- A verdict without errors, and an optional one.
abbrev pub Clean : Verdict → Type 0
Clean v = Verdict.errors v ≡ []

module _ (api : Outside) where
  open api use {TaskConfig}

  Clean-none : (o : Option Verdict) → has o ≡ false → Clean (optional o)
  unfolding optional
  Clean-none none e = refl
  Clean-none (some v) e = absurd (ground (arith, e))

  -- With exactly one action, the switch reports nothing exactly if no action's check does.
  pub action_iff :
      (c : Config TaskConfig) (ident : Identifier) (f : PlanFields TaskConfig)
      (d a t : Option Verdict)
      → actions api f (has d) (has a) (has t) ≡ 1
      → Clean (validate_action api c ident f d a t) ↔ (
          Clean (optional d)
          × Clean (optional a)
          × Clean (optional t)
          × ((PlanFields.get f ≡ 0) ⊎ GetOk api c f)
          × ((PlanFields.put f ≡ 0) ⊎ PutOk api c f)
          × ((PlanFields.task f ≡ 0) ⊎ TaskOk api f))
  unfolding validate_action optional
  action_iff c ident f (some v) a t h = (
    λ e. (
      e,
      Clean-none a (ground (arith, h)),
      Clean-none t (ground (arith, h)),
      inl (ground (arith, h)),
      inl (ground (arith, h)),
      inl (ground (arith, h)),
    ),
    λ all. all.0,
  )
  action_iff c ident f none (some v) t h = (
    λ e. (
      refl,
      e,
      Clean-none t (ground (arith, h)),
      inl (ground (arith, h)),
      inl (ground (arith, h)),
      inl (ground (arith, h)),
    ),
    λ all. all.1,
  )
  action_iff c ident f none none t h = elim (Bool-cases (is_set (PlanFields.get f))) [
    | inl e ↦
        ground (
          arith,
          h,
          e,
          get_iff api c (Part.get_of (PlanFields.get f) ∷ ident) f (ground (arith, e)),
        )
    | inr e ↦ elim (Bool-cases (is_set (PlanFields.put f))) [
      | inl e' ↦ ground (arith, h, e, e', put_iff api c (Part.put_of (PlanFields.put f) ∷ ident) f)
      | inr e' ↦ elim (Bool-cases (is_set (PlanFields.task f))) [
        | inl k ↦
            ground (arith, h, e, e', k, task_iff api (Part.task_of (PlanFields.task f) ∷ ident) f)
        | inr k ↦ ground (arith, h, e, e', k)
      ]
    ]
  ]
