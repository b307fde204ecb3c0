-- ===== src/Pipeline/Valid/Fields.antt =====
-- The checks of one step's own fields report nothing exactly if the fields are in order.
use atc.Prelude.{
  ◌≡◌, ◌≢◌, refl, sym, subst, some-injective, ◌↔◌, ◌⊎◌, inl, inr, false, not, ◌&&◌, ◌||◌, Option,
  none, some, List, [], ◌∷◌, All, Any, length, length-append, arith, Option-cases,
}
use atc.Pipeline.Config.{
  Name, is_set, Outside, PlanFields, JobConfig, Config, lookup_job, resource_name,
}
use atc.Pipeline.Plans.{inputs, outputs}
use atc.Pipeline.Messages.{Identifier, Field, Message, Verdict}
use atc.Pipeline.Steps.{
  has, uses, has_field, found_fields, validate_inapplicable_fields, validate_resource_exists,
  validate_passed, validate_passed_job, validate_get, validate_put, validate_config, validate_task,
  found_types, validate_limits,
}
use atc.Pipeline.Valid.{
  resource_of, Interacts, ConfigOk, ResourceExists, PassedOk, GetOk, PutOk, TaskOk, LimitsOk,
  actions,
}
use atc.Pipeline.Valid.Reports.{
  keep_iff, append-nil_iff, map-nil_iff, file_iff, refl_iff, lookup_iff, uses_iff, length-keep,
}

module _ (api : Outside) where
  open api use {TaskConfig, task_errors, parses_as_duration}

  pub length-found_types :
      (d a t : Option Verdict) (f : PlanFields TaskConfig)
      → length (found_types api d a t f) ≡ actions api f (has d) (has a) (has t)
  unfolding found_types
  length-found_types d a t f = simp (length-append, length-keep)

  exists_iff :
      (c : Config TaskConfig) (ident : Identifier) (f : PlanFields TaskConfig) (own : Name)
      → (validate_resource_exists api c ident f own ≡ []) ↔ ResourceExists api c f own
  unfolding validate_resource_exists
  exists_iff c ident f own = ground (
    arith,
    lookup_iff (Config.resources c) own,
    lookup_iff (Config.resources c) (PlanFields.resource f),
  )

  get_fields_iff :
      (f : PlanFields TaskConfig) (ident : Identifier)
      → (validate_inapplicable_fields api
            (Field.privileged ∷ Field.config ∷ Field.file ∷ [])
            f
            ident
          ≡ [])
        ↔ ((PlanFields.privileged f ≡ false)
            × (PlanFields.config f ≡ none)
            × (PlanFields.file f ≡ 0))
  unfolding validate_inapplicable_fields found_fields has_field
  get_fields_iff f ident = ground arith

  put_fields_iff :
      (f : PlanFields TaskConfig) (ident : Identifier)
      → (validate_inapplicable_fields api
            (Field.passed ∷ Field.trigger ∷ Field.privileged ∷ Field.config ∷ Field.file ∷ [])
            f
            ident
          ≡ [])
        ↔ ((PlanFields.passed f ≡ [])
            × (PlanFields.trigger f ≡ false)
            × (PlanFields.privileged f ≡ false)
            × (PlanFields.config f ≡ none)
            × (PlanFields.file f ≡ 0))
  unfolding validate_inapplicable_fields found_fields has_field
  put_fields_iff f ident = ground arith

  task_fields_iff :
      (f : PlanFields TaskConfig) (ident : Identifier)
      → (validate_inapplicable_fields api
            (Field.resource ∷ Field.passed ∷ Field.trigger ∷ [])
            f
            ident
          ≡ [])
        ↔ ((PlanFields.resource f ≡ 0)
            × (PlanFields.passed f ≡ [])
            × (PlanFields.trigger f ≡ false))
  unfolding validate_inapplicable_fields found_fields has_field
  task_fields_iff f ident = ground arith

  pub limits_iff :
      (ident : Identifier) (f : PlanFields TaskConfig)
      → (Verdict.errors (validate_limits api ident f) ≡ []) ↔ LimitsOk api f
  unfolding validate_limits
  limits_iff ident f = ground arith

  resource_name_get :
      (f : PlanFields TaskConfig)
      → PlanFields.get f ≢ 0
      → resource_name f ≡ some (resource_of api f (PlanFields.get f))
  unfolding resource_name
  resource_name_get f g = ground arith

  uses_either :
      (xs ys : List (Name × Name)) (r : Name)
      → ((not (uses xs (some r) || uses ys (some r))) ≡ false)
        ↔ (Any (λ x. x.1 ≡ r) xs ⊎ Any (λ x. x.1 ≡ r) ys)
  uses_either xs ys r = ground (arith, uses_iff xs r, uses_iff ys r)

  -- What the step asks of a job that it finds.
  reported_iff :
      (c : Config TaskConfig) (ident : Identifier) (f : PlanFields TaskConfig) (j : Name)
      → PlanFields.get f ≢ 0
      → (job : JobConfig TaskConfig) → lookup_job (Config.jobs c) j ≡ some job
      → (validate_passed_job api c ident f j ≡ []) ↔ Interacts api f job
  unfolding validate_passed_job
  reported_iff c ident f j g job e = ground (
    arith,
    e,
    resource_name_get f g,
    uses_either (inputs job) (outputs job) (resource_of api f (PlanFields.get f)),
  )

  passed_iff :
      (c : Config TaskConfig) (ident : Identifier) (f : PlanFields TaskConfig)
      → PlanFields.get f ≢ 0
      → (j : Name) → (validate_passed_job api c ident f j ≡ []) ↔ PassedOk api c f j
  unfolding validate_passed_job
  passed_iff c ident f g j = elim (Option-cases (lookup_job (Config.jobs c) j)) [
    | inl e ↦ ((λ h. absurd (ground (arith, h, e))), (λ v. absurd (ground (arith, e, v.1))))
    | inr (job, e) ↦ (
      λ h. (job, e, (reported_iff c ident f j g job e).0 h),
      λ v. (reported_iff c ident f j g v.0 v.1).1 v.2,
    )
  ]

  All-passed_iff :
      (c : Config TaskConfig) (ident : Identifier) (f : PlanFields TaskConfig)
      → PlanFields.get f ≢ 0
      → (js : List Name) → (validate_passed api c ident f js ≡ []) ↔ All (PassedOk api c f) js
  unfolding validate_passed
  All-passed_iff c ident f g [] = ground arith
  All-passed_iff c ident f g (j ∷ js) =
      append-nil_iff (passed_iff c ident f g j) (All-passed_iff c ident f g js)

  pub get_iff :
      (c : Config TaskConfig) (ident : Identifier) (f : PlanFields TaskConfig)
      → PlanFields.get f ≢ 0
      → (Verdict.errors (validate_get api c ident f) ≡ []) ↔ GetOk api c f
  unfolding validate_get
  get_iff c ident f g = append-nil_iff (get_fields_iff f ident) (
      append-nil_iff (exists_iff c ident f (PlanFields.get f))
        (All-passed_iff c ident f g (PlanFields.passed f)))

  pub put_iff :
      (c : Config TaskConfig) (ident : Identifier) (f : PlanFields TaskConfig)
      → (Verdict.errors (validate_put api c ident f) ≡ []) ↔ PutOk api c f
  unfolding validate_put
  put_iff c ident f =
      append-nil_iff (put_fields_iff f ident) (exists_iff c ident f (PlanFields.put f))

  config_iff :
      (ident : Identifier) (config : Option TaskConfig) (file : Name)
      → (((not (has config) && not (is_set file)) ≡ false)
          × ((has config && is_set file) ≡ false)
          × (validate_config api ident config ≡ []))
        ↔ ConfigOk api config file
  unfolding validate_config
  config_iff ident none file = ground arith
  config_iff ident (some t) file = (
    λ v. inr (
      t,
      refl,
      (file_iff file).0 v.1,
      (map-nil_iff (Message.invalid_task ident) (task_errors t)).0 v.2,
    ),
    λ ok. elim ok [
      | inl v ↦ absurd (ground (arith, v.0))
      | inr v ↦ (
        refl,
        (file_iff file).1 v.2,
        (map-nil_iff (Message.invalid_task ident) (task_errors t)).1
            (subst (λ x. task_errors x ≡ []) (sym (some-injective t v.0 v.1)) v.3),
      )
    ],
  )

  pub task_iff :
      (ident : Identifier) (f : PlanFields TaskConfig)
      → (Verdict.errors (validate_task api ident f) ≡ []) ↔ TaskOk api f
  unfolding validate_task
  task_iff ident f =
      let config = config_iff ident (PlanFields.config f) (PlanFields.file f) in
      let all =
        append-nil_iff (keep_iff _ _)
          (append-nil_iff (keep_iff _ _) (append-nil_iff refl_iff (task_fields_iff f ident))) in
      (
        λ e. (config.0 ((all.0 e).0, (all.0 e).1.0, (all.0 e).1.1.0), (all.0 e).1.1.1),
        λ v. all.1 ((config.1 v.0).0, ((config.1 v.0).1, ((config.1 v.0).2, v.1))),
      )
