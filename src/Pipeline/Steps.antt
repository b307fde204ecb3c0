-- ===== src/Pipeline/Steps.antt =====
-- validate.go: validatePlan, validateInapplicableFields and foundTypes.
use atc.Prelude.{
  ℕ, suc, Bool, true, false, not, ◌&&◌, ◌||◌, Option, none, some, List, [], ◌∷◌, ◌++◌, map, ◌==◌,
  if◌then◌else◌,
}
use atc.Pipeline.Config.{
  Name, is_set, pos, negsuc, Outside, PlanFields, PlanConfig, plan, MaybePlan, absent, present,
  MaybeSequence, no_sequence, steps, PlanSequence, nil, cons, Config, lookup_resource, lookup_job,
  resource_name, is_empty,
}
use atc.Pipeline.Plans.{inputs, outputs}
use atc.Pipeline.Messages.{
  Identifier, Part, Action, Field, Message, Warning, Verdict, accepted, failing, ◌⊕◌, optional,
}

abbrev pub keep {ℓ} : {A : Type ℓ} → Bool → A → List A
keep true x = x ∷ []
keep false x = []

abbrev pub has {ℓ} : {A : Type ℓ} → Option A → Bool
has none = false
has (some x) = true

-- foundTypes.IsValid: the types sorted by name are listed by name here.
unfoldable pub one_action : Identifier → List Action → Option Message
one_action ident [] = some (Message.no_action ident)
one_action ident (t ∷ []) = none
one_action ident (t ∷ u ∷ ts) = some (Message.multiple_actions ident (t ∷ u ∷ ts))

-- The early return of validatePlan.
unfoldable pub unless : Option Message → Verdict → Verdict
unless (some m) v = failing (m ∷ [])
unless none v = v

-- Whether some of these, as inputs or outputs, use the resource; ResourceName would panic at none.
unfoldable pub uses : List (Name × Name) → Option Name → Bool
uses [] r = false
uses (x ∷ xs) none = uses xs none
uses (x ∷ xs) (some r) = (x.1 == r) || uses xs (some r)

module _ (api : Outside) where
  open api use {TaskConfig, task_errors, has_image, parses_as_duration}

  unfoldable pub has_field : PlanFields TaskConfig → Field → Bool
  has_field f Field.resource = is_set (PlanFields.resource f)
  has_field f Field.passed = not (is_empty (PlanFields.passed f))
  has_field f Field.trigger = PlanFields.trigger f
  has_field f Field.privileged = PlanFields.privileged f
  has_field f Field.config = has (PlanFields.config f)
  has_field f Field.file = is_set (PlanFields.file f)

  unfoldable pub found_fields : PlanFields TaskConfig → List Field → List Field
  found_fields f [] = []
  found_fields f (x ∷ xs) = keep (has_field f x) x ++ found_fields f xs

  unfoldable pub validate_inapplicable_fields :
      List Field → PlanFields TaskConfig → Identifier → List Message
  validate_inapplicable_fields fields f ident = elim (found_fields f fields) [
    | [] ↦ []
    | x ∷ xs ↦ Message.invalid_fields ident (x ∷ xs) ∷ []
  ]

  -- The look-up of a get or put step's resource, by its own name where it sets no resource.
  unfoldable pub validate_resource_exists :
      Config TaskConfig → Identifier → PlanFields TaskConfig → Name → List Message
  validate_resource_exists c ident f own =
      if is_set (PlanFields.resource f)
      then keep (not (has (lookup_resource (Config.resources c) (PlanFields.resource f))))
          (Message.no_such_resource ident (PlanFields.resource f))
      else keep (not (has (lookup_resource (Config.resources c) own))) (Message.no_resource ident)

  -- One round of the loop over plan.Passed.
  unfoldable pub validate_passed_job :
      Config TaskConfig → Identifier → PlanFields TaskConfig → Name → List Message
  validate_passed_job c ident f j = elim (lookup_job (Config.jobs c) j) [
    | none ↦ Message.unknown_passed_job ident j ∷ []
    | some job ↦
        keep (not (uses (inputs job) (resource_name f) || uses (outputs job) (resource_name f)))
          (Message.no_interaction ident j (PlanFields.get f))
  ]

  unfoldable pub validate_passed :
      Config TaskConfig → Identifier → PlanFields TaskConfig → List Name → List Message
  validate_passed c ident f [] = []
  validate_passed c ident f (j ∷ js) =
      validate_passed_job c ident f j ++ validate_passed c ident f js

  unfoldable pub validate_get : Config TaskConfig → Identifier → PlanFields TaskConfig → Verdict
  validate_get c ident f = failing (
      validate_inapplicable_fields (Field.privileged ∷ Field.config ∷ Field.file ∷ []) f ident
      ++ (validate_resource_exists c ident f (PlanFields.get f)
          ++ validate_passed c ident f (PlanFields.passed f)))

  unfoldable pub validate_put : Config TaskConfig → Identifier → PlanFields TaskConfig → Verdict
  validate_put c ident f = failing (
      validate_inapplicable_fields
        (Field.passed ∷ Field.trigger ∷ Field.privileged ∷ Field.config ∷ Field.file ∷ []) f ident
      ++ validate_resource_exists c ident f (PlanFields.put f))

  unfoldable pub validate_config : Identifier → Option TaskConfig → List Message
  validate_config ident none = []
  validate_config ident (some t) = map (Message.invalid_task ident) (task_errors t)

  unfoldable pub image_warnings : Identifier → PlanFields TaskConfig → List Warning
  image_warnings ident f = elim (PlanFields.config f) [
    | none ↦ []
    | some t ↦ keep (has_image t && is_set (PlanFields.image f)) (Warning.image_precedence ident)
  ]

  unfoldable pub validate_task : Identifier → PlanFields TaskConfig → Verdict
  validate_task ident f = record {
    warnings = image_warnings ident f;
    errors =
        keep (not (has (PlanFields.config f)) && not (is_set (PlanFields.file f)))
          (Message.no_task_configuration ident)
        ++ (keep (has (PlanFields.config f) && is_set (PlanFields.file f))
              (Message.both_file_and_config ident)
            ++ (validate_config ident (PlanFields.config f)
                ++ validate_inapplicable_fields (Field.resource ∷ Field.passed ∷ Field.trigger ∷ [])
                    f ident));
  }

  unfoldable pub found_types :
      (do_ aggregate try_ : Option Verdict) → PlanFields TaskConfig → List Action
  found_types d a t f =
      keep (has a) Action.aggregate
      ++ (keep (has d) Action.do_
          ++ (keep (is_set (PlanFields.get f)) Action.get
              ++ (keep (is_set (PlanFields.put f)) Action.put
                  ++ (keep (is_set (PlanFields.task f)) Action.task ++ keep (has t) Action.try_))))

  -- The switch of validatePlan, on the verdicts of the nested plans, and the identifier after it.
  unfoldable pub validate_action :
      Config TaskConfig
      → Identifier
      → PlanFields TaskConfig
      → (do_ aggregate try_ : Option Verdict) → Verdict
  validate_action c ident f (some v) a t = v
  validate_action c ident f none (some v) t = v
  validate_action c ident f none none t =
      if is_set (PlanFields.get f)
      then validate_get c (Part.get_of (PlanFields.get f) ∷ ident) f
      else if is_set (PlanFields.put f)
      then validate_put c (Part.put_of (PlanFields.put f) ∷ ident) f
      else if is_set (PlanFields.task f)
      then validate_task (Part.task_of (PlanFields.task f) ∷ ident) f
      else optional t

  unfoldable pub identifier_of :
      Identifier
      → PlanFields TaskConfig
      → MaybeSequence TaskConfig
      → MaybeSequence TaskConfig
      → Identifier
  identifier_of ident f (steps ps) a = ident
  identifier_of ident f no_sequence (steps ps) = ident
  identifier_of ident f no_sequence no_sequence =
      if is_set (PlanFields.get f)
      then Part.get_of (PlanFields.get f) ∷ ident
      else if is_set (PlanFields.put f)
      then Part.put_of (PlanFields.put f) ∷ ident
      else if is_set (PlanFields.task f)
      then Part.task_of (PlanFields.task f) ∷ ident
      else ident

  unfoldable pub validate_limits : Identifier → PlanFields TaskConfig → Verdict
  validate_limits ident f = failing (
      keep (is_set (PlanFields.timeout f) && not (parses_as_duration (PlanFields.timeout f)))
        (Message.bad_duration ident (PlanFields.timeout f))
      ++ elim (PlanFields.attempts f) [
        | pos n ↦ []
        | negsuc n ↦ Message.bad_attempts ident (negsuc n) ∷ []
      ])

  unfoldable mutual
    pub validate_plan : Config TaskConfig → Identifier → PlanConfig TaskConfig → Verdict
    validate_plan c ident (plan f d a t ab fa en su) =
        unless
          (one_action ident (
            found_types (validate_sequence c ident Part.at d)
              (validate_sequence c ident Part.aggregate_at a)
              (validate_maybe c ident Part.try_part t) f))
          (validate_action c ident f (validate_sequence c ident Part.at d)
              (validate_sequence c ident Part.aggregate_at a)
              (validate_maybe c ident Part.try_part t)
            ⊕ optional (validate_maybe c (identifier_of ident f d a) Part.abort ab)
            ⊕ optional (validate_maybe c (identifier_of ident f d a) Part.ensure en)
            ⊕ optional (validate_maybe c (identifier_of ident f d a) Part.success su)
            ⊕ optional (validate_maybe c (identifier_of ident f d a) Part.failure fa)
            ⊕ validate_limits (identifier_of ident f d a) f)

    -- None for a nil pointer.
    pub validate_maybe :
        Config TaskConfig → Identifier → Part → MaybePlan TaskConfig → Option Verdict
    validate_maybe c ident part absent = none
    validate_maybe c ident part (present p) = some (validate_plan c (part ∷ ident) p)

    pub validate_sequence :
        Config TaskConfig → Identifier → (ℕ → Part) → MaybeSequence TaskConfig → Option Verdict
    validate_sequence c ident part no_sequence = none
    validate_sequence c ident part (steps ps) = some (validate_steps c ident part 0 ps)

    pub validate_steps :
        Config TaskConfig → Identifier → (ℕ → Part) → ℕ → PlanSequence TaskConfig → Verdict
    validate_steps c ident part i nil = accepted
    validate_steps c ident part i (cons p ps) =
        validate_plan c (part i ∷ ident) p ⊕ validate_steps c ident part (suc i) ps
