-- ===== src/Build/Total.antt =====
-- The factory makes a plan for every job of a pipeline that Config.Validate accepts.
use atc.Prelude.{
  ℕ, zero, suc, ◌≡◌, refl, sym, subst, ◌⊎◌, inl, inr, Bool, true, false, Option, none, some, List,
  [], ◌∷◌, All, arith, Bool-cases, Option-cases,
}
use atc.Pipeline.Config.{
  Name, is_set, ℤ, pos, negsuc, Outside, PlanFields, PlanConfig, plan, MaybePlan, absent, present,
  MaybeSequence, no_sequence, steps, PlanSequence, JobConfig, ResourceConfig, Config,
  lookup_resource,
}
use atc.Pipeline.Config
use atc.Pipeline.Steps.{has}
use atc.Pipeline.Valid.{
  IsValid, IsValidMaybe, IsValidSequence, IsValidSteps, GetOk, PutOk, ResourceExists,
}
use atc.Pipeline.Valid.Reports.{lookup_iff}
use atc.Pipeline.Messages.{Verdict}
use atc.Pipeline.Validate.{validate}
use atc.Pipeline.Validate.Contract.{JobOk}
use atc.Pipeline.Validate.Accepts.{validate-IsAcceptable}
use atc.Build.Plan.{
  VersionedResourceType, Header, Plan, on_abort, ensure, on_success, on_failure, Plans,
}
use atc.Build.Create.{
  Result, ok, err, M, and_then, ◌>>=◌, if_found, Inputs, new_plan, put_then_get, construct_put,
  construct_get, construct_task, construct_nested, construct_step, with_timeout, attempts_of,
  with_attempts, apply_hook, apply_hooks, construct_plan, construct_maybe, construct_sequence,
  construct_steps, construct_from_job, create,
}

abbrev is_ok : {A : Type 0} → Result A → Bool
is_ok (ok a) = true
is_ok (err e) = false

abbrev Succeeds : {A : Type 0} → M A → Type 0
Succeeds m = (n : ℕ) → is_ok (m n).0 ≡ true

abbrev SucceedsMaybe : {A : Type 0} → Option (M A) → Type 0
SucceedsMaybe none = Unit
SucceedsMaybe (some m) = Succeeds m

bind-ok :
    {A B : Type 0} (r : Result A × ℕ) (k : A → M B)
    → is_ok r.0 ≡ true
    → ((a : A) → Succeeds (k a))
    → is_ok (and_then r k).0 ≡ true
bind-ok (ok a, n) k h next = next a n
bind-ok (err e, n) k h next = cc

then-Succeeds :
    {A B : Type 0} (m : M A) (k : A → M B)
    → Succeeds m
    → ((a : A) → Succeeds (k a))
    → Succeeds (m >>= k)
then-Succeeds m k h next n = bind-ok (m n) k (h n) next

result : {A : Type 0} (r : Result A × ℕ) → is_ok r.0 ≡ true → (a : A) × (n : ℕ) × (r ≡ (ok a, n))
result (ok a, n) h = (a, n, refl)
result (err e, n) h = cc

pub All-map :
    {A : Type 0} {P Q : A → Type 0} → ((a : A) → P a → Q a) → (xs : List A) → All P xs → All Q xs
All-map f [] h = tt
All-map f (x ∷ xs) h = (f x h.0, All-map f xs h.1)

module _ {T : Type 0} where
  new_plan-Succeeds : (make : Header → Plan T) → Succeeds (new_plan make)
  unfolding new_plan
  new_plan-Succeeds make n = refl

  if_found-Succeeds :
      (rs : List ResourceConfig) (name : Name) (k : ResourceConfig → M (Plan T))
      → has (lookup_resource rs name) ≡ true
      → ((r : ResourceConfig) → Succeeds (k r))
      → Succeeds (if_found (lookup_resource rs name) k)
  unfolding if_found
  if_found-Succeeds rs name k h next = elim (Option-cases (lookup_resource rs name)) [
    | inl e ↦ absurd (ground (arith, h, e))
    | inr (r, e) ↦ rw e (next r)
  ]

  construct_nested-Succeeds :
      (t : Option (M (Plan T))) (a : Option (M (Plans T)))
      → SucceedsMaybe t
      → SucceedsMaybe a
      → Succeeds (construct_nested t a)
  unfolding construct_nested
  construct_nested-Succeeds (some p) a ht ha = then-Succeeds p _ ht (λ step. new_plan-Succeeds _)
  construct_nested-Succeeds none (some ps) ht ha =
      then-Succeeds ps _ ha (λ plans. new_plan-Succeeds _)
  construct_nested-Succeeds none none ht ha = λ n. refl

  with_timeout-Succeeds :
      (duration : Name) (m : M (Plan T)) → Succeeds m → Succeeds (with_timeout duration m)
  unfolding with_timeout
  with_timeout-Succeeds duration m h = elim (Bool-cases (is_set duration)) [
    | inl e ↦ rw e (then-Succeeds m _ h (λ step. new_plan-Succeeds _))
    | inr e ↦ rw e h
  ]

  attempts_of-Succeeds : (k : ℕ) (m : M (Plan T)) → Succeeds m → Succeeds (attempts_of k m)
  unfolding attempts_of
  attempts_of-Succeeds zero m h = λ n. refl
  attempts_of-Succeeds (suc k) m h =
      then-Succeeds m _ h
        (λ p. then-Succeeds (attempts_of k m) _ (attempts_of-Succeeds k m h) (λ ps n. refl))

  with_attempts-Succeeds :
      (k : ℕ) (m : M (Plan T)) → Succeeds m → Succeeds (with_attempts (pos k) m)
  unfolding with_attempts
  with_attempts-Succeeds zero m h = h
  with_attempts-Succeeds (suc k) m h =
      then-Succeeds (attempts_of (suc k) m) _ (attempts_of-Succeeds (suc k) m h)
        (λ plans. new_plan-Succeeds _)

  apply_hook-Succeeds :
      (make : Header → Plan T → Plan T → Plan T) (hook : Option (M (Plan T))) (m : M (Plan T))
      → SucceedsMaybe hook
      → Succeeds m
      → Succeeds (apply_hook make hook m)
  unfolding apply_hook
  apply_hook-Succeeds make none m hh h = h
  apply_hook-Succeeds make (some hook) m hh h =
      then-Succeeds m _ h (λ step. then-Succeeds hook _ hh (λ next. new_plan-Succeeds _))

  apply_hooks-Succeeds :
      (ab fa su en : Option (M (Plan T))) (m : M (Plan T))
      → SucceedsMaybe ab
      → SucceedsMaybe fa
      → SucceedsMaybe su
      → SucceedsMaybe en
      → Succeeds m
      → Succeeds (apply_hooks ab fa su en m)
  unfolding apply_hooks
  apply_hooks-Succeeds ab fa su en m hab hfa hsu hen h = apply_hook-Succeeds ensure en _ hen (
      apply_hook-Succeeds on_success su _ hsu
        (apply_hook-Succeeds on_failure fa _ hfa (apply_hook-Succeeds on_abort ab m hab h)))

module _ (api : Outside) (c : Config (Outside.TaskConfig api)) (types : List VersionedResourceType)
    (inputs : Inputs) where
  open api use {TaskConfig}

  construct_put-Succeeds :
      (f : PlanFields TaskConfig)
      → ResourceExists api c f (PlanFields.put f)
      → Succeeds (construct_put (Config.resources c) types f)
  unfolding construct_put put_then_get new_plan
  construct_put-Succeeds f h =
      if_found-Succeeds (Config.resources c) _ _ ((lookup_iff (Config.resources c) _).1 h)
        (λ r n. refl)

  construct_get-Succeeds :
      (f : PlanFields TaskConfig)
      → ResourceExists api c f (PlanFields.get f)
      → Succeeds (construct_get (Config.resources c) types inputs f)
  unfolding construct_get
  construct_get-Succeeds f h =
      if_found-Succeeds (Config.resources c) _ _ ((lookup_iff (Config.resources c) _).1 h)
        (λ r. new_plan-Succeeds _)

  construct_step-Succeeds :
      (f : PlanFields TaskConfig) (d : Option (M (Plans TaskConfig)))
      (t : Option (M (Plan TaskConfig))) (a : Option (M (Plans TaskConfig)))
      → SucceedsMaybe d
      → SucceedsMaybe t
      → SucceedsMaybe a
      → ((PlanFields.get f ≡ 0) ⊎ GetOk api c f)
      → ((PlanFields.put f ≡ 0) ⊎ PutOk api c f)
      → Succeeds (construct_step (Config.resources c) types inputs f d t a)
  unfolding construct_step construct_task
  construct_step-Succeeds f (some ps) t a hd ht ha hg hp =
      then-Succeeds ps _ hd (λ plans. new_plan-Succeeds _)
  construct_step-Succeeds f none t a hd ht ha hg hp =
      elim (Bool-cases (is_set (PlanFields.put f))) [
        | inl e ↦ rw e (
            construct_put-Succeeds f
              (elim hp [ inl z ↦ absurd (ground (arith, e, z)) | inr v ↦ v.1 ]))
        | inr e ↦ elim (Bool-cases (is_set (PlanFields.get f))) [
          | inl e' ↦
              rw (e, e')
                (construct_get-Succeeds f
                  (elim hg [ inl z ↦ absurd (ground (arith, e', z)) | inr v ↦ v.1.0 ]))
          | inr e' ↦ elim (Bool-cases (is_set (PlanFields.task f))) [
            | inl k ↦ rw (e, e', k) (new_plan-Succeeds _)
            | inr k ↦ rw (e, e', k) (construct_nested-Succeeds t a ht ha)
          ]
        ]
      ]

  mutual
    unfolding construct_plan construct_maybe construct_sequence construct_steps IsValid IsValidMaybe
        IsValidSequence IsValidSteps

    plan-Succeeds :
        (p : PlanConfig TaskConfig)
        → IsValid api c p
        → Succeeds (construct_plan (Config.resources c) types inputs p)
    plan-Succeeds (plan f d a t ab fa en su) v =
        apply_hooks-Succeeds _ _ _ _ _ (maybe-Succeeds ab v.2.0) (maybe-Succeeds fa v.2.3)
          (maybe-Succeeds su v.2.2) (maybe-Succeeds en v.2.1)
          (subst
            (λ k. Succeeds (
              with_attempts k (
                with_timeout (PlanFields.timeout f) (
                  construct_step (Config.resources c) types inputs f
                    (construct_sequence (Config.resources c) types inputs d)
                    (construct_maybe (Config.resources c) types inputs t)
                    (construct_sequence (Config.resources c) types inputs a)))))
            (sym v.3.1.1)
            (with_attempts-Succeeds v.3.1.0 _ (
              with_timeout-Succeeds (PlanFields.timeout f) _ (
                construct_step-Succeeds f _ _ _ (sequence-Succeeds d v.1.0) (maybe-Succeeds t v.1.2)
                  (sequence-Succeeds a v.1.1) v.1.3 v.1.4))))

    maybe-Succeeds :
        (p : MaybePlan TaskConfig)
        → IsValidMaybe api c p
        → SucceedsMaybe (construct_maybe (Config.resources c) types inputs p)
    maybe-Succeeds absent v = tt
    maybe-Succeeds (present p) v = plan-Succeeds p v

    sequence-Succeeds :
        (ps : MaybeSequence TaskConfig)
        → IsValidSequence api c ps
        → SucceedsMaybe (construct_sequence (Config.resources c) types inputs ps)
    sequence-Succeeds no_sequence v = tt
    sequence-Succeeds (steps ps) v = steps-Succeeds ps v

    steps-Succeeds :
        (ps : PlanSequence TaskConfig)
        → IsValidSteps api c ps
        → Succeeds (construct_steps (Config.resources c) types inputs ps)
    steps-Succeeds Config.nil v = λ n. refl
    steps-Succeeds (Config.cons p ps) v =
        then-Succeeds (construct_plan (Config.resources c) types inputs p) _ (plan-Succeeds p v.0)
          (λ q.
            then-Succeeds (construct_steps (Config.resources c) types inputs ps) _
              (steps-Succeeds ps v.1) (λ qs n. refl))

  job-Succeeds :
      (ps : PlanSequence TaskConfig)
      → IsValidSteps api c ps
      → Succeeds (construct_from_job (Config.resources c) types inputs ps)
  unfolding construct_from_job IsValidSteps
  job-Succeeds (Config.cons p Config.nil) v = plan-Succeeds p v.0
  job-Succeeds Config.nil v =
      then-Succeeds (construct_steps (Config.resources c) types inputs Config.nil) _
        (steps-Succeeds Config.nil v) (λ plans. new_plan-Succeeds _)
  job-Succeeds (Config.cons p (Config.cons q ps)) v =
      then-Succeeds
        (construct_steps (Config.resources c) types inputs (Config.cons p (Config.cons q ps))) _
        (steps-Succeeds (Config.cons p (Config.cons q ps)) v) (λ plans. new_plan-Succeeds _)

  pub create-JobOk :
      (job : JobConfig TaskConfig) (n : ℕ)
      → JobOk api c job
      → (p : Plan TaskConfig) × (n' : ℕ) × (create (Config.resources c) types inputs job n
          ≡ (ok p, n'))
  unfolding create
  create-JobOk job n v = result _ (
      apply_hooks-Succeeds _ _ _ _ _ (maybe-Succeeds (JobConfig.abort job) v.1.1.1.0)
        (maybe-Succeeds (JobConfig.failure job) v.1.1.1.1.0)
        (maybe-Succeeds (JobConfig.success job) v.1.1.1.1.1.1.0)
        (maybe-Succeeds (JobConfig.ensure job) v.1.1.1.1.1.0)
        (job-Succeeds (JobConfig.job_plan job) v.1.1.0) n)

-- Where Config.Validate reports no errors for a pipeline, Create makes a plan for every job of it and
-- all build inputs, from the pipeline's resources: no look-up fails and nothing panics.
pub create-validate :
    (api : Outside) (c : Config (Outside.TaskConfig api)) (types : List VersionedResourceType)
    (inputs : Inputs) (n : ℕ)
    → Verdict.errors (validate api c) ≡ []
    → All
        (λ job.
          (p : Plan (Outside.TaskConfig api)) × (n' : ℕ) × (create
              (Config.resources c)
              types
              inputs
              job
              n
            ≡ (ok p, n')))
        (Config.jobs c)
create-validate api c types inputs n h =
    All-map (λ job ok_. create-JobOk api c types inputs job n ok_) (Config.jobs c)
      ((validate-IsAcceptable api c).0 h).1.1.1.1
