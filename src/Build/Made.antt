-- ===== src/Build/Made.antt =====
-- A property of plans that their constructors keep holds of every plan that the factory makes, if the timeouts have
-- the property that the one for a timeout asks.
use atc.Prelude.{
  ℕ, zero, suc, Bool, true, false, Option, none, some, List, if◌then◌else◌, if_cases, ◌≡◌,
}
use atc.Pipeline.Config.{
  Name, is_set, ℤ, pos, negsuc, PlanFields, PlanConfig, plan, MaybePlan, absent, present,
  MaybeSequence, no_sequence, steps, PlanSequence, JobConfig, ResourceConfig, lookup_resource,
}
use atc.Pipeline.Config
use atc.Build.Timeouts.{Timed, TimedMaybe, TimedSequence, TimedSteps, TimedJob}
use atc.Build.Plan.{
  VersionedResourceType, Header, GetPlan, PutPlan, TaskPlan, Plan, empty, aggregate, do_, retry,
  get, put, task, on_abort, ensure, on_success, on_failure, try_, timeout, Plans, nil, cons,
}
use atc.Build.Create.{
  Result, ok, err, M, and_then, ◌>>=◌, if_found, Inputs, new_plan, put_then_get, construct_put,
  construct_get, construct_task, construct_nested, construct_step, with_timeout, attempts_of,
  with_attempts, apply_hook, apply_hooks, construct_plan, construct_maybe, construct_sequence,
  construct_steps, construct_from_job, create,
}

-- The constructors keep `P` of plans and `Q` of lists of plans; a retry has an attempt.
pub record Closed {T : Type 0} (D : Name → Type 0) (P : Plan T → Type 0) (Q : Plans T → Type 0)
    : Type 0 where
  pub on_empty : P empty
  pub on_get : (n : Header) (g : GetPlan) → P (get n g)
  pub on_put : (n : Header) (p : PutPlan) → P (put n p)
  pub on_task : (n : Header) (t : TaskPlan T) → P (task n t)
  pub on_aggregate : (n : Header) (ps : Plans T) → Q ps → P (aggregate n ps)
  pub on_do : (n : Header) (ps : Plans T) → Q ps → P (do_ n ps)
  pub on_retry : (n : Header) (p : Plan T) (ps : Plans T) → P p → Q ps → P (retry n (cons p ps))
  pub on_abort_hook : (n : Header) (p q : Plan T) → P p → P q → P (on_abort n p q)
  pub on_ensure_hook : (n : Header) (p q : Plan T) → P p → P q → P (ensure n p q)
  pub on_success_hook : (n : Header) (p q : Plan T) → P p → P q → P (on_success n p q)
  pub on_failure_hook : (n : Header) (p q : Plan T) → P p → P q → P (on_failure n p q)
  pub on_try : (n : Header) (p : Plan T) → P p → P (try_ n p)
  pub on_timeout : (n : Header) (d : Name) (p : Plan T) → D d → P p → P (timeout n d p)
  pub on_nil : Q nil
  pub on_cons : (p : Plan T) (ps : Plans T) → P p → Q ps → Q (cons p ps)

abbrev pub OnOk : {A : Type 0} → (A → Type 0) → Result A → Type 0
OnOk P (ok a) = P a
OnOk P (err e) = Unit

abbrev Makes : {A : Type 0} → (A → Type 0) → M A → Type 0
Makes P m = (n : ℕ) → OnOk P (m n).0

abbrev MakesMaybe : {A : Type 0} → (A → Type 0) → Option (M A) → Type 0
MakesMaybe P none = Unit
MakesMaybe P (some m) = Makes P m

bind-OnOk :
    {A B : Type 0} (P : A → Type 0) (R : B → Type 0) (r : Result A × ℕ) (k : A → M B)
    → OnOk P r.0
    → ((a : A) → P a → Makes R (k a))
    → OnOk R (and_then r k).0
bind-OnOk P R (ok a, n) k h next = next a h n
bind-OnOk P R (err e, n) k h next = tt

then-Makes :
    {A B : Type 0} (P : A → Type 0) (R : B → Type 0) (m : M A) (k : A → M B)
    → Makes P m
    → ((a : A) → P a → Makes R (k a))
    → Makes R (m >>= k)
then-Makes P R m k h next n = bind-OnOk P R (m n) k (h n) next

module _ {T : Type 0} (D : Name → Type 0) (P : Plan T → Type 0) (Q : Plans T → Type 0)
    (closed : Closed D P Q) (resources : List ResourceConfig) (types : List VersionedResourceType)
    (inputs : Inputs) where
  open closed use {
    on_empty, on_get, on_put, on_task, on_aggregate, on_do, on_retry, on_abort_hook, on_ensure_hook,
    on_success_hook, on_failure_hook, on_try, on_timeout, on_nil, on_cons,
  }

  if-Makes : (b : Bool) (m m' : M (Plan T)) → Makes P m → Makes P m' → Makes P (if b then m else m')
  if-Makes true m m' h h' = h
  if-Makes false m m' h h' = h'

  if_found-Makes :
      (o : Option ResourceConfig) (k : ResourceConfig → M (Plan T))
      → ((r : ResourceConfig) → Makes P (k r))
      → Makes P (if_found o k)
  unfolding if_found
  if_found-Makes none k h = λ n. tt
  if_found-Makes (some r) k h = h r

  construct_put-Makes : (f : PlanFields T) → Makes P (construct_put resources types f)
  unfolding construct_put put_then_get new_plan
  construct_put-Makes f =
      if_found-Makes (lookup_resource resources _) _
        (λ r n. on_success_hook _ _ _ (on_put _ _) (on_get _ _))

  construct_get-Makes : (f : PlanFields T) → Makes P (construct_get resources types inputs f)
  unfolding construct_get new_plan
  construct_get-Makes f = if_found-Makes (lookup_resource resources _) _ (λ r n. on_get _ _)

  construct_nested-Makes :
      (t : Option (M (Plan T))) (a : Option (M (Plans T)))
      → MakesMaybe P t
      → MakesMaybe Q a
      → Makes P (construct_nested t a)
  unfolding construct_nested new_plan
  construct_nested-Makes (some p) a ht ha = then-Makes P P p _ ht (λ q h n. on_try _ q h)
  construct_nested-Makes none (some ps) ht ha =
      then-Makes Q P ps _ ha (λ qs h n. on_aggregate _ qs h)
  construct_nested-Makes none none ht ha = λ n. on_empty

  construct_step-Makes :
      (f : PlanFields T) (d : Option (M (Plans T))) (t : Option (M (Plan T)))
      (a : Option (M (Plans T)))
      → MakesMaybe Q d
      → MakesMaybe P t
      → MakesMaybe Q a
      → Makes P (construct_step resources types inputs f d t a)
  unfolding construct_step construct_task new_plan
  construct_step-Makes f (some ps) t a hd ht ha = then-Makes Q P ps _ hd (λ qs h n. on_do _ qs h)
  construct_step-Makes f none t a hd ht ha =
      if-Makes (is_set (PlanFields.put f)) _ _ (construct_put-Makes f) (
        if-Makes (is_set (PlanFields.get f)) _ _ (construct_get-Makes f) (
          if-Makes (is_set (PlanFields.task f)) _ _ (λ n. on_task _ _)
            (construct_nested-Makes t a ht ha)))

  with_timeout-Makes :
      (d : Name) (m : M (Plan T)) → (is_set d ≡ true → D d) → Makes P m → Makes P (with_timeout d m)
  unfolding with_timeout new_plan
  with_timeout-Makes d m ok_ h =
      if_cases (Makes P) (is_set d) _ m
        (λ e. then-Makes P P m _ h (λ p hp n. on_timeout _ d p (ok_ e) hp)) (λ e. h)

  attempts_of-Makes : (k : ℕ) (m : M (Plan T)) → Makes P m → Makes Q (attempts_of k m)
  unfolding attempts_of
  attempts_of-Makes zero m h = λ n. on_nil
  attempts_of-Makes (suc k) m h = then-Makes P Q m _ h (λ p hp.
      then-Makes Q Q (attempts_of k m) _ (attempts_of-Makes k m h)
        (λ ps hps n. on_cons p ps hp hps))

  -- At least one attempt.
  abbrev Attempts : Plans T → Type 0
  Attempts nil = ⊥
  Attempts (cons p ps) = P p × Q ps

  some_attempts : (k : ℕ) (m : M (Plan T)) → Makes P m → Makes Attempts (attempts_of (suc k) m)
  unfolding attempts_of
  some_attempts k m h = then-Makes P Attempts m _ h (λ p hp.
      then-Makes Q Attempts (attempts_of k m) _ (attempts_of-Makes k m h) (λ ps hps n. (hp, hps)))

  retry_of : (ps : Plans T) → Attempts ps → Makes P (new_plan (λ n. retry n ps))
  unfolding new_plan
  retry_of nil h = absurd h
  retry_of (cons p ps) h = λ n. on_retry _ p ps h.0 h.1

  with_attempts-Makes : (k : ℤ) (m : M (Plan T)) → Makes P m → Makes P (with_attempts k m)
  unfolding with_attempts
  with_attempts-Makes (pos zero) m h = h
  with_attempts-Makes (pos (suc k)) m h =
      then-Makes Attempts P (attempts_of (suc k) m) _ (some_attempts k m h) retry_of
  with_attempts-Makes (negsuc k) m h = λ n. tt

  apply_hook-Makes :
      (make : Header → Plan T → Plan T → Plan T) (hook : Option (M (Plan T))) (m : M (Plan T))
      → ((n : Header) (p q : Plan T) → P p → P q → P (make n p q))
      → MakesMaybe P hook
      → Makes P m
      → Makes P (apply_hook make hook m)
  unfolding apply_hook new_plan
  apply_hook-Makes make none m keep hh h = h
  apply_hook-Makes make (some hook) m keep hh h =
      then-Makes P P m _ h (λ p hp. then-Makes P P hook _ hh (λ q hq n. keep _ p q hp hq))

  apply_hooks-Makes :
      (ab fa su en : Option (M (Plan T))) (m : M (Plan T))
      → MakesMaybe P ab
      → MakesMaybe P fa
      → MakesMaybe P su
      → MakesMaybe P en
      → Makes P m
      → Makes P (apply_hooks ab fa su en m)
  unfolding apply_hooks
  apply_hooks-Makes ab fa su en m hab hfa hsu hen h =
      apply_hook-Makes ensure en _ on_ensure_hook hen (
        apply_hook-Makes on_success su _ on_success_hook hsu (
          apply_hook-Makes on_failure fa _ on_failure_hook hfa
            (apply_hook-Makes on_abort ab m on_abort_hook hab h)))

  mutual
    unfolding construct_plan construct_maybe construct_sequence construct_steps Timed

    plan-Makes : (p : PlanConfig T) → Timed D p → Makes P (construct_plan resources types inputs p)
    plan-Makes (plan f d a t ab fa en su) h =
        apply_hooks-Makes _ _ _ _ _ (maybe-Makes ab h.2.0) (maybe-Makes fa h.2.1)
          (maybe-Makes su h.2.3) (maybe-Makes en h.2.2)
          (with_attempts-Makes (PlanFields.attempts f) _ (
            with_timeout-Makes (PlanFields.timeout f) _ h.0 (
              construct_step-Makes f _ _ _ (sequence-Makes d h.1.0) (maybe-Makes t h.1.2)
                (sequence-Makes a h.1.1))))

    maybe-Makes :
        (p : MaybePlan T) → TimedMaybe D p → MakesMaybe P (construct_maybe resources types inputs p)
    maybe-Makes absent h = tt
    maybe-Makes (present p) h = plan-Makes p h

    sequence-Makes :
        (ps : MaybeSequence T)
        → TimedSequence D ps
        → MakesMaybe Q (construct_sequence resources types inputs ps)
    sequence-Makes no_sequence h = tt
    sequence-Makes (steps ps) h = steps-Makes ps h

    steps-Makes :
        (ps : PlanSequence T)
        → TimedSteps D ps
        → Makes Q (construct_steps resources types inputs ps)
    steps-Makes Config.nil h = λ n. on_nil
    steps-Makes (Config.cons p ps) h =
        then-Makes P Q (construct_plan resources types inputs p) _ (plan-Makes p h.0) (λ q hq.
          then-Makes Q Q (construct_steps resources types inputs ps) _ (steps-Makes ps h.1)
            (λ qs hqs n. on_cons q qs hq hqs))

  job-Makes :
      (ps : PlanSequence T)
      → TimedSteps D ps
      → Makes P (construct_from_job resources types inputs ps)
  unfolding construct_from_job new_plan Timed
  job-Makes (Config.cons p Config.nil) h = plan-Makes p h.0
  job-Makes Config.nil h =
      then-Makes Q P (construct_steps resources types inputs Config.nil) _
        (steps-Makes Config.nil h) (λ qs hqs n. on_do _ qs hqs)
  job-Makes (Config.cons p (Config.cons q ps)) h =
      then-Makes Q P (construct_steps resources types inputs (Config.cons p (Config.cons q ps))) _
        (steps-Makes (Config.cons p (Config.cons q ps)) h) (λ qs hqs n. on_do _ qs hqs)

  pub create-OnOk :
      (job : JobConfig T) (n : ℕ) → TimedJob D job → OnOk P (create resources types inputs job n).0
  unfolding create
  create-OnOk job n h =
      apply_hooks-Makes _ _ _ _ _ (maybe-Makes (JobConfig.abort job) (TimedJob.abort h))
        (maybe-Makes (JobConfig.failure job) (TimedJob.failure h))
        (maybe-Makes (JobConfig.success job) (TimedJob.success h))
        (maybe-Makes (JobConfig.ensure job) (TimedJob.ensure h))
        (job-Makes (JobConfig.job_plan job) (TimedJob.job_plan h)) n
