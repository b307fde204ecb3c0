-- ===== src/Build/Ids.antt =====
-- Every plan that the factory makes has an id of its own, above the counter that it started from.
use atc.Prelude.{
  ℕ, zero, suc, ◌≤◌, ◌<◌, ◌≡◌, refl, sym, subst, ◌∙◌, append_assoc, Bool, true, false, Option, none,
  some, List, [], ◌∷◌, ◌++◌, arith, if◌then◌else◌,
}
use atc.Pipeline.Config.{
  Name, is_set, ℤ, pos, negsuc, PlanFields, PlanConfig, plan, MaybePlan, absent, present,
  MaybeSequence, no_sequence, steps, PlanSequence, JobConfig, ResourceConfig, lookup_resource,
}
use atc.Pipeline.Config
use atc.Build.Plan.{
  VersionedResourceType, Header, fresh, Plan, aggregate, do_, retry, on_abort, ensure, on_success,
  on_failure, try_, timeout, Plans, cons, ids, all_ids,
}
use atc.Build.Create.{
  Result, ok, err, M, pure, and_then, ◌>>=◌, Inputs, new_plan, put_then_get, construct_put,
  construct_get, construct_task, construct_nested, construct_step, with_timeout, attempts_of,
  with_attempts, apply_hook, apply_hooks, if_found, construct_plan, construct_maybe,
  construct_sequence, construct_steps, construct_from_job, create,
}

-- The list ascends strictly from above `lo` to `hi` at most.
abbrev pub Between : ℕ → List ℕ → ℕ → Type 0
Between lo [] hi = lo ≤ hi
Between lo (x ∷ xs) hi = (lo < x) × Between x xs hi

Between-append :
    (lo mid hi : ℕ) (xs ys : List ℕ)
    → Between lo xs mid
    → Between mid ys hi
    → Between lo (xs ++ ys) hi
Between-append lo mid hi [] [] p q = omega arith
Between-append lo mid hi [] (y ∷ ys) p q = (omega (arith, p, q.0), q.1)
Between-append lo mid hi (x ∷ xs) ys p q = (p.0, Between-append x mid hi xs ys p.1 q)

-- What a run from the counter `n` made has ids between the counters.
abbrev pub Counted : {A : Type 0} → (A → List ℕ) → ℕ → Result A × ℕ → Type 0
Counted names n (ok a, n') = Between n (names a) n'
Counted names n (err e, n') = Unit

abbrev Counts : {A : Type 0} → (A → List ℕ) → M A → Type 0
Counts names m = (n : ℕ) → Counted names n (m n)

abbrev CountsMaybe : {A : Type 0} → (A → List ℕ) → Option (M A) → Type 0
CountsMaybe names none = Unit
CountsMaybe names (some m) = Counts names m

-- A step that starts at `n`, in a run that started at `lo`.
bind-Counted :
    {A B : Type 0} (xs : A → List ℕ) (ys : B → List ℕ) (lo n : ℕ) (r : Result A × ℕ) (k : A → M B)
    → Counted xs n r
    → ((a : A) (mid : ℕ) → Between n (xs a) mid → Counted ys lo (k a mid))
    → Counted ys lo (and_then r k)
bind-Counted xs ys lo n (ok a, mid) k h next = next a mid h
bind-Counted xs ys lo n (err e, mid) k h next = tt

put_then_get-Counts :
    (T : Type 0) (types : List VersionedResourceType) (r : ResourceConfig) (resource : Name)
    (f : PlanFields T)
    → Counts (ids {T = T}) (put_then_get types r resource f)
unfolding put_then_get new_plan ids
put_then_get-Counts T types r resource f n = omega arith

module _ {T : Type 0} where
  -- Two runs one after the other.
  both-Counts :
      (m : M (Plan T)) (ms : M (Plans T))
      → Counts ids m
      → Counts all_ids ms
      → Counts all_ids (m >>= λ p. ms >>= λ ps. pure (cons p ps))
  unfolding all_ids
  both-Counts m ms h hs n = bind-Counted ids all_ids n n (m n) _ (h n) (λ p mid b.
      bind-Counted all_ids all_ids n mid (ms mid) _ (hs mid)
        (λ ps hi b'. Between-append n mid hi (ids p) (all_ids ps) b b'))

  -- A new plan takes the next id, after those of the plans in it.
  new_plan-Counted :
      (lo mid : ℕ) (xs : List ℕ) (make : Header → Plan T)
      → ids (make (fresh (suc mid))) ≡ xs ++ (suc mid ∷ [])
      → Between lo xs mid
      → Counted ids lo (new_plan make mid)
  unfolding new_plan
  new_plan-Counted lo mid xs make e h =
      subst (λ zs. Between lo zs (suc mid)) (sym e)
        (Between-append lo mid (suc mid) xs (suc mid ∷ []) h (omega arith))

  one-Counts :
      (make : Header → Plan T)
      → ((n : Header) → ids (make n) ≡ n.id ∷ [])
      → Counts ids (new_plan make)
  one-Counts make e n = new_plan-Counted n n [] make (e (fresh (suc n))) (omega arith)

  if_found-Counts :
      (o : Option ResourceConfig) (k : ResourceConfig → M (Plan T))
      → ((r : ResourceConfig) → Counts ids (k r))
      → Counts ids (if_found o k)
  unfolding if_found
  if_found-Counts none k h = λ n. tt
  if_found-Counts (some r) k h = h r

  if-Counts :
      (b : Bool) (m m' : M (Plan T))
      → Counts ids m
      → Counts ids m'
      → Counts ids (if b then m else m')
  if-Counts true m m' h h' = h
  if-Counts false m m' h h' = h'

  construct_put-Counts :
      (resources : List ResourceConfig) (types : List VersionedResourceType) (f : PlanFields T)
      → Counts ids (construct_put resources types f)
  unfolding construct_put
  construct_put-Counts resources types f =
      if_found-Counts (lookup_resource resources _) _ (λ r. put_then_get-Counts T types r _ _)

  construct_get-Counts :
      (resources : List ResourceConfig) (types : List VersionedResourceType) (inputs : Inputs)
      (f : PlanFields T)
      → Counts ids (construct_get resources types inputs f)
  unfolding construct_get ids
  construct_get-Counts resources types inputs f =
      if_found-Counts (lookup_resource resources _) _ (λ r. one-Counts _ (λ n. refl))

  construct_task-Counts :
      (types : List VersionedResourceType) (f : PlanFields T) → Counts ids (construct_task types f)
  unfolding construct_task ids
  construct_task-Counts types f = one-Counts _ (λ n. refl)

  -- A plan around a list of plans, or around one.
  around_all-Counts :
      (m : M (Plans T)) (make : Header → Plans T → Plan T)
      → ((n : Header) (ps : Plans T) → ids (make n ps) ≡ all_ids ps ++ (n.id ∷ []))
      → Counts all_ids m
      → Counts ids (m >>= λ plans. new_plan (λ n. make n plans))
  around_all-Counts m make e h n =
      bind-Counted all_ids ids n n (m n) (λ plans. new_plan (λ k. make k plans)) (h n)
        (λ plans mid b.
          new_plan-Counted n mid (all_ids plans) (λ k. make k plans) (e (fresh (suc mid)) plans) b)

  around-Counts :
      (m : M (Plan T)) (make : Header → Plan T → Plan T)
      → ((n : Header) (p : Plan T) → ids (make n p) ≡ ids p ++ (n.id ∷ []))
      → Counts ids m
      → Counts ids (m >>= λ step. new_plan (λ n. make n step))
  around-Counts m make e h n =
      bind-Counted ids ids n n (m n) (λ step. new_plan (λ k. make k step)) (h n)
        (λ step mid b.
          new_plan-Counted n mid (ids step) (λ k. make k step) (e (fresh (suc mid)) step) b)

  construct_nested-Counts :
      (t : Option (M (Plan T))) (a : Option (M (Plans T)))
      → CountsMaybe ids t
      → CountsMaybe all_ids a
      → Counts ids (construct_nested t a)
  unfolding construct_nested ids
  construct_nested-Counts (some p) a ht ha = around-Counts p try_ (λ n p. refl) ht
  construct_nested-Counts none (some ps) ht ha = around_all-Counts ps aggregate (λ n p. refl) ha
  construct_nested-Counts none none ht ha = λ n. omega arith

  construct_step-Counts :
      (resources : List ResourceConfig) (types : List VersionedResourceType) (inputs : Inputs)
      (f : PlanFields T) (d : Option (M (Plans T))) (t : Option (M (Plan T)))
      (a : Option (M (Plans T)))
      → CountsMaybe all_ids d
      → CountsMaybe ids t
      → CountsMaybe all_ids a
      → Counts ids (construct_step resources types inputs f d t a)
  unfolding construct_step ids
  construct_step-Counts resources types inputs f (some ps) t a hd ht ha =
      around_all-Counts ps do_ (λ n p. refl) hd
  construct_step-Counts resources types inputs f none t a hd ht ha =
      if-Counts (is_set (PlanFields.put f)) _ _ (construct_put-Counts resources types f) (
        if-Counts (is_set (PlanFields.get f)) _ _ (construct_get-Counts resources types inputs f) (
          if-Counts (is_set (PlanFields.task f)) _ _ (construct_task-Counts types f)
            (construct_nested-Counts t a ht ha)))

  with_timeout-Counts :
      (duration : Name) (m : M (Plan T)) → Counts ids m → Counts ids (with_timeout duration m)
  unfolding with_timeout ids
  with_timeout-Counts duration m h =
      if-Counts (is_set duration) _ m
        (around-Counts m (λ n p. timeout n duration p) (λ n p. refl) h) h

  attempts_of-Counts : (k : ℕ) (m : M (Plan T)) → Counts ids m → Counts all_ids (attempts_of k m)
  unfolding attempts_of all_ids
  attempts_of-Counts zero m h = λ n. omega arith
  attempts_of-Counts (suc k) m h = both-Counts m (attempts_of k m) h (attempts_of-Counts k m h)

  with_attempts-Counts : (k : ℤ) (m : M (Plan T)) → Counts ids m → Counts ids (with_attempts k m)
  unfolding with_attempts ids
  with_attempts-Counts (pos zero) m h = h
  with_attempts-Counts (pos (suc k)) m h =
      around_all-Counts (attempts_of (suc k) m) retry (λ n p. refl) (attempts_of-Counts (suc k) m h)
  with_attempts-Counts (negsuc k) m h = λ n. tt

  apply_hook-Counts :
      (make : Header → Plan T → Plan T → Plan T) (hook : Option (M (Plan T))) (m : M (Plan T))
      → ((n : Header) (p q : Plan T) → ids (make n p q) ≡ ids p ++ (ids q ++ (n.id ∷ [])))
      → CountsMaybe ids hook
      → Counts ids m
      → Counts ids (apply_hook make hook m)
  unfolding apply_hook
  apply_hook-Counts make none m e hh h = h
  apply_hook-Counts make (some hook) m e hh h = λ n.
      bind-Counted ids ids n n (m n) _ (h n) (λ step mid b.
        bind-Counted ids ids n mid (hook mid) _ (hh mid) (λ next hi b'.
          new_plan-Counted n hi (ids step ++ ids next) (λ k. make k step next)
            (e (fresh (suc hi)) step next ∙ sym (append_assoc (ids step) (ids next) (suc hi ∷ [])))
            (Between-append n mid hi (ids step) (ids next) b b')))

  apply_hooks-Counts :
      (ab fa su en : Option (M (Plan T))) (m : M (Plan T))
      → CountsMaybe ids ab
      → CountsMaybe ids fa
      → CountsMaybe ids su
      → CountsMaybe ids en
      → Counts ids m
      → Counts ids (apply_hooks ab fa su en m)
  unfolding apply_hooks ids
  apply_hooks-Counts ab fa su en m hab hfa hsu hen h =
      apply_hook-Counts ensure en _ (λ n p q. refl) hen
        (apply_hook-Counts on_success su _ (λ n p q. refl) hsu
          (apply_hook-Counts on_failure fa _ (λ n p q. refl) hfa
            (apply_hook-Counts on_abort ab m (λ n p q. refl) hab h)))

module _ {T : Type 0} (resources : List ResourceConfig) (types : List VersionedResourceType)
    (inputs : Inputs) where
  mutual
    unfolding construct_plan construct_maybe construct_sequence construct_steps all_ids

    plan-Counts : (p : PlanConfig T) → Counts ids (construct_plan resources types inputs p)
    plan-Counts (plan f d a t ab fa en su) =
        apply_hooks-Counts _ _ _ _ _ (maybe-Counts ab) (maybe-Counts fa) (maybe-Counts su)
          (maybe-Counts en)
          (with_attempts-Counts (PlanFields.attempts f) _ (
            with_timeout-Counts (PlanFields.timeout f) _ (
              construct_step-Counts resources types inputs f _ _ _ (sequence-Counts d)
                (maybe-Counts t) (sequence-Counts a))))

    maybe-Counts : (p : MaybePlan T) → CountsMaybe ids (construct_maybe resources types inputs p)
    maybe-Counts absent = tt
    maybe-Counts (present p) = plan-Counts p

    sequence-Counts :
        (ps : MaybeSequence T) → CountsMaybe all_ids (construct_sequence resources types inputs ps)
    sequence-Counts no_sequence = tt
    sequence-Counts (steps ps) = steps-Counts ps

    steps-Counts :
        (ps : PlanSequence T) → Counts all_ids (construct_steps resources types inputs ps)
    steps-Counts Config.nil = λ n. omega arith
    steps-Counts (Config.cons p ps) =
        both-Counts (construct_plan resources types inputs p)
          (construct_steps resources types inputs ps) (plan-Counts p) (steps-Counts ps)

  job-Counts : (ps : PlanSequence T) → Counts ids (construct_from_job resources types inputs ps)
  unfolding construct_from_job ids
  job-Counts (Config.cons p Config.nil) = plan-Counts p
  job-Counts Config.nil =
      around_all-Counts (construct_steps resources types inputs Config.nil) do_ (λ n p. refl)
        (steps-Counts Config.nil)
  job-Counts (Config.cons p (Config.cons q ps)) =
      around_all-Counts (construct_steps resources types inputs (Config.cons p (Config.cons q ps)))
        do_ (λ n p. refl) (steps-Counts (Config.cons p (Config.cons q ps)))

  -- The ids in a plan that Create makes for a job ascend strictly, from above the counter of the plan
  -- factory to where it stands afterwards, where each plan comes after the plans in it: so no two
  -- plans share an id.
  pub create-ids :
      (job : JobConfig T) (n n' : ℕ) (p : Plan T)
      → create resources types inputs job n ≡ (ok p, n')
      → Between n (ids p) n'
  unfolding create
  create-ids job n n' p e = subst (Counted ids n) e (
      apply_hooks-Counts _ _ _ _ _ (maybe-Counts (JobConfig.abort job))
        (maybe-Counts (JobConfig.failure job)) (maybe-Counts (JobConfig.success job))
        (maybe-Counts (JobConfig.ensure job)) (job-Counts (JobConfig.job_plan job)) n)
