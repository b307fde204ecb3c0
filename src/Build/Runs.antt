-- ===== src/Build/Runs.antt =====
-- The steps of every plan that the factory makes run without a panic.
use atc.Prelude.{
  ℕ, suc, ◌≡◌, refl, subst, inl, inr, Option-cases, Bool, true, false, ◌&&◌, some, List, [], ◌∷◌,
  ◌++◌, arith,
}
use atc.Pipeline.Config.{Name, JobConfig, ResourceConfig}
use atc.Exec.Errors.{ErrorApi}
use atc.Exec.Plan.{run}
use atc.Exec.Outcome.{Outcome, outcome, outcome_of}
use atc.Exec.Refinement.{meaning, well_formed, all_well_formed, run-refines-meaning}
use atc.Build.Plan.{VersionedResourceType, Header, attempts_in, Plan, timeout, Plans}
use atc.Build.Create.{ok, Inputs, create}
use atc.Build.Timeouts.{always-TimedJob}
use atc.Build.Made.{Closed, OnOk, create-OnOk}
use atc.Build.Engine.{
  World, build_leaf, build_step_factory, build_aggregate, build_do, build_retry, build_steps,
}

both_true : {a b : Bool} → a ≡ true → b ≡ true → (a && b) ≡ true
both_true p q = rw (p, q) refl

module _ (api : ErrorApi) (world : World (ErrorApi.Error api)) where
  open api use {Error, is_interrupted}
  open world use {exits, succeeds, parse_duration}

  -- A task, get or put does not panic, and can be asked for its success if it returns nil; the error
  -- of a bad duration is not ErrInterrupted.
  pub record IsSane : Type 0 where
    pub leaves :
        (n : ℕ) (attempts : List ℕ)
        → (o : Outcome) × (outcome_of api (exits n attempts) (succeeds n attempts) ≡ some o)
    pub durations : (d : Name) (e : Error) → parse_duration d ≡ some e → is_interrupted e ≡ false

  leaf-IsFit :
      IsSane → (attempts : List ℕ) (n : ℕ) → well_formed api (build_leaf world attempts n) ≡ true
  unfolding build_leaf well_formed
  leaf-IsFit sane attempts n = ground (arith, (IsSane.leaves sane n attempts).1)

  module _ {T : Type 0} (sane : IsSane) where
    open sane use {durations}

    IsFit : Plan T → Type 0
    IsFit p = (attempts : List ℕ) → well_formed api (build_step_factory world attempts p) ≡ true

    AreFit : Plans T → Type 0
    AreFit ps =
        (attempts : List ℕ)
        → (all_well_formed api (build_aggregate world attempts ps) ≡ true)
          × (well_formed api (build_do world attempts ps) ≡ true)
          × ((i : ℕ) → all_well_formed api (build_retry world attempts i ps) ≡ true)

    timeout-IsFit : (n : Header) (d : Name) (p : Plan T) → IsFit p → IsFit (timeout n d p)
    unfolding build_step_factory well_formed IsFit
    timeout-IsFit n d p h attempts = elim (Option-cases (parse_duration d)) [
      | inl e ↦ rw e (h attempts)
      | inr (err, e) ↦ rw (e, durations d err e) (h attempts)
    ]

    IsFit-Closed : Closed (λ d. Unit) IsFit AreFit
    unfolding IsFit AreFit build_step_factory build_aggregate build_do build_retry well_formed
        all_well_formed
    IsFit-Closed = record {
      on_empty = λ attempts. refl;
      on_get = λ n g attempts. leaf-IsFit sane attempts n.id;
      on_put = λ n p attempts. leaf-IsFit sane attempts n.id;
      on_task = λ n t attempts. leaf-IsFit sane attempts n.id;
      on_aggregate = λ n ps h attempts. (h attempts).0;
      on_do = λ n ps h attempts. (h attempts).1;
      on_retry = λ n p ps hp h attempts. both_true (hp (attempts ++ (1 ∷ []))) ((h attempts).2 1);
      on_abort_hook = λ n p q hp hq attempts. both_true (hp attempts) (hq attempts);
      on_ensure_hook = λ n p q hp hq attempts. both_true (hp attempts) (hq attempts);
      on_success_hook = λ n p q hp hq attempts. both_true (hp attempts) (hq attempts);
      on_failure_hook = λ n p q hp hq attempts. both_true (hp attempts) (hq attempts);
      on_try = λ n p h attempts. h attempts;
      on_timeout = λ n d p timed h. timeout-IsFit n d p h;
      on_nil = λ attempts. (refl, refl, λ i. refl);
      on_cons = λ p ps hp h attempts. (
        both_true (hp attempts) (h attempts).0,
        both_true (hp attempts) (h attempts).1,
        λ i. both_true (hp (attempts ++ (suc i ∷ []))) ((h attempts).2 (suc i)),
      );
    }

    -- A plan that Create makes for a job is built into steps that run without a panic: they have the
    -- outcome that the operations on outcomes give, if tasks, gets and puts do not panic and no
    -- error of a duration is ErrInterrupted.
    pub create-runs :
        (resources : List ResourceConfig) (types : List VersionedResourceType) (inputs : Inputs)
        (job : JobConfig T) (n n' : ℕ) (p : Plan T)
        → create resources types inputs job n ≡ (ok p, n')
        → outcome api (run api (build_steps world p)) ≡ some (meaning api (build_steps world p))
    unfolding IsFit build_steps
    create-runs resources types inputs job n n' p e =
        run-refines-meaning api (build_steps world p) (
          subst (λ r. OnOk IsFit r.0) e
            (create-OnOk (λ d. Unit) IsFit AreFit IsFit-Closed resources types inputs job n
              (always-TimedJob (λ d. Unit) (λ d. tt) job))
            (attempts_in p))
