-- ===== src/Build/Engine.antt =====
-- engine/build_step.go and exec_engine.go: the steps of a plan.
use atc.Prelude.{ℕ, suc, Bool, Option, List, [], ◌∷◌, ◌++◌}
use atc.Pipeline.Config.{Name}
use atc.Exec.Steps.{Exit}
use atc.Exec.Plan
use atc.Exec.Plan.{Factory, Factories}
use atc.Build.Plan.{
  GetPlan, PutPlan, TaskPlan, empty, aggregate, do_, retry, get, put, dependent_get, task, on_abort,
  ensure, on_success, on_failure, try_, timeout, Plans, nil, cons, attempts_in,
}
use atc.Build

-- What the steps of factory.Task, factory.Get and factory.Put do, by plan id and container attempts;
-- and the choices of the environment for timers and signals.
pub record World (E : Type 0) : Type 0 where
  pub exits : ℕ → List ℕ → Exit E
  pub succeeds : ℕ → List ℕ → Option Bool
  pub parse_duration : Name → Option E
  pub timer_fires : ℕ → Bool
  pub signalled : ℕ → Option ℕ

-- buildTaskStep, buildGetStep and buildPutStep, with the attempts of their container's metadata.
unfoldable pub build_leaf : {E : Type 0} → World E → List ℕ → ℕ → Factory E
build_leaf world attempts n =
    Plan.leaf n (World.exits world n attempts) (World.succeeds world n attempts)

module _ {E T : Type 0} (world : World E) where
  open world use {parse_duration, timer_fires, signalled}

  unfoldable mutual
    -- The plans in a plan have its attempts, but for those of a retry.
    pub build_step_factory : List ℕ → Build.Plan.Plan T → Factory E
    build_step_factory attempts empty = Plan.identity
    build_step_factory attempts (aggregate n ps) =
        Plan.aggregate (signalled n.id) (build_aggregate attempts ps)
    build_step_factory attempts (do_ n ps) = build_do attempts ps
    build_step_factory attempts (retry n ps) = Plan.retry (build_retry attempts 0 ps)
    build_step_factory attempts (get n g) = build_leaf world attempts n.id
    build_step_factory attempts (put n p) = build_leaf world attempts n.id
    build_step_factory attempts (dependent_get n p) = Plan.identity
    build_step_factory attempts (task n t) = build_leaf world attempts n.id
    build_step_factory attempts (on_abort n p q) =
        Plan.on_abort (build_step_factory attempts p) (build_step_factory attempts q)
    build_step_factory attempts (ensure n p q) =
        Plan.ensure (build_step_factory attempts p) (build_step_factory attempts q)
    build_step_factory attempts (on_success n p q) =
        Plan.on_success (build_step_factory attempts p) (build_step_factory attempts q)
    build_step_factory attempts (on_failure n p q) =
        Plan.on_failure (build_step_factory attempts p) (build_step_factory attempts q)
    build_step_factory attempts (try_ n p) = Plan.try_ (build_step_factory attempts p)
    build_step_factory attempts (timeout n d p) =
        Plan.timeout (parse_duration d) (timer_fires n.id) (build_step_factory attempts p)

    pub build_aggregate : List ℕ → Plans T → Factories E
    build_aggregate attempts nil = Plan.nil
    build_aggregate attempts (cons p ps) =
        Plan.cons (build_step_factory attempts p) (build_aggregate attempts ps)

    -- The loop runs from the last plan to the first, around the identity step.
    pub build_do : List ℕ → Plans T → Factory E
    build_do attempts nil = Plan.identity
    build_do attempts (cons p ps) =
        Plan.on_success (build_step_factory attempts p) (build_do attempts ps)

    pub build_retry : List ℕ → ℕ → Plans T → Factories E
    build_retry attempts index nil = Plan.nil
    build_retry attempts index (cons p ps) =
        Plan.cons (build_step_factory (attempts ++ (suc index ∷ [])) p)
          (build_retry attempts (suc index) ps)

  -- buildStepFactory at the plan of a build, which starts from the plan's own attempts.
  unfoldable pub build_steps : Build.Plan.Plan T → Factory E
  unfolding attempts_in build_step_factory
  build_steps p = build_step_factory (attempts_in p) p
