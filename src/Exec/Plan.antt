-- ===== src/Exec/Plan.antt =====
-- Trees of step factories, and what a tree does when it is used and run.
use atc.Prelude.{ℕ, Bool, Option, List, [], ◌∷◌}
use atc.Exec.Errors.{ErrorApi}
use atc.Exec.Steps.{
  Exit, Ran, identity_run, on_success_run, on_failure_run, ensure_run, on_abort_run, try_run,
  timeout_run, retry_run, aggregate_run,
}

-- A leaf is any other implementation of `Step` (a task, a get, a put) with what it returns in this
-- run: a wrapping step runs each of its steps once at most, so a leaf needs one answer.
mutual
  pub data Factory (E : Type 0) : Type 0 where
    leaf : ℕ → Exit E → Option Bool → Factory E
    identity : Factory E
    on_success on_failure ensure on_abort : Factory E → Factory E → Factory E
    try_ : Factory E → Factory E
    timeout : Option E → Bool → Factory E → Factory E
    retry : Factories E → Factory E
    aggregate : Option ℕ → Factories E → Factory E

  pub data Factories (E : Type 0) : Type 0 where
    nil : Factories E
    cons : Factory E → Factories E → Factories E

module _ (api : ErrorApi) where
  open api use {Error}

  -- factory.Using(repo).Run(signals, ready), then Succeeded()
  unfoldable mutual
    pub run : Factory Error → Ran Error
    run (leaf n x b) = record { exit = x; succeeded = b; trace = n ∷ [] }
    run identity = identity_run
    run (on_success f g) = on_success_run api (run f) (run g)
    run (on_failure f g) = on_failure_run api (run f) (run g)
    run (ensure f g) = ensure_run api (run f) (run g)
    run (on_abort f g) = on_abort_run api (run f) (run g)
    run (try_ f) = try_run api (run f)
    run (timeout parsed fired f) = timeout_run api parsed fired (run f)
    run (retry fs) = retry_run api (run_all fs)
    run (aggregate signal fs) = aggregate_run api signal (run_all fs)

    pub run_all : Factories Error → List (Ran Error)
    run_all nil = []
    run_all (cons f fs) = run f ∷ run_all fs
