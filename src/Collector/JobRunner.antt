-- ===== src/Collector/JobRunner.antt =====
-- gc/worker_job_runner.go: jobs that run on workers, a limited number on each.
use atc.Prelude.{
  ℕ, ◌+◌, ◌-◌, ◌≡◌, Bool, true, false, ◌&&◌, Option, none, some, List, [], ◌∷◌, ◌++◌, ◌==◌,
  if◌then◌else◌,
}
use atc.Pipeline.Config.{Name, is_set}

-- workerJobs and inFlightJobs, with `none` for a worker that is not in the map.
pub record Runner : Type 0 where
  pub worker_jobs : Name → Option ℕ
  pub in_flight_jobs : Name → Bool

unfoldable pub or_zero : Option ℕ → ℕ
or_zero none = 0
or_zero (some n) = n

abbrev pub jobs_on : Runner → Name → ℕ
jobs_on r worker = or_zero (r.worker_jobs worker)

unfoldable pub set_at : {A : Type 0} → (Name → A) → Name → A → Name → A
set_at m k x j = if k == j then x else m j

-- The set of jobs in flight, where a job without a name is left out.
unfoldable pub set_flight : Name → Bool → (Name → Bool) → Name → Bool
set_flight name b jobs = if is_set name then set_at jobs name b else jobs

-- startJob: whether the job may start, and the maps then.
unfoldable pub start_job : ℕ → Name → Name → Runner → Bool × Runner
start_job max name worker r =
    if jobs_on r worker == max
    then (false, r)
    else if is_set name && r.in_flight_jobs name
    then (false, r)
    else (
      true,
      record {
        worker_jobs = set_at r.worker_jobs worker (some (jobs_on r worker + 1));
        in_flight_jobs = set_flight name true r.in_flight_jobs;
      },
    )

-- finishJob
unfoldable pub finish_job : Name → Name → Runner → Runner
finish_job name worker r = record {
  worker_jobs =
      set_at r.worker_jobs worker
        (if jobs_on r worker == 1 then none else some (jobs_on r worker - 1));
  in_flight_jobs = set_flight name false r.in_flight_jobs;
}

-- The jobs that run, each with its name and its worker.
pub record State : Type 0 where
  pub runner : Runner
  pub running : List (Name × Name)

abbrev pub start : State
start = record {
  runner = record { worker_jobs = λ w. none; in_flight_jobs = λ n. false };
  running = [];
}

unfoldable pub started : Name → Name → Bool × Runner → State → State
started name worker (true, r) s = record { runner = r; running = (name, worker) ∷ s.running }
started name worker (false, r) s = record s { runner = r }

-- Try, for a worker that is known: the job runs if it may start.
unfoldable pub try_job : ℕ → Name → Name → State → State
try_job max name worker s = started name worker (start_job max name worker s.runner) s

-- What jobs and workers come to in any order: a job is tried, or one that runs finishes.
pub data Reach (max : ℕ) : State → Type 0 where
  begin : Reach max start
  tries : {s : State} (name worker : Name) → Reach max s → Reach max (try_job max name worker s)
  finishes :
      {s : State} (xs ys : List (Name × Name)) (name worker : Name)
      → Reach max s
      → s.running ≡ xs ++ ((name, worker) ∷ ys)
      → Reach max (record { runner = finish_job name worker s.runner; running = xs ++ ys })
