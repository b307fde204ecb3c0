-- ===== src/Collector/Bounds.antt =====
-- gc/worker_job_runner.go: how many jobs run.
use atc.Prelude.{
  ℕ, ◌+◌, ◌≤◌, ◌≡◌, ◌≢◌, ◌⊎◌, ◌↔◌, inl, inr, refl, ap, true, ◌&&◌, List, [], ◌∷◌, ◌++◌, ◌==◌,
  if◌then◌else◌, arith, Bool-cases,
}
use atc.Pipeline.Config.{Name, is_set}
use atc.Collector.JobRunner.{
  or_zero, jobs_on, set_at, set_flight, start_job, finish_job, State, start, started, try_job,
  Reach, begin, tries, finishes,
}

abbrev pub count_on : Name → List (Name × Name) → ℕ
count_on w [] = 0
count_on w (j ∷ js) = (if j.1 == w then 1 else 0) + count_on w js

abbrev pub count_named : Name → List (Name × Name) → ℕ
count_named n [] = 0
count_named n (j ∷ js) = (if j.0 == n then 1 else 0) + count_named n js

count_on-append :
    (w : Name) (xs ys : List (Name × Name)) (j : Name × Name)
    → count_on w (xs ++ (j ∷ ys)) ≡ (if j.1 == w then 1 else 0) + count_on w (xs ++ ys)
count_on-append w [] ys j = refl
count_on-append w (x ∷ xs) ys j = omega (arith, count_on-append w xs ys j)

count_named-append :
    (n : Name) (xs ys : List (Name × Name)) (j : Name × Name)
    → count_named n (xs ++ (j ∷ ys)) ≡ (if j.0 == n then 1 else 0) + count_named n (xs ++ ys)
count_named-append n [] ys j = refl
count_named-append n (x ∷ xs) ys j = omega (arith, count_named-append n xs ys j)

-- The maps count the jobs that run.
record IsCounted (max : ℕ) (s : State) : Type 0 where
  workers : (w : Name) → jobs_on s.runner w ≡ count_on w s.running
  bound : (w : Name) → count_on w s.running ≤ max
  names :
      (n : Name) → n ≢ 0 → count_named n s.running ≡ (if s.runner.in_flight_jobs n then 1 else 0)

start-IsCounted : (max : ℕ) → IsCounted max start
unfolding or_zero
start-IsCounted max = record { workers = λ w. refl; bound = λ w. omega arith; names = λ n h. refl }

try_job-IsCounted :
    (max : ℕ) (name worker : Name) (s : State)
    → IsCounted max s
    → IsCounted max (try_job max name worker s)
unfolding try_job started start_job set_at set_flight or_zero
try_job-IsCounted max name worker s c = elim (Bool-cases (jobs_on s.runner worker == max)) [
  | inl full ↦ rw full c
  | inr free ↦ elim (Bool-cases (is_set name && s.runner.in_flight_jobs name)) [
    | inl flying ↦ rw (free, flying) c
    | inr idle ↦
        rw (free, idle)
          (record {
            workers = λ w. ground (arith, IsCounted.workers c w, IsCounted.workers c worker);
            bound = λ w. ground (arith, free, IsCounted.bound c w, IsCounted.workers c worker);
            names = λ n h. ground (arith, h, idle, IsCounted.names c n h);
          })
  ]
]

finish_job-IsCounted :
    (max : ℕ) (s : State) (xs ys : List (Name × Name)) (name worker : Name)
    → s.running ≡ xs ++ ((name, worker) ∷ ys)
    → IsCounted max s
    → IsCounted max (record { runner = finish_job name worker s.runner; running = xs ++ ys })
unfolding finish_job set_at set_flight or_zero
finish_job-IsCounted max s xs ys name worker e c = record {
  workers = λ w. ground (
    arith,
    ap (count_on w) e,
    count_on-append w xs ys (name, worker),
    IsCounted.workers c w,
    IsCounted.workers c worker,
  );
  bound = λ w.
      ground
        (arith, ap (count_on w) e, count_on-append w xs ys (name, worker), IsCounted.bound c w);
  names = λ n h. ground (
    arith,
    h,
    ap (count_named n) e,
    count_named-append n xs ys (name, worker),
    IsCounted.names c n h,
  );
}

Reach-IsCounted : {max : ℕ} {s : State} → Reach max s → IsCounted max s
Reach-IsCounted {max} begin = start-IsCounted max
Reach-IsCounted {max} (tries {s} name worker r) =
    try_job-IsCounted max name worker s (Reach-IsCounted r)
Reach-IsCounted {max} (finishes {s} xs ys name worker r e) =
    finish_job-IsCounted max s xs ys name worker e (Reach-IsCounted r)

-- However jobs are tried and finish, at most `max` run on each worker, at most one of each name runs,
-- and startJob lets a job start exactly if not as many as that run on its worker and none of its name
-- runs: no place and no name is lost when jobs finish.
pub start_job-Reach :
    (max : ℕ) (s : State)
    → Reach max s
    → (name worker : Name)
    → (count_on worker s.running ≤ max)
      × (name ≢ 0 → count_named name s.running ≤ 1)
      × (((start_job max name worker s.runner).0 ≡ true)
          ↔ ((count_on worker s.running ≢ max) × ((name ≡ 0) ⊎ (count_named name s.running ≡ 0))))
unfolding start_job
start_job-Reach max s r name worker =
    let c = Reach-IsCounted r in
    (
      IsCounted.bound c worker,
      (λ h. ground (arith, IsCounted.names c name h)),
      ground (arith, IsCounted.workers c worker, IsCounted.names c name),
    )
