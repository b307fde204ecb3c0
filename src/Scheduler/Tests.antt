-- ===== src/Scheduler/Tests.antt =====
-- A job with a limit of two builds, and three pending builds of which the second is not let through.
use atc.Prelude.{ℕ, ◌≡◌, ◌↔◌, refl, Bool, true, false, Option, some, List, [], ◌∷◌, ◌++◌, All, map}
use atc.Pipeline.Config.{ℤ, pos, negsuc, absent, nil, JobConfig, max_in_flight, get_serial_groups}
use atc.Pipeline.Limits.{max_in_flight-get_serial_groups}
use atc.Scheduler.MaxInFlight.{
  JobQueries, MayStart, update_max_in_flight_reached, is_max_in_flight_reached, save, behind_next,
  update_max_in_flight_reached-MayStart,
}
use atc.Scheduler.Starter.{
  Answers, started, Passes, Stops, resumes, scan_inputs, refresh, launch, schedule, check_paused,
  try_start_next_pending_build, try_start_pending_builds, try_start_pending_builds-Passes,
}
use atc.Scheduler.Starter.Checkpoints.{checkpoints, walk, try_start_next_pending_build-walk}

abbrev job : ℤ → JobConfig ℕ
job limit = record {
  name = 10;
  public_ = true;
  serial = false;
  serial_groups = [];
  raw_max_in_flight = limit;
  build_logs_to_retain = pos 0;
  job_plan = nil;
  abort = absent;
  failure = absent;
  ensure = absent;
  success = absent;
}

-- Build 1 runs, and build 2 is the next.
abbrev queries : JobQueries
queries = record {
  running_by_serial_group = λ groups. some (1 ∷ []);
  next_pending_by_serial_group = λ groups. some (some 2);
  can_save = true;
}

update : JobQueries → JobConfig ℕ → ℕ → Option Bool × List Bool
unfolding update_max_in_flight_reached is_max_in_flight_reached save behind_next max_in_flight
    get_serial_groups
update = update_max_in_flight_reached

lets_next_through : update queries (job (pos 2)) 2 ≡ (some false, false ∷ [])
unfolding update
lets_next_through = refl

limit_reached : update queries (job (pos 1)) 2 ≡ (some true, true ∷ [])
unfolding update
limit_reached = refl

-- A negative limit is reached even where nothing runs.
negative_limit_reached : update queries (job (negsuc 0)) 2 ≡ (some true, true ∷ [])
unfolding update
negative_limit_reached = refl

update_max_in_flight_reached-MayStart_example :
    ((update_max_in_flight_reached queries (job (pos 2)) 2).0 ≡ some false)
    ↔ MayStart queries (job (pos 2)) 2
update_max_in_flight_reached-MayStart_example =
    update_max_in_flight_reached-MayStart queries (job (pos 2)) 2 refl

abbrev answers : ℕ → Bool → Answers
answers n paused = record {
  build = n;
  reached = some false;
  manually_triggered = true;
  scans = true ∷ [];
  loads_versions = true;
  saves_mapping = true;
  loads_types = true;
  next_inputs = some true;
  pipeline_paused = some false;
  job_paused = paused;
  schedules = some true;
  uses_inputs = true;
  creates_plan = true;
  creates_build = true;
}

abbrev pending : List Answers
pending = answers 2 false ∷ answers 3 true ∷ answers 4 false ∷ []

runs : List Answers → List ℕ
unfolding resumes scan_inputs refresh launch schedule check_paused try_start_next_pending_build
    try_start_pending_builds
runs as_ = resumes (try_start_pending_builds as_).1

runs_first : runs pending ≡ 2 ∷ []
unfolding runs
runs_first = refl

try_start_next_pending_build-walk_example :
    (((try_start_next_pending_build (answers 2 false)).0 ≡ started) ↔ Passes (answers 2 false))
    × (try_start_next_pending_build (answers 2 false) ≡ walk (checkpoints (answers 2 false)))
try_start_next_pending_build-walk_example = try_start_next_pending_build-walk (answers 2 false)

try_start_pending_builds-Passes_example :
    (first rest : List Answers) × (pending ≡ first ++ rest)
    × All Passes first
    × Stops rest
    × (resumes (try_start_pending_builds pending).1 ≡ map Answers.build first)
try_start_pending_builds-Passes_example = try_start_pending_builds-Passes pending

max_in_flight-get_serial_groups_example :
    (max_in_flight (job (pos 2)) ≡ pos 0) ↔ (get_serial_groups (job (pos 2)) ≡ [])
max_in_flight-get_serial_groups_example = max_in_flight-get_serial_groups (job (pos 2)) 2 refl
