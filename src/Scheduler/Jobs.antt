-- ===== src/Scheduler/Jobs.antt =====
-- scheduler/scheduler.go: Schedule, which ensures that jobs with new versions have a pending build,
-- and then starts pending builds.
pub mod Triggered
pub mod Scheduled
pub mod Tests
use Prim.Native.String.{String}
use text.Mathlib.Text.{◌==◌ as str_eq}
use atc.Prelude.{
  ℕ, suc, Bool, true, false, ◌&&◌, ◌||◌, Option, none, some, List, [], ◌∷◌, ◌++◌, if◌then◌else◌,
}
use atc.Algorithm.Database.{VersionsDb}
use atc.Algorithm.Resolve.{InputMapping}
use atc.Scheduler.Tables.{JobRows, lookup_input, ensure_pending_build_exists}
use atc.Scheduler.Mapper.{JobInput, Calls, Outcome, save_next_input_mapping}
use atc.Scheduler.Starter.{Answers, Effect, try_start_pending_builds}

pub record Job : Type 0 where
  pub name : String
  pub inputs : List JobInput
  pub calls : Calls
  pub rows : JobRows

-- ok && inputVersion.FirstOccurrence && inputConfig.Trigger
unfoldable pub is_trigger : InputMapping → JobInput → Bool
is_trigger m input = elim (lookup_input input.name m) [
  | none ↦ false
  | some v ↦ v.first_occurrence && input.trigger
]

-- The loop over the inputs, which breaks at the first that triggers a build.
unfoldable pub triggers_build : InputMapping → List JobInput → Bool
unfolding is_trigger
triggers_build m [] = false
triggers_build m (input ∷ inputs) = is_trigger m input || triggers_build m inputs

-- Whether a call returns no error, with the rows after it.
abbrev pub or_error : Option JobRows → JobRows → Bool × JobRows
or_error none rows = (false, rows)
or_error (some rows') rows = (true, rows')

unfoldable pub ensure_for : Calls → List JobInput → Outcome → Bool × JobRows
unfolding triggers_build ensure_pending_build_exists
ensure_for calls inputs (none, rows) = (false, rows)
ensure_for calls inputs (some none, rows) = (true, rows)
ensure_for calls inputs (some (some m), rows) =
    if triggers_build m inputs
    then or_error (ensure_pending_build_exists calls.ensures_pending rows) rows
    else (true, rows)

unfoldable pub ensure_pending_build : VersionsDb → Job → Bool × JobRows
unfolding ensure_for save_next_input_mapping
ensure_pending_build db job =
    ensure_for job.calls job.inputs
      (save_next_input_mapping job.calls db job.name job.inputs job.rows)

-- The first loop of Schedule goes on after a job without an error.
abbrev pub go_on : Job → List Job → Bool × JobRows → Bool × List Job → Bool × List Job
go_on job jobs (true, rows) rest = (rest.0, record job { rows = rows } ∷ rest.1)
go_on job jobs (false, rows) rest = (false, record job { rows = rows } ∷ jobs)

unfoldable pub ensure_all : VersionsDb → List Job → Bool × List Job
unfolding ensure_pending_build
ensure_all db [] = (true, [])
ensure_all db (job ∷ jobs) = go_on job jobs (ensure_pending_build db job) (ensure_all db jobs)

-- GetAllPendingBuilds gives, for each name, the builds with what their calls will answer.
abbrev pub PendingBuilds : Type 0
PendingBuilds = List (String × List Answers)

unfoldable pub builds_for : String → PendingBuilds → Option (List Answers)
builds_for name [] = none
builds_for name ((n, builds) ∷ pending) =
    if str_eq n name then some builds else builds_for name pending

-- The second loop.
unfoldable pub start_all : PendingBuilds → List Job → Bool × List Effect
unfolding builds_for try_start_pending_builds
start_all pending [] = (true, [])
start_all pending (job ∷ jobs) =
    let rest = start_all pending jobs in
    elim (builds_for job.name pending) [
      | none ↦ rest
      | some builds ↦
          if (try_start_pending_builds builds).0
          then (rest.0, (try_start_pending_builds builds).1 ++ rest.1)
          else (false, (try_start_pending_builds builds).1)
    ]

-- From GetAllPendingBuilds on.
abbrev pub start_pending : List Job → Option PendingBuilds → Bool × List Job × List Effect
start_pending jobs none = (false, jobs, [])
start_pending jobs (some pending) = ((start_all pending jobs).0, jobs, (start_all pending jobs).1)

-- Schedule: whether it returns no error, the jobs with their rows before builds are started, and
-- what is done to the builds. `get_all` is GetAllPendingBuilds at these rows.
unfoldable pub schedule_jobs :
    VersionsDb → (List Job → Option PendingBuilds) → List Job → Bool × List Job × List Effect
unfolding ensure_all start_all
schedule_jobs db get_all jobs =
    if (ensure_all db jobs).0
    then start_pending (ensure_all db jobs).1 (get_all (ensure_all db jobs).1)
    else (false, (ensure_all db jobs).1, [])

-- TriggerImmediately, once its goroutine ends: the job with the build that CreateBuild adds, and what
-- is done to the builds. `pending` is what GetPendingBuilds answers; its errors are only logged.
unfoldable pub trigger_immediately : Bool → Option (List Answers) → Job → Option (Job × List Effect)
unfolding try_start_pending_builds
trigger_immediately creates pending job =
    let added = record job {
      rows = record (job.rows) { pending_builds = suc job.rows.pending_builds };
    } in
    if creates
    then some
        (added, elim pending [ none ↦ [] | some builds ↦ (try_start_pending_builds builds).1 ])
    else none

-- Scheduler.SaveNextInputMapping, with LoadVersionsDB's answer: whether it returns no error, and the
-- rows it leaves.
unfoldable pub save_next_inputs_of : Option VersionsDb → Job → Bool × JobRows
unfolding save_next_input_mapping
save_next_inputs_of none job = (false, job.rows)
save_next_inputs_of (some db) job =
    let o = save_next_input_mapping job.calls db job.name job.inputs job.rows in
    (elim o.0 [ none ↦ false | some m ↦ true ], o.1)
