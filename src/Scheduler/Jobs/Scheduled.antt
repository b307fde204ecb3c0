-- ===== src/Scheduler/Jobs/Scheduled.antt =====
-- What Schedule does for every job.
use atc.Prelude.{ℕ, ◌≡◌, ◌≢◌, ◌⊎◌, Bool, true, false, Option, none, some, List, [], ◌∷◌}
use atc.Algorithm.Database.{VersionsDb}
use atc.Algorithm.Resolve.{InputConfig, InputMapping}
use atc.Scheduler.Tables.{JobRows}
use atc.Scheduler.Starter.{Effect}
use atc.Scheduler.Mapper.{transform_input_configs}
use atc.Scheduler.Mapper.Counts.{AreDistinct}
use atc.Scheduler.Mapper.Transformed.{names_of}
use atc.Scheduler.Mapper.Mapped.{IsStored, IsKept, IsMapped, DoSave}
use atc.Scheduler.Jobs.Triggered.{IsTriggered}
use atc.Scheduler.Jobs.{Job}

-- The pending builds after a call for the job: there is one where none was pending and an input
-- triggers a build, and otherwise there are as many as before.
abbrev pub IsPending : VersionsDb → Job → Option InputMapping → ℕ → Type 0
IsPending db job none n = n ≡ job.rows.pending_builds
IsPending db job (some m) n =
    (IsTriggered db job.name job.inputs m × (job.rows.pending_builds ≡ 0) × (n ≡ 1))
    ⊎ (((IsTriggered db job.name job.inputs m → ⊥) ⊎ (job.rows.pending_builds ≢ 0))
        × (n ≡ job.rows.pending_builds))

-- The configurations that the transformer gives, and what the input mapper returned for them.
pub record IsScheduled (db : VersionsDb) (job after : Job) : Type 0 where
  pub configs : List InputConfig
  pub transformed :
      transform_input_configs job.calls.find_version db job.name job.inputs ≡ some configs
  pub mapping : Option InputMapping
  pub mapped : IsMapped job.calls.find_version db job.inputs configs mapping after.rows
  pub pending : IsPending db job mapping after.rows.pending_builds
  pub stored : IsStored after.rows
  pub same_job : after ≡ record job { rows = after.rows }

-- The names of the inputs are distinct.
abbrev pub IsReady : Job → Type 0
IsReady job = IsStored job.rows × AreDistinct (names_of job.inputs)

-- Every call for the job works.
pub record DoWork (db : VersionsDb) (job : Job) : Type 0 where
  pub finds : transform_input_configs job.calls.find_version db job.name job.inputs ≢ none
  pub saves : DoSave job.calls
  pub ensures : job.calls.ensures_pending ≡ true

HasEnsured : VersionsDb → Job → List InputConfig → Bool × JobRows → Type 0
HasEnsured db job configs (false, rows) = IsKept job.rows rows × (DoWork db job → ⊥)
HasEnsured db job configs (true, rows) =
    (mapping : Option InputMapping) × IsMapped job.calls.find_version db job.inputs configs mapping
      rows
    × IsPending db job mapping rows.pending_builds
    × IsStored rows

HasStep : VersionsDb → Job → Bool × JobRows → Type 0
HasStep db job (false, rows) = IsKept job.rows rows × (DoWork db job → ⊥)
HasStep db job (true, rows) = IsScheduled db job (record job { rows = rows })

-- How far the first loop comes: through all jobs, or up to one for which a call did not work.
abbrev pub IsEnsured : VersionsDb → List Job → Bool → List Job → Type 0
IsEnsured db [] ok [] = ok ≡ true
IsEnsured db [] ok (after ∷ afters) = ⊥
IsEnsured db (job ∷ jobs) ok [] = ⊥
IsEnsured db (job ∷ jobs) ok (after ∷ afters) =
    (IsScheduled db job after × IsEnsured db jobs ok afters)
    ⊎ ((ok ≡ false)
        × (DoWork db job → ⊥)
        × IsKept job.rows after.rows
        × (after ≡ record job { rows = after.rows })
        × (afters ≡ jobs))

-- The rows of the jobs after Schedule, and what is done to builds.
abbrev pub HasSchedule : VersionsDb → List Job → Bool × List Job × List Effect → Type 0
HasSchedule db jobs (ok, afters, effects) =
    (ensured : Bool) × IsEnsured db jobs ensured afters
    × ((ensured ≡ true) ⊎ ((ok ≡ false) × (effects ≡ [])))
