-- ===== src/Scheduler/Jobs/Tests.antt =====
-- A job with one input, for which version 11 of its resource was never used.
use atc.Prelude.{◌≡◌, refl, true, false, Option, none, some, List, [], ◌∷◌}
use atc.Algorithm.Database.{VersionsDb}
use atc.Algorithm.Resolve.{resolve}
use atc.Algorithm.Candidates.{is_empty, add, len, peek, check, prune}
use atc.Algorithm.Database.{latest_version_of_resource, is_first_occurrence, exists_build}
use atc.Algorithm.Versions.{with_candidate, put_version, place, order_at_most, insert_at, merge}
use atc.Algorithm.Search.{search}
use atc.Algorithm.Inputs.{reduce, reduce_from, prune_to_common_builds, put_resolved, pin}
use atc.Scheduler.Tables.{is_same, lookup_input, delete_row}
use atc.Scheduler.Mapper.{JobInput, Calls}
use atc.Scheduler.Jobs.{Job, schedule_jobs, PendingBuilds}

abbrev pub versions : VersionsDb
versions = record {
  resource_versions = record { version_id = 11; resource_id = 1; check_order = 1 } ∷ [];
  build_outputs = [];
  build_inputs = [];
  job_ids = ("unit", 7) ∷ [];
  resource_ids = ("source", 1) ∷ [];
}

abbrev pub source : JobInput
source = record { name = "code"; resource = "source"; passed = []; trigger = true; version = none }

abbrev pub all_work : Calls
all_work = record {
  find_version = λ v r. some none;
  saves_independent = true;
  deletes_next = true;
  saves_next = true;
  ensures_pending = true;
}

abbrev pub unit_job : Job
unit_job = record {
  name = "unit";
  inputs = source ∷ [];
  calls = all_work;
  rows = record {
    independent_build_inputs = [];
    next_build_inputs = ("code", record { version_id = 10; first_occurrence = false }) ∷ [];
    inputs_determined = true;
    pending_builds = 0;
  };
}

abbrev none_pending : List Job → Option PendingBuilds
none_pending jobs = some []

scheduled :
    (schedule_jobs versions none_pending (unit_job ∷ [])).1
    ≡ record unit_job {
      rows = record {
        independent_build_inputs =
            ("code", record { version_id = 11; first_occurrence = true }) ∷ [];
        next_build_inputs = ("code", record { version_id = 11; first_occurrence = true }) ∷ [];
        inputs_determined = true;
        pending_builds = 1;
      };
    }
      ∷ []
unfolding schedule_jobs resolve is_empty add len peek check prune latest_version_of_resource
    is_first_occurrence exists_build with_candidate put_version place order_at_most insert_at merge
    search reduce reduce_from prune_to_common_builds put_resolved pin is_same lookup_input
    delete_row
scheduled = refl
