-- ===== src/Scheduler/Runner/Tests.antt =====
-- A round in which a job is scheduled, and one in which the pipeline is gone.
use atc.Prelude.{◌≡◌, refl, Bool, true, false, some, List, [], ◌∷◌}
use atc.Scheduler.Jobs.Tests.{versions, unit_job}
use atc.Scheduler.Runner.{Round, removed, ended, run, IsBracketed, run-IsBracketed}

abbrev round : Bool → Round
round found = record {
  acquires = some true;
  versions = some versions;
  reloads = some found;
  loads_resources = true;
  jobs = some (unit_job ∷ []);
  loads_types = true;
  get_all = λ jobs. some [];
}

abbrev rounds : List (Round × Bool)
rounds = (round true, false) ∷ (round false, false) ∷ []

run-IsBracketed_example : IsBracketed false (run false rounds).1
run-IsBracketed_example = run-IsBracketed false rounds

pipeline_removed : (run false ((round false, false) ∷ rounds)).0 ≡ ended removed
unfolding run
pipeline_removed = refl
