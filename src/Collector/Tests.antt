-- ===== src/Collector/Tests.antt =====
-- A job that runs on a worker with one place, the builds of a job, and the theorems at them.
use atc.Prelude.{ℕ, ◌≤◌, ◌≡◌, ◌≢◌, ◌⊎◌, ◌↔◌, refl, true, false, List, [], ◌∷◌, All, arith}
use atc.Collector.JobRunner.{
  or_zero, set_at, set_flight, start_job, finish_job, State, start, started, try_job, begin, tries,
}
use atc.Collector.Reaper.{
  Build, take, reverse, above, below, builds, more_builds, to_consider, to_delete, last_id,
  delete_before, reap, last_or, first_logged_after,
}
use atc.Collector.Reaped.{IsAscending, MayBeReaped, reap-MayBeReaped}
use atc.Collector.Bounds.{count_on, count_named, start_job-Reach}

abbrev busy : State
busy = try_job 1 7 3 start

busy_worker :
    (busy.running ≡ (7, 3) ∷ [])
    × ((start_job 1 8 3 busy.runner).0 ≡ false)
    × ((start_job 1 7 4 busy.runner).0 ≡ false)
    × ((start_job 1 8 4 busy.runner).0 ≡ true)
    × ((start_job 1 7 3 (finish_job 7 3 busy.runner)).0 ≡ true)
unfolding try_job started start_job finish_job set_flight set_at or_zero
busy_worker = (refl, refl, refl, refl, refl)

abbrev next_job : ℕ
next_job = 8

start_job-Reach_example :
    (count_on 4 busy.running ≤ 1)
    × (next_job ≢ 0 → count_named next_job busy.running ≤ 1)
    × (((start_job 1 next_job 4 busy.runner).0 ≡ true) ↔ (
        (count_on 4 busy.running ≢ 1) × ((next_job ≡ 0) ⊎ (count_named next_job busy.running ≡ 0))))
start_job-Reach_example = start_job-Reach 1 busy (tries 7 3 begin) next_job 4

-- Builds 1 to 5, of which build 3 runs.
abbrev all_builds : List Build
all_builds =
    record { id = 1; is_running = false }
    ∷ record { id = 2; is_running = false }
    ∷ record { id = 3; is_running = true }
    ∷ record { id = 4; is_running = false }
    ∷ record { id = 5; is_running = false }
    ∷ []

reaps_two :
    (reap 10 2 0 all_builds ≡ 1 ∷ 2 ∷ [])
    × (reap 1 2 0 all_builds ≡ 1 ∷ [])
    × (reap 10 4 2 all_builds ≡ [])
    × (first_logged_after 0 (reap 10 2 0 all_builds) ≡ 3)
unfolding reap delete_before to_delete last_id to_consider more_builds builds above below take
    reverse first_logged_after last_or
reaps_two = (refl, refl, refl, refl)

all_builds-IsAscending : IsAscending all_builds
all_builds-IsAscending = ground arith

reap-MayBeReaped_example : All (MayBeReaped 2 all_builds) (reap 10 2 0 all_builds)
reap-MayBeReaped_example = reap-MayBeReaped 10 2 0 all_builds all_builds-IsAscending
