-- ===== src/Algorithm/Resolve/Consistent.antt =====
-- The candidates of every input have the build ids of their versions.
use atc.Prelude.{ℕ, ◌≡◌, refl, inl, inr, ◌&&◌, Option, none, some, List, [], ◌∷◌, ◌==◌, Bool-cases}
use atc.Algorithm.Versions.{VersionCandidate}
use atc.Algorithm.Candidates.{VersionCandidates, no_candidates, add, intersect_by_version}
use atc.Algorithm.Candidates.Consistent.{
  IsConsistent, add-IsConsistent, no_candidates-IsConsistent, intersect_by_version-IsConsistent,
}
use atc.Algorithm.Database.{
  ResourceVersion, BuildOutput, VersionsDb, unpassed, candidate_of, all_versions_from,
  all_versions_of_resource, latest_version_of_resource, find_version_of_resource, passed_job_from,
  versions_passed_job, passed_jobs_from, versions_of_resource_passed_jobs,
}
use atc.Algorithm.Resolve.{InputConfig, add_found, versions_for}

all_versions_from-IsConsistent :
    (r : ℕ) (acc : VersionCandidates) (vs : List ResourceVersion)
    → IsConsistent acc
    → IsConsistent (all_versions_from r acc vs)
unfolding all_versions_from
all_versions_from-IsConsistent r acc [] h = h
all_versions_from-IsConsistent r acc (v ∷ vs) h = elim (Bool-cases (v.resource_id == r)) [
  | inl e ↦ rw e (
      all_versions_from-IsConsistent r (add acc (unpassed v)) vs
        (add-IsConsistent acc (unpassed v) h))
  | inr e ↦ rw e (all_versions_from-IsConsistent r acc vs h)
]

passed_job_from-IsConsistent :
    (r j : ℕ) (acc : VersionCandidates) (os : List BuildOutput)
    → IsConsistent acc
    → IsConsistent (passed_job_from r j acc os)
unfolding passed_job_from
passed_job_from-IsConsistent r j acc [] h = h
passed_job_from-IsConsistent r j acc (o ∷ os) h =
    elim (Bool-cases (o.resource_id == r && o.job_id == j)) [
      | inl e ↦ rw e (
          passed_job_from-IsConsistent r j (add acc (candidate_of o)) os
            (add-IsConsistent acc (candidate_of o) h))
      | inr e ↦ rw e (passed_job_from-IsConsistent r j acc os h)
    ]

passed_jobs_from-IsConsistent :
    (db : VersionsDb) (r : ℕ) (acc : VersionCandidates) (jobs : List ℕ)
    → IsConsistent acc
    → IsConsistent (passed_jobs_from db r acc jobs)
unfolding passed_jobs_from
passed_jobs_from-IsConsistent db r acc [] h = h
passed_jobs_from-IsConsistent db r acc (j ∷ jobs) h =
    passed_jobs_from-IsConsistent db r (intersect_by_version acc (versions_passed_job db r j)) jobs
      (intersect_by_version-IsConsistent acc (versions_passed_job db r j))

add_found-IsConsistent : (o : Option VersionCandidate) → IsConsistent (add_found o)
unfolding add_found
add_found-IsConsistent none = no_candidates-IsConsistent
add_found-IsConsistent (some c) = add-IsConsistent no_candidates c no_candidates-IsConsistent

passed_jobs-IsConsistent :
    (db : VersionsDb) (r : ℕ) (jobs : List ℕ)
    → IsConsistent (versions_of_resource_passed_jobs db r jobs)
unfolding versions_of_resource_passed_jobs versions_passed_job
passed_jobs-IsConsistent db r [] = no_candidates-IsConsistent
passed_jobs-IsConsistent db r (j ∷ jobs) =
    passed_jobs_from-IsConsistent db r (versions_passed_job db r j) jobs
      (passed_job_from-IsConsistent r j no_candidates db.build_outputs no_candidates-IsConsistent)

-- What `versions_for` chooses among, by the fields that it tests.
choice-IsConsistent :
    (db : VersionsDb) (c : InputConfig) (passed : List ℕ)
    → c.passed ≡ passed
    → IsConsistent (versions_for db c)
unfolding versions_for all_versions_of_resource
choice-IsConsistent db c (j ∷ jobs) e =
    rw (e, versions_for) (passed_jobs-IsConsistent db c.resource_id (j ∷ jobs))
choice-IsConsistent db c [] e = elim (Bool-cases c.use_every_version) [
  | inl every ↦
      rw (e, every, versions_for)
        (all_versions_from-IsConsistent c.resource_id no_candidates db.resource_versions
          no_candidates-IsConsistent)
  | inr latest ↦ elim (Bool-cases (c.pinned_version_id == 0)) [
    | inl free ↦
        rw (e, latest, free, versions_for)
          (add_found-IsConsistent (latest_version_of_resource db c.resource_id))
    | inr pinned ↦
        rw (e, latest, pinned, versions_for)
          (add_found-IsConsistent (find_version_of_resource db c.resource_id c.pinned_version_id))
  ]
]

pub versions_for-IsConsistent :
    (db : VersionsDb) (c : InputConfig) → IsConsistent (versions_for db c)
versions_for-IsConsistent db c = choice-IsConsistent db c c.passed refl
