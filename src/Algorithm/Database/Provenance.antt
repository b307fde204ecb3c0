-- ===== src/Algorithm/Database/Provenance.antt =====
-- Where the candidates of an input with passed jobs come from: each has passed every one of the
-- jobs, and each build that is recorded at it is one that output it.
use atc.Prelude.{
  ℕ, ◌<◌, ◌≡◌, ap, ◌∙◌, inl, inr, true, ◌&&◌, ◌||◌, some, Option-cases, some-injective, List, [],
  ◌∷◌, ◌==◌, ==_iff, arith, Bool-cases, All, sym, subst, and_left, and_right,
}
use atc.Algorithm.Sets.{contains}
use atc.Algorithm.Versions.{Version, new_version, record_build, with_candidate, merge}
use atc.Algorithm.Versions.Order.{IsDescending, with_candidate-IsDescending, merge-IsDescending}
use atc.Algorithm.Versions.Members.{All-put_version}
use atc.Algorithm.Versions.Upsert.{merge-upsert}
use atc.Algorithm.Candidates.{
  VersionCandidates, no_candidates, add, merge_version, find_id, intersect_into,
  intersect_by_version,
}
use atc.Algorithm.Database.{
  BuildOutput, VersionsDb, candidate_of, passed_job_from, versions_passed_job, passed_jobs_from,
  versions_of_resource_passed_jobs,
}
use atc.Algorithm.Database.Passed.{
  IsRow, IsPassed, HasRank, new_version-IsPassed, record_build-IsPassed, merge_two, All-fewer,
  rows_of,
}

module _ (rank : ℕ → ℕ) (outputs : List BuildOutput) where
  module _ (resource : ℕ) where
    record IsKept (jobs : List ℕ) (vs : List Version) : Type 0 where
      descending : IsDescending vs
      passed : All (IsPassed rank outputs resource jobs) vs

    find_id-IsPassed :
        (js : List ℕ) (id : ℕ) (vs : List Version) (w : Version)
        → All (IsPassed rank outputs resource js) vs
        → find_id id vs ≡ some w
        → IsPassed rank outputs resource js w × (w.id ≡ id)
    unfolding find_id
    find_id-IsPassed js id [] w h e = cc
    find_id-IsPassed js id (v ∷ vs) w h e = elim (Bool-cases (v.id == id)) [
      | inl k ↦
          let same = some-injective _ _ (rw k at e) in
          (
            subst (IsPassed rank outputs resource js) same h.0,
            ap (λ (u : Version). u.id) (sym same) ∙ (==_iff v.id id).0 k,
          )
      | inr k ↦ find_id-IsPassed js id vs w h.1 (rw k at e)
    ]

    merge_two-IsKept :
        (k : ℕ) (js : List ℕ) (v w : Version) (acc : List Version)
        → w.id ≡ v.id
        → IsPassed rank outputs resource js v
        → IsPassed rank outputs resource (k ∷ []) w
        → IsKept (k ∷ js) acc
        → IsKept (k ∷ js) (merge (merge acc w) v)
    merge_two-IsKept k js v w acc e p q h =
        let once = merge-IsDescending acc w h.descending in
        record {
          descending = merge-IsDescending (merge acc w) v once;
          passed = rw (merge-upsert (merge acc w) v once) (
              rw (merge-upsert acc w h.descending)
                (merge_two rank outputs resource k js v w acc e p q h.passed));
        }

    intersect_into-IsKept :
        (k : ℕ) (js : List ℕ) (acc : VersionCandidates) (vs others : List Version)
        → IsKept (k ∷ js) acc.versions
        → All (IsPassed rank outputs resource js) vs
        → All (IsPassed rank outputs resource (k ∷ [])) others
        → IsKept (k ∷ js) (intersect_into acc vs others).versions
    unfolding intersect_into
    intersect_into-IsKept k js acc [] others h p q = h
    intersect_into-IsKept k js acc (v ∷ vs) others h p q =
        elim (Option-cases (find_id v.id others)) [
          | inl e ↦ rw (e, intersect_into) (intersect_into-IsKept k js acc vs others h p.1 q)
          | inr (w, e) ↦
              let (from_k, same) = find_id-IsPassed (k ∷ []) v.id others w q e in
              rw (e, intersect_into)
                (intersect_into-IsKept k js (merge_version (merge_version acc w) v) vs others
                  (unfold merge_version in merge_two-IsKept k js v w acc.versions same p.0 from_k h)
                  p.1 q)
        ]

    add-IsKept :
        (j : ℕ) (acc : VersionCandidates) (o : BuildOutput)
        → 0 < j
        → IsRow rank outputs o
        → IsKept (j ∷ []) acc.versions
        → (o.resource_id == resource && o.job_id == j) ≡ true
        → IsKept (j ∷ []) (add acc (candidate_of o)).versions
    unfolding add with_candidate
    add-IsKept j acc o pos r h e =
        let c = candidate_of o in
        let of_resource = (==_iff o.resource_id resource).0 (and_left (o.job_id == j) e) in
        let of_job = (==_iff o.job_id j).0 (and_right (o.resource_id == resource) e) in
        record {
          descending = with_candidate-IsDescending acc.versions c h.descending;
          passed =
              All-put_version (IsPassed rank outputs resource (j ∷ [])) (new_version c)
                (record_build c) acc.versions
                (λ v same.
                  record_build-IsPassed rank outputs resource j o v r of_resource
                    (unfold new_version in same))
                h.passed (new_version-IsPassed rank outputs resource j o pos r of_resource of_job);
        }

    -- The walk over the outputs for one job.
    passed_job_from-IsKept :
        (j : ℕ) (acc : VersionCandidates) (os : List BuildOutput)
        → 0 < j
        → All (IsRow rank outputs) os
        → IsKept (j ∷ []) acc.versions
        → IsKept (j ∷ []) (passed_job_from resource j acc os).versions
    unfolding passed_job_from
    passed_job_from-IsKept j acc [] pos r h = h
    passed_job_from-IsKept j acc (o ∷ os) pos r h =
        elim (Bool-cases (o.resource_id == resource && o.job_id == j)) [
          | inr e ↦ rw (e, passed_job_from) (passed_job_from-IsKept j acc os pos r.1 h)
          | inl e ↦
              rw (e, passed_job_from)
                (passed_job_from-IsKept j (add acc (candidate_of o)) os pos r.1
                  (add-IsKept j acc o pos r.0 h e))
        ]

    IsKept-nil : (jobs : List ℕ) → IsKept jobs []
    IsKept-nil jobs = record { descending = tt; passed = tt }

    passed_jobs_from-IsKept :
        (db : VersionsDb) (done : List ℕ) (acc : VersionCandidates) (jobs : List ℕ)
        → All (IsRow rank outputs) db.build_outputs
        → All (λ j. 0 < j) jobs
        → IsKept done acc.versions
        → (all : List ℕ) × ((j : ℕ)
            → (contains j jobs || contains j done) ≡ true
            → contains j all ≡ true)
          × IsKept all (passed_jobs_from db resource acc jobs).versions
    unfolding passed_jobs_from versions_passed_job intersect_by_version contains
    passed_jobs_from-IsKept db done acc [] r pos h = (done, λ j k. k, h)
    passed_jobs_from-IsKept db done acc (j ∷ jobs) r pos h =
        let others = versions_passed_job db resource j in
        let of_job =
          passed_job_from-IsKept j no_candidates db.build_outputs pos.0 r (IsKept-nil (j ∷ [])) in
        let next =
          intersect_into-IsKept j done no_candidates acc.versions others.versions
            (IsKept-nil (j ∷ done)) h.passed of_job.passed in
        let (all, sub, kept) =
          passed_jobs_from-IsKept db (j ∷ done) (intersect_by_version acc others) jobs r pos.1
            next in
        (all, λ i k. sub i (ground arith), kept)

    -- Every candidate for an input with passed jobs has passed all of them.
    versions_of_resource_passed_jobs-IsPassed :
        (db : VersionsDb) (jobs : List ℕ)
        → All (IsRow rank outputs) db.build_outputs
        → All (λ j. 0 < j) jobs
        → All
            (IsPassed rank outputs resource jobs)
            (versions_of_resource_passed_jobs db resource jobs).versions
    unfolding versions_of_resource_passed_jobs versions_passed_job contains
    versions_of_resource_passed_jobs-IsPassed db [] r pos = tt
    versions_of_resource_passed_jobs-IsPassed db (j ∷ jobs) r pos =
        let first =
          passed_job_from-IsKept j no_candidates db.build_outputs pos.0 r (IsKept-nil (j ∷ [])) in
        let (all, sub, kept) =
          passed_jobs_from-IsKept db (j ∷ []) (versions_passed_job db resource j) jobs r pos.1
            first in
        All-fewer rank outputs resource all (j ∷ jobs) (λ i k. sub i (ground arith))
          (passed_jobs_from db resource (versions_passed_job db resource j) jobs).versions
          kept.passed

-- If every build output has the check order of its version, and the ids of the passed jobs of an
-- input are positive, each candidate for the input has passed every one of these jobs: a build of
-- the job is recorded at it; and each build recorded at it is one that output that version of the
-- resource.
pub candidates-IsPassed :
    (rank : ℕ → ℕ) (db : VersionsDb) (resource : ℕ) (jobs : List ℕ)
    → All (HasRank rank) db.build_outputs
    → All (λ j. 0 < j) jobs
    → All
        (IsPassed rank db.build_outputs resource jobs)
        (versions_of_resource_passed_jobs db resource jobs).versions
candidates-IsPassed rank db resource jobs h pos =
    versions_of_resource_passed_jobs-IsPassed rank db.build_outputs resource db jobs
      (rows_of rank db.build_outputs h) pos
