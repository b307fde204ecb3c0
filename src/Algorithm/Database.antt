-- ===== src/Algorithm/Database.antt =====
-- VersionsDB (db/algorithm/db.go) and ExistingBuildResolver (existing_build_resolver.go).
pub mod Passed
pub mod Provenance
pub mod Latest
use Prim.Native.String.{String}
use text.Mathlib.Text.{◌==◌ as str_eq}
use atc.Prelude.{
  ℕ, Bool, true, false, ◌&&◌, Option, none, some, List, [], ◌∷◌, ltb, ◌==◌, if◌then◌else◌,
}
use atc.Algorithm.Versions.{VersionCandidate}
use atc.Algorithm.Candidates.{VersionCandidates, no_candidates, add, intersect_by_version}

pub record ResourceVersion : Type 0 where
  pub version_id : ℕ
  pub resource_id : ℕ
  pub check_order : ℕ

pub record BuildOutput : Type 0 where
  pub resource_version : ResourceVersion
  pub open resource_version use *
  pub build_id : ℕ
  pub job_id : ℕ

pub record BuildInput : Type 0 where
  pub resource_version : ResourceVersion
  pub open resource_version use *
  pub build_id : ℕ
  pub job_id : ℕ
  pub input_name : String

pub record VersionsDb : Type 0 where
  pub resource_versions : List ResourceVersion
  pub build_outputs : List BuildOutput
  pub build_inputs : List BuildInput
  pub job_ids : List (String × ℕ)
  pub resource_ids : List (String × ℕ)

-- VersionsDB.IsVersionFirstOccurrence, on the build inputs
unfoldable pub is_first_occurrence : ℕ → ℕ → String → List BuildInput → Bool
is_first_occurrence version_id job_id input_name [] = true
is_first_occurrence version_id job_id input_name (i ∷ inputs) =
    if i.version_id == version_id && i.job_id == job_id && str_eq i.input_name input_name
    then false
    else is_first_occurrence version_id job_id input_name inputs

-- A version of a resource that no job passed.
abbrev pub unpassed : ResourceVersion → VersionCandidate
unpassed v = record {
  version_id = v.version_id;
  build_id = 0;
  job_id = 0;
  check_order = v.check_order;
}

-- VersionsDB.AllVersionsOfResource
unfoldable pub all_versions_from : ℕ → VersionCandidates → List ResourceVersion → VersionCandidates
all_versions_from resource_id acc [] = acc
all_versions_from resource_id acc (v ∷ vs) =
    all_versions_from resource_id
      (if v.resource_id == resource_id then add acc (unpassed v) else acc) vs

unfoldable pub all_versions_of_resource : VersionsDb → ℕ → VersionCandidates
unfolding all_versions_from
all_versions_of_resource db resource_id =
    all_versions_from resource_id no_candidates db.resource_versions

-- The check order of the candidate so far: 0 before one is found.
abbrev pub order_so_far : Option VersionCandidate → ℕ
order_so_far none = 0
order_so_far (some c) = c.check_order

-- VersionsDB.LatestVersionOfResource
unfoldable pub latest_from :
    ℕ → Option VersionCandidate → List ResourceVersion → Option VersionCandidate
latest_from resource_id acc [] = acc
latest_from resource_id acc (v ∷ vs) =
    latest_from resource_id
      (if v.resource_id == resource_id && ltb (order_so_far acc) v.check_order
        then some (unpassed v)
        else acc)
      vs

unfoldable pub latest_version_of_resource : VersionsDb → ℕ → Option VersionCandidate
unfolding latest_from
latest_version_of_resource db resource_id = latest_from resource_id none db.resource_versions

-- VersionsDB.FindVersionOfResource: the last match wins.
unfoldable pub find_from :
    ℕ → ℕ → Option VersionCandidate → List ResourceVersion → Option VersionCandidate
find_from resource_id version_id acc [] = acc
find_from resource_id version_id acc (v ∷ vs) =
    find_from resource_id version_id
      (if v.resource_id == resource_id && v.version_id == version_id
        then some (unpassed v)
        else acc)
      vs

unfoldable pub find_version_of_resource : VersionsDb → ℕ → ℕ → Option VersionCandidate
unfolding find_from
find_version_of_resource db resource_id version_id =
    find_from resource_id version_id none db.resource_versions

abbrev pub candidate_of : BuildOutput → VersionCandidate
candidate_of o = record {
  version_id = o.version_id;
  build_id = o.build_id;
  job_id = o.job_id;
  check_order = o.check_order;
}

-- The inner loop of VersionsDB.VersionsOfResourcePassedJobs
unfoldable pub passed_job_from : ℕ → ℕ → VersionCandidates → List BuildOutput → VersionCandidates
passed_job_from resource_id job_id acc [] = acc
passed_job_from resource_id job_id acc (o ∷ outputs) =
    passed_job_from resource_id job_id
      (if o.resource_id == resource_id && o.job_id == job_id then add acc (candidate_of o) else acc)
      outputs

unfoldable pub versions_passed_job : VersionsDb → ℕ → ℕ → VersionCandidates
unfolding passed_job_from
versions_passed_job db resource_id job_id =
    passed_job_from resource_id job_id no_candidates db.build_outputs

-- The outer loop, after its first round.
unfoldable pub passed_jobs_from : VersionsDb → ℕ → VersionCandidates → List ℕ → VersionCandidates
passed_jobs_from db resource_id acc [] = acc
passed_jobs_from db resource_id acc (j ∷ jobs) =
    passed_jobs_from db resource_id
      (intersect_by_version acc (versions_passed_job db resource_id j)) jobs

-- VersionsDB.VersionsOfResourcePassedJobs
unfoldable pub versions_of_resource_passed_jobs : VersionsDb → ℕ → List ℕ → VersionCandidates
unfolding passed_jobs_from
versions_of_resource_passed_jobs db resource_id [] = no_candidates
versions_of_resource_passed_jobs db resource_id (j ∷ jobs) =
    passed_jobs_from db resource_id (versions_passed_job db resource_id j) jobs

-- ExistingBuildResolver
pub record ExistingBuildResolver : Type 0 where
  pub build_inputs : List BuildInput
  pub job_id : ℕ
  pub resource_id : ℕ

unfoldable pub exists_in : ℕ → ℕ → List BuildInput → Bool
exists_in job_id resource_id [] = false
exists_in job_id resource_id (i ∷ inputs) =
    if i.job_id == job_id && i.resource_id == resource_id
    then true
    else exists_in job_id resource_id inputs

unfoldable pub exists_build : ExistingBuildResolver → Bool
unfolding exists_in
exists_build r = exists_in r.job_id r.resource_id r.build_inputs

unfoldable pub exists_version_in : ℕ → ℕ → ℕ → List BuildInput → Bool
exists_version_in job_id resource_id version_id [] = false
exists_version_in job_id resource_id version_id (i ∷ inputs) =
    if (i.job_id == job_id && i.resource_id == resource_id) && i.version_id == version_id
    then true
    else exists_version_in job_id resource_id version_id inputs

unfoldable pub exists_for_version : ExistingBuildResolver → ℕ → Bool
unfolding exists_version_in
exists_for_version r version_id = exists_version_in r.job_id r.resource_id version_id r.build_inputs
