-- ===== src/Algorithm/Resolve.antt =====
-- InputConfigs.Resolve (db/algorithm/input_configs.go, input_mapping.go).
pub mod Total
pub mod Consistent
pub mod Sound
use Prim.Native.String.{String}
use text.Mathlib.Text.{◌==◌ as str_eq}
use atc.Prelude.{
  ℕ, suc, Bool, true, false, not, Option, none, some, List, [], ◌∷◌, ◌++◌, length, ◌==◌,
  if◌then◌else◌,
}
use atc.Algorithm.Sets.{union}
use atc.Algorithm.Versions.{VersionCandidate}
use atc.Algorithm.Candidates.{VersionCandidates, no_candidates, add, is_empty}
use atc.Algorithm.Database.{
  VersionsDb, is_first_occurrence, all_versions_of_resource, latest_version_of_resource,
  find_version_of_resource, versions_of_resource_passed_jobs,
}
use atc.Algorithm.Inputs.{
  InputCandidates, ResolvedInputs, Answer, out_of_fuel, not_found, found, reduce,
}

pub record InputConfig : Type 0 where
  pub name : String
  pub job_name : String
  pub passed : List ℕ
  pub use_every_version : Bool
  pub pinned_version_id : ℕ
  pub resource_id : ℕ
  pub job_id : ℕ

pub record InputVersion : Type 0 where
  pub version_id : ℕ
  pub first_occurrence : Bool

-- versionCandidates.Add(versionCandidate), if one was found
unfoldable pub add_found : Option VersionCandidate → VersionCandidates
add_found none = no_candidates
add_found (some c) = add no_candidates c

-- The version candidates of an input.
unfoldable pub versions_for : VersionsDb → InputConfig → VersionCandidates
unfolding add_found
versions_for db config = elim config.passed [
  | [] ↦
      if config.use_every_version
      then all_versions_of_resource db config.resource_id
      else if not (config.pinned_version_id == 0)
      then add_found (find_version_of_resource db config.resource_id config.pinned_version_id)
      else add_found (latest_version_of_resource db config.resource_id)
  | j ∷ jobs ↦ versions_of_resource_passed_jobs db config.resource_id (j ∷ jobs)
]

unfoldable pub input_of : VersionsDb → InputConfig → InputCandidates
unfolding versions_for
input_of db config = record {
  input = config.name;
  passed = config.passed;
  use_every_version = config.use_every_version;
  pinned_version_id = config.pinned_version_id;
  resolver = record {
    build_inputs = db.build_inputs;
    job_id = config.job_id;
    resource_id = config.resource_id;
  };
  candidates = versions_for db config;
}

-- jobs = jobs.Union(inputConfig.Passed), for an input with passed jobs
unfoldable pub add_passed : List ℕ → List ℕ → List ℕ
add_passed jobs [] = jobs
add_passed jobs (j ∷ passed) = union jobs (j ∷ passed)

-- The first loop: `none` where an input has no candidate.
unfoldable pub gather :
    VersionsDb
    → List ℕ
    → List InputCandidates
    → List InputConfig
    → Option (List ℕ × List InputCandidates)
unfolding input_of add_passed
gather db jobs acc [] = some (jobs, acc)
gather db jobs acc (config ∷ configs) =
    let c = input_of db config in
    let rest = gather db (add_passed jobs config.passed) (acc ++ c ∷ []) configs in
    if is_empty c.candidates then none else rest

-- basicMapping[inputName]: 0 where the name is missing
unfoldable pub version_at : String → ResolvedInputs → ℕ
version_at name [] = 0
version_at name ((n, id) ∷ m) = if str_eq n name then id else version_at name m

abbrev pub InputMapping : Type 0
InputMapping = List (String × InputVersion)

-- mapping[inputName] = version
unfoldable pub put_input : String → InputVersion → InputMapping → InputMapping
put_input name v [] = (name, v) ∷ []
put_input name v ((n, w) ∷ m) = if str_eq n name then (name, v) ∷ m else (n, w) ∷ put_input name v m

-- The last loop.
unfoldable pub mapping_from :
    VersionsDb → ResolvedInputs → InputMapping → List InputConfig → InputMapping
unfolding version_at put_input
mapping_from db basic acc [] = acc
mapping_from db basic acc (config ∷ configs) =
    let id = version_at config.name basic in
    mapping_from db basic
      (put_input config.name
        (record {
          version_id = id;
          first_occurrence = is_first_occurrence id config.job_id config.name db.build_inputs;
        })
        acc)
      configs

pub data Resolution : Type 0 where
  no_answer unresolved : Resolution
  resolved : InputMapping → Resolution

unfoldable pub resolution_of : VersionsDb → List InputConfig → Answer → Resolution
unfolding mapping_from
resolution_of db configs out_of_fuel = no_answer
resolution_of db configs not_found = unresolved
resolution_of db configs (found basic) = resolved (mapping_from db basic [] configs)

-- A search is at most as deep as there are inputs, and looks once more below the last one.
unfoldable pub resolve : VersionsDb → List InputConfig → Resolution
unfolding gather resolution_of
resolve db configs = elim (gather db [] [] configs) [
  | none ↦ unresolved
  | some (jobs, cs) ↦ resolution_of db configs (reduce (suc (length configs)) jobs cs)
]
