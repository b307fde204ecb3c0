-- ===== src/Algorithm/Tests.antt =====
-- A small versions database: what the search answers, and the theorems at it.
use Prim.Native.String.{String}
use atc.Prelude.{ℕ, ◌≤◌, ◌≡◌, ◌≢◌, refl, true, false, some, List, [], ◌∷◌, All, Any, arith}
use atc.Algorithm.Sets.{
  empty, contains, insert, insert_all, union, find, builds, put, add_build, absorb, overlaps,
}
use atc.Algorithm.Search.{search}
use atc.Algorithm.Versions.{
  VersionCandidate, Version, with_candidate, merge, put_version, place, order_at_most, insert_at,
  passed_any, new_version, record_build, absorb_version,
}
use atc.Algorithm.Candidates.{
  VersionCandidates, no_candidates, add, merge_version, is_empty, len, find_id, for_version, check,
  peek, prune, build_ids_of,
}
use atc.Algorithm.Candidates.Consistent.{IsConsistent, add-IsConsistent, no_candidates-IsConsistent}
use atc.Algorithm.Database.{
  BuildOutput, VersionsDb, versions_of_resource_passed_jobs, versions_passed_job,
  latest_version_of_resource, order_so_far, is_first_occurrence, exists_build,
}
use atc.Algorithm.Inputs.{
  InputCandidates, found, out_of_fuel, reduce, reduce_from, prune_to_common_builds, pin,
  put_resolved, ResolvedInputs,
}
use atc.Algorithm.Inputs.Termination.{reduce-terminates}
use atc.Algorithm.Inputs.Solution.{IsSolution, IsReady}
use atc.Algorithm.Inputs.Soundness.{reduce-IsSolution}
use atc.Algorithm.Resolve.{InputConfig, Resolution, resolved, resolve, no_answer}
use atc.Algorithm.Database.Passed.{HasRank, IsPassed}
use atc.Algorithm.Database.Provenance.{candidates-IsPassed}
use atc.Algorithm.Database.Latest.{IsOf, latest_version_lem}
use atc.Algorithm.Versions.Upsert.{upsert, insertion-upsert}
use atc.Algorithm.Resolve.Total.{resolve-terminates}

abbrev output : ℕ → ℕ → ℕ → BuildOutput
output version resource build = record {
  resource_version = record { version_id = version; resource_id = resource; check_order = version };
  build_id = build;
  job_id = 7;
}

-- Builds 1 and 2 of job 7: resource 1 had versions 11 and 12, and resource 2 had 21 in build 2.
abbrev small_db : VersionsDb
small_db = record {
  resource_versions = [];
  build_outputs = output 11 1 1 ∷ output 12 1 2 ∷ output 21 2 2 ∷ [];
  build_inputs = [];
  job_ids = [];
  resource_ids = [];
}

abbrev config : String → ℕ → ℕ → InputConfig
config name resource pin = record {
  name = name;
  job_name = "build";
  passed = 7 ∷ [];
  use_every_version = false;
  pinned_version_id = pin;
  resource_id = resource;
  job_id = 8;
}

-- `resolve`, with all that it calls opened.
evaluate : VersionsDb → List InputConfig → Resolution
unfolding resolve reduce reduce_from prune_to_common_builds versions_of_resource_passed_jobs
    with_candidate merge search insert_at put_version place order_at_most contains insert insert_all
    union find builds put add_build absorb overlaps passed_any add merge_version is_empty len
    find_id for_version check peek prune build_ids_of is_first_occurrence exists_build
    versions_passed_job pin put_resolved
evaluate = resolve

-- Pinned to version 11, which no build had together with 21, the input is resolved to it all the
-- same: a pinned input is not pruned again.
resolves_apart :
    resolve small_db (config "a" 1 11 ∷ config "b" 2 0 ∷ [])
    ≡ resolved (
        ("a", record { version_id = 11; first_occurrence = true })
        ∷ ("b", record { version_id = 21; first_occurrence = true })
        ∷ [])
unfolding evaluate
resolves_apart = refl

-- An input with one candidate is taken as it is, also where another version is pinned.
ignores_pin :
    resolve small_db (config "b" 2 99 ∷ [])
    ≡ resolved (("b", record { version_id = 21; first_occurrence = true }) ∷ [])
unfolding evaluate
ignores_pin = refl

resolve-terminates_example : resolve small_db (config "a" 1 0 ∷ config "b" 2 0 ∷ []) ≢ no_answer
resolve-terminates_example = resolve-terminates small_db (config "a" 1 0 ∷ config "b" 2 0 ∷ [])

abbrev candidate : ℕ → ℕ → VersionCandidate
candidate version build = record {
  version_id = version;
  build_id = build;
  job_id = 7;
  check_order = version;
}

abbrev input_named : String → VersionCandidates → InputCandidates
input_named name vc = record {
  input = name;
  passed = 7 ∷ [];
  use_every_version = false;
  pinned_version_id = 0;
  resolver = record { build_inputs = []; job_id = 8; resource_id = 1 };
  candidates = vc;
}

abbrev two_inputs : List InputCandidates
two_inputs =
    input_named "a" (add (add no_candidates (candidate 11 1)) (candidate 12 2))
    ∷ input_named "b" (add no_candidates (candidate 21 2))
    ∷ []

two_inputs-IsReady : All IsReady two_inputs
two_inputs-IsReady = (
  record {
    unpinned = refl;
    consistent =
        add-IsConsistent (add no_candidates (candidate 11 1)) (candidate 12 2)
          (add-IsConsistent no_candidates (candidate 11 1) no_candidates-IsConsistent);
  },
  (
    record {
      unpinned = refl;
      consistent = add-IsConsistent no_candidates (candidate 21 2) no_candidates-IsConsistent;
    },
    tt,
  ),
)

abbrev two_resolved : ResolvedInputs
two_resolved = ("a", 12) ∷ ("b", 21) ∷ []

two_inputs-found : reduce 3 (7 ∷ []) two_inputs ≡ found two_resolved
unfolding evaluate
two_inputs-found = refl

reduce-IsSolution_example : IsSolution (7 ∷ []) two_inputs two_resolved
reduce-IsSolution_example =
    reduce-IsSolution 3 (7 ∷ []) two_inputs two_resolved two_inputs-IsReady two_inputs-found

reduce-terminates_example : reduce 3 (7 ∷ []) two_inputs ≢ out_of_fuel
unfolding evaluate
reduce-terminates_example = reduce-terminates 3 (7 ∷ []) two_inputs (omega arith)

add-IsConsistent_example : IsConsistent (add no_candidates (candidate 11 1))
add-IsConsistent_example =
    add-IsConsistent no_candidates (candidate 11 1) no_candidates-IsConsistent

small_db-HasRank : All (HasRank (λ n. n)) small_db.build_outputs
small_db-HasRank = (refl, (refl, (refl, tt)))

candidates-IsPassed_example :
    All
      (IsPassed (λ n. n) small_db.build_outputs 1 (7 ∷ []))
      (versions_of_resource_passed_jobs small_db 1 (7 ∷ [])).versions
candidates-IsPassed_example =
    candidates-IsPassed (λ n. n) small_db 1 (7 ∷ []) small_db-HasRank (omega arith, tt)

abbrev newer : Version
newer = record { id = 12; order = 12; passed = empty }

abbrev older : Version
older = record { id = 11; order = 11; passed = empty }

insertion-upsert_example :
    (with_candidate (newer ∷ older ∷ []) (candidate 11 2)
      ≡ upsert (new_version (candidate 11 2)) (record_build (candidate 11 2)) (newer ∷ older ∷ []))
    × (merge (newer ∷ older ∷ []) older ≡ upsert older (absorb_version older) (newer ∷ older ∷ []))
insertion-upsert_example =
    insertion-upsert (newer ∷ older ∷ []) (candidate 11 2) older (omega arith, (tt, tt))

abbrev listed_db : VersionsDb
listed_db = record small_db {
  resource_versions =
      record { version_id = 11; resource_id = 1; check_order = 3 }
      ∷ record { version_id = 12; resource_id = 1; check_order = 5 }
      ∷ [];
}

latest_version_lem_example :
    All
      (λ v.
        v.resource_id ≡ 1 → v.check_order ≤ order_so_far (latest_version_of_resource listed_db 1))
      listed_db.resource_versions
    × ((c : VersionCandidate)
        → latest_version_of_resource listed_db 1 ≡ some c
        → Any (IsOf 1 c) listed_db.resource_versions)
latest_version_lem_example = latest_version_lem listed_db 1
