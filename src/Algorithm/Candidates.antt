-- ===== src/Algorithm/Candidates.antt =====
-- VersionCandidates and its iterator (db/algorithm/version_candidates.go), and Constraints
-- (db/algorithm/constraint.go).
pub mod Consistent
use atc.Prelude.{
  ℕ, Bool, true, false, ◌&&◌, Option, none, some, List, [], ◌∷◌, ◌++◌, length, ◌==◌, if◌then◌else◌,
}
use atc.Algorithm.Sets.{BuildMap, empty, builds, add_build, absorb}
use atc.Algorithm.Versions.{VersionCandidate, Version, passed_any, with_candidate, merge}

abbrev pub Constraint : Type 0
Constraint = Version → Bool

-- Constraints.Check
unfoldable pub check : List Constraint → Version → Bool
check [] v = true
check (c ∷ cs) v = c v && check cs v

-- A nil map of build ids is an empty one.
pub record VersionCandidates : Type 0 where
  pub versions : List Version
  pub constraints : List Constraint
  pub build_ids : BuildMap

abbrev pub no_candidates : VersionCandidates
no_candidates = record { versions = []; constraints = []; build_ids = empty }

-- VersionCandidates.Add
unfoldable pub add : VersionCandidates → VersionCandidate → VersionCandidates
add vc c = record vc {
  versions = with_candidate vc.versions c;
  build_ids = if c.job_id == 0 then vc.build_ids else add_build c.job_id c.build_id vc.build_ids;
}

-- VersionCandidates.Merge
unfoldable pub merge_version : VersionCandidates → Version → VersionCandidates
merge_version vc v = record vc {
  versions = merge vc.versions v;
  build_ids = absorb vc.build_ids v.passed;
}

unfoldable pub is_empty : VersionCandidates → Bool
is_empty vc = length vc.versions == 0

unfoldable pub len : VersionCandidates → ℕ
len vc = length vc.versions

-- The first version with an id.
unfoldable pub find_id : ℕ → List Version → Option Version
find_id id [] = none
find_id id (v ∷ vs) = if v.id == id then some v else find_id id vs

-- The loop of VersionCandidates.IntersectByVersion.
unfoldable pub intersect_into : VersionCandidates → List Version → List Version → VersionCandidates
intersect_into acc [] others = acc
intersect_into acc (v ∷ vs) others =
    let acc' : VersionCandidates = elim (find_id v.id others) [
      | none ↦ acc
      | some w ↦ merge_version (merge_version acc w) v
    ] in
    intersect_into acc' vs others

unfoldable pub intersect_by_version : VersionCandidates → VersionCandidates → VersionCandidates
unfolding intersect_into
intersect_by_version vc other = intersect_into no_candidates vc.versions other.versions

unfoldable pub build_ids_of : VersionCandidates → ℕ → List ℕ
build_ids_of vc job_id = builds job_id vc.build_ids

-- VersionCandidates.PruneVersionsOfOtherBuildIDs: Constraints.And adds the constraint at the end.
unfoldable pub prune : ℕ → List ℕ → VersionCandidates → VersionCandidates
prune job_id build_ids vc = record vc {
  constraints = vc.constraints ++ (λ v. passed_any v job_id build_ids) ∷ [];
}

-- VersionsIter.Peek and the value of VersionsIter.Next, on the versions from the offset on: the
-- versions that fail a constraint are passed over, and a later call passes them over again.
unfoldable pub peek : List Constraint → List Version → Option ℕ
peek cs [] = none
peek cs (v ∷ vs) = if check cs v then some v.id else peek cs vs

-- VersionCandidates.ForVersion
unfoldable pub for_version : ℕ → VersionCandidates → VersionCandidates
for_version id vc = elim (find_id id vc.versions) [
  | none ↦ no_candidates
  | some v ↦ merge_version no_candidates v
]
