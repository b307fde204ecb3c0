-- ===== src/Algorithm/Candidates/Consistent.antt =====
-- The build ids kept beside the versions are those that the versions passed.
use atc.Prelude.{ℕ, ◌≡◌, inl, inr, Option-cases, List, [], ◌∷◌, arith}
use atc.Algorithm.Sets.{empty, has, has-absorb, has-add_build}
use atc.Algorithm.Versions.{VersionCandidate, Version, new_version}
use atc.Algorithm.Versions.Members.{
  in_versions, has-empty, in_versions-merge, in_versions-with_candidate,
}
use atc.Algorithm.Candidates.{
  VersionCandidates, no_candidates, add, merge_version, find_id, intersect_into,
  intersect_by_version, prune, for_version,
}

pub record IsConsistent (vc : VersionCandidates) : Type 0 where
  pub agree : (j b : ℕ) → has j b vc.build_ids ≡ in_versions j b vc.versions

pub no_candidates-IsConsistent : IsConsistent no_candidates
unfolding in_versions
no_candidates-IsConsistent = record { agree = λ j b. has-empty j b }

-- If the build ids beside the versions are those of the versions, adding a candidate keeps them so.
pub add-IsConsistent :
    (vc : VersionCandidates) (c : VersionCandidate) → IsConsistent vc → IsConsistent (add vc c)
unfolding add new_version
add-IsConsistent vc c h = record {
  agree = λ j b. ground (
    arith,
    in_versions-with_candidate j b vc.versions c,
    h.agree j b,
    has-add_build j b c.job_id c.build_id vc.build_ids,
    has-add_build j b c.job_id c.build_id empty,
    has-empty j b,
  );
}

pub merge_version-IsConsistent :
    (vc : VersionCandidates) (v : Version) → IsConsistent vc → IsConsistent (merge_version vc v)
unfolding merge_version
merge_version-IsConsistent vc v h = record {
  agree = λ j b. ground (
    arith,
    in_versions-merge j b vc.versions v,
    h.agree j b,
    has-absorb j b vc.build_ids v.passed,
  );
}

intersect_into-IsConsistent :
    (acc : VersionCandidates) (vs others : List Version)
    → IsConsistent acc
    → IsConsistent (intersect_into acc vs others)
unfolding intersect_into
intersect_into-IsConsistent acc [] others h = h
intersect_into-IsConsistent acc (v ∷ vs) others h = elim (Option-cases (find_id v.id others)) [
  | inl e ↦ rw e (intersect_into-IsConsistent acc vs others h)
  | inr (w, e) ↦ rw e (
      intersect_into-IsConsistent (merge_version (merge_version acc w) v) vs others
        (merge_version-IsConsistent (merge_version acc w) v (merge_version-IsConsistent acc w h)))
]

pub intersect_by_version-IsConsistent :
    (vc other : VersionCandidates) → IsConsistent (intersect_by_version vc other)
unfolding intersect_by_version
intersect_by_version-IsConsistent vc other =
    intersect_into-IsConsistent no_candidates vc.versions other.versions no_candidates-IsConsistent

pub prune-IsConsistent :
    (j : ℕ) (bs : List ℕ) (vc : VersionCandidates) → IsConsistent vc → IsConsistent (prune j bs vc)
unfolding prune
prune-IsConsistent j bs vc h = record { agree = h.agree }

pub for_version-IsConsistent : (id : ℕ) (vc : VersionCandidates) → IsConsistent (for_version id vc)
unfolding for_version
for_version-IsConsistent id vc = elim (Option-cases (find_id id vc.versions)) [
  | inl e ↦ rw (e, for_version) no_candidates-IsConsistent
  | inr (v, e) ↦
      rw (e, for_version) (merge_version-IsConsistent no_candidates v no_candidates-IsConsistent)
]
