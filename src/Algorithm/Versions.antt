-- ===== src/Algorithm/Versions.antt =====
-- Version and Versions (db/algorithm/version.go): the versions of a resource, newest first.
pub mod Order
pub mod Upsert
pub mod Members
use atc.Prelude.{
  ℕ, zero, suc, Bool, true, false, Option, none, some, List, [], ◌∷◌, ◌++◌, length, get_elem?, set,
  leb, ◌==◌, if◌then◌else◌,
}
use atc.Algorithm.Sets.{BuildMap, empty, find, overlaps, add_build, absorb}
use atc.Algorithm.Search.{search}

-- VersionCandidate (db/algorithm/version_candidates.go). A job_id of 0 stands for no job.
pub record VersionCandidate : Type 0 where
  pub version_id : ℕ
  pub build_id : ℕ
  pub job_id : ℕ
  pub check_order : ℕ

pub record Version : Type 0 where
  pub id : ℕ
  pub order : ℕ
  pub passed : BuildMap

unfoldable pub new_version : VersionCandidate → Version
unfolding add_build
new_version c = record {
  id = c.version_id;
  order = c.check_order;
  passed = if c.job_id == 0 then empty else add_build c.job_id c.build_id empty;
}

-- A version that no build of the job produced passes any set of its builds.
unfoldable pub passed_any : Version → ℕ → List ℕ → Bool
passed_any v job_id builds = elim (find job_id v.passed) [
  | none ↦ true
  | some bs ↦ overlaps bs builds
]

-- vs[i].order <= order
unfoldable pub order_at_most : List Version → ℕ → ℕ → Bool
order_at_most vs order i = elim (get_elem? vs i) [ none ↦ true | some v ↦ leb v.order order ]

unfoldable pub place : List Version → ℕ → ℕ
place vs order = search (length vs) (order_at_most vs order)

-- vs = append(vs, Version{}); copy(vs[i+1:], vs[i:]); vs[i] = v
unfoldable pub insert_at : ℕ → Version → List Version → List Version
insert_at zero v vs = v ∷ vs
insert_at (suc i) v [] = v ∷ []
insert_at (suc i) v (w ∷ vs) = w ∷ insert_at i v vs

-- `known` is what becomes of the version at the place found, if it has the id.
unfoldable pub put_version : Version → (Version → Version) → List Version → List Version
put_version new known vs =
    let i = place vs new.order in
    if i == length vs then vs ++ new ∷ [] else elim (get_elem? vs i) [
      | none ↦ vs
      | some v ↦ if v.id == new.id then set vs i (known v) else insert_at i new vs
    ]

-- A build of the candidate's job is recorded at a version that is there.
unfoldable pub record_build : VersionCandidate → Version → Version
record_build c v =
    if c.job_id == 0 then v else record v { passed = add_build c.job_id c.build_id v.passed }

-- Versions.With
unfoldable pub with_candidate : List Version → VersionCandidate → List Version
unfolding new_version record_build
with_candidate vs c = put_version (new_version c) (record_build c) vs

unfoldable pub absorb_version : Version → Version → Version
absorb_version w v = record v { passed = absorb v.passed w.passed }

-- Versions.Merge
unfoldable pub merge : List Version → Version → List Version
unfolding absorb_version
merge vs w = put_version w (absorb_version w) vs
