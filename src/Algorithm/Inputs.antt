-- ===== src/Algorithm/Inputs.antt =====
-- InputCandidates (db/algorithm/input_candidates.go): the search for versions of all inputs that
-- went through the jobs together.
pub mod Termination
pub mod Solution
pub mod Soundness
pub mod Pruning
use Prim.Native.String.{String}
use text.Mathlib.Text.{◌==◌ as str_eq}
use atc.Prelude.{
  ℕ, zero, suc, Bool, true, false, not, ◌&&◌, ◌||◌, Option, none, some, List, [], ◌∷◌, ◌++◌, ◌==◌,
  if◌then◌else◌,
}
use atc.Algorithm.Sets.{contains}
use atc.Algorithm.Versions.{Version}
use atc.Algorithm.Candidates.{
  Constraint, VersionCandidates, check, peek, len, prune, build_ids_of, for_version,
}
use atc.Algorithm.Database.{ExistingBuildResolver, exists_build, exists_for_version}

-- InputVersionCandidates. `UsingEveryVersion` has a value receiver, so what it stores in
-- `usingEveryVersion` is lost with the copy, and the field is always nil.
pub record InputCandidates : Type 0 where
  pub input : String
  pub passed : List ℕ
  pub use_every_version : Bool
  pub pinned_version_id : ℕ
  pub resolver : ExistingBuildResolver
  pub candidates : VersionCandidates

unfoldable pub using_every_version : InputCandidates → Bool
using_every_version c = c.use_every_version && exists_build c.resolver

-- InputVersionCandidates.IsNext, with the versions that the iterator has left.
unfoldable pub is_next : InputCandidates → ℕ → List Version → Bool
unfolding using_every_version
is_next c version left =
    if not (using_every_version c)
    then true
    else if exists_for_version c.resolver version
    then true
    else elim (peek c.candidates.constraints left) [
      | none ↦ true
      | some next ↦ exists_for_version c.resolver next
    ]

-- The keys of `commonBuildIDs` that stay when the builds of one more input are met.
unfoldable pub keep_common : List ℕ → List ℕ → List ℕ
keep_common [] builds = []
keep_common (b ∷ bs) builds =
    let rest = keep_common bs builds in if contains b builds then b ∷ rest else rest

-- One round of the loop of InputCandidates.commonBuildIDs: `none` while firstTick is true.
unfoldable pub meet : Option (List ℕ) → List ℕ → Option (List ℕ)
unfolding keep_common
meet acc [] = acc
meet none (b ∷ bs) = some (b ∷ bs)
meet (some common) (b ∷ bs) = some (keep_common common (b ∷ bs))

unfoldable pub common_from : ℕ → Option (List ℕ) → List InputCandidates → List ℕ
common_from job_id none [] = []
common_from job_id (some common) [] = common
common_from job_id acc (c ∷ cs) =
    common_from job_id (meet acc (build_ids_of c.candidates job_id)) cs

-- InputCandidates.commonBuildIDs
unfoldable pub common_build_ids : ℕ → List InputCandidates → List ℕ
unfolding common_from meet
common_build_ids job_id cs = common_from job_id none cs

unfoldable pub prune_all : ℕ → List ℕ → List InputCandidates → List InputCandidates
prune_all job_id common [] = []
prune_all job_id common (c ∷ cs) =
    record c { candidates = prune job_id common c.candidates } ∷ prune_all job_id common cs

-- InputCandidates.pruneToCommonBuilds
unfoldable pub prune_to_common_builds : List ℕ → List InputCandidates → List InputCandidates
unfolding prune_all common_build_ids
prune_to_common_builds [] cs = cs
prune_to_common_builds (j ∷ jobs) cs =
    prune_to_common_builds jobs (prune_all j (common_build_ids j cs) cs)

-- InputCandidates.Pin, at the input itself. Unpin puts the input back as it was.
unfoldable pub pin : ℕ → InputCandidates → InputCandidates
pin version c = record c { candidates = for_version version c.candidates }

abbrev pub ResolvedInputs : Type 0
ResolvedInputs = List (String × ℕ)

-- resolved[input] = vid
unfoldable pub put_resolved : String → ℕ → ResolvedInputs → ResolvedInputs
put_resolved name id [] = (name, id) ∷ []
put_resolved name id ((n, i) ∷ m) =
    if str_eq n name then (name, id) ∷ m else (n, i) ∷ put_resolved name id m

-- The last loop of InputCandidates.Reduce: `none` where an input has no version left.
unfoldable pub resolve_from : ResolvedInputs → List InputCandidates → Option ResolvedInputs
resolve_from acc [] = some acc
resolve_from acc (c ∷ cs) =
    let rest = λ (id : ℕ). resolve_from (put_resolved c.input id acc) cs in
    elim (peek c.candidates.constraints c.candidates.versions) [ none ↦ none | some id ↦ rest id ]

-- What a search ends with: out of fuel, no versions (`nil, false`), or the versions found.
pub data Answer : Type 0 where
  out_of_fuel not_found : Answer
  found : ResolvedInputs → Answer

abbrev pub answer_of : Option ResolvedInputs → Answer
answer_of none = not_found
answer_of (some m) = found m

module _ (search_pinned : List InputCandidates → Answer) (before : List InputCandidates)
    (c : InputCandidates) (after : List InputCandidates) where
  -- The inner loop of InputCandidates.Reduce over the versions that the iterator has left: the input
  -- is pinned to each in turn, and the search goes on with it.
  unfoldable pub try_versions : List Version → Answer
  unfolding is_next
  try_versions [] = not_found
  try_versions (v ∷ left) =
      let rest = try_versions left in
      if check c.candidates.constraints v
      then elim (search_pinned (before ++ pin v.id c ∷ after)) [
        | out_of_fuel ↦ out_of_fuel
        | not_found ↦ rest
        | found m ↦ if is_next c v.id left then found m else rest
      ]
      else rest

-- The outer loop of InputCandidates.Reduce: `before` are the inputs already passed.
unfoldable pub reduce_from :
    (List InputCandidates → Answer) → List InputCandidates → List InputCandidates → Answer
unfolding resolve_from try_versions
reduce_from search_pinned before [] = answer_of (resolve_from [] before)
reduce_from search_pinned before (c ∷ after) =
    let step_on = λ (c' : InputCandidates). reduce_from search_pinned (before ++ c' ∷ []) after in
    if len c.candidates == 1
    then step_on c
    else if not (c.pinned_version_id == 0)
    then step_on (pin c.pinned_version_id c)
    else try_versions search_pinned before c after c.candidates.versions

-- InputCandidates.Reduce, with fuel for the depth of the search.
unfoldable pub reduce : ℕ → List ℕ → List InputCandidates → Answer
reduce zero jobs cs = out_of_fuel
reduce (suc fuel) jobs cs = reduce_from (reduce fuel jobs) [] (prune_to_common_builds jobs cs)
