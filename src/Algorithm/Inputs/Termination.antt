-- ===== src/Algorithm/Inputs/Termination.antt =====
-- The search ends: each input that is pinned is settled for the rest of the search.
use atc.Prelude.{
  ℕ, zero, suc, ◌+◌, ◌≤◌, ◌<◌, ◌≡◌, ◌≢◌, refl, ap, inl, inr, Bool, true, false, Option, none, some,
  List, [], ◌∷◌, ◌++◌, length, ◌==◌, if◌then◌else◌, arith, Bool-cases, All,
}
use atc.Algorithm.Search.{search}
use atc.Algorithm.Versions.{Version, merge, put_version, place}
use atc.Algorithm.Candidates.{
  VersionCandidates, no_candidates, len, find_id, for_version, merge_version, prune,
}
use atc.Algorithm.Inputs.{
  InputCandidates, ResolvedInputs, prune_all, prune_to_common_builds, common_build_ids, pin, Answer,
  out_of_fuel, resolve_from, answer_of, try_versions, reduce_from, reduce,
}

-- An input is settled if it has one version or is pinned by its configuration.
abbrev pub weight : InputCandidates → ℕ
weight c = if len c.candidates == 1 then 0 else if c.pinned_version_id == 0 then 1 else 0

abbrev pub unsettled : List InputCandidates → ℕ
unsettled [] = 0
unsettled (c ∷ cs) = weight c + unsettled cs

abbrev finished : Answer → Bool
finished out_of_fuel = false
finished _ = true

unsettled-append :
    (xs ys : List InputCandidates) → unsettled (xs ++ ys) ≡ unsettled xs + unsettled ys
unsettled-append [] ys = omega arith
unsettled-append (x ∷ xs) ys = omega (arith, unsettled-append xs ys)

unsettled-prune_all :
    (j : ℕ) (bs : List ℕ) (cs : List InputCandidates) → unsettled (prune_all j bs cs) ≡ unsettled cs
unfolding prune_all prune len
unsettled-prune_all j bs [] = refl
unsettled-prune_all j bs (c ∷ cs) = rw (unsettled-prune_all j bs cs)

pub unsettled-prune :
    (jobs : List ℕ) (cs : List InputCandidates)
    → unsettled (prune_to_common_builds jobs cs) ≡ unsettled cs
unfolding prune_to_common_builds
unsettled-prune [] cs = refl
unsettled-prune (j ∷ jobs) cs =
    rw (unsettled-prune jobs (prune_all j (common_build_ids j cs) cs))
      (unsettled-prune_all j (common_build_ids j cs) cs)

len-merge_version : (v : Version) → len (merge_version no_candidates v) ≡ 1
unfolding len merge_version merge put_version place search
len-merge_version v = refl

len-for_version :
    (id : ℕ) (vc : VersionCandidates) {v : Version}
    → find_id id vc.versions ≡ some v
    → len (for_version id vc) ≡ 1
unfolding for_version
len-for_version id vc {v} e = rw (e, for_version) (len-merge_version v)

-- The versions left to try are found by their ids.
abbrev AreFound : List Version → List Version → Type 0
AreFound all = All (λ v. (w : Version) × (find_id v.id all ≡ some w))

AreFound-cons : (u : Version) (all vs : List Version) → AreFound all vs → AreFound (u ∷ all) vs
unfolding find_id
AreFound-cons u all [] h = tt
AreFound-cons u all (v ∷ vs) h = (
  elim (Bool-cases (u.id == v.id)) [ inl e ↦ (u, rw e) | inr e ↦ (h.0.0, rw e h.0.1) ],
  AreFound-cons u all vs h.1,
)

AreFound-self : (vs : List Version) → AreFound vs vs
unfolding find_id
AreFound-self [] = tt
AreFound-self (v ∷ vs) = ((v, ground arith), AreFound-cons v vs vs (AreFound-self vs))

weight-pin_found :
    (id : ℕ) (c : InputCandidates) {v : Version}
    → find_id id c.candidates.versions ≡ some v
    → weight (pin id c) ≡ 0
unfolding pin
weight-pin_found id c e = rw (len-for_version id c.candidates e)

finished-answer_of : (o : Option ResolvedInputs) → finished (answer_of o) ≡ true
finished-answer_of none = refl
finished-answer_of (some m) = refl

weight-pin_pinned :
    (c : InputCandidates)
    → (c.pinned_version_id == 0) ≡ false
    → weight (pin c.pinned_version_id c) ≡ 0
unfolding pin
weight-pin_pinned c e = ground arith

module _ (search_pinned : List InputCandidates → Answer) (n : ℕ)
    (ends : (cs : List InputCandidates)
      → unsettled cs < n
      → finished (search_pinned cs) ≡ true) where
  try_versions-finished :
      (before : List InputCandidates) (c : InputCandidates) (after : List InputCandidates)
      (left : List Version)
      → unsettled before + unsettled after < n
      → AreFound c.candidates.versions left
      → finished (try_versions search_pinned before c after left) ≡ true
  unfolding try_versions
  try_versions-finished before c after [] lt h = refl
  try_versions-finished before c after (v ∷ left) lt h = ground (
    arith,
    try_versions-finished before c after left lt h.1,
    ends (before ++ pin v.id c ∷ after) (
        omega (arith, unsettled-append before (pin v.id c ∷ after), weight-pin_found v.id c h.0.1)),
  )

  reduce_from-finished :
      (before cs : List InputCandidates)
      → unsettled before + unsettled cs ≤ n
      → finished (reduce_from search_pinned before cs) ≡ true
  unfolding reduce_from
  reduce_from-finished before [] h = finished-answer_of (resolve_from [] before)
  reduce_from-finished before (c ∷ after) h = elim (Bool-cases (len c.candidates == 1)) [
    | inl one ↦ rw one (
        reduce_from-finished (before ++ c ∷ []) after
          (omega (arith, unsettled-append before (c ∷ []), h)))
    | inr many ↦ elim (Bool-cases (c.pinned_version_id == 0)) [
      | inr pinned ↦
          rw (many, pinned)
            (reduce_from-finished (before ++ pin c.pinned_version_id c ∷ []) after (
              omega (
                arith,
                unsettled-append before (pin c.pinned_version_id c ∷ []),
                weight-pin_pinned c pinned,
                h,
              )))
      | inl free ↦
          rw (many, free)
            (try_versions-finished before c after c.candidates.versions (ground arith)
              (AreFound-self c.candidates.versions))
    ]
  ]

finished-reduce :
    (fuel : ℕ) (jobs : List ℕ) (cs : List InputCandidates)
    → unsettled cs < fuel
    → finished (reduce fuel jobs cs) ≡ true
unfolding reduce
finished-reduce zero jobs cs h = absurd (omega arith)
finished-reduce (suc fuel) jobs cs h =
    reduce_from-finished (reduce fuel jobs) fuel (finished-reduce fuel jobs) []
      (prune_to_common_builds jobs cs) (omega (arith, unsettled-prune jobs cs))

-- The search for versions never runs out of fuel if it has more fuel than there are inputs that
-- have not exactly one version and are not pinned by their configuration.
pub reduce-terminates :
    (fuel : ℕ) (jobs : List ℕ) (cs : List InputCandidates)
    → unsettled cs < fuel
    → reduce fuel jobs cs ≢ out_of_fuel
reduce-terminates fuel jobs cs h e = cc (finished-reduce fuel jobs cs h, ap finished e)

pub unsettled-le-length : (cs : List InputCandidates) → unsettled cs ≤ length cs
unsettled-le-length [] = omega arith
unsettled-le-length (c ∷ cs) = ground (arith, unsettled-le-length cs)
