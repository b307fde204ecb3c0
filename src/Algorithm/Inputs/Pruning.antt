-- ===== src/Algorithm/Inputs/Pruning.antt =====
-- Pruning to the common builds of a job: what is common, and what a version that is left has passed.
use atc.Prelude.{
  ℕ, ◌≡◌, refl, ap, ◌∙◌, ◌⊎◌, inl, inr, true, ◌&&◌, Option, none, some, List, [], ◌∷◌, ◌++◌, arith,
  All, Zip, subst, fun_ext, sym, and_left, and_right,
}
use atc.Algorithm.Sets.{contains, builds}
use atc.Algorithm.Versions.{Version, passed_any}
use atc.Algorithm.Candidates.{Constraint, check, prune, build_ids_of}
use atc.Algorithm.Inputs.{
  InputCandidates, keep_common, meet, common_from, common_build_ids, prune_all,
  prune_to_common_builds,
}

-- A build is in a set, unless the set is empty.
abbrev pub IsCommonTo : ℕ → List ℕ → Type 0
IsCommonTo b bs = (bs ≡ []) ⊎ (contains b bs ≡ true)

abbrev IsKept : ℕ → Option (List ℕ) → Type 0
IsKept b none = Unit
IsKept b (some common) = contains b common ≡ true

contains-keep_common :
    (b : ℕ) (xs ys : List ℕ)
    → contains b (keep_common xs ys) ≡ true
    → (contains b xs ≡ true) × (contains b ys ≡ true)
unfolding keep_common contains
contains-keep_common b [] ys h = cc
contains-keep_common b (x ∷ xs) ys h =
    ground (arith, contains-keep_common b xs ys, ap (λ z. contains z ys) {x = b} {y = x})

meet-IsKept :
    (b : ℕ) (acc : Option (List ℕ)) (bs : List ℕ)
    → IsKept b (meet acc bs)
    → IsKept b acc × IsCommonTo b bs
unfolding meet
meet-IsKept b none [] h = (tt, inl refl)
meet-IsKept b none (x ∷ bs) h = (tt, inr h)
meet-IsKept b (some common) [] h = (h, inl refl)
meet-IsKept b (some common) (x ∷ bs) h =
    let (p, q) = contains-keep_common b common (x ∷ bs) h in (p, inr q)

common_from-IsCommonTo :
    (j b : ℕ) (acc : Option (List ℕ)) (cs : List InputCandidates)
    → contains b (common_from j acc cs) ≡ true
    → IsKept b acc × All (λ c. IsCommonTo b (build_ids_of c.candidates j)) cs
unfolding common_from contains
common_from-IsCommonTo j b none [] h = cc
common_from-IsCommonTo j b (some common) [] h = (h, tt)
common_from-IsCommonTo j b none (c ∷ cs) h =
    let bs = build_ids_of c.candidates j in
    let (kept, rest) = common_from-IsCommonTo j b (meet none bs) cs h in
    (tt, ((meet-IsKept b none bs kept).1, rest))
common_from-IsCommonTo j b (some common) (c ∷ cs) h =
    let bs = build_ids_of c.candidates j in
    let (kept, rest) = common_from-IsCommonTo j b (meet (some common) bs) cs h in
    let (old, new) = meet-IsKept b (some common) bs kept in (old, (new, rest))

-- A common build is a build of every input that has builds of the job.
pub common_build_ids-IsCommonTo :
    (j b : ℕ) (cs : List InputCandidates)
    → contains b (common_build_ids j cs) ≡ true
    → All (λ c. IsCommonTo b (build_ids_of c.candidates j)) cs
unfolding common_build_ids
common_build_ids-IsCommonTo j b cs h = (common_from-IsCommonTo j b none cs h).1

-- Pruning changes no build ids, so the common builds stay as they are.
common_from-prune_all :
    (j k : ℕ) (bs : List ℕ) (acc : Option (List ℕ)) (cs : List InputCandidates)
    → common_from j acc (prune_all k bs cs) ≡ common_from j acc cs
unfolding common_from prune_all prune build_ids_of
common_from-prune_all j k bs none [] = refl
common_from-prune_all j k bs (some common) [] = refl
common_from-prune_all j k bs none (c ∷ cs) =
    common_from-prune_all j k bs (meet none (builds j c.candidates.build_ids)) cs
common_from-prune_all j k bs (some common) (c ∷ cs) =
    common_from-prune_all j k bs (meet (some common) (builds j c.candidates.build_ids)) cs

common_build_ids-prune_all :
    (j k : ℕ) (bs : List ℕ) (cs : List InputCandidates)
    → common_build_ids j (prune_all k bs cs) ≡ common_build_ids j cs
unfolding common_build_ids
common_build_ids-prune_all j k bs cs = common_from-prune_all j k bs none cs

check-append :
    (cs : List Constraint) (c : Constraint) (v : Version)
    → check (cs ++ c ∷ []) v ≡ (check cs v && c v)
unfolding check
check-append [] c v = ground arith
check-append (d ∷ cs) c v = ground (arith, check-append cs c v)

-- What an input is after pruning: the same, with more constraints, so that a version left has
-- passed one of the common builds of each job.
pub record IsPruned (jobs : List ℕ) (common : ℕ → List ℕ) (c d : InputCandidates) : Type 0 where
  pub versions : d.candidates.versions ≡ c.candidates.versions
  pub build_ids : d.candidates.build_ids ≡ c.candidates.build_ids
  pub input : d.input ≡ c.input
  pub pinned : d.pinned_version_id ≡ c.pinned_version_id
  pub checks :
      (v : Version)
      → check d.candidates.constraints v ≡ true
      → (check c.candidates.constraints v ≡ true)
        × ((j : ℕ) → contains j jobs ≡ true → passed_any v j (common j) ≡ true)

IsPruned-refl : (common : ℕ → List ℕ) (c : InputCandidates) → IsPruned [] common c c
unfolding contains
IsPruned-refl common c = record {
  versions = refl;
  build_ids = refl;
  input = refl;
  pinned = refl;
  checks = λ v h. (h, λ j k. cc);
}

IsPruned-step :
    (j : ℕ) (jobs : List ℕ) (common : ℕ → List ℕ) (c d : InputCandidates)
    → IsPruned jobs common (record c { candidates = prune j (common j) c.candidates }) d
    → IsPruned (j ∷ jobs) common c d
unfolding prune contains
IsPruned-step j jobs common c d h = record {
  versions = h.versions;
  build_ids = h.build_ids;
  input = h.input;
  pinned = h.pinned;
  checks = λ v k.
      let (old, new) = h.checks v k in
      let both =
        sym (check-append c.candidates.constraints (λ u. passed_any u j (common j)) v) ∙ old in
      let here : passed_any v j (common j) ≡ true =
        and_right (check c.candidates.constraints v) both in
      (
        and_left _ both,
        λ i m. ground (arith, here, new i, ap (λ n. passed_any v n (common n)) {x = i} {y = j}),
      );
}

Zip-prune_all :
    (j : ℕ) (jobs : List ℕ) (common : ℕ → List ℕ) (cs ds : List InputCandidates)
    → Zip (IsPruned jobs common) (prune_all j (common j) cs) ds
    → Zip (IsPruned (j ∷ jobs) common) cs ds
unfolding prune_all
Zip-prune_all j jobs common [] [] h = tt
Zip-prune_all j jobs common [] (d ∷ ds) h = h
Zip-prune_all j jobs common (c ∷ cs) [] h = h
Zip-prune_all j jobs common (c ∷ cs) (d ∷ ds) h =
    (IsPruned-step j jobs common c d h.0, Zip-prune_all j jobs common cs ds h.1)

Zip-refl : (common : ℕ → List ℕ) (cs : List InputCandidates) → Zip (IsPruned [] common) cs cs
Zip-refl common [] = tt
Zip-refl common (c ∷ cs) = (IsPruned-refl common c, Zip-refl common cs)

-- Pruning for all jobs prunes each input to the common builds of all inputs.
pub prune_to_common_builds-IsPruned :
    (jobs : List ℕ) (cs : List InputCandidates)
    → Zip (IsPruned jobs (λ j. common_build_ids j cs)) cs (prune_to_common_builds jobs cs)
unfolding prune_to_common_builds
prune_to_common_builds-IsPruned [] cs = Zip-refl (λ j. common_build_ids j cs) cs
prune_to_common_builds-IsPruned (j ∷ jobs) cs =
    let next = prune_all j (common_build_ids j cs) cs in
    let same : (λ (k : ℕ). common_build_ids k next) ≡ (λ k. common_build_ids k cs) =
      fun_ext (λ k. common_build_ids-prune_all k j (common_build_ids j cs) cs) in
    Zip-prune_all j jobs (λ k. common_build_ids k cs) cs (prune_to_common_builds jobs next)
      (subst (λ f. Zip (IsPruned jobs f) next (prune_to_common_builds jobs next)) same
        (prune_to_common_builds-IsPruned jobs next))
