-- ===== src/Algorithm/Inputs/Solution.antt =====
-- What a found answer must be: a version for each input, such that for every job one of its builds
-- is a build of all the versions that passed the job.
use Prim.Native.String.{String}
use atc.Prelude.{
  ℕ, ◌≡◌, refl, ap, ◌∙◌, ◌⊎◌, inl, inr, Bool, true, false, not, ◌||◌, some, List, [], ◌∷◌, ◌==◌,
  arith, Bool-cases, All, Any, Zip, subst, sym, length_one,
}
use atc.Algorithm.Sets.{contains, is_key, find, builds, has, overlaps_witness}
use atc.Algorithm.Versions.{Version, passed_any}
use atc.Algorithm.Versions.Members.{in_versions}
use atc.Algorithm.Candidates.{check, peek, len, build_ids_of}
use atc.Algorithm.Candidates.Consistent.{IsConsistent}
use atc.Algorithm.Inputs.{
  InputCandidates, common_build_ids, ResolvedInputs, put_resolved, resolve_from,
}
use atc.Algorithm.Inputs.Pruning.{IsPruned, IsCommonTo, common_build_ids-IsCommonTo}

-- If version v passed job j at all, build b of j is one that it passed.
abbrev pub passes : ℕ → ℕ → Version → Bool
passes j b v = not (is_key j v.passed) || has j b v.passed

abbrev pub IsShared : ℕ → List Version → Type 0
IsShared j vs = (b : ℕ) × All (λ v. passes j b v ≡ true) vs

abbrev pub Chooses : List InputCandidates → List Version → Type 0
Chooses = Zip (λ c v. Any (λ u. u ≡ v) c.candidates.versions)

abbrev pub names : List InputCandidates → List String
names [] = []
names (c ∷ cs) = c.input ∷ names cs

-- resolved[input] = version, input after input
abbrev pub assign : ResolvedInputs → List String → List Version → ResolvedInputs
assign acc [] vs = acc
assign acc (n ∷ ns) [] = acc
assign acc (n ∷ ns) (v ∷ vs) = assign (put_resolved n v.id acc) ns vs

pub record IsSolution (jobs : List ℕ) (cs : List InputCandidates) (m : ResolvedInputs)
    : Type 0 where
  pub choice : List Version
  pub chosen : Chooses cs choice
  pub assigned : m ≡ assign [] (names cs) choice
  pub together : (j : ℕ) → contains j jobs ≡ true → IsShared j choice

-- An input that is not pinned, with the build ids of its versions.
pub record IsReady (c : InputCandidates) : Type 0 where
  pub unpinned : c.pinned_version_id ≡ 0
  pub consistent : IsConsistent c.candidates

-- The only version of an input is left by its constraints.
abbrev IsLeft : InputCandidates → Version → Type 0
IsLeft d v = (d.candidates.versions ≡ v ∷ []) × (check d.candidates.constraints v ≡ true)

abbrev pub HasOne : InputCandidates → Type 0
HasOne d = (len d.candidates == 1) ≡ true

resolve_from-IsLeft :
    (ds : List InputCandidates) (acc m : ResolvedInputs)
    → All HasOne ds
    → resolve_from acc ds ≡ some m
    → (vs : List Version) × Zip IsLeft ds vs × (m ≡ assign acc (names ds) vs)
unfolding resolve_from peek len
resolve_from-IsLeft [] acc m h e = ([], tt, ground arith)
resolve_from-IsLeft (d ∷ ds) acc m h e =
    let (v, one) = length_one d.candidates.versions (ground arith) in
    elim (Bool-cases (check d.candidates.constraints v)) [
      | inr k ↦ absurd (ground (arith, ap (peek d.candidates.constraints) one))
      | inl k ↦
          let (vs, z, a) =
            resolve_from-IsLeft ds (put_resolved d.input v.id acc) m h.1
              (ground (arith, ap (peek d.candidates.constraints) one)) in
          (v ∷ vs, ((one, k), z), a)
    ]

-- The only version of an input has passed one of the common builds of each job, if it passed the
-- job.
abbrev IsSole : List ℕ → (ℕ → List ℕ) → InputCandidates → Version → Type 0
IsSole jobs common c v =
    (c.candidates.versions ≡ v ∷ [])
    × ((j : ℕ) → contains j jobs ≡ true → passed_any v j (common j) ≡ true)

Zip-IsSole :
    (jobs : List ℕ) (common : ℕ → List ℕ) (cs ds : List InputCandidates) (vs : List Version)
    → Zip (IsPruned jobs common) cs ds
    → Zip IsLeft ds vs
    → Zip (IsSole jobs common) cs vs
Zip-IsSole jobs common [] [] vs p q = q
Zip-IsSole jobs common [] (d ∷ ds) vs p q = elim p [ ]
Zip-IsSole jobs common (c ∷ cs) [] vs p q = elim p [ ]
Zip-IsSole jobs common (c ∷ cs) (d ∷ ds) [] p q = elim q [ ]
Zip-IsSole jobs common (c ∷ cs) (d ∷ ds) (v ∷ vs) p q =
    ((sym p.0.versions ∙ q.0.0, (p.0.checks v q.0.1).1), Zip-IsSole jobs common cs ds vs p.1 q.1)

-- A version that passed the job passed a common build.
common_of_key :
    (v : Version) (j : ℕ) (common : List ℕ)
    → passed_any v j common ≡ true
    → is_key j v.passed ≡ true
    → (b : ℕ) × (has j b v.passed ≡ true) × (contains b common ≡ true)
unfolding passed_any find has builds
common_of_key v j common h k =
    let (b, p, q) = overlaps_witness (v.passed.at j) common (ground arith) in (b, ground arith, q)

-- Either no version passed the job, or there is a common build.
common_or_none :
    (jobs : List ℕ) (common : ℕ → List ℕ) (j : ℕ) (cs : List InputCandidates) (vs : List Version)
    → contains j jobs ≡ true
    → Zip (IsSole jobs common) cs vs
    → All (λ v. is_key j v.passed ≡ false) vs ⊎ ((b : ℕ) × (contains b (common j) ≡ true))
common_or_none jobs common j [] [] m z = inl tt
common_or_none jobs common j [] (v ∷ vs) m z = elim z [ ]
common_or_none jobs common j (c ∷ cs) [] m z = elim z [ ]
common_or_none jobs common j (c ∷ cs) (v ∷ vs) m z = elim (Bool-cases (is_key j v.passed)) [
  | inl k ↦ let (b, p, q) = common_of_key v j (common j) (z.0.1 j m) k in inr (b, q)
  | inr k ↦ elim (common_or_none jobs common j cs vs m z.1) [
    | inl rest ↦ inl (k, rest)
    | inr found ↦ inr found
  ]
]

has-in_versions_one : (j b : ℕ) (v : Version) → in_versions j b (v ∷ []) ≡ has j b v.passed
unfolding in_versions
has-in_versions_one j b v = ground arith

-- The build ids of an input with one version are those of the version.
has-of_one :
    (j b : ℕ) (c : InputCandidates) (v : Version)
    → IsReady c
    → c.candidates.versions ≡ v ∷ []
    → contains b (build_ids_of c.candidates j) ≡ has j b v.passed
unfolding build_ids_of has
has-of_one j b c v r one =
    r.consistent.agree j b ∙ ap (in_versions j b) one ∙ has-in_versions_one j b v

-- A common build is a build of every version that passed the job.
passes_common :
    (jobs : List ℕ) (common : ℕ → List ℕ) (j b : ℕ) (cs : List InputCandidates) (vs : List Version)
    → contains j jobs ≡ true
    → Zip (IsSole jobs common) cs vs
    → All IsReady cs
    → All (λ c. IsCommonTo b (build_ids_of c.candidates j)) cs
    → All (λ v. passes j b v ≡ true) vs
unfolding contains
passes_common jobs common j b [] [] m z r k = tt
passes_common jobs common j b [] (v ∷ vs) m z r k = elim z [ ]
passes_common jobs common j b (c ∷ cs) [] m z r k = elim z [ ]
passes_common jobs common j b (c ∷ cs) (v ∷ vs) m z r k = (
  elim (Bool-cases (is_key j v.passed)) [
    | inr no_key ↦ ground arith
    | inl key ↦
        let (b', p, q) = common_of_key v j (common j) (z.0.1 j m) key in
        ground (
          arith,
          has-of_one j b c v r.0 z.0.0,
          has-of_one j b' c v r.0 z.0.0,
          k.0,
          ap (contains b') {x = build_ids_of c.candidates j} {y = []},
        )
  ],
  passes_common jobs common j b cs vs m z.1 r.1 k.1,
)

passes_none :
    (j : ℕ) (vs : List Version)
    → All (λ v. is_key j v.passed ≡ false) vs
    → All (λ v. passes j 0 v ≡ true) vs
passes_none j [] h = tt
passes_none j (v ∷ vs) h = (ground (arith, h.0), passes_none j vs h.1)

Chooses-IsSole :
    (jobs : List ℕ) (common : ℕ → List ℕ) (cs : List InputCandidates) (vs : List Version)
    → Zip (IsSole jobs common) cs vs
    → Chooses cs vs
Chooses-IsSole jobs common [] [] z = tt
Chooses-IsSole jobs common [] (v ∷ vs) z = elim z [ ]
Chooses-IsSole jobs common (c ∷ cs) [] z = elim z [ ]
Chooses-IsSole jobs common (c ∷ cs) (v ∷ vs) z =
    (subst (Any (λ u. u ≡ v)) (sym z.0.0) (inl refl), Chooses-IsSole jobs common cs vs z.1)

pub names-IsPruned :
    (jobs : List ℕ) (common : ℕ → List ℕ) (cs ds : List InputCandidates)
    → Zip (IsPruned jobs common) cs ds
    → names ds ≡ names cs
names-IsPruned jobs common [] [] z = refl
names-IsPruned jobs common [] (d ∷ ds) z = elim z [ ]
names-IsPruned jobs common (c ∷ cs) [] z = elim z [ ]
names-IsPruned jobs common (c ∷ cs) (d ∷ ds) z =
    rw (z.0.input, names-IsPruned jobs common cs ds z.1)

-- Where pruning leaves every input one version, what the last loop resolves is a solution.
pub resolve_from-IsSolution :
    (jobs : List ℕ) (cs ds : List InputCandidates) (m : ResolvedInputs)
    → Zip (IsPruned jobs (λ j. common_build_ids j cs)) cs ds
    → All IsReady cs
    → All HasOne ds
    → resolve_from [] ds ≡ some m
    → IsSolution jobs cs m
resolve_from-IsSolution jobs cs ds m z r one e =
    let common : ℕ → List ℕ = λ j. common_build_ids j cs in
    let (vs, left, assigned) = resolve_from-IsLeft ds [] m one e in
    let sole = Zip-IsSole jobs common cs ds vs z left in
    record {
      choice = vs;
      chosen = Chooses-IsSole jobs common cs vs sole;
      assigned = assigned ∙ ap (λ ns. assign [] ns vs) (names-IsPruned jobs common cs ds z);
      together = λ j k. elim (common_or_none jobs common j cs vs k sole) [
        | inl none_passed ↦ (0, passes_none j vs none_passed)
        | inr (b, in_common) ↦ (
          b,
          passes_common jobs common j b cs vs k sole r
              (common_build_ids-IsCommonTo j b cs in_common),
        )
      ];
    }
