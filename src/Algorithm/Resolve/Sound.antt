-- ===== src/Algorithm/Resolve/Sound.antt =====
-- What Resolve promises: the inputs' versions went through the passed jobs together.
use Prim.Native.String.{String}
use atc.Prelude.{ℕ, ◌<◌, ◌≡◌, true, List, [], ◌∷◌, All, Any, Zip}
use atc.Algorithm.Sets.{contains}
use atc.Algorithm.Versions.{Version}
use atc.Algorithm.Database.{VersionsDb}
use atc.Algorithm.Database.Passed.{is_produced}
use atc.Algorithm.Inputs.{InputCandidates}
use atc.Algorithm.Inputs.Solution.{assign}
use atc.Algorithm.Resolve.{InputConfig, versions_for, input_of, InputMapping, mapping_from}

abbrev inputs_of : VersionsDb → List InputConfig → List InputCandidates
inputs_of db [] = []
inputs_of db (c ∷ configs) = input_of db c ∷ inputs_of db configs

abbrev pub config_names : List InputConfig → List String
config_names [] = []
config_names (c ∷ configs) = c.name ∷ config_names configs

abbrev pub IsWanted : ℕ → List InputConfig → Type 0
IsWanted j = Any (λ c. contains j c.passed ≡ true)

-- Configurations whose inputs the search settles by itself: no pins, and passed jobs with ids.
abbrev pub IsFree : InputConfig → Type 0
IsFree c = (c.pinned_version_id ≡ 0) × All (λ j. 0 < j) c.passed

-- The version is one of the input's candidates; and if the input wants job j, build b of the job
-- output the version of the input's resource.
abbrev pub IsChosen : VersionsDb → InputConfig → Version → Type 0
IsChosen db c v = Any (λ u. u ≡ v) (versions_for db c).versions

abbrev pub IsOutput : VersionsDb → ℕ → ℕ → InputConfig → Version → Type 0
IsOutput db j b c v =
    contains j c.passed ≡ true → is_produced c.resource_id j v.id b db.build_outputs ≡ true

-- What a resolved mapping is: one of its candidates for each input; and for each passed job one
-- build that output, of every input that wants the job, the version chosen.
pub record IsSound (db : VersionsDb) (configs : List InputConfig) (m : InputMapping) : Type 0 where
  pub choice : List Version
  pub chosen : Zip (IsChosen db) configs choice
  pub assigned : m ≡ mapping_from db (assign [] (config_names configs) choice) [] configs
  pub together : (j : ℕ) → IsWanted j configs → (b : ℕ) × Zip (IsOutput db j b) configs choice
