-- ===== src/Scheduler/Mapper.antt =====
-- scheduler/inputmapper: the inputs of the next build of a job, from its configuration and the
-- versions database (inputconfig/transformer.go, inputmapper.go).
pub mod Counts
pub mod Transformed
pub mod Mapped
use Prim.Native.String.{String}
use text.Mathlib.Text.{◌==◌ as str_eq}
use atc.Prelude.{
  ℕ, Bool, true, false, Option, none, some, List, [], ◌∷◌, length, ltb, if◌then◌else◌,
}
use atc.Algorithm.Sets.{insert}
use atc.Algorithm.Database.{VersionsDb}
use atc.Algorithm.Resolve.{
  InputConfig, InputVersion, InputMapping, put_input, Resolution, no_answer, unresolved, resolved,
  resolve,
}
use atc.Scheduler.Tables.{
  JobRows, lookup_input, if_works, save_independent_input_mapping, save_next_inputs,
  delete_next_input_mapping,
}

-- atc.Version
abbrev pub Version : Type 0
Version = List (String × String)

pub record VersionConfig : Type 0 where
  pub every : Bool
  pub latest : Bool
  pub pinned : Option Version

-- Params and Tags are left out: nothing here reads them.
pub record JobInput : Type 0 where
  pub name : String
  pub resource : String
  pub passed : List String
  pub trigger : Bool
  pub version : Option VersionConfig

-- Pipeline.GetVersionedResourceByVersion, with the id of what it finds: `none` is an error, and
-- `some none` that no version was found.
abbrev pub FindVersion : Type 0
FindVersion = Version → String → Option (Option ℕ)

-- db.JobIDs[name] and db.ResourceIDs[name]: 0 where the name is missing
unfoldable pub id_of : String → List (String × ℕ) → ℕ
id_of name [] = 0
id_of name ((n, id) ∷ ids) = if str_eq n name then id else id_of name ids

abbrev version_config : JobInput → VersionConfig
version_config input = elim input.version [
  | none ↦ record { every = false; latest = true; pinned = none }
  | some v ↦ v
]

-- The id that the input is pinned to: 0 where it is not pinned.
unfoldable pub pinned_version_id : FindVersion → JobInput → Option (Option ℕ)
pinned_version_id find input = elim (version_config input).pinned [
  | none ↦ some (some 0)
  | some v ↦ find v input.resource
]

unfoldable pub passed_jobs : VersionsDb → List String → List ℕ → List ℕ
unfolding id_of
passed_jobs db [] jobs = jobs
passed_jobs db (name ∷ names) jobs = passed_jobs db names (insert (id_of name db.job_ids) jobs)

unfoldable pub config_of : VersionsDb → String → JobInput → ℕ → InputConfig
unfolding passed_jobs id_of
config_of db job_name input pinned = record {
  name = input.name;
  job_name = "";
  passed = passed_jobs db input.passed [];
  use_every_version = (version_config input).every;
  pinned_version_id = pinned;
  resource_id = id_of input.resource db.resource_ids;
  job_id = id_of job_name db.job_ids;
}

-- An input whose pinned version was not found is passed over.
unfoldable pub add_config :
    VersionsDb → String → JobInput → Option ℕ → List InputConfig → List InputConfig
unfolding config_of
add_config db job_name input none configs = configs
add_config db job_name input (some id) configs = config_of db job_name input id ∷ configs

unfoldable pub transform_input_configs :
    FindVersion → VersionsDb → String → List JobInput → Option (List InputConfig)
unfolding pinned_version_id add_config
transform_input_configs find db job_name [] = some []
transform_input_configs find db job_name (input ∷ inputs) =
    if_works (pinned_version_id find input) (λ pinned.
      if_works (transform_input_configs find db job_name inputs)
        (λ configs. some (add_config db job_name input pinned configs)))

-- singletonMapping[name]: the zero value where the name is missing
unfoldable pub version_in : String → InputMapping → InputVersion
version_in name m = elim (lookup_input name m) [
  | none ↦ record { version_id = 0; first_occurrence = false }
  | some v ↦ v
]

unfoldable pub add_singleton : String → Resolution → InputMapping → InputMapping
unfolding version_in
add_singleton name (resolved m) acc = put_input name (version_in name m) acc
add_singleton name unresolved acc = acc
add_singleton name no_answer acc = acc

-- The mapping of each input that resolves by itself.
unfoldable pub independent_mapping : VersionsDb → InputMapping → List InputConfig → InputMapping
unfolding add_singleton
independent_mapping db acc [] = acc
independent_mapping db acc (c ∷ configs) =
    independent_mapping db (add_singleton c.name (resolve db (c ∷ [])) acc) configs

-- What the database answers to a job's calls: whether each call for it works.
pub record Calls : Type 0 where
  pub find_version : FindVersion
  pub saves_independent : Bool
  pub deletes_next : Bool
  pub saves_next : Bool
  pub ensures_pending : Bool

-- What SaveNextInputMapping returns, `none` for an error and `some none` for (nil, nil), with the
-- rows it leaves.
abbrev pub Outcome : Type 0
Outcome = Option (Option InputMapping) × JobRows

-- A call that fails leaves the rows and ends with its error.
abbrev pub then_do : Option JobRows → JobRows → (JobRows → Outcome) → Outcome
then_do none rows next = (none, rows)
then_do (some rows') rows next = next rows'

unfoldable pub forget_next : Calls → JobRows → Outcome
unfolding delete_next_input_mapping
forget_next calls rows =
    then_do (delete_next_input_mapping calls.deletes_next rows) rows (λ r. (some none, r))

unfoldable pub store_next : Calls → Resolution → JobRows → Outcome
unfolding forget_next save_next_inputs
store_next calls (resolved m) rows =
    then_do (save_next_inputs calls.saves_next m rows) rows (λ r. (some (some m), r))
store_next calls unresolved rows = forget_next calls rows
store_next calls no_answer rows = forget_next calls rows

unfoldable pub map_inputs :
    Calls → VersionsDb → List JobInput → List InputConfig → JobRows → Outcome
unfolding forget_next store_next independent_mapping save_independent_input_mapping
map_inputs calls db inputs configs rows =
    then_do
      (save_independent_input_mapping calls.saves_independent (independent_mapping db [] configs)
        rows)
      rows
      (λ r.
        if ltb (length (independent_mapping db [] configs)) (length inputs)
        then forget_next calls r
        else store_next calls (resolve db configs) r)

abbrev pub map_transformed :
    Calls → VersionsDb → List JobInput → JobRows → Option (List InputConfig) → Outcome
map_transformed calls db inputs rows none = (none, rows)
map_transformed calls db inputs rows (some configs) = map_inputs calls db inputs configs rows

unfoldable pub save_next_input_mapping :
    Calls → VersionsDb → String → List JobInput → JobRows → Outcome
unfolding map_inputs transform_input_configs
save_next_input_mapping calls db job_name inputs rows =
    map_transformed calls db inputs rows
      (transform_input_configs calls.find_version db job_name inputs)
