-- ===== src/Workers/Spec.antt =====
-- worker/worker.go: whether a worker satisfies a spec.
use atc.Prelude.{
  ℕ, zero, suc, Bool, true, false, not, ◌&&◌, ◌||◌, Option, none, some, List, [], ◌∷◌, ◌==◌,
  if◌then◌else◌, length,
}
use atc.Pipeline.Config.{Name, is_set}

-- creds.VersionedResourceType, by its name and type.
pub record ResourceType : Type 0 where
  pub name : Name
  pub type : Name

-- A team's id is 0 for a worker that no team owns.
pub record WorkerSpec : Type 0 where
  pub platform : Name
  pub resource_type : Name
  pub tags : List Name
  pub team_id : ℕ

pub record Worker : Type 0 where
  pub name : Name
  pub team_id : ℕ
  pub resource_types : List Name
  pub platform : Name
  pub tags : List Name

-- The map from names to resource types: the last one of a name is in it.
unfoldable pub lookup_type : List ResourceType → Name → Option ResourceType
lookup_type [] n = none
lookup_type (t ∷ ts) n = elim (lookup_type ts n) [
  | some u ↦ some u
  | none ↦ if t.name == n then some t else none
]

unfoldable pub delete_type : Name → List ResourceType → List ResourceType
delete_type n [] = []
delete_type n (t ∷ ts) = if t.name == n then delete_type n ts else t ∷ delete_type n ts

-- The loop of determineUnderlyingTypeName, on the type that was found for the name; `none` if the fuel
-- is used up.
unfoldable pub underlying_loop : ℕ → List ResourceType → Name → Option ResourceType → Option Name
underlying_loop fuel types n none = some n
underlying_loop zero types n (some t) = none
underlying_loop (suc fuel) types n (some t) =
    underlying_loop fuel (delete_type t.type types) t.type (lookup_type types t.type)

-- Each round but the first deletes a type from the map.
unfoldable pub determine_underlying_type_name : Name → List ResourceType → Option Name
determine_underlying_type_name n types =
    underlying_loop (suc (length types)) types n (lookup_type types n)

unfoldable pub has_name : Name → List Name → Bool
has_name n [] = false
has_name n (m ∷ ms) = (m == n) || has_name n ms

unfoldable pub all_matched : List Name → List Name → Bool
all_matched [] worker_tags = true
all_matched (tag ∷ tags) worker_tags = has_name tag worker_tags && all_matched tags worker_tags

-- gardenWorker.tagsMatch
unfoldable pub tags_match : Worker → List Name → Bool
tags_match w [] = elim w.tags [ [] ↦ true | t ∷ ts ↦ false ]
tags_match w (tag ∷ tags) = all_matched (tag ∷ tags) w.tags

pub data Mismatch : Type 0 where
  team_mismatch unsupported_resource_type incompatible_platform mismatched_tags : Mismatch

unfoldable pub supports : Worker → Option Name → Bool
supports w none = false
supports w (some n) = has_name n w.resource_types

-- gardenWorker.Satisfying, with the error or none.
unfoldable pub satisfying : Worker → WorkerSpec → List ResourceType → Option Mismatch
satisfying w spec types =
    if not (spec.team_id == w.team_id) && is_set w.team_id
    then some team_mismatch
    else if is_set spec.resource_type
        && not (supports w (determine_underlying_type_name spec.resource_type types))
    then some unsupported_resource_type
    else if is_set spec.platform && not (spec.platform == w.platform)
    then some incompatible_platform
    else if not (tags_match w spec.tags)
    then some mismatched_tags
    else none
