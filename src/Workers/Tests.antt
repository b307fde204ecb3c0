-- ===== src/Workers/Tests.antt =====
-- Three workers, where a container is placed, and the theorems at them.
use atc.Prelude.{ℕ, zero, suc, ◌≡◌, ◌↔◌, refl, Bool, true, false, Option, none, some, List, [], ◌∷◌}
use atc.Pipeline.Config.{Name}
use atc.Workers.Spec.{
  ResourceType, WorkerSpec, Worker, lookup_type, delete_type, underlying_loop,
  determine_underlying_type_name, has_name, all_matched, tags_match, supports, satisfying,
}
use atc.Workers.Pool.{
  Result, ok, then_, add_compatible, compatible, prefer_team, all_satisfying, item, at_random,
  choose_counted, if_counted, add_at, higher, count_inputs, count_workers, choose, place,
}
use atc.Workers.Underlying.{IsBasedOn, determine_underlying_type_name-IsBasedOn}
use atc.Workers.Satisfies.{Satisfies, satisfying-Satisfies}

abbrev worker : Name → ℕ → Worker
worker name team_id = record {
  name = name;
  team_id = team_id;
  resource_types = 50 ∷ [];
  platform = 60;
  tags = [];
}

-- Two workers without a team, and one of another team than the spec's.
abbrev running : List Worker
running = worker 1 0 ∷ worker 2 0 ∷ worker 3 9 ∷ []

-- Type 52 is based on 51, and 51 on 50; 53 and 54 are based on each other.
abbrev types : List ResourceType
types =
    record { name = 52; type = 51 }
    ∷ record { name = 51; type = 50 }
    ∷ record { name = 53; type = 54 }
    ∷ record { name = 54; type = 53 }
    ∷ []

abbrev spec : WorkerSpec
spec = record { platform = 60; resource_type = 52; tags = []; team_id = 4 }

-- Worker 2 has every input.
abbrev has_volume : ℕ → Worker → Option Bool
has_volume input w = elim w.name [ suc (suc zero) ↦ some true | other ↦ some false ]

abbrev first : ℕ → ℕ
first n = 0

placed : Result Worker
unfolding lookup_type delete_type underlying_loop determine_underlying_type_name has_name
    all_matched tags_match supports satisfying then_ add_compatible compatible prefer_team
    all_satisfying item at_random choose_counted if_counted add_at higher count_inputs count_workers
    choose place
placed = place has_volume first (some running) spec types (1 ∷ 2 ∷ [])

placed_on_2 : placed ≡ ok (worker 2 0)
unfolding placed
placed_on_2 = refl

circle_ends : determine_underlying_type_name 53 types ≡ some 54
unfolding lookup_type delete_type underlying_loop determine_underlying_type_name
circle_ends = refl

satisfying-Satisfies_example :
    (satisfying (worker 2 0) spec types ≡ none) ↔ Satisfies (worker 2 0) spec types
satisfying-Satisfies_example = satisfying-Satisfies (worker 2 0) spec types

determine_underlying_type_name-IsBasedOn_example :
    (c : Name) × (determine_underlying_type_name 52 types ≡ some c)
    × ((k : ℕ) (m : Name) → IsBasedOn types k 52 m → c ≡ m)
determine_underlying_type_name-IsBasedOn_example = determine_underlying_type_name-IsBasedOn types 52
