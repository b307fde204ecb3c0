-- ===== src/Workers/Pool.antt =====
-- worker/pool.go and worker/placement.go: the choice of a worker for a container.
use atc.Prelude.{
  ℕ, ◌+◌, Bool, true, false, Option, none, some, List, [], ◌∷◌, ◌++◌, ◌==◌, leb, if◌then◌else◌,
  length, get_elem?,
}
use atc.Pipeline.Config.{is_set}
use atc.Workers.Spec.{ResourceType, WorkerSpec, Worker, Mismatch, satisfying}

pub data PoolError : Type 0 where
  provider_failed no_workers no_compatible_workers volume_failed : PoolError

-- What a call returns, where `panicked` is an index out of range.
pub data Result (A : Type 0) : Type 0 where
  ok : A → Result A
  err : PoolError → Result A
  panicked : Result A

unfoldable pub then_ : {A B : Type 0} → Result A → (A → Result B) → Result B
then_ (ok a) k = k a
then_ (err e) k = err e
then_ panicked k = panicked

abbrev pub is_owned_by_team : Worker → Bool
is_owned_by_team w = is_set w.team_id

-- compatibleTeamWorkers and compatibleGeneralWorkers
abbrev pub Sorted : Type 0
Sorted = List Worker × List Worker

-- A worker that satisfies the spec is added, by whether a team owns it.
unfoldable pub add_compatible : Option Mismatch → Bool → Worker → Sorted → Sorted
add_compatible (some mismatch) owned w s = s
add_compatible none true w s = (s.0 ++ (w ∷ []), s.1)
add_compatible none false w s = (s.0, s.1 ++ (w ∷ []))

-- The loop of AllSatisfying.
unfoldable pub compatible : WorkerSpec → List ResourceType → List Worker → Sorted → Sorted
compatible spec types [] s = s
compatible spec types (w ∷ ws) s =
    compatible spec types ws (add_compatible (satisfying w spec types) (is_owned_by_team w) w s)

unfoldable pub prefer_team : Sorted → Result (List Worker)
prefer_team ((w ∷ ws), general) = ok (w ∷ ws)
prefer_team ([], (w ∷ ws)) = ok (w ∷ ws)
prefer_team ([], []) = err no_compatible_workers

-- pool.AllSatisfying, on what RunningWorkers returns.
unfoldable pub all_satisfying :
    Option (List Worker) → WorkerSpec → List ResourceType → Result (List Worker)
all_satisfying none spec types = err provider_failed
all_satisfying (some []) spec types = err no_workers
all_satisfying (some (w ∷ ws)) spec types = prefer_team (compatible spec types (w ∷ ws) ([], []))

unfoldable pub item : Option Worker → Result Worker
item (some w) = ok w
item none = panicked

-- rand.Intn(len(workers)) as an index, for what the generator answers.
unfoldable pub at_random : (ℕ → ℕ) → List Worker → Result Worker
at_random intn workers = item (get_elem? workers (intn (length workers)))

unfoldable pub if_counted : {A : Type 0} → Option ℕ → (ℕ → Option A) → Option A
if_counted none k = none
if_counted (some n) k = k n

unfoldable pub add_at : ℕ → Worker → (ℕ → List Worker) → ℕ → List Worker
add_at n w by_count k = if n == k then by_count k ++ (w ∷ []) else by_count k

unfoldable pub higher : ℕ → ℕ → ℕ
higher n highest = if leb highest n then n else highest

-- One of highestLocalityWorkers.
unfoldable pub choose_counted : (ℕ → ℕ) → Option ((ℕ → List Worker) × ℕ) → Result Worker
choose_counted intn none = err volume_failed
choose_counted intn (some counted) = at_random intn (counted.0 counted.1)

-- Whether a worker has the volume of an input, or `none` for an error.
module _ {Input : Type 0} (volume_on : Input → Worker → Option Bool) where
  -- candidateInputCount
  unfoldable pub count_inputs : List Input → Worker → ℕ → Option ℕ
  count_inputs [] w n = some n
  count_inputs (i ∷ is) w n = elim (volume_on i w) [
    | none ↦ none
    | some found ↦ count_inputs is w (if found then n + 1 else n)
  ]

  -- workersByCount and highestCount
  unfoldable pub count_workers :
      List Input → List Worker → (ℕ → List Worker) → ℕ → Option ((ℕ → List Worker) × ℕ)
  count_workers inputs [] by_count highest = some (by_count, highest)
  count_workers inputs (w ∷ ws) by_count highest =
      if_counted (count_inputs inputs w 0)
        (λ n. count_workers inputs ws (add_at n w by_count) (higher n highest))

  -- VolumeLocalityPlacementStrategy.Choose
  unfoldable pub choose : (ℕ → ℕ) → List Input → List Worker → Result Worker
  choose intn inputs workers = choose_counted intn (count_workers inputs workers (λ k. []) 0)

  -- The worker for a container that is on none yet, in pool.FindOrCreateContainer.
  unfoldable pub place :
      (ℕ → ℕ) → Option (List Worker) → WorkerSpec → List ResourceType → List Input → Result Worker
  place intn running spec types inputs =
      then_ (all_satisfying running spec types) (choose intn inputs)

-- pool.Satisfying
unfoldable pub pool_satisfying :
    (ℕ → ℕ) → Option (List Worker) → WorkerSpec → List ResourceType → Result Worker
pool_satisfying intn running spec types = then_ (all_satisfying running spec types) (at_random intn)
