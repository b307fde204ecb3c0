-- ===== src/Workers/Placed.antt =====
-- worker/pool.go, worker/placement.go and worker/worker.go: the worker for a container.
use atc.Prelude.{ℕ, ◌≤◌, ◌≡◌, Bool, true, Option, some, List}
use atc.Workers.Spec.{ResourceType, WorkerSpec, Worker}
use atc.Workers.Pool.{is_owned_by_team}
use atc.Workers.Satisfies.{Satisfies}
use atc.Workers.Placement.{Among}
use atc.Workers.Locality.{count}

module _ {Input : Type 0} (volume_on : Input → Worker → Option Bool) (inputs : List Input)
    (spec : WorkerSpec) (types : List ResourceType) (running : List Worker) where
  -- No worker that satisfies the spec is better: none is owned by a team if this one is not, and none of
  -- those that are like it in this has more of the inputs.
  pub record IsBest (w : Worker) : Type 0 where
    pub among : Among w running
    pub satisfies : Satisfies w spec types
    pub team_first :
        (u : Worker)
        → Among u running
        → Satisfies u spec types
        → is_owned_by_team u ≡ true
        → is_owned_by_team w ≡ true
    pub local :
        (u : Worker)
        → Among u running
        → Satisfies u spec types
        → is_owned_by_team u ≡ is_owned_by_team w
        → (i : ℕ) × (j : ℕ) × (count volume_on inputs u ≡ some i)
          × (count volume_on inputs w ≡ some j)
          × (i ≤ j)
