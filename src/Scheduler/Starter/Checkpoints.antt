-- ===== src/Scheduler/Starter/Checkpoints.antt =====
-- tryStartNextPendingBuild of scheduler/buildstarter.go as a list of checkpoints.
use atc.Prelude.{
  ◌≡◌, refl, map, ◌↔◌, Bool, true, false, Option, none, some, List, [], ◌∷◌, ◌++◌, arith,
  if◌then◌else◌,
}
use atc.Scheduler.Starter.{
  Answers, Result, failed, stopped, started, Effect, scan_inputs, refresh, launch, schedule,
  check_paused, try_start_next_pending_build, Passes, try_start_next_pending_build-Passes,
}

-- What is asked before a build starts, as a list: whether to go on, with what is done to the build if
-- so and if not.
pub data Verdict : Type 0 where
  goes_on stops fails : Verdict

pub record Checkpoint : Type 0 where
  pub verdict : Verdict
  pub done : List Effect
  pub undone : List Effect

-- A call that can fail; one whose answer must be `wanted`; and a flag.
abbrev works : Bool → Verdict
works ok = if ok then goes_on else fails

abbrev answers_as : Bool → Option Bool → Verdict
answers_as wanted none = fails
answers_as true (some b) = if b then goes_on else stops
answers_as false (some b) = if b then stops else goes_on

abbrev asks : Verdict → Checkpoint
asks v = record { verdict = v; done = []; undone = [] }

abbrev does : Verdict → Effect → Checkpoint
does v e = record { verdict = v; done = e ∷ []; undone = [] }

abbrev calls_of : Answers → List Checkpoint → List Checkpoint
calls_of a rest =
    asks (works (Answers.loads_versions a))
    ∷ asks (works (Answers.saves_mapping a))
    ∷ asks (works (Answers.loads_types a))
    ∷ rest

-- What refreshes the inputs of a manually triggered build comes before the rest.
abbrev refreshed : Answers → List Checkpoint → List Checkpoint
refreshed a rest =
    if Answers.manually_triggered a
    then map (λ ok. asks (works ok)) (Answers.scans a) ++ calls_of a rest
    else rest

abbrev starts : Answers → List Checkpoint
starts a =
    asks (answers_as true (Answers.next_inputs a))
    ∷ asks (answers_as false (Answers.pipeline_paused a))
    ∷ asks (if Answers.job_paused a then stops else goes_on)
    ∷ does (answers_as true (Answers.schedules a)) (Effect.scheduled (Answers.build a))
    ∷ does (works (Answers.uses_inputs a)) (Effect.inputs_used (Answers.build a))
    ∷ record {
      verdict = if Answers.creates_plan a then goes_on else stops;
      done = [];
      undone = Effect.finished_errored (Answers.build a) ∷ [];
    }
    ∷ does (if Answers.creates_build a then goes_on else stops) (Effect.resumed (Answers.build a))
    ∷ []

abbrev pub checkpoints : Answers → List Checkpoint
checkpoints a = asks (answers_as false (Answers.reached a)) ∷ refreshed a (starts a)

-- The first checkpoint that does not go on decides.
unfoldable pub walk : List Checkpoint → Result × List Effect
walk [] = (started, [])
walk (c ∷ cs) =
    let rest = walk cs in
    elim (Checkpoint.verdict c) [
      | goes_on ↦ (rest.0, Checkpoint.done c ++ rest.1)
      | stops ↦ (stopped, Checkpoint.undone c)
      | fails ↦ (failed, Checkpoint.undone c)
    ]

walk-scans :
    (oks : List Bool) (rest : List Checkpoint)
    → walk (map (λ ok. asks (works ok)) oks ++ rest)
      ≡ (if scan_inputs oks then walk rest else (failed, []))
unfolding scan_inputs walk
walk-scans [] rest = refl
walk-scans (true ∷ oks) rest = walk-scans oks rest
walk-scans (false ∷ oks) rest = refl

walk-refreshed :
    (a : Answers) (rest : List Checkpoint)
    → walk (refreshed a rest) ≡ (if refresh a then walk rest else (failed, []))
unfolding refresh walk
walk-refreshed a rest = ground (arith, walk-scans (Answers.scans a) (calls_of a rest))

walk-starts :
    (a : Answers)
    → walk (starts a) ≡ elim (Answers.next_inputs a) [
      | none ↦ (failed, [])
      | some false ↦ (stopped, [])
      | some true ↦ check_paused a
    ]
unfolding walk check_paused schedule launch
walk-starts a = ground arith

-- A pending build is started exactly if every guard lets it through and every call succeeds, with
-- those that refresh the inputs of a manually triggered build; and in every case, the first of the
-- checkpoints that does not go on decides the result, with or without an error, and what is done to
-- the build.
pub try_start_next_pending_build-walk :
    (a : Answers)
    → (((try_start_next_pending_build a).0 ≡ started) ↔ Passes a)
      × (try_start_next_pending_build a ≡ walk (checkpoints a))
unfolding try_start_next_pending_build walk
try_start_next_pending_build-walk a = (
  try_start_next_pending_build-Passes a,
  ground (arith, walk-refreshed a (starts a), walk-starts a),
)
