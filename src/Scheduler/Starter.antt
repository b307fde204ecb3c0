-- ===== src/Scheduler/Starter.antt =====
-- scheduler/buildstarter.go: which pending builds are started.
pub mod Checkpoints
use atc.Prelude.{
  ℕ, ◌≡◌, ◌≢◌, refl, ap, ◌∙◌, map, ◌⊎◌, inl, inr, ◌↔◌, Bool, true, false, Option, none, some, List,
  [], ◌∷◌, ◌++◌, All, arith, if◌then◌else◌,
}

-- What the calls for one pending build answer, in their order: none, or false, is an error of the call.
pub record Answers : Type 0 where
  pub build : ℕ
  pub reached : Option Bool
  pub manually_triggered : Bool
  pub scans : List Bool
  pub loads_versions : Bool
  pub saves_mapping : Bool
  pub loads_types : Bool
  pub next_inputs : Option Bool
  pub pipeline_paused : Option Bool
  pub job_paused : Bool
  pub schedules : Option Bool
  pub uses_inputs : Bool
  pub creates_plan : Bool
  pub creates_build : Bool

-- An error, (false, nil) or (true, nil).
pub data Result : Type 0 where
  failed stopped started : Result

-- What a call does to the build.
pub data Effect : Type 0 where
  scheduled inputs_used finished_errored resumed : ℕ → Effect

unfoldable pub scan_inputs : List Bool → Bool
scan_inputs [] = true
scan_inputs (ok ∷ oks) = if ok then scan_inputs oks else false

-- The block for manually triggered builds, which refreshes the inputs.
unfoldable pub refresh : Answers → Bool
refresh a =
    if Answers.manually_triggered a
    then if scan_inputs (Answers.scans a)
      then if Answers.loads_versions a
        then if Answers.saves_mapping a then Answers.loads_types a else false
        else false
      else false
    else true

-- From the creation of the plan on.
unfoldable pub launch : Answers → Result × List Effect
launch a =
    if Answers.creates_plan a
    then if Answers.creates_build a
      then (started, Effect.resumed (Answers.build a) ∷ [])
      else (stopped, [])
    else (stopped, Effect.finished_errored (Answers.build a) ∷ [])

-- From Schedule on.
unfoldable pub schedule : Answers → Result × List Effect
schedule a = elim (Answers.schedules a) [
  | none ↦ (failed, [])
  | some false ↦ (stopped, [])
  | some true ↦
      if Answers.uses_inputs a
      then (
        (launch a).0,
        Effect.scheduled (Answers.build a) ∷ Effect.inputs_used (Answers.build a) ∷ (launch a).1,
      )
      else (failed, Effect.scheduled (Answers.build a) ∷ [])
]

-- The checks on pauses.
unfoldable pub check_paused : Answers → Result × List Effect
check_paused a = elim (Answers.pipeline_paused a) [
  | none ↦ (failed, [])
  | some true ↦ (stopped, [])
  | some false ↦ if Answers.job_paused a then (stopped, []) else schedule a
]

unfoldable pub try_start_next_pending_build : Answers → Result × List Effect
try_start_next_pending_build a = elim (Answers.reached a) [
  | none ↦ (failed, [])
  | some true ↦ (stopped, [])
  | some false ↦
      if refresh a
      then elim (Answers.next_inputs a) [
        | none ↦ (failed, [])
        | some false ↦ (stopped, [])
        | some true ↦ check_paused a
      ]
      else (failed, [])
]

-- Whether it returns no error, with all effects.
unfoldable pub try_start_pending_builds : List Answers → Bool × List Effect
try_start_pending_builds [] = (true, [])
try_start_pending_builds (a ∷ as_) =
    let rest = try_start_pending_builds as_ in
    elim (try_start_next_pending_build a).0 [
      | failed ↦ (false, (try_start_next_pending_build a).1)
      | stopped ↦ (true, (try_start_next_pending_build a).1)
      | started ↦ (rest.0, (try_start_next_pending_build a).1 ++ rest.1)
    ]

-- A manually triggered build has all its inputs scanned, and the versions loaded, the mapping saved
-- and the resource types loaded.
abbrev pub IsRefreshed : Answers → Type 0
IsRefreshed a =
    All (λ ok. ok ≡ true) (Answers.scans a)
    × (Answers.loads_versions a ≡ true)
    × (Answers.saves_mapping a ≡ true)
    × (Answers.loads_types a ≡ true)

-- Every guard lets the build through and every call succeeds.
abbrev pub Passes : Answers → Type 0
Passes a =
    (Answers.reached a ≡ some false)
    × ((Answers.manually_triggered a ≡ false) ⊎ IsRefreshed a)
    × (Answers.next_inputs a ≡ some true)
    × (Answers.pipeline_paused a ≡ some false)
    × (Answers.job_paused a ≡ false)
    × (Answers.schedules a ≡ some true)
    × (Answers.uses_inputs a ≡ true)
    × (Answers.creates_plan a ≡ true)
    × (Answers.creates_build a ≡ true)

abbrev pub all_steps : ℕ → List Effect
all_steps n = Effect.scheduled n ∷ Effect.inputs_used n ∷ Effect.resumed n ∷ []

scans_iff : (oks : List Bool) → (scan_inputs oks ≡ true) ↔ All (λ ok. ok ≡ true) oks
unfolding scan_inputs
scans_iff [] = ground arith
scans_iff (ok ∷ oks) = ground (arith, scans_iff oks)

refresh_iff :
    (a : Answers) → (refresh a ≡ true) ↔ ((Answers.manually_triggered a ≡ false) ⊎ IsRefreshed a)
unfolding refresh
refresh_iff a = ground (arith, scans_iff (Answers.scans a))

-- A build is started exactly if every guard lets it through and every call succeeds.
pub try_start_next_pending_build-Passes :
    (a : Answers) → ((try_start_next_pending_build a).0 ≡ started) ↔ Passes a
unfolding try_start_next_pending_build check_paused schedule launch
try_start_next_pending_build-Passes a = ground (arith, refresh_iff a)

start_effects :
    (a : Answers)
    → (try_start_next_pending_build a).0 ≡ started
    → (try_start_next_pending_build a).1 ≡ all_steps (Answers.build a)
unfolding try_start_next_pending_build check_paused schedule launch
start_effects a h = ground (arith, h)

-- The builds that run.
unfoldable pub resumes : List Effect → List ℕ
resumes [] = []
resumes (Effect.resumed n ∷ es) = n ∷ resumes es
resumes (Effect.scheduled n ∷ es) = resumes es
resumes (Effect.inputs_used n ∷ es) = resumes es
resumes (Effect.finished_errored n ∷ es) = resumes es

no_resume :
    (a : Answers)
    → (try_start_next_pending_build a).0 ≢ started
    → resumes (try_start_next_pending_build a).1 ≡ []
unfolding try_start_next_pending_build check_paused schedule launch resumes
no_resume a h = ground (arith, h)

resumes-append : (n : ℕ) (es : List Effect) → resumes (all_steps n ++ es) ≡ n ∷ resumes es
unfolding resumes
resumes-append n es = refl

Result-cases : (r : Result) → (r ≡ started) ⊎ (r ≢ started)
Result-cases failed = inr (ground arith)
Result-cases stopped = inr (ground arith)
Result-cases started = inl refl

one_more :
    (a : Answers) (as_ : List Answers)
    → (try_start_next_pending_build a).0 ≡ started
    → resumes (try_start_pending_builds (a ∷ as_)).1
      ≡ Answers.build a ∷ resumes (try_start_pending_builds as_).1
unfolding try_start_pending_builds
one_more a as_ h =
    ground (
      arith,
      h,
      start_effects a h,
      resumes-append (Answers.build a) (try_start_pending_builds as_).1,
    )

nothing_more :
    (a : Answers) (as_ : List Answers)
    → (try_start_next_pending_build a).0 ≢ started
    → resumes (try_start_pending_builds (a ∷ as_)).1 ≡ []
unfolding try_start_pending_builds
nothing_more a as_ h = ground (arith, h, no_resume a h)

-- No builds are left, or the next one is not let through.
abbrev pub Stops : List Answers → Type 0
Stops [] = Unit
Stops (a ∷ rest) = (try_start_next_pending_build a).0 ≢ started

-- The builds that run are those of the longest first part of the pending builds in which every build
-- is let through, in order: a build that is not started keeps all later ones from starting.
pub try_start_pending_builds-Passes :
    (as_ : List Answers)
    → (first rest : List Answers) × (as_ ≡ first ++ rest)
      × All Passes first
      × Stops rest
      × (resumes (try_start_pending_builds as_).1 ≡ map Answers.build first)
unfolding try_start_pending_builds resumes
try_start_pending_builds-Passes [] = ([], [], refl, tt, tt, refl)
try_start_pending_builds-Passes (a ∷ as_) =
    let (first, rest, e, passed, stops, ran) = try_start_pending_builds-Passes as_ in
    elim (Result-cases (try_start_next_pending_build a).0) [
      | inl s ↦ (
        a ∷ first,
        rest,
        ap (λ xs. a ∷ xs) e,
        ((try_start_next_pending_build-Passes a).0 s, passed),
        stops,
        one_more a as_ s ∙ ap (λ ns. Answers.build a ∷ ns) ran,
      )
      | inr n ↦ ([], a ∷ as_, refl, tt, n, nothing_more a as_ n)
    ]
