-- ===== src/Exec/Refinement.antt =====
-- A tree of steps, run as the code runs it, has the outcome that the operations on outcomes give.
use atc.Prelude.{
  ℕ, ◌≡◌, ◌≢◌, refl, Bool, true, false, ◌&&◌, Option, none, some, List, [], ◌∷◌, length, and_left,
  and_right, if◌then◌else◌, arith,
}
use atc.Exec.Errors.{ErrorApi}
use atc.Exec.Steps.{
  Exit, done, Ran, identity_run, timeout_run, retry_loop, retry_run, aggregate_run, after,
  member_errors, member_panicked, members_succeeded,
}
use atc.Exec.Plan.{
  Factory, leaf, identity, on_success, on_failure, ensure, on_abort, try_, timeout, retry,
  aggregate, Factories, nil, cons, run, run_all,
}
use atc.Exec.Outcome.{
  Outcome, success, failure, interrupted, errored, is_error, is_success, success_then, failure_then,
  and_ensure, on_abort_of, try_of, timeout_of, retry_of, all_of, aggregate_of, outcome_of, outcome,
  on_success-outcome, on_failure-outcome, ensure-outcome, on_abort-outcome, try-outcome,
  timeout-outcome,
}

module _ (api : ErrorApi) where
  open api use {Error, is_interrupted, interrupted_self, append_new, sources_new}

  -- The runs have these outcomes, one by one.
  abbrev pub HaveOutcomes : List (Ran Error) → List Outcome → Type 0
  HaveOutcomes [] [] = Unit
  HaveOutcomes (r ∷ rs) (a ∷ bs) = (outcome api r ≡ some a) × HaveOutcomes rs bs
  HaveOutcomes _ _ = ⊥

  retry_loop-outcome :
      (last r : Ran Error) (rs : List (Ran Error)) (a : Outcome) (bs : List Outcome)
      → outcome api r ≡ some a
      → HaveOutcomes rs bs
      → outcome api (retry_loop api last (r ∷ rs)) ≡ some (retry_of a bs)
  unfolding retry_loop
  retry_loop-outcome last r [] a [] p q = ground arith
  retry_loop-outcome last r [] a (b ∷ bs) p q = elim q [ ]
  retry_loop-outcome last r (r' ∷ rs) a [] p q = elim q [ ]
  retry_loop-outcome last r (r' ∷ rs) success (b ∷ bs) p q = ground arith
  retry_loop-outcome last r (r' ∷ rs) interrupted (b ∷ bs) p q = ground arith
  retry_loop-outcome last r (r' ∷ rs) failure (b ∷ bs) p q =
      ground (arith, retry_loop-outcome (after last.trace r) r' rs b bs q.0 q.1)
  retry_loop-outcome last r (r' ∷ rs) errored (b ∷ bs) p q =
      ground (arith, retry_loop-outcome (after last.trace r) r' rs b bs q.0 q.1)

  members_never_panic :
      (rs : List (Ran Error)) (bs : List Outcome)
      → HaveOutcomes rs bs
      → member_panicked api rs ≡ false
  unfolding member_panicked
  members_never_panic [] [] h = refl
  members_never_panic [] (b ∷ bs) h = elim h [ ]
  members_never_panic (r ∷ rs) [] h = elim h [ ]
  members_never_panic (r ∷ rs) (b ∷ bs) h = ground (arith, members_never_panic rs bs h.1)

  members_with_errors :
      (rs : List (Ran Error)) (bs : List Outcome)
      → HaveOutcomes rs bs
      → is_error (all_of bs) ≡ true
      → (all_of bs ≡ errored) × (member_errors api rs ≢ [])
  unfolding member_errors
  members_with_errors [] [] h e = cc
  members_with_errors [] (b ∷ bs) h e = elim h [ ]
  members_with_errors (r ∷ rs) [] h e = elim h [ ]
  members_with_errors (r ∷ rs) (b ∷ bs) h e = ground (arith, members_with_errors rs bs h.1)

  members_without_errors :
      (rs : List (Ran Error)) (bs : List Outcome) (acc : Bool)
      → HaveOutcomes rs bs
      → is_error (all_of bs) ≡ false
      → (member_errors api rs ≡ [])
        × (members_succeeded api acc rs ≡ some (if acc then is_success (all_of bs) else false))
  unfolding member_errors members_succeeded
  members_without_errors [] [] acc h e = ground arith
  members_without_errors [] (b ∷ bs) acc h e = elim h [ ]
  members_without_errors (r ∷ rs) [] acc h e = elim h [ ]
  members_without_errors (r ∷ rs) (b ∷ bs) acc h e =
      ground (arith, members_without_errors rs bs acc h.1, members_without_errors rs bs false h.1)

  length-HaveOutcomes :
      (rs : List (Ran Error)) (bs : List Outcome) → HaveOutcomes rs bs → length rs ≡ length bs
  length-HaveOutcomes [] [] h = refl
  length-HaveOutcomes [] (b ∷ bs) h = elim h [ ]
  length-HaveOutcomes (r ∷ rs) [] h = elim h [ ]
  length-HaveOutcomes (r ∷ rs) (b ∷ bs) h = ground (arith, length-HaveOutcomes rs bs h.1)

  aggregate-outcome :
      (signal : Option ℕ) (rs : List (Ran Error)) (bs : List Outcome)
      → HaveOutcomes rs bs
      → outcome api (aggregate_run api signal rs) ≡ some (aggregate_of signal bs)
  unfolding aggregate_run
  aggregate-outcome none rs bs h = grind (
    arith,
    members_never_panic rs bs h,
    members_with_errors rs bs h,
    members_without_errors rs bs true h,
    sources_new,
  )
  aggregate-outcome (some k) rs bs h = grind (
    arith,
    members_never_panic rs bs h,
    members_with_errors rs bs h,
    members_without_errors rs bs true h,
    length-HaveOutcomes rs bs h,
    sources_new,
    interrupted_self,
  )

  -- The outcome of a leaf is what its `Run` and `Succeeded` say.
  abbrev leaf_outcome : Option Outcome → Outcome
  leaf_outcome none = failure
  leaf_outcome (some a) = a

  unfoldable mutual
    pub meaning : Factory Error → Outcome
    meaning (leaf n x b) = leaf_outcome (outcome_of api x b)
    meaning identity = success
    meaning (on_success f g) = success_then (meaning f) (meaning g)
    meaning (on_failure f g) = failure_then (meaning f) (meaning g)
    meaning (ensure f g) = and_ensure (meaning f) (meaning g)
    meaning (on_abort f g) = on_abort_of (meaning f)
    meaning (try_ f) = try_of (meaning f)
    meaning (timeout parsed fired f) = timeout_of parsed fired (meaning f)
    meaning (retry nil) = failure
    meaning (retry (cons f fs)) = retry_of (meaning f) (meanings fs)
    meaning (aggregate signal fs) = aggregate_of signal (meanings fs)

    pub meanings : Factories Error → List Outcome
    meanings nil = []
    meanings (cons f fs) = meaning f ∷ meanings fs

  -- A leaf does not panic, and can be asked for its success if it returns nil; a retry has an
  -- attempt; the error of a bad duration is not ErrInterrupted.
  abbrev leaf_ok : Option Outcome → Bool
  leaf_ok none = false
  leaf_ok (some a) = true

  abbrev parse_ok : Option Error → Bool
  parse_ok none = true
  parse_ok (some e) = if is_interrupted e then false else true

  unfoldable mutual
    pub well_formed : Factory Error → Bool
    well_formed (leaf n x b) = leaf_ok (outcome_of api x b)
    well_formed identity = true
    well_formed (on_success f g) = well_formed f && well_formed g
    well_formed (on_failure f g) = well_formed f && well_formed g
    well_formed (ensure f g) = well_formed f && well_formed g
    well_formed (on_abort f g) = well_formed f && well_formed g
    well_formed (try_ f) = well_formed f
    well_formed (timeout parsed fired f) = parse_ok parsed && well_formed f
    well_formed (retry nil) = false
    well_formed (retry (cons f fs)) = well_formed f && all_well_formed fs
    well_formed (aggregate signal fs) = all_well_formed fs

    pub all_well_formed : Factories Error → Bool
    all_well_formed nil = true
    all_well_formed (cons f fs) = well_formed f && all_well_formed fs

  leaf-outcome :
      (x : Exit Error) (b : Option Bool)
      → leaf_ok (outcome_of api x b) ≡ true
      → outcome_of api x b ≡ some (leaf_outcome (outcome_of api x b))
  leaf-outcome x b h = ground arith

  mutual
    unfolding run meaning well_formed identity_run retry_run timeout_run

    run-outcome :
        (f : Factory Error) → well_formed f ≡ true → outcome api (run api f) ≡ some (meaning f)
    run-outcome (leaf n x b) h = leaf-outcome x b h
    run-outcome identity h = refl
    run-outcome (on_success f g) h =
        on_success-outcome api (run api f) (run api g) (meaning f) (meaning g)
          (run-outcome f (and_left _ h)) (run-outcome g (and_right _ h))
    run-outcome (on_failure f g) h =
        on_failure-outcome api (run api f) (run api g) (meaning f) (meaning g)
          (run-outcome f (and_left _ h)) (run-outcome g (and_right _ h))
    run-outcome (ensure f g) h =
        ensure-outcome api (run api f) (run api g) (meaning f) (meaning g)
          (run-outcome f (and_left _ h)) (run-outcome g (and_right _ h))
    run-outcome (on_abort f g) h =
        on_abort-outcome api (run api f) (run api g) (meaning f) (meaning g)
          (run-outcome f (and_left _ h)) (run-outcome g (and_right _ h))
    run-outcome (try_ f) h = try-outcome api (run api f) (meaning f) (run-outcome f h)
    run-outcome (timeout none fired f) h =
        timeout-outcome api (run api f) (meaning f) fired (run-outcome f h)
    run-outcome (timeout (some e) fired f) h = ground arith
    run-outcome (retry nil) h = cc
    run-outcome (retry (cons f fs)) h =
        retry_loop-outcome (record { exit = done; succeeded = none; trace = [] }) (run api f)
          (run_all api fs) (meaning f) (meanings fs) (run-outcome f (and_left _ h))
          (run_all-outcome fs (and_right _ h))
    run-outcome (aggregate signal fs) h =
        aggregate-outcome signal (run_all api fs) (meanings fs) (run_all-outcome fs h)

    run_all-outcome :
        (fs : Factories Error)
        → all_well_formed fs ≡ true
        → HaveOutcomes (run_all api fs) (meanings fs)
    run_all-outcome nil h = tt
    run_all-outcome (cons f fs) h =
        (run-outcome f (and_left _ h), run_all-outcome fs (and_right _ h))

  -- Run a well-formed tree and ask it for its success, as the engine does: nothing panics, and the
  -- outcome is the one that the operations on outcomes give, for every nesting of the steps.
  pub run-refines-meaning :
      (f : Factory Error) → well_formed f ≡ true → outcome api (run api f) ≡ some (meaning f)
  run-refines-meaning f h = run-outcome f h
