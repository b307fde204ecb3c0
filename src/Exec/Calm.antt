-- ===== src/Exec/Calm.antt =====
-- Runs that nothing interrupts: the step can be asked for its success afterwards, also if it failed
-- with an error, and then it has not succeeded.
use atc.Prelude.{◌≡◌, ◌≢◌, refl, Bool, true, false, Option, none, some, List, [], ◌∷◌, All, arith}
use atc.Exec.Errors.{ErrorApi}
use atc.Exec.Steps.{
  Exit, done, failed, panicked, Ran, identity_run, on_success_run, on_failure_run, ensure_run,
  on_abort_run, try_run, timeout_run, retry_loop, retry_run, aggregate_run, after, member_errors,
  member_panicked, members_succeeded,
}
use atc.Exec.Plan.{
  Factory, leaf, identity, on_success, on_failure, ensure, on_abort, try_, timeout, retry,
  aggregate, Factories, nil, cons, run, run_all,
}

module _ (api : ErrorApi) where
  open api use {Error, is_interrupted, append_new, sources_new}

  abbrev pub CalmEnd : Exit Error → Option Bool → Type 0
  CalmEnd done (some b) = Unit
  CalmEnd done none = ⊥
  CalmEnd (failed e) (some true) = ⊥
  CalmEnd (failed e) (some false) = is_interrupted e ≡ false
  CalmEnd (failed e) none = ⊥
  CalmEnd panicked b = ⊥

  abbrev pub Calm : Ran Error → Type 0
  Calm r = CalmEnd r.exit r.succeeded

  -- Leaves are calm, durations parse, retries have an attempt, and no aggregate reads a signal.
  unfoldable mutual
    pub Quiet : Factory Error → Type 0
    Quiet (leaf n x b) = CalmEnd x b
    Quiet identity = Unit
    Quiet (on_success f g) = Quiet f × Quiet g
    Quiet (on_failure f g) = Quiet f × Quiet g
    Quiet (ensure f g) = Quiet f × Quiet g
    Quiet (on_abort f g) = Quiet f × Quiet g
    Quiet (try_ f) = Quiet f
    Quiet (timeout none fired f) = Quiet f
    Quiet (timeout (some e) fired f) = ⊥
    Quiet (retry nil) = ⊥
    Quiet (retry (cons f fs)) = Quiet f × AllQuiet fs
    Quiet (aggregate none fs) = AllQuiet fs
    Quiet (aggregate (some k) fs) = ⊥

    pub AllQuiet : Factories Error → Type 0
    AllQuiet nil = Unit
    AllQuiet (cons f fs) = Quiet f × AllQuiet fs

  on_success-Calm : (s h : Ran Error) → Calm s → Calm h → Calm (on_success_run api s h)
  unfolding on_success_run
  on_success-Calm s h p q = ground arith

  on_failure-Calm : (s h : Ran Error) → Calm s → Calm h → Calm (on_failure_run api s h)
  unfolding on_failure_run
  on_failure-Calm s h p q = ground arith

  ensure-Calm : (s h : Ran Error) → Calm s → Calm h → Calm (ensure_run api s h)
  unfolding ensure_run
  ensure-Calm s h p q = grind (arith, append_new)

  on_abort-Calm : (s h : Ran Error) → Calm s → Calm h → Calm (on_abort_run api s h)
  unfolding on_abort_run
  on_abort-Calm s h p q = grind (arith, append_new)

  try-Calm : (s : Ran Error) → Calm s → Calm (try_run api s)
  unfolding try_run
  try-Calm s p = ground arith

  timeout-Calm : (s : Ran Error) (fired : Bool) → Calm s → Calm (timeout_run api none fired s)
  unfolding timeout_run
  timeout-Calm s fired p = ground arith

  retry_loop-Calm :
      (last r : Ran Error) (rs : List (Ran Error))
      → Calm r
      → All Calm rs
      → Calm (retry_loop api last (r ∷ rs))
  unfolding retry_loop
  retry_loop-Calm last r [] p q = ground arith
  retry_loop-Calm last r (r' ∷ rs) p q =
      ground (arith, retry_loop-Calm (after last.trace r) r' rs q.0 q.1)

  Calm-panicked : (rs : List (Ran Error)) → All Calm rs → member_panicked api rs ≡ false
  unfolding member_panicked
  Calm-panicked [] h = refl
  Calm-panicked (r ∷ rs) h = ground (arith, Calm-panicked rs h.1)

  once_false : (rs : List (Ran Error)) → All Calm rs → members_succeeded api false rs ≡ some false
  unfolding members_succeeded
  once_false [] h = refl
  once_false (r ∷ rs) h = ground (arith, once_false rs h.1)

  AllQuiet-asked :
      (acc : Bool) (rs : List (Ran Error)) → All Calm rs → members_succeeded api acc rs ≢ none
  unfolding members_succeeded
  AllQuiet-asked acc [] h = ground arith
  AllQuiet-asked acc (r ∷ rs) h =
      ground (arith, AllQuiet-asked acc rs h.1, AllQuiet-asked false rs h.1)

  error_fails :
      (acc : Bool) (rs : List (Ran Error))
      → All Calm rs
      → member_errors api rs ≢ []
      → members_succeeded api acc rs ≡ some false
  unfolding members_succeeded member_errors
  error_fails acc [] h e = absurd (e refl)
  error_fails acc (r ∷ rs) h e =
      ground (arith, once_false rs h.1, error_fails acc rs h.1, error_fails false rs h.1)

  aggregate-Calm : (rs : List (Ran Error)) → All Calm rs → Calm (aggregate_run api none rs)
  unfolding aggregate_run
  aggregate-Calm rs h =
      grind
        (arith, Calm-panicked rs h, AllQuiet-asked true rs h, error_fails true rs h, sources_new)

  mutual
    unfolding run Quiet identity_run retry_run

    run_calmly : (f : Factory Error) → Quiet f → Calm (run api f)
    run_calmly (leaf n x b) h = h
    run_calmly identity h = tt
    run_calmly (on_success f g) h =
        on_success-Calm (run api f) (run api g) (run_calmly f h.0) (run_calmly g h.1)
    run_calmly (on_failure f g) h =
        on_failure-Calm (run api f) (run api g) (run_calmly f h.0) (run_calmly g h.1)
    run_calmly (ensure f g) h =
        ensure-Calm (run api f) (run api g) (run_calmly f h.0) (run_calmly g h.1)
    run_calmly (on_abort f g) h =
        on_abort-Calm (run api f) (run api g) (run_calmly f h.0) (run_calmly g h.1)
    run_calmly (try_ f) h = try-Calm (run api f) (run_calmly f h)
    run_calmly (timeout none fired f) h = timeout-Calm (run api f) fired (run_calmly f h)
    run_calmly (timeout (some e) fired f) h = absurd h
    run_calmly (retry nil) h = absurd h
    run_calmly (retry (cons f fs)) h =
        retry_loop-Calm (record { exit = done; succeeded = none; trace = [] }) (run api f)
          (run_all api fs) (run_calmly f h.0) (run_all_calmly fs h.1)
    run_calmly (aggregate none fs) h = aggregate-Calm (run_all api fs) (run_all_calmly fs h)
    run_calmly (aggregate (some k) fs) h = absurd h

    run_all_calmly : (fs : Factories Error) → AllQuiet fs → All Calm (run_all api fs)
    run_all_calmly nil h = tt
    run_all_calmly (cons f fs) h = (run_calmly f h.0, run_all_calmly fs h.1)

  pub Calm-run : (f : Factory Error) → Quiet f → Calm (run api f)
  Calm-run f h = run_calmly f h
