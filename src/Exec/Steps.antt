-- ===== src/Exec/Steps.antt =====
-- `Run` and `Succeeded` of each wrapping step, on what its wrapped steps return.
use atc.Prelude.{
  ℕ, Bool, true, false, not, Option, none, some, List, [], ◌∷◌, ◌++◌, length, ltb, if◌then◌else◌,
}
use atc.Exec.Errors.{ErrorApi}

-- How `Run` ends: nil, an error, or a panic (a nil step is dereferenced).
pub data Exit (E : Type 0) : Type 0 where
  done : Exit E
  failed : E → Exit E
  panicked : Exit E

-- A step after its `Run`. `succeeded` is what `Succeeded()` then returns: `none` where the call
-- dereferences a nil step or asks a step that was never run. `trace` lists the leaves that were run.
pub record Ran (E : Type 0) : Type 0 where
  pub exit : Exit E
  pub succeeded : Option Bool
  pub trace : List ℕ

-- a && b, where b is evaluated only if a is true
abbrev pub and_then : Option Bool → Option Bool → Option Bool
and_then none b = none
and_then (some false) b = some false
and_then (some true) b = b

-- IdentityStep
unfoldable pub identity_run : {E : Type 0} → Ran E
identity_run = record { exit = done; succeeded = some true; trace = [] }

-- What a step returns once `trace` was run before it.
abbrev pub after : {E : Type 0} → List ℕ → Ran E → Ran E
after t r = record r { trace = t ++ r.trace }

module _ (api : ErrorApi) where
  open api use {Error, interrupted, is_interrupted, mentions, append, sources_failed}

  -- OnSuccessStep: `hook` is what the success step returns if it is run. The field `success` stays
  -- nil where it is not.
  unfoldable pub on_success_run : Ran Error → Ran Error → Ran Error
  on_success_run s hook =
      let skipped = record s { succeeded = and_then s.succeeded none } in
      elim s.exit [
        | panicked ↦ skipped
        | failed e ↦ skipped
        | done ↦ elim s.succeeded [
          | none ↦ record skipped { exit = panicked }
          | some b ↦
              if b
              then record {
                exit = hook.exit;
                succeeded = and_then s.succeeded hook.succeeded;
                trace = s.trace ++ hook.trace;
              }
              else skipped
        ]
      ]

  -- OnFailureStep
  unfoldable pub on_failure_run : Ran Error → Ran Error → Ran Error
  on_failure_run s hook = elim s.exit [
    | panicked ↦ s
    | failed e ↦ s
    | done ↦ elim s.succeeded [
      | none ↦ record s { exit = panicked }
      | some b ↦
          if b
          then s
          else record { exit = hook.exit; succeeded = s.succeeded; trace = s.trace ++ hook.trace }
    ]
  ]

  -- errors = multierror.Append(errors, err) if err is not nil
  abbrev pub collect : Option Error → Exit Error → Option Error
  collect errors done = errors
  collect errors (failed e) = some (append errors e)
  collect errors panicked = errors

  abbrev pub exit_of : Option Error → Exit Error
  exit_of none = done
  exit_of (some e) = failed e

  -- EnsureStep
  unfoldable pub ensure_run : Ran Error → Ran Error → Ran Error
  ensure_run s hook =
      let both : Ran Error = record {
        exit = exit_of (collect (collect none s.exit) hook.exit);
        succeeded = and_then s.succeeded hook.succeeded;
        trace = s.trace ++ hook.trace;
      } in
      elim s.exit [
        | panicked ↦ s
        | _ ↦ elim hook.exit [ panicked ↦ record both { exit = panicked } | _ ↦ both ]
      ]

  -- OnAbortStep
  unfoldable pub on_abort_run : Ran Error → Ran Error → Ran Error
  on_abort_run s hook = elim s.exit [
    | panicked ↦ s
    | done ↦ s
    | failed e ↦
        let errors = append none e in
        if mentions e
        then record {
          exit = elim hook.exit [
            | panicked ↦ panicked
            | done ↦ failed errors
            | failed d ↦ failed (append (some errors) d)
          ];
          succeeded = s.succeeded;
          trace = s.trace ++ hook.trace;
        }
        else record s { exit = failed errors }
  ]

  -- TryStep
  unfoldable pub try_run : Ran Error → Ran Error
  try_run s = record {
    exit = elim s.exit [
      | panicked ↦ panicked
      | done ↦ done
      | failed e ↦ if is_interrupted e then failed e else done
    ];
    succeeded = some true;
    trace = s.trace;
  }

  -- TimeoutStep. The environment chooses: `parsed` is the error of time.ParseDuration, `fired` says
  -- whether the timer is read before the wrapped step exits, and `s` is what that step then returns.
  unfoldable pub timeout_run : Option Error → Bool → Ran Error → Ran Error
  timeout_run (some e) fired s = record { exit = failed e; succeeded = none; trace = [] }
  timeout_run none fired s = record {
    exit = elim s.exit [
      | panicked ↦ panicked
      | done ↦ done
      | failed e ↦ if fired then done else failed e
    ];
    succeeded = and_then (some (not fired)) s.succeeded;
    trace = s.trace;
  }

  -- The loop of RetryStep: `last` is `LastAttempt` and `attemptErr`, with the trace so far.
  unfoldable pub retry_loop : Ran Error → List (Ran Error) → Ran Error
  retry_loop last [] = last
  retry_loop last (a ∷ attempts) =
      let current = after last.trace a in
      let rest = retry_loop current attempts in
      elim a.exit [
        | panicked ↦ current
        | failed e ↦ if is_interrupted e then current else rest
        | done ↦ elim a.succeeded [
          | none ↦ record current { exit = panicked }
          | some b ↦ if b then current else rest
        ]
      ]

  -- RetryStep: `LastAttempt` is nil before the first attempt.
  unfoldable pub retry_run : List (Ran Error) → Ran Error
  unfolding retry_loop
  retry_run = retry_loop (record { exit = done; succeeded = none; trace = [] })

  -- The errors that AggregateStep collects, and whether a member panicked.
  unfoldable pub member_errors : List (Ran Error) → List Error
  member_errors [] = []
  member_errors (r ∷ rs) = elim r.exit [ failed e ↦ e ∷ member_errors rs | _ ↦ member_errors rs ]

  unfoldable pub member_panicked : List (Ran Error) → Bool
  member_panicked [] = false
  member_panicked (r ∷ rs) = elim r.exit [ panicked ↦ true | _ ↦ member_panicked rs ]

  unfoldable pub member_traces : List (Ran Error) → List ℕ
  member_traces [] = []
  member_traces (r ∷ rs) = r.trace ++ member_traces rs

  -- AggregateStep.Succeeded: every member is asked.
  unfoldable pub members_succeeded : Bool → List (Ran Error) → Option Bool
  members_succeeded acc [] = some acc
  members_succeeded acc (r ∷ rs) = elim r.succeeded [
    | none ↦ none
    | some b ↦ members_succeeded (if b then acc else false) rs
  ]

  -- AggregateStep. All members are started and waited for; `signal` is the round of the second loop
  -- in which a signal is read, if one is. The traces of members run at once are given one by one.
  unfoldable pub aggregate_run : Option ℕ → List (Ran Error) → Ran Error
  unfolding member_errors member_panicked member_traces members_succeeded
  aggregate_run signal rs = record {
    exit =
        if member_panicked rs
        then panicked
        else let errors : Exit Error = elim (member_errors rs) [
          | [] ↦ done
          | e ∷ es ↦ failed (sources_failed (e ∷ es))
        ] in
          elim signal [
            | none ↦ errors
            | some k ↦ if ltb k (length rs) then failed interrupted else errors
          ];
    succeeded = members_succeeded true rs;
    trace = member_traces rs;
  }
