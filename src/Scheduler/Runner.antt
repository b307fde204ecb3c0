-- ===== src/Scheduler/Runner.antt =====
-- scheduler/runner.go: the rounds of scheduling, one at a time under the scheduling lock.
pub mod Tests
use atc.Prelude.{
  ℕ, ◌≡◌, refl, ap, subst, sym, ◌∙◌, Bool, true, false, Option, none, some, List, [], ◌∷◌, ◌++◌,
  arith, if◌then◌else◌, if_cases, append_assoc,
}
use atc.Algorithm.Database.{VersionsDb}
use atc.Scheduler.Starter.{Effect}
use atc.Scheduler.Jobs.{Job, PendingBuilds, schedule_jobs}

-- What the calls of one round answer; `none` and `false` are errors, but for `some false`: the lock is
-- not acquired, or the pipeline not found.
pub record Round : Type 0 where
  pub acquires : Option Bool
  pub versions : Option VersionsDb
  pub reloads : Option Bool
  pub loads_resources : Bool
  pub jobs : Option (List Job)
  pub loads_types : Bool
  pub get_all : List Job → Option PendingBuilds

-- nil, errPipelineRemoved, or another error.
pub data TickResult : Type 0 where
  passed removed failed : TickResult

-- What becomes of the lock, and what Schedule does.
pub data Event : Type 0 where
  acquired released : Event
  scheduled : List Job → List Effect → Event

abbrev result_of : Bool → TickResult
result_of true = passed
result_of false = failed

-- Schedule, once everything is loaded.
unfoldable pub schedule_round : VersionsDb → Round → List Job → TickResult × List Event
unfolding schedule_jobs
schedule_round db r jobs =
    let o = schedule_jobs db r.get_all jobs in (result_of o.0, scheduled o.1 o.2 ∷ [])

-- From Jobs on, and from Reload on.
abbrev with_jobs : VersionsDb → Round → Option (List Job) → TickResult × List Event
with_jobs db r none = (failed, [])
with_jobs db r (some jobs) = if r.loads_types then schedule_round db r jobs else (failed, [])

abbrev with_reload : VersionsDb → Round → Option Bool → TickResult × List Event
with_reload db r none = (passed, [])
with_reload db r (some false) = (removed, [])
with_reload db r (some true) = if r.loads_resources then with_jobs db r r.jobs else (failed, [])

-- From LoadVersionsDB on.
abbrev with_versions : Round → Option VersionsDb → TickResult × List Event
with_versions r none = (failed, [])
with_versions r (some db) = with_reload db r r.reloads

unfoldable pub with_lock : Round → TickResult × List Event
unfolding schedule_round
with_lock r = with_versions r r.versions

-- The lock is released on every return after it was acquired.
abbrev with_acquired : Round → Option Bool → TickResult × List Event
with_acquired r none = (passed, [])
with_acquired r (some false) = (passed, [])
with_acquired r (some true) = ((with_lock r).0, acquired ∷ (with_lock r).1 ++ released ∷ [])

unfoldable pub tick : Bool → Round → TickResult × List Event
unfolding with_lock
tick noop r = if noop then (passed, []) else with_acquired r r.acquires

-- How Run ends after some rounds: not yet, by a signal, or with the error of a round.
pub data RunResult : Type 0 where
  running stopped : RunResult
  ended : TickResult → RunResult

-- Each round comes with whether a signal arrives after it, before the next. The interval is not 0, with
-- which Run panics.
abbrev go_on : TickResult × List Event → Bool → RunResult × List Event → RunResult × List Event
go_on (passed, es) true rest = (stopped, es)
go_on (passed, es) false rest = (rest.0, es ++ rest.1)
go_on (removed, es) signalled rest = (ended removed, es)
go_on (failed, es) signalled rest = (ended failed, es)

unfoldable pub run : Bool → List (Round × Bool) → RunResult × List Event
unfolding tick
run noop [] = (running, [])
run noop ((r, signalled) ∷ rounds) = go_on (tick noop r) signalled (run noop rounds)

-- Schedule runs only between the acquisition and the release of the lock, and every lock that is
-- acquired is released before another.
abbrev pub IsBracketed : Bool → List Event → Type 0
IsBracketed held [] = held ≡ false
IsBracketed held (acquired ∷ es) = (held ≡ false) × IsBracketed true es
IsBracketed held (released ∷ es) = (held ≡ true) × IsBracketed false es
IsBracketed held (scheduled js fx ∷ es) = (held ≡ true) × IsBracketed held es

IsBracketed-append :
    (held : Bool) (es fs : List Event)
    → IsBracketed held es
    → IsBracketed false fs
    → IsBracketed held (es ++ fs)
IsBracketed-append held [] fs h k = subst (λ b. IsBracketed b fs) (sym h) k
IsBracketed-append held (acquired ∷ es) fs h k = (h.0, IsBracketed-append true es fs h.1 k)
IsBracketed-append held (released ∷ es) fs h k = (h.0, IsBracketed-append false es fs h.1 k)
IsBracketed-append held (scheduled js fx ∷ es) fs h k = (h.0, IsBracketed-append held es fs h.1 k)

-- What a round does under the lock.
Holds : TickResult × List Event → Type 0
Holds x = IsBracketed true (x.1 ++ released ∷ [])

schedule_round-Holds :
    (db : VersionsDb) (r : Round) (jobs : List Job) → Holds (schedule_round db r jobs)
unfolding Holds schedule_round
schedule_round-Holds db r jobs = (refl, (refl, refl))

failed-Holds : Holds (failed, [])
unfolding Holds
failed-Holds = (refl, refl)

with_jobs-Holds : (db : VersionsDb) (r : Round) (o : Option (List Job)) → Holds (with_jobs db r o)
with_jobs-Holds db r none = failed-Holds
with_jobs-Holds db r (some jobs) =
    if_cases Holds r.loads_types _ _ (λ e. schedule_round-Holds db r jobs) (λ e. failed-Holds)

with_reload-Holds : (db : VersionsDb) (r : Round) (o : Option Bool) → Holds (with_reload db r o)
unfolding Holds
with_reload-Holds db r none = (refl, refl)
with_reload-Holds db r (some false) = (refl, refl)
with_reload-Holds db r (some true) =
    if_cases Holds r.loads_resources _ _ (λ e. with_jobs-Holds db r r.jobs) (λ e. failed-Holds)

with_versions-Holds : (r : Round) (o : Option VersionsDb) → Holds (with_versions r o)
with_versions-Holds r none = failed-Holds
with_versions-Holds r (some db) = with_reload-Holds db r r.reloads

Frees : TickResult × List Event → Type 0
Frees x = IsBracketed false x.1

with_acquired-Frees : (r : Round) (o : Option Bool) → Frees (with_acquired r o)
unfolding Frees Holds with_lock
with_acquired-Frees r none = refl
with_acquired-Frees r (some false) = refl
with_acquired-Frees r (some true) = (refl, with_versions-Holds r r.versions)

tick-Frees : (noop : Bool) (r : Round) → Frees (tick noop r)
unfolding tick Frees
tick-Frees noop r = if_cases Frees noop _ _ (λ e. refl) (λ e. with_acquired-Frees r r.acquires)

go_on-IsBracketed :
    (x : TickResult × List Event) (signalled : Bool) (rest : RunResult × List Event)
    → Frees x
    → IsBracketed false rest.1
    → IsBracketed false (go_on x signalled rest).1
unfolding Frees
go_on-IsBracketed (passed, es) true rest h k = h
go_on-IsBracketed (passed, es) false rest h k = IsBracketed-append false es rest.1 h k
go_on-IsBracketed (removed, es) signalled rest h k = h
go_on-IsBracketed (failed, es) signalled rest h k = h

-- However the calls of the rounds answer and whenever a signal comes, the runner calls Schedule only
-- while it holds the scheduling lock, and has released the lock before the next round and when Run
-- returns.
pub run-IsBracketed :
    (noop : Bool) (rounds : List (Round × Bool)) → IsBracketed false (run noop rounds).1
unfolding run
run-IsBracketed noop [] = refl
run-IsBracketed noop ((r, signalled) ∷ rounds) =
    go_on-IsBracketed (tick noop r) signalled (run noop rounds) (tick-Frees noop r)
      (run-IsBracketed noop rounds)
