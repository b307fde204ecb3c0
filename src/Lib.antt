-- ===== src/Lib.antt =====
-- Concourse ATC: the build plan steps, the choice of input versions, the validation of pipelines
-- and of task configurations, the scheduling of jobs and the start of pending builds, the way from
-- a job to a finished build, the authorisation of API requests, the locks, the choice of workers,
-- the events of builds, and the jobs of the collector.
--
-- Parts and files
--
-- Exec models exec/: the steps that wrap other steps. Exec/Errors is the interface to Go errors
-- (the comparison with ErrInterrupted, the search of an error's text, multierror.Append, which is
-- a package outside the repository's own code). Exec/Steps has one function for each wrapping
-- step, on what its wrapped steps return: on_success_run for exec/on_success.go, on_failure_run
-- for exec/on_failure.go, ensure_run for exec/ensure_step.go, on_abort_run for exec/on_abort.go,
-- try_run for exec/try_step.go, timeout_run for exec/timeout_step.go, retry_run for
-- exec/retry_step.go, aggregate_run for exec/aggregate.go, identity_run for exec/identity_step.go.
-- Exec/Plan has trees of steps and `run`, which is factory.Using(repo).Run(...). Exec/Outcome is
-- the abstract view, and Exec/Refinement and Exec/Traces hold the proofs. A value of type Ran is a
-- step after its Run: how Run ended, what Succeeded() then returns (none where the code would
-- dereference a nil step), and the leaves that were run. A leaf stands for any implementation of
-- Step, such as a task, a get or a put. Which signal is read when, and whether a timer fires
-- first, are arguments.
--
-- Algorithm models db/algorithm/: the choice of versions for the inputs of a job. Algorithm/Sets:
-- JobSet, BuildSet and the maps from jobs to build sets. Algorithm/Search: sort.Search.
-- Algorithm/Versions: version.go. Algorithm/Candidates: version_candidates.go and constraint.go.
-- Algorithm/Database: db.go and existing_build_resolver.go. Algorithm/Inputs: input_candidates.go,
-- with Reduce as `reduce`. Algorithm/Resolve: input_configs.go and input_mapping.go, with Resolve
-- as `resolve`. Each has its proofs in the modules below it; the layers are used through those
-- lemmas.
--
-- Pipeline models config.go, job_config.go and validate.go: pipelines, what their jobs use, and
-- Config.Validate. Pipeline/Config: the configuration types and look-ups. Pipeline/Plans:
-- collectPlans and the inputs and outputs of a job. Pipeline/Limits: MaxInFlight beside
-- GetSerialGroups. Pipeline/Messages: errors and warnings as constructors, with the identifier of
-- the place as a list of parts. Pipeline/Steps: validatePlan, as `validate_plan`, with one
-- function for each case of its switch. Pipeline/Valid: what a valid plan is, and the proofs.
-- Pipeline/Validate: Config.Validate as `validate` and its loops; Pipeline/Validate/Contract: what
-- an acceptable pipeline is, with Pipeline/Validate/Used for the resources that its jobs use.
-- Pipeline/TaskSteps puts the task configurations of Task into it. A plan is a tree whose nodes
-- have the fields that hold no plan (PlanFields) and a child for each pointer. What task
-- configurations are and time.ParseDuration are arguments.
--
-- Task models task.go: Task has the configuration, Merge (`merge`) and Validate (`validate`, the
-- lines of its error); Task/Counter is pathCounter with getErrorMessages, Task/Paths the functions
-- on paths, where the separator is '/'; Task/Contract says what a valid configuration is, and
-- Task/Valid has the proof over Task/Apart, Counted and Reported. A map from paths to numbers is
-- an association list.
--
-- Scheduler models the way from new versions to builds that run. Scheduler/Jobs:
-- scheduler/scheduler.go, with Schedule as `schedule_jobs`. Scheduler/Mapper: SaveNextInputMapping
-- of scheduler/inputmapper/inputmapper.go and the transformer of inputconfig/transformer.go, on
-- Resolve of Algorithm. Scheduler/Tables: the rows of a job that db/job.go saves and deletes; a
-- statement that does not work is an argument, Calls. Scheduler/Runner: scheduler/runner.go, with
-- tick and Run as `tick` and `run` on a list of rounds. Scheduler also models
-- scheduler/maxinflight/updater.go in Scheduler/MaxInFlight (isMaxInFlightReached is
-- `is_max_in_flight_reached`, on a job of Pipeline/Config) and scheduler/buildstarter.go in
-- Scheduler/Starter (tryStartNextPendingBuild is `try_start_next_pending_build`, and
-- Scheduler/Starter/Checkpoints lists what it asks). What the database, the scanner, the plan
-- factory and the engine answer is an argument: JobQueries, and for each pending build a record of
-- Answers. The effects on builds are a list.
--
-- Build models the way from a job to a finished build. Build/Plan: plan.go. Build/Create:
-- scheduler/factory/build_factory.go, with Create as `create`, and PlanFactory.NewPlan of
-- plan_factory.go, whose counter is the state of the monad M; sources, params and mappings, which
-- are only copied into plans, are numbers. Every plan has a Header of its ID and Attempts.
-- Build/Engine: buildStepFactory of engine/exec_engine.go and engine/build_step.go, from a plan to
-- a tree of steps of Exec/Plan; what tasks, gets and puts do, and time.ParseDuration, is a record
-- World. Build/Resume: how Resume of engine/exec_engine.go ends a build once its process has
-- exited, with Finish of engine/exec_engine_build_delegate.go. Build/Made has the induction over
-- what Create makes, by which Build/Runs and Build/Resume join Pipeline, Build and Exec, with
-- Build/Timeouts for the timeouts of a job; Exec/Calm has steps that can be asked for their
-- success after an error too. Build/Public: public_plan.go, from a plan to JSON;
-- Build/Public/Redact says what is not to be shown, and Build/Public/Shown has the proofs.
--
-- Auth models the authorisation of API requests. Auth/Routes: routes.go. Auth/Guards and Auth/Api:
-- wrappa/api_auth_wrappa.go, with the switch of Wrap as `guard_of` and the handlers around a route
-- as `serve`. Auth/Request: api/auth/auth_helpers.go, jwt_reader.go and jwt_validator.go;
-- jwt.Parse of the library jwt-go is the argument Verifier. Auth/Handlers: one function for each
-- handler of api/auth, from a request to a response or to the request that is passed on.
-- Auth/Contract says who is to be let through; the proofs are in Auth/Lookups, Known, Unknown,
-- Served and Writes. Claims of another JSON type than the code asserts, and a request without a
-- logger in its context, make the code panic: the tokens that the ATC signs and the requests that
-- its handlers pass on are not such.
--
-- Locks models db/lock/lock.go. Locks/System: goroutines of several processes that take one step
-- of Acquire or Release at a time, with acquireMutex and lockRepo of each process and the advisory
-- locks of its session in the database; what Postgres may answer is IsAnswer. Locks/Invariant and
-- Locks/Traces: what every step keeps; Locks/Exclusion and Locks/Availability: what follows.
-- Locks/Keys: the ids of locks and toKey, where strconv.Itoa and the checksum are arguments.
--
-- Workers models the choice of a worker for a container. Workers/Spec: Satisfying and
-- determineUnderlyingTypeName of worker/worker.go. Workers/Pool: AllSatisfying of worker/pool.go,
-- Choose of worker/placement.go, and what FindOrCreateContainer does with them for a container
-- that is on no worker yet (`place`). What VolumeOn, RunningWorkers and the random generator
-- answer are arguments. The proofs are in Workers/Underlying, Satisfies, Placement, Locality and
-- Placed.
--
-- Events models event/parser.go. Events/Structs: the structs that are events, with the types and
-- versions that their methods return (event/events.go, deprecated_events.go and types.go), and the
-- order in which init registers them. Events/Parser: registerEvent, ParseEvent and Message with
-- MarshalJSON and UnmarshalJSON; what encoding/json does is the argument Json, where fields of
-- events are opaque. Events/RoundTrip: the proofs.
--
-- Collector models two parts of gc/. gc/worker_job_runner.go: Collector/JobRunner has startJob,
-- finishJob and Try, and the states that jobs come to; Collector/Bounds the proofs. And
-- gc/buildreaper.go: Collector/Reaper has what Run does for one job, with job.Builds of db/job.go
-- as a function of the job's builds in the order of their ids; Collector/Retained and
-- Collector/Reaped the proofs.
--
-- Prelude holds the shared names: Boolean tests, lists by native numbers, predicates on lists.
--
-- Modelling choices
--
-- Ids, check orders and build numbers are natural numbers; id 0 stands for none, as in the code. A
-- set is a list, and the map of builds by job is a list of keys with a function; Go's order of
-- ranging over a map is the order of the list, so the theorems hold for every order. Maps that two
-- values share are copied: the code writes to shared maps only in values that it drops.
-- InputCandidates.Reduce calls itself, so `reduce` takes fuel for the depth; Resolve gives one
-- more than there are inputs, and each level settles one input, so that is enough. sort.Search
-- takes as much fuel as the list is long, and the interval shrinks in each round. The loop over
-- resource types has one more than there are types, and every round but the first deletes one.
--
-- The strings of a pipeline are only compared, so they are numbers, 0 for the empty string; those
-- of task configurations and of the inputs that the scheduler maps are strings. The inputs of a
-- job come to the scheduler as JobConfig.Inputs gives them; that their names are distinct is what
-- Config.Validate asks of a job (Pipeline/Validate/Contract). The int fields, which may be
-- negative, are of type ℤ. The map jobsGrouped is a list of keys and a function, and the other
-- maps of validate.go are association lists.
--
-- Not modelled: the String methods of db/algorithm, logging, the artifact repository that steps
-- hand to each other, the readiness channel of Run, formatErr, the encoding of configurations in
-- YAML and JSON, NewTaskConfig, the loops over pipelines and jobs of the build reaper, the map of
-- workers of the job runner, broken connections and repeated releases of locks, the creation of
-- containers on a worker, the events and implicit outputs of a build, and every other package of
-- the repository, most of which is SQL or calls of other services.
pub mod Prelude
pub mod Exec
pub mod Algorithm
pub mod Task
pub mod Pipeline
pub mod Scheduler
pub mod Build
pub mod Auth
pub mod Locks
pub mod Workers
pub mod Events
pub mod Collector
