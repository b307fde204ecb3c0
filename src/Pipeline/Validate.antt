-- ===== src/Pipeline/Validate.antt =====
-- validate.go: Config.Validate and the loops over groups, resources, resource types and jobs.
pub mod Names
pub mod Marks
pub mod Groups
pub mod Used
pub mod Contract
pub mod Accepts
use atc.Prelude.{
  ℕ, suc, Bool, true, false, not, ◌||◌, Option, none, some, List, [], ◌∷◌, ◌++◌, map, ◌==◌,
  if◌then◌else◌,
}
use atc.Pipeline.Config.{
  Name, is_set, pos, negsuc, Outside, PlanFields, PlanConfig, plan, absent, no_sequence, steps,
  JobConfig, GroupConfig, ResourceConfig, Config, lookup_resource, lookup_job, is_empty,
}
use atc.Pipeline.Plans.{inputs, outputs}
use atc.Pipeline.Messages.{Identifier, Part, Message, Verdict, accepted, failing, ◌⊕◌, optional}
use atc.Pipeline.Steps.{keep, has, validate_plan, validate_maybe, uses}

-- The map from the names met so far to their positions.
unfoldable pub position_of : List (Name × ℕ) → Name → Option ℕ
position_of [] n = none
position_of (x ∷ xs) n = if x.0 == n then some x.1 else position_of xs n

unfoldable pub same_name_errors : (ℕ → Part) → List (Name × ℕ) → ℕ → Name → List Message
same_name_errors at names i n = elim (position_of names n) [
  | none ↦ []
  | some other ↦ Message.same_name (at other) (at i) n ∷ []
]

unfoldable pub register : List (Name × ℕ) → ℕ → Name → List (Name × ℕ)
register names i n = elim (position_of names n) [
  | none ↦ if is_set n then (n, i) ∷ names else names
  | some other ↦ names
]

-- The loop of validateResources, validateResourceTypes and validateJobs, with the other checks of a
-- member as an argument.
unfoldable pub scan :
    {A : Type 0}
    → (ℕ → Part)
    → (A → Name)
    → (ℕ → A → Verdict)
    → List (Name × ℕ)
    → ℕ
    → List A
    → Verdict
scan at name check names i [] = accepted
scan at name check names i (x ∷ xs) =
    failing (same_name_errors at names i (name x))
    ⊕ check i x
    ⊕ scan at name check (register names i (name x)) (suc i) xs

unfoldable pub identifier : (ℕ → Part) → (Name → Part) → ℕ → Name → Identifier
identifier at named i n = (if is_set n then named n else at i) ∷ []

unfoldable pub validate_resource : (ℕ → Part) → (Name → Part) → ℕ → ResourceConfig → Verdict
validate_resource at named i r =
    let ident = identifier at named i (ResourceConfig.name r) in
    failing (
      keep (not (is_set (ResourceConfig.name r))) (Message.no_name ident)
      ++ keep (not (is_set (ResourceConfig.type r))) (Message.no_type ident))

-- encountered[n] after the names `seen`.
unfoldable pub count : List Name → Name → ℕ
count [] n = 0
count (x ∷ seen) n = if x == n then suc (count seen n) else count seen n

unfoldable pub same_gets : Identifier → List Name → List (Name × Name) → List Message
same_gets ident seen [] = []
same_gets ident seen (x ∷ xs) =
    keep (count (x.0 ∷ seen) (x.0) == 2) (Message.same_get ident x.0)
    ++ same_gets ident (x.0 ∷ seen) xs

-- The map jobsGrouped: its keys, and whether a job is grouped.
pub record Grouped : Type 0 where
  pub keys : List Name
  pub grouped : Name → Bool

unfoldable pub contains_name : List Name → Name → Bool
contains_name [] n = false
contains_name (x ∷ xs) n = (x == n) || contains_name xs n

unfoldable pub mark : Grouped → Name → Bool → Grouped
mark m n b = record {
  keys = if contains_name (Grouped.keys m) n then Grouped.keys m else n ∷ Grouped.keys m;
  grouped = λ k. if n == k then b else Grouped.grouped m k;
}

unfoldable pub ungrouped : Grouped → List Name → List Message
ungrouped m [] = []
ungrouped m (k ∷ ks) = keep (not (Grouped.grouped m k)) (Message.in_no_group k) ++ ungrouped m ks

unfoldable pub unknown_resources : List ResourceConfig → Name → List Name → List Message
unknown_resources rs g [] = []
unknown_resources rs g (n ∷ ns) =
    keep (not (has (lookup_resource rs n))) (Message.group_unknown_resource g n)
    ++ unknown_resources rs g ns

unfoldable pub unused : List (Name × Name) → List ResourceConfig → List Message
unused used [] = []
unused used (r ∷ rs) =
    keep (not (uses used (some (ResourceConfig.name r)))) (Message.not_used (ResourceConfig.name r))
    ++ unused used rs

abbrev pub no_jobs : Grouped
no_jobs = record { keys = []; grouped = λ k. false }

module _ {T : Type 0} where
  unfoldable pub no_job_grouped : List (JobConfig T) → Grouped → Grouped
  no_job_grouped [] grouped = grouped
  no_job_grouped (j ∷ js) grouped = no_job_grouped js (mark grouped (JobConfig.name j) false)

  unfoldable pub group_jobs : List (JobConfig T) → List Name → Grouped → Grouped
  group_jobs jobs [] grouped = grouped
  group_jobs jobs (n ∷ ns) grouped =
      group_jobs jobs ns (if has (lookup_job jobs n) then mark grouped n true else grouped)

  unfoldable pub unknown_jobs : List (JobConfig T) → Name → List Name → List Message
  unknown_jobs jobs g [] = []
  unknown_jobs jobs g (n ∷ ns) =
      keep (not (has (lookup_job jobs n))) (Message.group_unknown_job g n) ++ unknown_jobs jobs g ns

  unfoldable pub validate_group : Config T → List GroupConfig → Grouped → List Message × Grouped
  validate_group c [] grouped = ([], grouped)
  validate_group c (g ∷ gs) grouped =
      let name = GroupConfig.group_name g in
      let rest = validate_group c gs (group_jobs (Config.jobs c) (GroupConfig.jobs g) grouped) in
      (
        unknown_jobs (Config.jobs c) name (GroupConfig.jobs g)
            ++ (unknown_resources (Config.resources c) name (GroupConfig.resources g) ++ rest.0),
        rest.1,
      )

  unfoldable pub validate_groups : Config T → List Message
  validate_groups c =
      let groups = validate_group c (Config.groups c) (no_job_grouped (Config.jobs c) no_jobs) in
      groups.0
      ++ (if is_empty (Config.groups c) then [] else ungrouped groups.1 (Grouped.keys groups.1))

  unfoldable pub used_resources : List (JobConfig T) → List (Name × Name)
  used_resources [] = []
  used_resources (j ∷ js) = inputs j ++ (outputs j ++ used_resources js)

  unfoldable pub validate_resources : Config T → Verdict
  validate_resources c =
      scan Part.resources_at ResourceConfig.name
        (validate_resource Part.resources_at Part.resources_name) [] 0 (Config.resources c)
      ⊕ failing (unused (used_resources (Config.jobs c)) (Config.resources c))

  unfoldable pub validate_resource_types : Config T → Verdict
  validate_resource_types c =
      scan Part.resource_types_at ResourceConfig.name
        (validate_resource Part.resource_types_at Part.resource_types_name) [] 0
        (Config.resource_types c)

module _ (api : Outside) where
  open api use {TaskConfig}

  abbrev pub no_fields : PlanFields TaskConfig
  no_fields = record {
    get = 0;
    passed = [];
    trigger = false;
    put = 0;
    resource = 0;
    task = 0;
    privileged = false;
    file = 0;
    config = none;
    params = 0;
    get_params = 0;
    input_mapping = 0;
    output_mapping = 0;
    tags = [];
    image = 0;
    timeout = 0;
    attempts = pos 0;
  }

  unfoldable pub validate_retention : Identifier → JobConfig TaskConfig → List Message
  validate_retention ident job = elim (JobConfig.build_logs_to_retain job) [
    | pos n ↦ []
    | negsuc n ↦ Message.negative_retention ident (negsuc n) ∷ []
  ]

  -- PlanConfig{Do: &job.Plan}
  unfoldable pub job_root : JobConfig TaskConfig → PlanConfig TaskConfig
  job_root job =
      plan no_fields (steps (JobConfig.job_plan job)) no_sequence absent absent absent absent absent

  unfoldable pub validate_job : Config TaskConfig → ℕ → JobConfig TaskConfig → Verdict
  validate_job c i job =
      let ident = identifier Part.jobs_at Part.jobs_name i (JobConfig.name job) in
      failing (keep (not (is_set (JobConfig.name job))) (Message.no_name ident))
      ⊕ failing (validate_retention ident job)
      ⊕ validate_plan api c (Part.plan_root ∷ ident) (job_root job)
      ⊕ optional (validate_maybe api c ident Part.abort (JobConfig.abort job))
      ⊕ optional (validate_maybe api c ident Part.failure (JobConfig.failure job))
      ⊕ optional (validate_maybe api c ident Part.ensure (JobConfig.ensure job))
      ⊕ optional (validate_maybe api c ident Part.success (JobConfig.success job))
      ⊕ failing (same_gets ident [] (inputs job))

  unfoldable pub validate_jobs : Config TaskConfig → Verdict
  validate_jobs c = scan Part.jobs_at JobConfig.name (validate_job c) [] 0 (Config.jobs c)

  -- The messages of the groups, the resources, the resource types and the jobs, before formatErr
  -- joins those of each section to one string.
  unfoldable pub validate : Config TaskConfig → Verdict
  validate c =
      failing (validate_groups c)
      ⊕ validate_resources c
      ⊕ validate_resource_types c
      ⊕ validate_jobs c
