-- ===== src/Build/Plan.antt =====
-- plan.go and plan_factory.go: build plans, and the factory that numbers them.
use atc.Prelude.{ℕ, Bool, Option, List, [], ◌∷◌, ◌++◌}
use atc.Pipeline.Config.{Name, Object}

-- VersionedResourceType: the fields of a ResourceType, and the version of it that is used.
pub record VersionedResourceType : Type 0 where
  pub name : Name
  pub type : Name
  pub source : Object
  pub privileged : Bool
  pub tags : List Name
  pub params : Object
  pub version : ℕ

pub record GetPlan : Type 0 where
  pub type : Name
  pub name : Name
  pub resource : Name
  pub source : Object
  pub params : Object
  pub tags : List Name
  -- Version, a pointer, with `some none` for one to a nil map; and VersionFrom, the id of another plan.
  pub version : Option (Option ℕ)
  pub version_from : Option ℕ
  pub resource_types : List VersionedResourceType

pub record PutPlan : Type 0 where
  pub type : Name
  pub name : Name
  pub resource : Name
  pub source : Object
  pub params : Object
  pub tags : List Name
  pub resource_types : List VersionedResourceType

pub record TaskPlan (T : Type 0) : Type 0 where
  pub name : Name
  pub privileged : Bool
  pub tags : List Name
  pub params : Object
  pub input_mapping : Object
  pub output_mapping : Object
  pub config_path : Name
  pub config : Option T
  pub image : Name
  pub resource_types : List VersionedResourceType

-- Only the plans of old builds have one.
pub record DependentGetPlan : Type 0 where
  pub type : Name
  pub name : Name
  pub resource : Name

-- ID and Attempts, which every plan has beside its step.
pub record Header : Type 0 where
  pub id : ℕ
  pub attempts : List ℕ

-- A plan that is made has no attempts yet.
abbrev pub fresh : ℕ → Header
fresh n = record { id = n; attempts = [] }

-- A plan with its header; `empty` is the zero value, `atc.Plan{}`.
mutual
  pub data Plan (T : Type 0) : Type 0 where
    empty : Plan T
    aggregate do_ retry : Header → Plans T → Plan T
    get : Header → GetPlan → Plan T
    put : Header → PutPlan → Plan T
    dependent_get : Header → DependentGetPlan → Plan T
    task : Header → TaskPlan T → Plan T
    on_abort ensure on_success on_failure : Header → (step next : Plan T) → Plan T
    try_ : Header → Plan T → Plan T
    timeout : Header → Name → Plan T → Plan T

  pub data Plans (T : Type 0) : Type 0 where
    nil : Plans T
    cons : Plan T → Plans T → Plans T

module _ {T : Type 0} where
  -- The ids of a plan and of the plans in it, the plan itself last.
  unfoldable mutual
    pub ids : Plan T → List ℕ
    ids empty = []
    ids (aggregate n ps) = all_ids ps ++ (n.id ∷ [])
    ids (do_ n ps) = all_ids ps ++ (n.id ∷ [])
    ids (retry n ps) = all_ids ps ++ (n.id ∷ [])
    ids (get n g) = n.id ∷ []
    ids (put n p) = n.id ∷ []
    ids (dependent_get n p) = n.id ∷ []
    ids (task n t) = n.id ∷ []
    ids (on_abort n p q) = ids p ++ (ids q ++ (n.id ∷ []))
    ids (ensure n p q) = ids p ++ (ids q ++ (n.id ∷ []))
    ids (on_success n p q) = ids p ++ (ids q ++ (n.id ∷ []))
    ids (on_failure n p q) = ids p ++ (ids q ++ (n.id ∷ []))
    ids (try_ n p) = ids p ++ (n.id ∷ [])
    ids (timeout n d p) = ids p ++ (n.id ∷ [])

    pub all_ids : Plans T → List ℕ
    all_ids nil = []
    all_ids (cons p ps) = ids p ++ all_ids ps

  -- Attempts, which the zero value has none of.
  unfoldable pub attempts_in : Plan T → List ℕ
  attempts_in empty = []
  attempts_in (aggregate n ps) = n.attempts
  attempts_in (do_ n ps) = n.attempts
  attempts_in (retry n ps) = n.attempts
  attempts_in (get n g) = n.attempts
  attempts_in (put n p) = n.attempts
  attempts_in (dependent_get n p) = n.attempts
  attempts_in (task n t) = n.attempts
  attempts_in (on_abort n p q) = n.attempts
  attempts_in (ensure n p q) = n.attempts
  attempts_in (on_success n p q) = n.attempts
  attempts_in (on_failure n p q) = n.attempts
  attempts_in (try_ n p) = n.attempts
  attempts_in (timeout n d p) = n.attempts
