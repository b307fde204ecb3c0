-- ===== src/Scheduler/Jobs/Triggered.antt =====
-- When an input triggers a build: its version was never used by the job as that input.
use Prim.Native.String.{String}
use text.Mathlib.Text.{◌==◌ as str_eq}
use text.Mathlib.TextEquality.{eq_iff}
use atc.Prelude.{
  ℕ, suc, ◌≡◌, refl, ◌↔◌, subst, ap, sym, ◌∙◌, true, Option, none, some, Option-cases,
  some-injective, List, [], ◌∷◌, length, All, Any, arith, Bool-cases, inl, inr,
}
use atc.Algorithm.Database.{BuildInput, VersionsDb, is_first_occurrence}
use atc.Algorithm.Inputs.{Answer, out_of_fuel, not_found, found, reduce}
use atc.Algorithm.Resolve.{
  InputConfig, InputVersion, InputMapping, put_input, version_at, mapping_from, resolved, resolve,
  resolution_of, gather,
}
use atc.Scheduler.Tables.{lookup_input}
use atc.Scheduler.Mapper.{
  JobInput, FindVersion, id_of, config_of, add_config, transform_input_configs,
}
use atc.Scheduler.Mapper.Counts.{lookup-put_input}
use atc.Scheduler.Mapper.Transformed.{transform_step}
use atc.Scheduler.Jobs.{is_trigger, triggers_build}

-- No build of the job had the version as the input of the name.
abbrev pub NeverUsed : ℕ → ℕ → String → List BuildInput → Type 0
NeverUsed version job_id name inputs =
    All (λ i. i.version_id ≡ version → i.job_id ≡ job_id → i.input_name ≡ name → ⊥) inputs

NeverUsed-iff :
    (version job_id : ℕ) (name : String) (inputs : List BuildInput)
    → (is_first_occurrence version job_id name inputs ≡ true) ↔ NeverUsed version job_id name inputs
unfolding is_first_occurrence
NeverUsed-iff version job_id name [] = ((λ e. tt), (λ v. refl))
NeverUsed-iff version job_id name (i ∷ inputs) =
    ground (arith, NeverUsed-iff version job_id name inputs, eq_iff i.input_name name)

-- An input that triggers builds has a version in the mapping that the job never used as this input.
abbrev pub IsTriggered : VersionsDb → String → List JobInput → InputMapping → Type 0
IsTriggered db job_name inputs m =
    Any
      (λ input.
        (input.trigger ≡ true)
        × ((v : InputVersion) × (lookup_input input.name m ≡ some v)
            × NeverUsed v.version_id (id_of job_name db.job_ids) input.name db.build_inputs))
      inputs

module _ (db : VersionsDb) (job_id : ℕ) where
  -- Every entry says whether its version was never used.
  Marked : InputMapping → Type 0
  Marked m =
      (name : String) (v : InputVersion)
      → lookup_input name m ≡ some v
      → v.first_occurrence ≡ is_first_occurrence v.version_id job_id name db.build_inputs

  put_input-Marked :
      (k : String) (w : InputVersion) (m : InputMapping)
      → w.first_occurrence ≡ is_first_occurrence w.version_id job_id k db.build_inputs
      → Marked m
      → Marked (put_input k w m)
  unfolding Marked
  put_input-Marked k w m e h name v found_ = elim (Bool-cases (str_eq k name)) [
    | inl same ↦
        let same_version = some-injective w v (ground (arith, lookup-put_input name k w m)) in
        subst
          (λ (u : InputVersion).
            u.first_occurrence ≡ is_first_occurrence u.version_id job_id name db.build_inputs)
          same_version
          (subst
            (λ n. w.first_occurrence ≡ is_first_occurrence w.version_id job_id n db.build_inputs)
            ((eq_iff k name).0 same) e)
    | inr other ↦ h name v (ground (arith, lookup-put_input name k w m))
  ]

  mapping_from-Marked :
      (basic : List (String × ℕ)) (acc : InputMapping) (configs : List InputConfig)
      → All (λ c. c.job_id ≡ job_id) configs
      → Marked acc
      → Marked (mapping_from db basic acc configs)
  unfolding mapping_from
  mapping_from-Marked basic acc [] same h = h
  mapping_from-Marked basic acc (c ∷ configs) same h =
      mapping_from-Marked basic (put_input c.name _ acc) configs same.1 (
        put_input-Marked c.name _ acc
          (ap (λ j. is_first_occurrence (version_at c.name basic) j c.name db.build_inputs) same.0)
          h)

  resolution_of-Marked :
      (configs : List InputConfig) (a : Answer) (m : InputMapping)
      → All (λ c. c.job_id ≡ job_id) configs
      → resolution_of db configs a ≡ resolved m
      → Marked m
  unfolding resolution_of lookup_input Marked
  resolution_of-Marked configs out_of_fuel m same e = absurd (ground arith)
  resolution_of-Marked configs not_found m same e = absurd (ground arith)
  resolution_of-Marked configs (found basic) m same e =
      subst Marked (ground (arith, e))
        (mapping_from-Marked basic [] configs same (λ name v f. absurd (ground arith)))

  resolve-Marked :
      (configs : List InputConfig) (m : InputMapping)
      → All (λ c. c.job_id ≡ job_id) configs
      → resolve db configs ≡ resolved m
      → Marked m
  unfolding resolve
  resolve-Marked configs m same e = elim (Option-cases (gather db [] [] configs)) [
    | inl none_left ↦ absurd (ground arith)
    | inr ((jobs, cs), g) ↦
        resolution_of-Marked configs (reduce (suc (length configs)) jobs cs) m same (ground arith)
  ]

module _ (find : FindVersion) (db : VersionsDb) (job_name : String) where
  OfJob : List InputConfig → Type 0
  OfJob = All (λ c. c.job_id ≡ id_of job_name db.job_ids)

  add_config-OfJob :
      (input : JobInput) (pinned : Option ℕ) (rest : List InputConfig)
      → OfJob rest
      → OfJob (add_config db job_name input pinned rest)
  unfolding add_config OfJob config_of
  add_config-OfJob input none rest h = h
  add_config-OfJob input (some id) rest h = (refl, h)

  transform-OfJob :
      (inputs : List JobInput) (configs : List InputConfig)
      → transform_input_configs find db job_name inputs ≡ some configs
      → OfJob configs
  unfolding transform_input_configs OfJob
  transform-OfJob [] configs e = subst OfJob (some-injective [] configs e) tt
  transform-OfJob (input ∷ inputs) configs e =
      let (pinned, rest, p, q, r) = transform_step find db job_name input inputs configs e in
      subst OfJob r (add_config-OfJob input pinned rest (transform-OfJob inputs rest q))

  is_trigger_iff :
      (m : InputMapping) (input : JobInput)
      → Marked db (id_of job_name db.job_ids) m
      → (is_trigger m input ≡ true) ↔ (
          (input.trigger ≡ true)
          × ((v : InputVersion) × (lookup_input input.name m ≡ some v)
              × NeverUsed v.version_id (id_of job_name db.job_ids) input.name db.build_inputs))
  unfolding is_trigger Marked
  is_trigger_iff m input marked = elim (Option-cases (lookup_input input.name m)) [
    | inl e ↦ (λ h. absurd (ground (arith, e, h)), λ h. absurd (ground (arith, e, h.1.1)))
    | inr (v, e) ↦
        let used =
          NeverUsed-iff v.version_id (id_of job_name db.job_ids) input.name db.build_inputs in
        let first = marked input.name v e in
        (
          λ h. (ground (arith, e, h), (v, e, used.0 (ground (arith, e, h, first)))),
          λ h.
              let same = some-injective v h.1.0 (sym e ∙ h.1.1) in
              let never =
                subst
                  (λ (u : InputVersion).
                    NeverUsed u.version_id (id_of job_name db.job_ids) input.name db.build_inputs)
                  (sym same) h.1.2 in
              ground (arith, e, h.0, first, used.1 never),
        )
  ]

  triggers_iff :
      (m : InputMapping) (inputs : List JobInput)
      → Marked db (id_of job_name db.job_ids) m
      → (triggers_build m inputs ≡ true) ↔ IsTriggered db job_name inputs m
  unfolding triggers_build
  triggers_iff m [] marked = ground arith
  triggers_iff m (input ∷ inputs) marked =
      let here = is_trigger_iff m input marked in
      let later = triggers_iff m inputs marked in
      (
        λ h. elim (Bool-cases (is_trigger m input)) [
          | inl e ↦ inl (here.0 e)
          | inr e ↦ inr (later.0 (ground (arith, h, e)))
        ],
        λ h. elim h [ inl t ↦ ground (arith, here.1 t) | inr t ↦ ground (arith, later.1 t) ],
      )

  -- In the mapping that the inputs of the job resolve to, the trigger loop finds what triggers.
  pub triggers_build-IsTriggered :
      (inputs : List JobInput) (configs : List InputConfig) (m : InputMapping)
      → transform_input_configs find db job_name inputs ≡ some configs
      → resolve db configs ≡ resolved m
      → (triggers_build m inputs ≡ true) ↔ IsTriggered db job_name inputs m
  unfolding OfJob
  triggers_build-IsTriggered inputs configs m e r =
      triggers_iff m inputs (
        resolve-Marked db (id_of job_name db.job_ids) configs m (transform-OfJob inputs configs e)
          r)
