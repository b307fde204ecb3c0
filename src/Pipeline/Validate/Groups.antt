-- ===== src/Pipeline/Validate/Groups.antt =====
-- validateGroups reports nothing exactly if groups name what exists and leave no job out.
use atc.Prelude.{
  ◌≡◌, refl, sym, subst, ◌∙◌, ◌↔◌, ◌⊎◌, inl, inr, true, not, List, [], ◌∷◌, ◌==◌, All, Any, arith,
  Bool-cases, if◌then◌else◌,
}
use mathlib.Core.List.{append-eq-nil_iff}
use atc.Pipeline.Config.{
  Name, Outside, ResourceConfig, JobConfig, GroupConfig, Config, lookup_job, is_empty,
}
use atc.Pipeline.Messages.{Message}
use atc.Pipeline.Steps.{keep, has}
use atc.Pipeline.Valid.Reports.{append-nil_iff, keep_iff, not_iff, iff_trans, lookup_iff}
use atc.Pipeline.Validate.{
  Grouped, contains_name, ungrouped, no_jobs, no_job_grouped, group_jobs, unknown_jobs,
  unknown_resources, validate_group, validate_groups,
}
use atc.Pipeline.Validate.Contract.{InGroup, GroupsOk}
use atc.Pipeline.Validate.Marks.{
  HasJob, lookup_job_iff, keys-no_job_grouped, grouped-no_job_grouped, grouped-group_jobs, Covers,
  keys-group_jobs,
}

unknown_jobs_iff :
    {T : Type 0} (js : List (JobConfig T)) (g : Name) (ns : List Name)
    → (unknown_jobs js g ns ≡ []) ↔ All (HasJob js) ns
unfolding unknown_jobs
unknown_jobs_iff js g [] = ((λ e. tt), (λ v. refl))
unknown_jobs_iff js g (n ∷ ns) =
    append-nil_iff (iff_trans (keep_iff _ _) (iff_trans not_iff (lookup_job_iff js n)))
      (unknown_jobs_iff js g ns)

unknown_resources_iff :
    (rs : List ResourceConfig) (g : Name) (ns : List Name)
    → (unknown_resources rs g ns ≡ []) ↔ All (λ n. Any (λ r. ResourceConfig.name r ≡ n) rs) ns
unfolding unknown_resources
unknown_resources_iff rs g [] = ((λ e. tt), (λ v. refl))
unknown_resources_iff rs g (n ∷ ns) =
    append-nil_iff (iff_trans (keep_iff _ _) (iff_trans not_iff (lookup_iff rs n)))
      (unknown_resources_iff rs g ns)

ungrouped_iff :
    (m : Grouped) (ks : List Name)
    → (ungrouped m ks ≡ []) ↔ All (λ k. Grouped.grouped m k ≡ true) ks
unfolding ungrouped
ungrouped_iff m [] = ((λ e. tt), (λ v. refl))
ungrouped_iff m (k ∷ ks) = ground (
  arith,
  append-eq-nil_iff {p = keep (not (Grouped.grouped m k)) (Message.in_no_group k)}
      {q = ungrouped m ks},
  ungrouped_iff m ks,
)

-- A predicate of all keys, and of all jobs, by their names.
All-keys_iff :
    (P : Name → Type 0) (ks : List Name) → All P ks ↔ ((n : Name) → contains_name ks n ≡ true → P n)
unfolding contains_name
All-keys_iff P [] = ((λ v n e. absurd (ground (arith, e))), (λ v. tt))
All-keys_iff P (k ∷ ks) =
    let rest = All-keys_iff P ks in
    (
      λ v n e. elim (Bool-cases (k == n)) [
        | inl u ↦ subst P (ground (arith, u)) v.0
        | inr u ↦ rest.0 v.1 n (ground (arith, u, e))
      ],
      λ f. (f k (ground arith), rest.1 (λ n e. f n (ground (arith, e)))),
    )

module _ {T : Type 0} where
  All-jobs_iff :
      (P : Name → Type 0) (js : List (JobConfig T))
      → All (λ j. P (JobConfig.name j)) js ↔ ((n : Name) → HasJob js n → P n)
  All-jobs_iff P [] = ((λ v n e. absurd e), (λ v. tt))
  All-jobs_iff P (j ∷ js) =
      let rest = All-jobs_iff P js in
      (
        λ v n e. elim e [ inl u ↦ subst P u v.0 | inr u ↦ rest.0 v.1 n u ],
        λ f. (f (JobConfig.name j) (inl refl), rest.1 (λ n e. f n (inr e))),
      )

module _ (api : Outside) where
  open api use {TaskConfig}

  grouped-validate_group :
      (c : Config TaskConfig) (gs : List GroupConfig) (m : Grouped) (n : Name)
      → (Grouped.grouped (validate_group c gs m).1 n ≡ true) ↔ (
          (Grouped.grouped m n ≡ true)
          ⊎ ((has (lookup_job (Config.jobs c) n) ≡ true) × InGroup api gs n))
  unfolding validate_group
  grouped-validate_group c [] m n = ground arith
  grouped-validate_group c (g ∷ gs) m n = ground (
    arith,
    grouped-validate_group c gs (group_jobs (Config.jobs c) (GroupConfig.jobs g) m) n,
    grouped-group_jobs (Config.jobs c) (GroupConfig.jobs g) m n,
  )

  keys-validate_group :
      (c : Config TaskConfig) (gs : List GroupConfig) (m : Grouped)
      → Covers (Config.jobs c) m
      → Grouped.keys (validate_group c gs m).1 ≡ Grouped.keys m
  unfolding validate_group
  keys-validate_group c [] m h = refl
  keys-validate_group c (g ∷ gs) m h =
      let same = keys-group_jobs (Config.jobs c) (GroupConfig.jobs g) m h in
      keys-validate_group c gs (group_jobs (Config.jobs c) (GroupConfig.jobs g) m)
        (λ n u. subst (λ ks. contains_name ks n ≡ true) (sym same) (h n u))
      ∙ same

  known_iff :
      (c : Config TaskConfig) (gs : List GroupConfig) (m : Grouped)
      → ((validate_group c gs m).0 ≡ [])
        ↔ All
            (λ g.
              All (HasJob (Config.jobs c)) (GroupConfig.jobs g)
              × All
                  (λ n. Any (λ r. ResourceConfig.name r ≡ n) (Config.resources c))
                  (GroupConfig.resources g))
            gs
  unfolding validate_group
  known_iff c [] m = ((λ e. tt), (λ v. refl))
  known_iff c (g ∷ gs) m =
      let all =
        append-nil_iff
          (unknown_jobs_iff (Config.jobs c) (GroupConfig.group_name g) (GroupConfig.jobs g))
          (append-nil_iff
            (unknown_resources_iff (Config.resources c) (GroupConfig.group_name g)
              (GroupConfig.resources g))
            (known_iff c gs (group_jobs (Config.jobs c) (GroupConfig.jobs g) m))) in
      (λ e. (((all.0 e).0, (all.0 e).1.0), (all.0 e).1.1), λ v. all.1 (v.0.0, (v.0.1, v.1)))

  -- The map that validateGroups starts from.
  Covers-all :
      (c : Config TaskConfig) → Covers (Config.jobs c) (no_job_grouped (Config.jobs c) no_jobs)
  Covers-all c n e =
      (keys-no_job_grouped (Config.jobs c) no_jobs n).1
        (inr ((lookup_job_iff (Config.jobs c) n).0 e))

  has_key_iff :
      (c : Config TaskConfig) (n : Name)
      → (contains_name (Grouped.keys (no_job_grouped (Config.jobs c) no_jobs)) n ≡ true)
        ↔ HasJob (Config.jobs c) n
  unfolding contains_name
  has_key_iff c n = ground (arith, keys-no_job_grouped (Config.jobs c) no_jobs n)

  grouped_iff :
      (c : Config TaskConfig) (gs : List GroupConfig) (n : Name)
      → HasJob (Config.jobs c) n
      → (Grouped.grouped (validate_group c gs (no_job_grouped (Config.jobs c) no_jobs)).1 n ≡ true)
        ↔ InGroup api gs n
  grouped_iff c gs n h = ground (
    arith,
    (lookup_job_iff (Config.jobs c) n).1 h,
    grouped-no_job_grouped (Config.jobs c) no_jobs n refl,
    grouped-validate_group c gs (no_job_grouped (Config.jobs c) no_jobs) n,
  )

  no_job_left_out :
      (c : Config TaskConfig) (gs : List GroupConfig)
      → let m = (validate_group c gs (no_job_grouped (Config.jobs c) no_jobs)).1 in
        (ungrouped m (Grouped.keys m) ≡ [])
        ↔ All (λ j. InGroup api gs (JobConfig.name j)) (Config.jobs c)
  no_job_left_out c gs =
      let start = no_job_grouped (Config.jobs c) no_jobs in
      let m = (validate_group c gs start).1 in
      let same = keys-validate_group c gs start (Covers-all c) in
      let keys = All-keys_iff (λ k. Grouped.grouped m k ≡ true) (Grouped.keys m) in
      let jobs = All-jobs_iff (InGroup api gs) (Config.jobs c) in
      let key = λ (n : Name).
        subst (λ ks. (contains_name ks n ≡ true) ↔ HasJob (Config.jobs c) n) (sym same)
          (has_key_iff c n) in
      (
        λ e. jobs.1 (λ n h.
            (grouped_iff c gs n h).0
              (keys.0 ((ungrouped_iff m (Grouped.keys m)).0 e) n ((key n).1 h))),
        λ v.
            (ungrouped_iff m (Grouped.keys m)).1
              (keys.1 (λ n e. (grouped_iff c gs n ((key n).0 e)).1 (jobs.0 v n ((key n).0 e)))),
      )

  left_out_iff :
      (c : Config TaskConfig) (gs : List GroupConfig)
      → let m = (validate_group c gs (no_job_grouped (Config.jobs c) no_jobs)).1 in
        ((if is_empty gs then [] else ungrouped m (Grouped.keys m)) ≡ [])
        ↔ ((gs ≡ []) ⊎ All (λ j. InGroup api gs (JobConfig.name j)) (Config.jobs c))
  left_out_iff c [] = ((λ e. inl refl), (λ v. refl))
  left_out_iff c (g ∷ gs) = (
    λ e. inr ((no_job_left_out c (g ∷ gs)).0 e),
    λ v. elim v [ inl e ↦ absurd (ground (arith, e)) | inr a ↦ (no_job_left_out c (g ∷ gs)).1 a ],
  )

  -- validateGroups reports nothing exactly if every group names known jobs and resources, and there
  -- are no groups or every job is in one.
  pub validate_groups_lem : (c : Config TaskConfig) → (validate_groups c ≡ []) ↔ GroupsOk api c
  unfolding validate_groups
  validate_groups_lem c =
      append-nil_iff (known_iff c (Config.groups c) (no_job_grouped (Config.jobs c) no_jobs))
        (left_out_iff c (Config.groups c))
