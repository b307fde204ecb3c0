-- ===== src/Pipeline/Validate/Marks.antt =====
-- The map jobsGrouped of validateGroups: its keys, and what is marked in it.
use atc.Prelude.{
  ◌≡◌, refl, sym, subst, ◌∙◌, ◌↔◌, ◌⊎◌, inl, inr, true, false, List, [], ◌∷◌, Any, arith,
  Bool-cases,
}
use atc.Pipeline.Config.{Name, JobConfig, lookup_job}
use atc.Pipeline.Steps.{has}
use atc.Pipeline.Validate.{Grouped, contains_name, mark, no_job_grouped, group_jobs}

pub mark_known :
    (m : Grouped) (k : Name)
    → contains_name (Grouped.keys m) k ≡ true
    → Grouped.keys (mark m k true) ≡ Grouped.keys m
unfolding mark
mark_known m k h = ground (arith, h)

module _ {T : Type 0} where
  abbrev pub HasJob : List (JobConfig T) → Name → Type 0
  HasJob js n = Any (λ j. JobConfig.name j ≡ n) js

  pub lookup_job_iff :
      (js : List (JobConfig T)) (n : Name) → (has (lookup_job js n) ≡ true) ↔ HasJob js n
  unfolding lookup_job
  lookup_job_iff [] n = ground arith
  lookup_job_iff (j ∷ js) n = ground (arith, lookup_job_iff js n)

  -- All jobs get a key, and none is grouped at first.
  pub keys-no_job_grouped :
      (js : List (JobConfig T)) (m : Grouped) (n : Name)
      → (contains_name (Grouped.keys (no_job_grouped js m)) n ≡ true)
        ↔ ((contains_name (Grouped.keys m) n ≡ true) ⊎ HasJob js n)
  unfolding no_job_grouped mark contains_name
  keys-no_job_grouped [] m n = ground arith
  keys-no_job_grouped (j ∷ js) m n =
      ground (arith, keys-no_job_grouped js (mark m (JobConfig.name j) false) n)

  pub grouped-no_job_grouped :
      (js : List (JobConfig T)) (m : Grouped) (n : Name)
      → Grouped.grouped m n ≡ false
      → Grouped.grouped (no_job_grouped js m) n ≡ false
  unfolding no_job_grouped mark
  grouped-no_job_grouped [] m n h = h
  grouped-no_job_grouped (j ∷ js) m n h =
      grouped-no_job_grouped js (mark m (JobConfig.name j) false) n (ground (arith, h))

  -- A group marks its known jobs, and adds no key where all known jobs have one.
  pub grouped-group_jobs :
      (js : List (JobConfig T)) (ns : List Name) (m : Grouped) (n : Name)
      → (Grouped.grouped (group_jobs js ns m) n ≡ true)
        ↔ ((Grouped.grouped m n ≡ true) ⊎ ((has (lookup_job js n) ≡ true) × Any (λ k. k ≡ n) ns))
  unfolding group_jobs mark
  grouped-group_jobs js [] m n = ground arith
  grouped-group_jobs js (k ∷ ns) m n = elim (Bool-cases (has (lookup_job js k))) [
    | inl e ↦ ground (arith, e, grouped-group_jobs js ns (mark m k true) n)
    | inr e ↦ ground (arith, e, grouped-group_jobs js ns m n)
  ]

  -- The map has a key for every job.
  abbrev pub Covers : List (JobConfig T) → Grouped → Type 0
  Covers js m = (n : Name) → has (lookup_job js n) ≡ true → contains_name (Grouped.keys m) n ≡ true

  pub keys-group_jobs :
      (js : List (JobConfig T)) (ns : List Name) (m : Grouped)
      → Covers js m
      → Grouped.keys (group_jobs js ns m) ≡ Grouped.keys m
  unfolding group_jobs
  keys-group_jobs js [] m h = refl
  keys-group_jobs js (k ∷ ns) m h = elim (Bool-cases (has (lookup_job js k))) [
    | inl e ↦
        let same = mark_known m k (h k e) in
        rw e (
          keys-group_jobs js ns (mark m k true)
            (λ n u. subst (λ ks. contains_name ks n ≡ true) (sym same) (h n u))
          ∙ same)
    | inr e ↦ rw e (keys-group_jobs js ns m h)
  ]
