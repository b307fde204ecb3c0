-- ===== src/Auth/Unknown.antt =====
-- api/auth: which requests the guards let through without a caller.
use atc.Prelude.{◌≡◌, ◌⊎◌, ◌↔◌, inl, inr, refl, Bool, true, false, none, arith}
use atc.Auth.Guards.{Guard, no_check, build_read_any_job, build_read_private_job, pipeline_access}
use atc.Auth.Request.{Request, both_present, is_on, team_is_authorized}
use atc.Auth.Handlers.{
  Database, Pipeline, Build, found, check_admin, check_authentication, check_authorization,
  check_build_read, check_build_write, check_worker_team,
}
use atc.Auth.Api.{check_guard}
use atc.Auth.Contract.{is_served, IsBuildOf, IsOpenTo}
use atc.Auth.Lookups.{with_build_iff, read_from_outside_iff, pipeline_iff}

-- A request without a caller.
pub record IsUnknown (r : Request) : Type 0 where
  pub unknown : is_on r.context.authenticated ≡ false
  pub no_team : both_present r.context.team_name r.context.is_admin ≡ none

module _ (db : Database) (r : Request) (k : IsUnknown r) where
  outside_iff :
      (allow : Bool)
      → (is_served (check_build_read db allow r) ≡ true) ↔ (
          (b : Build) × IsBuildOf db r.params b
          × ((p : Pipeline) × (b.pipeline ≡ found p)
              × ((Pipeline.is_public p ≡ true)
                  × ((allow ≡ true) ⊎ (Pipeline.job_is_public p b.job_name ≡ found true)))))
  unfolding check_build_read is_served
  outside_iff allow =
      rw (IsUnknown.unknown k)
        (with_build_iff db r r.params.build_param _ _ (λ b. read_from_outside_iff db r allow b))

  abbrev Opens : Guard → Type 0
  Opens g = (is_served (check_guard db g r) ≡ true) ↔ IsOpenTo db g r.params

  open_pipeline_iff : Opens pipeline_access
  unfolding check_guard IsOpenTo team_is_authorized
  open_pipeline_iff =
      let iff = pipeline_iff db r ⊥ (ground (arith, IsUnknown.no_team k)) in
      (
        (λ h. let s = iff.0 h in (s.0, s.1, elim s.2 [ inl a ↦ absurd a | inr e ↦ e ])),
        (λ s. iff.1 (s.0, s.1, inr s.2)),
      )

  open_any_job_iff : Opens build_read_any_job
  unfolding check_guard IsOpenTo
  open_any_job_iff = (
    (λ h. let s = (outside_iff true).0 h in (s.0, s.1, (s.2.0, s.2.1, s.2.2.0))),
    (λ s. (outside_iff true).1 (s.0, s.1, (s.2.0, s.2.1, (s.2.2, inl refl)))),
  )

  open_private_job_iff : Opens build_read_private_job
  unfolding check_guard IsOpenTo
  open_private_job_iff = (
    (λ h.
        let s = (outside_iff false).0 h in
        (s.0, s.1, (s.2.0, s.2.1, s.2.2.0, ground (arith, s.2.2.1)))),
    (λ s. (outside_iff false).1 (s.0, s.1, (s.2.0, s.2.1, (s.2.2, inr s.2.3)))),
  )

  pub IsUnknown-check_guard : (g : Guard) → Opens g
  unfolding check_guard IsOpenTo is_served check_build_write check_worker_team check_authentication
      check_admin check_authorization
  IsUnknown-check_guard build_read_any_job = open_any_job_iff
  IsUnknown-check_guard build_read_private_job = open_private_job_iff
  IsUnknown-check_guard pipeline_access = open_pipeline_iff
  IsUnknown-check_guard no_check = (λ h. tt, λ h. refl)
  IsUnknown-check_guard _ = ground (arith, IsUnknown.unknown k)
