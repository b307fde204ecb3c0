-- ===== src/Auth/Known.antt =====
-- api/auth: whom the guards let through among the callers with claims.
use atc.Prelude.{
  not, ◌==◌, ◌≡◌, ◌≢◌, ◌⊎◌, ◌↔◌, inl, inr, refl, Bool, true, false, Option, none, some, arith,
  if◌then◌else◌,
}
use atc.Pipeline.Config.{Name}
use atc.Auth.Guards.{
  Guard, no_check, build_read_any_job, build_read_private_job, build_write, worker_team,
  pipeline_access, authentication, admin, authorization,
}
use atc.Auth.Request.{Team, Claims, Request, both_present, is_on, team_is_authorized}
use atc.Auth.Handlers.{
  unscoped, not_found, forbidden, Database, Pipeline, Build, found, served, check_admin,
  check_authentication, check_authorization, check_build_read, check_build_write, check_team_worker,
  check_worker_team, is_other_team,
}
use atc.Auth.Api.{check_guard}
use atc.Auth.Contract.{is_served, IsMember, MayUse, IsBuildOf, IsAllowedTo}
use atc.Auth.Lookups.{
  on_lookup_iff, if_or_iff, or_else_iff, with_build_iff, read_from_outside_iff, pipeline_iff,
}

abbrev pub is_admin_team : Option Team → Bool
is_admin_team none = false
is_admin_team (some t) = t.is_admin

module _ (n : Option Name) (a : Option Bool) (name : Name) where
  pub IsMember_iff :
      (team_is_authorized (both_present n a) name ≡ true) ↔ ((n ≡ some name) × (a ≢ none))
  unfolding team_is_authorized both_present
  IsMember_iff = ground arith

  pub MayUse_iff :
      (is_other_team (both_present n a) name ≡ false)
      ↔ (((n ≡ some name) × (a ≢ none)) ⊎ ((n ≡ none) ⊎ (a ≡ none)))
  unfolding is_other_team both_present
  MayUse_iff = ground arith

  pub IsOfAdminTeam_iff : (is_admin_team (both_present n a) ≡ true) ↔ ((a ≡ some true) × (n ≢ none))
  unfolding both_present
  IsOfAdminTeam_iff = ground arith

pub is_on_iff : (o : Option Bool) → (is_on o ≡ true) ↔ (o ≡ some true)
unfolding is_on
is_on_iff o = ground arith

-- What the handlers read in the context of a request of a caller with these claims.
pub record IsKnown (c : Claims) (r : Request) : Type 0 where
  pub known : is_on r.context.authenticated ≡ true
  pub team :
      both_present r.context.team_name r.context.is_admin ≡ both_present c.team_name c.is_admin
  pub admin : is_on r.context.is_admin ≡ is_admin_team (both_present c.team_name c.is_admin)
  pub system : is_on r.context.system ≡ is_on c.system

module _ (db : Database) (c : Claims) (r : Request) (k : IsKnown c r) where
  abbrev Lets : Guard → Type 0
  Lets g = (is_served (check_guard db g r) ≡ true) ↔ IsAllowedTo db g c r.params

  authentication_iff : Lets authentication
  unfolding check_guard IsAllowedTo check_authentication is_served
  authentication_iff = ground (arith, IsKnown.known k)

  admin_iff : Lets admin
  unfolding check_guard IsAllowedTo check_admin is_served
  admin_iff =
      ground (arith, IsKnown.known k, IsKnown.admin k, IsOfAdminTeam_iff c.team_name c.is_admin)

  authorization_iff : Lets authorization
  unfolding check_guard IsAllowedTo check_authorization is_served
  authorization_iff = ground (
    arith,
    IsKnown.known k,
    IsKnown.team k,
    IsMember_iff c.team_name c.is_admin r.params.team_param,
  )

  build_write_iff : Lets build_write
  unfolding check_guard IsAllowedTo check_build_write is_served
  build_write_iff =
      rw (IsKnown.known k, IsKnown.team k)
        (with_build_iff db r r.params.build_param _ _
          (λ b. ground (arith, MayUse_iff c.team_name c.is_admin b.team_name)))

  build_read_iff :
      (allow : Bool)
      → (is_served (check_build_read db allow r) ≡ true) ↔ (
          (b : Build) × IsBuildOf db r.params b
          × (MayUse c b.team_name
              ⊎ ((p : Pipeline) × (b.pipeline ≡ found p)
                  × ((Pipeline.is_public p ≡ true)
                      × ((allow ≡ true) ⊎ (Pipeline.job_is_public p b.job_name ≡ found true))))))
  unfolding check_build_read is_served
  build_read_iff allow =
      rw (IsKnown.known k, IsKnown.team k)
        (with_build_iff db r r.params.build_param _ _ (λ b.
          if_or_iff (is_other_team (both_present c.team_name c.is_admin) b.team_name) _ _ _ _
            (MayUse_iff c.team_name c.is_admin b.team_name) (read_from_outside_iff db r allow b)
            refl))

  pipeline_access_iff : Lets pipeline_access
  unfolding check_guard IsAllowedTo
  pipeline_access_iff =
      pipeline_iff db r (IsMember c r.params.team_param)
        (rw (IsKnown.team k) (IsMember_iff c.team_name c.is_admin r.params.team_param))

  check_team_worker_iff :
      (n : Option Name) (a : Option Bool)
      → (is_served (check_team_worker db r (both_present n a)) ≡ true) ↔ (
          ((a ≡ some true) × (n ≢ none))
          ⊎ ((name : Name) × ((n ≡ some name) × (a ≢ none))
              × (Database.get_worker db r.params.worker_param ≡ found name)))
  unfolding check_team_worker both_present is_served
  check_team_worker_iff none a = (λ h. absurd (ground arith), λ o. absurd (ground (arith, o)))
  check_team_worker_iff (some n) none =
      (λ h. absurd (ground arith), λ o. absurd (ground (arith, o)))
  check_team_worker_iff (some n) (some true) = (λ h. inl (refl, ground arith), λ o. refl)
  check_team_worker_iff (some n) (some false) =
      let iff =
        on_lookup_iff (Database.get_worker db r.params.worker_param) not_found
          (λ owner. if not (owner == n) then forbidden else served unscoped) (λ owner. owner ≡ n)
          refl (λ owner. ground arith) in
      (
        (λ h.
            let s : (owner : Name) × (Database.get_worker db r.params.worker_param ≡ found owner)
                × (owner ≡ n) =
              iff.0 h in
            inr (n, (refl, ground arith), ground (arith, s.1, s.2))),
        λ o. elim o [
          | inl p ↦ absurd (ground (arith, p.0))
          | inr q ↦ iff.1 (q.0, q.2, ground (arith, q.1.0))
        ],
      )

  worker_team_iff : Lets worker_team
  unfolding check_guard IsAllowedTo check_worker_team is_served
  worker_team_iff =
      rw (IsKnown.known k, IsKnown.team k, IsKnown.system k)
        (or_else_iff (is_on c.system) _ _ _ _ (is_on_iff c.system) refl
          (check_team_worker_iff c.team_name c.is_admin))

  build_read_any_job_iff : Lets build_read_any_job
  unfolding check_guard IsAllowedTo
  build_read_any_job_iff = (
    (λ h.
        let s = (build_read_iff true).0 h in
        (s.0, s.1, elim s.2 [ inl m ↦ inl m | inr p ↦ inr (p.0, p.1, p.2.0) ])),
    (λ s.
        (build_read_iff true).1
          (s.0, s.1, elim s.2 [ inl m ↦ inl m | inr p ↦ inr (p.0, p.1, (p.2, inl refl)) ])),
  )

  build_read_private_job_iff : Lets build_read_private_job
  unfolding check_guard IsAllowedTo
  build_read_private_job_iff = (
    (λ h.
        let s = (build_read_iff false).0 h in
        (
          s.0,
          s.1,
          elim s.2 [ inl m ↦ inl m | inr p ↦ inr (p.0, p.1, p.2.0, ground (arith, p.2.1)) ],
        )),
    (λ s.
        (build_read_iff false).1
          (s.0, s.1, elim s.2 [ inl m ↦ inl m | inr p ↦ inr (p.0, p.1, (p.2, inr p.3)) ])),
  )

  pub IsKnown-check_guard : (g : Guard) → Lets g
  unfolding check_guard IsAllowedTo is_served
  IsKnown-check_guard no_check = (λ h. tt, λ h. refl)
  IsKnown-check_guard build_read_any_job = build_read_any_job_iff
  IsKnown-check_guard build_read_private_job = build_read_private_job_iff
  IsKnown-check_guard build_write = build_write_iff
  IsKnown-check_guard worker_team = worker_team_iff
  IsKnown-check_guard pipeline_access = pipeline_access_iff
  IsKnown-check_guard authentication = authentication_iff
  IsKnown-check_guard admin = admin_iff
  IsKnown-check_guard authorization = authorization_iff
