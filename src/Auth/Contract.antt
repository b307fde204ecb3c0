-- ===== src/Auth/Contract.antt =====
-- Who is to be let through by the guards, said by the claims of the caller.
use atc.Prelude.{◌≡◌, ◌≢◌, ◌⊎◌, Bool, true, false, Option, none, some}
use atc.Pipeline.Config.{Name, ℤ}
use atc.Auth.Guards.{
  Guard, no_check, build_read_any_job, build_read_private_job, build_write, worker_team,
  pipeline_access, authentication, admin, authorization,
}
use atc.Auth.Request.{Claims, Token, Verifier, Context, Params, Request, get_jwt}
use atc.Auth.Handlers.{
  Database, Pipeline, Build, Lookup, found, Response, served, changes_state, cookie_set,
}

-- A request as it comes in has nothing in its context.
abbrev pub no_context : Context
no_context = record {
  authenticated = none;
  team_name = none;
  is_admin = none;
  system = none;
  csrf_required = none;
}

unfoldable pub claims_of : Option Token → Option Claims
claims_of none = none
claims_of (some t) = some t.claims

-- The claims of who sends a request, with the header or the cookie.
abbrev pub caller : Verifier → Request → Option Claims
caller v r = claims_of (get_jwt v (cookie_set r))

unfoldable pub is_served : Response → Bool
is_served (served s) = true
is_served _ = false

-- A caller of a team has a claim to its name and one on whether it is the admin team.
abbrev pub IsMember : Claims → Name → Type 0
IsMember c name = (c.team_name ≡ some name) × (c.is_admin ≢ none)

abbrev pub HasNoTeam : Claims → Type 0
HasNoTeam c = (c.team_name ≡ none) ⊎ (c.is_admin ≡ none)

abbrev pub IsOfAdminTeam : Claims → Type 0
IsOfAdminTeam c = (c.is_admin ≡ some true) × (c.team_name ≢ none)

abbrev pub MayUse : Claims → Name → Type 0
MayUse c name = IsMember c name ⊎ HasNoTeam c

module _ (db : Database) where
  open db use {find_build, find_team, get_worker}

  abbrev pub IsBuildOf : Params → Build → Type 0
  IsBuildOf r b = (id : ℤ) × (r.build_param ≡ some id) × (find_build id ≡ found b)

  abbrev pub IsPipelineOf : Params → Pipeline → Type 0
  IsPipelineOf r p =
      (team_pipeline : Name → Lookup Pipeline) × (find_team r.team_param ≡ found team_pipeline)
      × (team_pipeline r.pipeline_param ≡ found p)

  abbrev pub IsPublicBuild : Build → Type 0
  IsPublicBuild b = (p : Pipeline) × (b.pipeline ≡ found p) × (Pipeline.is_public p ≡ true)

  abbrev pub IsPublicJobBuild : Build → Type 0
  IsPublicJobBuild b =
      (p : Pipeline) × (b.pipeline ≡ found p)
      × (Pipeline.is_public p ≡ true)
      × (Pipeline.job_is_public p b.job_name ≡ found true)

  -- What is asked of a caller with these claims.
  unfoldable pub IsAllowedTo : Guard → Claims → Params → Type 0
  IsAllowedTo no_check c r = Unit
  IsAllowedTo build_read_any_job c r =
      (b : Build) × IsBuildOf r b × (MayUse c b.team_name ⊎ IsPublicBuild b)
  IsAllowedTo build_read_private_job c r =
      (b : Build) × IsBuildOf r b × (MayUse c b.team_name ⊎ IsPublicJobBuild b)
  IsAllowedTo build_write c r = (b : Build) × IsBuildOf r b × MayUse c b.team_name
  IsAllowedTo worker_team c r =
      (c.system ≡ some true)
      ⊎ (IsOfAdminTeam c
          ⊎ ((name : Name) × IsMember c name × (get_worker r.worker_param ≡ found name)))
  IsAllowedTo pipeline_access c r =
      (p : Pipeline) × IsPipelineOf r p × (IsMember c r.team_param ⊎ (Pipeline.is_public p ≡ true))
  IsAllowedTo authentication c r = Unit
  IsAllowedTo admin c r = IsOfAdminTeam c
  IsAllowedTo authorization c r = IsMember c r.team_param

  -- What is asked where there is no caller.
  unfoldable pub IsOpenTo : Guard → Params → Type 0
  IsOpenTo no_check r = Unit
  IsOpenTo build_read_any_job r = (b : Build) × IsBuildOf r b × IsPublicBuild b
  IsOpenTo build_read_private_job r = (b : Build) × IsBuildOf r b × IsPublicJobBuild b
  IsOpenTo pipeline_access r = (p : Pipeline) × IsPipelineOf r p × (Pipeline.is_public p ≡ true)
  IsOpenTo _ r = ⊥

  unfoldable pub IsAllowed : Guard → Option Claims → Params → Type 0
  IsAllowed g none r = IsOpenTo g r
  IsAllowed g (some c) r = IsAllowedTo g c r

unfoldable pub csrf_claim : Option Claims → Option Name
csrf_claim none = none
csrf_claim (some c) = c.csrf

-- A request that changes the state and comes with the cookie has the token of its caller's claims.
unfoldable pub IsGenuine : Option Claims → Request → Type 0
IsGenuine o r =
    (changes_state r.method ≡ false)
    ⊎ ((r.cookie ≡ none) ⊎ ((csrf_claim o ≡ some r.csrf_header) × (r.csrf_header ≢ 0)))
