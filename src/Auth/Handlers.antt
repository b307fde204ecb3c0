-- ===== src/Auth/Handlers.antt =====
-- api/auth: the handlers that check a request before they pass it on.
use atc.Prelude.{
  Bool, true, false, not, ◌&&◌, ◌||◌, Option, none, some, List, [], ◌∷◌, ◌==◌, if◌then◌else◌,
}
use atc.Pipeline.Config.{Name, ℤ}
use atc.Auth.Routes.{Method, get, head, options}
use atc.Auth.Request.{
  Verifier, Context, Request, Team, get_jwt, token_is_authenticated, reader_get_team,
  reader_get_system, reader_get_csrf_token, is_on, is_authenticated, is_admin, is_system, get_team,
  is_authorized,
}

-- What a look-up in the database returns.
pub data Lookup (A : Type 0) : Type 0 where
  failed missing : Lookup A
  found : A → Lookup A

-- Pipeline.Public, and whether the job of a name is public.
pub record Pipeline : Type 0 where
  pub is_public : Bool
  pub job_is_public : Name → Lookup Bool

pub record Build : Type 0 where
  pub team_name : Name
  pub job_name : Name
  pub pipeline : Lookup Pipeline

-- The factories of builds, of teams (by their pipelines) and of workers (by their teams' names).
pub record Database : Type 0 where
  pub find_build : ℤ → Lookup Build
  pub find_team : Name → Lookup (Name → Lookup Pipeline)
  pub get_worker : Name → Lookup Name

-- What the next handler finds in the context of the request.
pub data Scope : Type 0 where
  unscoped : Scope
  in_build : Build → Scope
  in_pipeline : Pipeline → Scope

-- The request is passed on, or the status of the response.
pub data Response : Type 0 where
  served : Scope → Response
  bad_request internal_server_error not_found unauthorized forbidden : Response

unfoldable pub on_lookup : {A : Type 0} → Lookup A → Response → (A → Response) → Response
on_lookup failed other k = internal_server_error
on_lookup missing other k = other
on_lookup (found a) other k = k a

-- Forbidden to those who are authenticated, and unauthorized to others.
unfoldable pub reject : Request → Response
reject r = if is_authenticated r then forbidden else unauthorized

unfoldable pub check_admin : Request → Response
check_admin r =
    if is_authenticated r then (if is_admin r then served unscoped else forbidden) else unauthorized

unfoldable pub check_authentication : Request → Response
check_authentication r = if is_authenticated r then served unscoped else unauthorized

unfoldable pub check_authorization : Request → Response
check_authorization r =
    if not (is_authenticated r)
    then unauthorized
    else if not (is_authorized r)
    then forbidden
    else served unscoped

-- A team is there and is another one.
unfoldable pub is_other_team : Option Team → Name → Bool
is_other_team none name = false
is_other_team (some t) name = not (t.name == name)

module _ (db : Database) where
  open db use {find_build, find_team, get_worker}

  unfoldable pub with_build : Option ℤ → (Build → Response) → Response
  with_build none k = bad_request
  with_build (some id) k = on_lookup (find_build id) not_found k

  unfoldable pub check_job : Request → Build → Pipeline → Response
  check_job r b p =
      on_lookup (Pipeline.job_is_public p b.job_name) not_found
        (λ is_public. if is_public then served (in_build b) else reject r)

  unfoldable pub check_public : Bool → Request → Build → Pipeline → Response
  check_public allow_private_job r b p =
      if Pipeline.is_public p
      then (if allow_private_job then served (in_build b) else check_job r b p)
      else reject r

  -- Not authenticated, or of another team than the build's.
  unfoldable pub read_from_outside : Bool → Request → Build → Response
  read_from_outside allow_private_job r b =
      on_lookup b.pipeline unauthorized (check_public allow_private_job r b)

  -- checkBuildReadAccessHandler, with allowPrivateJob.
  unfoldable pub check_build_read : Bool → Request → Response
  check_build_read allow_private_job r = with_build r.params.build_param (λ b.
      if not (is_authenticated r) || is_other_team (get_team r) b.team_name
      then read_from_outside allow_private_job r b
      else served (in_build b))

  unfoldable pub check_build_write : Request → Response
  check_build_write r =
      if not (is_authenticated r)
      then unauthorized
      else with_build r.params.build_param
          (λ b. if is_other_team (get_team r) b.team_name then forbidden else served (in_build b))

  unfoldable pub check_pipeline_access : Request → Response
  check_pipeline_access r = on_lookup (find_team r.params.team_param) not_found (λ team_pipeline.
      on_lookup (team_pipeline r.params.pipeline_param) not_found
        (λ p. if is_authorized r || Pipeline.is_public p then served (in_pipeline p) else reject r))

  unfoldable pub check_team_worker : Request → Option Team → Response
  check_team_worker r none = unauthorized
  check_team_worker r (some t) =
      if t.is_admin
      then served unscoped
      else on_lookup (get_worker r.params.worker_param) not_found
          (λ owner. if not (owner == t.name) then forbidden else served unscoped)

  unfoldable pub check_worker_team : Request → Response
  check_worker_team r =
      if not (is_authenticated r)
      then unauthorized
      else if is_system r
      then served unscoped
      else check_team_worker r (get_team r)

-- Values that are put in the context if they are found.
unfoldable pub set_team : Option Team → Context → Context
set_team none c = c
set_team (some t) c = record c { team_name = some t.name; is_admin = some t.is_admin }

unfoldable pub set_system : Option Bool → Context → Context
set_system none c = c
set_system (some b) c = record c { system = some b }

-- WrapHandler: the request that is passed on.
unfoldable pub wrap : Verifier → Request → Request
wrap v r =
    let token = get_jwt v r in
    record r {
      context = set_system (reader_get_system token) (
          set_team (reader_get_team token)
            (record r.context { authenticated = some (token_is_authenticated token) }));
    }

unfoldable pub changes_state : Method → Bool
changes_state get = false
changes_state head = false
changes_state options = false
changes_state _ = true

unfoldable pub check_csrf_token : Name → Option Name → Response → Response
check_csrf_token header none next = unauthorized
check_csrf_token header (some token) next = if not (token == header) then unauthorized else next

-- CSRFValidationHandler, on the response of the next handler.
unfoldable pub csrf_validation : Verifier → Request → Response → Response
csrf_validation v r next =
    if changes_state r.method && is_on r.context.csrf_required
    then (if r.csrf_header == 0
        then unauthorized
        else check_csrf_token r.csrf_header (reader_get_csrf_token (get_jwt v r)) next)
    else next

-- A header that is set only if it is empty.
unfoldable pub or_cookie : List Name → List Name → List Name
or_cookie [] c = c
or_cookie (b ∷ bs) c = b ∷ bs

unfoldable pub set_cookie : Request → Option (List Name) → Request
set_cookie r none = r
set_cookie r (some c) = record r {
  authorization = or_cookie r.authorization c;
  context = record (r.context) { csrf_required = some true };
}

-- CookieSetHandler: the request that is passed on.
unfoldable pub cookie_set : Request → Request
cookie_set r = set_cookie r r.cookie
