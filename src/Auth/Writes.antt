-- ===== src/Auth/Writes.antt =====
-- wrappa/api_auth_wrappa.go: what a caller without a token can change.
use atc.Prelude.{◌≡◌, ◌≢◌, ◌⊎◌, inl, inr, refl, ◌∙◌, ap, Bool, true, false, none, arith}
use atc.Auth.Routes.{Route, method_of, check_resource_web_hook}
use atc.Auth.Guards.{
  Guard, no_check, build_read_any_job, build_read_private_job, build_write, pipeline_access,
  guard_of,
}
use atc.Auth.Request.{Verifier, Request, get_jwt}
use atc.Auth.Handlers.{
  Database, unauthorized, changes_state, wrap, csrf_validation, check_csrf_token, check_build_write,
  check_worker_team, check_authentication, check_admin, check_authorization, cookie_set,
}
use atc.Auth.Api.{check_guard, serve}
use atc.Auth.Contract.{no_context, caller, claims_of}
use atc.Auth.Unknown.{IsUnknown}
use atc.Auth.Served.{cookie_set-IsFresh, wrap-IsUnknown}

abbrev asks_first : Guard → Bool
asks_first no_check = false
asks_first build_read_any_job = false
asks_first build_read_private_job = false
asks_first pipeline_access = false
asks_first _ = true

changing_route :
    (route : Route)
    → changes_state (method_of route) ≡ true
    → (route ≡ check_resource_web_hook) ⊎ (asks_first (guard_of route) ≡ true)
unfolding changes_state method_of guard_of
changing_route check_resource_web_hook h = inl refl
changing_route _ h = ground arith

asks_first-check_guard :
    (db : Database) (g : Guard) (r : Request)
    → asks_first g ≡ true
    → IsUnknown r
    → check_guard db g r ≡ unauthorized
unfolding check_guard check_build_write check_worker_team check_authentication check_admin
    check_authorization
asks_first-check_guard db build_write r h u = ground (arith, IsUnknown.unknown u)
asks_first-check_guard db _ r h u = ground (arith, IsUnknown.unknown u)

csrf_validation-unauthorized :
    (v : Verifier) (r : Request) → csrf_validation v r unauthorized ≡ unauthorized
unfolding csrf_validation check_csrf_token
csrf_validation-unauthorized v r = ground arith

no_claims : (v : Verifier) (r : Request) → caller v r ≡ none → get_jwt v (cookie_set r) ≡ none
unfolding claims_of
no_claims v r h = ground arith

-- Every route whose method changes the state, but for the web hook that checks a resource, answers
-- unauthorized to a request that comes in without a token that can be verified.
pub changes_state-unauthorized :
    (v : Verifier) (db : Database) (route : Route) (r : Request)
    → changes_state (method_of route) ≡ true
    → route ≢ check_resource_web_hook
    → r.context ≡ no_context
    → caller v r ≡ none
    → serve v db route r ≡ unauthorized
unfolding serve
changes_state-unauthorized v db route r changing other fresh nobody =
    elim (changing_route route changing) [
      | inl e ↦ absurd (other e)
      | inr asks ↦
          ap (csrf_validation v (cookie_set r)) (
            asks_first-check_guard db (guard_of route) (wrap v (cookie_set r)) asks (
              wrap-IsUnknown v (cookie_set r) (cookie_set-IsFresh v r fresh)
                (no_claims v r nobody)))
          ∙ csrf_validation-unauthorized v (cookie_set r)
    ]
