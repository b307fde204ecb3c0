-- ===== src/Auth/Tests.antt =====
-- Requests with and without tokens, what the routes answer, and the theorems at them.
use atc.Prelude.{
  ℕ, suc, zero, ◌≡◌, ◌↔◌, refl, true, false, Option, none, some, List, [], ◌∷◌, arith,
}
use atc.Pipeline.Config.{pos}
use atc.Auth.Routes.{
  Route, put, method_of, get_build, abort_build, pause_job, land_worker, set_log_level,
}
use atc.Auth.Guards.{guard_of}
use atc.Auth.Request.{
  Token, Verifier, Request, to_upper, bearer, parse_if, get_jwt, token_is_authenticated,
  both_present, reader_get_team, reader_get_system, reader_get_csrf_token, is_on,
  team_is_authorized,
}
use atc.Auth.Handlers.{
  found, missing, Pipeline, Build, Database, in_build, unscoped, served, unauthorized, forbidden,
  Response, on_lookup, reject, check_admin, check_authentication, check_authorization,
  is_other_team, with_build, check_job, check_public, read_from_outside, check_build_read,
  check_build_write, check_pipeline_access, check_team_worker, check_worker_team, set_team,
  set_system, wrap, changes_state, check_csrf_token, csrf_validation, or_cookie, set_cookie,
  cookie_set,
}
use atc.Auth.Api.{check_guard, serve}
use atc.Auth.Contract.{no_context, caller, is_served, IsAllowed, IsGenuine, claims_of}
use atc.Auth.Served.{serve-IsAllowed}
use atc.Auth.Writes.{changes_state-unauthorized}

-- A token of one byte is that of team 4.
abbrev token : Token
token = record {
  valid = true;
  claims = record { team_name = some 4; is_admin = some false; system = none; csrf = some 9 };
}

abbrev parse_token : List ℕ → Option Token
parse_token (b ∷ []) = some token
parse_token _ = none

tokens_valid : (bytes : List ℕ) (t : Token) → parse_token bytes ≡ some t → Token.valid t ≡ true
tokens_valid (b ∷ []) t h = ground (arith, h)
tokens_valid _ t h = ground (arith, h)

abbrev verifier : Verifier
verifier = record { parse = parse_token; parse_valid = tokens_valid }

-- Build 1 is of team 4 and of a public pipeline with the private job 6; there is no other.
abbrev pipeline : Pipeline
pipeline = record { is_public = true; job_is_public = λ job. found false }

abbrev build : Build
build = record { team_name = 4; job_name = 6; pipeline = found pipeline }

abbrev database : Database
database = record {
  find_build = λ id. elim id [ pos (suc zero) ↦ found build | _ ↦ missing ];
  find_team = λ name. found (λ pipeline_name. found pipeline);
  get_worker = λ name. found 5;
}

abbrev request : List ℕ → Option (List ℕ) → ℕ → Request
request header cookie csrf = record {
  method = put;
  authorization = header;
  cookie = cookie;
  csrf_header = csrf;
  params = record {
    team_param = 4;
    pipeline_param = 8;
    worker_param = 3;
    build_param = some (pos 1);
  };
  context = no_context;
}

-- "bEARER" or "Bearer", and a byte more before the token.
abbrev with_token : Request
with_token = request (98 ∷ 69 ∷ 65 ∷ 82 ∷ 69 ∷ 82 ∷ 32 ∷ 7 ∷ []) none 0

abbrev with_cookie : ℕ → Request
with_cookie csrf = request [] (some (66 ∷ 101 ∷ 97 ∷ 114 ∷ 101 ∷ 114 ∷ 32 ∷ 7 ∷ [])) csrf

abbrev without : Request
without = request [] none 0

answers : Route → Request → Response
unfolding serve check_guard guard_of cookie_set set_cookie or_cookie csrf_validation
    check_csrf_token changes_state wrap set_team set_system get_jwt parse_if bearer to_upper
    token_is_authenticated both_present reader_get_team reader_get_system reader_get_csrf_token
    is_on team_is_authorized on_lookup reject check_admin check_authentication check_authorization
    is_other_team with_build check_job check_public read_from_outside check_build_read
    check_build_write check_pipeline_access check_team_worker check_worker_team
answers = serve verifier database

abbrev Answers : Type 0
Answers =
    (answers abort_build with_token ≡ served (in_build build))
    × (answers abort_build (with_cookie 9) ≡ served (in_build build))
    × (answers abort_build (with_cookie 8) ≡ unauthorized)
    × (answers abort_build without ≡ unauthorized)
    × (answers get_build without ≡ served (in_build build))
    × (answers set_log_level with_token ≡ forbidden)
    × (answers land_worker with_token ≡ forbidden)
    × (answers pause_job with_token ≡ served unscoped)

answers_as_expected : Answers
unfolding answers
answers_as_expected = (refl, refl, refl, refl, refl, refl, refl, refl)

serve-IsAllowed_example :
    (is_served (serve verifier database abort_build (with_cookie 9)) ≡ true) ↔ (
      IsGenuine (caller verifier (with_cookie 9)) (with_cookie 9)
      × IsAllowed database
          (guard_of abort_build)
          (caller verifier (with_cookie 9))
          (Request.params (with_cookie 9)))
serve-IsAllowed_example = serve-IsAllowed verifier database abort_build (with_cookie 9) refl

abort_changes_state : changes_state (method_of abort_build) ≡ true
unfolding changes_state method_of
abort_changes_state = refl

no_caller : caller verifier without ≡ none
unfolding claims_of get_jwt parse_if bearer cookie_set set_cookie
no_caller = refl

changes_state-unauthorized_example : serve verifier database abort_build without ≡ unauthorized
changes_state-unauthorized_example =
    changes_state-unauthorized verifier database abort_build without abort_changes_state
      (λ e. absurd (cc)) refl no_caller
