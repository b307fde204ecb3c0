-- ===== src/Auth/Request.antt =====
-- api/auth: requests and tokens, and what the handlers read from them (auth_helpers.go,
-- jwt_reader.go, jwt_validator.go).
use atc.Prelude.{
  ℕ, ◌-◌, ◌≡◌, Bool, true, false, ◌&&◌, Option, none, some, List, ◌∷◌, leb, ◌==◌, if◌then◌else◌,
}
use atc.Pipeline.Config.{Name, ℤ}
use atc.Auth.Routes.{Method}

-- The claims of a token that the code reads, with `none` for one that is missing.
pub record Claims : Type 0 where
  pub team_name : Option Name
  pub is_admin : Option Bool
  pub system : Option Bool
  pub csrf : Option Name

-- jwt.Token.
pub record Token : Type 0 where
  pub valid : Bool
  pub claims : Claims

-- jwt.Parse with the public key, on the bytes of a token; `none` is an error. A token that comes
-- without an error is valid.
pub record Verifier : Type 0 where
  pub parse : List ℕ → Option Token
  pub parse_valid : (bytes : List ℕ) (t : Token) → parse bytes ≡ some t → Token.valid t ≡ true

-- The values that the handlers keep in a request's context.
pub record Context : Type 0 where
  pub authenticated : Option Bool
  pub team_name : Option Name
  pub is_admin : Option Bool
  pub system : Option Bool
  pub csrf_required : Option Bool

-- The parameters of the path, with what strconv.Atoi reads for the build's id.
pub record Params : Type 0 where
  pub team_param : Name
  pub pipeline_param : Name
  pub worker_param : Name
  pub build_param : Option ℤ

-- A request: the header Authorization in bytes, the cookie, and the header X-Csrf-Token.
pub record Request : Type 0 where
  pub method : Method
  pub authorization : List ℕ
  pub cookie : Option (List ℕ)
  pub csrf_header : Name
  pub params : Params
  pub context : Context

-- strings.ToUpper on one byte of ASCII.
unfoldable pub to_upper : ℕ → ℕ
to_upper b = if leb 97 b && leb b 122 then b - 32 else b

-- A header of more than six bytes that starts with BEARER, in capitals or not: the rest after one
-- more byte.
unfoldable pub bearer : List ℕ → Option (List ℕ)
bearer (b ∷ e ∷ a ∷ r ∷ e' ∷ r' ∷ sep ∷ rest) =
    if (to_upper b == 66)
      && (to_upper e == 69)
      && (to_upper a == 65)
      && (to_upper r == 82)
      && (to_upper e' == 69)
      && (to_upper r' == 82)
    then some rest
    else none
bearer _ = none

unfoldable pub parse_if : Verifier → Option (List ℕ) → Option Token
parse_if v none = none
parse_if v (some bytes) = Verifier.parse v bytes

-- getJWT, with `none` for its errors.
unfoldable pub get_jwt : Verifier → Request → Option Token
get_jwt v r = parse_if v (bearer r.authorization)

-- JWTValidator.IsAuthenticated, on the token.
unfoldable pub token_is_authenticated : Option Token → Bool
token_is_authenticated none = false
token_is_authenticated (some t) = t.valid

pub record Team : Type 0 where
  pub name : Name
  pub is_admin : Bool

-- A team is there if both its name and its admin flag are.
unfoldable pub both_present : Option Name → Option Bool → Option Team
both_present (some n) (some a) = some (record { name = n; is_admin = a })
both_present none a = none
both_present (some n) none = none

-- The methods of JWTReader, on the token.
unfoldable pub reader_get_team : Option Token → Option Team
reader_get_team none = none
reader_get_team (some t) = both_present t.claims.team_name t.claims.is_admin

unfoldable pub reader_get_system : Option Token → Option Bool
reader_get_system none = none
reader_get_system (some t) = t.claims.system

unfoldable pub reader_get_csrf_token : Option Token → Option Name
reader_get_csrf_token none = none
reader_get_csrf_token (some t) = t.claims.csrf

-- A value of the context that is `true`.
unfoldable pub is_on : Option Bool → Bool
is_on none = false
is_on (some b) = b

abbrev pub is_authenticated : Request → Bool
is_authenticated r = is_on r.context.authenticated

abbrev pub is_admin : Request → Bool
is_admin r = is_on r.context.is_admin

abbrev pub is_system : Request → Bool
is_system r = is_on r.context.system

abbrev pub get_team : Request → Option Team
get_team r = both_present r.context.team_name r.context.is_admin

-- team.IsAuthorized, where a team is there.
unfoldable pub team_is_authorized : Option Team → Name → Bool
team_is_authorized none name = false
team_is_authorized (some t) name = t.name == name

abbrev pub is_authorized : Request → Bool
is_authorized r = team_is_authorized (get_team r) r.params.team_param
