-- ===== src/Auth/Served.antt =====
-- Which requests reach the handler of a route.
use atc.Prelude.{
  ◌≡◌, ◌↔◌, inl, inr, refl, subst, ap, Bool, true, false, Option, none, some, arith, Option-cases,
}
use atc.Pipeline.Config.{Name}
use atc.Auth.Routes.{Route}
use atc.Auth.Guards.{Guard, guard_of}
use atc.Auth.Request.{
  Token, Verifier, Context, Request, get_jwt, both_present, is_on, token_is_authenticated,
  reader_get_team, reader_get_system, reader_get_csrf_token, parse_if, bearer,
}
use atc.Auth.Handlers.{
  Database, Response, cookie_set, wrap, csrf_validation, set_cookie, set_team, set_system,
  check_csrf_token,
}
use atc.Auth.Api.{check_guard, serve}
use atc.Auth.Contract.{
  no_context, claims_of, caller, is_served, IsAllowed, IsAllowedTo, IsOpenTo, IsGenuine, csrf_claim,
}
use atc.Auth.Known.{IsKnown, IsKnown-check_guard, is_admin_team}
use atc.Auth.Unknown.{IsUnknown, IsUnknown-check_guard}

-- A context into which no handler has put anything of the caller.
pub record IsFresh (c : Context) : Type 0 where
  team : c.team_name ≡ none
  admin : c.is_admin ≡ none
  system : c.system ≡ none

module _ (n : Option Name) (a s : Option Bool) (c : Context) (f : IsFresh c) where
  abbrev filled : Context
  filled = set_system s (set_team (both_present n a) (record c { authenticated = some true }))

  filled_known : is_on filled.authenticated ≡ true
  unfolding set_system set_team both_present is_on
  filled_known = ground (arith)

  filled_team : both_present filled.team_name filled.is_admin ≡ both_present n a
  unfolding set_system set_team both_present
  filled_team = ground (arith, IsFresh.team f, IsFresh.admin f)

  filled_admin : is_on filled.is_admin ≡ is_admin_team (both_present n a)
  unfolding set_system set_team both_present is_on
  filled_admin = ground (arith, IsFresh.admin f)

  filled_system : is_on filled.system ≡ is_on s
  unfolding set_system set_team both_present is_on
  filled_system = ground (arith, IsFresh.system f)

module _ (v : Verifier) where
  get_jwt-valid : (r : Request) (t : Token) → get_jwt v r ≡ some t → Token.valid t ≡ true
  unfolding get_jwt parse_if
  get_jwt-valid r t e = elim (Option-cases (bearer r.authorization)) [
    | inl n ↦ absurd (ground (arith, e, n))
    | inr (bytes, b) ↦ Verifier.parse_valid v bytes t (ground (arith, e, b))
  ]

  pub wrap-IsUnknown : (r : Request) → IsFresh r.context → get_jwt v r ≡ none → IsUnknown (wrap v r)
  unfolding wrap set_system set_team reader_get_team reader_get_system token_is_authenticated is_on
      both_present
  wrap-IsUnknown r f e = record {
    unknown = rw e refl;
    no_team = rw e (ground (arith, IsFresh.team f));
  }

  wrap-IsKnown :
      (r : Request)
      → IsFresh r.context
      → (t : Token) → get_jwt v r ≡ some t
      → IsKnown (Token.claims t) (wrap v r)
  unfolding wrap token_is_authenticated reader_get_team reader_get_system
  wrap-IsKnown r f t e =
      let c = Token.claims t in
      rw (e, get_jwt-valid r t e)
        (record {
          known = filled_known c.team_name c.is_admin c.system r.context f;
          team = filled_team c.team_name c.is_admin c.system r.context f;
          admin = filled_admin c.team_name c.is_admin c.system r.context f;
          system = filled_system c.team_name c.is_admin c.system r.context f;
        })

  wrap_params : (r : Request) → (wrap v r).params ≡ r.params
  unfolding wrap
  wrap_params r = refl

  wrap-check_guard :
      (db : Database) (g : Guard) (r : Request)
      → IsFresh r.context
      → (is_served (check_guard db g (wrap v r)) ≡ true)
        ↔ IsAllowed db g (claims_of (get_jwt v r)) r.params
  unfolding IsAllowed claims_of
  wrap-check_guard db g r f = elim (Option-cases (get_jwt v r)) [
    | inl e ↦ rw e (
        subst (λ p. (is_served (check_guard db g (wrap v r)) ≡ true) ↔ IsOpenTo db g p)
          (wrap_params r) (IsUnknown-check_guard db (wrap v r) (wrap-IsUnknown r f e) g))
    | inr (t, e) ↦ rw e (
        subst
          (λ p.
            (is_served (check_guard db g (wrap v r)) ≡ true) ↔ IsAllowedTo db g (Token.claims t) p)
          (wrap_params r)
          (IsKnown-check_guard db (Token.claims t) (wrap v r) (wrap-IsKnown r f t e) g))
  ]

  pub cookie_set-IsFresh : (r : Request) → r.context ≡ no_context → IsFresh (cookie_set r).context
  unfolding cookie_set set_cookie
  cookie_set-IsFresh r e = elim (Option-cases r.cookie) [
    | inl n ↦ rw n (record {
      team = ap (λ c. c.team_name) e;
      admin = ap (λ c. c.is_admin) e;
      system = ap (λ c. c.system) e;
    })
    | inr (k, n) ↦ rw n (record {
      team = ap (λ c. c.team_name) e;
      admin = ap (λ c. c.is_admin) e;
      system = ap (λ c. c.system) e;
    })
  ]

  cookie_set_params : (r : Request) → (cookie_set r).params ≡ r.params
  unfolding cookie_set set_cookie
  cookie_set_params r = ground arith

  csrf_token-claim : (o : Option Token) → reader_get_csrf_token o ≡ csrf_claim (claims_of o)
  unfolding reader_get_csrf_token csrf_claim claims_of
  csrf_token-claim o = ground arith

  csrf_required_iff :
      (r : Request)
      → r.context ≡ no_context
      → (is_on (cookie_set r).context.csrf_required ≡ false) ↔ (r.cookie ≡ none)
  unfolding cookie_set set_cookie is_on
  csrf_required_iff r e = ground (arith, ap (λ c. c.csrf_required) e)

  csrf_required-method : (r : Request) → (cookie_set r).method ≡ r.method
  unfolding cookie_set set_cookie
  csrf_required-method r = ground arith

  csrf_header : (r : Request) → (cookie_set r).csrf_header ≡ r.csrf_header
  unfolding cookie_set set_cookie
  csrf_header r = ground arith

  csrf_iff :
      (r : Request) (next : Response)
      → r.context ≡ no_context
      → (is_served (csrf_validation v (cookie_set r) next) ≡ true)
        ↔ (IsGenuine (caller v r) r × (is_served next ≡ true))
  unfolding csrf_validation check_csrf_token IsGenuine is_served
  csrf_iff r next e = ground (
    arith,
    csrf_token-claim (get_jwt v (cookie_set r)),
    csrf_required_iff r e,
    csrf_required-method r,
    csrf_header r,
  )

  -- A request that comes in reaches the handler of its route exactly if the request is genuine (it does
  -- not change the state, or has no cookie, or repeats the token of its caller's claims) and the route's
  -- guard allows it: by what the claims of its caller say about the team of the build, pipeline or
  -- worker, or by the pipeline or job being public.
  pub serve-IsAllowed :
      (db : Database) (route : Route) (r : Request)
      → r.context ≡ no_context
      → (is_served (serve v db route r) ≡ true)
        ↔ (IsGenuine (caller v r) r × IsAllowed db (guard_of route) (caller v r) r.params)
  unfolding serve
  serve-IsAllowed db route r e =
      let csrf = csrf_iff r (check_guard db (guard_of route) (wrap v (cookie_set r))) e in
      let guards =
        subst
          (λ p.
            (is_served (check_guard db (guard_of route) (wrap v (cookie_set r))) ≡ true)
            ↔ IsAllowed db (guard_of route) (caller v r) p)
          (cookie_set_params r)
          (wrap-check_guard db (guard_of route) (cookie_set r) (cookie_set-IsFresh r e)) in
      ((λ h. ((csrf.0 h).0, guards.0 (csrf.0 h).1)), (λ a. csrf.1 (a.0, guards.1 a.1)))
