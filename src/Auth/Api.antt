-- ===== src/Auth/Api.antt =====
-- wrappa/api_auth_wrappa.go: what a route does with a request before its own handler.
use atc.Prelude.{true, false}
use atc.Auth.Routes.{Route}
use atc.Auth.Guards.{
  Guard, no_check, build_read_any_job, build_read_private_job, build_write, worker_team,
  pipeline_access, authentication, admin, authorization, guard_of,
}
use atc.Auth.Request.{Verifier, Request}
use atc.Auth.Handlers.{
  Database, unscoped, Response, served, check_admin, check_authentication, check_authorization,
  check_build_read, check_build_write, check_pipeline_access, check_worker_team, wrap,
  csrf_validation, cookie_set,
}

-- The handler that the switch puts before a route's own.
unfoldable pub check_guard : Database → Guard → Request → Response
check_guard db no_check r = served unscoped
check_guard db build_read_any_job r = check_build_read db true r
check_guard db build_read_private_job r = check_build_read db false r
check_guard db build_write r = check_build_write db r
check_guard db worker_team r = check_worker_team db r
check_guard db pipeline_access r = check_pipeline_access db r
check_guard db authentication r = check_authentication r
check_guard db admin r = check_admin r
check_guard db authorization r = check_authorization r

-- The handlers around a route, the outermost first.
unfoldable pub serve : Verifier → Database → Route → Request → Response
serve v db route r =
    let request = cookie_set r in
    csrf_validation v request (check_guard db (guard_of route) (wrap v request))
