-- ===== src/Auth/Guards.antt =====
-- wrappa/api_auth_wrappa.go: what guards each route.
use atc.Auth.Routes.{
  Route, save_config, get_config, get_build, get_build_plan, create_build, list_builds,
  build_events, build_resources, abort_build, get_build_preparation, get_job, create_job_build,
  list_jobs, list_job_builds, list_job_inputs, get_job_build, pause_job, unpause_job,
  get_versions_db, job_badge, main_job_badge, list_resources, get_resource, pause_resource,
  unpause_resource, check_resource, check_resource_web_hook, list_resource_versions,
  get_resource_version, enable_resource_version, disable_resource_version,
  list_builds_with_version_as_input, list_builds_with_version_as_output, get_resource_causality,
  list_all_pipelines, list_pipelines, get_pipeline, delete_pipeline, order_pipelines,
  pause_pipeline, unpause_pipeline, expose_pipeline, hide_pipeline, rename_pipeline,
  create_pipeline_build, pipeline_badge, create_pipe, write_pipe, read_pipe, register_worker,
  land_worker, retire_worker, prune_worker, heartbeat_worker, list_workers, delete_worker,
  set_log_level, get_log_level, download_cli, get_info, list_containers, get_container,
  hijack_container, list_volumes, legacy_list_auth_methods, legacy_get_auth_token, legacy_get_user,
  list_teams, set_team, rename_team, destroy_team,
}

pub data Guard : Type 0 where
  no_check build_read_any_job build_read_private_job build_write worker_team : Guard
  pipeline_access authentication admin authorization : Guard

-- The switch of APIAuthWrappa.Wrap.
unfoldable pub guard_of : Route → Guard
guard_of save_config = authorization
guard_of get_config = authorization
guard_of get_build = build_read_any_job
guard_of get_build_plan = build_read_any_job
guard_of create_build = authentication
guard_of list_builds = no_check
guard_of build_events = build_read_private_job
guard_of build_resources = build_read_any_job
guard_of abort_build = build_write
guard_of get_build_preparation = build_read_private_job
guard_of get_job = pipeline_access
guard_of create_job_build = authorization
guard_of list_jobs = pipeline_access
guard_of list_job_builds = pipeline_access
guard_of list_job_inputs = authorization
guard_of get_job_build = pipeline_access
guard_of pause_job = authorization
guard_of unpause_job = authorization
guard_of get_versions_db = authorization
guard_of job_badge = pipeline_access
guard_of main_job_badge = no_check
guard_of list_resources = pipeline_access
guard_of get_resource = pipeline_access
guard_of pause_resource = authorization
guard_of unpause_resource = authorization
guard_of check_resource = authorization
guard_of check_resource_web_hook = no_check
guard_of list_resource_versions = pipeline_access
guard_of get_resource_version = pipeline_access
guard_of enable_resource_version = authorization
guard_of disable_resource_version = authorization
guard_of list_builds_with_version_as_input = pipeline_access
guard_of list_builds_with_version_as_output = pipeline_access
guard_of get_resource_causality = pipeline_access
guard_of list_all_pipelines = no_check
guard_of list_pipelines = no_check
guard_of get_pipeline = pipeline_access
guard_of delete_pipeline = authorization
guard_of order_pipelines = authorization
guard_of pause_pipeline = authorization
guard_of unpause_pipeline = authorization
guard_of expose_pipeline = authorization
guard_of hide_pipeline = authorization
guard_of rename_pipeline = authorization
guard_of create_pipeline_build = authorization
guard_of pipeline_badge = pipeline_access
guard_of create_pipe = authentication
guard_of write_pipe = authentication
guard_of read_pipe = authentication
guard_of register_worker = authentication
guard_of land_worker = worker_team
guard_of retire_worker = worker_team
guard_of prune_worker = worker_team
guard_of heartbeat_worker = authentication
guard_of list_workers = authentication
guard_of delete_worker = authentication
guard_of set_log_level = admin
guard_of get_log_level = admin
guard_of download_cli = no_check
guard_of get_info = no_check
guard_of list_containers = authentication
guard_of get_container = authentication
guard_of hijack_container = authentication
guard_of list_volumes = authentication
guard_of legacy_list_auth_methods = no_check
guard_of legacy_get_auth_token = no_check
guard_of legacy_get_user = no_check
guard_of list_teams = no_check
guard_of set_team = authentication
guard_of rename_team = authentication
guard_of destroy_team = authentication
