-- ===== src/Auth/Routes.antt =====
-- routes.go and wrappa/api_auth_wrappa.go: the routes of the API, and what guards each.

-- The methods of HTTP that the code names.
pub data Method : Type 0 where
  get head options post put delete : Method

pub data Route : Type 0 where
  save_config get_config get_build get_build_plan create_build list_builds : Route
  build_events build_resources abort_build get_build_preparation get_job : Route
  create_job_build list_jobs list_job_builds list_job_inputs get_job_build pause_job : Route
  unpause_job get_versions_db job_badge main_job_badge list_resources get_resource : Route
  pause_resource unpause_resource check_resource check_resource_web_hook : Route
  list_resource_versions get_resource_version enable_resource_version : Route
  disable_resource_version list_builds_with_version_as_input : Route
  list_builds_with_version_as_output get_resource_causality list_all_pipelines : Route
  list_pipelines get_pipeline delete_pipeline order_pipelines pause_pipeline : Route
  unpause_pipeline expose_pipeline hide_pipeline rename_pipeline : Route
  create_pipeline_build pipeline_badge create_pipe write_pipe read_pipe : Route
  register_worker land_worker retire_worker prune_worker heartbeat_worker : Route
  list_workers delete_worker set_log_level get_log_level download_cli get_info : Route
  list_containers get_container hijack_container list_volumes : Route
  legacy_list_auth_methods legacy_get_auth_token legacy_get_user list_teams set_team : Route
  rename_team destroy_team : Route

-- The table of routes.
unfoldable pub method_of : Route → Method
method_of save_config = put
method_of get_config = get
method_of get_build = get
method_of get_build_plan = get
method_of create_build = post
method_of list_builds = get
method_of build_events = get
method_of build_resources = get
method_of abort_build = put
method_of get_build_preparation = get
method_of get_job = get
method_of create_job_build = post
method_of list_jobs = get
method_of list_job_builds = get
method_of list_job_inputs = get
method_of get_job_build = get
method_of pause_job = put
method_of unpause_job = put
method_of get_versions_db = get
method_of job_badge = get
method_of main_job_badge = get
method_of list_resources = get
method_of get_resource = get
method_of pause_resource = put
method_of unpause_resource = put
method_of check_resource = post
method_of check_resource_web_hook = post
method_of list_resource_versions = get
method_of get_resource_version = get
method_of enable_resource_version = put
method_of disable_resource_version = put
method_of list_builds_with_version_as_input = get
method_of list_builds_with_version_as_output = get
method_of get_resource_causality = get
method_of list_all_pipelines = get
method_of list_pipelines = get
method_of get_pipeline = get
method_of delete_pipeline = delete
method_of order_pipelines = put
method_of pause_pipeline = put
method_of unpause_pipeline = put
method_of expose_pipeline = put
method_of hide_pipeline = put
method_of rename_pipeline = put
method_of create_pipeline_build = post
method_of pipeline_badge = get
method_of create_pipe = post
method_of write_pipe = put
method_of read_pipe = get
method_of register_worker = post
method_of land_worker = put
method_of retire_worker = put
method_of prune_worker = put
method_of heartbeat_worker = put
method_of list_workers = get
method_of delete_worker = delete
method_of set_log_level = put
method_of get_log_level = get
method_of download_cli = get
method_of get_info = get
method_of list_containers = get
method_of get_container = get
method_of hijack_container = get
method_of list_volumes = get
method_of legacy_list_auth_methods = get
method_of legacy_get_auth_token = get
method_of legacy_get_user = get
method_of list_teams = get
method_of set_team = put
method_of rename_team = put
method_of destroy_team = delete
