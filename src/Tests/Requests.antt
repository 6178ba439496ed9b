-- ===== src/Tests/Requests.antt =====
-- Examples of the request handlers.
use metio.Validation.{
  validate_server_name, validate_fields, validate_server_config, validate_region, validate_zone,
  validate_machine_type, validate_disk_size, validate_modpack_config, backup_config_error,
  version_error, validate_payload, validate_from_schedule,
}
use metio.Validation.Patterns.{
  name_regex, is_lower, is_digit, is_hyphen, is_lower_or_digit, is_name_char, all_chars, one_char,
  name_tail, region_regex, zone_tail, zone_regex,
}
use metio.Validation.Config.{validate_server_config_iff}
use metio.Handlers.Accepted.{IsWelcome, create_server-accepted}
use metio.Handlers.Returns.{steady}
use metio.Handlers.Checks.{is_other_named, taken_in}
use metio.Handlers.Options.{offers_zone}
use metio.Programs.{build_task_config}
use metio.Provisioning.Deploy.{apply_restore_to_config}
use metio.Provisioning.Requests.{create_outputs, create_outputs-applied}
use metio.Handlers.Catalog.{ReportRequest, handle_backup_report}
use metio.Handlers.Reports.{ReportWrites, IsRecorded, handle_backup_report-Guarded}
use metio.Handlers.AgentApi.{write_status, agent_auth_middleware}
use metio.Handlers.Agents.{AgentWrites, agent_auth_middleware-Guarded}
use metio.Base.{decimal, true, false, none, some, List, [], ◌∷◌, ◌+++◌, ◌≡◌, refl, inl}
use metio.Base.Int.{pos}
use metio.Types.{zero_status, backup_status_completed, Backup}
use metio.Exec.{new_error, ok, err, Env}
use metio.Exec.Triple.{AtEnd}
use metio.Handlers.{
  HandlerCall, get_db_connection, list_server_configs, list_backups, get_server_config, get_status,
  get_provisioning_status, create_server_config, update_server_config, save_config_snapshot,
  update_status, list_backups_by_server, get_backup, upsert_backup, get_whitelist_config,
  get_whitelist_entries, set_whitelist_config, add_whitelist_entry, remove_whitelist_entry,
  list_minecraft_versions, list_gcp_regions, list_gcp_machine_types, list_modrinth_pack_versions,
  start_create, start_create_from_backup, start_update, start_destroy, revert_server_config,
  read_provisioning_status, start_restore, new_compute_client, start_instance, stop_instance,
  new_uuid, get_user_email, mint_token, verify_token, lookup_minecraft_user, HandlerAnswer, Site,
  any_match,
}
use metio.Handlers.Create.{
  CreateServerRequest, CreateFromBackupRequest, create_server, create_server_from_backup,
  requested_config, identified,
}
use metio.Handlers.Update.{UpdateServerRequest, update_server}
use metio.Handlers.Guards.{ReadsAnd, Knows, Refused}
use metio.Handlers.Creation.{arrival, CreateWrites, IsCreating, create_server-Guarded}
use metio.Handlers.Restoration.{RestoreWrites, IsRestoring, create_server_from_backup-Guarded}
use metio.Handlers.Changes.{UpdateWrites, IsUpdating}
use metio.Handlers.Replaced.{update_server-Guarded}
use metio.Tests.{survival, controller, program}
use metio.Handlers.Responses.{accepted_response, shutdown_schedule_from_input}

abbrev pub nightly_backup : Backup
nightly_backup = record {
  id = "s1:abc";
  server_id = "s1";
  server_name = "survival";
  snapshot_id = "abc";
  repository_prefix = "servers/s1/restic/";
  created_at = 5;
  duration_seconds = pos 60;
  file_count = pos 100;
  repository_size = pos 4096;
  minecraft_version = "1.21.4";
  status = backup_status_completed;
  server_deleted_at = none;
  retention_until = none;
  source_config = none;
}

abbrev request_answers : List HandlerCall → (c : HandlerCall) → HandlerAnswer c
request_answers calls get_db_connection = ok controller
request_answers calls list_server_configs = ok (survival ∷ [])
request_answers calls list_backups = ok (nightly_backup ∷ [])
request_answers calls (get_server_config id) = ok survival
request_answers calls (get_status id) = ok zero_status
request_answers calls (get_provisioning_status id) = ok none
request_answers calls (list_backups_by_server id) = ok (nightly_backup ∷ [])
request_answers calls (get_backup id snapshot) = ok nightly_backup
request_answers calls (get_whitelist_config name) = ok (record { enabled = false })
request_answers calls (get_whitelist_entries name) = ok []
request_answers calls list_minecraft_versions = "1.21.4" ∷ []
request_answers calls list_gcp_regions =
    record { id = "europe-west1"; zones = "europe-west1-b" ∷ [] } ∷ []
request_answers calls list_gcp_machine_types =
    record { id = "e2-medium"; vcpus = pos 2; memory_gb = pos 4 } ∷ []
request_answers calls (list_modrinth_pack_versions id) = []
request_answers calls (read_provisioning_status id) = err (new_error "not found")
request_answers calls new_uuid = "s2"
request_answers calls get_user_email = ""
request_answers calls (mint_token name) = ok "token"
request_answers calls (verify_token token) = ok "survival"
request_answers calls (lookup_minecraft_user name) = ok none
request_answers calls (create_server_config id config) = none
request_answers calls (update_server_config id config) = none
request_answers calls (save_config_snapshot id config) = none
request_answers calls (update_status id status) = none
request_answers calls (upsert_backup backup) = none
request_answers calls (set_whitelist_config name config) = none
request_answers calls (add_whitelist_entry name entry) = none
request_answers calls (remove_whitelist_entry name uuid) = none
request_answers calls (start_create id _) = none
request_answers calls (start_create_from_backup id _) = none
request_answers calls (start_update id _ update_type) = none
request_answers calls (start_destroy id) = none
request_answers calls (revert_server_config id) = none
request_answers calls (start_restore id backup warning) = none
request_answers calls new_compute_client = none
request_answers calls (start_instance project zone name) = none
request_answers calls (stop_instance project zone name) = none

abbrev request_env : Env HandlerCall HandlerAnswer
request_env = record { answer = request_answers; latency = λ calls. 1 }

abbrev test_site : Site
test_site = record {
  provisioning = true;
  controller_version = "v1.2.0";
  describe = λ e. "invalid";
  quote = λ s. "<" +++ (s +++ ">");
  rfc3339 = λ time. decimal time;
  atoi = λ s. none;
  parse_time = λ s. none;
}

abbrev creative_request : CreateServerRequest
creative_request = record {
  name = "creative";
  region = "europe-west1";
  zone = "europe-west1-b";
  machine_type = "e2-medium";
  minecraft_version = "1.21.4";
  disk_size_gb = pos 20;
  shutdown_schedule = none;
  existing_address = "";
  modpack = none;
}

create_server-Guarded_example :
    AtEnd
      (Refused (ReadsAnd (CreateWrites request_env)))
      (λ response.
        Knows (ReadsAnd (CreateWrites request_env)) (IsCreating request_env response.id none))
      (create_server request_env test_site (some creative_request) (arrival 7)).0
      (create_server request_env test_site (some creative_request) (arrival 7)).1
create_server-Guarded_example =
    create_server-Guarded request_env test_site (some creative_request) 7

abbrev copy_request : CreateFromBackupRequest
copy_request = record {
  name = "copy";
  region = "";
  zone = "";
  machine_type = "";
  minecraft_version = "";
  disk_size_gb = pos 0;
}

create_server_from_backup-Guarded_example :
    AtEnd
      (Refused (ReadsAnd (RestoreWrites request_env "s1:abc")))
      (λ response.
        Knows
          (ReadsAnd (RestoreWrites request_env "s1:abc"))
          (IsRestoring request_env response.id none))
      (create_server_from_backup request_env test_site "s1:abc" (some copy_request) (arrival 7)).0
      (create_server_from_backup request_env test_site "s1:abc" (some copy_request) (arrival 7)).1
create_server_from_backup-Guarded_example =
    create_server_from_backup-Guarded request_env test_site "s1:abc" (some copy_request) 7

abbrev rename_request : UpdateServerRequest
rename_request = record {
  name = some "creative";
  region = none;
  zone = none;
  machine_type = none;
  minecraft_version = none;
  disk_size_gb = some (pos 30);
  shutdown_schedule = none;
  modpack = none;
}

update_server-Guarded_example :
    AtEnd
      (Refused (ReadsAnd (UpdateWrites request_env "s1")))
      (λ response. Knows (ReadsAnd (UpdateWrites request_env "s1")) (IsUpdating request_env "s1"))
      (update_server request_env test_site "s1" (some rename_request) (arrival 7)).0
      (update_server request_env test_site "s1" (some rename_request) (arrival 7)).1
update_server-Guarded_example =
    update_server-Guarded request_env test_site "s1" (some rename_request) 7

abbrev report : ReportRequest
report = record {
  snapshot_id = "abc";
  repository_prefix = "servers/s1/restic/";
  duration_seconds = pos 60;
  file_count = pos 100;
  repository_size = pos 4096;
  minecraft_version = "1.21.4";
  status = "COMPLETED";
}

handle_backup_report-Guarded_example :
    AtEnd
      (Refused (ReadsAnd (ReportWrites request_env "s1" "Bearer t")))
      (λ response.
        Knows
          (ReadsAnd (ReportWrites request_env "s1" "Bearer t"))
          (IsRecorded request_env "s1" "Bearer t" response))
      (handle_backup_report request_env test_site "s1" "Bearer t" (some report) (arrival 7)).0
      (handle_backup_report request_env test_site "s1" "Bearer t" (some report) (arrival 7)).1
handle_backup_report-Guarded_example =
    handle_backup_report-Guarded request_env test_site "s1" "Bearer t" (some report) 7

agent_auth_middleware-Guarded_example :
    AtEnd
      (Refused (ReadsAnd (AgentWrites request_env "survival" "Bearer t")))
      (λ reply. Knows (ReadsAnd (AgentWrites request_env "survival" "Bearer t")) (λ h. Unit))
      (agent_auth_middleware request_env true "survival" "Bearer t"
        (write_status (some zero_status))
        (arrival 7)).0
      (agent_auth_middleware request_env true "survival" "Bearer t"
        (write_status (some zero_status))
        (arrival 7)).1
agent_auth_middleware-Guarded_example =
    agent_auth_middleware-Guarded request_env true "survival" "Bearer t"
      (write_status (some zero_status)) 7

creative_valid : validate_server_config (some (requested_config creative_request 7 7)) ≡ none
unfolding requested_config validate_server_config validate_fields validate_server_name name_regex
    is_lower name_tail one_char is_name_char is_lower_or_digit validate_region region_regex
    all_chars is_digit is_hyphen validate_zone zone_regex zone_tail validate_machine_type
    validate_disk_size shutdown_schedule_from_input backup_config_error validate_modpack_config
    version_error validate_from_schedule validate_payload
creative_valid = refl

creative-IsWelcome :
    IsWelcome
      (request_answers [])
      1
      test_site
      (requested_config creative_request 7 7)
      controller
      "token"
unfolding requested_config offers_zone any_match taken_in is_other_named identified
creative-IsWelcome = record {
  valid = (validate_server_config_iff (requested_config creative_request 7 7)).0 creative_valid;
  source = inl refl;
  machine_type = inl refl;
  region = inl refl;
  zone = refl;
  name_free = refl;
  connected = refl;
  stored = refl;
  provisioning = refl;
  minted = refl;
  started = refl;
}

create_server-accepted_example :
    (create_server (steady (request_answers []) 1) test_site (some creative_request) (arrival 7)).0
    ≡ ok (
        accepted_response test_site "s2"
          (identified "s2" controller (requested_config creative_request 7 7)))
create_server-accepted_example =
    create_server-accepted (request_answers []) 1 test_site creative_request 7 controller "token"
      creative-IsWelcome

create_outputs-applied_example :
    apply_restore_to_config
      (build_task_config survival controller "token")
      (create_outputs (record program { restore_snapshot_id = "abc"; restore_source_prefix = "" }))
    ≡ record program { restore_snapshot_id = "abc"; restore_source_prefix = "" }
create_outputs-applied_example = create_outputs-applied survival controller "token" "abc" ""
