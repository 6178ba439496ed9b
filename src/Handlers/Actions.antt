-- ===== src/Handlers/Actions.antt =====
-- The handlers that act on a server: `DeleteServer` of internal/handlers/servers/crud.go,
-- `HandleUpdateAgent`, `StartServerByID` and `StopServerByID` of actions.go,
-- `UpdateBackupSettingsByID` of backup.go and `RestoreBackupByID` of backup_restore.go.
use metio.Base.{
  beq, if◌then◌else◌, ◌+++◌, code, String, not, ◌||◌, Option, none, some, List, [], ◌∷◌, ◌==◌,
}
use metio.Types.{
  Time, ServerState, server_state_starting, server_state_stopping, Status, zero_status,
  backup_status_completed, Backup, ServerConfig,
}
use metio.Exec.{Error, Outcome, ok, err, pure, ◌>>=◌, ◌>>◌, Env, call, now}
use metio.Programs.{ProgramConfig, ControllerConfig, build_program_config}
use metio.Validation.{ValidationError, backup_config_error}
use metio.Handlers.{
  HandlerCall, get_db_connection, get_status, update_server_config, save_config_snapshot,
  update_status, get_backup, start_update, start_destroy, revert_server_config, start_restore,
  new_compute_client, start_instance, stop_instance, mint_token, HandlerAnswer, Site, Handler,
  refuse, expect, no_error, require, decode,
}
use metio.Handlers.Checks.{check_started, check_valid, connect}
use metio.Handlers.Update.{update_type_in_place, read_config}
use metio.Handlers.Reads.{unreported_status}
use metio.Handlers.Responses.{
  BackupSettings, backup_settings_from_db, backup_settings_to_db, ServerResponse, accepted_response,
}
use metio.Provisioning.Executor.{operation_in_progress}

-- `RestoreResponse`
pub record RestoreResponse : Type 0 where
  pub operation : String
  pub server_id : String
  pub backup_id : String
  pub snapshot_id : String
  pub warnings : List String
  pub provisioning_status_url : String

-- `strings.Cut` at ":": what follows the first one.
unfoldable pub after_colon : String → Option String
after_colon String.[] = none
after_colon (String.◌∷◌ c s) = let rest = after_colon s in if beq (code c) 58 then some s else rest

unfoldable pub resolve_snapshot_id : String → String
resolve_snapshot_id backup_id = elim (after_colon backup_id) [ none ↦ backup_id | some s ↦ s ]

unfoldable pub build_version_mismatch_warning : String → String → String
build_version_mismatch_warning backup_version server_version =
    if backup_version == "" || server_version == "" || backup_version == server_version
    then ""
    else "Backup was created with Minecraft "
      +++ (backup_version
          +++ (" but the server runs "
              +++ (server_version
                  +++ ". Downgrading a world can cause data loss in blocks and items added by newer versions.")))

unfoldable pub restore_response : String → Backup → String → RestoreResponse
restore_response server_id backup warning = record {
  operation = "restore";
  server_id = server_id;
  backup_id = backup.id;
  snapshot_id = backup.snapshot_id;
  warnings = if warning == "" then [] else warning ∷ [];
  provisioning_status_url = "/api/servers/" +++ (server_id +++ "/provisioning");
}

-- The program config of `HandleUpdateAgent`, which names no backup settings and no backup image.
unfoldable pub agent_update_config :
    String → ServerConfig → ControllerConfig → String → ProgramConfig
agent_update_config server_id sc cfg token = record (build_program_config server_id sc cfg token) {
  backup_image = "";
  backup = none;
}

-- The status that a start or a stop writes.
unfoldable pub acted_status : ServerState → Time → Outcome Error Status → Status
acted_status state time (ok status) = record zero_status {
  players = status.players;
  timestamp = time;
  uptime = status.uptime;
  server_state = state;
}
acted_status state time (err e) = record unreported_status {
  timestamp = time;
  server_state = state;
}

module _ (env : Env HandlerCall HandlerAnswer) (site : Site) (server_id : String) where
  unfoldable pub delete_server : Handler (Unit {0})
  delete_server = do
    require (not (server_id == "")) 400 "server id is required"
    connect env site
    read_config env site server_id
    require site.provisioning 503 "provisioning service not available"
    started ← call env (start_destroy server_id)
    check_started server_id "failed to start destruction: " started

  -- The error of the start of an agent update.
  unfoldable pub check_agent_updating : Option Error → Handler (Unit {0})
  check_agent_updating none = pure tt
  check_agent_updating (some e) =
      if e.text == (operation_in_progress server_id).text
      then refuse 409 "operation already in progress for this server"
      else (do
        reverted ← call env (revert_server_config server_id)
        refuse 500
            "Agent update failed. Your original configuration has been restored. Please try again later.")

  unfoldable pub handle_update_agent : Handler ServerResponse
  handle_update_agent = do
    cfg ← connect env site
    old ← read_config env site server_id
    require site.provisioning 503 "provisioning service not available"
    saved ← call env (save_config_snapshot server_id old)
    no_error 500 "failed to save config snapshot" saved
    time ← now
    let config = record old { machine_agent_image = cfg.machine_agent_image; updated_at = time }
    check_valid env site config
    stored ← call env (update_server_config server_id config)
    no_error 500 "failed to update server config" stored
    minted ← call env (mint_token config.name)
    token ← expect 500 "failed to create agent token" minted
    started ← call env (start_update server_id (agent_update_config server_id config cfg token) 0)
    check_agent_updating started
    pure (accepted_response site server_id config)

  -- From the answer of the Compute API on: the status is written, and an error of that is logged.
  unfoldable pub note_state : ServerState → String → Handler ServerState
  note_state state name = do
    current ← call env (get_status name)
    time ← now
    call env (update_status name (acted_status state time current))
    pure state

  -- The connection is used before its error is looked at: without one the handler panics, which is
  -- an error without a code.
  unfoldable pub connect_or_panic : Outcome Error ControllerConfig → Handler ControllerConfig
  connect_or_panic (ok cfg) = pure cfg
  connect_or_panic (err e) = refuse 0 "invalid memory address or nil pointer dereference"

  unfoldable pub start_server_by_id : Handler ServerState
  start_server_by_id = do
    connection ← call env get_db_connection
    cfg ← connect_or_panic connection
    config ← read_config env site server_id
    client ← call env new_compute_client
    no_error 500 "failed to create compute client" client
    started ← call env (start_instance cfg.project_id config.zone config.name)
    no_error 500 "failed to start instance" started
    note_state server_state_starting config.name

  unfoldable pub stop_server_by_id : Handler ServerState
  stop_server_by_id = do
    connection ← call env get_db_connection
    cfg ← connect_or_panic connection
    config ← read_config env site server_id
    client ← call env new_compute_client
    no_error 500 "failed to create compute client" client
    stopped ← call env (stop_instance cfg.project_id config.zone config.name)
    no_error 500 "failed to stop instance" stopped
    note_state server_state_stopping config.name

  -- `backupConfig.IsValid()`
  unfoldable pub check_backup_settings : Option ValidationError → Handler (Unit {0})
  check_backup_settings none = pure tt
  check_backup_settings (some e) = refuse 400 (site.describe e)

  -- The error of the start of an update of the backup settings: an operation in progress is no
  -- exception.
  unfoldable pub check_settings_updating : Option Error → Handler (Unit {0})
  check_settings_updating none = pure tt
  check_settings_updating (some e) = do
    reverted ← call env (revert_server_config server_id)
    refuse 500
        "Server update failed. Your original configuration has been restored. Please try again or contact support."

  unfoldable pub update_backup_settings_by_id : Option BackupSettings → Handler BackupSettings
  update_backup_settings_by_id body = do
    req ← decode body
    let backup = backup_settings_to_db (some req)
    check_backup_settings (backup_config_error backup)
    cfg ← connect env site
    old ← read_config env site server_id
    saved ← call env (save_config_snapshot server_id old)
    no_error 500 "failed to save config snapshot" saved
    time ← now
    let config = record old { backup = backup; updated_at = time }
    stored ← call env (update_server_config server_id config)
    no_error 500 "failed to update server config" stored
    require site.provisioning 503 "provisioning service not available"
    minted ← call env (mint_token config.name)
    token ← expect 500 "failed to create agent token" minted
    started ← call env (
        start_update server_id (build_program_config server_id config cfg token)
          update_type_in_place)
    check_settings_updating started
    pure (backup_settings_from_db config.backup)

  -- The error of the start of a restore.
  unfoldable pub check_restoring : Option Error → Handler (Unit {0})
  check_restoring none = pure tt
  check_restoring (some e) =
      if e.text == (operation_in_progress server_id).text
      then refuse 409 "operation already in progress for this server"
      else refuse 500 "failed to start restore operation"

  unfoldable pub restore_backup_by_id : String → Handler RestoreResponse
  restore_backup_by_id backup_id = do
    require (not (server_id == "")) 400 "server id is required"
    require (not (backup_id == "")) 400 "backup id is required"
    require site.provisioning 503 "provisioning service not available"
    connect env site
    config ← read_config env site server_id
    found ← call env (get_backup server_id (resolve_snapshot_id backup_id))
    backup ← expect 404 "backup not found" found
    require (backup.server_id == server_id) 403 "backup does not belong to this server"
    require (backup.status == backup_status_completed) 400 "only completed backups can be restored"
    let warning = build_version_mismatch_warning backup.minecraft_version config.minecraft_version
    started ← call env (start_restore server_id backup warning)
    check_restoring started
    pure (restore_response server_id backup warning)
