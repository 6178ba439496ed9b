-- ===== src/Handlers/Update.antt =====
-- `UpdateServer` and `classifyUpdate` of internal/handlers/servers/crud.go.
use metio.Base.{
  beq, if◌then◌else◌, ◌+++◌, ℕ, String, Bool, true, false, not, ◌&&◌, Option, none, some, ◌==◌,
}
use metio.Base.Int.{ℤ, int_ltb}
use metio.Types.{Time, is_running, Status, ModpackConfig, ShutdownSchedule, ServerConfig}
use metio.Exec.{Error, Outcome, ok, err, pure, ◌>>=◌, ◌>>◌, Env, call, now}
use metio.Programs.{ControllerConfig, build_program_config}
use metio.Handlers.{
  HandlerCall, get_server_config, get_status, revert_server_config, HandlerAnswer, Site, Handler,
  refuse, expect, require, update_server_config, save_config_snapshot, start_update, mint_token,
  no_error, decode,
}
use metio.Handlers.Checks.{
  check_name, check_version, check_modpack, check_machine_type, check_valid, connect,
}
use metio.Handlers.Responses.{
  ShutdownScheduleInput, shutdown_schedule_from_input, ServerResponse, accepted_response,
}
use metio.Provisioning.Executor.{operation_in_progress}

-- `UpdateServerRequest`: a pointer that is nil is `none`. For the pointer to a pointer, `some none`
-- is a pointer to nil.
pub record UpdateServerRequest : Type 0 where
  pub name : Option String
  pub region : Option String
  pub zone : Option String
  pub machine_type : Option String
  pub minecraft_version : Option String
  pub disk_size_gb : Option ℤ
  pub shutdown_schedule : Option ShutdownScheduleInput
  pub modpack : Option (Option ModpackConfig)

-- `x != nil`, and `if x != nil { field = *x }`.
unfoldable pub is_some : {A : Type 0} → Option A → Bool
is_some none = false
is_some (some a) = true

unfoldable pub or_keep : {A : Type 0} → Option A → A → A
or_keep none a = a
or_keep (some b) a = b

-- `UpdateType`
abbrev pub update_type_in_place : ℕ
update_type_in_place = 0

abbrev pub update_type_resize : ℕ
update_type_resize = 1

abbrev pub update_type_recreate : ℕ
update_type_recreate = 2

unfoldable pub classify_update : UpdateServerRequest → ℕ
classify_update req =
    if is_some req.modpack
    then update_type_recreate
    else if is_some req.minecraft_version
    then update_type_recreate
    else if is_some req.machine_type
    then update_type_resize
    else update_type_in_place

-- `req.DiskSizeGB != nil && *req.DiskSizeGB < existingConfig.DiskSizeGB`
unfoldable pub shrinks : Option ℤ → ℤ → Bool
shrinks none size = false
shrinks (some s) size = int_ltb s size

unfoldable pub updated_schedule :
    Option ShutdownScheduleInput → Option ShutdownSchedule → Option ShutdownSchedule
updated_schedule none old = old
updated_schedule (some s) old = shutdown_schedule_from_input (some s)

-- The version after the change of the modpack: a pack that is set clears it.
unfoldable pub updated_version : Option (Option ModpackConfig) → String → String
updated_version (some (some m)) version = ""
updated_version (some none) version = version
updated_version none version = version

-- The config that is validated and stored: the fields of the request over those of `c`.
unfoldable pub updated_config :
    UpdateServerRequest → ControllerConfig → Time → ServerConfig → ServerConfig
updated_config req cfg time c = record c {
  name = or_keep req.name c.name;
  machine_type = or_keep req.machine_type c.machine_type;
  minecraft_version =
      updated_version req.modpack (or_keep req.minecraft_version c.minecraft_version);
  disk_size_gb = or_keep req.disk_size_gb c.disk_size_gb;
  shutdown_schedule = updated_schedule req.shutdown_schedule c.shutdown_schedule;
  modpack = or_keep req.modpack c.modpack;
  machine_agent_image = cfg.machine_agent_image;
  updated_at = time;
}

-- `err == nil && status.ServerState != "" && !status.ServerState.IsRunning()`
unfoldable pub stops_update : Outcome Error Status → Bool
stops_update (err e) = false
stops_update (ok status) = not (status.server_state == "") && not (is_running status.server_state)

unfoldable pub state_of : Outcome Error Status → String
state_of (err e) = ""
state_of (ok status) = status.server_state

-- The message of a failed update, by its type.
unfoldable pub update_failure : ℕ → String
update_failure update_type =
    "Server update failed. "
    +++ (if beq update_type update_type_recreate
        then "The Minecraft server could not be updated. Your original configuration has been restored. If the problem persists, try stopping the server and retrying."
        else if beq update_type update_type_resize
        then "The machine type could not be changed. Your original configuration has been restored. The server will be restarted automatically."
        else "Your original configuration has been restored. Please try again or contact support.")

module _ (env : Env HandlerCall HandlerAnswer) (site : Site) (server_id : String) where
  unfoldable pub read_config : Handler ServerConfig
  read_config = do
    found ← call env (get_server_config server_id)
    expect 404 "server not found" found

  -- The duplicate check on a rename.
  unfoldable pub check_rename : Option String → String → Handler (Unit {0})
  check_rename none old = pure tt
  check_rename (some name) old = if name == old then pure tt else check_name env site name server_id

  -- The checks against the offered lists, of what the request changes.
  unfoldable pub check_new_version : Option String → Option ModpackConfig → Handler (Unit {0})
  check_new_version (some version) none = check_version env site version
  check_new_version (some version) (some m) = pure tt
  check_new_version none m = pure tt

  unfoldable pub check_new_modpack : Option (Option ModpackConfig) → Handler (Unit {0})
  check_new_modpack (some (some m)) = check_modpack env site m
  check_new_modpack (some none) = pure tt
  check_new_modpack none = pure tt

  unfoldable pub check_new_machine_type : Option String → Handler (Unit {0})
  check_new_machine_type none = pure tt
  check_new_machine_type (some machine_type) = check_machine_type env site machine_type

  -- The state of the server, for an update that stops it.
  unfoldable pub check_state : ℕ → Handler (Unit {0})
  check_state update_type = if beq update_type update_type_in_place then pure tt else (do
    status ← call env (get_status server_id)
    require (not (stops_update status)) 400
        ("server must be running to update. Current state: " +++ state_of status))

  -- The error of the start of the update: the config is reverted, except for an operation that is in
  -- progress; an error of the revert is logged.
  unfoldable pub check_updating : ℕ → Option Error → Handler (Unit {0})
  check_updating update_type none = pure tt
  check_updating update_type (some e) =
      if e.text == (operation_in_progress server_id).text
      then refuse 409 "operation already in progress for this server"
      else (do
        reverted ← call env (revert_server_config server_id)
        refuse 500 (update_failure update_type))

  -- The checks on the request itself, against the stored config.
  unfoldable pub check_immutable : UpdateServerRequest → ServerConfig → Handler (Unit {0})
  check_immutable req old = do
    require (not (is_some req.region)) 400
        "region is immutable; create a new server to change location"
    require (not (is_some req.zone)) 400 "zone is immutable; create a new server to change location"
    require (not (shrinks req.disk_size_gb old.disk_size_gb)) 400 "disk size can only be increased"

  -- The checks on the new config.
  unfoldable pub check_updated : UpdateServerRequest → ServerConfig → Handler (Unit {0})
  check_updated req config = do
    check_valid env site config
    check_new_version req.minecraft_version config.modpack
    check_new_modpack req.modpack
    check_new_machine_type req.machine_type
    check_state (classify_update req)

  -- From the write of the new config on.
  unfoldable pub start_updating : ℕ → ControllerConfig → ServerConfig → Handler ServerResponse
  start_updating update_type cfg config = do
    stored ← call env (update_server_config server_id config)
    no_error 500 "failed to update server config" stored
    require site.provisioning 503 "provisioning service not available"
    minted ← call env (mint_token config.name)
    token ← expect 500 "failed to create agent token" minted
    started ←
        call env
          (start_update server_id (build_program_config server_id config cfg token) update_type)
    check_updating update_type started
    pure (accepted_response site server_id config)

  unfoldable pub update_server : Option UpdateServerRequest → Handler ServerResponse
  update_server body = do
    require (not (server_id == "")) 400 "server id is required"
    req ← decode body
    cfg ← connect env site
    old ← read_config
    check_immutable req old
    saved ← call env (save_config_snapshot server_id old)
    no_error 500 "failed to save config snapshot" saved
    check_rename req.name old.name
    time ← now
    let config = updated_config req cfg time old
    check_updated req config
    start_updating (classify_update req) cfg config
