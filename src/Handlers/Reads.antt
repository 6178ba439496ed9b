-- ===== src/Handlers/Reads.antt =====
-- The handlers that only read: `ListServers` and `GetServer` of internal/handlers/servers/crud.go,
-- `StatusByID` of actions.go, `GetWhitelistByID` of whitelist.go, `GetBackupSettingsByID` of
-- backup.go and `GetServerProvisioningStatus` of provisioning.go.
use metio.Base.{if◌then◌else◌, String, Bool, true, false, not, Option, none, some, List, map, ◌==◌}
use metio.Base.Int.{pos, int_ltb}
use metio.Types.{
  server_state_stopped, server_state_starting, Players, Status, zero_status, WhitelistEntry,
  WhitelistConfig, ServerConfig, ProvisioningState, failed, ProvisioningStatus,
  current_infra_version,
}
use metio.Exec.{Error, Outcome, ok, err, pure, ◌>>=◌, ◌>>◌, Env, call, now}
use metio.Programs.{ControllerConfig}
use metio.Handlers.{
  HandlerCall, list_server_configs, get_status, get_provisioning_status, get_whitelist_config,
  get_whitelist_entries, read_provisioning_status, HandlerAnswer, Site, Handler, refuse, expect,
  require,
}
use metio.Handlers.Checks.{connect}
use metio.Handlers.Update.{read_config}
use metio.Handlers.Responses.{
  BackupSettings, backup_settings_from_db, ServerResponse, ProvisioningStatusResponse,
  server_config_to_json, to_provisioning_status_response,
}

-- The response for a stored server, whose infrastructure or agent may be outdated.
unfoldable pub server_response : Site → ControllerConfig → String → ServerConfig → ServerResponse
server_response site cfg server_id config = record {
  id = server_id;
  config = server_config_to_json site config;
  current_infra_version = current_infra_version;
  outdated = int_ltb config.infra_version current_infra_version;
  outdated_machine_agent = not (cfg.machine_agent_image == config.machine_agent_image);
  controller_version = site.controller_version;
}

-- `StatusResponse`
pub record StatusResponse : Type 0 where
  pub players : Players
  pub timestamp : String
  pub uptime : String
  pub server_state : String
  pub instance_ip : String
  pub version : String
  pub whitelist_enabled : Bool
  pub scheduled_shutdown : Option String
  pub agent_version : String

-- `db.Status{Players: db.Players{Current: 0, Max: 20}}`
abbrev pub unreported_status : Status
unreported_status = record zero_status { players = record { current = pos 0; max = pos 20 } }

unfoldable pub is_failed_state : ProvisioningState → Bool
is_failed_state failed = true
is_failed_state _ = false

-- The test of the provisioning status, for a server without a status document.
unfoldable pub has_failed : Outcome Error (Option ProvisioningStatus) → Bool
has_failed (ok (some status)) = is_failed_state status.state
has_failed (ok none) = false
has_failed (err e) = false

unfoldable pub status_response : Site → Status → StatusResponse
status_response site status = record {
  players = status.players;
  timestamp = site.rfc3339 status.timestamp;
  uptime = status.uptime;
  server_state = status.server_state;
  instance_ip = if status.instance_ip == "unknown:25565" then "" else status.instance_ip;
  version = status.version;
  whitelist_enabled = status.whitelist_enabled;
  scheduled_shutdown = elim status.scheduled_shutdown [
    | none ↦ none
    | some t ↦ some (site.rfc3339 t)
  ];
  agent_version = status.agent_version;
}

-- `WhitelistPlayer` and `WhitelistResponse`
pub record WhitelistPlayer : Type 0 where
  pub username : String
  pub uuid : String
  pub added_at : String
  pub added_by : String

pub record WhitelistResponse : Type 0 where
  pub enabled : Bool
  pub players : List WhitelistPlayer

unfoldable pub whitelist_player : Site → WhitelistEntry → WhitelistPlayer
whitelist_player site entry = record {
  username = entry.username;
  uuid = entry.uuid;
  added_at = site.rfc3339 entry.added_at;
  added_by = entry.added_by;
}

-- A whitelist that was never configured is disabled.
unfoldable pub whitelist_config_or_refuse : Outcome Error WhitelistConfig → Handler WhitelistConfig
whitelist_config_or_refuse (ok c) = pure c
whitelist_config_or_refuse (err e) =
    if e.is_not_found
    then pure (record { enabled = false })
    else refuse 500 "failed to get whitelist config"

module _ (env : Env HandlerCall HandlerAnswer) (site : Site) where
  unfoldable pub list_servers : Handler (List ServerResponse)
  list_servers = do
    cfg ← connect env site
    listed ← call env list_server_configs
    configs ← expect 500 "failed to list servers" listed
    pure (map (λ c. server_response site cfg c.id c) configs)

  unfoldable pub get_server : String → Handler ServerResponse
  get_server server_id = do
    require (not (server_id == "")) 400 "server id is required"
    cfg ← connect env site
    config ← read_config env site server_id
    pure (server_response site cfg server_id config)

  -- A status for a server whose agent has never reported: it starts, unless its provisioning has
  -- failed.
  unfoldable pub synthesized_status : String → Handler Status
  synthesized_status server_id = do
    provisioning ← call env (get_provisioning_status server_id)
    time ← now
    pure (record unreported_status {
      timestamp = time;
      server_state =
          if has_failed provisioning then server_state_stopped else server_state_starting;
    })

  unfoldable pub status_or_synthesized : String → Outcome Error Status → Handler Status
  status_or_synthesized server_id (ok status) = pure status
  status_or_synthesized server_id (err e) =
      if e.is_not_found
      then synthesized_status server_id
      else refuse 500 "failed to get server status"

  unfoldable pub status_by_id : String → Handler StatusResponse
  status_by_id server_id = do
    connect env site
    config ← read_config env site server_id
    read ← call env (get_status config.name)
    status ← status_or_synthesized server_id read
    pure (status_response site status)

  unfoldable pub get_whitelist_by_id : String → Handler WhitelistResponse
  get_whitelist_by_id server_id = do
    connect env site
    config ← read_config env site server_id
    read ← call env (get_whitelist_config config.name)
    whitelist ← whitelist_config_or_refuse read
    listed ← call env (get_whitelist_entries config.name)
    entries ← expect 500 "failed to get whitelist entries" listed
    pure (record { enabled = whitelist.enabled; players = map (whitelist_player site) entries })

  unfoldable pub get_backup_settings_by_id : String → Handler BackupSettings
  get_backup_settings_by_id server_id = do
    connect env site
    config ← read_config env site server_id
    pure (backup_settings_from_db config.backup)

  unfoldable pub get_server_provisioning_status : String → Handler ProvisioningStatusResponse
  get_server_provisioning_status server_id = do
    require (not (server_id == "")) 400 "server id is required"
    require site.provisioning 503 "provisioning service not available"
    read ← call env (read_provisioning_status server_id)
    status ← expect 404 "provisioning status not found" read
    pure (to_provisioning_status_response site status)
