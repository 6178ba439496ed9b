-- ===== src/Handlers/Create.antt =====
-- `CreateServer` of internal/handlers/servers/crud.go and `CreateServerFromBackup` of
-- backup_catalog.go, whose parts from the duplicate check on are one definition.
use metio.Base.{if◌then◌else◌, zero, String, not, Option, none, some, List, [], ◌∷◌, ◌==◌}
use metio.Base.Int.{ℤ, pos}
use metio.Types.{
  Time, backup_status_completed, ModpackConfig, BackupSourceConfig, Backup, ServerConfig,
}
use metio.Exec.{Error, pure, ◌>>=◌, ◌>>◌, Env, call, now}
use metio.Programs.{ProgramConfig, ControllerConfig, build_program_config}
use metio.Handlers.{
  HandlerCall, list_backups, create_server_config, start_create, start_create_from_backup, new_uuid,
  mint_token, HandlerAnswer, Site, Handler, refuse, expect, no_error, require, decode,
}
use metio.Handlers.Responses.{
  ShutdownScheduleInput, shutdown_schedule_from_input, ServerResponse, accepted_response,
}
use metio.Handlers.Checks.{
  check_started, check_name, check_valid, check_source, check_vanilla, check_place, connect,
}

-- `CreateServerRequest`
pub record CreateServerRequest : Type 0 where
  pub name : String
  pub region : String
  pub zone : String
  pub machine_type : String
  pub minecraft_version : String
  pub disk_size_gb : ℤ
  pub shutdown_schedule : Option ShutdownScheduleInput
  pub existing_address : String
  pub modpack : Option ModpackConfig

-- `CreateFromBackupRequest`
pub record CreateFromBackupRequest : Type 0 where
  pub name : String
  pub region : String
  pub zone : String
  pub machine_type : String
  pub minecraft_version : String
  pub disk_size_gb : ℤ

-- The config that `CreateServer` validates, made at the times `created` and `updated`.
unfoldable pub requested_config : CreateServerRequest → Time → Time → ServerConfig
requested_config req created updated = record {
  id = "";
  name = req.name;
  region = req.region;
  zone = req.zone;
  machine_type = req.machine_type;
  minecraft_version = req.minecraft_version;
  disk_size_gb = req.disk_size_gb;
  infra_version = pos 0;
  deployed_by_controller_version = "";
  machine_agent_image = "";
  existing_address = req.existing_address;
  shutdown_schedule = shutdown_schedule_from_input req.shutdown_schedule;
  backup = none;
  modpack = req.modpack;
  created_at = created;
  updated_at = updated;
}

-- `if x == "" { x = y }`, and the same of a number.
unfoldable pub or_default : String → String → String
or_default x y = if x == "" then y else x

unfoldable pub or_size : ℤ → ℤ → ℤ
or_size (pos zero) d = d
or_size s d = s

-- The request with the values of the backup's source config for what it leaves out.
unfoldable pub inherit :
    CreateFromBackupRequest → Option BackupSourceConfig → CreateFromBackupRequest
inherit req none = req
inherit req (some s) = record {
  name = req.name;
  region = or_default req.region s.region;
  zone = or_default req.zone s.zone;
  machine_type = or_default req.machine_type s.machine_type;
  minecraft_version = or_default req.minecraft_version s.minecraft_version;
  disk_size_gb = or_size req.disk_size_gb s.disk_size_gb;
}

unfoldable pub inherited_modpack : Option BackupSourceConfig → Option ModpackConfig
inherited_modpack none = none
inherited_modpack (some s) = s.modpack

unfoldable pub inherited_version : Option ModpackConfig → String → String
inherited_version (some m) version = ""
inherited_version none version = or_default version "1.21.4"

-- The config that `CreateServerFromBackup` validates.
unfoldable pub restored_config : CreateFromBackupRequest → Backup → Time → Time → ServerConfig
restored_config req backup created updated =
    let given = inherit req backup.source_config in
    let modpack = inherited_modpack backup.source_config in
    record {
      id = "";
      name = req.name;
      region = or_default given.region "europe-west1";
      zone = or_default given.zone "europe-west1-b";
      machine_type = or_default given.machine_type "e2-medium";
      minecraft_version = inherited_version modpack given.minecraft_version;
      disk_size_gb = or_size given.disk_size_gb (pos 10);
      infra_version = pos 0;
      deployed_by_controller_version = "";
      machine_agent_image = "";
      existing_address = "";
      shutdown_schedule = none;
      backup = none;
      modpack = modpack;
      created_at = created;
      updated_at = updated;
    }

-- The loop over the backups: the first one with the id.
unfoldable pub find_backup : String → List Backup → Option Backup
find_backup id [] = none
find_backup id (b ∷ backups) =
    let rest = find_backup id backups in if b.id == id then some b else rest

-- The snapshot to restore on the first boot.
unfoldable pub with_restore : Backup → ProgramConfig → ProgramConfig
with_restore backup p = record p {
  restore_snapshot_id = backup.snapshot_id;
  restore_source_prefix = backup.repository_prefix;
}

-- The config as it is stored.
unfoldable pub identified : String → ControllerConfig → ServerConfig → ServerConfig
identified id cfg config = record config { id = id; machine_agent_image = cfg.machine_agent_image }

module _ (env : Env HandlerCall HandlerAnswer) (site : Site) where
  -- From the duplicate check on: `start` starts the operation, on the config that `adjust` makes.
  unfoldable pub launch :
      (String → ProgramConfig → Handler (Option Error))
      → (ProgramConfig → ProgramConfig)
      → ControllerConfig
      → ServerConfig
      → Handler ServerResponse
  launch start adjust cfg config = do
    check_name env site config.name ""
    id ← call env new_uuid
    stored ← call env (create_server_config id (identified id cfg config))
    no_error 500 "failed to create server config" stored
    require site.provisioning 503 "provisioning service not available"
    minted ← call env (mint_token config.name)
    token ← expect 500 "failed to create agent token" minted
    started ← start id (adjust (build_program_config id (identified id cfg config) cfg token))
    check_started id "failed to start provisioning: " started
    pure (accepted_response site id (identified id cfg config))

  unfoldable pub create_server : Option CreateServerRequest → Handler ServerResponse
  create_server body = do
    req ← decode body
    created ← now
    updated ← now
    let config = requested_config req created updated
    check_valid env site config
    check_source env site config.modpack config.minecraft_version
    check_place env site config
    cfg ← connect env site
    launch (λ id p. call env (start_create id p)) (λ p. p) cfg config

  unfoldable pub create_server_from_backup :
      String → Option CreateFromBackupRequest → Handler ServerResponse
  create_server_from_backup backup_id body = do
    require (not (backup_id == "")) 400 "backup id is required"
    req ← decode body
    require (not (req.name == "")) 400 "server name is required"
    cfg ← connect env site
    listed ← call env list_backups
    backups ← expect 500 "failed to list backups" listed
    backup ← elim (find_backup backup_id backups) [
      | some b ↦ pure b
      | none ↦ refuse 404 "backup not found"
    ]
    require (backup.status == backup_status_completed) 400
        "only completed backups can be used to create a server"
    created ← now
    updated ← now
    let config = restored_config req backup created updated
    check_valid env site config
    check_vanilla env site config.modpack config.minecraft_version
    check_place env site config
    launch (λ id p. call env (start_create_from_backup id p)) (with_restore backup) cfg config
