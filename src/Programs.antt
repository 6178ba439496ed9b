-- ===== src/Programs.antt =====
-- The input of the Pulumi program: `ServerConfig` of internal/pulumi/programs/server.go, and the
-- fields of `config.Config` that the controller passes into it.
use metio.Base.{String, ◌≡◌, refl, Bool, false, ◌&&◌, Option, none, some}
use metio.Base.Int.{ℤ, pos, int_ltb}
use metio.Types.{ModpackConfig, BackupConfig, ServerConfig, current_infra_version}

-- `programs.BackupConfig` and `programs.ModpackConfig` have the fields of the stored documents.
pub record ProgramConfig : Type 0 where
  pub name : String
  pub server_id : String
  pub region : String
  pub zone : String
  pub machine_type : String
  pub minecraft_version : String
  pub disk_size_gb : ℤ
  pub environment : String
  pub machine_agent_image : String
  pub backup_image : String
  pub gcp_project : String
  pub existing_address : String
  pub controller_url : String
  pub agent_token : String
  pub backup : Option BackupConfig
  pub modpack : Option ModpackConfig
  pub backup_restic_password : String
  pub retain_legacy_backup_bucket : Bool
  pub import_existing_address : Bool
  pub restore_snapshot_id : String
  pub restore_source_prefix : String

-- The fields of `config.Config` that the handlers read.
pub record ControllerConfig : Type 0 where
  pub environment : String
  pub project_id : String
  pub machine_agent_image : String
  pub backup_image : String
  pub base_url : String
  pub backup_restic_password : String

-- `DBBackupToProgramBackup` of internal/handlers/servers/common.go.
unfoldable pub db_backup_to_program_backup : Option BackupConfig → Option BackupConfig
db_backup_to_program_backup none = none
db_backup_to_program_backup (some c) = some (record {
  enabled = c.enabled;
  backup_interval_hours = c.backup_interval_hours;
  keep = c.keep;
  keep_unit = c.keep_unit;
})

-- `DBModpackToProgramModpack` of internal/handlers/servers/common.go.
unfoldable pub db_modpack_to_program_modpack : Option ModpackConfig → Option ModpackConfig
db_modpack_to_program_modpack none = none
db_modpack_to_program_modpack (some m) =
    some (record { platform = m.platform; project_id = m.project_id; version_id = m.version_id })

-- `sc.InfraVersion > 0 && sc.InfraVersion < programs.CurrentInfraVersion`
unfoldable pub retains_legacy_bucket : ServerConfig → Bool
retains_legacy_bucket sc =
    int_ltb (pos 0) sc.infra_version && int_ltb sc.infra_version current_infra_version

-- `buildProgramConfig` of internal/handlers/servers/common.go.
unfoldable pub build_program_config :
    String → ServerConfig → ControllerConfig → String → ProgramConfig
build_program_config server_id sc cfg token = record {
  name = sc.name;
  server_id = server_id;
  region = sc.region;
  zone = sc.zone;
  machine_type = sc.machine_type;
  minecraft_version = sc.minecraft_version;
  disk_size_gb = sc.disk_size_gb;
  environment = cfg.environment;
  machine_agent_image = cfg.machine_agent_image;
  backup_image = cfg.backup_image;
  gcp_project = cfg.project_id;
  existing_address = sc.existing_address;
  controller_url = cfg.base_url;
  agent_token = token;
  backup = db_backup_to_program_backup sc.backup;
  modpack = db_modpack_to_program_modpack sc.modpack;
  backup_restic_password = cfg.backup_restic_password;
  retain_legacy_backup_bucket = retains_legacy_bucket sc;
  import_existing_address = false;
  restore_snapshot_id = "";
  restore_source_prefix = "";
}

-- `buildProgramConfig` of internal/handlers/tasks/handler.go.
unfoldable pub build_task_config : ServerConfig → ControllerConfig → String → ProgramConfig
build_task_config sc cfg token = record {
  name = sc.name;
  server_id = sc.id;
  region = sc.region;
  zone = sc.zone;
  machine_type = sc.machine_type;
  minecraft_version = sc.minecraft_version;
  disk_size_gb = sc.disk_size_gb;
  environment = cfg.environment;
  machine_agent_image = cfg.machine_agent_image;
  backup_image = cfg.backup_image;
  gcp_project = cfg.project_id;
  existing_address = sc.existing_address;
  controller_url = cfg.base_url;
  agent_token = token;
  backup = db_backup_to_program_backup sc.backup;
  modpack = db_modpack_to_program_modpack sc.modpack;
  backup_restic_password = cfg.backup_restic_password;
  retain_legacy_backup_bucket = retains_legacy_bucket sc;
  import_existing_address = false;
  restore_snapshot_id = "";
  restore_source_prefix = "";
}

-- The task handler and the request handlers build the same program config from a stored config, for
-- the server that the config names: the two functions stay in step, field by field.
pub build_task_config_agrees :
    (sc : ServerConfig) (cfg : ControllerConfig) (token : String)
    → build_task_config sc cfg token ≡ build_program_config sc.id sc cfg token
unfolding build_task_config build_program_config
build_task_config_agrees sc cfg token = refl
