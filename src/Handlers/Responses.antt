-- ===== src/Handlers/Responses.antt =====
-- The bodies of the responses and the conversions between stored and wire documents: the second
-- half of internal/handlers/servers/common.go, and `toBackupResponse` of backup_catalog.go.
use metio.Base.{ℕ, String, Bool, true, false, Option, none, some, List, map}
use metio.Base.Int.{ℤ, pos}
use metio.Types.{
  Time, ModpackConfig, BackupSourceConfig, Backup, ShutdownSchedule, BackupConfig, ServerConfig,
  ProvisioningStep, ProvisioningStatus, current_infra_version,
}
use metio.Types.Codec.{state_string, operation_string}
use metio.Progress.{calculate_progress}
use metio.Handlers.{Site}

-- `ShutdownScheduleInput`
pub record ShutdownScheduleInput : Type 0 where
  pub enabled : Bool
  pub time : String
  pub timezone : String

unfoldable pub shutdown_schedule_to_input : Option ShutdownSchedule → Option ShutdownScheduleInput
shutdown_schedule_to_input none = none
shutdown_schedule_to_input (some s) =
    some (record { enabled = s.enabled; time = s.time; timezone = s.timezone })

unfoldable pub shutdown_schedule_from_input : Option ShutdownScheduleInput → Option ShutdownSchedule
shutdown_schedule_from_input none = none
shutdown_schedule_from_input (some s) =
    some (record { enabled = s.enabled; time = s.time; timezone = s.timezone })

-- `BackupSettings`
pub record BackupSettings : Type 0 where
  pub enabled : Bool
  pub backup_interval_hours : ℤ
  pub keep : ℤ
  pub keep_unit : String

unfoldable pub backup_settings_from_db : Option BackupConfig → BackupSettings
backup_settings_from_db none = record {
  enabled = true;
  backup_interval_hours = pos 0;
  keep = pos 0;
  keep_unit = "";
}
backup_settings_from_db (some c) = record {
  enabled = c.enabled;
  backup_interval_hours = c.backup_interval_hours;
  keep = c.keep;
  keep_unit = c.keep_unit;
}

unfoldable pub backup_settings_to_db : Option BackupSettings → Option BackupConfig
backup_settings_to_db none = none
backup_settings_to_db (some s) = some (record {
  enabled = s.enabled;
  backup_interval_hours = s.backup_interval_hours;
  keep = s.keep;
  keep_unit = s.keep_unit;
})

-- `ServerConfigJSON`
pub record ServerConfigJson : Type 0 where
  pub name : String
  pub region : String
  pub zone : String
  pub machine_type : String
  pub minecraft_version : String
  pub disk_size_gb : ℤ
  pub infra_version : ℤ
  pub deployed_by_controller_version : String
  pub machine_agent_image : String
  pub shutdown_schedule : Option ShutdownScheduleInput
  pub modpack : Option ModpackConfig
  pub created_at : String
  pub updated_at : String

-- `ServerResponse`; no handler sets its status.
pub record ServerResponse : Type 0 where
  pub id : String
  pub config : ServerConfigJson
  pub current_infra_version : ℤ
  pub outdated : Bool
  pub outdated_machine_agent : Bool
  pub controller_version : String

-- `StepResponse` and `ProvisioningStatusResponse`
pub record StepResponse : Type 0 where
  pub name : String
  pub status : String
  pub message : String
  pub timestamp : String

pub record ProvisioningStatusResponse : Type 0 where
  pub id : String
  pub operation : String
  pub state : String
  pub current_step : String
  pub progress : ℕ
  pub steps : List StepResponse
  pub error : String
  pub started_at : String
  pub completed_at : Option String
  pub outputs : List (String × String)

-- `backupSourceConfigResponse` has the fields of `BackupSourceConfig`.
pub record BackupResponse : Type 0 where
  pub id : String
  pub server_id : String
  pub server_name : String
  pub snapshot_id : String
  pub repository_prefix : String
  pub created_at : String
  pub duration_seconds : ℤ
  pub file_count : ℤ
  pub repository_size : ℤ
  pub minecraft_version : String
  pub status : String
  pub server_deleted_at : String
  pub retention_until : String
  pub source_config : Option BackupSourceConfig

module _ (site : Site) where
  unfoldable pub server_config_to_json : ServerConfig → ServerConfigJson
  server_config_to_json cfg = record {
    name = cfg.name;
    region = cfg.region;
    zone = cfg.zone;
    machine_type = cfg.machine_type;
    minecraft_version = cfg.minecraft_version;
    disk_size_gb = cfg.disk_size_gb;
    infra_version = cfg.infra_version;
    deployed_by_controller_version = cfg.deployed_by_controller_version;
    machine_agent_image = cfg.machine_agent_image;
    shutdown_schedule = shutdown_schedule_to_input cfg.shutdown_schedule;
    modpack = cfg.modpack;
    created_at = site.rfc3339 cfg.created_at;
    updated_at = site.rfc3339 cfg.updated_at;
  }

  -- The response to an accepted request.
  unfoldable pub accepted_response : String → ServerConfig → ServerResponse
  accepted_response server_id config = record {
    id = server_id;
    config = server_config_to_json config;
    current_infra_version = current_infra_version;
    outdated = true;
    outdated_machine_agent = false;
    controller_version = site.controller_version;
  }

  unfoldable pub step_response : ProvisioningStep → StepResponse
  step_response step = record {
    name = step.name;
    status = state_string step.status;
    message = step.message;
    timestamp = site.rfc3339 step.timestamp;
  }

  -- The layout "2006-01-02T15:04:05Z07:00" is that of RFC 3339.
  unfoldable pub to_provisioning_status_response : ProvisioningStatus → ProvisioningStatusResponse
  to_provisioning_status_response status = record {
    id = status.id;
    operation = operation_string status.operation;
    state = state_string status.state;
    current_step = status.current_step;
    progress = calculate_progress status;
    steps = map step_response status.steps;
    error = status.error;
    started_at = site.rfc3339 status.started_at;
    completed_at = elim status.completed_at [ none ↦ none | some t ↦ some (site.rfc3339 t) ];
    outputs = status.outputs;
  }

  unfoldable pub format_time : Option Time → String
  format_time none = ""
  format_time (some t) = site.rfc3339 t

  unfoldable pub source_response : Option BackupSourceConfig → Option BackupSourceConfig
  source_response none = none
  source_response (some s) = some (record {
    region = s.region;
    zone = s.zone;
    machine_type = s.machine_type;
    disk_size_gb = s.disk_size_gb;
    minecraft_version = s.minecraft_version;
    modpack = s.modpack;
  })

  unfoldable pub to_backup_response : Backup → BackupResponse
  to_backup_response b = record {
    id = b.id;
    server_id = b.server_id;
    server_name = b.server_name;
    snapshot_id = b.snapshot_id;
    repository_prefix = b.repository_prefix;
    created_at = site.rfc3339 b.created_at;
    duration_seconds = b.duration_seconds;
    file_count = b.file_count;
    repository_size = b.repository_size;
    minecraft_version = b.minecraft_version;
    status = b.status;
    server_deleted_at = format_time b.server_deleted_at;
    retention_until = format_time b.retention_until;
    source_config = source_response b.source_config;
  }
