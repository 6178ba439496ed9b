-- ===== src/Types.antt =====
-- The stored documents: internal/dbtypes/types.go, internal/db/server_config.go and
-- internal/db/provisioning.go. Go strings are texts, a map is an association list, a pointer that
-- may be nil is an `Option`, and an instant (`time.Time`) is a number of nanoseconds.
pub mod Codec
use metio.Base.{if◌then◌else◌, ℕ, String, Bool, false, ◌||◌, Option, none, List, [], ◌∷◌, ◌==◌}
use metio.Base.Int.{ℤ, pos}

abbrev pub Time : Type 0
Time = ℕ

-- `type ServerState string`: the constants, and any other text that a document may hold.
abbrev pub ServerState : Type 0
ServerState = String

abbrev pub server_state_stopped : ServerState
server_state_stopped = "STOPPED"

abbrev pub server_state_starting : ServerState
server_state_starting = "STARTING"

abbrev pub server_state_running : ServerState
server_state_running = "RUNNING"

abbrev pub server_state_stopping : ServerState
server_state_stopping = "STOPPING"

unfoldable pub is_running : ServerState → Bool
is_running s = s == server_state_running

unfoldable pub is_stopped : ServerState → Bool
is_stopped s = s == server_state_stopped

unfoldable pub is_transitioning : ServerState → Bool
is_transitioning s = s == server_state_starting || s == server_state_stopping

pub record Players : Type 0 where
  pub current : ℤ
  pub max : ℤ

pub record Status : Type 0 where
  pub players : Players
  pub timestamp : Time
  pub uptime : String
  pub server_state : ServerState
  pub instance_ip : String
  pub version : String
  pub whitelist_enabled : Bool
  pub scheduled_shutdown : Option Time
  pub pending_command : String
  pub pending_command_args : List (String × String)
  pub pending_command_result : String
  pub agent_version : String

-- `Status{}`, the zero value.
abbrev pub zero_status : Status
zero_status = record {
  players = record { current = pos 0; max = pos 0 };
  timestamp = 0;
  uptime = "";
  server_state = "";
  instance_ip = "";
  version = "";
  whitelist_enabled = false;
  scheduled_shutdown = none;
  pending_command = "";
  pending_command_args = [];
  pending_command_result = "";
  agent_version = "";
}

pub record WhitelistEntry : Type 0 where
  pub username : String
  pub uuid : String
  pub added_at : Time
  pub added_by : String

pub record WhitelistConfig : Type 0 where
  pub enabled : Bool

-- `type BackupStatus string`.
abbrev pub backup_status_completed : String
backup_status_completed = "COMPLETED"

abbrev pub backup_status_failed : String
backup_status_failed = "FAILED"

abbrev pub modrinth_platform : String
modrinth_platform = "modrinth"

pub record ModpackConfig : Type 0 where
  pub platform : String
  pub project_id : String
  pub version_id : String

pub record BackupSourceConfig : Type 0 where
  pub region : String
  pub zone : String
  pub machine_type : String
  pub disk_size_gb : ℤ
  pub minecraft_version : String
  pub modpack : Option ModpackConfig

pub record Backup : Type 0 where
  pub id : String
  pub server_id : String
  pub server_name : String
  pub snapshot_id : String
  pub repository_prefix : String
  pub created_at : Time
  pub duration_seconds : ℤ
  pub file_count : ℤ
  pub repository_size : ℤ
  pub minecraft_version : String
  pub status : String
  pub server_deleted_at : Option Time
  pub retention_until : Option Time
  pub source_config : Option BackupSourceConfig

pub record ShutdownSchedule : Type 0 where
  pub enabled : Bool
  pub time : String
  pub timezone : String

pub record BackupConfig : Type 0 where
  pub enabled : Bool
  pub backup_interval_hours : ℤ
  pub keep : ℤ
  pub keep_unit : String

pub record ServerConfig : Type 0 where
  pub id : String
  pub name : String
  pub region : String
  pub zone : String
  pub machine_type : String
  pub minecraft_version : String
  pub disk_size_gb : ℤ
  pub infra_version : ℤ
  pub deployed_by_controller_version : String
  pub machine_agent_image : String
  pub existing_address : String
  pub shutdown_schedule : Option ShutdownSchedule
  pub backup : Option BackupConfig
  pub modpack : Option ModpackConfig
  pub created_at : Time
  pub updated_at : Time

pub data ProvisioningState : Type 0 where
  pending in_progress completed failed : ProvisioningState

pub data ProvisioningOperation : Type 0 where
  create update destroy restore : ProvisioningOperation

pub record ProvisioningStep : Type 0 where
  pub name : String
  pub status : ProvisioningState
  pub message : String
  pub timestamp : Time

pub record ProvisioningStatus : Type 0 where
  pub id : String
  pub operation : ProvisioningOperation
  pub state : ProvisioningState
  pub started_at : Time
  pub completed_at : Option Time
  pub current_step : String
  pub steps : List ProvisioningStep
  pub error : String
  pub outputs : List (String × String)

-- `programs.CurrentInfraVersion`.
abbrev pub current_infra_version : ℤ
current_infra_version = pos 6

-- A read of a `map[string]string`: the zero value where the key is missing.
unfoldable pub map_get : String → List (String × String) → String
map_get k [] = ""
map_get k ((j, v) ∷ m) = if j == k then v else map_get k m
