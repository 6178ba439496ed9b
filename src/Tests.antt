-- ===== src/Tests.antt =====
-- Examples: a small server, and runs of the operations on it.
pub mod Configs
pub mod Runs
pub mod Documents
pub mod Sweeps
pub mod Agents
pub mod Pools
pub mod Requests
pub mod Pages
pub mod Rounds
pub mod Restores
pub mod Whitelists
use metio.Base.{true, false, none, some}
use metio.Base.Int.{pos}
use metio.Types.{ShutdownSchedule, ServerConfig}
use metio.Programs.{ProgramConfig, ControllerConfig, build_program_config}

abbrev pub nightly : ShutdownSchedule
nightly = record { enabled = true; time = "23:30"; timezone = "Europe/Berlin" }

abbrev pub paused : ShutdownSchedule
paused = record { enabled = false; time = "99:99"; timezone = "nowhere" }

abbrev pub survival : ServerConfig
survival = record {
  id = "s1";
  name = "survival";
  region = "europe-west3";
  zone = "europe-west3-a";
  machine_type = "e2-standard-2";
  minecraft_version = "1.21.4";
  disk_size_gb = pos 20;
  infra_version = pos 6;
  deployed_by_controller_version = "v1.2.0";
  machine_agent_image = "";
  existing_address = "";
  shutdown_schedule = some nightly;
  backup = none;
  modpack = none;
  created_at = 0;
  updated_at = 0;
}

abbrev pub idle_survival : ServerConfig
idle_survival = record survival { shutdown_schedule = some paused }

abbrev pub controller : ControllerConfig
controller = record {
  environment = "test";
  project_id = "metio-test";
  machine_agent_image = "agent:1";
  backup_image = "backup:1";
  base_url = "https://metio.test";
  backup_restic_password = "secret";
}

abbrev pub program : ProgramConfig
program = build_program_config "s1" survival controller "token"
