-- ===== src/Tests/Agents.antt =====
-- Examples of the machine agent and of the task handler.
use metio.Base.{◌≡◌, refl, none, List, [], ◌∷◌, Option}
use metio.Types.{Status, zero_status}
use metio.Exec.{ok, Env, Error}
use metio.Tasks.{Response, handle_provisioning_task}
use metio.Tasks.Answers.{Answered, handle_provisioning_task-Answered}
use metio.Agent.{
  reset_state, AgentCall, read_status, report_status, stop_own_instance, say_message,
  save_world_files, restore_world_files, project_of_instance, zone_of_instance, AgentAnswer,
  AgentRun, handle_pending_command, initiate_scheduled_shutdown,
}
use metio.Base.Int.{pos}
use metio.Agent.Manifests.{
  Manifest, ManifestCall, scan_manifests, read_minecraft_version, load_manifest, mark_invalid,
  mark_rejected, remove_manifest, submit_backup_report, ManifestAnswer, process_backup_manifests,
  AreJustified, process_backup_manifests-AreJustified,
}
use metio.Agent.Commands.{IsReported, handle_pending_command-IsReported}
use metio.Agent.Shutdown.{IsShutDown, initiate_scheduled_shutdown-IsShutDown}
use metio.Tests.{controller}
use metio.Tests.Runs.{std_text, service, env, run}

abbrev told_to_save : Status
told_to_save = record zero_status { pending_command = "save" }

abbrev agent_answers : List AgentCall → (c : AgentCall) → AgentAnswer c
agent_answers calls read_status = ok told_to_save
agent_answers calls (report_status status) = none
agent_answers calls (stop_own_instance project zone) = none
agent_answers calls (say_message text) = none
agent_answers calls save_world_files = none
agent_answers calls (restore_world_files a b c) = none
agent_answers calls project_of_instance = ok "metio-test"
agent_answers calls zone_of_instance = ok "europe-west3-a"

abbrev agent_env : Env AgentCall AgentAnswer
agent_env = record { answer = agent_answers; latency = λ calls. 1 }

abbrev agent_run : AgentRun
agent_run = record { history = []; clock = 0; object = reset_state }

handle_pending_command-IsReported_example :
    IsReported agent_env told_to_save
      (read_status ∷ [])
      (handle_pending_command agent_env agent_run).1
handle_pending_command-IsReported_example =
    handle_pending_command-IsReported agent_env agent_run told_to_save refl refl

handle_provisioning_task-Answered_example :
    (response : Response) × ((handle_provisioning_task env std_text service
        (ok controller)
        (λ name. ok "token")
        "s1"
        "s1-1"
        run).0
      ≡ ok response)
    × Answered "s1" [] response
        (handle_provisioning_task env std_text service
          (ok controller)
          (λ name. ok "token")
          "s1"
          "s1-1"
          run).1
handle_provisioning_task-Answered_example =
    handle_provisioning_task-Answered env std_text service (ok controller) (λ name. ok "token") "s1"
      "s1-1" run

initiate_scheduled_shutdown-IsShutDown_example :
    (r : Option Error) × ((initiate_scheduled_shutdown agent_env agent_run).0 ≡ ok r)
    × IsShutDown agent_env r (initiate_scheduled_shutdown agent_env agent_run).1
initiate_scheduled_shutdown-IsShutDown_example =
    initiate_scheduled_shutdown-IsShutDown agent_env agent_run

abbrev night_manifest : Manifest
night_manifest = record {
  timestamp = "2026-08-17T10:30:00Z";
  snapshot_id = "abc";
  server_id = "s1";
  repository_prefix = "servers/s1/restic/";
  duration_seconds = pos 60;
  file_count = pos 100;
  repository_size = pos 4096;
  backup_method = "rcon";
  status = "COMPLETED";
}

abbrev manifest_answers : List ManifestCall → (c : ManifestCall) → ManifestAnswer c
manifest_answers calls (scan_manifests dir) = ok ("manifest-1.json" ∷ "manifest-2.json" ∷ [])
manifest_answers calls read_minecraft_version = "1.21.4"
manifest_answers calls (load_manifest path) = ok night_manifest
manifest_answers calls (mark_invalid path) = none
manifest_answers calls (mark_rejected path) = none
manifest_answers calls (remove_manifest path) = none
manifest_answers calls (submit_backup_report id backup) = none

abbrev manifest_env : Env ManifestCall ManifestAnswer
manifest_env = record { answer = manifest_answers; latency = λ calls. 1 }

process_backup_manifests-AreJustified_example :
    AreJustified manifest_env
      (process_backup_manifests manifest_env ""
        (record { history = []; clock = 7; object = tt })).1.history
process_backup_manifests-AreJustified_example =
    process_backup_manifests-AreJustified manifest_env "" 7
