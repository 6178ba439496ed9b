-- ===== src/Tests/Runs.antt =====
-- Examples of the provisioning service, with cloud services that answer at once.
use metio.Provisioning.Deploy.{up_with_retry}
use metio.Provisioning.Operations.{run_operation}
use metio.Progress.{calculate_progress, calculate_progress-complete_step}
use metio.Base.{◌+◌, ◌*◌, ◌/◌, ◌≤◌, String, ◌≡◌, Option, none, some, List, [], ◌∷◌}
use metio.Types.{Status, zero_status, in_progress, create, update, ProvisioningStatus}
use metio.Exec.{Error, Outcome, ok, Env}
use metio.Exec.Triple.{AtEnd}
use metio.Provisioning.Calls.{
  Call, cancel_stack, refresh_stack, destroy_stack, up_stack, upsert_stack, set_config, project_id,
  stop_instance, start_instance, get_status, update_status, get_provisioning, save_provisioning,
  get_server_config, update_server_config, delete_server_config, get_config_snapshot,
  delete_config_snapshot, mark_backups_deleted, context_done, context_done_or_delay, create_task,
  Answer, Service, StdText, Run, second, complete_step,
}
use metio.Provisioning.Coordinator.{
  ack_poll_interval, wait_ack_loop, wait_for_command_ack, wait_for_server_healthy,
  health_poll_interval, wait_healthy_loop,
}
use metio.Provisioning.Executor.{Executor, start_operation, cancel_operation}
use metio.Provisioning.Starting.{Started, start_operation_outcome}
use metio.Provisioning.Cancelling.{Cancelled, cancel_operation-Cancelled}
use metio.Provisioning.Assertions.{IsFailed, IsCompleted}
use metio.Provisioning.Outcome.{run_operation_outcome}
use metio.Provisioning.Acks.{
  AckResult, HealthResult, wait_for_command_ack_sound, wait_for_server_healthy_sound,
}
use metio.Provisioning.Polling.{wait_for_server_healthy-unbounded, wait_for_command_ack-unbounded}
use metio.Provisioning.Attempts.{up_calls, up_with_retry_bound}
use metio.Tests.{survival, program}

abbrev running : Status
running = record zero_status { server_state = "RUNNING"; pending_command_result = "completed" }

abbrev pub std_text : StdText
std_text = record { to_lower = λ s. s; duration = λ n. "10s" }

abbrev pub service : Service
service = record {
  controller_version = "v1.2.0";
  retry_attempts = 3;
  backup_retention_days = 30;
  restore_ack_timeout = 60 * second;
  save_ack_timeout = 10 * second;
  backup_bucket = "backups";
  backup_restic_password = "secret";
}

abbrev started : ProvisioningStatus
started = record {
  id = "s1-1";
  operation = create;
  state = in_progress;
  started_at = 0;
  completed_at = none;
  current_step = "";
  steps = [];
  error = "";
  outputs = [];
}

-- Every call succeeds.
abbrev answers : List Call → (c : Call) → Answer c
answers calls (up_stack id) = ok (("ip", some "10.0.0.1") ∷ [])
answers calls project_id = "metio-test"
answers calls (get_status name) = ok running
answers calls (get_provisioning id) = ok (some started)
answers calls (get_server_config id) = ok survival
answers calls (get_config_snapshot id) = ok survival
answers calls (cancel_stack id) = none
answers calls (refresh_stack id) = none
answers calls (destroy_stack id) = none
answers calls (upsert_stack id config) = none
answers calls (set_config id key value) = none
answers calls (stop_instance project zone name) = none
answers calls (start_instance project zone name) = none
answers calls (update_status name status) = none
answers calls (save_provisioning id status) = none
answers calls (update_server_config id config) = none
answers calls (delete_server_config id) = none
answers calls (delete_config_snapshot id) = none
answers calls (mark_backups_deleted id source deleted until) = none
answers calls context_done = none
answers calls context_done_or_delay = none
answers calls (create_task url) = none

abbrev pub env : Env Call Answer
env = record { answer = answers; latency = λ calls. 1 }

abbrev pub run : Run
run = record { history = []; clock = 0; object = started }

abbrev executor : Executor
executor = record { base_url = "https://metio.test"; query_escape = λ s. s }

run_operation_outcome_example :
    AtEnd
      (IsFailed "s1")
      (λ _. IsCompleted "s1")
      (run_operation env std_text service "s1" update program 1 run).0
      (run_operation env std_text service "s1" update program 1 run).1
run_operation_outcome_example = run_operation_outcome env std_text service "s1" update program 1 run

-- The same, without a stored status of an operation.
abbrev fresh_answers : List Call → (c : Call) → Answer c
fresh_answers calls (get_provisioning id) = ok none
fresh_answers calls c = answers calls c

abbrev fresh_env : Env Call Answer
fresh_env = record { answer = fresh_answers; latency = λ calls. 1 }

start_operation_outcome_example :
    Started fresh_env executor "s1" [] create []
      (start_operation fresh_env executor "s1" create [] run)
start_operation_outcome_example = start_operation_outcome fresh_env executor "s1" create [] run

cancel_operation-Cancelled_example :
    Cancelled env executor "s1" [] (cancel_operation env executor "s1" run)
cancel_operation-Cancelled_example = cancel_operation-Cancelled env executor "s1" run

wait_for_command_ack_sound_example :
    (r : String × Option Error) × ((wait_for_command_ack env std_text "survival"
        (10 * second)
        run).0
      ≡ ok r)
    × AckResult env "survival" r (wait_for_command_ack env std_text "survival" (10 * second) run).1
wait_for_command_ack_sound_example =
    wait_for_command_ack_sound env std_text "survival" (10 * second) run

wait_for_server_healthy_sound_example :
    (r : Option Error) × ((wait_for_server_healthy env std_text "survival" (10 * second) run).0
      ≡ ok r)
    × HealthResult env "survival" r
        (wait_for_server_healthy env std_text "survival" (10 * second) run).1
wait_for_server_healthy_sound_example =
    wait_for_server_healthy_sound env std_text "survival" (10 * second) run

wait_for_command_ack-unbounded_example :
    wait_for_command_ack env std_text "survival" (10 * second) run
    ≡ wait_ack_loop env std_text "survival"
        (10 * second)
        (0 + 10 * second)
        (10 * second / ack_poll_interval + 1 + 7)
        run
wait_for_command_ack-unbounded_example =
    wait_for_command_ack-unbounded env std_text "survival" (10 * second) 7 run

wait_for_server_healthy-unbounded_example :
    wait_for_server_healthy env std_text "survival" (10 * second) run
    ≡ wait_healthy_loop env std_text "survival"
        (10 * second)
        (0 + 10 * second)
        (10 * second / health_poll_interval + 1 + 7)
        run
wait_for_server_healthy-unbounded_example =
    wait_for_server_healthy-unbounded env std_text "survival" (10 * second) 7 run

up_with_retry_bound_example :
    (up_calls (up_with_retry env std_text service "s1" run).1.history ≤ 0 + 3)
    × ((r : Outcome Error (List (String × Option String))) × ((up_with_retry env std_text service
            "s1" run).0
          ≡ ok r))
unfolding up_calls
up_with_retry_bound_example = up_with_retry_bound env std_text service "s1" run

calculate_progress-complete_step_example :
    (calculate_progress started ≤ 100)
    × (calculate_progress started ≤ calculate_progress (complete_step env "s1" "x" run).1.object)
calculate_progress-complete_step_example = calculate_progress-complete_step env "s1" "x" run
