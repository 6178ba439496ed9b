-- ===== src/Provisioning/Executor.antt =====
-- The Cloud Tasks executor: internal/services/executor_cloudtasks.go.
use metio.Base.{
  if◌then◌else◌, ◌+++◌, decimal, ◌/◌, String, Bool, true, false, not, Option, none, some, List, [],
}
use metio.Types.{
  Time, ProvisioningState, in_progress, failed, ProvisioningOperation, ProvisioningStatus,
}
use metio.Exec.{
  Error, wrap, new_error, Outcome, ok, err, pure, raise, ◌>>=◌, when_some, Env, call, now,
}
use metio.Provisioning.Calls.{
  Call, get_provisioning, save_provisioning, create_task, Answer, Action, second,
}

-- The fields of `cloudTasksExecutor` that the operations read, and `url.QueryEscape`.
pub record Executor : Type 0 where
  pub base_url : String
  pub query_escape : String → String

abbrev pub operation_in_progress : String → Error
operation_in_progress id = new_error ("operation already in progress for server " +++ id)

abbrev pub no_operation_in_progress : String → Error
no_operation_in_progress id = new_error ("no operation in progress for server " +++ id)

unfoldable pub is_in_progress : ProvisioningState → Bool
is_in_progress in_progress = true
is_in_progress _ = false

-- `err == nil && existingStatus != nil && existingStatus.State == ProvisioningStateInProgress`
unfoldable pub blocks : Outcome Error (Option ProvisioningStatus) → Bool
unfolding is_in_progress
blocks (ok (some status)) = is_in_progress status.state
blocks (ok none) = false
blocks (err e) = false

-- The status document of an operation that starts at `time`.
unfoldable pub initial_status :
    String → ProvisioningOperation → List (String × String) → Time → ProvisioningStatus
initial_status server_id operation outputs time = record {
  id = server_id +++ "-" +++ decimal (time / second);
  operation = operation;
  state = in_progress;
  started_at = time;
  completed_at = none;
  current_step = "enqueuing";
  steps = [];
  error = "";
  outputs = outputs;
}

-- `taskURL`
unfoldable pub task_url : Executor → String → String → String
task_url e server_id operation_id =
    e.base_url +++ "/tasks/provision/" +++ server_id +++ "?opId=" +++ e.query_escape operation_id

module _ (env : Env Call Answer) (e : Executor) (server_id : String) where
  unfoldable pub start_operation :
      ProvisioningOperation → List (String × String) → Action (Unit {0})
  unfolding blocks initial_status task_url
  start_operation operation outputs = do
    existing ← call env (get_provisioning server_id)
    if blocks existing then raise (operation_in_progress server_id) else do
      time ← now
      let status = initial_status server_id operation outputs time
      r ← call env (save_provisioning server_id status)
      when_some r (λ f. raise (wrap "failed to save provisioning status: " f))
          (do
            q ← call env (create_task (task_url e server_id status.id))
            when_some q (λ f. raise (wrap "failed to create cloud task: " f)) (pure tt))

  -- `CancelOperation`, from the loaded status on.
  unfoldable pub cancel_loaded : Option ProvisioningStatus → Action (Unit {0})
  unfolding is_in_progress
  cancel_loaded none = raise (no_operation_in_progress server_id)
  cancel_loaded (some status) =
      if not (is_in_progress status.state) then raise (no_operation_in_progress server_id) else do
        r ← call env (
            save_provisioning server_id
              (record status { state = failed; error = "cancelled by user" }))
        when_some r (λ f. raise (wrap "failed to cancel operation: " f)) (pure tt)

  -- `CancelOperation`, from the answer to the read on.
  unfoldable pub cancel_read : Outcome Error (Option ProvisioningStatus) → Action (Unit {0})
  unfolding cancel_loaded
  cancel_read (err f) = raise (no_operation_in_progress server_id)
  cancel_read (ok status) = cancel_loaded status

  unfoldable pub cancel_operation : Action (Unit {0})
  unfolding cancel_read
  cancel_operation = call env (get_provisioning server_id) >>= cancel_read
