-- ===== src/Tasks.antt =====
-- The task handler: `HandleProvisioningTask` of internal/handlers/tasks/handler.go. The connection
-- to the database and the minting of an agent token are parameters.
pub mod Answers
use metio.Provisioning.Operations.{execute_operation}
use metio.Base.{if◌then◌else◌, ℕ, String, not, Option, none, some, ◌==◌}
use metio.Types.{ProvisioningStatus, ServerConfig}
use metio.Exec.{Error, Outcome, ok, err, pure, ◌>>=◌, when_some, Env, call}
use metio.Programs.{ControllerConfig, build_task_config}
use metio.Provisioning.Calls.{
  Call, get_provisioning, get_server_config, Answer, Service, StdText, Action,
}
use metio.Provisioning.Executor.{is_in_progress}

-- What the handler writes: an error with its code, or the code 200.
pub data Response : Type 0 where
  http_error : ℕ → String → Response
  http_ok : Response

-- An action whose error is a value.
unfoldable pub attempt : {A : Type 0} → Action A → Action (Outcome Error A)
attempt m w = let (r, w') = m w in (ok r, w')

unfoldable pub response_of : Outcome Error (Unit {0}) → Response
response_of (ok a) = http_ok
response_of (err e) = http_error 500 e.text

-- The check of the operation's id and state, on the status that was read: a response that ends the
-- handler, or `none` to go on.
unfoldable pub stale_response : String → Outcome Error (Option ProvisioningStatus) → Option Response
stale_response op_id (err e) = some (http_error 500 "internal error")
stale_response op_id (ok none) = some http_ok
stale_response op_id (ok (some current)) =
    if not (current.id == op_id)
    then some http_ok
    else if not (is_in_progress current.state)
    then some http_ok
    else none

module _ (env : Env Call Answer) (std : StdText) (s : Service)
    (connect : Outcome Error ControllerConfig) (mint_token : String → Outcome Error String)
    (server_id : String) where
  unfoldable pub check_operation : String → Action (Option Response)
  check_operation op_id =
      if op_id == ""
      then pure none
      else call env (get_provisioning server_id) >>= λ r. pure (stale_response op_id r)

  -- From the token on. The update type is always 0.
  unfoldable pub task_with_token :
      ControllerConfig → ServerConfig → Outcome Error String → Action Response
  task_with_token cfg config (err e) = pure (http_error 500 "internal error")
  task_with_token cfg config (ok token) =
      attempt (execute_operation env std s server_id (build_task_config config cfg token) 0)
      >>= λ r. pure (response_of r)

  -- From the read of the server config on.
  unfoldable pub run_task : ControllerConfig → Action Response
  run_task cfg = call env (get_server_config server_id) >>= elim [
    | err e ↦ pure (http_error 404 "server not found")
    | ok config ↦ task_with_token cfg config (mint_token config.name)
  ]

  -- From the connection to the database on.
  unfoldable pub task_connected : String → Outcome Error ControllerConfig → Action Response
  task_connected op_id (err e) = pure (http_error 500 "internal error")
  task_connected op_id (ok cfg) =
      check_operation op_id >>= λ ended. when_some ended pure (run_task cfg)

  unfoldable pub handle_provisioning_task : String → Action Response
  handle_provisioning_task op_id =
      if server_id == ""
      then pure (http_error 400 "server id is required")
      else task_connected op_id connect
