-- ===== src/Provisioning/Coordinator.antt =====
-- internal/services/update_operations.go: stopping and starting the instance, the commands that the
-- machine agent picks up from the status document, and the two polling loops.
use metio.Base.{
  ltb, if◌then◌else◌, ◌+++◌, ℕ, zero, suc, ◌+◌, ◌*◌, ◌/◌, String, Bool, false, Option, none, some,
  [], ◌∷◌, ◌==◌, not,
}
use metio.Types.{is_running, Status}
use metio.Exec.{
  Error, wrap, new_error, Outcome, ok, err, pure, ◌>>=◌, Env, call, sleep, now, when_some, ◌>>◌,
}
use metio.Provisioning.Calls.{
  Call, stop_instance, start_instance, get_status, update_status, context_done, Answer, StdText,
  Action, second,
}

-- `if err != nil { return fmt.Errorf("<prefix>%w", err) }; return nil`
abbrev pub wrap_error : String → Option Error → Option Error
wrap_error prefix none = none
wrap_error prefix (some e) = some (wrap prefix e)

abbrev pub ack_poll_interval : ℕ
ack_poll_interval = 2 * second

abbrev pub health_poll_interval : ℕ
health_poll_interval = 5 * second

-- The save command in the status document.
unfoldable pub with_save_command : Status → Status
with_save_command status = record status { pending_command = "save"; pending_command_result = "" }

-- The restore command in the status document.
unfoldable pub with_restore_command : String → String → String → Status → Status
with_restore_command snapshot_id repository password status = record status {
  pending_command = "restore";
  pending_command_args =
      ("snapshotId", snapshot_id) ∷ ("repository", repository) ∷ ("password", password) ∷ [];
  pending_command_result = "";
}

-- What one poll of the status document decides: `none` to go on waiting.
unfoldable pub ack_of : Outcome Error Status → Option (String × Option Error)
ack_of (err e) =
    if e.is_not_found
    then some ("", none)
    else some ("", some (wrap "failed to poll status for ack: " e))
ack_of (ok status) =
    if status.pending_command_result == ""
    then none
    else if status.pending_command_result == "completed"
    then some ("completed", none)
    else some (
      status.pending_command_result,
      some (new_error ("command result: " +++ status.pending_command_result)),
    )

-- One poll finds the server healthy.
unfoldable pub healthy : Outcome Error Status → Bool
unfolding is_running
healthy (err e) = false
healthy (ok status) = is_running status.server_state

module _ (env : Env Call Answer) (std : StdText) where
  unfoldable pub stop_server_instance : String → String → String → Action (Option Error)
  stop_server_instance project zone instance_name = do
    r ← call env (stop_instance project zone instance_name)
    pure (wrap_error "failed to stop instance: " r)

  unfoldable pub start_server_instance : String → String → String → Action (Option Error)
  start_server_instance project zone instance_name = do
    r ← call env (start_instance project zone instance_name)
    pure (wrap_error "failed to start instance: " r)

  -- `UpdateStatus` of the fetched document, changed by `f`.
  unfoldable pub write_command :
      String → String → (Status → Status) → Status → Action (Option Error)
  write_command prefix name f status = do
    r ← call env (update_status name (f status))
    pure (wrap_error prefix r)

  unfoldable pub trigger_world_save : String → Action (Option Error)
  unfolding write_command
  trigger_world_save name = call env (get_status name) >>= elim [
    | err e ↦
        pure (
          if e.is_not_found then none else some (wrap "failed to get server status for backup: " e))
    | ok status ↦ write_command "failed to write backup command: " name with_save_command status
  ]

  unfoldable pub trigger_restore : String → String → String → String → Action (Option Error)
  unfolding write_command
  trigger_restore name snapshot_id repository password = call env (get_status name) >>= elim [
    | err e ↦ pure (
        some (
          if e.is_not_found
          then new_error
              ("no status document for instance " +++ name +++ " — cannot trigger restore")
          else wrap "failed to get server status for restore: " e))
    | ok status ↦
        write_command "failed to write restore command: " name
          (with_restore_command snapshot_id repository password) status
  ]

  abbrev pub ack_timeout : ℕ → String × Option Error
  ack_timeout timeout =
      ("", some (new_error ("timeout waiting for command ack after " +++ std.duration timeout)))

  -- The loop of `WaitForCommandAck`, with the rounds that are left. Where none is left the loop ends
  -- as by its own test.
  unfoldable pub wait_ack_loop : String → ℕ → ℕ → ℕ → Action (String × Option Error)
  wait_ack_loop name timeout deadline zero = pure (ack_timeout timeout)
  wait_ack_loop name timeout deadline (suc rounds) = do
    time ← now
    if not (ltb time deadline) then pure (ack_timeout timeout) else do
      done ← call env context_done
      when_some done (λ e. pure ("", some e))
          (do
            polled ← call env (get_status name)
            when_some (ack_of polled) pure
                (do sleep env ack_poll_interval; wait_ack_loop name timeout deadline rounds))

  unfoldable pub wait_for_command_ack : String → ℕ → Action (String × Option Error)
  unfolding wait_ack_loop
  wait_for_command_ack name timeout = do
    start ← now
    wait_ack_loop name timeout (start + timeout) (timeout / ack_poll_interval + 1)

  abbrev pub health_timeout : String → ℕ → Option Error
  health_timeout name timeout = some (
      new_error (
        "timeout waiting for server "
        +++ name
        +++ " to become healthy after "
        +++ std.duration timeout))

  -- The loop of `WaitForServerHealthy`, with the rounds that are left.
  unfoldable pub wait_healthy_loop : String → ℕ → ℕ → ℕ → Action (Option Error)
  wait_healthy_loop name timeout deadline zero = pure (health_timeout name timeout)
  wait_healthy_loop name timeout deadline (suc rounds) = do
    time ← now
    if not (ltb time deadline) then pure (health_timeout name timeout) else do
      done ← call env context_done
      when_some done (λ e. pure (some e))
          (do
            polled ← call env (get_status name)
            if healthy polled then pure none else do
              sleep env health_poll_interval
              wait_healthy_loop name timeout deadline rounds)

  unfoldable pub wait_for_server_healthy : String → ℕ → Action (Option Error)
  unfolding wait_healthy_loop
  wait_for_server_healthy name timeout = do
    start ← now
    wait_healthy_loop name timeout (start + timeout) (timeout / health_poll_interval + 1)
