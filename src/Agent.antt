-- ===== src/Agent.antt =====
-- The machine agent's commands and its scheduled shutdown: cmd/machine-agent/main.go. The controller
-- API, RCON, the restore script and the metadata server answer the calls.
pub mod Commands
pub mod Warnings
pub mod Manifests
pub mod Whitelist
pub mod Restore
pub mod Restored
pub mod Round
pub mod Rounds
pub mod Syncs
pub mod Shutdown
use metio.Base.{
  leb, beq, if◌then◌else◌, ◌+++◌, ◌+◌, ◌*◌, String, Bool, false, ◌||◌, Option, none, some, [], ◌==◌,
}
use metio.Types.{Time, Status, map_get}
use metio.Exec.{
  Error, wrap, Outcome, ok, err, Exec, pure, gets, ◌>>=◌, ◌>>◌, when_some, Env, World, call, sleep,
  now, change,
}
use metio.Provisioning.Calls.{second}

pub data WarningState : Type 0 where
  warning_none warning_five_min warning_one_min : WarningState

-- `shutdownWarningState` and `lastScheduledShutdownTime`.
pub record ShutdownState : Type 0 where
  pub warning : WarningState
  pub last_time : Option Time

abbrev pub reset_state : ShutdownState
reset_state = record { warning = warning_none; last_time = none }

pub data AgentCall : Type 0 where
  -- the controller API
  read_status : AgentCall
  report_status : Status → AgentCall
  stop_own_instance : String → String → AgentCall
  -- RCON and the restore script
  say_message : String → AgentCall
  save_world_files : AgentCall
  restore_world_files : String → String → String → AgentCall
  -- the metadata server
  project_of_instance zone_of_instance : AgentCall

abbrev pub AgentAnswer : AgentCall → Type 0
AgentAnswer read_status = Outcome Error Status
AgentAnswer project_of_instance = Outcome Error String
AgentAnswer zone_of_instance = Outcome Error String
AgentAnswer _ = Option Error

abbrev pub AgentRun : Type 0
AgentRun = World AgentCall ShutdownState

abbrev pub AgentAction : Type 0 → Type 0
AgentAction A = Exec Error AgentRun A

-- The result text of a command that ended with an error that may be nil.
unfoldable pub result_text : Option Error → String
result_text none = "completed"
result_text (some e) = "failed: " +++ e.text

-- The status with the command's result, and without the command.
unfoldable pub with_result : Status → String → Status
with_result status result = record status {
  pending_command = "";
  pending_command_args = [];
  pending_command_result = result;
}

-- What one round of the shutdown check warns of: the new state, and the message.
unfoldable pub next_warning : Time → Time → WarningState → WarningState × Option String
next_warning time shutdown warning_none =
    if leb shutdown (time + 60 * second)
    then (warning_one_min, some "Server will shut down in 1 minute! Save your progress!")
    else if leb shutdown (time + 300 * second)
    then (warning_five_min, some "Server will shut down in 5 minutes!")
    else (warning_none, none)
next_warning time shutdown warning_five_min =
    if leb shutdown (time + 60 * second)
    then (warning_one_min, some "Server will shut down in 1 minute! Save your progress!")
    else (warning_five_min, none)
next_warning time shutdown warning_one_min = (warning_one_min, none)

-- The same instant.
unfoldable pub is_known : Time → Option Time → Bool
is_known shutdown none = false
is_known shutdown (some t) = beq t shutdown

module _ (env : Env AgentCall AgentAnswer) where
  unfoldable pub save_result : AgentAction String
  unfolding result_text
  save_result = call env save_world_files >>= λ r. pure (result_text r)

  -- The restore command, with its arguments.
  unfoldable pub restore_result : String → String → String → AgentAction String
  unfolding result_text
  restore_result snapshot_id repository password =
      if snapshot_id == ""
      then pure ("failed: " +++ "restore command is missing snapshotId")
      else if repository == "" || password == ""
      then pure ("failed: " +++ "restore command is missing repository or password")
      else (call env (restore_world_files snapshot_id repository password) >>= λ r.
          pure (result_text r))

  -- The `switch` on the command; the arguments of a restore are read from the map.
  unfoldable pub command_result : Status → AgentAction String
  unfolding save_result restore_result
  command_result status =
      if status.pending_command == "save"
      then save_result
      else if status.pending_command == "restore"
      then restore_result (map_get "snapshotId" status.pending_command_args)
          (map_get "repository" status.pending_command_args)
          (map_get "password" status.pending_command_args)
      else pure ("failed: " +++ ("unknown command: " +++ status.pending_command))

  unfoldable pub handle_pending_command : AgentAction (Option Error)
  unfolding command_result with_result
  handle_pending_command = call env read_status >>= elim [
    | err e ↦ pure (some (wrap "failed to get status: " e))
    | ok status ↦
        if status.pending_command == ""
        then pure none
        else command_result status >>= λ result.
            call env (report_status (with_result status result))
  ]

  -- The scheduled shutdown is taken out of the status; every failure is logged.
  unfoldable pub clear_shutdown : AgentAction (Unit {0})
  clear_shutdown = call env read_status >>= elim [
    | err e ↦ pure tt
    | ok status ↦ now >>= λ time.
        call env (report_status (record status { scheduled_shutdown = none; timestamp = time }))
        >>= λ _. pure tt
  ]

  -- From the project on.
  unfoldable pub stop_self : AgentAction (Option Error)
  stop_self = call env project_of_instance >>= elim [
    | err e ↦ pure (some (wrap "failed to get project ID: " e))
    | ok project ↦ call env zone_of_instance >>= elim [
      | err e ↦ pure (some (wrap "failed to get zone: " e))
      | ok zone ↦
          call env (stop_own_instance project zone)
          >>= elim [ some e ↦ pure (some (wrap "failed to stop instance: " e)) | none ↦ pure none ]
    ]
  ]

  unfoldable pub initiate_scheduled_shutdown : AgentAction (Option Error)
  unfolding clear_shutdown stop_self
  initiate_scheduled_shutdown = do
    call env (say_message "Server is shutting down NOW!")
    call env save_world_files
    clear_shutdown
    change (λ _. reset_state)
    sleep env (5 * second)
    stop_self

  -- From the comparison of the time with the clock on.
  unfoldable pub check_deadline : Time → AgentAction (Option Error)
  unfolding initiate_scheduled_shutdown next_warning
  check_deadline shutdown = do
    time ← now
    if leb shutdown time then initiate_scheduled_shutdown else do
      state ← gets (λ w. w.object)
      let (warning, message) = next_warning time shutdown state.warning
      when_some message
          (λ text. call env (say_message text) >>= λ _.
            change (λ x. record x { warning = warning }) >>= λ _. pure none)
          (pure none)

  unfoldable pub check_scheduled_shutdown : AgentAction (Option Error)
  unfolding check_deadline is_known
  check_scheduled_shutdown = call env read_status >>= elim [
    | err e ↦ pure (some (wrap "failed to get status: " e))
    | ok status ↦ elim status.scheduled_shutdown [
      | none ↦ change (λ x. elim x.last_time [ none ↦ x | some t ↦ reset_state ]) >>= λ _. pure none
      | some shutdown ↦
          change (λ x.
            if is_known shutdown x.last_time
            then x
            else record { warning = warning_none; last_time = some shutdown })
          >>= λ _. check_deadline shutdown
    ]
  ]
