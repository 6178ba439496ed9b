-- ===== src/Provisioning/Calls.antt =====
-- What the provisioning service calls: the workspace manager (internal/pulumi/workspace.go, over
-- Pulumi), the Compute API and the document database (`db.DB`).
use metio.Base.{if◌then◌else◌, ℕ, String, Option, none, some, List, [], ◌∷◌, map, ◌==◌}
use metio.Types.{
  Time, Status, BackupSourceConfig, ServerConfig, ProvisioningState, pending, in_progress,
  completed, failed, ProvisioningStep, ProvisioningStatus,
}
use metio.Programs.{ProgramConfig}
use metio.Exec.{
  Error, Outcome, ok, err, Exec, pure, raise, gets, Env, World, call, now, change, ◌>>=◌, ◌>>◌,
}

pub data Call : Type 0 where
  -- the workspace manager, by server
  cancel_stack refresh_stack destroy_stack up_stack : String → Call
  upsert_stack : String → ProgramConfig → Call
  set_config : String → String → String → Call
  project_id : Call
  -- the Compute API: project, zone, instance
  stop_instance start_instance : String → String → String → Call
  -- `db.DB`
  get_status : String → Call
  update_status : String → Status → Call
  get_provisioning : String → Call
  save_provisioning : String → ProvisioningStatus → Call
  get_server_config : String → Call
  update_server_config : String → ServerConfig → Call
  delete_server_config : String → Call
  get_config_snapshot : String → Call
  delete_config_snapshot : String → Call
  mark_backups_deleted : String → Option BackupSourceConfig → Time → Time → Call
  -- `select` on `ctx.Done()`, without waiting and against `time.After(retryDelay)`
  context_done context_done_or_delay : Call
  -- `client.CreateTask` of the Cloud Tasks queue, by URL
  create_task : String → Call

-- An `error` that may be nil.
abbrev pub Answer : Call → Type 0
Answer (up_stack _) = Outcome Error (List (String × Option String))
Answer project_id = String
Answer (get_status _) = Outcome Error Status
Answer (get_provisioning _) = Outcome Error (Option ProvisioningStatus)
Answer (get_server_config _) = Outcome Error ServerConfig
Answer (get_config_snapshot _) = Outcome Error ServerConfig
Answer _ = Option Error

-- The fields of `ProvisioningService` that are no interfaces.
pub record Service : Type 0 where
  pub controller_version : String
  pub retry_attempts : ℕ
  pub backup_retention_days : ℕ
  pub restore_ack_timeout : ℕ
  pub save_ack_timeout : ℕ
  pub backup_bucket : String
  pub backup_restic_password : String

-- Texts that the standard library makes: `strings.ToLower`, and a duration under `%v`.
pub record StdText : Type 0 where
  pub to_lower : String → String
  pub duration : ℕ → String

abbrev pub Run : Type 0
Run = World Call ProvisioningStatus

abbrev pub Action : Type 0 → Type 0
Action A = Exec Error Run A

abbrev pub second : ℕ
second = 1000000000

-- The step list with the first step of the given name changed: the loops with `break` of
-- `updateStep`, `completeStep` and `handleError`.
unfoldable pub mark_step :
    String → ProvisioningState → String → Time → List ProvisioningStep → List ProvisioningStep
mark_step name state message time [] = []
mark_step name state message time (step ∷ steps) =
    if step.name == name
    then record step { status = state; message = message; timestamp = time } ∷ steps
    else step ∷ mark_step name state message time steps

module _ (env : Env Call Answer) (server_id : String) where
  -- `updateStatus`: a failure to write is logged.
  unfoldable pub write_status : Action (Unit {0})
  write_status = do
    status ← gets (λ w. w.object)
    call env (save_provisioning server_id status)
    pure tt

  unfoldable pub update_step : String → String → Action (Unit {0})
  unfolding write_status
  update_step name message = do
    time ← now
    change (λ s. record s {
      steps = mark_step name in_progress message time s.steps;
      current_step = name;
    })
    write_status

  unfoldable pub complete_step : String → Action (Unit {0})
  unfolding write_status
  complete_step name = do
    time ← now
    change (λ s. record s {
      steps = mark_step name completed "Completed" time s.steps;
      current_step = name;
    })
    write_status

  -- `handleError`, and the `return` of its error.
  unfoldable pub handle_error : {A : Type 0} → String → Error → Action A
  unfolding write_status
  handle_error name e = do
    time ← now
    change (λ s. record s {
      steps = mark_step name failed e.text time s.steps;
      error = e.text;
      state = failed;
      current_step = name;
    })
    write_status
    raise e

  -- `if err != nil { return s.handleError(..., name, err) }`
  unfoldable pub check_step : String → Option Error → Action (Unit {0})
  check_step name none = pure tt
  check_step name (some e) = handle_error name e

  unfoldable pub expect_step : {A : Type 0} → String → Outcome Error A → Action A
  expect_step name (ok a) = pure a
  expect_step name (err e) = handle_error name e

  -- `status.Steps = []db.ProvisioningStep{…}` and the write after it.
  unfoldable pub begin_steps : List (String × String) → Action (Unit {0})
  unfolding write_status
  begin_steps steps = do
    time ← now
    change (λ s. record s {
      steps =
          map (λ p. record { name = p.0; status = pending; message = p.1; timestamp = time }) steps;
    })
    write_status

  -- `status.State = db.ProvisioningStateCompleted` and the write after it.
  unfoldable pub finish : Action (Unit {0})
  unfolding write_status
  finish = do change (λ s. record s { state = completed }); write_status
