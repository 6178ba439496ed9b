-- ===== src/Provisioning/Operations.antt =====
-- The operations of internal/services/provisioning.go, from the updates to `ExecuteOperation`.
use metio.Base.{beq, if◌then◌else◌, ◌+++◌, ℕ, ◌+◌, ◌*◌, String, Option, none, some, [], ◌∷◌, ◌==◌}
use metio.Types.{ProvisioningOperation, create, update, destroy, restore, map_get}
use metio.Programs.{ProgramConfig}
use metio.Exec.{
  Error, wrap, new_error, Outcome, ok, err, pure, raise, gets, ◌>>=◌, ◌>>◌, Env, call, now, change,
}
use metio.Provisioning.Calls.{
  Call, cancel_stack, get_provisioning, get_server_config, update_server_config,
  delete_server_config, get_config_snapshot, delete_config_snapshot, mark_backups_deleted, Answer,
  Service, StdText, Action, second, update_step, complete_step, handle_error, check_step,
  expect_step, begin_steps, finish,
}
use metio.Provisioning.Coordinator.{
  wrap_error, stop_server_instance, start_server_instance, trigger_world_save, trigger_restore,
  wait_for_command_ack,
}
use metio.Provisioning.Deploy.{
  restore_repository, apply_restore_to_config, day, source_config_of_result, destroy_with_retry,
  run_create, run_pulumi_update, await_health,
}

module _ (env : Env Call Answer) (std : StdText) (s : Service) (server_id : String) where
  -- `if err := runPulumiUpdate(…); err != nil { StartInstance(…); return err }`
  unfoldable pub after_update : ProgramConfig → Outcome Error (Unit {0}) → Action (Unit {0})
  after_update config (ok a) = pure a
  after_update config (err e) = do
    start_server_instance env std config.gcp_project config.zone config.name
    raise e

  unfoldable pub restart_on_error : ProgramConfig → Action (Unit {0})
  unfolding after_update
  restart_on_error config w =
      let (r, w') = run_pulumi_update env std s server_id config w in after_update config r w'

  -- The end of `runResizeUpdate`, once the infrastructure is updated.
  unfoldable pub start_resized : ProgramConfig → Action (Unit {0})
  start_resized config = do
    update_step env server_id "start_instance" "Starting VM instance..."
    q ← start_server_instance env std config.gcp_project config.zone config.name
    check_step env server_id "start_instance" q
    complete_step env server_id "start_instance"
    await_health env std s server_id config.name (120 * second)

  unfoldable pub run_resize_update : ProgramConfig → Action (Unit {0})
  run_resize_update config = do
    begin_steps env server_id (
        ("stop_instance", "Stopping VM instance...")
        ∷ ("upsert_stack", "Updating infrastructure...")
        ∷ ("start_instance", "Starting VM instance...")
        ∷ [])
    update_step env server_id "stop_instance" "Stopping VM instance..."
    r ← stop_server_instance env std config.gcp_project config.zone config.name
    check_step env server_id "stop_instance" r
    complete_step env server_id "stop_instance"
    restart_on_error config
    start_resized config

  -- `WaitForCommandAck` and the check of its error.
  unfoldable pub await_ack : String → String → ℕ → String → Action (Unit {0})
  await_ack step name timeout prefix = do
    ack ← wait_for_command_ack env std name timeout
    check_step env server_id step (wrap_error (prefix +++ ack.0 +++ ", ") ack.1)

  -- The world save that `runRecreateUpdate` and `runRestore` share.
  unfoldable pub save_world : String → Action (Unit {0})
  save_world name = do
    update_step env server_id "save_world" "Saving world data..."
    r ← trigger_world_save env std name
    check_step env server_id "save_world" (wrap_error "failed to trigger world save: " r)
    await_ack "save_world" name s.save_ack_timeout "world save failed: result="
    complete_step env server_id "save_world"

  unfoldable pub run_recreate_update : ProgramConfig → Action (Unit {0})
  run_recreate_update config = do
    begin_steps env server_id (
        ("save_world", "Saving world data...")
        ∷ ("upsert_stack", "Updating infrastructure...")
        ∷ [])
    save_world config.name
    run_pulumi_update env std s server_id config
    await_health env std s server_id config.name (180 * second)

  -- `runUpdate`, with the update types 1 (resize) and 2 (recreate).
  unfoldable pub run_update : ProgramConfig → ℕ → Action (Unit {0})
  run_update config update_type =
      if beq update_type 1
      then run_resize_update config
      else if beq update_type 2
      then run_recreate_update config
      else run_pulumi_update env std s server_id config

  -- The removal of the stored documents, after the stack is gone. Every failure is logged.
  unfoldable pub forget_server : Action (Unit {0})
  forget_server = do
    config ← call env (get_server_config server_id)
    deleted ← call env (delete_server_config server_id)
    elim deleted [
      | some e ↦ pure tt
      | none ↦ now >>= λ time.
          (call env (
              mark_backups_deleted server_id (source_config_of_result config) time
                (time + s.backup_retention_days * day))
            >>= λ _. pure tt)
    ]

  unfoldable pub run_destroy : Action (Unit {0})
  run_destroy = do
    call env (cancel_stack server_id)
    begin_steps env server_id (("destroy_stack", "Destroying Pulumi stack...") ∷ [])
    update_step env server_id "destroy_stack" "Destroying Pulumi stack..."
    r ← destroy_with_retry env std s server_id
    expect_step env server_id "destroy_stack" r
    complete_step env server_id "destroy_stack"
    finish env server_id
    forget_server

  -- `runRestore`, from the check of the snapshot id on.
  unfoldable pub restore_snapshot : String → String → Action (Unit {0})
  restore_snapshot name snapshot_id = do
    prefix ← gets (λ w. map_get "repositoryPrefix" w.object.outputs)
    repository ← expect_step env server_id "save_world" (restore_repository s prefix)
    save_world name
    update_step env server_id "restore_world"
        ("Restoring snapshot " +++ snapshot_id +++ " on machine agent...")
    r ← trigger_restore env std name snapshot_id repository s.backup_restic_password
    check_step env server_id "restore_world" (wrap_error "failed to trigger restore: " r)
    await_ack "restore_world" name s.restore_ack_timeout "restore failed: result="
    complete_step env server_id "restore_world"
    await_health env std s server_id name (180 * second)
    finish env server_id

  unfoldable pub wrap_outcome : {A : Type 0} → String → Outcome Error A → Outcome Error A
  wrap_outcome prefix (ok a) = ok a
  wrap_outcome prefix (err e) = err (wrap prefix e)

  unfoldable pub run_restore : Action (Unit {0})
  run_restore = do
    begin_steps env server_id (
        ("save_world", "Saving world data...")
        ∷ ("restore_world", "Restoring backup...")
        ∷ ("health_check", "Waiting for server to become healthy...")
        ∷ [])
    r ← call env (get_server_config server_id)
    config ←
        expect_step env server_id "save_world" (wrap_outcome "failed to load server config: " r)
    snapshot_id ← gets (λ w. map_get "snapshotId" w.object.outputs)
    (if snapshot_id == ""
        then handle_error env server_id "save_world"
            (new_error "missing snapshot id in operation outputs")
        else restore_snapshot config.name snapshot_id)

  -- The `switch` of `ExecuteOperation`, on the status that it has loaded.
  unfoldable pub run_operation : ProvisioningOperation → ProgramConfig → ℕ → Action (Unit {0})
  run_operation create config update_type = do
    outputs ← gets (λ w. w.object.outputs)
    run_create env std s server_id (apply_restore_to_config config outputs)
  run_operation update config update_type = run_update config update_type
  run_operation destroy config update_type = run_destroy
  run_operation restore config update_type = run_restore

  -- `ExecuteOperation`; the loaded status becomes the object that the operation works on.
  unfoldable pub execute_operation : ProgramConfig → ℕ → Action (Unit {0})
  execute_operation config update_type = call env (get_provisioning server_id) >>= elim [
    | err e ↦ raise (wrap "failed to get provisioning status: " e)
    | ok none ↦ raise (new_error ("no provisioning status found for server " +++ server_id))
    | ok (some status) ↦
        change (λ _. status) >>= λ _. run_operation status.operation config update_type
  ]

  -- `RevertServerConfig`
  unfoldable pub revert_server_config : Action (Option Error)
  revert_server_config = call env (get_config_snapshot server_id) >>= elim [
    | err e ↦ pure (some (wrap "failed to get config snapshot: " e))
    | ok snapshot ↦ call env (update_server_config server_id snapshot) >>= elim [
      | some e ↦ pure (some (wrap "failed to revert server config: " e))
      | none ↦ call env (delete_config_snapshot server_id) >>= λ _. pure none
    ]
  ]
