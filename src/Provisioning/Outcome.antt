-- ===== src/Provisioning/Outcome.antt =====
-- How the operations of internal/services/provisioning.go end, one operation after the other.
use metio.Provisioning.Deploy.{
  restore_repository, stamp_server_config, up_with_retry, destroy_with_retry, prepare_stack,
  deploy_stack, run_create, run_pulumi_update, await_health,
}
use metio.Provisioning.Operations.{
  after_update, restart_on_error, start_resized, run_resize_update, await_ack, save_world,
  run_recreate_update, run_update, forget_server, run_destroy, restore_snapshot, run_restore,
  run_operation,
}
use metio.Base.{String, ◌≡◌, refl, true, beq, ℕ, none, some, ◌==◌}
use metio.Programs.{ProgramConfig}
use metio.Exec.{ok, err, Env, call, change, Error, Outcome, raise, ◌>>=◌, now}
use metio.Exec.Triple.{Triple-pure, AtEnd, Triple-if}
use metio.Provisioning.Calls.{
  Call, cancel_stack, refresh_stack, destroy_stack, up_stack, upsert_stack, set_config, project_id,
  get_server_config, update_server_config, Answer, Service, StdText, delete_server_config,
  mark_backups_deleted, Run,
}
use metio.Provisioning.Assertions.{
  is_silent, IsCompleted, Anything, Leads, Leads-bind, Anything-IsStable, Leads-call, IsFailed,
  IsStable, IsSaved-IsStable,
}
use metio.Provisioning.Rules.{
  update_step-Anything, complete_step-Anything, begin_steps-Anything, finish-IsCompleted,
  Leads-check_step, Leads-expect_step, Leads-execute_with_retry, update_step-IsCompleted,
  complete_step-IsCompleted, Leads-handle_error, Leads-gets, Leads-trigger_world_save,
  Leads-trigger_restore, Leads-wait_for_command_ack, Leads-wait_for_server_healthy,
  Leads-start_server_instance, Leads-stop_server_instance,
}
use metio.Types.{completed, ProvisioningOperation, create, update, destroy, restore}
use metio.Provisioning.Coordinator.{start_server_instance}

module _ (env : Env Call Answer) (std : StdText) (s : Service) (server_id : String) where
  -- A silent call with nothing assumed of the state.
  ask : (c : Call) → is_silent c ≡ true → Leads server_id Anything (call env c) Anything
  ask c h = Leads-call env Anything-IsStable c h

  prepare_stack-Anything :
      (config : ProgramConfig)
      → Leads server_id Anything (prepare_stack env std s server_id config) Anything
  unfolding prepare_stack
  prepare_stack-Anything config = Leads-bind _ _ (ask (upsert_stack server_id config) refl) λ r.
      Leads-bind _ _ (Leads-check_step env server_id "upsert_stack" r) λ _.
        Leads-bind _ _ (ask project_id refl) λ project.
          Leads-bind _ _ (ask (set_config server_id "gcp:project" project) refl) λ q.
            Leads-bind _ _ (Leads-check_step env server_id "upsert_stack" q)
              λ _. complete_step-Anything env server_id "upsert_stack"

  stamp_server_config-Anything :
      Leads server_id Anything (stamp_server_config env std s server_id) Anything
  unfolding stamp_server_config
  stamp_server_config-Anything = Leads-bind _ _ (ask (get_server_config server_id) refl) (elim [
    | err e ↦ Triple-pure _
    | ok config ↦ Leads-bind _ _ (ask (update_server_config server_id _) refl) λ r. Triple-pure _
  ])

  up_with_retry-Anything : Leads server_id Anything (up_with_retry env std s server_id) Anything
  unfolding up_with_retry
  up_with_retry-Anything =
      Leads-execute_with_retry env std Anything-IsStable s.retry_attempts
        (ask (up_stack server_id) refl)

  destroy_with_retry-Anything :
      Leads server_id Anything (destroy_with_retry env std s server_id) Anything
  unfolding destroy_with_retry
  destroy_with_retry-Anything =
      Leads-execute_with_retry env std Anything-IsStable s.retry_attempts
        (Leads-bind _ _ (ask (destroy_stack server_id) refl) λ r. Triple-pure _)

  deploy_stack-IsCompleted :
      (step : String)
      → Leads server_id Anything (deploy_stack env std s server_id step) (IsCompleted server_id)
  unfolding deploy_stack change
  deploy_stack-IsCompleted step = Leads-bind _ _ up_with_retry-Anything λ r.
      Leads-bind _ _ (Leads-expect_step env server_id step r) λ result.
        Leads-bind _ _ (complete_step-Anything env server_id step) λ _.
          Leads-bind _ _ stamp_server_config-Anything λ q.
            Leads-bind _ _ (Leads-check_step env server_id step q) λ _.
              Leads-bind {Q = Anything} _ _ (record { at = λ w p. tt })
                λ _. finish-IsCompleted env server_id

  run_create-IsCompleted :
      (config : ProgramConfig)
      → Leads server_id Anything (run_create env std s server_id config) (IsCompleted server_id)
  unfolding run_create
  run_create-IsCompleted config = Leads-bind _ _ (ask (cancel_stack server_id) refl) λ _.
      Leads-bind _ _ (begin_steps-Anything env server_id _) λ _.
        Leads-bind _ _ (prepare_stack-Anything _) λ _.
          Leads-bind _ _ (update_step-Anything env server_id _ _)
            λ _. deploy_stack-IsCompleted "deploy_infrastructure"

  run_pulumi_update-IsCompleted :
      (config : ProgramConfig)
      → Leads server_id Anything
          (run_pulumi_update env std s server_id config)
          (IsCompleted server_id)
  unfolding run_pulumi_update
  run_pulumi_update-IsCompleted config = Leads-bind _ _ (ask (cancel_stack server_id) refl) λ _.
      Leads-bind _ _ (prepare_stack-Anything config) λ _.
        Leads-bind _ _ (update_step-Anything env server_id _ _) λ _.
          Leads-bind _ _ (ask (refresh_stack server_id) refl) λ _.
            Leads-bind _ _ (complete_step-Anything env server_id _) λ _.
              Leads-bind _ _ (update_step-Anything env server_id _ _)
                λ _. deploy_stack-IsCompleted "update_infrastructure"

  kept : IsStable (IsCompleted server_id)
  kept = IsSaved-IsStable server_id completed

  await_health-IsCompleted :
      (name : String) (timeout : ℕ)
      → Leads server_id
          (IsCompleted server_id)
          (await_health env std s server_id name timeout)
          (IsCompleted server_id)
  unfolding await_health
  await_health-IsCompleted name timeout =
      Leads-bind _ _ (update_step-IsCompleted env server_id _ _) λ _.
        Leads-bind _ _ (Leads-wait_for_server_healthy env std kept name timeout)
          λ _. complete_step-IsCompleted env server_id _

  await_health-Anything :
      (name : String) (timeout : ℕ)
      → Leads server_id Anything (await_health env std s server_id name timeout) Anything
  unfolding await_health
  await_health-Anything name timeout = Leads-bind _ _ (update_step-Anything env server_id _ _) λ _.
      Leads-bind _ _ (Leads-wait_for_server_healthy env std Anything-IsStable name timeout)
        λ _. complete_step-Anything env server_id _

  -- The instance is started again without a word in the status document.
  raise_after_start :
      (project zone name : String) (e : Error) (w : Run)
      → IsFailed server_id e w
      → AtEnd
          (IsFailed server_id)
          (λ _. IsCompleted server_id)
          ((start_server_instance env std project zone name >>= λ _. raise {A = Unit {0}} e) w).0
          ((start_server_instance env std project zone name >>= λ _. raise {A = Unit {0}} e) w).1
  unfolding start_server_instance ◌>>=◌ call
  raise_after_start project zone name e w h = record {
    as_failed = record { state_is = h.as_failed.state_is; saved = h.as_failed.saved };
    message = h.message;
  }

  end_of_update :
      (config : ProgramConfig) (r : Outcome Error (Unit {0})) (w : Run)
      → AtEnd (IsFailed server_id) (λ _. IsCompleted server_id) r w
      → AtEnd
          (IsFailed server_id)
          (λ _. IsCompleted server_id)
          (after_update env std s server_id config r w).0
          (after_update env std s server_id config r w).1
  unfolding after_update
  end_of_update config (ok a) w h = h
  end_of_update config (err e) w h =
      raise_after_start config.gcp_project config.zone config.name e w h

  restart_on_error-IsCompleted :
      (config : ProgramConfig)
      → Leads server_id Anything
          (restart_on_error env std s server_id config)
          (IsCompleted server_id)
  unfolding restart_on_error
  restart_on_error-IsCompleted config = record {
    at = λ w p.
        let (r, w') = run_pulumi_update env std s server_id config w in
        end_of_update config r w' ((run_pulumi_update-IsCompleted config).at w p);
  }

  started :
      (config : ProgramConfig)
      → Leads server_id
          (IsCompleted server_id)
          (start_resized env std s server_id config)
          (IsCompleted server_id)
  unfolding start_resized
  started config = Leads-bind _ _ (update_step-IsCompleted env server_id _ _) λ _.
      Leads-bind _ _ (Leads-start_server_instance env std kept _ _ _) λ q.
        Leads-bind _ _ (Leads-check_step env server_id _ q) λ _.
          Leads-bind _ _ (complete_step-IsCompleted env server_id _)
            λ _. await_health-IsCompleted config.name _

  run_resize_update-IsCompleted :
      (config : ProgramConfig)
      → Leads server_id Anything
          (run_resize_update env std s server_id config)
          (IsCompleted server_id)
  unfolding run_resize_update
  run_resize_update-IsCompleted config = Leads-bind _ _ (begin_steps-Anything env server_id _) λ _.
      Leads-bind _ _ (update_step-Anything env server_id _ _) λ _.
        Leads-bind _ _ (Leads-stop_server_instance env std Anything-IsStable _ _ _) λ r.
          Leads-bind _ _ (Leads-check_step env server_id _ r) λ _.
            Leads-bind _ _ (complete_step-Anything env server_id _)
              λ _. Leads-bind _ _ (restart_on_error-IsCompleted config) λ _. started config

  await_ack-Anything :
      (step name : String) (timeout : ℕ) (prefix : String)
      → Leads server_id Anything (await_ack env std s server_id step name timeout prefix) Anything
  unfolding await_ack
  await_ack-Anything step name timeout prefix =
      Leads-bind _ _ (Leads-wait_for_command_ack env std Anything-IsStable name timeout)
        λ ack. Leads-check_step env server_id step _

  save_world-Anything :
      (name : String) → Leads server_id Anything (save_world env std s server_id name) Anything
  unfolding save_world
  save_world-Anything name = Leads-bind _ _ (update_step-Anything env server_id _ _) λ _.
      Leads-bind _ _ (Leads-trigger_world_save env std Anything-IsStable name) λ r.
        Leads-bind _ _ (Leads-check_step env server_id _ _) λ _.
          Leads-bind _ _ (await_ack-Anything _ name _ _) λ _. complete_step-Anything env server_id _

  run_recreate_update-IsCompleted :
      (config : ProgramConfig)
      → Leads server_id Anything
          (run_recreate_update env std s server_id config)
          (IsCompleted server_id)
  unfolding run_recreate_update
  run_recreate_update-IsCompleted config =
      Leads-bind _ _ (begin_steps-Anything env server_id _) λ _.
        Leads-bind _ _ (save_world-Anything config.name) λ _.
          Leads-bind _ _ (run_pulumi_update-IsCompleted config)
            λ _. await_health-IsCompleted config.name _

  run_update-IsCompleted :
      (config : ProgramConfig) (update_type : ℕ)
      → Leads server_id Anything
          (run_update env std s server_id config update_type)
          (IsCompleted server_id)
  unfolding run_update
  run_update-IsCompleted config update_type =
      Triple-if (beq update_type 1) _ _ (run_resize_update-IsCompleted config) (
        Triple-if (beq update_type 2) _ _ (run_recreate_update-IsCompleted config)
          (run_pulumi_update-IsCompleted config))

  forget_server-IsCompleted :
      Leads server_id
        (IsCompleted server_id)
        (forget_server env std s server_id)
        (IsCompleted server_id)
  unfolding forget_server now
  forget_server-IsCompleted =
      Leads-bind _ _ (Leads-call env kept (get_server_config server_id) refl) λ config.
        Leads-bind _ _ (Leads-call env kept (delete_server_config server_id) refl) (elim [
          | some e ↦ Triple-pure tt
          | none ↦
              Leads-bind _ _ (record { at = λ w p. p })
                λ time.
                  Leads-bind _ _ (Leads-call env kept (mark_backups_deleted server_id _ _ _) refl)
                    λ _. Triple-pure tt
        ])

  run_destroy-IsCompleted :
      Leads server_id Anything (run_destroy env std s server_id) (IsCompleted server_id)
  unfolding run_destroy
  run_destroy-IsCompleted = Leads-bind _ _ (ask (cancel_stack server_id) refl) λ _.
      Leads-bind _ _ (begin_steps-Anything env server_id _) λ _.
        Leads-bind _ _ (update_step-Anything env server_id _ _) λ _.
          Leads-bind _ _ destroy_with_retry-Anything λ r.
            Leads-bind _ _ (Leads-expect_step env server_id _ r) λ _.
              Leads-bind _ _ (complete_step-Anything env server_id _) λ _.
                Leads-bind _ _ (finish-IsCompleted env server_id) λ _. forget_server-IsCompleted

  restore_snapshot-IsCompleted :
      (name snapshot_id : String)
      → Leads server_id Anything
          (restore_snapshot env std s server_id name snapshot_id)
          (IsCompleted server_id)
  unfolding restore_snapshot
  restore_snapshot-IsCompleted name snapshot_id = Leads-gets _ _ λ prefix.
      Leads-bind _ _ (Leads-expect_step env server_id _ (restore_repository s prefix)) λ repository.
        Leads-bind _ _ (save_world-Anything name) λ _.
          Leads-bind _ _ (update_step-Anything env server_id _ _) λ _.
            Leads-bind _ _ (Leads-trigger_restore env std Anything-IsStable name _ repository _)
              λ r. Leads-bind _ _ (Leads-check_step env server_id _ _) λ _.
                Leads-bind _ _ (await_ack-Anything _ name _ _) λ _.
                  Leads-bind _ _ (complete_step-Anything env server_id _) λ _.
                    Leads-bind _ _ (await_health-Anything name _)
                      λ _. finish-IsCompleted env server_id

  run_restore-IsCompleted :
      Leads server_id Anything (run_restore env std s server_id) (IsCompleted server_id)
  unfolding run_restore
  run_restore-IsCompleted = Leads-bind _ _ (begin_steps-Anything env server_id _) λ _.
      Leads-bind _ _ (ask (get_server_config server_id) refl) λ r.
        Leads-bind _ _ (Leads-expect_step env server_id _ _) λ config. Leads-gets _ _ λ snapshot_id.
          Triple-if (snapshot_id == "") _ _ (Leads-handle_error env server_id _ _)
            (restore_snapshot-IsCompleted config.name snapshot_id)

  -- Whatever the cloud, the database, the agent and the clock do: an operation that returns nil has
  -- left the status document completed, one that returns an error has left it failed with the
  -- error's text, and that document was the last one written.
  pub run_operation_outcome :
      (operation : ProvisioningOperation) (config : ProgramConfig) (update_type : ℕ) (w : Run)
      → AtEnd
          (IsFailed server_id)
          (λ _. IsCompleted server_id)
          (run_operation env std s server_id operation config update_type w).0
          (run_operation env std s server_id operation config update_type w).1
  unfolding run_operation
  run_operation_outcome create config update_type w =
      (Leads-gets {P = Anything} _ _ λ outputs. run_create-IsCompleted _).at w tt
  run_operation_outcome update config update_type w =
      (run_update-IsCompleted config update_type).at w tt
  run_operation_outcome destroy config update_type w = run_destroy-IsCompleted.at w tt
  run_operation_outcome restore config update_type w = run_restore-IsCompleted.at w tt
