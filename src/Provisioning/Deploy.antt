-- ===== src/Provisioning/Deploy.antt =====
-- The Pulumi runs of internal/services/provisioning.go: `runCreate`, `runPulumiUpdate` and what they
-- are made of.
use metio.Base.{
  beq, if◌then◌else◌, ◌+++◌, ℕ, ◌*◌, code, String, not, Option, none, some, List, [], ◌∷◌, ◌==◌,
}
use metio.Types.{BackupSourceConfig, ServerConfig, current_infra_version, map_get}
use metio.Programs.{ProgramConfig}
use metio.Exec.{Error, wrap, new_error, Outcome, ok, err, pure, ◌>>=◌, ◌>>◌, Env, call, change}
use metio.Provisioning.Calls.{
  Call, cancel_stack, refresh_stack, destroy_stack, up_stack, upsert_stack, set_config, project_id,
  get_server_config, update_server_config, Answer, Service, StdText, Action, second, update_step,
  complete_step, check_step, expect_step, begin_steps, finish,
}
use metio.Provisioning.Retry.{execute_with_retry}
use metio.Provisioning.Coordinator.{wrap_error, wait_for_server_healthy}

-- The outputs of the stack that are texts.
unfoldable pub text_outputs : List (String × Option String) → List (String × String)
text_outputs [] = []
text_outputs ((k, none) ∷ rest) = text_outputs rest
text_outputs ((k, some v) ∷ rest) = (k, v) ∷ text_outputs rest

-- `strings.TrimSuffix(s, "/")`
unfoldable pub trim_slash : String → String
trim_slash String.[] = ""
trim_slash (String.◌∷◌ c String.[]) = if beq (code c) b'/' then "" else String.◌∷◌ c String.[]
trim_slash (String.◌∷◌ c (String.◌∷◌ d s)) = String.◌∷◌ c (trim_slash (String.◌∷◌ d s))

-- `restoreRepository`
unfoldable pub restore_repository : Service → String → Outcome Error String
restore_repository s prefix =
    if prefix == ""
    then err (new_error "missing repository prefix in operation outputs")
    else if s.backup_bucket == ""
    then err (new_error "backup bucket is not configured")
    else ok ("gs:" +++ s.backup_bucket +++ ":/" +++ trim_slash prefix)

-- `config.X = outputs["…"]`, if the field is empty.
unfoldable pub fill_empty : String → String → String
fill_empty field value = if field == "" then value else field

-- `applyRestoreToConfig`, of a config that is not nil.
unfoldable pub apply_restore_to_config : ProgramConfig → List (String × String) → ProgramConfig
unfolding fill_empty
apply_restore_to_config config outputs = record config {
  restore_snapshot_id = fill_empty config.restore_snapshot_id (map_get "restoreSnapshotId" outputs);
  restore_source_prefix =
      fill_empty config.restore_source_prefix (map_get "restoreSourcePrefix" outputs);
}

abbrev pub day : ℕ
day = 24 * 3600 * second

-- The source config that `runDestroy` stamps on the backups.
unfoldable pub source_config_of : ServerConfig → BackupSourceConfig
source_config_of c = record {
  region = c.region;
  zone = c.zone;
  machine_type = c.machine_type;
  disk_size_gb = c.disk_size_gb;
  minecraft_version = c.minecraft_version;
  modpack = c.modpack;
}

unfoldable pub source_config_of_result : Outcome Error ServerConfig → Option BackupSourceConfig
unfolding source_config_of
source_config_of_result (ok c) = some (source_config_of c)
source_config_of_result (err e) = none

module _ (env : Env Call Answer) (std : StdText) (s : Service) (server_id : String) where
  -- `stampServerConfig`
  unfoldable pub stamp_server_config : Action (Option Error)
  stamp_server_config = call env (get_server_config server_id) >>= elim [
    | err e ↦ pure (some (wrap "failed to get server config: " e))
    | ok config ↦
        call env (
          update_server_config server_id (record config {
            infra_version = current_infra_version;
            deployed_by_controller_version = s.controller_version;
          }))
        >>= λ r. pure (wrap_error "failed to update server config: " r)
  ]

  -- `executeUpWithRetry` of `UpStack`.
  unfoldable pub up_with_retry : Action (Outcome Error (List (String × Option String)))
  up_with_retry = execute_with_retry env std s.retry_attempts (call env (up_stack server_id))

  abbrev pub as_outcome : Option Error → Outcome Error (Unit {0})
  as_outcome none = ok tt
  as_outcome (some e) = err e

  -- `executeWithRetry` of `DestroyStack`.
  unfoldable pub destroy_with_retry : Action (Outcome Error (Unit {0}))
  destroy_with_retry =
      execute_with_retry env std s.retry_attempts
        (call env (destroy_stack server_id) >>= λ r. pure (as_outcome r))

  -- `UpsertStack` and `SetConfig`, and the end of their step.
  unfoldable pub prepare_stack : ProgramConfig → Action (Unit {0})
  prepare_stack config = do
    r ← call env (upsert_stack server_id config)
    check_step env server_id "upsert_stack" r
    project ← call env project_id
    q ← call env (set_config server_id "gcp:project" project)
    check_step env server_id "upsert_stack" q
    complete_step env server_id "upsert_stack"

  -- `UpStack`, the stamp on the server config and the outputs, all under one step's name.
  unfoldable pub deploy_stack : String → Action (Unit {0})
  deploy_stack step = do
    r ← up_with_retry
    result ← expect_step env server_id step r
    complete_step env server_id step
    q ← stamp_server_config
    check_step env server_id step q
    change (λ status. record status { outputs = text_outputs result })
    finish env server_id

  unfoldable pub run_create : ProgramConfig → Action (Unit {0})
  run_create config = do
    call env (cancel_stack server_id)
    begin_steps env server_id (
        ("upsert_stack", "Preparing Pulumi stack...")
        ∷ ("deploy_infrastructure", "Deploying infrastructure with Pulumi...")
        ∷ [])
    prepare_stack (record config { import_existing_address = not (config.existing_address == "") })
    update_step env server_id "deploy_infrastructure" "Deploying infrastructure with Pulumi..."
    deploy_stack "deploy_infrastructure"

  unfoldable pub run_pulumi_update : ProgramConfig → Action (Unit {0})
  run_pulumi_update config = do
    call env (cancel_stack server_id)
    prepare_stack config
    update_step env server_id "refresh_stack" "Refreshing stack state..."
    call env (refresh_stack server_id)
    complete_step env server_id "refresh_stack"
    update_step env server_id "update_infrastructure" "Updating infrastructure..."
    deploy_stack "update_infrastructure"

  -- The wait after a change; a server that stays unhealthy is logged.
  unfoldable pub await_health : String → ℕ → Action (Unit {0})
  await_health name timeout = do
    update_step env server_id "health_check" "Waiting for server to become healthy..."
    wait_for_server_healthy env std name timeout
    complete_step env server_id "health_check"
