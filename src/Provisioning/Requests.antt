-- ===== src/Provisioning/Requests.antt =====
-- The entry points of the provisioning service, with the Cloud Tasks executor: `CreateServer` to
-- `RestoreServer`, `CancelOperation` and `GetProvisioningStatus` of
-- internal/services/provisioning.go. The program config of a request is not stored with the
-- operation: the task rebuilds it.
use metio.Base.{
  if◌then◌else◌, ℕ, String, ◌≡◌, Option, List, [], ◌∷◌, ◌++◌, ◌==◌, refl, sym, Bool, true, false,
  eq_iff,
}
use metio.Types.{
  Backup, ServerConfig, create, update, destroy, restore, ProvisioningStatus, map_get,
}
use metio.Exec.{lift, ◌>>=◌, Env, call}
use metio.Programs.{ProgramConfig, ControllerConfig, build_program_config, build_task_config}
use metio.Provisioning.Calls.{Call, get_provisioning, Answer, Action}
use metio.Provisioning.Executor.{Executor, start_operation, cancel_operation}
use metio.Provisioning.Deploy.{apply_restore_to_config, fill_empty}

-- `if v != "" { outputs[key] = v }`
unfoldable pub seed : String → String → List (String × String) → List (String × String)
seed key v outputs = if v == "" then outputs else outputs ++ ((key, v) ∷ [])

-- `initialOutputs` of `CreateServerFromBackup`, and of `RestoreServer`.
unfoldable pub create_outputs : ProgramConfig → List (String × String)
create_outputs config =
    seed "restoreSourcePrefix" config.restore_source_prefix
      (seed "restoreSnapshotId" config.restore_snapshot_id [])

unfoldable pub restore_outputs : Backup → String → List (String × String)
restore_outputs backup warning = seed "versionMismatchWarning" warning (
    ("backupId", backup.id)
    ∷ ("snapshotId", backup.snapshot_id)
    ∷ ("repositoryPrefix", backup.repository_prefix)
    ∷ [])

module _ (env : Env Call Answer) (e : Executor) (server_id : String) where
  unfoldable pub request_create : ProgramConfig → Action (Unit {0})
  request_create config = start_operation env e server_id create []

  unfoldable pub request_create_from_backup : ProgramConfig → Action (Unit {0})
  request_create_from_backup config = start_operation env e server_id create (create_outputs config)

  unfoldable pub request_update : ProgramConfig → ℕ → Action (Unit {0})
  request_update config update_type = start_operation env e server_id update []

  unfoldable pub request_destroy : Action (Unit {0})
  request_destroy = start_operation env e server_id destroy []

  unfoldable pub request_restore : Backup → String → Action (Unit {0})
  request_restore backup warning =
      start_operation env e server_id restore (restore_outputs backup warning)

  unfoldable pub service_cancel_operation : Action (Unit {0})
  service_cancel_operation = cancel_operation env e server_id

  unfoldable pub service_provisioning_status : Action (Option ProvisioningStatus)
  service_provisioning_status = call env (get_provisioning server_id) >>= λ r. lift r

module _ (snapshot prefix : String) where
  abbrev seeded : Bool → Bool → List (String × String)
  seeded b c =
      let first = if b then [] else [] ++ (("restoreSnapshotId", snapshot) ∷ []) in
      if c then first else first ++ (("restoreSourcePrefix", prefix) ∷ [])

  seeded_snapshot :
      (b c : Bool) → (snapshot == "") ≡ b → map_get "restoreSnapshotId" (seeded b c) ≡ snapshot
  unfolding map_get
  seeded_snapshot true true e = sym ((eq_iff snapshot "").0 e)
  seeded_snapshot true false e = sym ((eq_iff snapshot "").0 e)
  seeded_snapshot false true e = refl
  seeded_snapshot false false e = refl

  seeded_prefix :
      (b c : Bool) → (prefix == "") ≡ c → map_get "restoreSourcePrefix" (seeded b c) ≡ prefix
  unfolding map_get
  seeded_prefix true true e = sym ((eq_iff prefix "").0 e)
  seeded_prefix false true e = sym ((eq_iff prefix "").0 e)
  seeded_prefix true false e = refl
  seeded_prefix false false e = refl

-- The restore of a new server survives the queue: the task rebuilds the program config from the
-- stored server config, without the snapshot, and `applyRestoreToConfig` with the outputs that
-- `CreateServerFromBackup` has stored in the status gives back the snapshot and the prefix, so that
-- the creation runs with the config that the request started it with.
pub create_outputs-applied :
    (sc : ServerConfig) (cfg : ControllerConfig) (token snapshot prefix : String)
    → apply_restore_to_config (build_task_config sc cfg token) (
        create_outputs (record (build_program_config sc.id sc cfg token) {
          restore_snapshot_id = snapshot;
          restore_source_prefix = prefix;
        }))
      ≡ record (build_program_config sc.id sc cfg token) {
        restore_snapshot_id = snapshot;
        restore_source_prefix = prefix;
      }
unfolding create_outputs seed apply_restore_to_config fill_empty build_task_config
    build_program_config
create_outputs-applied sc cfg token snapshot prefix =
    let p = seeded_snapshot snapshot prefix (snapshot == "") (prefix == "") refl in
    let q = seeded_prefix snapshot prefix (snapshot == "") (prefix == "") refl in
    λ i. record (build_program_config sc.id sc cfg token) {
      restore_snapshot_id = p i;
      restore_source_prefix = q i;
    }
