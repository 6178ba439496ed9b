-- ===== src/Tests/Sweeps.antt =====
-- Examples of the sweep: one server past its retention, one within it.
use metio.Base.{All, refl, none, some, List, [], ◌∷◌}
use metio.Base.Int.{pos}
use metio.Types.{Backup}
use metio.Exec.{ok, Env}
use metio.Cleanup.{
  note_retention, deletion_stamp, note_stamp, scan_backups, CleanupResult, SweepCall, list_backups,
  delete_prefix, delete_server_backups, SweepAnswer, run_sweep,
}
use metio.Cleanup.Expiry.{find_server}
use metio.Cleanup.Safety.{Spares, IsExpired, run_sweep-safe}

abbrev old_backup : Backup
old_backup = record {
  id = "s1:a";
  server_id = "s1";
  server_name = "survival";
  snapshot_id = "a";
  repository_prefix = "servers/s1/restic";
  created_at = 0;
  duration_seconds = pos 1;
  file_count = pos 1;
  repository_size = pos 1;
  minecraft_version = "1.21.4";
  status = "COMPLETED";
  server_deleted_at = some 10;
  retention_until = some 20;
  source_config = none;
}

abbrev kept_backup : Backup
kept_backup = record old_backup { id = "s2:b"; server_id = "s2"; retention_until = some 900 }

abbrev catalog : List Backup
catalog = old_backup ∷ kept_backup ∷ []

abbrev sweep_answers : List SweepCall → (c : SweepCall) → SweepAnswer c
sweep_answers calls list_backups = ok catalog
sweep_answers calls (delete_prefix prefix) = ok 3
sweep_answers calls (delete_server_backups id) = none

abbrev sweep_env : Env SweepCall SweepAnswer
sweep_env = record { answer = sweep_answers; latency = λ calls. 1 }

abbrev empty_result : CleanupResult
empty_result = record {
  servers_scanned = 0;
  servers_cleaned = 0;
  servers_failed = 0;
  objects_deleted = 0;
}

run_sweep-safe_example :
    All
      (Spares (IsExpired 100 catalog))
      (run_sweep sweep_env
        (λ servers. servers)
        (record { history = []; clock = 99; object = empty_result })).1.history
unfolding scan_backups find_server note_stamp note_retention deletion_stamp
run_sweep-safe_example =
    run_sweep-safe sweep_env (λ servers. servers) 99 empty_result catalog refl (refl, (refl, tt))
