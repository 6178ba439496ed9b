-- ===== src/Cleanup.antt =====
-- The sweep of expired backups: internal/services/backup_cleanup.go.
--
-- The order in which Go visits the entries of a map is a parameter; the storage bucket and the
-- database are actions that are parameters too.
pub mod Expiry
pub mod Safety
use metio.Base.{
  ltb, if◌then◌else◌, length, ◌+++◌, ℕ, ◌+◌, String, Bool, false, not, Option, none, some, List, [],
  ◌∷◌, ◌==◌,
}
use metio.Types.{Time, Backup}
use metio.Exec.{
  Error, wrap, Outcome, ok, err, Exec, pure, raise, gets, ◌>>=◌, Env, World, call, now, change,
  ◌>>◌,
}

-- `servers[backup.ServerID]`, created if it is missing; `late` is whether the retention ends after
-- now. An entry holds `allExpired`.
unfoldable pub note_retention : String → Bool → List (String × Bool) → List (String × Bool)
note_retention id late [] = (id, not late) ∷ []
note_retention id late ((j, expired) ∷ m) =
    let rest = note_retention id late m in
    if j == id then (j, if late then false else expired) ∷ m else (j, expired) ∷ rest

-- The stamps of a backup of a deleted server: its server and the end of its retention.
unfoldable pub deletion_stamp : Backup → Option (String × Time)
deletion_stamp backup = if backup.server_id == "" then none else elim backup.server_deleted_at [
  | none ↦ none
  | some deleted ↦ elim backup.retention_until [
    | none ↦ none
    | some until ↦ some (backup.server_id, until)
  ]
]

-- One round of the first loop.
unfoldable pub note_stamp :
    Time → Option (String × Time) → List (String × Bool) → List (String × Bool)
unfolding note_retention
note_stamp time none servers = servers
note_stamp time (some (id, until)) servers = note_retention id (ltb time until) servers

-- The first loop of `RunSweep`.
unfoldable pub scan_backups : Time → List Backup → List (String × Bool) → List (String × Bool)
unfolding note_stamp deletion_stamp
scan_backups time [] servers = servers
scan_backups time (backup ∷ backups) servers =
    scan_backups time backups (note_stamp time (deletion_stamp backup) servers)

-- `CleanupResult`
pub record CleanupResult : Type 0 where
  pub servers_scanned : ℕ
  pub servers_cleaned : ℕ
  pub servers_failed : ℕ
  pub objects_deleted : ℕ

-- What the sweep calls.
pub data SweepCall : Type 0 where
  list_backups : SweepCall
  delete_prefix : String → SweepCall
  delete_server_backups : String → SweepCall

abbrev pub SweepAnswer : SweepCall → Type 0
SweepAnswer list_backups = Outcome Error (List Backup)
SweepAnswer (delete_prefix prefix) = Outcome Error ℕ
SweepAnswer (delete_server_backups id) = Option Error

abbrev pub Sweep : Type 0 → Type 0
Sweep A = Exec Error (World SweepCall CleanupResult) A

abbrev pub prefix_of : String → String
prefix_of id = "servers/" +++ (id +++ "/restic/")

module _ (env : Env SweepCall SweepAnswer) where
  -- The body of the second loop for a server whose backups have all expired.
  unfoldable pub clean_server : String → Sweep (Unit {0})
  clean_server id = call env (delete_prefix (prefix_of id)) >>= elim [
    | err e ↦ change (λ r. record r { servers_failed = r.servers_failed + 1 })
    | ok deleted ↦ change (λ r. record r { objects_deleted = r.objects_deleted + deleted }) >>= λ _.
        call env (delete_server_backups id) >>= elim [
          | some e ↦ change (λ r. record r { servers_failed = r.servers_failed + 1 })
          | none ↦ change (λ r. record r { servers_cleaned = r.servers_cleaned + 1 })
        ]
  ]

  -- The second loop, over the entries in the order of the iteration.
  unfoldable pub clean_servers : List (String × Bool) → Sweep (Unit {0})
  unfolding clean_server
  clean_servers [] = pure tt
  clean_servers ((id, expired) ∷ servers) =
      (if not expired then pure tt else clean_server id) >>= λ _. clean_servers servers

  -- `RunSweep` from the list of the backups on; `order` is the order in which the map is visited.
  unfoldable pub sweep_backups :
      (List (String × Bool) → List (String × Bool)) → List Backup → Sweep CleanupResult
  unfolding clean_servers scan_backups
  sweep_backups order backups = do
    time ← now
    let servers = scan_backups time backups []
    change (λ _. record {
      servers_scanned = length servers;
      servers_cleaned = 0;
      servers_failed = 0;
      objects_deleted = 0;
    })
    clean_servers (order servers)
    gets (λ w. w.object)

  unfoldable pub run_sweep : (List (String × Bool) → List (String × Bool)) → Sweep CleanupResult
  unfolding sweep_backups
  run_sweep order = call env list_backups >>= elim [
    | err e ↦ raise (wrap "failed to list backups for cleanup sweep: " e)
    | ok backups ↦ sweep_backups order backups
  ]
