-- ===== src/Db/Backups.antt =====
-- The backup catalog with its two indexes: internal/db/dapr.go.
use metio.Base.{
  if◌then◌else◌, ◌+++◌, String, not, Option, none, some, List, [], ◌∷◌, ◌++◌, map, ◌==◌,
}
use metio.Types.{Time, BackupSourceConfig, Backup}
use metio.Exec.{Error, wrap, ok, err, Exec, pure, lift, ◌>>=◌, ◌>>◌}
use metio.Db.Store.{
  Client, Codec, Codecs, not_found, in_index, put_document, get_document, parse_items,
}
use metio.Db.Servers.{key_suffix}

unfoldable pub backup_record_id : String → String → String
backup_record_id server_id snapshot_id = server_id +++ (":" +++ snapshot_id)

unfoldable pub backup_key : String → String → String
backup_key server_id snapshot_id = "backup:" +++ (server_id +++ (":" +++ snapshot_id))

abbrev pub index_key : String → String
index_key server_id = "backupidx:" +++ server_id

module _ {S Bytes : Type 0} (client : Client S Bytes) (codecs : Codecs Bytes) where
  unfoldable pub get_server_index : String → Exec Error S (List String)
  get_server_index server_id =
      get_document client codecs.backup_server_index (index_key server_id) (ok [])

  unfoldable pub get_global_index : Exec Error S (List String)
  get_global_index = get_document client codecs.backup_global_index "backupindex" (ok [])

  -- An entry that an index has not got is appended, and the index is saved then only.
  unfoldable pub extend_index :
      Codec (List String) Bytes → String → String → List String → Exec Error S (Unit {0})
  extend_index codec key id index =
      if in_index id index then pure tt else put_document client codec key (index ++ (id ∷ []))

  unfoldable pub upsert_backup : Backup → Exec Error S (Unit {0})
  upsert_backup backup = do
    put_document client codecs.backup (backup_key backup.server_id backup.snapshot_id) backup
    snapshots ← get_server_index backup.server_id
    extend_index codecs.backup_server_index (index_key backup.server_id) backup.snapshot_id
        snapshots
    records ← get_global_index
    extend_index codecs.backup_global_index "backupindex"
        (backup_key backup.server_id backup.snapshot_id) records

  unfoldable pub get_backup : String → String → Exec Error S Backup
  get_backup server_id snapshot_id = do
    backup ← get_document client codecs.backup (backup_key server_id snapshot_id) (
        err (
          not_found
            ("backup not found for server " +++ server_id +++ " snapshot " +++ snapshot_id)))
    pure (record backup { id = backup_record_id server_id snapshot_id })

  unfoldable pub list_backups_by_server : String → Exec Error S (List Backup)
  list_backups_by_server server_id = get_server_index server_id >>= elim [
    | [] ↦ pure []
    | id ∷ ids ↦ client.get_bulk (map (backup_key server_id) (id ∷ ids)) >>= λ items. pure (
        parse_items client codecs.backup
          (λ key backup. record backup { id = backup_record_id server_id backup.snapshot_id })
          items)
  ]

  unfoldable pub list_backups : Exec Error S (List Backup)
  list_backups = get_global_index >>= elim [
    | [] ↦ pure []
    | id ∷ ids ↦ client.get_bulk (id ∷ ids) >>= λ items. pure (
        parse_items client codecs.backup
          (λ key backup. if backup.id == "" then record backup { id = key_suffix key } else backup)
          items)
  ]

  -- The deletion stamps that `MarkServerBackupsDeleted` sets on one backup.
  unfoldable pub mark_deleted : Option BackupSourceConfig → Time → Time → Backup → Backup
  mark_deleted none deleted_at retention_until backup = record backup {
    server_deleted_at = some deleted_at;
    retention_until = some retention_until;
  }
  mark_deleted (some source) deleted_at retention_until backup = record backup {
    server_deleted_at = some deleted_at;
    retention_until = some retention_until;
    source_config = some source;
  }

  unfoldable pub with_context : {A : Type 0} → String → Exec Error S A → Exec Error S A
  with_context prefix m s =
      let (r, s') = m s in elim r [ ok a ↦ (ok a, s') | err e ↦ (err (wrap prefix e), s') ]

  unfoldable pub stamp_backups :
      String → Option BackupSourceConfig → Time → Time → List Backup → Exec Error S (Unit {0})
  stamp_backups server_id source deleted_at retention_until [] = pure tt
  stamp_backups server_id source deleted_at retention_until (backup ∷ backups) = do
    bytes ← lift (codecs.backup.marshal (mark_deleted source deleted_at retention_until backup))
    with_context ("failed to stamp deletion state on backup " +++ backup.snapshot_id +++ ": ")
        (client.save (backup_key server_id backup.snapshot_id) bytes)
    stamp_backups server_id source deleted_at retention_until backups

  -- A deletion whose failure is logged.
  unfoldable pub try_delete : String → Exec Error S (Unit {0})
  try_delete key s = (ok tt, (client.delete key s).1)

  unfoldable pub mark_server_backups_deleted :
      String → Option BackupSourceConfig → Time → Time → Exec Error S (Unit {0})
  mark_server_backups_deleted server_id source deleted_at retention_until = do
    backups ← list_backups_by_server server_id
    stamp_backups server_id source deleted_at retention_until backups
    try_delete ("backupdeleted:" +++ server_id)

  unfoldable pub delete_records : List String → Exec Error S (Unit {0})
  delete_records [] = pure tt
  delete_records (key ∷ keys) = do
    with_context ("failed to delete backup record " +++ key +++ ": ") (client.delete key)
    delete_records keys

  -- The index without the removed records.
  unfoldable pub without_all : List String → List String → List String
  without_all removed [] = []
  without_all removed (id ∷ ids) =
      if not (in_index id removed) then id ∷ without_all removed ids else without_all removed ids

  unfoldable pub delete_server_backups : String → Exec Error S (Unit {0})
  delete_server_backups server_id = do
    backups ← list_backups_by_server server_id
    let keys = map (λ backup. backup_key server_id backup.snapshot_id) backups
    delete_records keys
    with_context ("failed to delete backup index for server " +++ server_id +++ ": ")
        (client.delete (index_key server_id))
    records ← get_global_index
    put_document client codecs.backup_global_index "backupindex" (without_all keys records)
    try_delete ("backupdeleted:" +++ server_id)
