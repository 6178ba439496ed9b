-- ===== src/Db/Servers.antt =====
-- The server configs and their index, and the config snapshots: internal/db/dapr.go.
use metio.Base.{beq, if◌then◌else◌, ◌+++◌, code, String, List, [], ◌∷◌, ◌++◌, map}
use metio.Types.{ServerConfig}
use metio.Exec.{Error, ok, err, Exec, pure, ◌>>=◌, ◌>>◌}
use metio.Db.Store.{
  Client, Codecs, not_found, in_index, without, put_document, get_document, parse_items,
}

-- `keySuffix` and `backupRecordIDFromKey`: what follows the first colon, or nothing.
unfoldable pub key_suffix : String → String
key_suffix String.[] = ""
key_suffix (String.◌∷◌ c s) = if beq (code c) b':' then s else key_suffix s

abbrev pub config_key : String → String
config_key id = "serverconfig:" +++ id

abbrev pub snapshot_key : String → String
snapshot_key id = "configsnapshot:" +++ id

module _ {S Bytes : Type 0} (client : Client S Bytes) (codecs : Codecs Bytes) where
  unfoldable pub get_server_index : Exec Error S (List String)
  get_server_index = get_document client codecs.server_index "serverindex" (ok [])

  unfoldable pub save_server_index : List String → Exec Error S (Unit {0})
  save_server_index ids = put_document client codecs.server_index "serverindex" ids

  unfoldable pub create_server_config : String → ServerConfig → Exec Error S (Unit {0})
  create_server_config id config = do
    put_document client codecs.server_config (config_key id) config
    index ← get_server_index
    if in_index id index then pure tt else save_server_index (index ++ (id ∷ []))

  unfoldable pub get_server_config : String → Exec Error S ServerConfig
  get_server_config id = do
    config ←
        get_document client codecs.server_config (config_key id)
          (err (not_found ("server config not found for " +++ codecs.quote id)))
    pure (record config { id = id })

  unfoldable pub update_server_config : String → ServerConfig → Exec Error S (Unit {0})
  update_server_config id config = put_document client codecs.server_config (config_key id) config

  unfoldable pub delete_server_config : String → Exec Error S (Unit {0})
  delete_server_config id = do
    client.delete (config_key id)
    index ← get_server_index
    save_server_index (without id index)

  unfoldable pub list_server_configs : Exec Error S (List ServerConfig)
  list_server_configs = get_server_index >>= elim [
    | [] ↦ pure []
    | id ∷ ids ↦ client.get_bulk (map config_key (id ∷ ids)) >>= λ items. pure (
        parse_items client codecs.server_config
          (λ key config. record config { id = key_suffix key }) items)
  ]

  unfoldable pub list_all_server_ids : Exec Error S (List String)
  list_all_server_ids = get_server_index

  unfoldable pub save_config_snapshot : String → ServerConfig → Exec Error S (Unit {0})
  save_config_snapshot id config = put_document client codecs.server_config (snapshot_key id) config

  unfoldable pub get_config_snapshot : String → Exec Error S ServerConfig
  get_config_snapshot id =
      get_document client codecs.server_config (snapshot_key id)
        (err (not_found ("config snapshot not found for " +++ codecs.quote id)))

  unfoldable pub delete_config_snapshot : String → Exec Error S (Unit {0})
  delete_config_snapshot id = client.delete (snapshot_key id)
