-- ===== src/Db/Whitelist.antt =====
-- The whitelist entries of an instance and their index: internal/db/dapr.go.
use metio.Base.{if◌then◌else◌, ◌+++◌, String, List, [], ◌∷◌, ◌++◌, map}
use metio.Types.{WhitelistEntry, WhitelistConfig}
use metio.Exec.{Error, ok, err, Exec, pure, ◌>>=◌, ◌>>◌}
use metio.Db.Store.{
  Client, Codecs, not_found, in_index, without, put_document, get_document, parse_items,
}

abbrev pub config_key : String → String
config_key name = "whitelistcfg:" +++ name

abbrev pub index_key : String → String
index_key name = "whitelistidx:" +++ name

abbrev pub entry_key : String → String → String
entry_key name uuid = "whitelist:" +++ (name +++ (":" +++ uuid))

module _ {S Bytes : Type 0} (client : Client S Bytes) (codecs : Codecs Bytes) where
  unfoldable pub get_whitelist_config : String → Exec Error S WhitelistConfig
  get_whitelist_config name =
      get_document client codecs.whitelist_config (config_key name)
        (err (not_found ("whitelist config not found for " +++ codecs.quote name)))

  unfoldable pub set_whitelist_config : String → WhitelistConfig → Exec Error S (Unit {0})
  set_whitelist_config name config =
      put_document client codecs.whitelist_config (config_key name) config

  unfoldable pub get_whitelist_index : String → Exec Error S (List String)
  get_whitelist_index name = get_document client codecs.whitelist_index (index_key name) (ok [])

  unfoldable pub save_whitelist_index : String → List String → Exec Error S (Unit {0})
  save_whitelist_index name uuids =
      put_document client codecs.whitelist_index (index_key name) uuids

  unfoldable pub get_whitelist_entries : String → Exec Error S (List WhitelistEntry)
  get_whitelist_entries name = get_whitelist_index name >>= elim [
    | [] ↦ pure []
    | uuid ∷ uuids ↦ client.get_bulk (map (entry_key name) (uuid ∷ uuids)) >>= λ items.
        pure (parse_items client codecs.whitelist_entry (λ key entry. entry) items)
  ]

  unfoldable pub add_whitelist_entry : String → WhitelistEntry → Exec Error S (Unit {0})
  add_whitelist_entry name entry = do
    put_document client codecs.whitelist_entry (entry_key name entry.uuid) entry
    index ← get_whitelist_index name
    if in_index entry.uuid index
        then pure tt
        else save_whitelist_index name (index ++ (entry.uuid ∷ []))

  unfoldable pub remove_whitelist_entry : String → String → Exec Error S (Unit {0})
  remove_whitelist_entry name uuid = do
    client.delete (entry_key name uuid)
    index ← get_whitelist_index name
    save_whitelist_index name (without uuid index)

  -- The loop that deletes the old entries; a failure is logged.
  unfoldable pub delete_entries : String → List String → Exec Error S (Unit {0})
  delete_entries name [] s = (ok tt, s)
  delete_entries name (uuid ∷ uuids) s =
      let (r, s') = client.delete (entry_key name uuid) s in delete_entries name uuids s'

  unfoldable pub save_entries : String → List WhitelistEntry → Exec Error S (Unit {0})
  save_entries name [] = pure tt
  save_entries name (entry ∷ entries) = do
    put_document client codecs.whitelist_entry (entry_key name entry.uuid) entry
    save_entries name entries

  unfoldable pub set_whitelist_entries : String → List WhitelistEntry → Exec Error S (Unit {0})
  set_whitelist_entries name entries = do
    old ← get_whitelist_index name
    delete_entries name old
    save_entries name entries
    save_whitelist_index name (map (λ entry. entry.uuid) entries)
