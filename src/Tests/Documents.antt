-- ===== src/Tests/Documents.antt =====
-- Examples of the document database, on a store in memory.
use metio.Base.{
  refl, [], if◌then◌else◌, ◌+++◌, ◌≡◌, true, false, ◌∷◌, ◌==◌, Any, String, ◌≢◌, ◌↔◌, none, List,
}
use metio.Types.{WhitelistEntry, zero_status}
use metio.Exec.{ok, err, ◌>>=◌}
use metio.Db.Servers.{
  create_server_config, delete_server_config, get_server_index, list_all_server_ids,
}
use metio.Db.Laws.Memory.{
  empty_memory, memory_client, memory-IsStore, memory_codecs, memory-AreCodecs, Memory,
}
use metio.Db.Laws.ServerLaws as ServerLaws
use metio.Db.Laws.WhitelistLaws as WhitelistLaws
use metio.Tests.{survival}
use metio.Db.Store.{not_found, in_index, without, update_status, get_status, get_document}
use metio.Db.Whitelist.{add_whitelist_entry, remove_whitelist_entry, get_whitelist_index, entry_key}
use metio.Db.Laws.Index.{IsUnique, index_stays-IsUnique}
use metio.Db.Laws.StatusLaws.{update_status-get_status}

abbrev player : WhitelistEntry
player = record { username = "alex"; uuid = "u1"; added_at = 0; added_by = "admin" }

no_servers : (list_all_server_ids memory_client memory_codecs empty_memory).0 ≡ ok []
unfolding list_all_server_ids get_server_index get_document ◌>>=◌
no_servers = refl

no_players : (get_whitelist_index memory_client memory_codecs "survival" empty_memory).0 ≡ ok []
unfolding get_whitelist_index get_document ◌>>=◌
no_players = refl

create_server_config-stored_example :
    ServerLaws.Leaves memory-IsStore memory-AreCodecs "s1"
      (ServerLaws.extended "s1" [])
      (ok (record survival { id = "s1" }))
      (create_server_config memory_client memory_codecs "s1" survival empty_memory)
create_server_config-stored_example =
    ServerLaws.create_server_config-stored memory-IsStore memory-AreCodecs "s1" survival []
      empty_memory no_servers

delete_server_config-gone_example :
    ServerLaws.Leaves memory-IsStore memory-AreCodecs "s1"
      (without "s1" [])
      (err (not_found ("server config not found for " +++ "s1")))
      (delete_server_config memory_client memory_codecs "s1" empty_memory)
delete_server_config-gone_example =
    ServerLaws.delete_server_config-gone memory-IsStore memory-AreCodecs "s1" [] empty_memory
      no_servers

add_whitelist_entry-indexed_example :
    WhitelistLaws.Leaves memory-IsStore memory-AreCodecs "survival"
      (ServerLaws.extended "u1" [])
      (add_whitelist_entry memory_client memory_codecs "survival" player empty_memory)
add_whitelist_entry-indexed_example =
    WhitelistLaws.add_whitelist_entry-indexed memory-IsStore memory-AreCodecs "survival" player []
      empty_memory no_players

-- The store that has one player.
abbrev one_player : Memory
one_player = (add_whitelist_entry memory_client memory_codecs "survival" player empty_memory).1

one_uuid :
    (get_whitelist_index memory_client memory_codecs "survival" one_player).0 ≡ ok ("u1" ∷ [])
unfolding in_index
one_uuid =
    (WhitelistLaws.add_whitelist_entry-indexed memory-IsStore memory-AreCodecs "survival" player []
      empty_memory no_players).1

remove_whitelist_entry-gone_example :
    (left : List String) × WhitelistLaws.Leaves memory-IsStore memory-AreCodecs "survival" left
      (remove_whitelist_entry memory_client memory_codecs "survival" "u1" one_player)
    × (memory-IsStore.view
          (remove_whitelist_entry memory_client memory_codecs "survival" "u1" one_player).1
          (entry_key "survival" "u1")
        ≡ none)
    × ((x : String) → Any (λ y. y ≡ x) left ↔ Any (λ y. y ≡ x) ("u1" ∷ []) × (x ≢ "u1"))
remove_whitelist_entry-gone_example =
    WhitelistLaws.remove_whitelist_entry-gone memory-IsStore memory-AreCodecs "survival" "u1"
      ("u1" ∷ []) one_player one_uuid

update_status-get_status_example :
    ((update_status memory_client memory_codecs "a" zero_status empty_memory).0 ≡ ok tt)
    × ((get_status memory_client memory_codecs "b"
          (update_status memory_client memory_codecs "a" zero_status empty_memory).1).0
        ≡ (if "b" == "a"
            then ok zero_status
            else (get_status memory_client memory_codecs "b" empty_memory).0))
update_status-get_status_example =
    update_status-get_status memory-IsStore memory-AreCodecs "a" "b" zero_status empty_memory

index_nothing : in_index "s1" [] ≡ false
unfolding in_index
index_nothing = refl

index_stays-IsUnique_example :
    IsUnique (ServerLaws.extended "s2" ("s1" ∷ []))
    × (in_index "s2" (ServerLaws.extended "s2" ("s1" ∷ [])) ≡ true)
    × IsUnique (without "s2" ("s1" ∷ []))
    × (in_index "s2" (without "s2" ("s1" ∷ [])) ≡ false)
index_stays-IsUnique_example = index_stays-IsUnique "s2" ("s1" ∷ []) (index_nothing, tt)
