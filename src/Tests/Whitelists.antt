-- ===== src/Tests/Whitelists.antt =====
-- Examples of the whitelist sync.
use metio.Base.{◌≡◌, refl, true, none, List, [], ◌∷◌}
use metio.Types.{WhitelistEntry}
use metio.Exec.{ok, ◌>>=◌, Env, call}
use metio.Agent.Whitelist.{
  WhitelistCall, get_whitelist_config, get_whitelist_entries, add_whitelist_entry,
  set_whitelist_config, read_minecraft_whitelist, read_properties, add_player, remove_player,
  set_enabled, WhitelistAnswer, enabled_line, enabled_of, has_player, put_entry, entries_map,
  has_entry, wants_enabled, differ, get_whitelist_enabled_status, call_unless, switch_enabled,
  sync_players, sync_entries, sync_whitelist,
}

abbrev known_entry : WhitelistEntry
known_entry = record { username = "alex"; uuid = "u1"; added_at = 3; added_by = "admin" }

abbrev sync_answers : List WhitelistCall → (c : WhitelistCall) → WhitelistAnswer c
sync_answers calls get_whitelist_config = ok (record { enabled = true })
sync_answers calls get_whitelist_entries = ok (known_entry ∷ [])
sync_answers calls (add_whitelist_entry entry) = none
sync_answers calls (set_whitelist_config config) = none
sync_answers calls read_minecraft_whitelist = ok (record { uuid = "u2"; name = "steve" } ∷ [])
sync_answers calls read_properties = ok ("motd=hello" ∷ "white-list=false" ∷ [])
sync_answers calls (add_player name) = none
sync_answers calls (remove_player name) = none
sync_answers calls (set_enabled enabled) = none

abbrev sync_env : Env WhitelistCall WhitelistAnswer
sync_env = record { answer = sync_answers; latency = λ calls. 1 }

-- The log, the last call first.
sync_calls :
    (sync_whitelist sync_env (λ es. es) (record { history = []; clock = 7; object = tt })).1.history
    ≡ set_enabled true
      ∷ read_properties
      ∷ remove_player "steve"
      ∷ add_player "alex"
      ∷ read_minecraft_whitelist
      ∷ get_whitelist_entries
      ∷ get_whitelist_config
      ∷ []
unfolding sync_whitelist sync_entries sync_players call_unless switch_enabled differ has_player
    has_entry entries_map put_entry get_whitelist_enabled_status enabled_of enabled_line
    wants_enabled ◌>>=◌ call
sync_calls = refl
