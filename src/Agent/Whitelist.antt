-- ===== src/Agent/Whitelist.antt =====
-- The whitelist of the machine agent: importWhitelistIfEmpty and syncWhitelist of
-- cmd/machine-agent/main.go. The controller, RCON and the files of the container are calls.

use text.Mathlib.Text.{starts_with}
use metio.Base.{
  if◌then◌else◌, String, Bool, true, false, not, ◌||◌, Option, none, some, List, [], ◌∷◌, ◌==◌,
}
use metio.Types.{Time, WhitelistEntry, WhitelistConfig}
use metio.Exec.{
  Error, wrap, Outcome, ok, err, Exec, pure, raise, ◌>>=◌, ◌>>◌, Env, World, call, now,
}

pub record MinecraftWhitelistEntry : Type 0 where
  pub uuid : String
  pub name : String

pub data WhitelistCall : Type 0 where
  -- the controller API
  get_whitelist_config get_whitelist_entries : WhitelistCall
  add_whitelist_entry : WhitelistEntry → WhitelistCall
  set_whitelist_config : WhitelistConfig → WhitelistCall
  -- whitelist.json, read and decoded, with the error of `getMinecraftWhitelist`
  read_minecraft_whitelist : WhitelistCall
  -- the lines of server.properties, without the space around them
  read_properties : WhitelistCall
  -- RCON
  add_player remove_player : String → WhitelistCall
  set_enabled : Bool → WhitelistCall

abbrev pub WhitelistAnswer : WhitelistCall → Type 0
WhitelistAnswer get_whitelist_config = Outcome Error WhitelistConfig
WhitelistAnswer get_whitelist_entries = Outcome Error (List WhitelistEntry)
WhitelistAnswer read_minecraft_whitelist = Outcome Error (List MinecraftWhitelistEntry)
WhitelistAnswer read_properties = Outcome Error (List String)
WhitelistAnswer _ = Option Error

abbrev pub Sync : Type 0 → Type 0
Sync A = Exec Error (World WhitelistCall (Unit {0})) A

-- The loop of `getWhitelistEnabledStatus`: what follows the prefix is "true" exactly if the whole
-- line is the prefix and "true".
unfoldable pub enabled_line : List String → Bool
enabled_line [] = false
enabled_line (line ∷ lines) =
    let rest = enabled_line lines in
    if starts_with line "white-list="
    then line == "white-list=true"
    else if starts_with line "enforce-whitelist="
    then line == "enforce-whitelist=true"
    else rest

unfoldable pub enabled_of : Outcome Error (List String) → Bool
enabled_of (err e) = false
enabled_of (ok lines) = enabled_line lines

-- `minecraftMap[uuid]`
unfoldable pub has_player : String → List MinecraftWhitelistEntry → Bool
has_player uuid [] = false
has_player uuid (m ∷ ms) = let rest = has_player uuid ms in m.uuid == uuid || rest

-- `entriesMap[entry.UUID] = entry`
unfoldable pub put_entry : WhitelistEntry → List WhitelistEntry → List WhitelistEntry
put_entry entry [] = entry ∷ []
put_entry entry (e ∷ es) =
    let rest = put_entry entry es in if e.uuid == entry.uuid then entry ∷ es else e ∷ rest

unfoldable pub entries_map : List WhitelistEntry → List WhitelistEntry → List WhitelistEntry
entries_map m [] = m
entries_map m (e ∷ es) = entries_map (put_entry e m) es

-- `_, exists := entriesMap[uuid]`
unfoldable pub has_entry : String → List WhitelistEntry → Bool
has_entry uuid [] = false
has_entry uuid (e ∷ es) = let rest = has_entry uuid es in e.uuid == uuid || rest

unfoldable pub imported_entry : MinecraftWhitelistEntry → Time → WhitelistEntry
imported_entry m time = record {
  username = m.name;
  uuid = m.uuid;
  added_at = time;
  added_by = "imported";
}

unfoldable pub is_filled : Outcome Error (List WhitelistEntry) → Bool
is_filled (ok (e ∷ es)) = true
is_filled (ok []) = false
is_filled (err e) = false

-- The config that is read, or the disabled one.
unfoldable pub wants_enabled : Outcome Error WhitelistConfig → Bool
wants_enabled (ok config) = config.enabled
wants_enabled (err e) = false

-- `a != b`
unfoldable pub differ : Bool → Bool → Bool
differ true b = not b
differ false b = b

module _ (env : Env WhitelistCall WhitelistAnswer) where
  unfoldable pub get_whitelist_enabled_status : Sync Bool
  get_whitelist_enabled_status = call env read_properties >>= λ r. pure (enabled_of r)

  unfoldable pub import_entries : List MinecraftWhitelistEntry → Sync (Unit {0})
  import_entries [] = pure tt
  import_entries (m ∷ ms) =
      (now >>= λ time. call env (add_whitelist_entry (imported_entry m time))) >>= λ added.
      import_entries ms

  unfoldable pub import_read : Outcome Error (List MinecraftWhitelistEntry) → Sync (Unit {0})
  import_read (err e) = raise e
  import_read (ok []) = pure tt
  import_read (ok (m ∷ ms)) =
      import_entries (m ∷ ms)
      >> (get_whitelist_enabled_status >>= λ enabled.
          call env (set_whitelist_config (record { enabled = enabled })) >>= λ r. pure tt)

  unfoldable pub import_whitelist_if_empty : Sync (Unit {0})
  import_whitelist_if_empty = call env get_whitelist_entries >>= λ r.
      if is_filled r then pure tt else call env read_minecraft_whitelist >>= import_read

  -- A loop that makes a call for each element of which the test is false. A failure is logged.
  unfoldable pub call_unless :
      {A : Type 0} → (A → Bool) → (A → WhitelistCall) → List A → Sync (Unit {0})
  call_unless test c [] = pure tt
  call_unless test c (x ∷ xs) =
      (if test x then pure tt else call env (c x) >>= λ r. pure tt) >>= λ _. call_unless test c xs

  unfoldable pub switch_enabled : Bool → Bool → Sync (Unit {0})
  switch_enabled wanted current =
      if differ wanted current then (call env (set_enabled wanted) >>= λ r. pure tt) else pure tt

  -- `syncWhitelist` ends with the wanted setting and an error that may be nil. The loop over the
  -- map of the entries goes through it in the order of `order`.
  module _ (order : List WhitelistEntry → List WhitelistEntry) where
    unfoldable pub sync_players :
        Bool
        → List WhitelistEntry
        → Outcome Error (List MinecraftWhitelistEntry)
        → Sync (Bool × Option Error)
    sync_players wanted entries (err e) =
        pure (wanted, some (wrap "failed to get minecraft whitelist: " e))
    sync_players wanted entries (ok players) =
        call_unless (λ e. has_player e.uuid players) (λ e. add_player e.username)
          (order (entries_map [] entries))
        >>= λ _.
            call_unless (λ m. has_entry m.uuid (entries_map [] entries)) (λ m. remove_player m.name)
              players
            >>= λ _. get_whitelist_enabled_status >>= λ current.
                switch_enabled wanted current >>= λ _. pure (wanted, none)

    unfoldable pub sync_entries :
        Bool → Outcome Error (List WhitelistEntry) → Sync (Bool × Option Error)
    sync_entries wanted (err e) = pure (wanted, some (wrap "failed to get whitelist entries: " e))
    sync_entries wanted (ok entries) =
        call env read_minecraft_whitelist >>= sync_players wanted entries

    unfoldable pub sync_whitelist : Sync (Bool × Option Error)
    sync_whitelist = call env get_whitelist_config >>= λ config.
        call env get_whitelist_entries >>= sync_entries (wants_enabled config)
