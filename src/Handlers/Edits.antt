-- ===== src/Handlers/Edits.antt =====
-- The handlers that edit the whitelist and the scheduled shutdown:
-- internal/handlers/servers/whitelist.go and shutdown.go.
use metio.Base.{ltb, beq, if◌then◌else◌, ◌+++◌, String, len, Bool, not, Option, none, some, ◌==◌}
use metio.Types.{Time, WhitelistEntry}
use metio.Exec.{Error, Outcome, ok, err, pure, ◌>>=◌, ◌>>◌, Env, call, now}
use metio.Handlers.{
  MojangProfile, HandlerCall, get_status, update_status, set_whitelist_config, add_whitelist_entry,
  remove_whitelist_entry, get_user_email, lookup_minecraft_user, HandlerAnswer, Site, Handler,
  refuse, expect, no_error, require, decode,
}
use metio.Handlers.Checks.{connect}
use metio.Handlers.Update.{read_config}
use metio.Handlers.Reads.{WhitelistPlayer, whitelist_player}
use Prim.Native.String.{slice}

-- `FormatUUID` of internal/services/mojang.go, on a text of ASCII characters.
unfoldable pub format_uuid : String → String
format_uuid uuid =
    if not (beq (len uuid) 32)
    then uuid
    else slice uuid 0 8
      +++ ("-"
          +++ (slice uuid 8 12
              +++ ("-"
                  +++ (slice uuid 12 16
                      +++ ("-" +++ (slice uuid 16 20 +++ ("-" +++ slice uuid 20 32)))))))

unfoldable pub whitelist_entry : MojangProfile → Time → String → WhitelistEntry
whitelist_entry profile time email = record {
  username = profile.name;
  uuid = format_uuid profile.id;
  added_at = time;
  added_by = if email == "" then "unknown" else email;
}

-- The profile that the lookup found.
unfoldable pub expect_profile :
    String → Outcome Error (Option MojangProfile) → Handler MojangProfile
expect_profile username (err e) = refuse 502 ("failed to validate username: " +++ e.text)
expect_profile username (ok none) = refuse 404 ("Minecraft user '" +++ (username +++ "' not found"))
expect_profile username (ok (some profile)) = pure profile

module _ (env : Env HandlerCall HandlerAnswer) (site : Site) (server_id : String) where
  unfoldable pub add_whitelist_by_id : Option String → Handler WhitelistPlayer
  add_whitelist_by_id body = do
    username ← decode body
    require (not (username == "")) 400 "username is required"
    looked_up ← call env (lookup_minecraft_user username)
    profile ← expect_profile username looked_up
    email ← call env get_user_email
    connect env site
    config ← read_config env site server_id
    time ← now
    added ← call env (add_whitelist_entry config.name (whitelist_entry profile time email))
    no_error 500 "failed to add player to whitelist" added
    pure (whitelist_player site (whitelist_entry profile time email))

  unfoldable pub remove_whitelist_by_id : String → Handler (Unit {0})
  remove_whitelist_by_id uuid = do
    require (not (uuid == "")) 400 "uuid is required"
    connect env site
    config ← read_config env site server_id
    removed ← call env (remove_whitelist_entry config.name uuid)
    no_error 500 "failed to remove player from whitelist" removed

  unfoldable pub set_whitelist_enabled_by_id : Option Bool → Handler Bool
  set_whitelist_enabled_by_id body = do
    enabled ← decode body
    connect env site
    config ← read_config env site server_id
    set ← call env (set_whitelist_config config.name (record { enabled = enabled }))
    no_error 500 "failed to update whitelist config" set
    pure enabled

  -- The status with a new scheduled shutdown; `failure` is the text for an error of the write.
  unfoldable pub set_shutdown : String → Option Time → Handler (Unit {0})
  set_shutdown failure shutdown = do
    connect env site
    config ← read_config env site server_id
    read ← call env (get_status config.name)
    status ← expect 500 "failed to get current status" read
    time ← now
    updated ← call env (
        update_status config.name
          (record status { scheduled_shutdown = shutdown; timestamp = time }))
    no_error 500 failure updated

  unfoldable pub parse_shutdown : Option Time → Handler Time
  parse_shutdown none = refuse 400 "invalid time format, expected RFC3339"
  parse_shutdown (some time) = pure time

  unfoldable pub schedule_shutdown_by_id : Option String → Handler String
  schedule_shutdown_by_id body = do
    text ← decode body
    shutdown ← parse_shutdown (site.parse_time text)
    time ← now
    require (not (ltb shutdown time)) 400 "shutdown time must be in the future"
    set_shutdown "failed to schedule shutdown" (some shutdown)
    pure (site.rfc3339 shutdown)

  unfoldable pub cancel_scheduled_shutdown_by_id : Handler (Unit {0})
  cancel_scheduled_shutdown_by_id = set_shutdown "failed to cancel scheduled shutdown" none
