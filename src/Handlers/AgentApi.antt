-- ===== src/Handlers/AgentApi.antt =====
-- The API of the machine agents: internal/handlers/agent/handler.go, behind the check of the token
-- in middleware.go.
use metio.Base.{if◌then◌else◌, String, Bool, false, not, ◌||◌, Option, none, some, List, ◌==◌}
use metio.Types.{Status, WhitelistEntry, WhitelistConfig}
use metio.Exec.{Error, Outcome, ok, err, pure, ◌>>=◌, ◌>>◌, Env, call}
use metio.Handlers.{
  HandlerCall, get_db_connection, get_status, update_status, get_whitelist_config,
  get_whitelist_entries, set_whitelist_config, add_whitelist_entry, stop_instance, verify_token,
  HandlerAnswer, Handler, refuse, expect, no_error, require, decode,
}
use metio.Handlers.Catalog.{after_prefix}

-- `StopRequest`
pub record StopRequest : Type 0 where
  pub project : String
  pub zone : String

-- The routes of `RegisterRoutes`, each with its body.
pub data AgentRequest : Type 0 where
  read_status read_whitelist read_whitelist_config : AgentRequest
  write_status : Option Status → AgentRequest
  write_whitelist_config : Option WhitelistConfig → AgentRequest
  write_whitelist : Option WhitelistEntry → AgentRequest
  request_stop : Option StopRequest → AgentRequest

-- The body of a response.
pub data AgentReply : Type 0 where
  status_reply : Status → AgentReply
  whitelist_reply : List WhitelistEntry → AgentReply
  whitelist_config_reply : WhitelistConfig → AgentReply
  empty_reply created_reply stopped_reply : AgentReply

-- A missing whitelist config is a disabled one.
unfoldable pub agent_whitelist_config : Outcome Error WhitelistConfig → Handler AgentReply
agent_whitelist_config (ok c) = pure (whitelist_config_reply c)
agent_whitelist_config (err e) =
    if e.is_not_found
    then pure (whitelist_config_reply (record { enabled = false }))
    else refuse 500 "failed to get whitelist config"

-- `can_stop` is `StopInstance != nil`.
module _ (env : Env HandlerCall HandlerAnswer) (can_stop : Bool) (instance_name : String) where
  unfoldable pub agent_connect : Handler (Unit {0})
  agent_connect = do
    connection ← call env get_db_connection
    cfg ← expect 500 "internal error" connection
    pure tt

  unfoldable pub handle_get_status : Handler AgentReply
  handle_get_status = do
    agent_connect
    read ← call env (get_status instance_name)
    status ← expect 404 "status not found" read
    pure (status_reply status)

  unfoldable pub handle_update_status : Option Status → Handler AgentReply
  handle_update_status body = do
    status ← decode body
    agent_connect
    updated ← call env (update_status instance_name status)
    no_error 500 "failed to update status" updated
    pure empty_reply

  unfoldable pub handle_get_whitelist_entries : Handler AgentReply
  handle_get_whitelist_entries = do
    agent_connect
    read ← call env (get_whitelist_entries instance_name)
    entries ← expect 500 "failed to get whitelist entries" read
    pure (whitelist_reply entries)

  unfoldable pub handle_get_whitelist_config : Handler AgentReply
  handle_get_whitelist_config = do
    agent_connect
    read ← call env (get_whitelist_config instance_name)
    agent_whitelist_config read

  unfoldable pub handle_set_whitelist_config : Option WhitelistConfig → Handler AgentReply
  handle_set_whitelist_config body = do
    cfg ← decode body
    agent_connect
    set ← call env (set_whitelist_config instance_name cfg)
    no_error 500 "failed to set whitelist config" set
    pure empty_reply

  unfoldable pub handle_add_whitelist_entry : Option WhitelistEntry → Handler AgentReply
  handle_add_whitelist_entry body = do
    entry ← decode body
    agent_connect
    added ← call env (add_whitelist_entry instance_name entry)
    no_error 500 "failed to add whitelist entry" added
    pure created_reply

  unfoldable pub handle_stop : Option StopRequest → Handler AgentReply
  handle_stop body = do
    req ← decode body
    require (not (req.project == "" || req.zone == "")) 400 "project and zone are required"
    require can_stop 500 "internal error"
    stopped ← call env (stop_instance req.project req.zone instance_name)
    no_error 500 "failed to stop instance" stopped
    pure stopped_reply

  unfoldable pub serve_agent : AgentRequest → Handler AgentReply
  serve_agent read_status = handle_get_status
  serve_agent read_whitelist = handle_get_whitelist_entries
  serve_agent read_whitelist_config = handle_get_whitelist_config
  serve_agent (write_status body) = handle_update_status body
  serve_agent (write_whitelist_config body) = handle_set_whitelist_config body
  serve_agent (write_whitelist body) = handle_add_whitelist_entry body
  serve_agent (request_stop body) = handle_stop body

  -- `AgentAuthMiddleware`, from the header's token on, and from the header on.
  unfoldable pub authorize : Option String → AgentRequest → Handler AgentReply
  authorize none request = refuse 401 "invalid authorization format"
  authorize (some token) request = do
    verified ← call env (verify_token token)
    subject ← expect 401 "invalid or expired token" verified
    require (subject == instance_name) 403 "token does not match instance"
    serve_agent request

  unfoldable pub agent_auth_middleware : String → AgentRequest → Handler AgentReply
  agent_auth_middleware header request = do
    require (not (header == "")) 401 "missing authorization header"
    authorize (after_prefix "Bearer " header) request
