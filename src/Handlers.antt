-- ===== src/Handlers.antt =====
-- The request handlers: internal/handlers/servers. This module has what the handlers call, and how
-- they refuse a request; the children have the handlers.
--
-- A handler is an action that ends with its response, or early with an error response
-- (`writeJSONError` and `return`). A body that does not decode is `none`. The log, the traces and
-- the headers are left out.
pub mod Guards
pub mod Steps
pub mod Options
pub mod Responses
pub mod Launched
pub mod Reads
pub mod Actions
pub mod Edits
pub mod AgentApi
pub mod Agents
pub mod Accepted
pub mod Pages
pub mod Reports
pub mod Catalog
pub mod Replaced
pub mod Update
pub mod Changes
pub mod Creation
pub mod Rechecked
pub mod Restoration
pub mod Returns
pub mod Offered
pub mod Checked
pub mod Checks
pub mod Create
use metio.Base.{
  if◌then◌else◌, ℕ, String, Bool, Option, none, some, List, ◌||◌, [], ◌∷◌, false, code,
}
use metio.Types.{
  Time, Status, WhitelistEntry, WhitelistConfig, Backup, ServerConfig, ProvisioningStatus,
}
use metio.Base.Int.{ℤ}
use metio.Validation.{ValidationError}
use metio.Programs.{ProgramConfig, ControllerConfig}
use metio.Exec.{Error, Outcome, ok, err, Exec, pure, raise, World}

-- `MachineTypeOption`
pub record MachineTypeOption : Type 0 where
  pub id : String
  pub vcpus : ℤ
  pub memory_gb : ℤ

-- `RegionOption`
pub record RegionOption : Type 0 where
  pub id : String
  pub zones : List String

-- `services.MojangProfile`
pub record MojangProfile : Type 0 where
  pub id : String
  pub name : String

pub data HandlerCall : Type 0 where
  -- `GetDBConnection`
  get_db_connection : HandlerCall
  -- `db.DB`
  list_server_configs list_backups : HandlerCall
  get_server_config get_status get_provisioning_status : String → HandlerCall
  create_server_config update_server_config save_config_snapshot :
      String → ServerConfig → HandlerCall
  update_status : String → Status → HandlerCall
  list_backups_by_server : String → HandlerCall
  get_backup : String → String → HandlerCall
  upsert_backup : Backup → HandlerCall
  get_whitelist_config get_whitelist_entries : String → HandlerCall
  set_whitelist_config : String → WhitelistConfig → HandlerCall
  add_whitelist_entry : String → WhitelistEntry → HandlerCall
  remove_whitelist_entry : String → String → HandlerCall
  -- the lists that GET /api/options and the pack picker serve; a pack version is its id
  list_minecraft_versions list_gcp_regions list_gcp_machine_types : HandlerCall
  list_modrinth_pack_versions : String → HandlerCall
  -- `ProvisioningServiceInterface`
  start_create start_create_from_backup : String → ProgramConfig → HandlerCall
  start_update : String → ProgramConfig → ℕ → HandlerCall
  start_destroy revert_server_config read_provisioning_status : String → HandlerCall
  start_restore : String → Backup → String → HandlerCall
  -- the Compute client
  new_compute_client : HandlerCall
  start_instance stop_instance : String → String → String → HandlerCall
  -- `uuid.New`, `agent.MintToken`, `agent.VerifyToken`, `GetUserEmail`, `LookupMinecraftUser`
  new_uuid get_user_email : HandlerCall
  mint_token verify_token lookup_minecraft_user : String → HandlerCall

abbrev pub HandlerAnswer : HandlerCall → Type 0
HandlerAnswer get_db_connection = Outcome Error ControllerConfig
HandlerAnswer list_server_configs = Outcome Error (List ServerConfig)
HandlerAnswer list_backups = Outcome Error (List Backup)
HandlerAnswer (get_server_config _) = Outcome Error ServerConfig
HandlerAnswer (get_status _) = Outcome Error Status
HandlerAnswer (get_provisioning_status _) = Outcome Error (Option ProvisioningStatus)
HandlerAnswer (list_backups_by_server _) = Outcome Error (List Backup)
HandlerAnswer (get_backup _ _) = Outcome Error Backup
HandlerAnswer (get_whitelist_config _) = Outcome Error WhitelistConfig
HandlerAnswer (get_whitelist_entries _) = Outcome Error (List WhitelistEntry)
HandlerAnswer list_minecraft_versions = List String
HandlerAnswer list_gcp_regions = List RegionOption
HandlerAnswer list_gcp_machine_types = List MachineTypeOption
HandlerAnswer (list_modrinth_pack_versions _) = List String
HandlerAnswer (read_provisioning_status _) = Outcome Error ProvisioningStatus
HandlerAnswer new_uuid = String
HandlerAnswer get_user_email = String
HandlerAnswer (mint_token _) = Outcome Error String
HandlerAnswer (verify_token _) = Outcome Error String
HandlerAnswer (lookup_minecraft_user _) = Outcome Error (Option MojangProfile)
HandlerAnswer _ = Option Error

-- `ProvisioningService != nil`, `ControllerVersion`, the text of a validation error, and texts of the
-- standard library: `%q`, `strconv.Atoi`, and an instant in the format RFC 3339, made and
-- read. The time zone that an instant is
-- shown in is left out.
pub record Site : Type 0 where
  pub provisioning : Bool
  pub controller_version : String
  pub describe : ValidationError → String
  pub quote : String → String
  pub rfc3339 : Time → String
  pub atoi : String → Option ℤ
  pub parse_time : String → Option Time

-- An error response: its code and its text.
pub record Refusal : Type 0 where
  pub code : ℕ
  pub text : String

abbrev pub Visit : Type 0
Visit = World HandlerCall (Unit {0})

abbrev pub Handler : Type 0 → Type 0
Handler A = Exec Refusal Visit A

abbrev pub refuse : {A : Type 0} → ℕ → String → Handler A
refuse code text = raise (record { code = code; text = text })

-- `if err != nil { writeJSONError(w, text, code); return }`, of a result, of an error, of a test
-- that must be true, and of a body.
unfoldable pub expect : {A : Type 0} → ℕ → String → Outcome Error A → Handler A
expect code text (ok a) = pure a
expect code text (err e) = refuse code text

unfoldable pub no_error : ℕ → String → Option Error → Handler (Unit {0})
no_error code text none = pure tt
no_error code text (some e) = refuse code text

unfoldable pub require : Bool → ℕ → String → Handler (Unit {0})
require b code text = if b then pure tt else refuse code text

unfoldable pub decode : {A : Type 0} → Option A → Handler A
decode (some a) = pure a
decode none = refuse 400 "invalid request body"

-- `for _, x := range xs { if … { return true } }; return false`
unfoldable pub any_match : {A : Type 0} → (A → Bool) → List A → Bool
any_match test [] = false
any_match test (x ∷ xs) = test x || any_match test xs
