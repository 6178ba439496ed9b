-- ===== src/Handlers/Checks.antt =====
-- The checks that the request handlers share: `isServerNameTaken` and the tests with their responses
-- in internal/handlers/servers/crud.go, which backup_catalog.go repeats.
use metio.Base.{if◌then◌else◌, ◌+++◌, String, Bool, not, ◌&&◌, Option, none, some, List, ◌==◌}
use metio.Types.{ModpackConfig, ServerConfig}
use metio.Exec.{Error, Outcome, ok, err, pure, ◌>>=◌, ◌>>◌, Env, call}
use metio.Programs.{ControllerConfig}
use metio.Validation.{validate_server_config, ValidationError}
use metio.Handlers.{
  HandlerCall, get_db_connection, list_server_configs, HandlerAnswer, Site, Handler, refuse, expect,
  require, any_match,
}
use metio.Handlers.Options.{
  is_minecraft_version_available, is_machine_type_available, is_region_available, is_zone_available,
  is_modpack_available, is_modpack_version_available,
}
use metio.Provisioning.Executor.{operation_in_progress}

-- The loop of `isServerNameTaken`, and its result on the answer of the database.
unfoldable pub is_other_named : String → String → ServerConfig → Bool
is_other_named name exclude c = c.name == name && not (c.id == exclude)

unfoldable pub taken_in : String → String → Outcome Error (List ServerConfig) → Outcome Error Bool
taken_in name exclude (err e) = err e
taken_in name exclude (ok configs) = ok (any_match (is_other_named name exclude) configs)

-- The error of the start of an operation, as a response: `prefix` for all but an operation that is
-- in progress.
unfoldable pub check_started : String → String → Option Error → Handler (Unit {0})
check_started id prefix none = pure tt
check_started id prefix (some e) =
    if e.text == (operation_in_progress id).text
    then refuse 409 "operation already in progress for this server"
    else refuse 500 (prefix +++ e.text)

module _ (env : Env HandlerCall HandlerAnswer) (site : Site) where
  unfoldable pub is_server_name_taken : String → String → Handler (Outcome Error Bool)
  is_server_name_taken name exclude =
      call env list_server_configs >>= λ r. pure (taken_in name exclude r)

  -- The duplicate check, and its responses.
  unfoldable pub check_name : String → String → Handler (Unit {0})
  check_name name exclude = do
    taken_result ← is_server_name_taken name exclude
    taken ← expect 500 "failed to check existing servers" taken_result
    require (not taken) 409 ("a server named " +++ (site.quote name +++ " already exists"))

  unfoldable pub no_violation : Option ValidationError → Handler (Unit {0})
  no_violation none = pure tt
  no_violation (some e) = refuse 400 ("validation error: " +++ site.describe e)

  -- `ValidateServerConfig`, and its response.
  unfoldable pub check_valid : ServerConfig → Handler (Unit {0})
  check_valid config = no_violation (validate_server_config (some config))

  unfoldable pub check_version : String → Handler (Unit {0})
  check_version version = do
    offered ← is_minecraft_version_available env version
    require offered 400
        ("validation error: minecraft version " +++ (site.quote version +++ " is not available"))

  unfoldable pub check_pinned : ModpackConfig → Handler (Unit {0})
  check_pinned m = do
    offered ← is_modpack_version_available env m.project_id m.version_id
    require offered 400 (
        "validation error: modpack version "
        +++ (site.quote m.version_id +++ (" is not available for " +++ site.quote m.project_id)))

  unfoldable pub check_pack : String → Handler (Unit {0})
  check_pack id = do
    offered ← is_modpack_available env id
    require offered 400 ("validation error: modpack " +++ (site.quote id +++ " is not available"))

  unfoldable pub check_modpack : ModpackConfig → Handler (Unit {0})
  check_modpack m = do
    check_pack m.project_id
    if m.version_id == "" then pure tt else check_pinned m

  -- A pack-driven server names a pack that is offered, a vanilla server a version.
  unfoldable pub check_source : Option ModpackConfig → String → Handler (Unit {0})
  check_source (some m) version = check_modpack m
  check_source none version = check_version version

  -- The same without the check of the pack.
  unfoldable pub check_vanilla : Option ModpackConfig → String → Handler (Unit {0})
  check_vanilla (some m) version = pure tt
  check_vanilla none version = check_version version

  unfoldable pub check_machine_type : String → Handler (Unit {0})
  check_machine_type machine_type = do
    offered ← is_machine_type_available env machine_type
    require offered 400
        ("validation error: machine type " +++ (site.quote machine_type +++ " is not available"))

  unfoldable pub check_region : String → Handler (Unit {0})
  check_region region = do
    offered ← is_region_available env region
    require offered 400
        ("validation error: region " +++ (site.quote region +++ " is not available"))

  unfoldable pub check_zone : String → String → Handler (Unit {0})
  check_zone region zone = do
    offered ← is_zone_available env region zone
    require offered 400 (
        "validation error: zone "
        +++ (site.quote zone +++ (" is not available in region " +++ site.quote region)))

  unfoldable pub check_place : ServerConfig → Handler (Unit {0})
  check_place config = do
    check_machine_type config.machine_type
    check_region config.region
    check_zone config.region config.zone

  -- `GetDBConnection`
  unfoldable pub connect : Handler ControllerConfig
  connect = do
    connection ← call env get_db_connection
    expect 500 "failed to connect to database" connection
