-- ===== src/Tests/Configs.antt =====
-- Examples of the validation, of the program configs and of the wire names.
use metio.Base.{◌≡◌, refl, ◌↔◌, none, some}
use metio.Validation.{validate_server_name, validate_server_config}
use metio.Validation.Fields.{IsServerName, validate_server_name_iff}
use metio.Validation.Config.{IsServerConfig, validate_server_config_iff, disabled_schedule_skips}
use metio.Tests.{paused, survival, idle_survival}

validate_server_name_iff_example :
    (validate_server_name "survival" ≡ none) ↔ IsServerName "survival"
validate_server_name_iff_example = validate_server_name_iff "survival"

validate_server_config_iff_example :
    (validate_server_config (some survival) ≡ none) ↔ IsServerConfig survival
validate_server_config_iff_example = validate_server_config_iff survival

disabled_schedule_skips_example :
    validate_server_config (some idle_survival)
    ≡ validate_server_config
        (some (record idle_survival { backup = none; modpack = none; minecraft_version = "" }))
disabled_schedule_skips_example =
    disabled_schedule_skips idle_survival paused none none "" refl refl
