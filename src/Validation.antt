-- ===== src/Validation.antt =====
-- internal/db/validation.go and the `IsValid` methods of internal/db/server_config.go. An `error`
-- that may be nil is an `Option`, so that `none` is a passed validation; an error is the data that
-- its message is formatted from.
pub mod Patterns
pub mod Fields
pub mod Config
use metio.Base.{
  ltb, if◌then◌else◌, ℕ, String, len, Bool, true, false, not, ◌&&◌, ◌||◌, Option, none, some, List,
  [], ◌∷◌, ◌==◌,
}
use metio.Base.Int.{ℤ, pos, int_ltb}
use metio.Types.{modrinth_platform, ModpackConfig, ShutdownSchedule, BackupConfig, ServerConfig}
use metio.Validation.Patterns.{name_regex, region_regex, zone_regex, modpack_id_regex, time_regex}

pub data ValidationError : Type 0 where
  config_nil : ValidationError
  name_length : ℕ → ValidationError
  name_format : ValidationError
  region_required : ValidationError
  region_format : String → ValidationError
  zone_required : ValidationError
  zone_format : String → ValidationError
  machine_type_required : ValidationError
  machine_type_format : String → ValidationError
  disk_too_small disk_too_large : ℤ → ValidationError
  schedule_incomplete schedule_time_format : ValidationError
  invalid_timezone : String → ValidationError
  interval_negative keep_negative : ℤ → ValidationError
  keep_unit_required : ValidationError
  keep_unit_unknown : String → ValidationError
  modpack_platform : String → ValidationError
  modpack_project_required : ValidationError
  modpack_project_format modpack_version_format : String → ValidationError
  version_with_modpack version_required : ValidationError

infixr 20 ◌and_then◌
-- `if err := a; err != nil { return err }`, and then the rest.
abbrev pub ◌and_then◌ : Option ValidationError → Option ValidationError → Option ValidationError
some e and_then rest = some e
none and_then rest = rest

-- `if test { return err }`, and then the rest.
abbrev pub reject_if : Bool → ValidationError → Option ValidationError → Option ValidationError
reject_if test e rest = if test then some e else rest

-- Membership of a text in a list: `slices.Contains`, a loop with `break`, or a map of `true`s.
unfoldable pub contains : List String → String → Bool
contains [] s = false
contains (x ∷ xs) s = x == s || contains xs s

unfoldable pub validate_server_name : String → Option ValidationError
validate_server_name name =
    reject_if (ltb (len name) 3 || ltb 24 (len name)) (name_length (len name))
      (reject_if (not (name_regex name)) name_format none)

unfoldable pub validate_region : String → Option ValidationError
validate_region region =
    reject_if (region == "") region_required
      (reject_if (not (region_regex region)) (region_format region) none)

unfoldable pub validate_zone : String → Option ValidationError
validate_zone zone =
    reject_if (zone == "") zone_required (reject_if (not (zone_regex zone)) (zone_format zone) none)

-- The pattern of a machine type is that of a region.
unfoldable pub validate_machine_type : String → Option ValidationError
validate_machine_type machine_type =
    reject_if (machine_type == "") machine_type_required
      (reject_if (not (region_regex machine_type)) (machine_type_format machine_type) none)

unfoldable pub validate_disk_size : ℤ → Option ValidationError
validate_disk_size disk =
    reject_if (int_ltb disk (pos 10)) (disk_too_small disk)
      (reject_if (int_ltb (pos 1000) disk) (disk_too_large disk) none)

-- The fields of a modpack reference that is not nil.
unfoldable pub validate_modpack_fields : ModpackConfig → Option ValidationError
validate_modpack_fields m =
    reject_if (not (m.platform == modrinth_platform)) (modpack_platform m.platform) (
      reject_if (m.project_id == "") modpack_project_required (
        reject_if (not (modpack_id_regex m.project_id)) (modpack_project_format m.project_id) (
          reject_if (not (m.version_id == "") && not (modpack_id_regex m.version_id))
            (modpack_version_format m.version_id) none)))

unfoldable pub validate_modpack_config : Option ModpackConfig → Option ValidationError
unfolding validate_modpack_fields
validate_modpack_config none = none
validate_modpack_config (some m) = validate_modpack_fields m

abbrev pub backup_keep_units : List String
backup_keep_units = "hourly" ∷ "daily" ∷ "weekly" ∷ "monthly" ∷ "yearly" ∷ []

-- `(*BackupConfig).IsValid`, of a config that is not nil.
unfoldable pub backup_fields_error : BackupConfig → Option ValidationError
backup_fields_error b =
    reject_if (int_ltb b.backup_interval_hours (pos 0)) (interval_negative b.backup_interval_hours)
      (reject_if (int_ltb b.keep (pos 0)) (keep_negative b.keep) (
        reject_if (int_ltb (pos 0) b.keep && b.keep_unit == "") keep_unit_required (
          reject_if (not (b.keep_unit == "") && not (contains backup_keep_units b.keep_unit))
            (keep_unit_unknown b.keep_unit) none)))

-- `(*BackupConfig).IsValid`.
unfoldable pub backup_config_error : Option BackupConfig → Option ValidationError
unfolding backup_fields_error
backup_config_error none = none
backup_config_error (some b) = backup_fields_error b

-- `(*ShutdownSchedule).IsValid`.
unfoldable pub schedule_is_valid : Option ShutdownSchedule → Bool
schedule_is_valid none = true
schedule_is_valid (some s) =
    if not s.enabled then true else not (s.time == "") && not (s.timezone == "")

-- `commonTimezones` of `isValidTimezone`.
abbrev pub common_timezones : List String
common_timezones =
    "Africa/Cairo" ∷ "Africa/Johannesburg" ∷ "America/Anchorage" ∷ "America/Argentina/Buenos_Aires"
    ∷ "America/Bogota" ∷ "America/Chicago" ∷ "America/Denver" ∷ "America/Halifax"
    ∷ "America/Los_Angeles" ∷ "America/Mexico_City" ∷ "America/New_York" ∷ "America/Phoenix"
    ∷ "America/Santiago" ∷ "America/Sao_Paulo" ∷ "America/Toronto" ∷ "America/Vancouver"
    ∷ "Asia/Baghdad" ∷ "Asia/Bangkok" ∷ "Asia/Dubai" ∷ "Asia/Hong_Kong" ∷ "Asia/Jakarta"
    ∷ "Asia/Jerusalem" ∷ "Asia/Karachi" ∷ "Asia/Kolkata" ∷ "Asia/Kuala_Lumpur" ∷ "Asia/Manila"
    ∷ "Asia/Seoul" ∷ "Asia/Shanghai" ∷ "Asia/Singapore" ∷ "Asia/Taipei" ∷ "Asia/Tokyo"
    ∷ "Australia/Melbourne" ∷ "Australia/Perth" ∷ "Australia/Sydney" ∷ "Europe/Amsterdam"
    ∷ "Europe/Athens" ∷ "Europe/Berlin" ∷ "Europe/Brussels" ∷ "Europe/Budapest"
    ∷ "Europe/Copenhagen" ∷ "Europe/Dublin" ∷ "Europe/Helsinki" ∷ "Europe/Istanbul"
    ∷ "Europe/Lisbon" ∷ "Europe/London" ∷ "Europe/Madrid" ∷ "Europe/Moscow" ∷ "Europe/Oslo"
    ∷ "Europe/Paris" ∷ "Europe/Prague" ∷ "Europe/Rome" ∷ "Europe/Stockholm" ∷ "Europe/Vienna"
    ∷ "Europe/Warsaw" ∷ "Europe/Zurich" ∷ "Pacific/Auckland" ∷ "Pacific/Honolulu" ∷ "US/Alaska"
    ∷ "US/Arizona" ∷ "US/Central" ∷ "US/Eastern" ∷ "US/Hawaii" ∷ "US/Mountain" ∷ "US/Pacific"
    ∷ "UTC" ∷ []

unfoldable pub is_valid_timezone : String → Bool
is_valid_timezone tz = contains common_timezones tz

-- The checks of an enabled schedule, from its time and timezone on.
unfoldable pub schedule_error : ShutdownSchedule → Option ValidationError
schedule_error s = reject_if (s.time == "" || s.timezone == "") schedule_incomplete (
    reject_if (not (time_regex s.time)) schedule_time_format
      (reject_if (not (is_valid_timezone s.timezone)) (invalid_timezone s.timezone) none))

-- The rule that a server is either vanilla, with a version, or pack-driven, without one.
unfoldable pub version_error : Option ModpackConfig → String → Option ValidationError
version_error (some m) version = reject_if (not (version == "")) version_with_modpack none
version_error none version = reject_if (version == "") version_required none

-- The checks after the shutdown schedule.
unfoldable pub validate_payload : ServerConfig → Option ValidationError
validate_payload c =
    backup_config_error c.backup
    and_then validate_modpack_config c.modpack
    and_then version_error c.modpack c.minecraft_version

-- The checks from the shutdown schedule on. A schedule that is not enabled returns nil at once.
unfoldable pub validate_from_schedule :
    Option ShutdownSchedule → Option ValidationError → Option ValidationError
validate_from_schedule none rest = rest
validate_from_schedule (some s) rest =
    if not s.enabled then none else schedule_error s and_then rest

-- `ValidateServerConfig`, of a config that is not nil.
unfoldable pub validate_fields : ServerConfig → Option ValidationError
unfolding validate_from_schedule validate_payload
validate_fields c =
    validate_server_name c.name
    and_then validate_region c.region
    and_then validate_zone c.zone
    and_then validate_machine_type c.machine_type
    and_then validate_disk_size c.disk_size_gb
    and_then validate_from_schedule c.shutdown_schedule (validate_payload c)

-- `ValidateServerConfig`.
unfoldable pub validate_server_config : Option ServerConfig → Option ValidationError
unfolding validate_fields
validate_server_config none = some config_nil
validate_server_config (some c) = validate_fields c
