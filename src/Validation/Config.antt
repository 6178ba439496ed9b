-- ===== src/Validation/Config.antt =====
-- What `ValidateServerConfig` accepts as a whole, and what a disabled schedule skips.
use metio.Base.{
  String, ◌≡◌, ◌≢◌, ◌↔◌, ◌⊎◌, false, Option, none, some, arith, eq_iff, inl, inr, if◌then◌else◌,
  refl, Bool, true, not,
}
use metio.Types.{ModpackConfig, ShutdownSchedule, BackupConfig, ServerConfig}
use metio.Validation.{
  ValidationError, ◌and_then◌, validate_modpack_config, backup_config_error, version_error,
  validate_payload, validate_from_schedule, validate_server_config, schedule_error,
}
use metio.Validation.Fields.{
  IsServerName, MatchesRegion, IsZoneName, IsDiskSize, IsSchedule, validate_server_name_iff,
  region_ok_iff, machine_type_ok_iff, validate_zone_iff, IsDiskSize-ok_iff, IsSchedule-ok_iff,
}

-- A server is vanilla and names a version, or it is pack-driven and names none.
abbrev pub IsVersionRule : Option ModpackConfig → String → Type 0
IsVersionRule none version = version ≢ ""
IsVersionRule (some m) version = version ≡ ""

-- What is checked after the shutdown schedule.
pub record IsPayload (c : ServerConfig) : Type 0 where
  pub backup : backup_config_error c.backup ≡ none
  pub modpack : validate_modpack_config c.modpack ≡ none
  pub version : IsVersionRule c.modpack c.minecraft_version

-- The schedule and what comes after it: a schedule that is present and disabled ends the checks.
abbrev pub IsFromSchedule : Option ShutdownSchedule → Type 0 → Type 0
IsFromSchedule none payload = payload
IsFromSchedule (some s) payload = (s.enabled ≡ false) ⊎ (IsSchedule s × payload)

pub record IsServerConfig (c : ServerConfig) : Type 0 where
  pub name : IsServerName c.name
  pub region : MatchesRegion c.region
  pub zone : IsZoneName c.zone
  pub machine_type : MatchesRegion c.machine_type
  pub disk_size : IsDiskSize c.disk_size_gb
  pub from_schedule : IsFromSchedule c.shutdown_schedule (IsPayload c)

version_ok_iff :
    (m : Option ModpackConfig) (version : String)
    → (version_error m version ≡ none) ↔ IsVersionRule m version
unfolding version_error
version_ok_iff none version =
    let iff = eq_iff version "" in (λ h. ground (arith, iff), λ h. ground (arith, iff))
version_ok_iff (some m) version =
    let iff = eq_iff version "" in (λ h. ground (arith, iff), λ h. ground (arith, iff))

IsPayload-ok_iff : (c : ServerConfig) → (validate_payload c ≡ none) ↔ IsPayload c
unfolding validate_payload
IsPayload-ok_iff c =
    let iff = version_ok_iff c.modpack c.minecraft_version in
    (
      λ h. record { backup = ground arith; modpack = ground arith; version = iff.0 (ground arith) },
      λ v. ground (arith, iff.1 v.version, v.backup, v.modpack),
    )

and_then-left : (a b : Option ValidationError) → (a and_then b) ≡ none → a ≡ none
and_then-left a b h = ground arith

and_then-right : (a b : Option ValidationError) → (a and_then b) ≡ none → b ≡ none
and_then-right a b h = ground arith

and_then_none : (a b : Option ValidationError) → a ≡ none → b ≡ none → (a and_then b) ≡ none
and_then_none a b h k = ground arith

-- The branch on `Enabled`, over any two checks and what they establish.
enabled_iff :
    (enabled : Bool) (a b : Option ValidationError) (P Q : Type 0)
    → (a ≡ none) ↔ P
    → (b ≡ none) ↔ Q
    → ((if not enabled then none else a and_then b) ≡ none) ↔ ((enabled ≡ false) ⊎ (P × Q))
enabled_iff false a b P Q p q = (λ h. inl refl, λ v. refl)
enabled_iff true a b P Q p q = (
  λ h. inr (p.0 (and_then-left a b h), q.0 (and_then-right a b h)),
  λ v. elim v [ inl off ↦ cc | inr (x, y) ↦ and_then_none a b (p.1 x) (q.1 y) ],
)

from_schedule_ok_iff :
    (o : Option ShutdownSchedule) (rest : Option ValidationError) (payload : Type 0)
    → (rest ≡ none) ↔ payload
    → (validate_from_schedule o rest ≡ none) ↔ IsFromSchedule o payload
unfolding validate_from_schedule
from_schedule_ok_iff none rest payload iff = iff
from_schedule_ok_iff (some s) rest payload iff =
    enabled_iff s.enabled (schedule_error s) rest (IsSchedule s) payload (IsSchedule-ok_iff s) iff

split_six :
    (a b c d e f : Option ValidationError)
    → (a and_then b and_then c and_then d and_then e and_then f) ≡ none
    → (a ≡ none) × (b ≡ none) × (c ≡ none) × (d ≡ none) × (e ≡ none) × (f ≡ none)
split_six a b c d e f h = ground arith

join_six :
    (a b c d e f : Option ValidationError)
    → a ≡ none
    → b ≡ none
    → c ≡ none
    → d ≡ none
    → e ≡ none
    → f ≡ none
    → (a and_then b and_then c and_then d and_then e and_then f) ≡ none
join_six a b c d e f p q r s t u = ground arith

-- A config is accepted exactly if its name is a host name of 3 to 24 bytes, its region and machine
-- type match the pattern, its zone is such a region with a letter behind, its disk has 10 to 1000
-- GB, and either its schedule is present and disabled, or an enabled schedule has a time of day
-- and a known timezone, the backup and modpack settings are accepted, and it has a version exactly
-- if it has no modpack.
pub validate_server_config_iff :
    (c : ServerConfig) → (validate_server_config (some c) ≡ none) ↔ IsServerConfig c
unfolding validate_server_config
validate_server_config_iff c =
    let name = validate_server_name_iff c.name in
    let region = region_ok_iff c.region in
    let zone = validate_zone_iff c.zone in
    let machine_type = machine_type_ok_iff c.machine_type in
    let disk = IsDiskSize-ok_iff c.disk_size_gb in
    let later = from_schedule_ok_iff c.shutdown_schedule _ (IsPayload c) (IsPayload-ok_iff c) in
    (
      λ h.
          let (n, r, z, m, d, l) = split_six _ _ _ _ _ _ h in
          record {
            name = name.0 n;
            region = region.0 r;
            zone = zone.0 z;
            machine_type = machine_type.0 m;
            disk_size = disk.0 d;
            from_schedule = later.0 l;
          },
      λ v.
          join_six _ _ _ _ _ _ (name.1 v.name) (region.1 v.region) (zone.1 v.zone)
            (machine_type.1 v.machine_type) (disk.1 v.disk_size) (later.1 v.from_schedule),
    )

-- With a schedule that is present and disabled, the verdict does not depend on the backup, modpack
-- and version settings: none of them is checked.
pub disabled_schedule_skips :
    (c : ServerConfig) (s : ShutdownSchedule) (b : Option BackupConfig) (m : Option ModpackConfig)
    (version : String)
    → c.shutdown_schedule ≡ some s
    → s.enabled ≡ false
    → validate_server_config (some c)
      ≡ validate_server_config
          (some (record c { backup = b; modpack = m; minecraft_version = version }))
unfolding validate_server_config
disabled_schedule_skips c s b m version h k = ground arith
