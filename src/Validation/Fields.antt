-- ===== src/Validation/Fields.antt =====
-- What each validator of a single field accepts, said without the validator.
use metio.Base.Int.{ℤ, pos, ◌≤ℤ◌}
use metio.Types.{ShutdownSchedule}
use metio.Validation.Patterns.Zones.{IsSuffixed, zone_regex_iff}
use metio.Validation.Patterns.Times.{IsTimeOfDay, time_regex_iff}
use metio.Base.{◌≤◌, String, len, ◌≡◌, ◌↔◌, true, none, arith, ◌≢◌, eq_iff, cons-ne-empty}
use metio.Validation.Patterns.{region_regex, zone_regex, codes, time_regex}
use metio.Validation.Patterns.Names.{IsHostName, name_regex_iff}
use metio.Validation.{
  validate_server_name, validate_region, validate_zone, validate_machine_type, validate_disk_size,
  is_valid_timezone, schedule_error, contains,
}

pub record IsServerName (name : String) : Type 0 where
  pub at_least : 3 ≤ len name
  pub at_most : len name ≤ 24
  pub host : IsHostName name

-- The server names that are accepted are exactly the host names of 3 to 24 bytes.
pub validate_server_name_iff :
    (name : String) → (validate_server_name name ≡ none) ↔ IsServerName name
unfolding validate_server_name
validate_server_name_iff name =
    let iff = name_regex_iff name in
    (
      λ h. record { at_least = ground arith; at_most = ground arith; host = iff.0 (ground arith) },
      λ v. ground (arith, iff.1 v.host, v.at_least, v.at_most),
    )

abbrev pub MatchesRegion : String → Type 0
MatchesRegion region = region_regex region ≡ true

zone_ok_iff : (zone : String) → (validate_zone zone ≡ none) ↔ (zone_regex zone ≡ true)
unfolding validate_zone
zone_ok_iff String.[] = unfold zone_regex in (λ h. cc, λ h. cc)
zone_ok_iff (String.◌∷◌ c s) =
    let e = cons-ne-empty c s in (λ h. ground (arith, e), λ h. ground (arith, e))

pub region_ok_iff : (region : String) → (validate_region region ≡ none) ↔ MatchesRegion region
unfolding validate_region
region_ok_iff String.[] = unfold region_regex in (λ h. cc, λ h. cc)
region_ok_iff (String.◌∷◌ c s) =
    let e = cons-ne-empty c s in (λ h. ground (arith, e), λ h. ground (arith, e))

pub machine_type_ok_iff :
    (machine_type : String)
    → (validate_machine_type machine_type ≡ none) ↔ MatchesRegion machine_type
unfolding validate_machine_type
machine_type_ok_iff String.[] = unfold region_regex in (λ h. cc, λ h. cc)
machine_type_ok_iff (String.◌∷◌ c s) =
    let e = cons-ne-empty c s in (λ h. ground (arith, e), λ h. ground (arith, e))

abbrev pub IsZoneName : String → Type 0
IsZoneName zone = IsSuffixed (λ region. validate_region region ≡ none) zone

reword :
    {P Q : String → Type 0}
    → ((s : String) → P s → Q s)
    → (z : String) → IsSuffixed P z
    → IsSuffixed Q z
reword f z m = record {
  region = m.region;
  hyphen = m.hyphen;
  letter = m.letter;
  region_ok = f m.region m.region_ok;
  hyphen_ok = m.hyphen_ok;
  letter_ok = m.letter_ok;
  split = m.split;
}

-- The zones that are accepted are exactly the accepted regions with a hyphen and one lowercase
-- letter behind them.
pub validate_zone_iff : (zone : String) → (validate_zone zone ≡ none) ↔ IsZoneName zone
validate_zone_iff zone =
    let iff = zone_ok_iff zone in
    let shape = zone_regex_iff zone in
    (
      λ h. reword (λ s. (region_ok_iff s).1) zone (shape.0 (iff.0 h)),
      λ m. iff.1 (shape.1 (reword (λ s. (region_ok_iff s).0) zone m)),
    )

abbrev pub IsDiskSize : ℤ → Type 0
IsDiskSize disk = (pos 10 ≤ℤ disk) × (disk ≤ℤ pos 1000)

pub IsDiskSize-ok_iff : (disk : ℤ) → (validate_disk_size disk ≡ none) ↔ IsDiskSize disk
unfolding validate_disk_size
IsDiskSize-ok_iff disk = (λ h. ground arith, λ h. ground arith)

-- An enabled schedule that is accepted.
pub record IsSchedule (s : ShutdownSchedule) : Type 0 where
  pub time_of_day : IsTimeOfDay (codes s.time)
  pub timezone : is_valid_timezone s.timezone ≡ true

time_ne_empty : (s : String) → time_regex s ≡ true → s ≢ ""
unfolding time_regex
time_ne_empty s h e = cc (rw e at h)

timezone_ne_empty : (s : String) → is_valid_timezone s ≡ true → s ≢ ""
unfolding is_valid_timezone contains
timezone_ne_empty s h e = cc (rw e at h)

-- The checks of an enabled schedule pass exactly if its time is a time of day and its timezone is
-- one of the known ones.
pub IsSchedule-ok_iff : (s : ShutdownSchedule) → (schedule_error s ≡ none) ↔ IsSchedule s
unfolding schedule_error
IsSchedule-ok_iff s =
    let iff = time_regex_iff s.time in
    (
      λ h. record { time_of_day = iff.0 (ground arith); timezone = ground arith },
      λ v. ground (
        arith,
        iff.1 v.time_of_day,
        v.timezone,
        eq_iff s.time "",
        eq_iff s.timezone "",
        time_ne_empty s.time (iff.1 v.time_of_day),
        timezone_ne_empty s.timezone v.timezone,
      ),
    )
