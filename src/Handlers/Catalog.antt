-- ===== src/Handlers/Catalog.antt =====
-- The backups: `HandleBackupReport`, `ListServerBackups` and `ListAllBackups` of
-- internal/handlers/servers/backup_catalog.go.
use metio.Base.{
  ltb, leb, beq, if◌then◌else◌, length, take, drop, ◌+++◌, ℕ, ◌+◌, ◌-◌, code, String, Bool, not,
  ◌&&◌, ◌||◌, Option, none, some, List, [], ◌∷◌, map, ◌==◌,
}
use metio.Base.Int.{ℤ, pos, negsuc, int_ltb}
use metio.Types.{Time, backup_status_completed, backup_status_failed, Backup, ServerConfig}
use metio.Exec.{pure, ◌>>=◌, ◌>>◌, Env, call, now}
use metio.Handlers.{
  HandlerCall, list_backups, list_backups_by_server, upsert_backup, verify_token, HandlerAnswer,
  Site, Handler, refuse, expect, no_error, require, decode,
}
use metio.Handlers.Checks.{connect}
use metio.Handlers.Update.{read_config}
use metio.Handlers.Responses.{BackupResponse, to_backup_response}

-- `reportRequest`
pub record ReportRequest : Type 0 where
  pub snapshot_id : String
  pub repository_prefix : String
  pub duration_seconds : ℤ
  pub file_count : ℤ
  pub repository_size : ℤ
  pub minecraft_version : String
  pub status : String

-- `strings.HasPrefix` and `strings.TrimPrefix`: what follows the prefix, if the text starts with it.
unfoldable pub after_prefix : String → String → Option String
after_prefix String.[] s = some s
after_prefix (String.◌∷◌ p ps) String.[] = none
after_prefix (String.◌∷◌ p ps) (String.◌∷◌ c s) =
    let rest = after_prefix ps s in if beq (code p) (code c) then rest else none

abbrev pub restic_prefix : String → String
restic_prefix server_id = "servers/" +++ (server_id +++ "/restic/")

-- `status != "COMPLETED" && status != "FAILED"`, negated.
unfoldable pub is_report_status : String → Bool
is_report_status s = s == backup_status_completed || s == backup_status_failed

-- The record of a reported backup, made at `time`.
unfoldable pub reported_backup : String → ServerConfig → ReportRequest → Time → Backup
reported_backup server_id config req time = record {
  id = server_id +++ (":" +++ req.snapshot_id);
  server_id = server_id;
  server_name = config.name;
  snapshot_id = req.snapshot_id;
  repository_prefix = req.repository_prefix;
  created_at = time;
  duration_seconds = req.duration_seconds;
  file_count = req.file_count;
  repository_size = req.repository_size;
  minecraft_version = req.minecraft_version;
  status = req.status;
  server_deleted_at = none;
  retention_until = none;
  source_config = some (record {
    region = config.region;
    zone = config.zone;
    machine_type = config.machine_type;
    disk_size_gb = config.disk_size_gb;
    minecraft_version = config.minecraft_version;
    modpack = config.modpack;
  });
}

-- The response to a report leaves out the times of a deletion and the source config.
unfoldable pub report_response : Site → Backup → BackupResponse
report_response site b = record (to_backup_response site b) {
  server_deleted_at = "";
  retention_until = "";
  source_config = none;
}

-- What `parseSortParams` reads from the query.
pub record SortParams : Type 0 where
  pub sort_by : String
  pub sort_dir : String
  pub limit : ℕ
  pub offset : ℕ
  pub server : String

-- `err == nil && parsed > 0`, and `>= 0`.
unfoldable pub positive_or : ℕ → Option ℤ → ℕ
positive_or d none = d
positive_or d (some (negsuc n)) = d
positive_or d (some (pos n)) = if ltb 0 n then n else d

unfoldable pub natural_or : ℕ → Option ℤ → ℕ
natural_or d none = d
natural_or d (some (negsuc n)) = d
natural_or d (some (pos n)) = n

-- `if l := …; l != ""`
unfoldable pub atoi_of : Site → String → Option ℤ
atoi_of site s = if s == "" then none else site.atoi s

unfoldable pub parse_sort_params : Site → (String → String) → SortParams
parse_sort_params site query = record {
  sort_by = if query "sort" == "" then "created_at" else query "sort";
  sort_dir = if query "dir" == "" then "desc" else query "dir";
  limit = positive_or 25 (atoi_of site (query "limit"));
  offset = natural_or 0 (atoi_of site (query "offset"));
  server = query "server";
}

-- The filter on the server, by its id or its name.
unfoldable pub of_server : String → List Backup → List Backup
of_server server [] = []
of_server server (b ∷ backups) =
    let rest = of_server server backups in
    if b.server_id == server || b.server_name == server then b ∷ rest else rest

unfoldable pub filter_backups : String → List Backup → List Backup
filter_backups server backups = if server == "" then backups else of_server server backups

-- The comparison that is passed to `sort.SliceStable`.
unfoldable pub is_less : String → Backup → Backup → Bool
is_less sort_by a b =
    if sort_by == "duration_seconds"
    then int_ltb a.duration_seconds b.duration_seconds
    else if sort_by == "repository_size"
    then int_ltb a.repository_size b.repository_size
    else ltb a.created_at b.created_at

unfoldable pub comes_before : SortParams → Backup → Backup → Bool
comes_before params a b =
    if params.sort_dir == "asc"
    then is_less params.sort_by a b
    else not (is_less params.sort_by a b)

-- The largest `int`, and the sum of two numbers that are no larger, with its wrap-around.
abbrev pub max_int : ℕ
max_int = 9223372036854775807

unfoldable pub int_add : ℕ → ℕ → ℤ
int_add a b = if leb (a + b) max_int then pos (a + b) else negsuc (18446744073709551615 - (a + b))

unfoldable pub clamp : ℕ → ℕ → ℕ
clamp total n = if ltb total n then total else n

-- `end`, and the page `backups[offset:end]`; `none` where Go panics on the bounds.
unfoldable pub end_of : ℕ → ℤ → ℤ
end_of total (negsuc n) = negsuc n
end_of total (pos n) = pos (clamp total n)

unfoldable pub slice : {A : Type 0} → ℕ → ℤ → List A → Option (List A)
slice start (negsuc n) xs = none
slice start (pos end) xs =
    if leb start end && leb end (length xs) then some (take (end - start) (drop start xs)) else none

unfoldable pub page_of : {A : Type 0} → ℕ → ℕ → List A → Option (List A)
page_of offset limit xs =
    let start = clamp (length xs) offset in
    slice start (end_of (length xs) (int_add start limit)) xs

-- The backups that match, in the order of the request; `sort_stable` is `sort.SliceStable`.
unfoldable pub sorted_backups :
    ((Backup → Backup → Bool) → List Backup → List Backup) → SortParams → List Backup → List Backup
sorted_backups sort_stable params backups =
    sort_stable (comes_before params) (filter_backups params.server backups)

module _ (env : Env HandlerCall HandlerAnswer) (site : Site) where
  -- The agent's token, and the subject that it names.
  unfoldable pub check_bearer : ServerConfig → Option String → Handler (Unit {0})
  check_bearer config none = refuse 401 "missing authorization header"
  check_bearer config (some token) = do
    verified ← call env (verify_token token)
    subject ← expect 401 "invalid or expired token" verified
    require (subject == config.name) 403 "token does not match instance"

  unfoldable pub check_agent : String → ServerConfig → Handler (Unit {0})
  check_agent header config = check_bearer config (after_prefix "Bearer " header)

  unfoldable pub handle_backup_report :
      String → String → Option ReportRequest → Handler BackupResponse
  handle_backup_report server_id header body = do
    require (not (server_id == "")) 400 "server id is required"
    req ← decode body
    connect env site
    config ← read_config env site server_id
    check_agent header config
    require (req.repository_prefix == restic_prefix server_id) 400 "invalid repository prefix"
    require (is_report_status req.status) 400 "invalid status"
    time ← now
    stored ← call env (upsert_backup (reported_backup server_id config req time))
    no_error 500 "failed to persist backup record" stored
    pure (report_response site (reported_backup server_id config req time))

  unfoldable pub list_server_backups : String → Handler (List BackupResponse)
  list_server_backups server_id = do
    require (not (server_id == "")) 400 "server id is required"
    connect env site
    read_config env site server_id
    listed ← call env (list_backups_by_server server_id)
    backups ← expect 500 "failed to list backups" listed
    pure (map (to_backup_response site) backups)

  -- The page and the number of all backups that match. A panic is an error without a code.
  unfoldable pub list_all_backups :
      ((Backup → Backup → Bool) → List Backup → List Backup)
      → (String → String)
      → Handler (List BackupResponse × ℕ)
  list_all_backups sort_stable query = do
    connect env site
    let params = parse_sort_params site query
    listed ← call env list_backups
    backups ← expect 500 "failed to list backups" listed
    let sorted = sorted_backups sort_stable params backups
    elim (page_of params.offset params.limit sorted) [
      | none ↦ refuse 0 "slice bounds out of range"
      | some page ↦ pure (map (to_backup_response site) page, length sorted)
    ]
