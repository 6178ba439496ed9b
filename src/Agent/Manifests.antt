-- ===== src/Agent/Manifests.antt =====
-- The relay of backup manifests: cmd/machine-agent/backups.go, and the manifest of
-- internal/backupmanifest/manifest.go. The directory, the server's version and the controller are
-- calls. The counters of the trace are left out.
use metio.Base.{
  beq, if◌then◌else◌, ℕ, String, ◌≡◌, Bool, true, false, ◌||◌, Option, none, some, List, [], ◌∷◌,
  ◌==◌, sym, ap, ◌+◌, refl, ◌+++◌,
}
use metio.Base.Int.{ℤ}
use metio.Exec.{Error, wrap, Outcome, ok, err, Exec, pure, raise, ◌>>=◌, Env, World, call, continue}

pub record Manifest : Type 0 where
  pub timestamp : String
  pub snapshot_id : String
  pub server_id : String
  pub repository_prefix : String
  pub duration_seconds : ℤ
  pub file_count : ℤ
  pub repository_size : ℤ
  pub backup_method : String
  pub status : String

-- `agentclient.BackupReport`
pub record BackupReport : Type 0 where
  pub snapshot_id : String
  pub repository_prefix : String
  pub duration_seconds : ℤ
  pub file_count : ℤ
  pub repository_size : ℤ
  pub minecraft_version : String
  pub status : String

-- An error of the client: its text, and the code of an `HTTPStatusError`.
pub record SubmitError : Type 0 where
  pub text : String
  pub status_code : Option ℕ

pub data ManifestCall : Type 0 where
  -- the paths in the directory that match the pattern
  scan_manifests : String → ManifestCall
  -- `getMinecraftVersion`, whose error is not looked at
  read_minecraft_version : ManifestCall
  -- `backupmanifest.Load`, `MarkInvalid`, `MarkRejected` and `os.Remove`, by path
  load_manifest mark_invalid mark_rejected remove_manifest : String → ManifestCall
  -- `SubmitBackupReport`
  submit_backup_report : String → BackupReport → ManifestCall

abbrev pub ManifestAnswer : ManifestCall → Type 0
ManifestAnswer (scan_manifests _) = Outcome Error (List String)
ManifestAnswer read_minecraft_version = String
ManifestAnswer (load_manifest _) = Outcome Error Manifest
ManifestAnswer (submit_backup_report _ _) = Option SubmitError
ManifestAnswer _ = Option Error

abbrev pub Relay : Type 0 → Type 0
Relay A = Exec Error (World ManifestCall (Unit {0})) A

unfoldable pub is_permanent_rejection : SubmitError → Bool
is_permanent_rejection e = elim e.status_code [ none ↦ false | some status ↦ beq status 400 ]

unfoldable pub lacks_fields : Manifest → Bool
lacks_fields m = m.server_id == "" || (m.snapshot_id == "" || m.repository_prefix == "")

unfoldable pub report_of : String → Manifest → BackupReport
report_of version m = record {
  snapshot_id = m.snapshot_id;
  repository_prefix = m.repository_prefix;
  duration_seconds = m.duration_seconds;
  file_count = m.file_count;
  repository_size = m.repository_size;
  minecraft_version = version;
  status = m.status;
}

module _ (env : Env ManifestCall ManifestAnswer) where
  -- `quarantineManifest` with `MarkInvalid`, and with `MarkRejected`: a failure is logged.
  unfoldable pub quarantine_invalid : String → Relay (Unit {0})
  quarantine_invalid path = call env (mark_invalid path) >>= λ marked. pure tt

  unfoldable pub quarantine_rejected : String → Relay (Unit {0})
  quarantine_rejected path = call env (mark_rejected path) >>= λ marked. pure tt

  -- The switch on the answer of the controller.
  unfoldable pub settle : String → Option SubmitError → Relay (Unit {0})
  settle path none = call env (remove_manifest path) >>= λ removed. pure tt
  settle path (some e) = if is_permanent_rejection e then quarantine_rejected path else pure tt

  unfoldable pub relay_loaded : String → String → Outcome Error Manifest → Relay (Unit {0})
  relay_loaded version path (err e) = quarantine_invalid path
  relay_loaded version path (ok m) =
      if lacks_fields m
      then quarantine_rejected path
      else call env (submit_backup_report m.server_id (report_of version m)) >>= settle path

  -- The loop over the paths.
  unfoldable pub relay_manifests : String → List String → Relay (Unit {0})
  relay_manifests version [] = pure tt
  relay_manifests version (path ∷ paths) =
      (call env (load_manifest path) >>= relay_loaded version path) >>= λ _.
      relay_manifests version paths

  -- `processBackupManifests`, from the matches on.
  unfoldable pub process_matches : String → Outcome Error (List String) → Relay (Unit {0})
  process_matches dir (err e) = raise (wrap ("scan " +++ dir +++ ": ") e)
  process_matches dir (ok []) = pure tt
  process_matches dir (ok (path ∷ paths)) = call env read_minecraft_version >>= λ version.
      relay_manifests (if version == "" then "Unknown" else version) (path ∷ paths)

  -- The argument is the value of `MANIFEST_DIR`.
  unfoldable pub process_backup_manifests : String → Relay (Unit {0})
  process_backup_manifests manifest_dir =
      let dir = if manifest_dir == "" then "/manifests" else manifest_dir in
      call env (scan_manifests dir) >>= process_matches dir

  -- The manifest was loaded, and the controller has acknowledged the report made from it, right
  -- before.
  abbrev pub IsAcknowledged : String → List ManifestCall → Type 0
  IsAcknowledged path h =
      (m : Manifest) × (version : String) × (before : List ManifestCall) × (h
        ≡ submit_backup_report m.server_id (report_of version m) ∷ load_manifest path ∷ before)
      × (env.answer before (load_manifest path) ≡ ok m)
      × (env.answer (load_manifest path ∷ before)
            (submit_backup_report m.server_id (report_of version m))
          ≡ none)

  abbrev pub IsJustified : ManifestCall → List ManifestCall → Type 0
  IsJustified (remove_manifest path) h = IsAcknowledged path h
  IsJustified _ h = Unit

  -- Every deletion of the log followed an acknowledgement.
  abbrev pub AreJustified : List ManifestCall → Type 0
  AreJustified [] = Unit
  AreJustified (c ∷ h) = IsJustified c h × AreJustified h

  abbrev Log : Type 0
  Log = World ManifestCall (Unit {0})

  rejected_or_kept :
      (path : String) (rejected : Bool) (w : Log)
      → AreJustified w.history
      → AreJustified ((if rejected then quarantine_rejected path else pure tt) w).1.history
  unfolding quarantine_rejected call ◌>>=◌
  rejected_or_kept path true w h = (tt, h)
  rejected_or_kept path false w h = h

  settle-AreJustified :
      (version path : String) (m : Manifest) (before : List ManifestCall) (r : Option SubmitError)
      (w : Log)
      → w.history
        ≡ submit_backup_report m.server_id (report_of version m) ∷ load_manifest path ∷ before
      → env.answer before (load_manifest path) ≡ ok m
      → env.answer
          (load_manifest path ∷ before)
          (submit_backup_report m.server_id (report_of version m))
        ≡ r
      → AreJustified w.history
      → AreJustified (settle path r w).1.history
  unfolding settle quarantine_rejected call ◌>>=◌
  settle-AreJustified version path m before none w e l a h = ((m, version, before, e, l, a), h)
  settle-AreJustified version path m before (some f) w e l a h =
      rejected_or_kept path (is_permanent_rejection f) w h

  submitted-AreJustified :
      (version path : String) (before : List ManifestCall) (m : Manifest) (lacks : Bool) (w : Log)
      → w.history ≡ load_manifest path ∷ before
      → env.answer before (load_manifest path) ≡ ok m
      → AreJustified w.history
      → AreJustified
          ((if lacks
              then quarantine_rejected path
              else call env (submit_backup_report m.server_id (report_of version m))
                >>= settle path)
            w).1.history
  unfolding quarantine_rejected call ◌>>=◌
  submitted-AreJustified version path before m true w p l h = (tt, h)
  submitted-AreJustified version path before m false w p l h =
      let c = submit_backup_report m.server_id (report_of version m) in
      settle-AreJustified version path m before (env.answer w.history c) _ (ap (λ x. c ∷ x) p) l
        (ap (λ x. env.answer x c) (sym p)) (tt, h)

  loaded-AreJustified :
      (version path : String) (before : List ManifestCall) (r : Outcome Error Manifest) (w : Log)
      → w.history ≡ load_manifest path ∷ before
      → env.answer before (load_manifest path) ≡ r
      → AreJustified w.history
      → AreJustified (relay_loaded version path r w).1.history
  unfolding relay_loaded quarantine_invalid quarantine_rejected call ◌>>=◌
  loaded-AreJustified version path before (err e) w p l h = (tt, h)
  loaded-AreJustified version path before (ok m) w p l h =
      submitted-AreJustified version path before m (lacks_fields m) w p l h

  continue-AreJustified :
      (rest : Relay (Unit {0})) (r : Outcome Error (Unit {0})) (w : Log)
      → AreJustified w.history
      → AreJustified (rest w).1.history
      → AreJustified (continue r (λ _. rest) w).1.history
  continue-AreJustified rest (ok a) w h k = k
  continue-AreJustified rest (err e) w h k = h

  relay-AreJustified :
      (version : String) (paths : List String) (w : Log)
      → AreJustified w.history
      → AreJustified (relay_manifests version paths w).1.history
  unfolding relay_manifests ◌>>=◌ call
  relay-AreJustified version [] w h = h
  relay-AreJustified version (path ∷ paths) w h =
      let w' =
        (relay_loaded version path (env.answer w.history (load_manifest path)) (record w {
          history = load_manifest path ∷ w.history;
          clock = w.clock + env.latency w.history;
        })) in
      let h' = loaded-AreJustified version path w.history _ _ refl refl (tt, h) in
      continue-AreJustified (relay_manifests version paths) w'.0 w'.1 h'
        (relay-AreJustified version paths w'.1 h')

  process-AreJustified :
      (dir : String) (r : Outcome Error (List String)) (w : Log)
      → AreJustified w.history
      → AreJustified (process_matches dir r w).1.history
  unfolding process_matches ◌>>=◌ call
  process-AreJustified dir (err e) w h = h
  process-AreJustified dir (ok []) w h = h
  process-AreJustified dir (ok (path ∷ paths)) w h = relay-AreJustified _ (path ∷ paths) _ (tt, h)

-- The relay deletes a manifest only after the controller has acknowledged it: whatever the calls
-- answer, every deletion comes right after the report made from the manifest at that path was
-- submitted without an error. A report that failed leaves the file where it is, or renamed.
pub process_backup_manifests-AreJustified :
    (env : Env ManifestCall ManifestAnswer) (manifest_dir : String) (time : ℕ)
    → AreJustified env
        (process_backup_manifests env manifest_dir
          (record { history = []; clock = time; object = tt })).1.history
unfolding process_backup_manifests ◌>>=◌ call
process_backup_manifests-AreJustified env manifest_dir time =
    process-AreJustified env _ _ _ (tt, tt)
