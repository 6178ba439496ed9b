-- ===== src/Handlers/Restoration.antt =====
-- What `CreateServerFromBackup` writes, and when.
use mathlib.Core.Option.{some-injective}
use metio.Base.{
  String, ◌≡◌, refl, inr, Option, none, some, List, inl, eq_iff, Bool-cases, if-true, if-false, Any,
  sym, ◌∙◌, subst, [], ◌∷◌, arith, ◌==◌,
}
use metio.Types.{Time, backup_status_completed, Backup, ServerConfig}
use metio.Exec.{Error, ok, Env, call, pure, ◌>>◌}
use metio.Exec.Triple.{AtEnd, Triple, Triple-bind}
use metio.Programs.{ProgramConfig, ControllerConfig}
use metio.Handlers.{
  HandlerCall, list_backups, create_server_config, start_create_from_backup, HandlerAnswer, Site,
  get_db_connection, refuse,
}
use metio.Handlers.Create.{
  find_backup, with_restore, launch, CreateFromBackupRequest, create_server_from_backup,
  restored_config,
}
use metio.Handlers.Guards.{
  ReadsAnd, Told, told_now, Knows, Refused, Knows-call, Knows-now, Knows-decode, Knows-more,
  Knows-refuse, Knows-pure, Knows-require, told_before,
}
use metio.Handlers.Steps.{
  Keeps, keeps_nothing, keeps_fixed, keeps_both, keeps_told, Told_map, ask_ok,
}
use metio.Handlers.Offered.{IsVanillaOffered}
use metio.Handlers.Checked.{
  check_valid-Knows, keeps_place, check_place-Knows, connect-Knows, keeps_vanilla,
  check_vanilla-Knows,
}
use metio.Handlers.Launched.{IsCreatable, IsLaunch, launch-Knows}
use metio.Validation.Config.{IsServerConfig}
use metio.Handlers.Checks.{check_valid, check_vanilla, check_place}
use metio.Handlers.Creation.{arrival}

-- A completed backup with the id that the request names, from the list of the backups.
pub record IsRestorable (env : Env HandlerCall HandlerAnswer) (id : String) (backup : Backup)
    (h : List HandlerCall) : Type 0 where
  pub listed :
      Told env list_backups (λ r. (bs : List Backup) × (r ≡ ok bs) × Any (λ b. b ≡ backup) bs) h
  pub identity : backup.id ≡ id
  pub completed : backup.status ≡ backup_status_completed

-- The program config that restores the snapshot of the backup, from the place where it is kept.
abbrev pub restores : Backup → ProgramConfig → ProgramConfig
restores backup p = record p {
  restore_snapshot_id = backup.snapshot_id;
  restore_source_prefix = backup.repository_prefix;
}

-- What the search has found.
find_backup-found :
    (id : String) (backup : Backup) (bs : List Backup)
    → find_backup id bs ≡ some backup
    → Any (λ b. b ≡ backup) bs × (backup.id ≡ id)
unfolding find_backup
find_backup-found id backup [] h = ground arith
find_backup-found id backup (b ∷ bs) h = elim (Bool-cases (b.id == id)) [
  | inl e ↦
      let same : b ≡ backup = some-injective b backup (sym (if-true _ _ e) ∙ h) in
      (inl same, subst (λ x. x.id ≡ id) same ((eq_iff _ _).0 e))
  | inr e ↦
      let rest = find_backup-found id backup bs (sym (if-false _ _ e) ∙ h) in (inr rest.0, rest.1)
]

module _ (env : Env HandlerCall HandlerAnswer) where
  -- What `CreateServerFromBackup` may change: as for `CreateServer`, but the offered packs are not looked at, and the program
  -- config names the snapshot of a completed backup.
  abbrev pub RestoreWrites : String → HandlerCall → List HandlerCall → Type 0
  RestoreWrites backup_id (create_server_config id config) h =
      IsCreatable env (IsVanillaOffered env) id config h
  RestoreWrites backup_id (start_create_from_backup id program) h =
      (backup : Backup) × IsRestorable env backup_id backup h
      × IsLaunch env (restores backup) id program h
  RestoreWrites backup_id _ h = ⊥

  abbrev pub IsRestoring : String → Option Error → List HandlerCall → Type 0
  IsRestoring id r h =
      (program : ProgramConfig) × Told env (start_create_from_backup id program) (λ x. x ≡ r) h

  module _ (site : Site) where
    restore_started :
        (backup_id : String) (backup : Backup) (F G : List HandlerCall → Type 0)
        → Keeps G
        → ((h : List HandlerCall) → G h → F h)
        → ((h : List HandlerCall) → F h → IsRestorable env backup_id backup h)
        → (id : String) (program : ProgramConfig)
        → ((h : List HandlerCall) → G h → IsLaunch env (restores backup) id program h)
        → Triple
            (Refused (ReadsAnd (RestoreWrites backup_id)))
            (Knows (ReadsAnd (RestoreWrites backup_id)) G)
            (call env (start_create_from_backup id program))
            (λ r. Knows (ReadsAnd (RestoreWrites backup_id)) (IsRestoring id r))
    restore_started backup_id backup F G keeps below restorable id program launch =
        Knows-call (ReadsAnd (RestoreWrites backup_id)) env (start_create_from_backup id program)
          (IsRestoring id) (λ h g. inr (backup, restorable h (below h g), launch h g))
          λ h g. (program, told_now refl)

    found_or_missing :
        (backup_id : String) {F : List HandlerCall → Type 0} (o : Option Backup)
        → Triple
            (Refused (ReadsAnd (RestoreWrites backup_id)))
            (Knows (ReadsAnd (RestoreWrites backup_id)) F)
            (elim o [ some b ↦ pure b | none ↦ refuse 404 "backup not found" ])
            (λ b. Knows (ReadsAnd (RestoreWrites backup_id)) (λ h. F h × (o ≡ some b)))
    found_or_missing backup_id {F = F} (some b) =
        Knows-pure _ (λ x h. F h × (some b ≡ some x)) b λ h f. (f, refl)
    found_or_missing backup_id none = Knows-refuse _ _ _

    keeps_IsRestorable : (id : String) (backup : Backup) → Keeps (IsRestorable env id backup)
    keeps_IsRestorable id backup = record {
      keep = λ p. record {
        listed = told_before p.listed;
        identity = p.identity;
        completed = p.completed;
      };
    }

    -- From the validation on, with what is known of the backup.
    restored-Knows :
        (backup_id : String) (backup : Backup) (cfg : ControllerConfig) (config : ServerConfig)
        → Triple
            (Refused (ReadsAnd (RestoreWrites backup_id)))
            (Knows (ReadsAnd (RestoreWrites backup_id)) (λ h.
              Told env get_db_connection (λ r. r ≡ ok cfg) h × IsRestorable env backup_id backup h))
            (check_valid env site config
              >> (check_vanilla env site config.modpack config.minecraft_version
                  >> (check_place env site config
                      >> launch env site
                          (λ id p. call env (start_create_from_backup id p))
                          (with_restore backup)
                          cfg
                          config)))
            (λ response. Knows (ReadsAnd (RestoreWrites backup_id)) (IsRestoring response.id none))
    unfolding with_restore
    restored-Knows backup_id backup cfg config =
        let W = RestoreWrites backup_id in
        let found =
          keeps_both (keeps_told env get_db_connection (λ r. r ≡ ok cfg))
            (keeps_IsRestorable backup_id backup) in
        Triple-bind _ _ (check_valid-Knows env site W found config) λ _.
          let admitted = keeps_both found (keeps_fixed {P = IsServerConfig config}) in
          Triple-bind _ _
            (check_vanilla-Knows env site W admitted config.modpack config.minecraft_version)
            λ _.
              let sourced =
                keeps_both admitted (keeps_vanilla env config.modpack config.minecraft_version) in
              Triple-bind _ _ (check_place-Knows env site W sourced config) λ _.
                launch-Knows env site (IsVanillaOffered env) W (λ id c h a. a) _
                  (with_restore backup) IsRestoring (keeps_both sourced (keeps_place env config))
                  (λ G keeps below.
                    restore_started backup_id backup _ G keeps below λ h p. p.0.0.0.1)
                  cfg config
                  λ h p. record {
                    valid = p.0.0.1;
                    source = p.0.1;
                    place = p.1;
                    connected = p.0.0.0.0;
                  }

    create_server_from_backup-Knows :
        (backup_id : String) (body : Option CreateFromBackupRequest)
        → Triple
            (Refused (ReadsAnd (RestoreWrites backup_id)))
            (Knows (ReadsAnd (RestoreWrites backup_id)) (λ h. Unit))
            (create_server_from_backup env site backup_id body)
            (λ response. Knows (ReadsAnd (RestoreWrites backup_id)) (IsRestoring response.id none))
    unfolding create_server_from_backup
    create_server_from_backup-Knows backup_id body =
        let W = RestoreWrites backup_id in
        Triple-bind _ _ (Knows-require (ReadsAnd W) _ _ _) λ _.
          Triple-bind _ _ (Knows-decode (ReadsAnd W) body) λ req.
            Triple-bind _ _ (Knows-require (ReadsAnd W) _ _ _) λ _.
              Knows-more (ReadsAnd W) {G = λ h. Unit} (λ h p. tt)
                (Triple-bind _ _ (connect-Knows env site W keeps_nothing) λ cfg.
                  let connected = keeps_both keeps_nothing (keeps_told env get_db_connection _) in
                  ask_ok env (ReadsAnd W) connected list_backups (λ h p. inl tt) (λ r. r) _ _ _
                    λ backups.
                      Triple-bind _ _ (found_or_missing backup_id (find_backup backup_id backups))
                        λ backup. Triple-bind _ _ (Knows-require (ReadsAnd W) _ _ _) λ _.
                          Knows-more (ReadsAnd W)
                            {G = λ h.
                              Told env get_db_connection (λ r. r ≡ ok cfg) h
                              × IsRestorable env backup_id backup h}
                            (λ h p. (
                              p.0.0.0.1,
                              record {
                                listed =
                                    Told_map env list_backups
                                      (λ r e. (backups, e, (find_backup-found _ _ _ p.0.1).0))
                                      p.0.0.1;
                                identity = (find_backup-found _ _ _ p.0.1).1;
                                completed = (eq_iff _ _).0 p.1;
                              },
                            ))
                            (Triple-bind _ _ (Knows-now (ReadsAnd W)) λ created.
                              Triple-bind _ _ (Knows-now (ReadsAnd W)) λ updated.
                                restored-Knows backup_id backup cfg
                                  (restored_config req backup created updated)))

-- `CreateServerFromBackup`, from the arrival of any request, whatever its calls answer. The only
-- changes it makes are these: it stores one config under the new id, and it starts the creation of
-- that server, after the config has been stored. The config is valid, its machine type, region and
-- zone are offered, and its version too if it has no pack; its name is free. The program config that
-- the creation starts with is the one built from the stored config, with the snapshot and the prefix
-- of a backup that stands in the list of the backups, has the requested id and is completed. An
-- accepted request has started the creation without an error.
pub create_server_from_backup-Guarded :
    (env : Env HandlerCall HandlerAnswer) (site : Site) (backup_id : String)
    (body : Option CreateFromBackupRequest) (time : Time)
    → AtEnd
        (Refused (ReadsAnd (RestoreWrites env backup_id)))
        (λ response.
          Knows (ReadsAnd (RestoreWrites env backup_id)) (IsRestoring env response.id none))
        (create_server_from_backup env site backup_id body (arrival time)).0
        (create_server_from_backup env site backup_id body (arrival time)).1
create_server_from_backup-Guarded env site backup_id body time =
    (create_server_from_backup-Knows env site backup_id body).at (arrival time)
      (record { guarded = tt; known = tt })
