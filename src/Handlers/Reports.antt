-- ===== src/Handlers/Reports.antt =====
-- What `HandleBackupReport` records, and for whom.
use metio.Base.{
  beq, Bool-cases, if-true, if-false, ◌+++◌, code, String, ◌≡◌, refl, sym, ap, ◌∙◌, ◌⊎◌, inl, inr,
  true, Option, none, some, List, arith, ◌==◌, eq_iff,
}
use metio.Types.{Time, backup_status_completed, backup_status_failed, Backup, ServerConfig}
use metio.Exec.{ok, Env}
use metio.Exec.Triple.{AtEnd, Triple, Triple-bind}
use metio.Handlers.{
  HandlerCall, get_server_config, upsert_backup, verify_token, HandlerAnswer, Site,
}
use metio.Handlers.Catalog.{
  ReportRequest, after_prefix, restic_prefix, is_report_status, reported_backup, report_response,
  check_bearer, check_agent, handle_backup_report,
}
use metio.Handlers.Responses.{BackupResponse, to_backup_response}
use metio.Handlers.Guards.{
  ReadsAnd, Told, told_before, Knows, Refused, Knows-now, Knows-refuse, Knows-pure, Knows-require,
  Knows-decode, Knows-more, Knows-conclude,
}
use metio.Handlers.Steps.{
  Keeps, keeps_nothing, keeps_fixed, keeps_both, keeps_told, Told_map, ask_ok, ask_done,
}
use metio.Handlers.Checked.{connect-Knows}
use metio.Handlers.Creation.{arrival}
use metio.Handlers.Replaced.{read_config-Knows}
use Prim.Native.String.append
use text.Mathlib.TextEquality.{Char-path}

-- `after_prefix` finds exactly what stands behind the prefix.
pub after_prefix_sound : (p s t : String) → after_prefix p s ≡ some t → s ≡ p +++ t
unfolding after_prefix
after_prefix_sound String.[] s t h = cc (append.nil t, h)
after_prefix_sound (String.◌∷◌ p ps) String.[] t h = absurd (cc)
after_prefix_sound (String.◌∷◌ p ps) (String.◌∷◌ c s) t h =
    elim (Bool-cases (beq (code p) (code c))) [
      | inl e ↦
          let same = Char-path p c (ground (arith, e)) in
          let rest = after_prefix_sound ps s t (sym (if-true _ _ e) ∙ h) in
          cc (append.cons p ps t, same, rest)
      | inr e ↦ absurd (cc (sym (if-false _ _ e) ∙ h))
    ]

module _ (env : Env HandlerCall HandlerAnswer) (server_id header : String) where
  -- The header bears a token whose subject is the name of the server.
  pub record IsBearer (config : ServerConfig) (h : List HandlerCall) : Type 0 where
    pub token : String
    pub bearer : header ≡ "Bearer " +++ token
    pub verified : Told env (verify_token token) (λ r. r ≡ ok config.name) h

  -- A record that a report may write: it is of the server that the request names, which is stored
  -- and whose token the request bears, and its snapshot lies under the prefix of that server.
  pub record IsReportedBackup (backup : Backup) (h : List HandlerCall) : Type 0 where
    pub config : ServerConfig
    pub found : Told env (get_server_config server_id) (λ r. r ≡ ok config) h
    pub bearer : IsBearer config h
    pub identity : backup.id ≡ server_id +++ (":" +++ backup.snapshot_id)
    pub server : backup.server_id ≡ server_id
    pub name : backup.server_name ≡ config.name
    pub prefix : backup.repository_prefix ≡ restic_prefix server_id
    pub status : (backup.status ≡ backup_status_completed) ⊎ (backup.status ≡ backup_status_failed)

  -- The only change that a report may make.
  abbrev pub ReportWrites : HandlerCall → List HandlerCall → Type 0
  ReportWrites (upsert_backup backup) h = IsReportedBackup backup h
  ReportWrites _ h = ⊥

  -- The record that the response shows has been written.
  abbrev pub IsRecorded : BackupResponse → List HandlerCall → Type 0
  IsRecorded response h =
      (backup : Backup) × Told env (upsert_backup backup) (λ a. a ≡ none) h
      × (response.id ≡ backup.id)
      × (response.status ≡ backup.status)

  keeps_IsBearer : (config : ServerConfig) → Keeps (IsBearer config)
  keeps_IsBearer config = record {
    keep = λ p. record { token = p.token; bearer = p.bearer; verified = told_before p.verified };
  }

  module _ (site : Site) where
    check_bearer-Knows :
        {F : List HandlerCall → Type 0}
        → Keeps F
        → (config : ServerConfig) (o : Option String)
        → ((token : String) → o ≡ some token → header ≡ "Bearer " +++ token)
        → Triple
            (Refused (ReadsAnd ReportWrites))
            (Knows (ReadsAnd ReportWrites) F)
            (check_bearer env site config o)
            (λ _. Knows (ReadsAnd ReportWrites) (λ h. F h × IsBearer config h))
    unfolding check_bearer
    check_bearer-Knows keeps config none bears = Knows-refuse (ReadsAnd ReportWrites) _ _
    check_bearer-Knows keeps config (some token) bears =
        ask_ok env (ReadsAnd ReportWrites) keeps (verify_token token) (λ h p. inl tt) (λ r. r) _ _ _
          λ subject.
            Knows-conclude (ReadsAnd ReportWrites) (Knows-require (ReadsAnd ReportWrites) _ _ _)
              λ _ h p. (
                p.0.0,
                record {
                  token = token;
                  bearer = bears token refl;
                  verified =
                      Told_map env (verify_token token)
                        (λ r e. e ∙ ap ok ((eq_iff subject config.name).0 p.1)) p.0.1;
                },
              )

    check_agent-Knows :
        {F : List HandlerCall → Type 0}
        → Keeps F
        → (config : ServerConfig)
        → Triple
            (Refused (ReadsAnd ReportWrites))
            (Knows (ReadsAnd ReportWrites) F)
            (check_agent env site header config)
            (λ _. Knows (ReadsAnd ReportWrites) (λ h. F h × IsBearer config h))
    unfolding check_agent
    check_agent-Knows keeps config =
        check_bearer-Knows keeps config (after_prefix "Bearer " header)
          λ token e. after_prefix_sound "Bearer " header token e

    is_report_status_sound :
        (s : String)
        → is_report_status s ≡ true
        → (s ≡ backup_status_completed) ⊎ (s ≡ backup_status_failed)
    unfolding is_report_status
    is_report_status_sound s h = elim (Bool-cases (s == backup_status_completed)) [
      | inl e ↦ inl ((eq_iff _ _).0 e)
      | inr e ↦ inr ((eq_iff _ _).0 (cc))
    ]

    handle_backup_report-Knows :
        (body : Option ReportRequest)
        → Triple
            (Refused (ReadsAnd ReportWrites))
            (Knows (ReadsAnd ReportWrites) (λ h. Unit))
            (handle_backup_report env site server_id header body)
            (λ response. Knows (ReadsAnd ReportWrites) (IsRecorded response))
    unfolding handle_backup_report reported_backup report_response to_backup_response
    handle_backup_report-Knows body =
        let A = ReadsAnd ReportWrites in
        Triple-bind _ _ (Knows-require A _ _ _) λ _. Triple-bind _ _ (Knows-decode A body) λ req.
          Knows-more A {G = λ h. Unit} (λ h p. tt)
            (Triple-bind _ _ (connect-Knows env site ReportWrites keeps_nothing) λ cfg.
              Knows-more A {G = λ h. Unit} (λ h p. tt)
                (Triple-bind _ _ (read_config-Knows env site server_id ReportWrites keeps_nothing)
                  λ config.
                    let found =
                      keeps_both keeps_nothing (keeps_told env (get_server_config server_id) _) in
                    Triple-bind _ _ (check_agent-Knows found config) λ _.
                      Triple-bind _ _ (Knows-require A _ _ _) λ _.
                        Triple-bind _ _ (Knows-require A _ _ _) λ _.
                          Triple-bind _ _ (Knows-now A) λ time.
                            let known =
                              keeps_both
                                (keeps_both (keeps_both found (keeps_IsBearer config)) keeps_fixed)
                                keeps_fixed in
                            let backup = reported_backup server_id config req time in
                            ask_done env A known (upsert_backup backup)
                              (λ h p. inr (record {
                                config = config;
                                found = p.0.0.0.1;
                                bearer = p.0.0.1;
                                identity = refl;
                                server = refl;
                                name = refl;
                                prefix = (eq_iff _ _).0 p.0.1;
                                status = is_report_status_sound req.status p.1;
                              }))
                              (λ r. r) _ _ _
                              (Knows-pure A IsRecorded _ λ h p. (backup, p.1, refl, refl))))

-- `HandleBackupReport`, from the arrival of any report, whatever its calls answer. The only change it
-- makes is one backup record: of the server that the request names, which is stored, under the name
-- of its config, with a repository prefix of that server and a status that is one of the two; and
-- only after the token that follows "Bearer " in the header was verified, with the name of that
-- config as its subject. A report that is answered with a record has written it without an error.
pub handle_backup_report-Guarded :
    (env : Env HandlerCall HandlerAnswer) (site : Site) (server_id header : String)
    (body : Option ReportRequest) (time : Time)
    → AtEnd
        (Refused (ReadsAnd (ReportWrites env server_id header)))
        (λ response.
          Knows
            (ReadsAnd (ReportWrites env server_id header))
            (IsRecorded env server_id header response))
        (handle_backup_report env site server_id header body (arrival time)).0
        (handle_backup_report env site server_id header body (arrival time)).1
handle_backup_report-Guarded env site server_id header body time =
    (handle_backup_report-Knows env server_id header site body).at (arrival time)
      (record { guarded = tt; known = tt })
