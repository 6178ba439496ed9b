-- ===== src/Handlers/Replaced.antt =====
-- `UpdateServer` as a whole.
use metio.Base.{String, ◌≡◌, refl, ◌∙◌, inl, inr, true, not, Option, none, List, false}
use metio.Types.{Time, ServerConfig}
use metio.Exec.{ok, ◌>>=◌, ◌>>◌, Env, call, now}
use metio.Exec.Triple.{Triple, Triple-bind, AtEnd}
use metio.Programs.{ControllerConfig}
use metio.Handlers.{
  HandlerCall, get_server_config, save_config_snapshot, HandlerAnswer, Site, no_error,
  list_server_configs,
}
use metio.Handlers.Update.{
  UpdateServerRequest, classify_update, shrinks, updated_config, read_config, check_rename,
  check_immutable, check_updated, start_updating, update_server, or_keep,
}
use metio.Handlers.Guards.{
  ReadsAnd, Told, Knows, Refused, Knows-now, Knows-require, Knows-expect, Knows-decode, Knows-more,
  Knows-conclude, Knows-given,
}
use metio.Handlers.Steps.{
  Keeps, keeps_nothing, keeps_fixed, keeps_both, keeps_told, Told_map, ask, ask_done, keeps_either,
}
use metio.Handlers.Checked.{connect-Knows}
use metio.Handlers.Changes.{
  IsInPlace, shrinks-or_keep, UpdateWrites, IsUpdating, start_updating-Knows,
}
use metio.Handlers.Rechecked.{check_rename-Knows, check_updated-Knows}
use metio.Handlers.Checks.{taken_in}
use metio.Handlers.Creation.{arrival}

updated_config-IsInPlace :
    (req : UpdateServerRequest) (cfg : ControllerConfig) (time : Time) (old : ServerConfig)
    → not (shrinks req.disk_size_gb old.disk_size_gb) ≡ true
    → IsInPlace old (updated_config req cfg time old)
unfolding updated_config
updated_config-IsInPlace req cfg time old h = record {
  identity = refl;
  region = refl;
  zone = refl;
  disk = shrinks-or_keep req.disk_size_gb old.disk_size_gb h;
  existing_address = refl;
  backup = refl;
}

module _ (env : Env HandlerCall HandlerAnswer) (site : Site) (server_id : String) where
  pub read_config-Knows :
      (Writes : HandlerCall → List HandlerCall → Type 0) {F : List HandlerCall → Type 0}
      → Keeps F
      → Triple
          (Refused (ReadsAnd Writes))
          (Knows (ReadsAnd Writes) F)
          (read_config env site server_id)
          (λ old.
            Knows
              (ReadsAnd Writes)
              (λ h. F h × Told env (get_server_config server_id) (λ r. r ≡ ok old) h))
  unfolding read_config
  read_config-Knows W keeps =
      ask env (ReadsAnd W) keeps (get_server_config server_id) (λ h f. inl tt) _
        λ r.
          Knows-conclude (ReadsAnd W) (Knows-expect (ReadsAnd W) _ _ r)
            λ old h p. (p.0.0, Told_map env (get_server_config server_id) (λ x e. e ∙ p.1) p.0.1)

  check_immutable-Knows :
      (Writes : HandlerCall → List HandlerCall → Type 0) {F : List HandlerCall → Type 0}
      (req : UpdateServerRequest) (old : ServerConfig)
      → Triple
          (Refused (ReadsAnd Writes))
          (Knows (ReadsAnd Writes) F)
          (check_immutable env site server_id req old)
          (λ _.
            Knows
              (ReadsAnd Writes)
              (λ h. F h × (not (shrinks req.disk_size_gb old.disk_size_gb) ≡ true)))
  unfolding check_immutable
  check_immutable-Knows W req old = Triple-bind _ _ (Knows-require (ReadsAnd W) _ _ _) λ _.
      Triple-bind _ _ (Knows-require (ReadsAnd W) _ _ _)
        λ _. Knows-conclude (ReadsAnd W) (Knows-require (ReadsAnd W) _ _ _) λ _ h p. (p.0.0.0, p.1)

  -- From the snapshot on, with the stored config and the checks on the request.
  saved-Knows :
      (req : UpdateServerRequest) (cfg : ControllerConfig) (old : ServerConfig)
      → not (shrinks req.disk_size_gb old.disk_size_gb) ≡ true
      → Triple
          (Refused (ReadsAnd (UpdateWrites env server_id)))
          (Knows
            (ReadsAnd (UpdateWrites env server_id))
            (Told env (get_server_config server_id) (λ r. r ≡ ok old)))
          (call env (save_config_snapshot server_id old) >>= λ saved.
            no_error 500 "failed to save config snapshot" saved
            >> (check_rename env site server_id req.name old.name
                >> (now >>= λ time.
                    check_updated env site server_id req (updated_config req cfg time old)
                    >> start_updating env site server_id
                        (classify_update req)
                        cfg
                        (updated_config req cfg time old))))
          (λ _. Knows (ReadsAnd (UpdateWrites env server_id)) (IsUpdating env server_id))
  unfolding updated_config
  saved-Knows req cfg old grows =
      let W = UpdateWrites env server_id in
      let found = keeps_told env (get_server_config server_id) (λ r. r ≡ ok old) in
      let saved =
        keeps_both found (keeps_told env (save_config_snapshot server_id old) (λ a. a ≡ none)) in
      ask_done env (ReadsAnd W) found (save_config_snapshot server_id old) (λ h t. inr (refl, t))
        (λ r. r) _ _ _
        (Triple-bind _ _ (check_rename-Knows env site server_id W saved req.name old.name) λ _.
          let free = keeps_both saved (
            keeps_either keeps_fixed (
              keeps_told env list_server_configs
                (λ r. taken_in (or_keep req.name old.name) server_id r ≡ ok false))) in
          Triple-bind _ _ (Knows-now (ReadsAnd W)) λ time.
            Triple-bind _ _ (check_updated-Knows env site server_id W free req _) λ _.
              start_updating-Knows env site server_id _ (keeps_both free keeps_fixed) _ cfg _ λ h p.
                record {
                  old = old;
                  found = p.0.0.0;
                  saved = p.0.0.1;
                  in_place = updated_config-IsInPlace req cfg time old grows;
                  name_free = p.0.1;
                  valid = p.1;
                })

  update_server-Knows :
      (body : Option UpdateServerRequest)
      → Triple
          (Refused (ReadsAnd (UpdateWrites env server_id)))
          (Knows (ReadsAnd (UpdateWrites env server_id)) (λ h. Unit))
          (update_server env site server_id body)
          (λ _. Knows (ReadsAnd (UpdateWrites env server_id)) (IsUpdating env server_id))
  unfolding update_server
  update_server-Knows body =
      let W = UpdateWrites env server_id in
      Triple-bind _ _ (Knows-require (ReadsAnd W) _ _ _) λ _.
        Triple-bind _ _ (Knows-decode (ReadsAnd W) body) λ req.
          Knows-more (ReadsAnd W) {G = λ h. Unit} (λ h p. tt)
            (Triple-bind _ _ (connect-Knows env site W keeps_nothing) λ cfg.
              Knows-more (ReadsAnd W) {G = λ h. Unit} (λ h p. tt)
                (Triple-bind _ _ (read_config-Knows W keeps_nothing) λ old.
                  Triple-bind _ _ (check_immutable-Knows W req old) λ _.
                    Knows-given (ReadsAnd W) λ grows.
                      Knows-more (ReadsAnd W) (λ h p. p.1) (saved-Knows req cfg old grows)))

-- `UpdateServer`, from the arrival of any request, whatever its calls answer. The only changes it
-- makes are these: it saves the stored config as the snapshot; it stores a new config, after the
-- snapshot was saved without an error, that is valid, keeps the id, region, zone, address and backup
-- settings, has a disk that is not smaller, and has the old name or one that is free among the other
-- servers; it starts the update, after the new config was stored, with the program config built from
-- it; and it reverts the config, after the start has failed for another reason than an operation in
-- progress. An accepted request has started the update without an error.
pub update_server-Guarded :
    (env : Env HandlerCall HandlerAnswer) (site : Site) (server_id : String)
    (body : Option UpdateServerRequest) (time : Time)
    → AtEnd
        (Refused (ReadsAnd (UpdateWrites env server_id)))
        (λ response. Knows (ReadsAnd (UpdateWrites env server_id)) (IsUpdating env server_id))
        (update_server env site server_id body (arrival time)).0
        (update_server env site server_id body (arrival time)).1
update_server-Guarded env site server_id body time =
    (update_server-Knows env site server_id body).at (arrival time)
      (record { guarded = tt; known = tt })
