-- ===== src/Handlers/Changes.antt =====
-- What `UpdateServer` writes, and when.
use metio.Base.{
  ℕ, String, ◌≡◌, ◌≢◌, ◌⊎◌, true, not, Option, none, some, List, if◌then◌else◌, refl, inl, inr,
  Bool, false, arith, ◌==◌, eq_iff,
}
use metio.Base.Int.{ℤ, ◌≤ℤ◌}
use metio.Types.{ServerConfig}
use metio.Exec.{Error, ok, Env, ◌>>=◌, call}
use metio.Programs.{ProgramConfig, ControllerConfig, build_program_config}
use metio.Validation.Config.{IsServerConfig}
use metio.Provisioning.Executor.{operation_in_progress}
use metio.Handlers.{
  HandlerCall, get_server_config, update_server_config, save_config_snapshot, start_update,
  revert_server_config, mint_token, HandlerAnswer, Site, refuse,
}
use metio.Handlers.Update.{or_keep, shrinks, update_failure, check_updating, start_updating}
use metio.Handlers.Guards.{
  Told, ReadsAnd, Knows, Refused, Knows-refuse, Knows-pure, Knows-require, Knows-more,
}
use metio.Handlers.Offered.{IsNameFree}
use metio.Exec.Triple.{Triple, Triple-bind, Triple-pure}
use metio.Handlers.Steps.{Keeps, keeps_both, keeps_told, ask, ask_ok, ask_done}

-- What an update may not change: the place of the server, and the size of its disk downwards.
pub record IsInPlace (old config : ServerConfig) : Type 0 where
  pub identity : config.id ≡ old.id
  pub region : config.region ≡ old.region
  pub zone : config.zone ≡ old.zone
  pub disk : old.disk_size_gb ≤ℤ config.disk_size_gb
  pub existing_address : config.existing_address ≡ old.existing_address
  pub backup : config.backup ≡ old.backup

pub shrinks-or_keep :
    (o : Option ℤ) (size : ℤ) → not (shrinks o size) ≡ true → size ≤ℤ or_keep o size
unfolding shrinks or_keep
shrinks-or_keep none size h = omega arith
shrinks-or_keep (some s) size h = ground arith

module _ (env : Env HandlerCall HandlerAnswer) (server_id : String) where
  -- A config that may replace the stored one: it is valid and in place, the stored one is saved as
  -- the snapshot, and a new name is free.
  pub record IsReplacement (config : ServerConfig) (h : List HandlerCall) : Type 0 where
    pub old : ServerConfig
    pub found : Told env (get_server_config server_id) (λ r. r ≡ ok old) h
    pub saved : Told env (save_config_snapshot server_id old) (λ a. a ≡ none) h
    pub in_place : IsInPlace old config
    pub name_free : (config.name ≡ old.name) ⊎ IsNameFree env config.name server_id h
    pub valid : IsServerConfig config

  -- The update starts with the program config built from the config that was stored.
  pub record IsUpdate (program : ProgramConfig) (h : List HandlerCall) : Type 0 where
    pub config : ServerConfig
    pub cfg : ControllerConfig
    pub token : String
    pub stored : Told env (update_server_config server_id config) (λ a. a ≡ none) h
    pub minted : Told env (mint_token config.name) (λ r. r ≡ ok token) h
    pub built : program ≡ build_program_config server_id config cfg token

  -- What `UpdateServer` may change: the snapshot, the config, the operation, and after an error of
  -- the operation's start the config back.
  abbrev pub UpdateWrites : HandlerCall → List HandlerCall → Type 0
  UpdateWrites (save_config_snapshot id old) h =
      (id ≡ server_id) × Told env (get_server_config server_id) (λ r. r ≡ ok old) h
  UpdateWrites (update_server_config id config) h = (id ≡ server_id) × IsReplacement config h
  UpdateWrites (start_update id program update_type) h = (id ≡ server_id) × IsUpdate program h
  UpdateWrites (revert_server_config id) h =
      (id ≡ server_id)
      × ((program : ProgramConfig) × (update_type : ℕ) × (e : Error) × Told env
            (start_update server_id program update_type) (λ r. r ≡ some e) h
          × (e.text ≢ (operation_in_progress server_id).text))
  UpdateWrites _ h = ⊥

  -- The update was started without an error.
  abbrev pub IsUpdating : List HandlerCall → Type 0
  IsUpdating h =
      (program : ProgramConfig) × (update_type : ℕ) × Told env
        (start_update server_id program update_type) (λ r. r ≡ none) h

module _ (env : Env HandlerCall HandlerAnswer) (site : Site) (server_id : String) where
  failed_start :
      (program : ProgramConfig) (update_type : ℕ) (e : Error) (busy : Bool)
      → (e.text == (operation_in_progress server_id).text) ≡ busy
      → Triple
          (Refused (ReadsAnd (UpdateWrites env server_id)))
          (Knows
            (ReadsAnd (UpdateWrites env server_id))
            (Told env (start_update server_id program update_type) (λ x. x ≡ some e)))
          (if busy
            then refuse 409 "operation already in progress for this server"
            else call env (revert_server_config server_id) >>= λ reverted.
                refuse {A = Unit {0}} 500 (update_failure update_type))
          (λ _. Knows (ReadsAnd (UpdateWrites env server_id)) (IsUpdating env server_id))
  failed_start program update_type e true b = Knows-refuse _ _ _
  failed_start program update_type e false b =
      ask env _ (keeps_told env (start_update server_id program update_type) _)
        (revert_server_config server_id)
        (λ h t. inr (refl, (program, update_type, e, t, λ q. absurd (cc ((eq_iff _ _).1 q, b))))) _
        λ _. Knows-refuse _ _ _

  check_updating-Knows :
      (program : ProgramConfig) (update_type : ℕ) (r : Option Error)
      → Triple
          (Refused (ReadsAnd (UpdateWrites env server_id)))
          (Knows
            (ReadsAnd (UpdateWrites env server_id))
            (Told env (start_update server_id program update_type) (λ x. x ≡ r)))
          (check_updating env site server_id update_type r)
          (λ _. Knows (ReadsAnd (UpdateWrites env server_id)) (IsUpdating env server_id))
  unfolding check_updating
  check_updating-Knows program update_type none =
      Knows-pure _ (λ _. IsUpdating env server_id) tt λ h t. (program, update_type, t)
  check_updating-Knows program update_type (some e) = failed_start program update_type e _ refl

  pub start_updating-Knows :
      (F : List HandlerCall → Type 0)
      → Keeps F
      → (update_type : ℕ) (cfg : ControllerConfig) (config : ServerConfig)
      → ((h : List HandlerCall) → F h → IsReplacement env server_id config h)
      → Triple
          (Refused (ReadsAnd (UpdateWrites env server_id)))
          (Knows (ReadsAnd (UpdateWrites env server_id)) F)
          (start_updating env site server_id update_type cfg config)
          (λ _. Knows (ReadsAnd (UpdateWrites env server_id)) (IsUpdating env server_id))
  unfolding start_updating
  start_updating-Knows F keeps update_type cfg config replaces =
      let W = UpdateWrites env server_id in
      let stored = keeps_told env (update_server_config server_id config) (λ a. a ≡ none) in
      ask_done env (ReadsAnd W) keeps (update_server_config server_id config)
        (λ h f. inr (refl, replaces h f)) (λ r. r) _ _ _
        (Triple-bind _ _ (Knows-require (ReadsAnd W) site.provisioning _ _) λ _.
          Knows-more (ReadsAnd W) (λ h p. p.0.1)
            (ask_ok env (ReadsAnd W) stored (mint_token config.name) (λ h p. inl tt) (λ r. r) _ _ _
              λ token.
                let program = build_program_config server_id config cfg token in
                ask env (ReadsAnd W) (keeps_both stored (keeps_told env (mint_token config.name) _))
                  (start_update server_id program update_type)
                  (λ h p. inr (
                    refl,
                    record {
                      config = config;
                      cfg = cfg;
                      token = token;
                      stored = p.0;
                      minted = p.1;
                      built = refl;
                    },
                  ))
                  _
                  λ r.
                    Knows-more (ReadsAnd W) (λ h p. p.1)
                      (Triple-bind _ _ (check_updating-Knows program update_type r)
                        λ _. Triple-pure _)))
