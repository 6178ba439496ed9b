-- ===== src/Handlers/Launched.antt =====
-- What a new server has passed before it is stored, and before its operation starts.
use metio.Base.{String, ◌≡◌, refl, inl, inr, false, Option, none, some, List, subst}
use metio.Types.{ModpackConfig, ServerConfig}
use metio.Exec.{Error, ok, Env}
use metio.Exec.Triple.{Triple, Triple-bind, Triple-if}
use metio.Programs.{ProgramConfig, ControllerConfig, build_program_config}
use metio.Validation.{validate_server_config}
use metio.Validation.Config.{IsServerConfig, validate_server_config_iff}
use metio.Handlers.{
  HandlerCall, get_db_connection, list_server_configs, create_server_config, new_uuid, mint_token,
  HandlerAnswer, Site, Handler,
}
use metio.Handlers.Checks.{taken_in, check_started}
use metio.Handlers.Create.{identified, launch}
use metio.Handlers.Guards.{
  ReadsAnd, Told, Knows, Refused, Knows-refuse, Knows-pure, Knows-require, Knows-more,
}
use metio.Handlers.Steps.{Keeps, keeps_both, keeps_told, ask, ask_done, ask_ok}
use metio.Handlers.Offered.{IsPlaceOffered, IsNameFree}
use metio.Handlers.Checked.{check_name-Knows}
use metio.Handlers.Responses.{accepted_response}

-- Neither the id nor the image of the agent is validated.
identified-IsServerConfig :
    (id : String) (cfg : ControllerConfig) (config : ServerConfig)
    → IsServerConfig config
    → IsServerConfig (identified id cfg config)
unfolding identified validate_server_config
identified-IsServerConfig id cfg config v =
    (validate_server_config_iff (identified id cfg config)).0
      ((validate_server_config_iff config).1 v)

module _ (env : Env HandlerCall HandlerAnswer)
    (Source : Option ModpackConfig → String → List HandlerCall → Type 0) where
  -- A config that may be stored under a new id: it is valid, what it names is offered, and no other
  -- server has its name.
  pub record IsCreatable (id : String) (config : ServerConfig) (h : List HandlerCall) : Type 0 where
    pub fresh : Told env new_uuid (λ x. x ≡ id) h
    pub identity : config.id ≡ id
    pub valid : IsServerConfig config
    pub source : Source config.modpack config.minecraft_version h
    pub place : IsPlaceOffered env config h
    pub name_free : IsNameFree env config.name "" h

  -- What is known of the config before the duplicate check.
  pub record IsAdmitted (cfg : ControllerConfig) (config : ServerConfig) (h : List HandlerCall)
      : Type 0 where
    pub valid : IsServerConfig config
    pub source : Source config.modpack config.minecraft_version h
    pub place : IsPlaceOffered env config h
    pub connected : Told env get_db_connection (λ r. r ≡ ok cfg) h

-- The program config of an operation that may start: the one that is built from the stored config.
pub record IsLaunch (env : Env HandlerCall HandlerAnswer) (adjust : ProgramConfig → ProgramConfig)
    (id : String) (program : ProgramConfig) (h : List HandlerCall) : Type 0 where
  pub config : ServerConfig
  pub cfg : ControllerConfig
  pub token : String
  pub stored : Told env (create_server_config id config) (λ a. a ≡ none) h
  pub connected : Told env get_db_connection (λ r. r ≡ ok cfg) h
  pub minted : Told env (mint_token config.name) (λ r. r ≡ ok token) h
  pub built : program ≡ adjust (build_program_config id config cfg token)

module _ (Allowed : HandlerCall → List HandlerCall → Type 0) {F : List HandlerCall → Type 0} where
  pub check_started-Knows :
      (id prefix : String) (r : Option Error)
      → Triple
          (Refused Allowed)
          (Knows Allowed F)
          (check_started id prefix r)
          (λ _. Knows Allowed (λ h. F h × (r ≡ none)))
  unfolding check_started
  check_started-Knows id prefix none =
      Knows-pure Allowed (λ _ h. F h × (none ≡ none)) tt λ h f. (f, refl)
  check_started-Knows id prefix (some e) =
      Triple-if _ _ _ (Knows-refuse Allowed _ _) (Knows-refuse Allowed _ _)

module _ (env : Env HandlerCall HandlerAnswer) (site : Site)
    (Source : Option ModpackConfig → String → List HandlerCall → Type 0)
    (Writes : HandlerCall → List HandlerCall → Type 0)
    (creatable : (id : String) (config : ServerConfig) (h : List HandlerCall)
      → IsCreatable env Source id config h
      → Writes (create_server_config id config) h)
    (start : String → ProgramConfig → Handler (Option Error))
    (adjust : ProgramConfig → ProgramConfig)
    (Started : String → Option Error → List HandlerCall → Type 0) {F : List HandlerCall → Type 0}
    (keeps : Keeps F)
    (start-Started : (G : List HandlerCall → Type 0)
      → Keeps G
      → ((h : List HandlerCall) → G h → F h)
      → (id : String) (program : ProgramConfig)
      → ((h : List HandlerCall) → G h → IsLaunch env adjust id program h)
      → Triple
          (Refused (ReadsAnd Writes))
          (Knows (ReadsAnd Writes) G)
          (start id program)
          (λ r. Knows (ReadsAnd Writes) (Started id r))) where
  as-IsCreatable :
      (cfg : ControllerConfig) (config : ServerConfig) (id : String) (h : List HandlerCall)
      → IsAdmitted env Source cfg config h
      → IsNameFree env config.name "" h
      → Told env new_uuid (λ x. x ≡ id) h
      → IsCreatable env Source id (identified id cfg config) h
  unfolding identified
  as-IsCreatable cfg config id h a free fresh = record {
    fresh = fresh;
    identity = refl;
    valid = identified-IsServerConfig id cfg config a.valid;
    source = a.source;
    place = record {
      machine_type = a.place.machine_type;
      region = a.place.region;
      zone = a.place.zone;
    };
    name_free = free;
  }

  pub launch-Knows :
      (cfg : ControllerConfig) (config : ServerConfig)
      → ((h : List HandlerCall) → F h → IsAdmitted env Source cfg config h)
      → Triple
          (Refused (ReadsAnd Writes))
          (Knows (ReadsAnd Writes) F)
          (launch env site start adjust cfg config)
          (λ response. Knows (ReadsAnd Writes) (Started response.id none))
  unfolding launch identified accepted_response
  launch-Knows cfg config admitted =
      let free = keeps_told env list_server_configs (λ r. taken_in config.name "" r ≡ ok false) in
      Triple-bind _ _ (check_name-Knows env site Writes keeps config.name "") λ _.
        ask env (ReadsAnd Writes) (keeps_both keeps free) new_uuid (λ h f. inl tt) _
          λ id.
            let kept =
              keeps_told env (create_server_config id (identified id cfg config)) (λ x. x ≡ none) in
            let fresh = keeps_told env new_uuid (λ x. x ≡ id) in
            ask_done env (ReadsAnd Writes) (keeps_both (keeps_both keeps free) fresh)
              (create_server_config id (identified id cfg config))
              (λ h p.
                inr
                  (creatable id _ h (as-IsCreatable cfg config id h (admitted h p.0.0) p.0.1 p.1)))
              (λ r. r) _ _ _
              (Triple-bind _ _ (Knows-require (ReadsAnd Writes) site.provisioning _ _) λ _.
                Knows-more (ReadsAnd Writes) (λ h p. (p.0.0.0.0, p.0.1))
                  (ask_ok env (ReadsAnd Writes) (keeps_both keeps kept) (mint_token config.name)
                    (λ h p. inl tt) (λ r. r) _ _ _
                    λ token.
                      Triple-bind _ _
                        (start-Started _
                          (keeps_both (keeps_both keeps kept)
                            (keeps_told env (mint_token config.name) _))
                          (λ h p. p.0.0) id _
                          λ h p. record {
                            config = identified id cfg config;
                            cfg = cfg;
                            token = token;
                            stored = p.0.1;
                            connected = (admitted h p.0.0).connected;
                            minted = p.1;
                            built = refl;
                          })
                        λ r. Triple-bind _ _ (check_started-Knows (ReadsAnd Writes) id _ r) λ _.
                          Knows-pure (ReadsAnd Writes) (λ response. Started response.id none) _
                            λ h p. subst (λ x. Started id x h) p.1 p.0))
