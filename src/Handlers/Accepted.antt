-- ===== src/Handlers/Accepted.antt =====
-- When `CreateServer` accepts a request.
use metio.Base.{
  Any, ℕ, String, ◌≡◌, refl, sym, subst, inl, inr, true, Option, none, if◌then◌else◌, ◌⊎◌, false,
  some, ◌==◌, eq_iff,
}
use metio.Exec.{Error, ok, ◌>>=◌, call, pure, ◌>>◌, now}
use metio.Handlers.{
  HandlerCall, HandlerAnswer, get_db_connection, list_server_configs, create_server_config,
  list_minecraft_versions, list_gcp_regions, list_gcp_machine_types, list_modrinth_pack_versions,
  start_create, new_uuid, mint_token, Site, decode,
}
use metio.Types.{ModpackConfig, ServerConfig, Time}
use metio.Programs.{ControllerConfig, build_program_config}
use metio.Validation.Config.{IsServerConfig, validate_server_config_iff}
use metio.Handlers.Options.{
  offers_zone, is_offered, is_minecraft_version_available, is_machine_type_available,
  is_region_available, is_zone_available, is_modpack_available, is_modpack_version_available,
}
use metio.Handlers.Checks.{
  taken_in, no_violation, check_valid, check_version, check_pinned, check_pack, check_modpack,
  check_source, check_machine_type, check_region, check_zone, check_place, check_started,
  is_server_name_taken, check_name, connect,
}
use metio.Handlers.Create.{identified, CreateServerRequest, requested_config, launch, create_server}
use metio.Handlers.Offered.{IsListed}
use metio.Handlers.Responses.{accepted_response}
use metio.Handlers.Creation.{arrival}
use metio.Handlers.Returns.{
  steady, Returns, Returns-bind, Returns-expect, Returns-no_error, Returns-require,
  any_match-of_Any, either_Returns, Returns-call, Returns-demand,
}

module _ (reply : (c : HandlerCall) → HandlerAnswer c) (latency : ℕ) where
  -- The pack of the config has versions, among them the one that is pinned; or its version is
  -- offered.
  abbrev pub IsSourceListed : Option ModpackConfig → String → Type 0
  IsSourceListed none version = IsListed version (reply list_minecraft_versions)
  IsSourceListed (some m) version =
      (is_offered (reply (list_modrinth_pack_versions m.project_id)) ≡ true)
      × ((m.version_id ≡ "")
          ⊎ IsListed m.version_id (reply (list_modrinth_pack_versions m.project_id)))

  -- A config that nothing speaks against, and calls that do not fail.
  pub record IsWelcome (site : Site) (config : ServerConfig) (cfg : ControllerConfig)
      (token : String) : Type 0 where
    pub valid : IsServerConfig config
    pub source : IsSourceListed config.modpack config.minecraft_version
    pub machine_type : Any (λ t. t.id ≡ config.machine_type) (reply list_gcp_machine_types)
    pub region : Any (λ r. r.id ≡ config.region) (reply list_gcp_regions)
    pub zone : offers_zone config.region config.zone (reply list_gcp_regions) ≡ true
    pub name_free : taken_in config.name "" (reply list_server_configs) ≡ ok false
    pub connected : reply get_db_connection ≡ ok cfg
    pub stored :
        reply (create_server_config (reply new_uuid) (identified (reply new_uuid) cfg config))
        ≡ none
    pub provisioning : site.provisioning ≡ true
    pub minted : reply (mint_token config.name) ≡ ok token
    pub started :
        reply (
          start_create (reply new_uuid) (
            build_program_config
              (reply new_uuid)
              (identified (reply new_uuid) cfg config)
              cfg
              token))
        ≡ none

  module _ (site : Site) where
    version_Returns :
        (version : String)
        → IsListed version (reply list_minecraft_versions)
        → Returns (check_version (steady reply latency) site version) tt
    unfolding check_version is_minecraft_version_available
    version_Returns version h =
        Returns-demand reply latency list_minecraft_versions _ _ _
          (any_match-of_Any _ (λ v e. (eq_iff v version).1 e) _ h)

    pinned_Returns :
        (m : ModpackConfig)
        → ((m.version_id ≡ "")
            ⊎ IsListed m.version_id (reply (list_modrinth_pack_versions m.project_id)))
        → Returns
            (if m.version_id == "" then pure tt else check_pinned (steady reply latency) site m)
            tt
    unfolding check_pinned is_modpack_version_available
    pinned_Returns m (inl e) =
        subst (λ b. Returns (if b then pure tt else check_pinned (steady reply latency) site m) tt)
          (sym ((eq_iff m.version_id "").1 e)) (record { at = λ w. refl })
    pinned_Returns m (inr h) =
        let checked =
          Returns-demand reply latency (list_modrinth_pack_versions m.project_id) _ _ _
            (any_match-of_Any _ (λ v e. (eq_iff v m.version_id).1 e) _ h) in
        either_Returns (m.version_id == "") checked

    source_Returns :
        (o : Option ModpackConfig) (version : String)
        → IsSourceListed o version
        → Returns (check_source (steady reply latency) site o version) tt
    unfolding check_source check_modpack check_pack is_modpack_available
    source_Returns none version h = version_Returns version h
    source_Returns (some m) version (h, k) =
        Returns-bind _ _
          (Returns-demand reply latency (list_modrinth_pack_versions m.project_id) _ _ _ h)
          (pinned_Returns m k)

    place_Returns :
        (config : ServerConfig)
        → Any (λ t. t.id ≡ config.machine_type) (reply list_gcp_machine_types)
        → Any (λ r. r.id ≡ config.region) (reply list_gcp_regions)
        → offers_zone config.region config.zone (reply list_gcp_regions) ≡ true
        → Returns (check_place (steady reply latency) site config) tt
    unfolding check_place check_machine_type check_region check_zone is_machine_type_available
        is_region_available is_zone_available
    place_Returns config t r z =
        Returns-bind _ _
          (Returns-demand reply latency list_gcp_machine_types _ _ _
            (any_match-of_Any _ (λ x e. (eq_iff x.id config.machine_type).1 e) _ t))
          (Returns-bind _ _
            (Returns-demand reply latency list_gcp_regions _ _ _
              (any_match-of_Any _ (λ x e. (eq_iff x.id config.region).1 e) _ r))
            (Returns-demand reply latency list_gcp_regions _ _ _ z))

    valid_Returns :
        (config : ServerConfig)
        → IsServerConfig config
        → Returns (check_valid (steady reply latency) site config) tt
    unfolding check_valid no_violation
    valid_Returns config v =
        subst (λ o. Returns (no_violation (steady reply latency) site o) tt)
          (sym ((validate_server_config_iff config).1 v)) (record { at = λ w. refl })

    name_Returns :
        (name : String)
        → taken_in name "" (reply list_server_configs) ≡ ok false
        → Returns (check_name (steady reply latency) site name "") tt
    unfolding check_name is_server_name_taken
    name_Returns name e =
        Returns-bind _ _
          (Returns-bind _ _ (Returns-call reply latency list_server_configs)
            (record { at = λ w. refl }))
          (Returns-bind _ _ (Returns-expect _ _ e) (Returns-require _ _ refl))

    started_Returns :
        (id prefix : String) (r : Option Error) → r ≡ none → Returns (check_started id prefix r) tt
    unfolding check_started
    started_Returns id prefix r e =
        subst (λ x. Returns (check_started id prefix x) tt) (sym e) (record { at = λ w. refl })

    launch-Returns :
        (cfg : ControllerConfig) (config : ServerConfig) (token : String)
        → IsWelcome site config cfg token
        → Returns
            (launch
              (steady reply latency)
              site
              (λ id p. call (steady reply latency) (start_create id p))
              (λ p. p)
              cfg
              config)
            (accepted_response site (reply new_uuid) (identified (reply new_uuid) cfg config))
    unfolding launch
    launch-Returns cfg config token v = Returns-bind _ _ (name_Returns config.name v.name_free) (
        Returns-bind _ _ (Returns-call reply latency new_uuid) (
          Returns-bind _ _ (Returns-call reply latency (create_server_config (reply new_uuid) _)) (
            Returns-bind _ _ (Returns-no_error _ _ v.stored) (
              Returns-bind _ _ (Returns-require _ _ v.provisioning) (
                Returns-bind _ _ (Returns-call reply latency (mint_token config.name)) (
                  Returns-bind _ _ (Returns-expect _ _ v.minted) (
                    Returns-bind _ _ (Returns-call reply latency (start_create (reply new_uuid) _))
                      (Returns-bind _ _ (started_Returns _ _ _ v.started)
                        (record { at = λ w. refl })))))))))

    create_Returns :
        (cfg : ControllerConfig) (config : ServerConfig) (token : String)
        → IsWelcome site config cfg token
        → Returns
            (check_valid (steady reply latency) site config
              >> (check_source (steady reply latency) site config.modpack config.minecraft_version
                  >> (check_place (steady reply latency) site config
                      >> (connect (steady reply latency) site >>= λ c.
                          launch
                            (steady reply latency)
                            site
                            (λ id p. call (steady reply latency) (start_create id p))
                            (λ p. p)
                            c
                            config))))
            (accepted_response site (reply new_uuid) (identified (reply new_uuid) cfg config))
    unfolding connect
    create_Returns cfg config token v = Returns-bind _ _ (valid_Returns config v.valid) (
        Returns-bind _ _ (source_Returns config.modpack config.minecraft_version v.source) (
          Returns-bind _ _ (place_Returns config v.machine_type v.region v.zone) (
            Returns-bind _ _
              (Returns-bind _ _ (Returns-call reply latency get_db_connection)
                (Returns-expect _ _ v.connected))
              (launch-Returns cfg config token v))))

-- A request to `CreateServer` is accepted if nothing speaks against it: if its config is valid, what
-- it names is offered, no server has its name, the provisioning service is there, and the database,
-- the token and the start of the creation do not fail, then the response is the one that accepts the
-- config, stored under the new id.
pub create_server-accepted :
    (reply : (c : HandlerCall) → HandlerAnswer c) (latency : ℕ) (site : Site)
    (req : CreateServerRequest) (time : Time) (cfg : ControllerConfig) (token : String)
    → IsWelcome reply latency site (requested_config req time time) cfg token
    → (create_server (steady reply latency) site (some req) (arrival time)).0
      ≡ ok (
          accepted_response site
            (reply new_uuid)
            (identified (reply new_uuid) cfg (requested_config req time time)))
unfolding create_server decode now ◌>>=◌
create_server-accepted reply latency site req time cfg token v =
    (create_Returns reply latency site cfg (requested_config req time time) token v).at
      (arrival time)
