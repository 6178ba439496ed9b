-- ===== src/Handlers/Checked.antt =====
-- What a config satisfies that has passed the checks of a new server.
use metio.Base.{
  Any, String, ◌≡◌, inl, inr, Option, none, some, List, ◌==◌, if◌then◌else◌, refl, ap, ◌∙◌, ◌≢◌,
  ◌⊎◌, Bool, true, false, not, [], eq_iff,
}
use metio.Types.{ModpackConfig, ServerConfig}
use metio.Exec.{ok, Env, pure}
use metio.Exec.Triple.{Triple, Triple-bind}
use metio.Validation.{ValidationError}
use metio.Validation.Config.{IsServerConfig, validate_server_config_iff}
use metio.Handlers.{
  HandlerCall, get_db_connection, list_gcp_regions, list_gcp_machine_types, HandlerAnswer, Site,
  list_server_configs, list_modrinth_pack_versions, list_minecraft_versions,
}
use metio.Handlers.Checks.{
  is_server_name_taken, check_name, check_valid, check_modpack, check_source, check_vanilla,
  check_place, connect, taken_in, no_violation, check_pinned,
}
use metio.Handlers.Guards.{
  ReadsAnd, Told, Knows, Refused, Knows-pure, Knows-conclude, Knows-refuse, Knows-require,
  Knows-expect, told_before,
}
use metio.Handlers.Steps.{Keeps, keeps_both, keeps_told, Told_map, ask, keeps_fixed}
use metio.Handlers.Offered.{
  IsPackOffered, IsSourceOffered, IsVanillaOffered, IsPlaceOffered, IsNameFree, check_version-Knows,
  check_machine_type-Knows, IsListed, check_region-Knows, check_zone-Knows, check_pack-Knows,
  check_pinned-Knows,
}

not-true : (b : Bool) → not b ≡ true → b ≡ false
not-true false h = refl
not-true true h = absurd (cc)

module _ (env : Env HandlerCall HandlerAnswer) where
  pub keeps_pack : (m : ModpackConfig) → Keeps (IsPackOffered env m)
  keeps_pack m = record {
    keep = λ p. record {
      pack = told_before p.pack;
      version = elim p.version [ inl e ↦ inl e | inr t ↦ inr (told_before t) ];
    };
  }

  pub keeps_source :
      (o : Option ModpackConfig) (version : String) → Keeps (IsSourceOffered env o version)
  keeps_source none version = keeps_told env list_minecraft_versions (IsListed version)
  keeps_source (some m) version = keeps_pack m

  pub keeps_vanilla :
      (o : Option ModpackConfig) (version : String) → Keeps (IsVanillaOffered env o version)
  keeps_vanilla none version = keeps_told env list_minecraft_versions (IsListed version)
  keeps_vanilla (some m) version = keeps_fixed

  pub keeps_place : (config : ServerConfig) → Keeps (IsPlaceOffered env config)
  keeps_place config = record {
    keep = λ p. record {
      machine_type = told_before p.machine_type;
      region = told_before p.region;
      zone = told_before p.zone;
    };
  }

module _ (env : Env HandlerCall HandlerAnswer) (site : Site)
    (Writes : HandlerCall → List HandlerCall → Type 0) {F : List HandlerCall → Type 0}
    (keeps : Keeps F) where
  pinned_or_not :
      (m : ModpackConfig) (pinned : Bool)
      → (m.version_id == "") ≡ pinned
      → Triple
          (Refused (ReadsAnd Writes))
          (Knows (ReadsAnd Writes) F)
          (if pinned then pure tt else check_pinned env site m)
          (λ _. Knows (ReadsAnd Writes) (λ h.
            F h
            × ((m.version_id ≡ "")
                ⊎ Told env (list_modrinth_pack_versions m.project_id) (IsListed m.version_id) h)))
  pinned_or_not m true e =
      Knows-pure (ReadsAnd Writes)
        (λ _ h.
          F h
          × ((m.version_id ≡ "")
              ⊎ Told env (list_modrinth_pack_versions m.project_id) (IsListed m.version_id) h))
        tt λ h p. (p, inl ((eq_iff m.version_id "").0 e))
  pinned_or_not m false e =
      Knows-conclude (ReadsAnd Writes) (check_pinned-Knows env site Writes keeps m)
        λ _ h p. (p.0, inr p.1)

  none_violated :
      (P : Type 0) (o : Option ValidationError)
      → (o ≡ none → P)
      → Triple
          (Refused (ReadsAnd Writes))
          (Knows (ReadsAnd Writes) F)
          (no_violation env site o)
          (λ _. Knows (ReadsAnd Writes) (λ h. F h × P))
  unfolding no_violation
  none_violated P none f = Knows-pure (ReadsAnd Writes) (λ _ h. F h × P) tt λ h p. (p, f refl)
  none_violated P (some e) f = Knows-refuse (ReadsAnd Writes) _ _

module _ (env : Env HandlerCall HandlerAnswer) (site : Site)
    (Writes : HandlerCall → List HandlerCall → Type 0) {F : List HandlerCall → Type 0}
    (keeps : Keeps F) where
  pub check_modpack-Knows :
      (m : ModpackConfig)
      → Triple
          (Refused (ReadsAnd Writes))
          (Knows (ReadsAnd Writes) F)
          (check_modpack env site m)
          (λ _. Knows (ReadsAnd Writes) (λ h. F h × IsPackOffered env m h))
  unfolding check_modpack
  check_modpack-Knows m =
      let offered = keeps_told env (list_modrinth_pack_versions m.project_id) (λ vs. vs ≢ []) in
      Triple-bind _ _ (check_pack-Knows env site Writes keeps m.project_id) λ _.
        Knows-conclude (ReadsAnd Writes)
          (pinned_or_not env site Writes (keeps_both keeps offered) m _ refl)
          λ _ h p. (p.0.0, record { pack = p.0.1; version = p.1 })

  pub check_source-Knows :
      (o : Option ModpackConfig) (version : String)
      → Triple
          (Refused (ReadsAnd Writes))
          (Knows (ReadsAnd Writes) F)
          (check_source env site o version)
          (λ _. Knows (ReadsAnd Writes) (λ h. F h × IsSourceOffered env o version h))
  unfolding check_source
  check_source-Knows none version = check_version-Knows env site Writes keeps version
  check_source-Knows (some m) version = check_modpack-Knows m

  pub check_vanilla-Knows :
      (o : Option ModpackConfig) (version : String)
      → Triple
          (Refused (ReadsAnd Writes))
          (Knows (ReadsAnd Writes) F)
          (check_vanilla env site o version)
          (λ _. Knows (ReadsAnd Writes) (λ h. F h × IsVanillaOffered env o version h))
  unfolding check_vanilla
  check_vanilla-Knows none version = check_version-Knows env site Writes keeps version
  check_vanilla-Knows (some m) version =
      Knows-pure (ReadsAnd Writes) (λ _ h. F h × Unit) tt λ h p. (p, tt)

  pub check_place-Knows :
      (config : ServerConfig)
      → Triple
          (Refused (ReadsAnd Writes))
          (Knows (ReadsAnd Writes) F)
          (check_place env site config)
          (λ _. Knows (ReadsAnd Writes) (λ h. F h × IsPlaceOffered env config h))
  unfolding check_place
  check_place-Knows config =
      let kept = keeps_told env list_gcp_machine_types (Any (λ t. t.id ≡ config.machine_type)) in
      let found = keeps_told env list_gcp_regions (Any (λ r. r.id ≡ config.region)) in
      Triple-bind _ _ (check_machine_type-Knows env site Writes keeps config.machine_type) λ _.
        Triple-bind _ _ (check_region-Knows env site Writes (keeps_both keeps kept) config.region)
          λ _.
            Knows-conclude (ReadsAnd Writes)
              (check_zone-Knows env site Writes (keeps_both (keeps_both keeps kept) found)
                config.region config.zone)
              λ _ h p. (p.0.0.0, record { machine_type = p.0.0.1; region = p.0.1; zone = p.1 })

  pub check_valid-Knows :
      (config : ServerConfig)
      → Triple
          (Refused (ReadsAnd Writes))
          (Knows (ReadsAnd Writes) F)
          (check_valid env site config)
          (λ _. Knows (ReadsAnd Writes) (λ h. F h × IsServerConfig config))
  unfolding check_valid
  check_valid-Knows config =
      none_violated env site Writes keeps (IsServerConfig config) _
        (validate_server_config_iff config).0

  pub check_name-Knows :
      (name exclude : String)
      → Triple
          (Refused (ReadsAnd Writes))
          (Knows (ReadsAnd Writes) F)
          (check_name env site name exclude)
          (λ _. Knows (ReadsAnd Writes) (λ h. F h × IsNameFree env name exclude h))
  unfolding check_name is_server_name_taken
  check_name-Knows name exclude =
      Triple-bind _ _
        (ask env (ReadsAnd Writes) keeps list_server_configs (λ h f. inl tt) _
          λ r.
            Knows-pure (ReadsAnd Writes)
              (λ b h. F h × Told env list_server_configs (λ x. taken_in name exclude x ≡ b) h)
              (taken_in name exclude r)
              λ h p.
                (p.0, Told_map env list_server_configs (λ x e. ap (taken_in name exclude) e) p.1))
        λ result. Triple-bind _ _ (Knows-expect (ReadsAnd Writes) _ _ result) λ taken.
          Knows-conclude (ReadsAnd Writes) (Knows-require (ReadsAnd Writes) (not taken) _ _)
            λ _ h p. (
              p.0.0.0,
              Told_map env list_server_configs (λ x e. e ∙ p.0.1 ∙ ap ok (not-true taken p.1))
                  p.0.0.1,
            )

  pub connect-Knows :
      Triple
        (Refused (ReadsAnd Writes))
        (Knows (ReadsAnd Writes) F)
        (connect env site)
        (λ cfg. Knows (ReadsAnd Writes) (λ h. F h × Told env get_db_connection (λ r. r ≡ ok cfg) h))
  unfolding connect
  connect-Knows =
      ask env (ReadsAnd Writes) keeps get_db_connection (λ h f. inl tt) _
        λ r.
          Knows-conclude (ReadsAnd Writes) (Knows-expect (ReadsAnd Writes) _ _ r)
            λ cfg h p. (p.0.0, Told_map env get_db_connection (λ x e. e ∙ p.1) p.0.1)
