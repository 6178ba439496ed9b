-- ===== src/Handlers/Options.antt =====
-- What a request may name: the checks of internal/handlers/servers/options.go against the lists
-- that the controller offers.
use metio.Base.{if◌then◌else◌, String, Bool, true, false, List, [], ◌∷◌, ◌==◌}
use metio.Exec.{pure, ◌>>=◌, Env, call}
use metio.Handlers.{
  RegionOption, HandlerCall, list_minecraft_versions, list_gcp_regions, list_gcp_machine_types,
  list_modrinth_pack_versions, HandlerAnswer, Handler, any_match,
}

-- `isZoneAvailable`, on the list of the regions: the first region with the id decides.
unfoldable pub offers_zone : String → String → List RegionOption → Bool
offers_zone region zone [] = false
offers_zone region zone (r ∷ regions) =
    let rest = offers_zone region zone regions in
    if r.id == region then any_match (λ z. z == zone) r.zones else rest

-- `len(versions) > 0`
unfoldable pub is_offered : List String → Bool
is_offered [] = false
is_offered (v ∷ vs) = true

module _ (env : Env HandlerCall HandlerAnswer) where
  unfoldable pub is_minecraft_version_available : String → Handler Bool
  is_minecraft_version_available version =
      call env list_minecraft_versions >>= λ offered. pure (any_match (λ v. v == version) offered)

  unfoldable pub is_machine_type_available : String → Handler Bool
  is_machine_type_available machine_type = call env list_gcp_machine_types >>= λ offered.
      pure (any_match (λ t. t.id == machine_type) offered)

  unfoldable pub is_region_available : String → Handler Bool
  is_region_available region =
      call env list_gcp_regions >>= λ offered. pure (any_match (λ r. r.id == region) offered)

  unfoldable pub is_zone_available : String → String → Handler Bool
  is_zone_available region zone =
      call env list_gcp_regions >>= λ offered. pure (offers_zone region zone offered)

  unfoldable pub is_modpack_available : String → Handler Bool
  is_modpack_available id =
      call env (list_modrinth_pack_versions id) >>= λ versions. pure (is_offered versions)

  unfoldable pub is_modpack_version_available : String → String → Handler Bool
  is_modpack_version_available id version =
      call env (list_modrinth_pack_versions id) >>= λ versions.
      pure (any_match (λ v. v == version) versions)
