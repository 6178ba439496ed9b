-- ===== src/Handlers/Offered.antt =====
-- What the shared checks of the request handlers establish about the config that they pass.
use metio.Base.{
  Bool-cases, if-true, if-false, Any, String, ◌≡◌, sym, ◌∙◌, ◌≢◌, inl, inr, Bool, true, List, [],
  ◌∷◌, ◌==◌, eq_iff, ℕ, ap, ◌⊎◌, false, Option, none, some,
}
use metio.Handlers.{
  RegionOption, any_match, HandlerCall, list_server_configs, list_minecraft_versions,
  list_gcp_regions, list_gcp_machine_types, list_modrinth_pack_versions, HandlerAnswer, Site,
  require,
}
use metio.Handlers.Options.{
  offers_zone, is_offered, is_minecraft_version_available, is_machine_type_available,
  is_region_available, is_zone_available, is_modpack_available, is_modpack_version_available,
}
use metio.Types.{ModpackConfig, ServerConfig}
use metio.Exec.{ok, pure, ◌>>=◌, Env, call}
use metio.Exec.Triple.{Triple, Triple-bind}
use metio.Handlers.Checks.{
  taken_in, check_version, check_pinned, check_machine_type, check_pack, check_region, check_zone,
}
use metio.Handlers.Guards.{
  Told, Knows, Refused, Knows-pure, Knows-require, Knows-conclude, IsRead, ReadsAnd,
}
use metio.Handlers.Steps.{Keeps, Told_map, ask}

-- The text is in the list.
abbrev pub IsListed : String → List String → Type 0
IsListed s xs = Any (λ x. x ≡ s) xs

-- The region is offered, and the zone within it.
abbrev pub IsZoneOf : String → String → RegionOption → Type 0
IsZoneOf region zone r = (r.id ≡ region) × IsListed zone r.zones

any_match-Any :
    {A : Type 0} {P : A → Type 0} (test : A → Bool)
    → ((a : A) → test a ≡ true → P a)
    → (xs : List A) → any_match test xs ≡ true
    → Any P xs
unfolding any_match
any_match-Any test f [] h = absurd (cc)
any_match-Any test f (x ∷ xs) h = elim (Bool-cases (test x)) [
  | inl t ↦ inl (f x t)
  | inr t ↦ inr (any_match-Any test f xs (cc))
]

any_match-IsListed :
    (s : String) (xs : List String) → any_match (λ x. x == s) xs ≡ true → IsListed s xs
any_match-IsListed s xs h = any_match-Any _ (λ x t. (eq_iff x s).0 t) xs h

offers_zone-IsZoneOf :
    (region zone : String) (rs : List RegionOption)
    → offers_zone region zone rs ≡ true
    → Any (IsZoneOf region zone) rs
unfolding offers_zone
offers_zone-IsZoneOf region zone [] h = absurd (cc)
offers_zone-IsZoneOf region zone (r ∷ rs) h = elim (Bool-cases (r.id == region)) [
  | inl t ↦
      inl ((eq_iff r.id region).0 t, any_match-IsListed zone r.zones (sym (if-true _ _ t) ∙ h))
  | inr t ↦ inr (offers_zone-IsZoneOf region zone rs (sym (if-false _ _ t) ∙ h))
]

is_offered-cons : (vs : List String) → is_offered vs ≡ true → vs ≢ []
unfolding is_offered
is_offered-cons vs h e = absurd (cc (rw e at h))

module _ (env : Env HandlerCall HandlerAnswer) where
  abbrev pub IsVersionOffered : String → List HandlerCall → Type 0
  IsVersionOffered version = Told env list_minecraft_versions (IsListed version)

  abbrev pub HasVersions : String → List HandlerCall → Type 0
  HasVersions id = Told env (list_modrinth_pack_versions id) (λ vs. vs ≢ [])

  -- The pack has versions, and the version that is pinned is one of them.
  pub record IsPackOffered (m : ModpackConfig) (h : List HandlerCall) : Type 0 where
    pub pack : HasVersions m.project_id h
    pub version :
        (m.version_id ≡ "")
        ⊎ Told env (list_modrinth_pack_versions m.project_id) (IsListed m.version_id) h

  -- What a new server runs is offered: its pack, or its version.
  abbrev pub IsSourceOffered : Option ModpackConfig → String → List HandlerCall → Type 0
  IsSourceOffered none version = IsVersionOffered version
  IsSourceOffered (some m) version = IsPackOffered m

  -- The same of a vanilla server only.
  abbrev pub IsVanillaOffered : Option ModpackConfig → String → List HandlerCall → Type 0
  IsVanillaOffered none version = IsVersionOffered version
  IsVanillaOffered (some m) version = λ h. Unit

  abbrev pub IsMachineTypeOffered : String → List HandlerCall → Type 0
  IsMachineTypeOffered machine_type =
      Told env list_gcp_machine_types (Any (λ t. t.id ≡ machine_type))

  abbrev pub IsRegionOffered : String → List HandlerCall → Type 0
  IsRegionOffered region = Told env list_gcp_regions (Any (λ r. r.id ≡ region))

  abbrev pub IsZoneOffered : String → String → List HandlerCall → Type 0
  IsZoneOffered region zone = Told env list_gcp_regions (Any (IsZoneOf region zone))

  -- Where a new server runs is offered.
  pub record IsPlaceOffered (config : ServerConfig) (h : List HandlerCall) : Type 0 where
    pub machine_type : IsMachineTypeOffered config.machine_type h
    pub region : IsRegionOffered config.region h
    pub zone : IsZoneOffered config.region config.zone h

  -- No server but the one with the id `exclude` has the name.
  abbrev pub IsNameFree : String → String → List HandlerCall → Type 0
  IsNameFree name exclude = Told env list_server_configs (λ r. taken_in name exclude r ≡ ok false)

  module _ (site : Site) (Writes : HandlerCall → List HandlerCall → Type 0)
      {F : List HandlerCall → Type 0} (keeps : Keeps F) where
    -- A test of the answer to a call, which must be true.
    demand :
        (c : HandlerCall) (P : HandlerAnswer c → Type 0)
        → IsRead c
        → (test : HandlerAnswer c → Bool) → ((a : HandlerAnswer c) → test a ≡ true → P a)
        → (status : ℕ) (text : String)
        → Triple
            (Refused (ReadsAnd Writes))
            (Knows (ReadsAnd Writes) F)
            ((call env c >>= λ a. pure (test a)) >>= λ b. require b status text)
            (λ _. Knows (ReadsAnd Writes) (λ h. F h × Told env c P h))
    demand c P read test sound status text =
        Triple-bind _ _
          (ask env (ReadsAnd Writes) keeps c (λ h f. inl read) _
            λ a.
              Knows-pure (ReadsAnd Writes) (λ b h. F h × Told env c (λ x. test x ≡ b) h) (test a)
                λ h p. (p.0, Told_map env c (λ x e. ap test e) p.1))
          λ b.
            Knows-conclude (ReadsAnd Writes) (Knows-require (ReadsAnd Writes) b status text)
              λ u h p. (p.0.0, Told_map env c (λ x e. sound x (e ∙ p.1)) p.0.1)

    pub check_version-Knows :
        (version : String)
        → Triple
            (Refused (ReadsAnd Writes))
            (Knows (ReadsAnd Writes) F)
            (check_version env site version)
            (λ _. Knows (ReadsAnd Writes) (λ h. F h × IsVersionOffered version h))
    unfolding check_version is_minecraft_version_available
    check_version-Knows version =
        demand list_minecraft_versions (IsListed version) tt _ (any_match-IsListed version) _ _

    pub check_machine_type-Knows :
        (machine_type : String)
        → Triple
            (Refused (ReadsAnd Writes))
            (Knows (ReadsAnd Writes) F)
            (check_machine_type env site machine_type)
            (λ _. Knows (ReadsAnd Writes) (λ h. F h × IsMachineTypeOffered machine_type h))
    unfolding check_machine_type is_machine_type_available
    check_machine_type-Knows machine_type =
        demand list_gcp_machine_types (Any (λ t. t.id ≡ machine_type)) tt _
          (any_match-Any _ λ t e. (eq_iff t.id machine_type).0 e) _ _

    pub check_region-Knows :
        (region : String)
        → Triple
            (Refused (ReadsAnd Writes))
            (Knows (ReadsAnd Writes) F)
            (check_region env site region)
            (λ _. Knows (ReadsAnd Writes) (λ h. F h × IsRegionOffered region h))
    unfolding check_region is_region_available
    check_region-Knows region =
        demand list_gcp_regions (Any (λ r. r.id ≡ region)) tt _
          (any_match-Any _ λ r e. (eq_iff r.id region).0 e) _ _

    pub check_zone-Knows :
        (region zone : String)
        → Triple
            (Refused (ReadsAnd Writes))
            (Knows (ReadsAnd Writes) F)
            (check_zone env site region zone)
            (λ _. Knows (ReadsAnd Writes) (λ h. F h × IsZoneOffered region zone h))
    unfolding check_zone is_zone_available
    check_zone-Knows region zone =
        demand list_gcp_regions (Any (IsZoneOf region zone)) tt _ (offers_zone-IsZoneOf region zone)
          _ _

    pub check_pack-Knows :
        (id : String)
        → Triple
            (Refused (ReadsAnd Writes))
            (Knows (ReadsAnd Writes) F)
            (check_pack env site id)
            (λ _. Knows (ReadsAnd Writes) (λ h. F h × HasVersions id h))
    unfolding check_pack is_modpack_available
    check_pack-Knows id =
        demand (list_modrinth_pack_versions id) (λ vs. vs ≢ []) tt _ is_offered-cons _ _

    pub check_pinned-Knows :
        (m : ModpackConfig)
        → Triple
            (Refused (ReadsAnd Writes))
            (Knows (ReadsAnd Writes) F)
            (check_pinned env site m)
            (λ _. Knows (ReadsAnd Writes) (λ h.
              F h × Told env (list_modrinth_pack_versions m.project_id) (IsListed m.version_id) h))
    unfolding check_pinned is_modpack_version_available
    check_pinned-Knows m =
        demand (list_modrinth_pack_versions m.project_id) (IsListed m.version_id) tt _
          (any_match-IsListed m.version_id) _ _
