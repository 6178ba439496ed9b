-- ===== src/Handlers/Rechecked.antt =====
-- The checks of `UpdateServer` on the fields that the request sets, as triples.
use metio.Base.{
  ℕ, String, ◌≡◌, ◌⊎◌, true, Option, none, some, List, if◌then◌else◌, refl, inl, inr, Bool, false,
  ◌==◌, eq_iff,
}
use metio.Types.{ServerConfig, ModpackConfig}
use metio.Exec.{Env, pure}
use metio.Validation.Config.{IsServerConfig}
use metio.Handlers.{HandlerCall, HandlerAnswer, get_status, Site}
use metio.Handlers.Update.{
  or_keep, UpdateServerRequest, check_rename, check_new_version, check_new_modpack,
  check_new_machine_type, check_state, check_updated,
}
use metio.Handlers.Guards.{ReadsAnd, Knows, Refused, Knows-pure, Knows-require, Knows-conclude}
use metio.Handlers.Offered.{IsNameFree, check_version-Knows, check_machine_type-Knows}
use metio.Exec.Triple.{Triple, Triple-bind, Triple-pure, Triple-if}
use metio.Handlers.Checks.{check_name}
use metio.Handlers.Steps.{Keeps, keeps_fixed, keeps_both, ask}
use metio.Handlers.Checked.{check_modpack-Knows, check_valid-Knows, check_name-Knows}

module _ (env : Env HandlerCall HandlerAnswer) (site : Site) (server_id : String)
    (Writes : HandlerCall → List HandlerCall → Type 0) {F : List HandlerCall → Type 0}
    (keeps : Keeps F) where
  renamed :
      (name old : String) (same : Bool)
      → (name == old) ≡ same
      → Triple
          (Refused (ReadsAnd Writes))
          (Knows (ReadsAnd Writes) F)
          (if same then pure tt else check_name env site name server_id)
          (λ _.
            Knows (ReadsAnd Writes) (λ h. F h × ((name ≡ old) ⊎ IsNameFree env name server_id h)))
  renamed name old true e =
      Knows-pure (ReadsAnd Writes) (λ _ h. F h × ((name ≡ old) ⊎ IsNameFree env name server_id h))
        tt λ h f. (f, inl ((eq_iff name old).0 e))
  renamed name old false e =
      Knows-conclude (ReadsAnd Writes) (check_name-Knows env site Writes keeps name server_id)
        λ _ h p. (p.0, inr p.1)

  pub check_rename-Knows :
      (o : Option String) (old : String)
      → Triple
          (Refused (ReadsAnd Writes))
          (Knows (ReadsAnd Writes) F)
          (check_rename env site server_id o old)
          (λ _.
            Knows
              (ReadsAnd Writes)
              (λ h. F h × ((or_keep o old ≡ old) ⊎ IsNameFree env (or_keep o old) server_id h)))
  unfolding check_rename or_keep
  check_rename-Knows none old =
      Knows-pure (ReadsAnd Writes) (λ _ h. F h × ((old ≡ old) ⊎ IsNameFree env old server_id h)) tt
        λ h f. (f, inl refl)
  check_rename-Knows (some name) old = renamed name old _ refl

  check_new_version-Knows :
      (o : Option String) (m : Option ModpackConfig)
      → Triple
          (Refused (ReadsAnd Writes))
          (Knows (ReadsAnd Writes) F)
          (check_new_version env site server_id o m)
          (λ _. Knows (ReadsAnd Writes) F)
  unfolding check_new_version
  check_new_version-Knows (some version) none =
      Knows-conclude (ReadsAnd Writes) (check_version-Knows env site Writes keeps version)
        λ _ h p. p.0
  check_new_version-Knows (some version) (some m) = Triple-pure tt
  check_new_version-Knows none m = Triple-pure tt

  check_new_modpack-Knows :
      (o : Option (Option ModpackConfig))
      → Triple
          (Refused (ReadsAnd Writes))
          (Knows (ReadsAnd Writes) F)
          (check_new_modpack env site server_id o)
          (λ _. Knows (ReadsAnd Writes) F)
  unfolding check_new_modpack
  check_new_modpack-Knows (some (some m)) =
      Knows-conclude (ReadsAnd Writes) (check_modpack-Knows env site Writes keeps m) λ _ h p. p.0
  check_new_modpack-Knows (some none) = Triple-pure tt
  check_new_modpack-Knows none = Triple-pure tt

  check_new_machine_type-Knows :
      (o : Option String)
      → Triple
          (Refused (ReadsAnd Writes))
          (Knows (ReadsAnd Writes) F)
          (check_new_machine_type env site server_id o)
          (λ _. Knows (ReadsAnd Writes) F)
  unfolding check_new_machine_type
  check_new_machine_type-Knows (some t) =
      Knows-conclude (ReadsAnd Writes) (check_machine_type-Knows env site Writes keeps t)
        λ _ h p. p.0
  check_new_machine_type-Knows none = Triple-pure tt

  check_state-Knows :
      (update_type : ℕ)
      → Triple
          (Refused (ReadsAnd Writes))
          (Knows (ReadsAnd Writes) F)
          (check_state env site server_id update_type)
          (λ _. Knows (ReadsAnd Writes) F)
  unfolding check_state
  check_state-Knows update_type = Triple-if _ _ _ (Triple-pure tt) (
      ask env (ReadsAnd Writes) keeps (get_status server_id) (λ h f. inl tt) _
        λ status.
          Knows-conclude (ReadsAnd Writes) (Knows-require (ReadsAnd Writes) _ _ _) λ _ h p. p.0.0)

module _ (env : Env HandlerCall HandlerAnswer) (site : Site) (server_id : String) where
  pub check_updated-Knows :
      (Writes : HandlerCall → List HandlerCall → Type 0) {F : List HandlerCall → Type 0}
      → Keeps F
      → (req : UpdateServerRequest) (config : ServerConfig)
      → Triple
          (Refused (ReadsAnd Writes))
          (Knows (ReadsAnd Writes) F)
          (check_updated env site server_id req config)
          (λ _. Knows (ReadsAnd Writes) (λ h. F h × IsServerConfig config))
  unfolding check_updated
  check_updated-Knows W keeps req config =
      let kept = keeps_both keeps (keeps_fixed {P = IsServerConfig config}) in
      Triple-bind _ _ (check_valid-Knows env site W keeps config) λ _.
        Triple-bind _ _ (check_new_version-Knows env site server_id W kept _ _) λ _.
          Triple-bind _ _ (check_new_modpack-Knows env site server_id W kept _) λ _.
            Triple-bind _ _ (check_new_machine_type-Knows env site server_id W kept _)
              λ _. check_state-Knows env site server_id W kept _
