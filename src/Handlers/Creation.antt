-- ===== src/Handlers/Creation.antt =====
-- What `CreateServer` writes, and when.
use metio.Base.{String, ◌≡◌, refl, inr, Option, none, List, []}
use metio.Types.{Time}
use metio.Exec.{Error, Env, call}
use metio.Exec.Triple.{AtEnd, Triple, Triple-bind}
use metio.Programs.{ProgramConfig}
use metio.Handlers.{
  HandlerCall, create_server_config, start_create, HandlerAnswer, Site, Visit, get_db_connection,
}
use metio.Handlers.Create.{CreateServerRequest, requested_config, launch, create_server}
use metio.Handlers.Guards.{
  ReadsAnd, Told, told_now, Knows, Refused, Knows-call, Knows-now, Knows-decode, Knows-more,
}
use metio.Handlers.Steps.{Keeps, keeps_nothing, keeps_fixed, keeps_both, keeps_told}
use metio.Handlers.Offered.{IsSourceOffered}
use metio.Handlers.Checked.{
  check_valid-Knows, keeps_source, keeps_place, check_source-Knows, check_place-Knows,
  connect-Knows,
}
use metio.Handlers.Launched.{IsCreatable, IsLaunch, launch-Knows}
use metio.Validation.Config.{IsServerConfig}

-- The time at which a request arrives, with no call made yet.
abbrev pub arrival : Time → Visit
arrival time = record { history = []; clock = time; object = tt }

module _ (env : Env HandlerCall HandlerAnswer) where
  -- What `CreateServer` may change: it stores a new config that has passed all checks, and starts
  -- the creation of the server that it has stored.
  abbrev pub CreateWrites : HandlerCall → List HandlerCall → Type 0
  CreateWrites (create_server_config id config) h =
      IsCreatable env (IsSourceOffered env) id config h
  CreateWrites (start_create id program) h = IsLaunch env (λ p. p) id program h
  CreateWrites _ h = ⊥

  -- The creation was started, and answered with `r`.
  abbrev pub IsCreating : String → Option Error → List HandlerCall → Type 0
  IsCreating id r h = (program : ProgramConfig) × Told env (start_create id program) (λ x. x ≡ r) h

  module _ (site : Site) where
    create_started :
        (F G : List HandlerCall → Type 0)
        → Keeps G
        → ((h : List HandlerCall) → G h → F h)
        → (id : String) (program : ProgramConfig)
        → ((h : List HandlerCall) → G h → IsLaunch env (λ p. p) id program h)
        → Triple
            (Refused (ReadsAnd CreateWrites))
            (Knows (ReadsAnd CreateWrites) G)
            (call env (start_create id program))
            (λ r. Knows (ReadsAnd CreateWrites) (IsCreating id r))
    create_started F G keeps below id program launch =
        Knows-call (ReadsAnd CreateWrites) env (start_create id program) (IsCreating id)
          (λ h g. inr (launch h g)) λ h g. (program, told_now refl)

    create_server-Knows :
        (body : Option CreateServerRequest)
        → Triple
            (Refused (ReadsAnd CreateWrites))
            (Knows (ReadsAnd CreateWrites) (λ h. Unit))
            (create_server env site body)
            (λ response. Knows (ReadsAnd CreateWrites) (IsCreating response.id none))
    unfolding create_server
    create_server-Knows body = Triple-bind _ _ (Knows-decode (ReadsAnd CreateWrites) body) λ req.
        Knows-more (ReadsAnd CreateWrites) (λ h p. tt)
          (Triple-bind _ _ (Knows-now (ReadsAnd CreateWrites)) λ created.
            Triple-bind _ _ (Knows-now (ReadsAnd CreateWrites)) λ updated.
              let config = requested_config req created updated in
              Triple-bind _ _ (check_valid-Knows env site CreateWrites keeps_nothing config) λ _.
                let admitted = keeps_both keeps_nothing (keeps_fixed {P = IsServerConfig config}) in
                Triple-bind _ _
                  (check_source-Knows env site CreateWrites admitted config.modpack
                    config.minecraft_version)
                  λ _.
                    let sourced =
                      keeps_both admitted
                        (keeps_source env config.modpack config.minecraft_version) in
                    Triple-bind _ _ (check_place-Knows env site CreateWrites sourced config) λ _.
                      let placed = keeps_both sourced (keeps_place env config) in
                      Triple-bind _ _ (connect-Knows env site CreateWrites placed) λ cfg.
                        launch-Knows env site (IsSourceOffered env) CreateWrites (λ id c h a. a) _
                          (λ p. p) IsCreating
                          (keeps_both placed (keeps_told env get_db_connection _))
                          (create_started _) cfg config
                          λ h p. record {
                            valid = p.0.0.0.1;
                            source = p.0.0.1;
                            place = p.0.1;
                            connected = p.1;
                          })

-- `CreateServer`, from the arrival of any request, whatever its calls answer. The only changes it
-- makes are these: it stores one config under the new id, after it has found the config valid, its
-- pack or version, machine type, region and zone in the lists that are offered, and its name free
-- among the stored configs; and it starts the creation of that server, after the config has been
-- stored, with the program config built from it. An accepted request has started the creation
-- without an error.
pub create_server-Guarded :
    (env : Env HandlerCall HandlerAnswer) (site : Site) (body : Option CreateServerRequest)
    (time : Time)
    → AtEnd
        (Refused (ReadsAnd (CreateWrites env)))
        (λ response. Knows (ReadsAnd (CreateWrites env)) (IsCreating env response.id none))
        (create_server env site body (arrival time)).0
        (create_server env site body (arrival time)).1
create_server-Guarded env site body time =
    (create_server-Knows env site body).at (arrival time) (record { guarded = tt; known = tt })
