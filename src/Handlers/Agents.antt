-- ===== src/Handlers/Agents.antt =====
-- What a machine agent may change.
use metio.Base.{◌+++◌, String, ◌≡◌, refl, ap, ◌∙◌, inl, inr, Bool, Option, none, some, List, eq_iff}
use metio.Types.{Time, WhitelistConfig}
use metio.Exec.{Error, Outcome, ok, err, pure, Env}
use metio.Exec.Triple.{AtEnd, Triple, Triple-bind, Triple-if}
use metio.Handlers.{
  HandlerCall, get_db_connection, get_status, update_status, get_whitelist_config,
  get_whitelist_entries, set_whitelist_config, add_whitelist_entry, stop_instance, verify_token,
  HandlerAnswer, Visit,
}
use metio.Handlers.Catalog.{after_prefix}
use metio.Handlers.AgentApi.{
  AgentRequest, read_status, read_whitelist, read_whitelist_config, write_status,
  write_whitelist_config, write_whitelist, request_stop, AgentReply, agent_whitelist_config,
  agent_connect, handle_get_status, handle_update_status, handle_get_whitelist_entries,
  handle_get_whitelist_config, handle_set_whitelist_config, handle_add_whitelist_entry, handle_stop,
  serve_agent, authorize, agent_auth_middleware,
}
use metio.Handlers.Guards.{
  ReadsAnd, Told, told_before, Knows, Refused, Knows-refuse, Knows-pure, Knows-require,
  Knows-decode, Knows-more,
}
use metio.Handlers.Steps.{Keeps, keeps_nothing, Told_map, ask, ask_ok, ask_done}
use metio.Handlers.Creation.{arrival}
use metio.Handlers.Reports.{after_prefix_sound}

module _ (env : Env HandlerCall HandlerAnswer) (instance_name header : String) where
  -- The header bears a token that was verified with this instance as its subject.
  pub record IsAuthorized (h : List HandlerCall) : Type 0 where
    pub token : String
    pub bearer : header ≡ "Bearer " +++ token
    pub verified : Told env (verify_token token) (λ r. r ≡ ok instance_name) h

  -- An agent changes the status, the whitelist and the power of its own instance only.
  abbrev pub AgentWrites : HandlerCall → List HandlerCall → Type 0
  AgentWrites (update_status name status) h = (name ≡ instance_name) × IsAuthorized h
  AgentWrites (set_whitelist_config name cfg) h = (name ≡ instance_name) × IsAuthorized h
  AgentWrites (add_whitelist_entry name entry) h = (name ≡ instance_name) × IsAuthorized h
  AgentWrites (stop_instance project zone name) h = (name ≡ instance_name) × IsAuthorized h
  AgentWrites _ h = ⊥

  keeps_IsAuthorized : Keeps IsAuthorized
  keeps_IsAuthorized = record {
    keep = λ p. record { token = p.token; bearer = p.bearer; verified = told_before p.verified };
  }

  abbrev AgentAllowed : HandlerCall → List HandlerCall → Type 0
  AgentAllowed = ReadsAnd AgentWrites

  -- The end of a handler that replies.
  abbrev Replied : AgentReply → Visit → Type 0
  Replied reply = Knows AgentAllowed (λ h. Unit)

  replies :
      {F : List HandlerCall → Type 0} (reply : AgentReply)
      → Triple (Refused AgentAllowed) (Knows AgentAllowed F) (pure reply) Replied
  replies reply = Knows-pure AgentAllowed (λ _ h. Unit) reply λ h f. tt

  module _ (can_stop : Bool) where
    connected :
        Triple
          (Refused AgentAllowed)
          (Knows AgentAllowed IsAuthorized)
          (agent_connect env can_stop instance_name)
          (λ _. Knows AgentAllowed IsAuthorized)
    unfolding agent_connect
    connected =
        ask_ok env AgentAllowed keeps_IsAuthorized get_db_connection (λ h p. inl tt) (λ r. r) _ _ _
          λ cfg. Knows-pure AgentAllowed (λ _. IsAuthorized) tt λ h p. p.0

    config-Replied :
        {F : List HandlerCall → Type 0} (r : Outcome Error WhitelistConfig)
        → Triple (Refused AgentAllowed) (Knows AgentAllowed F) (agent_whitelist_config r) Replied
    unfolding agent_whitelist_config
    config-Replied (ok c) = replies _
    config-Replied (err e) = Triple-if _ _ _ (replies _) (Knows-refuse AgentAllowed _ _)

    served :
        (request : AgentRequest)
        → Triple
            (Refused AgentAllowed)
            (Knows AgentAllowed IsAuthorized)
            (serve_agent env can_stop instance_name request)
            Replied
    unfolding serve_agent handle_get_status handle_get_whitelist_entries handle_get_whitelist_config
        handle_update_status handle_set_whitelist_config handle_add_whitelist_entry handle_stop
    served read_status = Triple-bind _ _ connected λ _.
        ask_ok env AgentAllowed keeps_IsAuthorized (get_status instance_name) (λ h p. inl tt)
          (λ r. r) _ _ _ λ status. replies _
    served read_whitelist = Triple-bind _ _ connected λ _.
        ask_ok env AgentAllowed keeps_IsAuthorized (get_whitelist_entries instance_name)
          (λ h p. inl tt) (λ r. r) _ _ _ λ entries. replies _
    served read_whitelist_config = Triple-bind _ _ connected λ _.
        ask env AgentAllowed keeps_IsAuthorized (get_whitelist_config instance_name) (λ h p. inl tt)
          _ λ r. config-Replied r
    served (write_status body) = Triple-bind _ _ (Knows-decode AgentAllowed body) λ status.
        Knows-more AgentAllowed (λ h p. p.0)
          (Triple-bind _ _ connected λ _.
            ask_done env AgentAllowed keeps_IsAuthorized (update_status instance_name status)
              (λ h p. inr (refl, p)) (λ r. r) _ _ _ (replies _))
    served (write_whitelist_config body) = Triple-bind _ _ (Knows-decode AgentAllowed body) λ cfg.
        Knows-more AgentAllowed (λ h p. p.0)
          (Triple-bind _ _ connected λ _.
            ask_done env AgentAllowed keeps_IsAuthorized (set_whitelist_config instance_name cfg)
              (λ h p. inr (refl, p)) (λ r. r) _ _ _ (replies _))
    served (write_whitelist body) = Triple-bind _ _ (Knows-decode AgentAllowed body) λ entry.
        Knows-more AgentAllowed (λ h p. p.0)
          (Triple-bind _ _ connected λ _.
            ask_done env AgentAllowed keeps_IsAuthorized (add_whitelist_entry instance_name entry)
              (λ h p. inr (refl, p)) (λ r. r) _ _ _ (replies _))
    served (request_stop body) = Triple-bind _ _ (Knows-decode AgentAllowed body) λ req.
        Triple-bind _ _ (Knows-require AgentAllowed _ _ _) λ _.
          Triple-bind _ _ (Knows-require AgentAllowed _ _ _) λ _.
            Knows-more AgentAllowed (λ h p. p.0.0.0)
              (ask_done env AgentAllowed keeps_IsAuthorized
                (stop_instance req.project req.zone instance_name) (λ h p. inr (refl, p)) (λ r. r) _
                _ _ (replies _))

    authorized :
        (o : Option String) (request : AgentRequest)
        → ((token : String) → o ≡ some token → header ≡ "Bearer " +++ token)
        → Triple
            (Refused AgentAllowed)
            (Knows AgentAllowed (λ h. Unit))
            (authorize env can_stop instance_name o request)
            Replied
    unfolding authorize
    authorized none request bears = Knows-refuse AgentAllowed _ _
    authorized (some token) request bears =
        ask_ok env AgentAllowed keeps_nothing (verify_token token) (λ h p. inl tt) (λ r. r) _ _ _
          λ subject. Triple-bind _ _ (Knows-require AgentAllowed _ _ _) λ _.
            Knows-more AgentAllowed
              (λ h p. record {
                token = token;
                bearer = bears token refl;
                verified =
                    Told_map env (verify_token token)
                      (λ r e. e ∙ ap ok ((eq_iff subject instance_name).0 p.1)) p.0.1;
              })
              (served request)

    middleware-Knows :
        (request : AgentRequest)
        → Triple
            (Refused AgentAllowed)
            (Knows AgentAllowed (λ h. Unit))
            (agent_auth_middleware env can_stop instance_name header request)
            Replied
    unfolding agent_auth_middleware
    middleware-Knows request = Triple-bind _ _ (Knows-require AgentAllowed _ _ _) λ _.
        Knows-more AgentAllowed (λ h p. tt)
          (authorized (after_prefix "Bearer " header) request
            λ token e. after_prefix_sound "Bearer " header token e)

-- Any request of a machine agent, from its arrival, whatever the calls answer: the only documents it
-- changes are the status and the whitelist of the instance of its path, the only instance it stops
-- is that one, and each of these only after the token that follows "Bearer " in the header was
-- verified, with that instance as its subject.
pub agent_auth_middleware-Guarded :
    (env : Env HandlerCall HandlerAnswer) (can_stop : Bool) (instance_name header : String)
    (request : AgentRequest) (time : Time)
    → AtEnd
        (Refused (ReadsAnd (AgentWrites env instance_name header)))
        (λ reply. Knows (ReadsAnd (AgentWrites env instance_name header)) (λ h. Unit))
        (agent_auth_middleware env can_stop instance_name header request (arrival time)).0
        (agent_auth_middleware env can_stop instance_name header request (arrival time)).1
agent_auth_middleware-Guarded env can_stop instance_name header request time =
    (middleware-Knows env instance_name header can_stop request).at (arrival time)
      (record { guarded = tt; known = tt })
