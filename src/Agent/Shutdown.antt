-- ===== src/Agent/Shutdown.antt =====
-- How a scheduled shutdown ends.
use metio.Base.{String, ◌≡◌, refl, Option, none, some, List, ◌∷◌}
use metio.Exec.{Error, Outcome, ok, err, pure, Env, call, sleep, now, change}
use metio.Exec.Triple.{AtEnd, Triple, Triple-bind, Triple-pure}
use metio.Agent.{
  reset_state, AgentCall, stop_own_instance, AgentAnswer, AgentRun, clear_shutdown, stop_self,
  initiate_scheduled_shutdown,
}

abbrev Never : Error → AgentRun → Type 0
Never e w = ⊥

abbrev AnyRun : AgentRun → Type 0
AnyRun w = Unit

abbrev IsReset : AgentRun → Type 0
IsReset w = w.object ≡ reset_state

module _ (env : Env AgentCall AgentAnswer) where
  -- The last call has stopped the instance, and returned no error.
  pub record IsStopped (w : AgentRun) : Type 0 where
    pub project : String
    pub zone : String
    pub calls : List AgentCall
    pub last_call : w.history ≡ stop_own_instance project zone ∷ calls
    pub no_error : env.answer calls (stop_own_instance project zone) ≡ none

  -- The warnings are reset, and nil is returned for a stopped instance only.
  abbrev pub IsShutDown : Option Error → AgentRun → Type 0
  IsShutDown r w = (w.object ≡ reset_state) × (r ≡ none → IsStopped w)

  gives_up : (e : Error) → Triple Never IsReset (pure (some e)) IsShutDown
  gives_up e = record { at = λ w p. (p, λ q. absurd (cc)) }

  -- What the answer to the stop shows.
  abbrev Asked : String → String → Option Error → AgentRun → Type 0
  Asked project zone r w =
      (w.object ≡ reset_state)
      × ((calls : List AgentCall) × (w.history ≡ stop_own_instance project zone ∷ calls)
          × (env.answer calls (stop_own_instance project zone) ≡ r))

  stopped :
      (project zone : String)
      → Triple Never IsReset (call env (stop_own_instance project zone)) (Asked project zone)
  unfolding call
  stopped project zone = record { at = λ w p. (p, (w.history, refl, refl)) }

  stop_self-IsShutDown : Triple Never IsReset (stop_self env) IsShutDown
  unfolding stop_self call
  stop_self-IsShutDown =
      Triple-bind {Q = λ _. IsReset} _ _ (record { at = λ w p. p })
        (elim [
          | err e ↦ gives_up _
          | ok project ↦
              Triple-bind {Q = λ _. IsReset} _ _ (record { at = λ w p. p })
                (elim [
                  | err e ↦ gives_up _
                  | ok zone ↦ Triple-bind _ _ (stopped project zone) (elim [
                    | some e ↦ record { at = λ w p. (p.0, λ q. absurd (cc)) }
                    | none ↦ record {
                      at = λ w p. (
                        p.0,
                        λ q. record {
                          project = project;
                          zone = zone;
                          calls = p.1.0;
                          last_call = p.1.1;
                          no_error = p.1.2;
                        },
                      );
                    }
                  ])
                ])
        ])

  clear_shutdown-AnyRun : Triple Never AnyRun (clear_shutdown env) (λ _. AnyRun)
  unfolding clear_shutdown call now
  clear_shutdown-AnyRun =
      Triple-bind {Q = λ _. AnyRun} _ _ (record { at = λ w p. tt })
        (elim [
          | err e ↦ Triple-pure tt
          | ok status ↦
              Triple-bind {Q = λ _. AnyRun} _ _ (record { at = λ w p. tt })
                λ time.
                  Triple-bind {Q = λ _. AnyRun} _ _ (record { at = λ w p. tt }) λ _. Triple-pure tt
        ])

  initiated : Triple Never AnyRun (initiate_scheduled_shutdown env) IsShutDown
  unfolding initiate_scheduled_shutdown call change sleep
  initiated =
      Triple-bind {Q = λ _. AnyRun} _ _ (record { at = λ w p. tt })
        λ _.
          Triple-bind {Q = λ _. AnyRun} _ _ (record { at = λ w p. tt })
            λ _. Triple-bind _ _ clear_shutdown-AnyRun λ _.
              Triple-bind {Q = λ _. IsReset} _ _ (record { at = λ w p. refl })
                λ _.
                  Triple-bind {Q = λ _. IsReset} _ _ (record { at = λ w p. p })
                    λ _. stop_self-IsShutDown

has_result :
    (Q : Option Error → AgentRun → Type 0) (r : Outcome Error (Option Error)) (w : AgentRun)
    → AtEnd Never Q r w
    → (a : Option Error) × (r ≡ ok a) × Q a w
has_result Q (ok a) w h = (a, refl, h)
has_result Q (err e) w h = absurd h

-- Whatever RCON, the controller and the metadata server answer, a shutdown that has been initiated
-- returns with the warnings reset; and it returns nil only if its last call has stopped the
-- instance without an error.
pub initiate_scheduled_shutdown-IsShutDown :
    (env : Env AgentCall AgentAnswer) (w : AgentRun)
    → (r : Option Error) × ((initiate_scheduled_shutdown env w).0 ≡ ok r)
      × IsShutDown env r (initiate_scheduled_shutdown env w).1
initiate_scheduled_shutdown-IsShutDown env w =
    has_result (IsShutDown env) _ _ ((initiated env).at w tt)
