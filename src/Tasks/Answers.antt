-- ===== src/Tasks/Answers.antt =====
-- What the response of the task handler says of the operation.

use metio.Provisioning.Operations.{execute_operation}
use metio.Types.{ServerConfig}
use metio.Programs.{ProgramConfig, ControllerConfig, build_task_config}
use metio.Provisioning.Outcome.{run_operation_outcome}
use metio.Base.{code, String, ◌≡◌, ◌⊎◌, inl, inr, Option, none, some, List, ◌∷◌, ℕ, refl, ap, ◌==◌}
use metio.Exec.{Error, Outcome, ok, err, Env, pure, when_some, call, change}
use metio.Exec.Triple.{AtEnd, Triple, Triple-bind, Triple-if}
use metio.Provisioning.Calls.{Call, get_provisioning, Answer, Service, StdText, Run, Action}
use metio.Provisioning.Assertions.{IsFailed, IsCompleted}
use metio.Tasks.{
  Response, http_error, http_ok, response_of, attempt, stale_response, check_operation,
  task_with_token, run_task, task_connected, handle_provisioning_task,
}

abbrev Never : Error → Run → Type 0
Never e w = ⊥

module _ (server_id : String) where
  abbrev Completed : Outcome Error (Unit {0}) → Run → Type 0
  Completed (ok a) w = IsCompleted server_id w
  Completed (err e) w = Unit

  -- The code 200 after the calls `before`: either only the status was read, or the operation has
  -- completed.
  abbrev pub Answered : List Call → Response → Run → Type 0
  Answered before (http_error code text) w = Unit
  Answered before http_ok w =
      (w.history ≡ get_provisioning server_id ∷ before) ⊎ IsCompleted server_id w

  -- The same of a response that ends the handler early.
  abbrev AnsweredEarly : List Call → Option Response → Run → Type 0
  AnsweredEarly before none w = Unit
  AnsweredEarly before (some r) w = Answered before r w

  read_only :
      (before : List Call) (r : Response) (w : Run)
      → w.history ≡ get_provisioning server_id ∷ before
      → Answered before r w
  read_only before (http_error code text) w h = tt
  read_only before http_ok w h = inl h

  early :
      (before : List Call) (o : Option Response) (w : Run)
      → w.history ≡ get_provisioning server_id ∷ before
      → AnsweredEarly before o w
  early before none w h = tt
  early before (some r) w h = read_only before r w h

  reported :
      (before : List Call) (r : Outcome Error (Unit {0})) (w : Run)
      → Completed r w
      → Answered before (response_of r) w
  unfolding response_of
  reported before (ok a) w h = inr h
  reported before (err e) w h = tt

-- Nothing is known of the end of an action that raises an error.
abbrev Whatever : Error → Run → Type 0
Whatever e w = Unit

abbrev AnyRun : Run → Type 0
AnyRun w = Unit

module _ (env : Env Call Answer) (std : StdText) (s : Service) (server_id : String) where
  drop_error :
      (r : Outcome Error (Unit {0})) (w : Run)
      → AtEnd (IsFailed server_id) (λ _. IsCompleted server_id) r w
      → AtEnd Whatever (λ _. IsCompleted server_id) r w
  drop_error (ok a) w h = h
  drop_error (err e) w h = tt

  executed :
      (config : ProgramConfig) (update_type : ℕ)
      → Triple Whatever AnyRun
          (execute_operation env std s server_id config update_type)
          (λ _. IsCompleted server_id)
  unfolding execute_operation call change
  executed config update_type =
      Triple-bind {Q = λ _. AnyRun} _ _ (record { at = λ w p. tt })
        (elim [
          | err e ↦ record { at = λ w p. tt }
          | ok none ↦ record { at = λ w p. tt }
          | ok (some status) ↦
              Triple-bind {Q = λ _. AnyRun} _ _ (record { at = λ w p. tt })
                λ _. record {
                  at = λ w p. drop_error _ _ (
                      run_operation_outcome env std s server_id status.operation config update_type
                        w);
                }
        ])

  as_value :
      (r : Outcome Error (Unit {0})) (w : Run)
      → AtEnd Whatever (λ _. IsCompleted server_id) r w
      → Completed server_id r w
  as_value (ok a) w h = h
  as_value (err e) w h = tt

  attempted :
      (m : Action (Unit {0}))
      → Triple Whatever AnyRun m (λ _. IsCompleted server_id)
      → Triple Never AnyRun (attempt m) (Completed server_id)
  unfolding attempt
  attempted m h = record { at = λ w p. as_value _ _ (h.at w p) }

  module _ (mint_token : String → Outcome Error String) (connect : Outcome Error ControllerConfig)
      (before : List Call) where
    minted :
        (cfg : ControllerConfig) (config : ServerConfig) (token : Outcome Error String)
        → Triple Never AnyRun
            (task_with_token env std s connect mint_token server_id cfg config token)
            (Answered server_id before)
    unfolding task_with_token
    minted cfg config (err e) = record { at = λ w p. tt }
    minted cfg config (ok token) =
        Triple-bind _ _ (attempted _ (executed (build_task_config config cfg token) 0))
          λ r. record { at = λ w p. reported server_id before r w p }

    run_task-Answered :
        (cfg : ControllerConfig)
        → Triple Never AnyRun
            (run_task env std s connect mint_token server_id cfg)
            (Answered server_id before)
    unfolding run_task call
    run_task-Answered cfg =
        Triple-bind {Q = λ _. AnyRun} _ _ (record { at = λ w p. tt })
          (elim [
            | err e ↦ record { at = λ w p. tt }
            | ok config ↦ minted cfg config (mint_token config.name)
          ])

    check_operation-AnsweredEarly :
        (op_id : String)
        → Triple Never
            (λ w. w.history ≡ before)
            (check_operation env std s connect mint_token server_id op_id)
            (AnsweredEarly server_id before)
    unfolding check_operation call
    check_operation-AnsweredEarly op_id =
        Triple-if (op_id == "") _ _ (record { at = λ w p. tt })
          (Triple-bind {Q = λ _ w. w.history ≡ get_provisioning server_id ∷ before} _ _
            (record { at = λ w p. ap (λ h. get_provisioning server_id ∷ h) p })
            λ r. record { at = λ w p. early server_id before (stale_response op_id r) w p })

    ended_or_run :
        (cfg : ControllerConfig) (ended : Option Response)
        → Triple Never
            (AnsweredEarly server_id before ended)
            (when_some ended pure (run_task env std s connect mint_token server_id cfg))
            (Answered server_id before)
    ended_or_run cfg none = run_task-Answered cfg
    ended_or_run cfg (some r) = record { at = λ w p. p }

    connected :
        (op_id : String) (r : Outcome Error ControllerConfig)
        → Triple Never
            (λ w. w.history ≡ before)
            (task_connected env std s connect mint_token server_id op_id r)
            (Answered server_id before)
    unfolding task_connected
    connected op_id (err e) = record { at = λ w p. tt }
    connected op_id (ok cfg) =
        Triple-bind _ _ (check_operation-AnsweredEarly op_id) (ended_or_run cfg)

    handled :
        (op_id : String)
        → Triple Never
            (λ w. w.history ≡ before)
            (handle_provisioning_task env std s connect mint_token server_id op_id)
            (Answered server_id before)
    unfolding handle_provisioning_task
    handled op_id =
        Triple-if (server_id == "") _ _ (record { at = λ w p. tt }) (connected op_id connect)

has_response :
    (Q : Response → Run → Type 0) (r : Outcome Error Response) (w : Run)
    → AtEnd Never Q r w
    → (a : Response) × (r ≡ ok a) × Q a w
has_response Q (ok a) w h = (a, refl, h)
has_response Q (err e) w h = absurd h

-- `HandleProvisioningTask` always writes a response. If it is 200, either the handler has done
-- nothing but read the status, or the operation has completed and its completed status was the last
-- one written; the queue does not deliver such a task again.
pub handle_provisioning_task-Answered :
    (env : Env Call Answer) (std : StdText) (s : Service) (connect : Outcome Error ControllerConfig)
    (mint_token : String → Outcome Error String) (server_id op_id : String) (w : Run)
    → (response : Response) × ((handle_provisioning_task env std s connect mint_token server_id
          op_id w).0
        ≡ ok response)
      × Answered server_id w.history response
          (handle_provisioning_task env std s connect mint_token server_id op_id w).1
handle_provisioning_task-Answered env std s connect mint_token server_id op_id w =
    has_response (Answered server_id w.history) _ _
      ((handled env std s server_id mint_token connect w.history op_id).at w refl)
