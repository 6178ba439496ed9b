-- ===== src/Provisioning/Rules.antt =====
-- The rules for the bookkeeping actions and for the polling of the machine agent.
use metio.Base.{ltb, ℕ, zero, suc, String, ◌≡◌, refl, true, Option, none, some, List, not}
use metio.Types.{Status}
use metio.Exec.{Error, Outcome, ok, err, pure, gets, ◌>>=◌, Env, call, now, change}
use metio.Exec.Triple.{Triple-bind, Triple-pure, Triple-if, Triple-when_some}
use metio.Provisioning.Calls.{
  Call, get_status, update_status, Answer, StdText, Run, Action, update_step, complete_step,
  handle_error, check_step, expect_step, begin_steps, finish, stop_instance, start_instance,
  context_done, context_done_or_delay,
}
use metio.Provisioning.Coordinator.{
  write_command, trigger_world_save, trigger_restore, wait_ack_loop, ack_of, healthy,
  stop_server_instance, start_server_instance, wait_for_command_ack, wait_healthy_loop,
  wait_for_server_healthy, with_save_command, with_restore_command,
}
use metio.Provisioning.Assertions.{
  is_silent, IsCompleted, Anything, Leads, Leads-bind, IsStable, Leads-call, Leads-sleep,
}
use metio.Provisioning.Retry.{retry_loop, execute_with_retry, settled, error_of}

module _ (env : Env Call Answer) (server_id : String) where
  pub update_step-Anything :
      (name message : String)
      → Leads server_id Anything (update_step env server_id name message) Anything
  unfolding update_step ◌>>=◌ call now change
  update_step-Anything name message = record { at = λ w p. tt }

  pub complete_step-Anything :
      (name : String) → Leads server_id Anything (complete_step env server_id name) Anything
  unfolding complete_step ◌>>=◌ call now change
  complete_step-Anything name = record { at = λ w p. tt }

  pub begin_steps-Anything :
      (steps : List (String × String))
      → Leads server_id Anything (begin_steps env server_id steps) Anything
  unfolding begin_steps ◌>>=◌ call now change
  begin_steps-Anything steps = record { at = λ w p. tt }

  pub update_step-IsCompleted :
      (name message : String)
      → Leads server_id
          (IsCompleted server_id)
          (update_step env server_id name message)
          (IsCompleted server_id)
  unfolding update_step ◌>>=◌ call now change
  update_step-IsCompleted name message = record {
    at = λ w p. record { state_is = p.state_is; saved = refl };
  }

  pub complete_step-IsCompleted :
      (name : String)
      → Leads server_id
          (IsCompleted server_id)
          (complete_step env server_id name)
          (IsCompleted server_id)
  unfolding complete_step ◌>>=◌ call now change
  complete_step-IsCompleted name = record {
    at = λ w p. record { state_is = p.state_is; saved = refl };
  }

  pub finish-IsCompleted :
      {P : Run → Type 0} → Leads server_id P (finish env server_id) (IsCompleted server_id)
  unfolding finish ◌>>=◌ call now change
  finish-IsCompleted = record { at = λ w p. record { state_is = refl; saved = refl } }

  module _ {A : Type 0} {P Q : Run → Type 0} where
    -- `handleError` always ends in the failure that it records.
    pub Leads-handle_error :
        (name : String) (e : Error)
        → Leads server_id P (handle_error env server_id {A = A} name e) Q
    unfolding handle_error ◌>>=◌ call now change
    Leads-handle_error name e = record {
      at = λ w p. record { as_failed = record { state_is = refl; saved = refl }; message = refl };
    }

  module _ {P : Run → Type 0} where
    pub Leads-check_step :
        (name : String) (r : Option Error) → Leads server_id P (check_step env server_id name r) P
    unfolding check_step
    Leads-check_step name none = Triple-pure tt
    Leads-check_step name (some e) = Leads-handle_error name e

    pub Leads-expect_step :
        {A : Type 0} (name : String) (r : Outcome Error A)
        → Leads server_id P (expect_step env server_id name r) P
    unfolding expect_step
    Leads-expect_step name (ok a) = Triple-pure a
    Leads-expect_step name (err e) = Leads-handle_error name e

module _ {server_id : String} {A : Type 0} {P Q : Run → Type 0} where
  pub Leads-gets :
      {B : Type 0} (g : Run → B) (f : B → Action A)
      → ((b : B) → Leads server_id P (f b) Q)
      → Leads server_id P (gets g >>= f) Q
  Leads-gets g f kf = Triple-bind (gets g) f (record { at = λ w p. p }) kf

module _ {server_id : String} (env : Env Call Answer) (std : StdText) {P : Run → Type 0}
    (stable : IsStable P) where
  Leads-pure : {A : Type 0} (a : A) → Leads server_id P (pure a) P
  Leads-pure a = Triple-pure a

  Leads-now : Leads server_id P now P
  unfolding now
  Leads-now = record { at = λ w p. p }

  -- One silent call and a value made of its answer.
  Leads-ask :
      {A : Type 0} (c : Call) (f : Answer c → A)
      → is_silent c ≡ true
      → Leads server_id P (call env c >>= λ r. pure (f r)) P
  Leads-ask c f h = Leads-bind _ _ (Leads-call env stable c h) (λ r. Leads-pure (f r))

  Leads-write_command :
      (prefix name : String) (f : Status → Status) (status : Status)
      → Leads server_id P (write_command env std prefix name f status) P
  unfolding write_command
  Leads-write_command prefix name f status = Leads-ask (update_status name (f status)) _ refl

  pub Leads-trigger_world_save :
      (name : String) → Leads server_id P (trigger_world_save env std name) P
  unfolding trigger_world_save
  Leads-trigger_world_save name =
      Leads-bind _ _ (Leads-call env stable (get_status name) refl) (elim [
        | err e ↦ Leads-pure _
        | ok status ↦ Leads-write_command _ name with_save_command status
      ])

  pub Leads-trigger_restore :
      (name snapshot_id repository password : String)
      → Leads server_id P (trigger_restore env std name snapshot_id repository password) P
  unfolding trigger_restore
  Leads-trigger_restore name snapshot_id repository password =
      Leads-bind _ _ (Leads-call env stable (get_status name) refl) (elim [
        | err e ↦ Leads-pure _
        | ok status ↦
            Leads-write_command _ name (with_restore_command snapshot_id repository password) status
      ])

  Leads-wait_ack_loop :
      (name : String) (timeout deadline rounds : ℕ)
      → Leads server_id P (wait_ack_loop env std name timeout deadline rounds) P
  unfolding wait_ack_loop
  Leads-wait_ack_loop name timeout deadline zero = Leads-pure _
  Leads-wait_ack_loop name timeout deadline (suc rounds) = Leads-bind _ _ Leads-now λ time.
      Triple-if (not (ltb time deadline)) _ _ (Leads-pure _) (
        Leads-bind _ _ (Leads-call env stable context_done refl) λ done.
          Triple-when_some done _ _ (λ e. Leads-pure _)
            (Leads-bind _ _ (Leads-call env stable (get_status name) refl) λ polled.
              Triple-when_some (ack_of polled) _ _ Leads-pure (
                Leads-bind _ _ (Leads-sleep env stable _)
                  λ _. Leads-wait_ack_loop name timeout deadline rounds)))

  pub Leads-wait_for_command_ack :
      (name : String) (timeout : ℕ)
      → Leads server_id P (wait_for_command_ack env std name timeout) P
  unfolding wait_for_command_ack
  Leads-wait_for_command_ack name timeout =
      Leads-bind _ _ Leads-now λ start. Leads-wait_ack_loop name timeout _ _

  Leads-wait_healthy_loop :
      (name : String) (timeout deadline rounds : ℕ)
      → Leads server_id P (wait_healthy_loop env std name timeout deadline rounds) P
  unfolding wait_healthy_loop
  Leads-wait_healthy_loop name timeout deadline zero = Leads-pure _
  Leads-wait_healthy_loop name timeout deadline (suc rounds) = Leads-bind _ _ Leads-now λ time.
      Triple-if (not (ltb time deadline)) _ _ (Leads-pure _) (
        Leads-bind _ _ (Leads-call env stable context_done refl) λ done.
          Triple-when_some done _ _ (λ e. Leads-pure _)
            (Leads-bind _ _ (Leads-call env stable (get_status name) refl) λ polled.
              Triple-if (healthy polled) _ _ (Leads-pure none) (
                Leads-bind _ _ (Leads-sleep env stable _)
                  λ _. Leads-wait_healthy_loop name timeout deadline rounds)))

  pub Leads-wait_for_server_healthy :
      (name : String) (timeout : ℕ)
      → Leads server_id P (wait_for_server_healthy env std name timeout) P
  unfolding wait_for_server_healthy
  Leads-wait_for_server_healthy name timeout =
      Leads-bind _ _ Leads-now λ start. Leads-wait_healthy_loop name timeout _ _

  pub Leads-start_server_instance :
      (project zone name : String)
      → Leads server_id P (start_server_instance env std project zone name) P
  unfolding start_server_instance
  Leads-start_server_instance project zone name =
      Leads-ask (start_instance project zone name) _ refl

  pub Leads-stop_server_instance :
      (project zone name : String)
      → Leads server_id P (stop_server_instance env std project zone name) P
  unfolding stop_server_instance
  Leads-stop_server_instance project zone name = Leads-ask (stop_instance project zone name) _ refl

  module _ {A : Type 0} (attempts : ℕ) {action : Action (Outcome Error A)}
      (step : Leads server_id P action P) where
    Leads-retry_loop :
        (left : ℕ) (last : Option Error)
        → Leads server_id P (retry_loop env std attempts action left last) P
    unfolding retry_loop
    Leads-retry_loop zero last = Leads-pure _
    Leads-retry_loop (suc left) last =
        Leads-bind _ _ (Leads-call env stable context_done refl) λ done.
          Triple-when_some done _ _ (λ e. Leads-pure _)
            (Leads-bind _ _ step λ result. Triple-when_some (settled std result) _ _ Leads-pure (
              Leads-bind _ _ (Leads-call env stable context_done_or_delay refl) λ interrupted.
                Triple-when_some interrupted _ _ (λ c. Leads-pure _)
                  (Leads-retry_loop left (error_of result))))

    pub Leads-execute_with_retry : Leads server_id P (execute_with_retry env std attempts action) P
    unfolding execute_with_retry
    Leads-execute_with_retry = Leads-retry_loop attempts none
