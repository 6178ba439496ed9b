-- ===== src/Provisioning/Acks.antt =====
-- What the positive results of the polling loops show about the machine agent.
use metio.Base.{
  String, ◌≡◌, true, Option, none, some, List, ◌∷◌, ltb, ℕ, zero, suc, refl, not, arith, eq_iff,
}
use metio.Types.{is_running, Status}
use metio.Exec.{Error, Outcome, ok, err, Env, pure, call, sleep, now}
use metio.Provisioning.Calls.{Call, get_status, Answer, Run, context_done, StdText}
use metio.Exec.Triple.{
  Triple, Triple-bind, Triple-if, Triple-when_some, Triple-when_some_found, AtEnd, Triple-if_true,
}
use metio.Provisioning.Coordinator.{
  ack_of, ack_poll_interval, wait_ack_loop, health_poll_interval, healthy, wait_for_command_ack,
  wait_healthy_loop, wait_for_server_healthy,
}

abbrev Always : Run → Type 0
Always w = Unit

abbrev Never : Error → Run → Type 0
Never e w = ⊥

module _ (env : Env Call Answer) (name : String) where
  -- The last call was a read of the status document, which was answered by `answer`.
  pub record Polled (answer : Outcome Error Status) (w : Run) : Type 0 where
    pub earlier : List Call
    pub last_call : w.history ≡ get_status name ∷ earlier
    pub answered : env.answer earlier (get_status name) ≡ answer

  -- A result without an error rests on the document that was read last: the agent has written
  -- "completed" in it, or there is no document.
  abbrev pub IsAcknowledged : String × Option Error → Outcome Error Status → Type 0
  IsAcknowledged r (ok status) = (r.0 ≡ "completed") × (status.pending_command_result ≡ "completed")
  IsAcknowledged r (err e) = (r.0 ≡ "") × (e.is_not_found ≡ true)

  -- What the loop establishes of its result.
  abbrev pub AckResult : String × Option Error → Run → Type 0
  AckResult r w =
      r.1 ≡ none → (answer : Outcome Error Status) × IsAcknowledged r answer × Polled answer w

  abbrev pub HealthResult : Option Error → Run → Type 0
  HealthResult r w =
      r ≡ none → (status : Status) × (is_running status.server_state ≡ true) × Polled (ok status) w

  ack_of_sound :
      (answer : Outcome Error Status) (r : String × Option Error)
      → ack_of answer ≡ some r
      → r.1 ≡ none
      → IsAcknowledged r answer
  unfolding ack_of
  ack_of_sound (ok status) (result, e) h n =
      let p = eq_iff status.pending_command_result "completed" in (grind arith, grind arith)
  ack_of_sound (err e) (result, e') h n = (grind arith, grind arith)

  read_clock : Triple Never Always now (λ _. Always)
  unfolding now
  read_clock = record { at = λ w p. tt }

  ask : (c : Call) → Triple Never Always (call env c) (λ _. Always)
  unfolding call
  ask c = record { at = λ w p. tt }

  rest : {P : Run → Type 0} (d : ℕ) → Triple Never P (sleep env d) (λ _. Always)
  unfolding sleep
  rest d = record { at = λ w p. tt }

  poll : Triple Never Always (call env (get_status name)) Polled
  unfolding call
  poll = record { at = λ w p. record { earlier = w.history; last_call = refl; answered = refl } }

  acknowledged :
      (answer : Outcome Error Status) (r : String × Option Error)
      → ack_of answer ≡ some r
      → Triple Never (Polled answer) (pure r) AckResult
  acknowledged answer r h = record { at = λ w p n. (answer, ack_of_sound answer r h n, p) }

  failing : (a : String) (e : Error) → Triple Never Always (pure (a, some e)) AckResult
  failing a e = record { at = λ w p h. absurd (cc) }

  wait_ack_loop-AckResult :
      (std : StdText) (timeout deadline rounds : ℕ)
      → Triple Never Always (wait_ack_loop env std name timeout deadline rounds) AckResult
  unfolding wait_ack_loop
  wait_ack_loop-AckResult std timeout deadline zero = failing _ _
  wait_ack_loop-AckResult std timeout deadline (suc rounds) = Triple-bind _ _ read_clock λ time.
      Triple-if (not (ltb time deadline)) _ _ (failing _ _) (
        Triple-bind _ _ (ask context_done) λ done.
          Triple-when_some done _ _ (λ e. failing _ _)
            (Triple-bind _ _ poll λ polled.
              Triple-when_some_found (ack_of polled) _ _ (λ r h. acknowledged polled r h)
                (Triple-bind _ _ (rest ack_poll_interval)
                  λ _. wait_ack_loop-AckResult std timeout deadline rounds)))

  gives_up : (e : Error) → Triple Never Always (pure (some e)) HealthResult
  gives_up e = record { at = λ w p h. absurd (cc) }

  is_up :
      (answer : Outcome Error Status)
      → healthy answer ≡ true
      → Triple Never (Polled answer) (pure none) HealthResult
  unfolding healthy
  is_up (ok status) h = record { at = λ w p n. (status, h, p) }
  is_up (err e) h = absurd (cc)

  wait_healthy_loop-HealthResult :
      (std : StdText) (timeout deadline rounds : ℕ)
      → Triple Never Always (wait_healthy_loop env std name timeout deadline rounds) HealthResult
  unfolding wait_healthy_loop
  wait_healthy_loop-HealthResult std timeout deadline zero = gives_up _
  wait_healthy_loop-HealthResult std timeout deadline (suc rounds) =
      Triple-bind _ _ read_clock λ time. Triple-if (not (ltb time deadline)) _ _ (gives_up _) (
        Triple-bind _ _ (ask context_done) λ done.
          Triple-when_some done _ _ (λ e. gives_up _)
            (Triple-bind _ _ poll λ polled. Triple-if_true (healthy polled) _ _ (is_up polled) (
              Triple-bind _ _ (rest health_poll_interval)
                λ _. wait_healthy_loop-HealthResult std timeout deadline rounds)))

module _ {A : Type 0} where
  -- An action that raises no error has its result.
  has_result :
      (Q : A → Run → Type 0) (r : Outcome Error A) (w : Run)
      → AtEnd Never Q r w
      → (a : A) × (r ≡ ok a) × Q a w
  has_result Q (ok a) w h = (a, refl, h)
  has_result Q (err e) w h = absurd h

-- `WaitForCommandAck` always returns; and if it returns no error, the status document that it read
-- last says that the agent has completed the command, or is missing, and the result says which.
pub wait_for_command_ack_sound :
    (env : Env Call Answer) (std : StdText) (name : String) (timeout : ℕ) (w : Run)
    → (r : String × Option Error) × ((wait_for_command_ack env std name timeout w).0 ≡ ok r)
      × AckResult env name r (wait_for_command_ack env std name timeout w).1
unfolding wait_for_command_ack
wait_for_command_ack_sound env std name timeout w = has_result (AckResult env name) _ _ (
    (Triple-bind _ _ (read_clock env name)
        λ start. wait_ack_loop-AckResult env name std timeout _ _).at
      w tt)

-- `WaitForServerHealthy` always returns; and if it returns nil, the status document that it read
-- last says that the server is running.
pub wait_for_server_healthy_sound :
    (env : Env Call Answer) (std : StdText) (name : String) (timeout : ℕ) (w : Run)
    → (r : Option Error) × ((wait_for_server_healthy env std name timeout w).0 ≡ ok r)
      × HealthResult env name r (wait_for_server_healthy env std name timeout w).1
unfolding wait_for_server_healthy
wait_for_server_healthy_sound env std name timeout w = has_result (HealthResult env name) _ _ (
    (Triple-bind _ _ (read_clock env name)
        λ start. wait_healthy_loop-HealthResult env name std timeout _ _).at
      w tt)
