-- ===== src/Provisioning/Polling.antt =====
-- The rounds of the polling loops of internal/services/update_operations.go.
use metio.Base.{
  ltb, if◌then◌else◌, ℕ, zero, suc, ◌+◌, ◌*◌, ◌≤◌, String, ◌≡◌, true, not, arith, ◌/◌, none, some,
}
use metio.Exec.{◌>>=◌, Env, call, sleep, now, Error, pure}
use metio.Provisioning.Calls.{Call, Answer, StdText, Run, get_status, context_done, Action}
use metio.Provisioning.Coordinator.{
  ack_poll_interval, wait_ack_loop, health_poll_interval, ack_of, healthy, wait_for_command_ack,
  wait_healthy_loop, wait_for_server_healthy, ack_timeout, health_timeout,
}
use metio.Exec.Triple.{Triple}
use metio.Exec.Agree.{Agree, Agree-bind, Agree-refl, Agree-if, Agree-when_some}

-- The test of the loops, at a time that is not before the deadline.
late : (time deadline : ℕ) → deadline ≤ time → not (ltb time deadline) ≡ true
late time deadline h = ground arith

-- The deadline is reached within `rounds` pauses.
unfoldable Within : (interval deadline rounds : ℕ) → Run → Type 0
Within interval deadline rounds w = deadline ≤ w.clock + rounds * interval

abbrev Never : Error → Run → Type 0
Never e w = ⊥

-- The test of the clock ends the loop.
late-if :
    {A : Type 0} (time deadline : ℕ) (m n : Action A) (w : Run)
    → deadline ≤ time
    → m w ≡ (if not (ltb time deadline) then m else n) w
late-if time deadline m n w h = let t = late time deadline h in rw t

module _ (env : Env Call Answer) (interval deadline : ℕ) where
  ask-Within :
      (c : Call) (rounds : ℕ)
      → Triple Never
          (Within interval deadline rounds)
          (call env c)
          (λ _. Within interval deadline rounds)
  unfolding call Within
  ask-Within c rounds = record { at = λ w p. omega arith }

  now-Within :
      (rounds : ℕ)
      → Triple Never (Within interval deadline rounds) now (λ _. Within interval deadline rounds)
  unfolding now
  now-Within rounds = record { at = λ w p. p }

  sleep-Within :
      (rounds : ℕ)
      → Triple Never
          (Within interval deadline (suc rounds))
          (sleep env interval)
          (λ _. Within interval deadline rounds)
  unfolding sleep Within
  sleep-Within rounds = record { at = λ w p. omega arith }

module _ (env : Env Call Answer) (std : StdText) (name : String) (timeout deadline : ℕ) where
  ack-late :
      (more : ℕ) (w : Run)
      → Within ack_poll_interval deadline 0 w
      → wait_ack_loop env std name timeout deadline 0 w
        ≡ wait_ack_loop env std name timeout deadline (suc more) w
  unfolding wait_ack_loop ◌>>=◌ now Within
  ack-late more w h = late-if w.clock deadline _ _ w (omega arith)

  -- With enough rounds until the deadline, more rounds change nothing.
  wait_ack_loop-more :
      (rounds total : ℕ)
      → rounds ≤ total
      → Agree
          (Within ack_poll_interval deadline rounds)
          (wait_ack_loop env std name timeout deadline rounds)
          (wait_ack_loop env std name timeout deadline total)
  unfolding wait_ack_loop
  wait_ack_loop-more zero zero le = Agree-refl _
  wait_ack_loop-more zero (suc total) le = record { at = ack-late total }
  wait_ack_loop-more (suc rounds) zero le = absurd (omega arith)
  wait_ack_loop-more (suc rounds) (suc total) le =
      Agree-bind _ _ _ (now-Within env _ deadline (suc rounds)) λ time.
        Agree-if (not (ltb time deadline)) (pure (ack_timeout env std timeout)) _ _ (
          Agree-bind _ _ _ (ask-Within env _ deadline context_done (suc rounds)) λ done.
            Agree-when_some done (λ e. pure ("", some e)) _ _
              (Agree-bind _ _ _ (ask-Within env _ deadline (get_status name) (suc rounds)) λ polled.
                Agree-when_some (ack_of polled) pure _ _ (
                  Agree-bind _ _ _ (sleep-Within env _ deadline rounds)
                    λ _. wait_ack_loop-more rounds total (omega arith))))

  healthy-late :
      (more : ℕ) (w : Run)
      → Within health_poll_interval deadline 0 w
      → wait_healthy_loop env std name timeout deadline 0 w
        ≡ wait_healthy_loop env std name timeout deadline (suc more) w
  unfolding wait_healthy_loop ◌>>=◌ now Within
  healthy-late more w h = late-if w.clock deadline _ _ w (omega arith)

  wait_healthy_loop-more :
      (rounds total : ℕ)
      → rounds ≤ total
      → Agree
          (Within health_poll_interval deadline rounds)
          (wait_healthy_loop env std name timeout deadline rounds)
          (wait_healthy_loop env std name timeout deadline total)
  unfolding wait_healthy_loop
  wait_healthy_loop-more zero zero le = Agree-refl _
  wait_healthy_loop-more zero (suc total) le = record { at = healthy-late total }
  wait_healthy_loop-more (suc rounds) zero le = absurd (omega arith)
  wait_healthy_loop-more (suc rounds) (suc total) le =
      Agree-bind _ _ _ (now-Within env _ deadline (suc rounds)) λ time.
        Agree-if (not (ltb time deadline)) (pure (health_timeout env std name timeout)) _ _ (
          Agree-bind _ _ _ (ask-Within env _ deadline context_done (suc rounds)) λ done.
            Agree-when_some done (λ e. pure (some e)) _ _
              (Agree-bind _ _ _ (ask-Within env _ deadline (get_status name) (suc rounds)) λ polled.
                Agree-if (healthy polled) (pure none) _ _ (
                  Agree-bind _ _ _ (sleep-Within env _ deadline rounds)
                    λ _. wait_healthy_loop-more rounds total (omega arith))))

-- `WaitForCommandAck` is its loop without a bound on the rounds: with any number of rounds more
-- the run is the same, its calls and its clock included.
pub wait_for_command_ack-unbounded :
    (env : Env Call Answer) (std : StdText) (name : String) (timeout more : ℕ) (w : Run)
    → wait_for_command_ack env std name timeout w
      ≡ wait_ack_loop env std name timeout
          (w.clock + timeout)
          (timeout / ack_poll_interval + 1 + more)
          w
unfolding wait_for_command_ack ◌>>=◌ now Within
wait_for_command_ack-unbounded env std name timeout more w =
    (wait_ack_loop-more env std name timeout (w.clock + timeout) (timeout / ack_poll_interval + 1)
        (timeout / ack_poll_interval + 1 + more) (omega arith)).at
      w (omega arith)

-- The rounds that `WaitForServerHealthy` gives to its loop are enough: with any number of rounds more
-- the run is the same, for every timeout and whatever the calls answer.
pub wait_for_server_healthy-unbounded :
    (env : Env Call Answer) (std : StdText) (name : String) (timeout more : ℕ) (w : Run)
    → wait_for_server_healthy env std name timeout w
      ≡ wait_healthy_loop env std name timeout
          (w.clock + timeout)
          (timeout / health_poll_interval + 1 + more)
          w
unfolding wait_for_server_healthy ◌>>=◌ now Within
wait_for_server_healthy-unbounded env std name timeout more w =
    (wait_healthy_loop-more env std name timeout (w.clock + timeout)
        (timeout / health_poll_interval + 1) (timeout / health_poll_interval + 1 + more)
        (omega arith)).at
      w (omega arith)
