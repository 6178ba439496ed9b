-- ===== src/Provisioning/Attempts.antt =====
-- How often a retried action runs.
use metio.Provisioning.Deploy.{up_with_retry}
use metio.Base.{ℕ, zero, suc, ◌+◌, ◌≤◌, String, ◌≡◌, refl, Option, none, List, [], ◌∷◌, arith}
use metio.Exec.{Error, Outcome, ok, pure, Env, call, err}
use metio.Exec.Triple.{Triple, Triple-bind, Triple-pure, Triple-when_some, AtEnd}
use metio.Provisioning.Calls.{
  Call, up_stack, context_done, context_done_or_delay, Answer, Service, StdText, Run,
}
use metio.Provisioning.Retry.{settled, error_of, retry_loop, execute_with_retry}

-- The calls of `UpStack` among the calls made.
unfoldable pub up_calls : List Call → ℕ
up_calls [] = 0
up_calls (up_stack id ∷ calls) = suc (up_calls calls)
up_calls (_ ∷ calls) = up_calls calls

-- `k` more runs stay within the bound.
unfoldable Room : ℕ → ℕ → Run → Type 0
Room bound k w = up_calls w.history + k ≤ bound

abbrev Never : ℕ → Error → Run → Type 0
Never bound e w = ⊥

module _ (env : Env Call Answer) (std : StdText) (bound : ℕ) where
  ask-Room :
      (c : Call) (k : ℕ)
      → ((calls : List Call) → up_calls (c ∷ calls) ≡ up_calls calls)
      → Triple (Never bound) (Room bound k) (call env c) (λ _. Room bound k)
  unfolding call Room
  ask-Room c k h = record { at = λ w p. let q = h w.history in omega arith }

  up_stack-Room :
      (id : String) (k : ℕ)
      → Triple (Never bound) (Room bound (suc k)) (call env (up_stack id)) (λ _. Room bound k)
  unfolding call Room up_calls
  up_stack-Room id k = record { at = λ w p. omega arith }

  end_Room :
      {A : Type 0} (k : ℕ) (a : A)
      → Triple (Never bound) (Room bound k) (pure a) (λ _. Room bound 0)
  unfolding Room
  end_Room k a = record { at = λ w p. omega arith }

  retry_loop-Room :
      (id : String) (attempts left : ℕ) (last : Option Error)
      → Triple
          (Never bound)
          (Room bound left)
          (retry_loop env std attempts (call env (up_stack id)) left last)
          (λ _. Room bound 0)
  unfolding retry_loop up_calls
  retry_loop-Room id attempts zero last = Triple-pure _
  retry_loop-Room id attempts (suc left) last =
      Triple-bind _ _ (ask-Room context_done (suc left) (λ calls. refl)) λ done.
        Triple-when_some done _ _ (λ e. end_Room (suc left) _)
          (Triple-bind _ _ (up_stack-Room id left) λ result.
            Triple-when_some (settled std result) _ _ (λ r. end_Room left r)
              (Triple-bind _ _ (ask-Room context_done_or_delay left (λ calls. refl)) λ interrupted.
                Triple-when_some interrupted _ _ (λ c. end_Room left _)
                  (retry_loop-Room id attempts left (error_of result))))

returned :
    {A : Type 0} (bound : ℕ) (r : Outcome Error A) (w : Run)
    → AtEnd (Never bound) (λ _. Room bound 0) r w
    → (up_calls w.history ≤ bound) × ((a : A) × (r ≡ ok a))
unfolding Room
returned bound (ok a) w h = (omega arith, (a, refl))
returned bound (err e) w h = absurd h

-- `executeUpWithRetry` runs `UpStack` at most `retryAttempts` times, and it always returns: the
-- retries end in a result or in an error value.
pub up_with_retry_bound :
    (env : Env Call Answer) (std : StdText) (s : Service) (server_id : String) (w : Run)
    → (up_calls (up_with_retry env std s server_id w).1.history
        ≤ up_calls w.history + s.retry_attempts)
      × ((r : Outcome Error (List (String × Option String))) × ((up_with_retry env std s server_id
              w).0
            ≡ ok r))
unfolding up_with_retry execute_with_retry Room
up_with_retry_bound env std s server_id w =
    let bound = up_calls w.history + s.retry_attempts in
    returned bound _ _ (
      (retry_loop-Room env std bound server_id s.retry_attempts s.retry_attempts none).at w
        (omega arith))
