-- ===== src/Provisioning/Retry.antt =====
-- `isRetryableError`, `executeWithRetry` and `executeUpWithRetry` of
-- internal/services/provisioning.go. The two loops are one: they differ in the type of the result.
use metio.Base.{
  if◌then◌else◌, ◌+++◌, decimal, ℕ, zero, suc, String, Bool, false, not, ◌||◌, Option, none, some,
  List, [], ◌∷◌,
}
use metio.Exec.{Error, wrap, new_error, Outcome, ok, err, pure, ◌>>=◌, Env, call, when_some}
use text.Mathlib.Text.{starts_with}
use metio.Provisioning.Calls.{Call, context_done, context_done_or_delay, Answer, Action, StdText}

-- `strings.Contains`
unfoldable pub contains_text : String → String → Bool
contains_text pattern String.[] = starts_with "" pattern
contains_text pattern (String.◌∷◌ c s) =
    starts_with (String.◌∷◌ c s) pattern || contains_text pattern s

abbrev pub retryable_patterns : List String
retryable_patterns =
    "connection refused" ∷ "connection reset" ∷ "timeout" ∷ "i/o timeout" ∷ "temporary failure"
    ∷ "rate limit" ∷ "quota exceeded" ∷ "service unavailable" ∷ "502" ∷ "503" ∷ "504" ∷ []

unfoldable pub contains_any : List String → String → Bool
unfolding contains_text
contains_any [] s = false
contains_any (p ∷ ps) s = contains_text p s || contains_any ps s

-- `isRetryableError` of an error that is not nil, given `strings.ToLower`. The patterns are in
-- lower case.
unfoldable pub is_retryable_error : (String → String) → Error → Bool
unfolding contains_any
is_retryable_error to_lower e = contains_any retryable_patterns (to_lower e.text)

-- `fmt.Errorf(errMsgRetryExhausted, s.retryAttempts, lastErr)`
unfoldable pub retry_exhausted : ℕ → Option Error → Error
retry_exhausted attempts none =
    new_error ("operation failed after " +++ decimal attempts +++ " attempts: %!w(<nil>)")
retry_exhausted attempts (some e) =
    wrap ("operation failed after " +++ decimal attempts +++ " attempts: ") e

module _ {A : Type 0} where
  -- What one attempt decides: `none` to try again.
  unfoldable pub settled : StdText → Outcome Error A → Option (Outcome Error A)
  settled std (ok a) = some (ok a)
  settled std (err e) = if not (is_retryable_error std.to_lower e) then some (err e) else none

  abbrev pub error_of : Outcome Error A → Option Error
  error_of (ok a) = none
  error_of (err e) = some e

module _ (env : Env Call Answer) (std : StdText) {A : Type 0} (attempts : ℕ)
    (action : Action (Outcome Error A)) where
  -- The rounds of the loop that are left, with `lastErr`.
  unfoldable pub retry_loop : ℕ → Option Error → Action (Outcome Error A)
  retry_loop zero last = pure (err (retry_exhausted attempts last))
  retry_loop (suc left) last = do
    done ← call env context_done
    when_some done (λ e. pure (err e))
        (do
          result ← action
          when_some (settled std result) pure (do
            interrupted ← call env context_done_or_delay
            when_some interrupted (λ c. pure (err c)) (retry_loop left (error_of result))))

  unfoldable pub execute_with_retry : Action (Outcome Error A)
  unfolding retry_loop
  execute_with_retry = retry_loop attempts none
