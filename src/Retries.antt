-- ===== src/Retries.antt =====
-- The retry policy of the workers: core/worker_retries.py.
use revy.Common.{ℕ, zero, suc, ◌*◌, Bool, true, false, not, ◌&&◌, List, [], ◌∷◌, ◌==◌, any_of}

-- What a call may raise, by the tests of the policy. `other` is any other exception.
pub data Failure : Type 0 where
  worker_retryable timed_out transport rate_limited service_unavailable other : Failure
  http_status : ℕ → Failure

-- `RETRYABLE_HTTP_STATUS_CODES`
abbrev pub retryable_http_status_codes : List ℕ
retryable_http_status_codes = 408 ∷ 429 ∷ 500 ∷ 502 ∷ 503 ∷ 504 ∷ 520 ∷ 521 ∷ 522 ∷ 523 ∷ 524 ∷ []

abbrev pub is_retryable_http_status : ℕ → Bool
is_retryable_http_status status_code = any_of (λ c. c == status_code) retryable_http_status_codes

-- `classify_transient_error(exc) is not None`
abbrev pub classify_transient_error : Failure → Bool
classify_transient_error Failure.worker_retryable = true
classify_transient_error Failure.timed_out = true
classify_transient_error Failure.transport = true
classify_transient_error (Failure.http_status status_code) = is_retryable_http_status status_code
classify_transient_error _ = false

abbrev pub is_retryable_immediate_mutation_error : Failure → Bool
is_retryable_immediate_mutation_error Failure.rate_limited = false
is_retryable_immediate_mutation_error Failure.service_unavailable = true
is_retryable_immediate_mutation_error (Failure.http_status status_code) =
    is_retryable_http_status status_code && not (status_code == 429)
is_retryable_immediate_mutation_error failure = classify_transient_error failure

-- `2**n`
abbrev pub power_of_two : ℕ → ℕ
power_of_two zero = 1
power_of_two (suc n) = 2 * power_of_two n

-- `celery_retry_countdown`, in seconds.
abbrev pub celery_retry_countdown : ℕ → ℕ → ℕ
celery_retry_countdown retries base_seconds = base_seconds * power_of_two retries
