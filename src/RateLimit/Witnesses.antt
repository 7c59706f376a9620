-- ===== src/RateLimit/Witnesses.antt =====
-- The theorems about rate limits at inputs that meet their hypotheses, and runs of the code.
use revy.Common.{◌≡◌, [], ◌∷◌, All}
use revy.Common.Errors.{ok}
use revy.RateLimit.{rate_limit_api}
use revy.RateLimit.Bound.{answers, rate_limit_api-never_limits}

rate_limit_api-never_limits_example :
    All
      (λ answer. answer ≡ ok tt)
      (answers rate_limit_api (("user:1", 1000) ∷ ("user:1", 1000) ∷ ("user:2", 1001) ∷ []) [])
rate_limit_api-never_limits_example =
    rate_limit_api-never_limits (("user:1", 1000) ∷ ("user:1", 1000) ∷ ("user:2", 1001) ∷ [])
