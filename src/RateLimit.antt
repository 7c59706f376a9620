-- ===== src/RateLimit.antt =====
-- core/rate_limit.py: the sliding window over Redis sorted sets. The store is the set of all entries:
-- the parts of a key's text, and a member, which is also its score. A key names a window of the clock
-- and expires a second after a window without calls, so it holds its entries as long as it is used.
pub mod Bound
mod Witnesses
use revy.Common.{
  ℕ, ◌+◌, ◌/◌, String, Bool, not, ◌&&◌, Option, none, List, [], ◌∷◌, ◌++◌, ◌==◌, leb, str_eq,
  if◌then◌else◌, keep, any_of, count_if,
}
use revy.Common.Errors.{Result, err, ok, ensure, raise_with, rate_limited}

pub record RateLimiter : Type 0 where
  pub scope : String
  pub limit : ℕ
  pub window_seconds : ℕ

abbrev pub rate_limit_auth : RateLimiter
rate_limit_auth = record { scope = "auth"; limit = 30; window_seconds = 60 }

abbrev pub rate_limit_api : RateLimiter
rate_limit_api = record { scope = "api"; limit = 120; window_seconds = 60 }

pub record Entry : Type 0 where
  pub scope : String
  pub identifier : String
  pub window : ℕ
  pub member : ℕ

abbrev pub has_key : String → String → ℕ → Entry → Bool
has_key scope identifier window e =
    str_eq e.scope scope && str_eq e.identifier identifier && e.window == window

-- `zremrangebyscore(key, 0, now - window_seconds)`
abbrev pub is_past : ℕ → RateLimiter → Entry → Bool
is_past now limiter e = leb (e.member + limiter.window_seconds) now

-- An entry with the key and the member of another.
abbrev pub is_same : Entry → Entry → Bool
is_same entry e = has_key entry.scope entry.identifier entry.window e && e.member == entry.member

-- `zadd(key, {str(now): now})`
unfoldable pub zadd : Entry → List Entry → List Entry
zadd entry store = if any_of (is_same entry) store then store else store ++ entry ∷ []

-- One request: the entries afterwards, and whether it is let through.
unfoldable pub call : RateLimiter → String → ℕ → List Entry → List Entry × Result (Unit {0})
call limiter identifier now store =
    let window = now / limiter.window_seconds in
    let in_key = has_key limiter.scope identifier window in
    let kept = keep (λ e. not (in_key e && is_past now limiter e)) store in
    let added =
      zadd
        (record { scope = limiter.scope; identifier = identifier; window = window; member = now })
        kept in
    (
      added,
      ensure (leb (count_if in_key added) limiter.limit)
          (raise_with rate_limited "Too many requests" none),
    )
