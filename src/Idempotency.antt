-- ===== src/Idempotency.antt =====
-- core/idempotency.py: one key of the store, from the view of a request. What the commands to Redis
-- answer is an argument, since other requests write the key between them; a key also expires.
pub mod Replay
mod Witnesses
use revy.Common.{
  ℕ, zero, suc, String, Bool, true, false, not, ◌&&◌, ◌||◌, Option, none, some, ltb, leb, str_eq,
  if◌then◌else◌, is_none,
}

abbrev pub idempotency_poll_attempts : ℕ
idempotency_poll_attempts = 30

-- The JSON under a key: a reservation, or a response with its body as text.
pub data Cached : Type 0 where
  in_flight : String → Cached
  stored : String → ℕ → String → Cached

-- The JSON responses that the module makes: a 409 with a message, or the stored one.
pub data Response : Type 0 where
  conflict : String → Response
  replayed : ℕ → String → Response

-- What the guard of a request comes to: a response, or the handler runs, with the key primed in the
-- request's state or without one.
pub data Outcome : Type 0 where
  answer : Response → Outcome
  run_primed run_unkeyed : Outcome

abbrev pub reused : Response
reused = conflict "Idempotency-Key reused with different request body"

abbrev pub in_progress : Response
in_progress = conflict "Duplicate request is already in progress"

unfoldable pub response_from_cached : Cached → String → Response
response_from_cached (in_flight f) fingerprint =
    if not (str_eq f fingerprint) then reused else in_progress
response_from_cached (stored f status body) fingerprint =
    if not (str_eq f fingerprint) then reused else replayed status body

-- `_poll_cached_response` with that many attempts left; `replies i` is what the read `i` answers.
unfoldable pub poll_cached_response : ℕ → ℕ → (ℕ → Option Cached) → String → Option Response
poll_cached_response zero i replies fingerprint = elim (replies i) [
  | none ↦ none
  | some cached ↦ some (response_from_cached cached fingerprint)
]
poll_cached_response (suc attempts) i replies fingerprint =
    let rest = poll_cached_response attempts (suc i) replies fingerprint in
    elim (replies i) [
      | none ↦ none
      | some (in_flight f) ↦ rest
      | some (stored f status body) ↦ some (response_from_cached (stored f status body) fingerprint)
    ]

-- `load_idempotent_response`: the first GET answers `at_get`, and the key holds `at_set` when SET NX
-- comes. The key afterwards, and the outcome.
unfoldable pub load_idempotent_response :
    Option String
    → Bool
    → String
    → Option Cached
    → Option Cached
    → (ℕ → Option Cached)
    → Option Cached × Outcome
load_idempotent_response key_header is_post fingerprint at_get at_set replies =
    if lacks_key key_header || not is_post then (at_set, run_unkeyed) else elim at_get [
      | some cached ↦ (at_set, answer (response_from_cached cached fingerprint))
      | none ↦ elim at_set [
        | none ↦ (some (in_flight fingerprint), run_primed)
        | some held ↦ elim (poll_cached_response idempotency_poll_attempts 0 replies fingerprint) [
          | some response ↦ (some held, answer response)
          | none ↦ (some held, run_primed)
        ]
      ]
    ]
  where
    lacks_key : Option String → Bool
    lacks_key none = true
    lacks_key (some key) = str_eq key ""

-- `release_idempotency_reservation`, for a primed request
unfoldable pub release_idempotency_reservation : String → Option Cached → Option Cached
release_idempotency_reservation fingerprint none = none
release_idempotency_reservation fingerprint (some (in_flight f)) =
    if str_eq f fingerprint then none else some (in_flight f)
release_idempotency_reservation fingerprint (some (stored f status body)) =
    some (stored f status body)

-- `store_idempotent_response`, for a primed request; `body` is `none` if it is no JSON or is null.
unfoldable pub store_idempotent_response :
    String → ℕ → Option String → Option Cached → Option Cached
store_idempotent_response fingerprint status_code body current =
    if ltb status_code 200 || leb 300 status_code
    then release_idempotency_reservation fingerprint current
    else elim body [
      | none ↦ release_idempotency_reservation fingerprint current
      | some b ↦ some (stored fingerprint status_code b)
    ]
