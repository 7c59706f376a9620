-- ===== src/Idempotency/Replay.antt =====
-- What a client that repeats a request with its key can rely on.
use revy.Common.{
  ℕ, zero, suc, ◌+◌, ◌≤◌, ◌<◌, ◌≡◌, ◌≢◌, refl, String, true, false, ◌||◌, Option, none, some, ltb,
  leb, str_eq, eq_iff, arith, Option-cases, inl, inr, ◌⊎◌,
}
use revy.Idempotency.{
  Cached, answer, run_primed, in_flight, stored, replayed, reused, response_from_cached,
  poll_cached_response, idempotency_poll_attempts, load_idempotent_response,
  store_idempotent_response, release_idempotency_reservation,
}

-- A request that polls and is let through has read the key as absent.
poll-absent :
    (attempts i : ℕ) (replies : ℕ → Option Cached) (fingerprint : String)
    → poll_cached_response attempts i replies fingerprint ≡ none
    → (j : ℕ) × (j ≤ i + attempts) × (replies j ≡ none)
unfolding poll_cached_response
poll-absent zero i replies fingerprint h = elim (Option-cases (replies i)) [
  | inl absent ↦ (i, omega arith, absent)
  | inr (c, held) ↦ absurd (ground arith)
]
poll-absent (suc attempts) i replies fingerprint h = elim (Option-cases (replies i)) [
  | inl absent ↦ (i, omega arith, absent)
  | inr (in_flight f, held) ↦
      let (j, near, absent) =
        poll-absent attempts (suc i) replies fingerprint (rw (poll_cached_response, held) at h) in
      (j, omega arith, absent)
  | inr (stored f s b, held) ↦ absurd (ground arith)
]

-- The handler of a request with a key runs only if the key was absent at some read: at the first one
-- and when the key is set, or else at one of 31 reads while it waits.
pub load-runs_if_absent :
    (key fingerprint : String) (at_get at_set : Option Cached) (replies : ℕ → Option Cached)
    → key ≢ ""
    → (load_idempotent_response (some key) true fingerprint at_get at_set replies).1 ≡ run_primed
    → (at_get ≡ none) × ((at_set ≡ none) ⊎ ((j : ℕ) × (j ≤ 30) × (replies j ≡ none)))
unfolding load_idempotent_response
load-runs_if_absent key fingerprint at_get at_set replies given h =
    let named : str_eq key "" ≡ false = ground (arith, eq_iff key "") in
    elim (Option-cases at_get) [
      | inr (c, got) ↦ absurd (ground arith)
      | inl absent ↦ elim (Option-cases at_set) [
        | inl free ↦ (absent, inl free)
        | inr (c, held) ↦
            elim (Option-cases
              (poll_cached_response idempotency_poll_attempts 0 replies fingerprint)) [
                | inl gone ↦
                    let (j, near, read) = poll-absent 30 0 replies fingerprint gone in
                    (absent, inr (j, omega arith, read))
                | inr (r, told) ↦ absurd (ground arith)
              ]
      ]
    ]

-- A 2xx response whose body is JSON, and not null, is kept under its key. As long as the key is held, a
-- repetition of the request is answered with its status and body, and another request under the key is
-- refused; neither runs the handler. A 2xx response without such a body gives the key up, so that the
-- first read of a repetition finds it absent and, if it is still free when the key is set, the handler
-- runs again.
pub store-load :
    (key fingerprint other body : String) (status : ℕ) (current at_set : Option Cached)
    (replies : ℕ → Option Cached)
    → key ≢ ""
    → other ≢ fingerprint
    → 200 ≤ status
    → status < 300
    → let kept = store_idempotent_response fingerprint status (some body) current in
      ((load_idempotent_response (some key) true fingerprint kept at_set replies).1
        ≡ answer (replayed status body))
      × ((load_idempotent_response (some key) true other kept at_set replies).1 ≡ answer reused)
      × (let lost =
            store_idempotent_response fingerprint status none (some (in_flight fingerprint)) in
          (lost ≡ none)
          × ((load_idempotent_response (some key) true fingerprint lost none replies).1
              ≡ run_primed))
unfolding store_idempotent_response release_idempotency_reservation load_idempotent_response
    response_from_cached
store-load key fingerprint other body status current at_set replies given differ low high =
    let named : str_eq key "" ≡ false = ground (arith, eq_iff key "") in
    let good : (ltb status 200 || leb 300 status) ≡ false = ground arith in
    let same : str_eq fingerprint fingerprint ≡ true = (eq_iff fingerprint fingerprint).1 refl in
    let apart : str_eq fingerprint other ≡ false = ground (arith, eq_iff fingerprint other) in
    (
      rw (named, good, same) refl,
      rw (named, good, apart) refl,
      (
        rw (good, release_idempotency_reservation, same) refl,
        rw (good, release_idempotency_reservation, same, load_idempotent_response, named) refl,
      ),
    )
