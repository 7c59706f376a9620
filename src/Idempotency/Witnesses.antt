-- ===== src/Idempotency/Witnesses.antt =====
-- The theorems about idempotency keys at inputs that meet their hypotheses, and runs of the code.
use revy.Common.{ℕ, ◌≤◌, ◌≡◌, ◌⊎◌, Option, none, some, true, arith, refl, eq_iff}
use revy.Idempotency.{
  Cached, in_flight, answer, replayed, reused, run_primed, in_progress, load_idempotent_response,
  poll_cached_response, response_from_cached, store_idempotent_response,
}
use revy.Idempotency.Replay.{load-runs_if_absent, store-load}

-- Another request holds the key all along.
abbrev held : ℕ → Option Cached
held i = some (in_flight "f")

still_held :
    (load_idempotent_response (some "k") true "f" none (some (in_flight "f")) held).1
    ≡ answer in_progress
unfolding load_idempotent_response poll_cached_response response_from_cached
still_held = refl

abbrev absent : Option Cached
absent = none

load-runs_if_absent_example :
    (absent ≡ none) × ((absent ≡ none) ⊎ ((j : ℕ) × (j ≤ 30) × (held j ≡ none)))
unfolding load_idempotent_response
load-runs_if_absent_example =
    load-runs_if_absent "k" "f" absent absent held (λ e. ground (arith, eq_iff "k" "")) refl

store-load_example :
    let kept = store_idempotent_response "f" 201 (some "{}") (some (in_flight "f")) in
    ((load_idempotent_response (some "k") true "f" kept kept held).1 ≡ answer (replayed 201 "{}"))
    × ((load_idempotent_response (some "k") true "g" kept kept held).1 ≡ answer reused)
    × (let lost = store_idempotent_response "f" 201 none (some (in_flight "f")) in
        (lost ≡ none)
        × ((load_idempotent_response (some "k") true "f" lost none held).1 ≡ run_primed))
store-load_example =
    store-load "k" "f" "g" "{}" 201 (some (in_flight "f"))
      (store_idempotent_response "f" 201 (some "{}") (some (in_flight "f"))) held
      (λ e. ground (arith, eq_iff "k" "")) (λ e. ground (arith, eq_iff "g" "f")) (omega arith)
      (omega arith)
