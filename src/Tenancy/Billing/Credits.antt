-- ===== src/Tenancy/Billing/Credits.antt =====
-- The credits of a workspace: what completed runs do to the count, and when a review is let through.
use revy.Common.{ℕ, zero, suc, ◌+◌, ◌≤◌, ◌<◌, ◌≡◌, refl, true, false, some, arith, ltb, leb}
use revy.Common.Errors.{forbidden, raise_with, ok, err}
use revy.Tenancy.Rows.{Workspace}
use revy.Tenancy.Billing.{ensure_credits, take_credit}

take_credit-counts :
    (w : Workspace) (limit : ℕ)
    → w.review_run_limit ≡ some limit
    → w.completed_review_runs < limit
    → ((take_credit w).completed_review_runs ≡ suc w.completed_review_runs)
      × ((take_credit w).review_run_limit ≡ some limit)
unfolding take_credit
take_credit-counts w limit h below =
    let left : ltb w.completed_review_runs limit ≡ true = ground arith in
    (rw (h, left) refl, rw (h, left) refl)

-- The row after a number of completed runs.
abbrev pub after_runs : ℕ → Workspace → Workspace
after_runs zero w = w
after_runs (suc n) w = after_runs n (take_credit w)

after_runs-count :
    (n : ℕ) (w : Workspace) (limit : ℕ)
    → w.review_run_limit ≡ some limit
    → w.completed_review_runs + n ≤ limit
    → ((after_runs n w).completed_review_runs ≡ w.completed_review_runs + n)
      × ((after_runs n w).review_run_limit ≡ some limit)
after_runs-count zero w limit h below = (ground arith, h)
after_runs-count (suc n) w limit h below =
    let (counted, kept) = take_credit-counts w limit h (ground arith) in
    let (count, same) = after_runs-count n (take_credit w) limit kept (ground arith) in
    (ground arith, same)

-- The credits are given out one by one: as long as fewer runs than the limit are counted, the next
-- review is let through.
credits-granted :
    (w : Workspace) (limit n : ℕ)
    → w.review_run_limit ≡ some limit
    → w.completed_review_runs + n < limit
    → ensure_credits (after_runs n w) ≡ ok tt
unfolding ensure_credits
credits-granted w limit n h below =
    let (count, same) = after_runs-count n w limit h (ground arith) in
    let left : leb limit (after_runs n w).completed_review_runs ≡ false = ground arith in
    rw (ensure_credits, same, left) refl

-- Of a workspace with a limit, the next review is let through as long as fewer completed runs than
-- the limit are counted, and refused with credit_limit_reached once the count has reached it. A run is
-- counted when it completes, so runs in flight are not counted here.
pub credits-run_out :
    (w : Workspace) (limit n : ℕ)
    → w.review_run_limit ≡ some limit
    → w.completed_review_runs + n ≡ limit
    → ((k : ℕ) → k < n → ensure_credits (after_runs k w) ≡ ok tt)
      × (ensure_credits (after_runs n w)
          ≡ err (
              raise_with forbidden "Credit limit reached. Upgrade to Pro for unlimited reviews."
                (some "credit_limit_reached")))
unfolding ensure_credits
credits-run_out w limit n h reached =
    let (count, same) = after_runs-count n w limit h (ground arith) in
    let spent : leb limit (after_runs n w).completed_review_runs ≡ true = ground arith in
    (λ k below. credits-granted w limit k h (ground arith), rw (ensure_credits, same, spent) refl)
