-- ===== src/PullRequests/Race.antt =====
-- Two deliveries of one pull request may race for the next number of a revision.
use revy.Common.{ℕ, ◌≡◌, String, Option, some}
use revy.Common.Table
use revy.Findings.Rows.{Revision}
use revy.PullRequests.Numbers.Kept.{Appended}

-- A revision of the pull request at the head.
abbrev pub IsAt : ℕ → String → Revision → Type 0
IsAt pull_request_id head_sha r = (r.pull_request_id ≡ pull_request_id) × (r.head_sha ≡ head_sha)

abbrev pub Arrives : ℕ → String → Option Appended → Type 0
Arrives pull_request_id head_sha appended =
    (v : Appended) × (appended ≡ some v)
    × IsAt pull_request_id head_sha v.2
    × (v.1.head_sha ≡ head_sha)
