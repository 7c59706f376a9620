-- ===== src/Findings/Rows.antt =====
-- models/github_finding_group.py, github_finding.py, github_review_run.py, github_pull_request.py,
-- github_publish_job.py and those beside them: the columns of the rows that the finding services read and write. A UUID is a number; only
-- `str` and equality are used of it. `next_id` stands for the keys that are not given out yet.
use revy.Common.{ℕ, String, Bool, Option, List}
use revy.Common.Json.{ℤ, Members}
use revy.Enums.{
  GitHubReviewRunStatus, GitHubPublishJobStatus, GitHubPullRequestState, GitHubRepositoryStatus,
  ResolutionStatus, ResolutionMethod, FindingSeverity, FindingCategory, GitHubFindingGroupState,
  GitHubJudgeOutcome, JudgePurpose,
}

pub record Group : Type 0 where
  pub id : ℕ
  pub workspace_id : ℕ
  pub pull_request_id : ℕ
  pub fingerprint : String
  pub state : GitHubFindingGroupState
  pub severity : FindingSeverity
  pub category : FindingCategory
  pub title : String
  pub message : String
  pub file_path : Option String
  pub start_line : Option ℕ
  pub claim_slot : Option String
  pub last_seen_revision_id : ℕ
  pub resolution_status : Option ResolutionStatus
  pub resolution_method : Option ResolutionMethod
  pub resolved_at_revision_id : Option ℕ
  pub closure_blocked_reason : Option String

pub record Finding : Type 0 where
  pub id : ℕ
  pub review_run_id : ℕ
  pub severity : FindingSeverity
  pub category : FindingCategory
  pub title : String
  pub message : String
  pub file_path : Option String
  pub start_line : Option ℕ
  pub end_line : Option ℕ
  pub group_id : Option ℕ

pub record ReviewRun : Type 0 where
  pub id : ℕ
  pub revision_id : ℕ
  pub workspace_id : ℕ
  pub status : GitHubReviewRunStatus

pub record Revision : Type 0 where
  pub id : ℕ
  pub pull_request_id : ℕ
  pub revision_number : ℕ
  pub head_sha : String
  pub base_sha : Option String

pub record PullRequest : Type 0 where
  pub id : ℕ
  pub workspace_id : ℕ
  pub repository_id : ℕ
  pub installation_id : ℕ
  pub github_pull_request_id : ℤ
  pub number : ℤ
  pub title : String
  pub state : GitHubPullRequestState
  pub head_sha : String
  pub head_ref : String
  pub base_ref : String
  pub html_url : Option String
  pub body : Option String
  pub revision_count : ℕ
  pub is_draft : Bool
  pub merged : Bool

pub record Repository : Type 0 where
  pub id : ℕ
  pub workspace_id : ℕ
  pub installation_id : ℕ
  pub github_repository_id : ℤ
  pub status : GitHubRepositoryStatus
  pub full_name : String

pub record Installation : Type 0 where
  pub id : ℕ
  pub github_installation_id : ℕ

pub record JudgeOutcomeRow : Type 0 where
  pub group_id : ℕ
  pub review_run_id : ℕ
  pub outcome : GitHubJudgeOutcome
  pub judge_purpose : JudgePurpose

pub record PublishJob : Type 0 where
  pub id : ℕ
  pub review_run_id : ℕ
  pub revision_id : ℕ
  pub workspace_id : ℕ
  pub head_sha : String
  pub status : GitHubPublishJobStatus
  pub github_check_run_id : Option ℤ
  pub github_comment_id : Option ℤ
  pub inline_comments_posted : Bool
  pub summary_json : Option Members
  pub error_message : Option String

pub record Db : Type 0 where
  pub runs : List ReviewRun
  pub revisions : List Revision
  pub pull_requests : List PullRequest
  pub repositories : List Repository
  pub installations : List Installation
  pub publish_jobs : List PublishJob
  pub judge_outcomes : List JudgeOutcomeRow
  pub findings : List Finding
  pub groups : List Group
  pub next_id : ℕ
