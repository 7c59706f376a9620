-- ===== src/Findings/Samples.antt =====
-- A small database for the examples: pull request 10 with revisions 20 and 21, the first published.
use revy.Common.{ℕ, String, true, false, none, some, [], ◌∷◌}
use revy.Common.Json.{pos}
use revy.Enums.{
  GitHubReviewRunStatus, GitHubPublishJobStatus, ResolutionMethod, FindingSeverity, FindingCategory,
  GitHubFindingGroupState, GitHubPullRequestState, GitHubRepositoryStatus,
}
use revy.Findings.Rows.{
  Group, Finding, ReviewRun, Revision, PullRequest, Repository, PublishJob, Db,
}
use revy.Findings.Paths.{Fetched, content}

-- Stands in for the digest.
abbrev pub no_hash : String → String
no_hash s = s

-- Every file is there.
abbrev pub all_there : ℕ → String → String → String → String → Fetched
all_there installation owner repo path head_sha = content ""

abbrev pub first_run : ReviewRun
first_run = record {
  id = 30;
  revision_id = 20;
  workspace_id = 1;
  status = GitHubReviewRunStatus.completed;
}

abbrev pub second_run : ReviewRun
second_run = record {
  id = 31;
  revision_id = 21;
  workspace_id = 1;
  status = GitHubReviewRunStatus.completed;
}

abbrev pub first_revision : Revision
first_revision = record {
  id = 20;
  pull_request_id = 10;
  revision_number = 1;
  head_sha = "a";
  base_sha = none;
}

abbrev pub second_revision : Revision
second_revision = record {
  id = 21;
  pull_request_id = 10;
  revision_number = 2;
  head_sha = "b";
  base_sha = none;
}

abbrev pub sample_pull_request : PullRequest
sample_pull_request = record {
  id = 10;
  workspace_id = 1;
  repository_id = 5;
  installation_id = 6;
  github_pull_request_id = pos 900;
  number = pos 4;
  title = "Close handles";
  state = GitHubPullRequestState.open_;
  head_sha = "b";
  head_ref = "fix";
  base_ref = "main";
  html_url = none;
  body = none;
  revision_count = 2;
  is_draft = false;
  merged = false;
}

abbrev pub sample_repository : Repository
sample_repository = record {
  id = 5;
  workspace_id = 1;
  installation_id = 6;
  github_repository_id = pos 800;
  status = GitHubRepositoryStatus.active;
  full_name = "acme/app";
}

abbrev pub first_publish_job : PublishJob
first_publish_job = record {
  id = 50;
  review_run_id = 30;
  revision_id = 20;
  workspace_id = 1;
  head_sha = "a";
  status = GitHubPublishJobStatus.completed;
  github_check_run_id = some (pos 70);
  github_comment_id = some (pos 71);
  inline_comments_posted = true;
  summary_json = none;
  error_message = none;
}

abbrev pub leak : Group
leak = record {
  id = 100;
  workspace_id = 1;
  pull_request_id = 10;
  fingerprint = "leak";
  state = GitHubFindingGroupState.active;
  severity = FindingSeverity.error;
  category = FindingCategory.bug;
  title = "Leak";
  message = "A handle leaks.";
  file_path = some "a.py";
  start_line = some 3;
  claim_slot = some "Leak";
  last_seen_revision_id = 20;
  resolution_status = none;
  resolution_method = none;
  resolved_at_revision_id = none;
  closure_blocked_reason = none;
}

abbrev pub ignored : Group
ignored = record leak {
  id = 101;
  fingerprint = "ignored";
  state = GitHubFindingGroupState.resolved;
  resolution_method = some ResolutionMethod.human_dismissed;
  resolved_at_revision_id = some 20;
}

abbrev pub blocked : Group
blocked = record leak {
  id = 102;
  fingerprint = "blocked";
  closure_blocked_reason = some "compare_failed";
}

abbrev pub elsewhere : Group
elsewhere = record leak { id = 103; pull_request_id = 11 }

abbrev pub race : Finding
race = record {
  id = 40;
  review_run_id = 31;
  severity = FindingSeverity.critical;
  category = FindingCategory.bug;
  title = " Race ";
  message = "Two writers.";
  file_path = some "b.py";
  start_line = some 7;
  end_line = none;
  group_id = none;
}

abbrev pub sample : Db
sample = record {
  runs = first_run ∷ second_run ∷ [];
  revisions = first_revision ∷ second_revision ∷ [];
  pull_requests = sample_pull_request ∷ [];
  repositories = sample_repository ∷ [];
  installations = record { id = 6; github_installation_id = 77 } ∷ [];
  publish_jobs = first_publish_job ∷ [];
  judge_outcomes = [];
  findings = race ∷ [];
  groups = leak ∷ ignored ∷ blocked ∷ elsewhere ∷ [];
  next_id = 200;
}
