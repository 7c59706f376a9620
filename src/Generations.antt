-- ===== src/Generations.antt =====
-- services/github_generation_lifecycle.py and the status writes of services/github_review.py: which
-- review runs and index jobs are in flight, and how a newer generation supersedes them. The checks on
-- GitHub that the code neutralises for the ids it returns are outbound calls and are left out.
pub mod Supersede
pub mod Race
mod Witnesses
use revy.Common.{
  ℕ, String, Bool, true, false, not, ◌&&◌, Option, none, some, List, [], ◌∷◌, ◌==◌, ltb, str_eq,
  if◌then◌else◌, keep, any_of, map,
}
use revy.Common.Table
use revy.Common.Passes.{is_among}
use revy.Enums.{GitHubReviewRunStatus, GitHubIndexJobStatus}
use revy.Findings.Rows.{ReviewRun, Revision, PullRequest}

pub record IndexJob : Type 0 where
  pub id : ℕ
  pub revision_id : ℕ
  pub status : GitHubIndexJobStatus
  pub error_message : Option String

pub record GenerationDb : Type 0 where
  pub pull_requests : List PullRequest
  pub revisions : List Revision
  pub runs : List ReviewRun
  pub jobs : List IndexJob

pub record SupersedeOutcome : Type 0 where
  pub review_run_ids : List ℕ
  pub index_job_ids : List ℕ

-- `_ACTIVE_REVIEW_RUN_STATUSES`
abbrev pub is_active_run : GitHubReviewRunStatus → Bool
is_active_run GitHubReviewRunStatus.pending = true
is_active_run GitHubReviewRunStatus.processing = true
is_active_run _ = false

-- `_ACTIVE_INDEX_JOB_STATUSES`
abbrev pub is_active_job : GitHubIndexJobStatus → Bool
is_active_job GitHubIndexJobStatus.pending = true
is_active_job GitHubIndexJobStatus.processing = true
is_active_job _ = false

abbrev pub superseded_index_error : String
superseded_index_error = "Superseded by newer run"

unfoldable pub is_authoritative_for_pull_request_head : ℕ → GenerationDb → Bool
is_authoritative_for_pull_request_head revision_id db =
    elim (Table.get Revision.id revision_id db.revisions) [
      | none ↦ false
      | some revision ↦ elim (Table.get PullRequest.id revision.pull_request_id db.pull_requests) [
        | none ↦ false
        | some pull_request ↦ str_eq revision.head_sha pull_request.head_sha
      ]
    ]

unfoldable pub is_review_run_superseded : ReviewRun → Bool
is_review_run_superseded run = elim (run.status) [
  | GitHubReviewRunStatus.superseded ↦ true
  | _ ↦ false
]

-- The UPDATE of one run, whose condition is its status.
unfoldable pub supersede_run : ReviewRun → ReviewRun
supersede_run r =
    if is_active_run r.status then record r { status = GitHubReviewRunStatus.superseded } else r

unfoldable pub mark_review_run_ids_superseded_cas :
    List ℕ → List ReviewRun → List ReviewRun × List ℕ
mark_review_run_ids_superseded_cas [] runs = (runs, [])
mark_review_run_ids_superseded_cas (i ∷ ids) runs =
    let (runs', rest) =
      mark_review_run_ids_superseded_cas ids (Table.update ReviewRun.id i supersede_run runs) in
    if any_of (λ r. r.id == i && is_active_run r.status) runs
    then (runs', i ∷ rest)
    else (runs', rest)

unfoldable pub supersede_job : IndexJob → IndexJob
supersede_job j =
    if is_active_job j.status
    then record j {
      status = GitHubIndexJobStatus.failed;
      error_message = some superseded_index_error;
    }
    else j

-- One UPDATE with RETURNING over all the ids.
unfoldable pub mark_index_job_ids_superseded_cas : List ℕ → List IndexJob → List IndexJob × List ℕ
mark_index_job_ids_superseded_cas ids jobs = (
  map (λ j. if is_among ids j.id then supersede_job j else j) jobs,
  map IndexJob.id (keep (λ j. is_among ids j.id && is_active_job j.status) jobs),
)

abbrev pub is_older : ℕ → Revision → Revision → Bool
is_older pull_request_id kept v =
    v.pull_request_id == pull_request_id && ltb v.revision_number kept.revision_number

-- The revisions of the pull request that are older than the one to keep; none if that one is unknown
-- or of another pull request.
unfoldable pub older_revision_ids : ℕ → ℕ → GenerationDb → List ℕ
older_revision_ids pull_request_id keep_revision_id db =
    elim (Table.get Revision.id keep_revision_id db.revisions) [
      | none ↦ []
      | some kept ↦
          if not (kept.pull_request_id == pull_request_id)
          then []
          else map Revision.id (keep (is_older pull_request_id kept) db.revisions)
    ]

abbrev active_runs_of : List ℕ → GenerationDb → List ℕ
active_runs_of revision_ids db =
    map ReviewRun.id
      (keep (λ r. is_among revision_ids r.revision_id && is_active_run r.status) db.runs)

abbrev active_jobs_of : List ℕ → GenerationDb → List ℕ
active_jobs_of revision_ids db =
    map IndexJob.id
      (keep (λ j. is_among revision_ids j.revision_id && is_active_job j.status) db.jobs)

-- The runs, or the jobs, of some revisions that are active, superseded by their ids.
unfoldable pub supersede_runs_of : List ℕ → GenerationDb → GenerationDb × List ℕ
supersede_runs_of revision_ids db =
    let (runs, ids) = mark_review_run_ids_superseded_cas (active_runs_of revision_ids db) db.runs in
    (record db { runs = runs }, ids)

unfoldable pub supersede_jobs_of : List ℕ → GenerationDb → GenerationDb × List ℕ
supersede_jobs_of revision_ids db =
    let (jobs, ids) = mark_index_job_ids_superseded_cas (active_jobs_of revision_ids db) db.jobs in
    (record db { jobs = jobs }, ids)

unfoldable pub mark_review_runs_superseded_for_pull_request :
    ℕ → ℕ → GenerationDb → GenerationDb × List ℕ
mark_review_runs_superseded_for_pull_request pull_request_id keep_revision_id db =
    supersede_runs_of (older_revision_ids pull_request_id keep_revision_id db) db

unfoldable pub mark_active_review_runs_superseded_for_revision :
    ℕ → GenerationDb → GenerationDb × List ℕ
mark_active_review_runs_superseded_for_revision revision_id db =
    elim (Table.get Revision.id revision_id db.revisions) [
      | none ↦ (db, [])
      | some revision ↦ supersede_runs_of (revision_id ∷ []) db
    ]

unfoldable pub mark_index_jobs_superseded_for_pull_request :
    ℕ → ℕ → GenerationDb → GenerationDb × List ℕ
mark_index_jobs_superseded_for_pull_request pull_request_id keep_revision_id db =
    supersede_jobs_of (older_revision_ids pull_request_id keep_revision_id db) db

unfoldable pub mark_active_index_jobs_superseded_for_revision :
    ℕ → GenerationDb → GenerationDb × List ℕ
mark_active_index_jobs_superseded_for_revision revision_id db =
    supersede_jobs_of (revision_id ∷ []) db

unfoldable pub supersede_stale_generations_for_new_revision :
    ℕ → ℕ → GenerationDb → GenerationDb × SupersedeOutcome
supersede_stale_generations_for_new_revision pull_request_id keep_revision_id db =
    let (db₁, run_ids) =
      mark_review_runs_superseded_for_pull_request pull_request_id keep_revision_id db in
    let (db₂, job_ids) =
      mark_index_jobs_superseded_for_pull_request pull_request_id keep_revision_id db₁ in
    (db₂, record { review_run_ids = run_ids; index_job_ids = job_ids })

unfoldable pub supersede_active_generations_for_revision :
    ℕ → GenerationDb → GenerationDb × SupersedeOutcome
supersede_active_generations_for_revision revision_id db =
    let (db₁, run_ids) = mark_active_review_runs_superseded_for_revision revision_id db in
    let (db₂, job_ids) = mark_active_index_jobs_superseded_for_revision revision_id db₁ in
    (db₂, record { review_run_ids = run_ids; index_job_ids = job_ids })

-- The status writes of the worker that executes a run: `run_review_run` starts and completes it with
-- a condition on the status, `break_run` is its write of a failure of its own work, which has no
-- condition, and `mark_review_run_failed` fails the run unless it has ended when the row is read.
unfoldable pub start_run : ReviewRun → ReviewRun
start_run r = elim (r.status) [
  | GitHubReviewRunStatus.pending ↦ record r { status = GitHubReviewRunStatus.processing }
  | _ ↦ r
]

unfoldable pub complete_run : ReviewRun → ReviewRun
complete_run r = elim (r.status) [
  | GitHubReviewRunStatus.processing ↦ record r { status = GitHubReviewRunStatus.completed }
  | _ ↦ r
]

unfoldable pub mark_review_run_failed : ReviewRun → ReviewRun
mark_review_run_failed r = elim (r.status) [
  | GitHubReviewRunStatus.completed ↦ r
  | GitHubReviewRunStatus.failed ↦ r
  | _ ↦ record r { status = GitHubReviewRunStatus.failed }
]

-- `run.status = GitHubReviewRunStatus.failed` in `run_review_run`: no revision, pull request or index,
-- a reply that cannot be parsed, or an exception.
unfoldable pub break_run : ReviewRun → ReviewRun
break_run r = record r { status = GitHubReviewRunStatus.failed }
