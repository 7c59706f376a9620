-- ===== src/Publishing/Jobs.antt =====
-- The publish jobs of services/github_publish.py: how they are made, and how they fail. Jobs stand in the
-- order of their creation. `github_api_enabled` is the setting of that name.
use revy.Common.{
  ℕ, suc, String, Bool, true, false, not, ◌&&◌, ◌||◌, Option, none, some, List, [], ◌∷◌, ◌++◌, ◌==◌,
  if◌then◌else◌, find, any_of, take_chars,
}
use revy.Common.Errors.{ErrorClass, Result, ok, raise_with, ensure, ensure_some, ◌>>=◌, ◌>>◌}
use revy.Common.Json.{ℤ}
use revy.Common.Table
use revy.Enums.{GitHubPublishJobStatus, is_completed_run}
use revy.Findings.Rows.{Db, PublishJob, ReviewRun, Revision}
use revy.Pipeline.{
  PipelineDb, get_pipeline_run_for_review_run, link_publish_job_to_pipeline,
  resolve_pipeline_github_check_run_id,
}

pub record PublishDb : Type 0 where
  pub rows : Db
  pub pipeline : PipelineDb

-- `_TERMINAL_PUBLISH_JOB_STATUSES` are the others.
abbrev pub is_open_job : GitHubPublishJobStatus → Bool
is_open_job GitHubPublishJobStatus.pending = true
is_open_job GitHubPublishJobStatus.processing = true
is_open_job _ = false

-- A job of the run that is pending or processing.
abbrev pub is_open_for : ℕ → PublishJob → Bool
is_open_for review_run_id j = j.review_run_id == review_run_id && is_open_job j.status

abbrev pub new_job : ℕ → ReviewRun → ℕ → Revision → PublishJob
new_job id run revision_id revision = record {
  id = id;
  review_run_id = run.id;
  revision_id = revision_id;
  workspace_id = run.workspace_id;
  head_sha = revision.head_sha;
  status = GitHubPublishJobStatus.pending;
  github_check_run_id = none;
  github_comment_id = none;
  inline_comments_posted = false;
  summary_json = none;
  error_message = none;
}

-- `session.add(job)`, with the key that the database hands out.
unfoldable pub add_job : PublishJob → Db → Db
add_job job db = record db { publish_jobs = db.publish_jobs ++ job ∷ []; next_id = suc db.next_id }

unfoldable pub update_job : ℕ → (PublishJob → PublishJob) → Db → Db
update_job id write db = record db {
  publish_jobs = Table.update PublishJob.id id write db.publish_jobs;
}

abbrev pub set_check : Option ℤ → PublishJob → PublishJob
set_check none j = j
set_check (some check_run_id) j = record j { github_check_run_id = some check_run_id }

-- The new job is linked to the pipeline of its run, and takes over the check that the pipeline opened.
unfoldable pub link_job : ℕ → ℕ → PublishDb → PublishDb
unfolding update_job
link_job review_run_id job_id db =
    elim (get_pipeline_run_for_review_run review_run_id db.pipeline) [
      | none ↦ db
      | some run ↦
          let linked = link_publish_job_to_pipeline run job_id db.pipeline in
          record db {
            pipeline = linked;
            rows =
                update_job job_id (set_check (resolve_pipeline_github_check_run_id run.id linked))
                  db.rows;
          }
    ]

unfoldable pub create_publish_job_for_review_run : ℕ → PublishDb → PublishDb × Option ℕ
unfolding add_job link_job
create_publish_job_for_review_run review_run_id db =
    elim (Table.get ReviewRun.id review_run_id db.rows.runs) [
      | none ↦ (db, none)
      | some run ↦
          if not (is_completed_run run.status) || any_of (is_open_for run.id) db.rows.publish_jobs
          then (db, none)
          else elim (Table.get Revision.id run.revision_id db.rows.revisions) [
            | none ↦ (db, none)
            | some revision ↦
                let job = new_job db.rows.next_id run run.revision_id revision in
                (link_job run.id job.id (record db { rows = add_job job db.rows }), some job.id)
          ]
    ]

-- The job to dispatch, and whether it is new.
unfoldable pub resolve_publish_job_id_for_review_run : ℕ → PublishDb → PublishDb × Option ℕ × Bool
unfolding create_publish_job_for_review_run
resolve_publish_job_id_for_review_run review_run_id db =
    let (db', created) = create_publish_job_for_review_run review_run_id db in
    elim created [
      | some job_id ↦ (db', some job_id, true)
      | none ↦ elim (find (is_open_for review_run_id) db'.rows.publish_jobs) [
        | none ↦ (db', none, false)
        | some existing ↦ (db', some existing.id, false)
      ]
    ]

abbrev pub fail_with : String → PublishJob → PublishJob
fail_with error_message j =
    if is_open_job j.status
    then record j {
      status = GitHubPublishJobStatus.failed;
      error_message = some (take_chars 2000 error_message);
    }
    else j

unfoldable pub mark_publish_job_failed : ℕ → String → Db → Db
unfolding update_job
mark_publish_job_failed publish_job_id error_message db =
    update_job publish_job_id (fail_with error_message) db

-- The last row that meets a condition: `order_by(created_at.desc()).limit(1)`.
abbrev pub find_last {ℓ} : {A : Type ℓ} → (A → Bool) → List A → Option A
find_last p [] = none
find_last p (x ∷ xs) = elim (find_last p xs) [
  | some y ↦ some y
  | none ↦ if p x then some x else none
]

-- `ensure_revision_access` of services/github_indexing.py: the join of the three tables.
unfoldable pub ensure_revision_access : ℕ → ℕ → ℕ → ℕ → Db → Result (Unit {0})
ensure_revision_access workspace_id repository_id pull_request_id revision_id db =
    ensure
      (any_of (λ r. r.id == revision_id && r.pull_request_id == pull_request_id) db.revisions
        && any_of
            (λ p.
              p.id == pull_request_id
              && p.repository_id == repository_id
              && p.workspace_id == workspace_id)
            db.pull_requests
        && any_of (λ r. r.id == repository_id && r.workspace_id == workspace_id) db.repositories)
      (raise_with ErrorClass.not_found "Pull request revision not found" none)

-- The completed run that a job publishes: the one that is named, or the latest of the revision.
unfoldable pub run_to_publish : ℕ → ℕ → Option ℕ → Db → Option ReviewRun
run_to_publish workspace_id revision_id none db =
    find_last
      (λ r.
        r.workspace_id == workspace_id && r.revision_id == revision_id && is_completed_run r.status)
      db.runs
run_to_publish workspace_id revision_id (some review_run_id) db =
    find (λ r. r.id == review_run_id && is_completed_run r.status) db.runs

-- The open job of the run, or a new one.
unfoldable pub open_or_add : ℕ → ℕ → ReviewRun → Revision → PublishDb → PublishDb × PublishJob
unfolding add_job
open_or_add workspace_id revision_id run revision db =
    elim (find (is_open_for run.id) db.rows.publish_jobs) [
      | some existing ↦ (db, existing)
      | none ↦
          let job : PublishJob = record (new_job db.rows.next_id run revision_id revision) {
            workspace_id = workspace_id;
          } in
          (record db { rows = add_job job db.rows }, job)
    ]

unfoldable pub create_publish_job :
    Bool → ℕ → ℕ → ℕ → ℕ → Option ℕ → PublishDb → Result (PublishDb × PublishJob)
unfolding ensure_revision_access run_to_publish open_or_add
create_publish_job api_enabled workspace_id repository_id pull_request_id revision_id named db = do
  ensure api_enabled (
      raise_with ErrorClass.service_unavailable "GitHub App API is not configured"
        (some "github_api_disabled"))
  ensure_revision_access workspace_id repository_id pull_request_id revision_id db.rows
  run ← ensure_some (run_to_publish workspace_id revision_id named db.rows) (
      raise_with ErrorClass.conflict "Completed review run required before publish"
        (some "review_required"))
  revision ←
      ensure_some (Table.get Revision.id revision_id db.rows.revisions)
        (raise_with ErrorClass.not_found "Pull request revision not found" none)
  ok (open_or_add workspace_id revision_id run revision db)
