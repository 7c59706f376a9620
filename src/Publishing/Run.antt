-- ===== src/Publishing/Run.antt =====
-- `run_publish_job` of services/github_publish.py: a job from its gates to its end, as the worker runs it. What
-- `_build_publish_surface` gives or raises, and what the requests before the writes give or raise, is handed in.
mod Closed
mod Flushed
pub mod Ended
use revy.Common.{
  ℕ, suc, String, Bool, true, false, not, Option, none, some, List, [], ◌∷◌, ◌++◌, if◌then◌else◌,
  str_eq, take_chars,
}
use revy.Common.Dict.{Dict, merge}
use revy.Common.Json.{
  ℤ, pos, Json, Items, nil, cons, Members, member, end, update_keys, get_key, set_key,
}
use revy.Common.Table
use revy.Enums.{GitHubPublishJobStatus, GitHubReviewRunStatus}
use revy.Findings.Rows.{Db, PublishJob, ReviewRun, Revision, PullRequest, Repository, Installation}
use revy.Pipeline.{
  PipelineDb, PipelineRun, get_pipeline_run_for_review_run, record_publish_pipeline_step,
  resolve_pipeline_github_check_run_id,
}
use revy.Retries.{is_retryable_http_status}
use revy.Publishing.Threads.{
  deserialize_inline_thread_map, rekey_inline_thread_map_to_group_ids, summary_key,
}
use revy.Publishing.Jobs.{is_open_job}
use revy.Publishing.Flight.{
  Flight, World, Raised, finalize_at, finalize_failure, http_status, transport, commit_failed,
  uncaught, recheck_authority, skip_publish_job_at_gate,
}
use revy.Publishing.Inline.{
  Posting, LoopEnd, finished, skipped, stopped, threads_key, write_summary, read_texts, text_items,
}
use revy.Publishing.Surface.{PublishSurfaceBuild}
use revy.Publishing.Flush.{
  flush_publish_surface, when_held, when_written, posting_of, collapsed_key,
}

-- How the function is left: with the job, with `PublishJobRetryableError`, or with another exception.
pub data RunEnd : Type 0 where
  returned : RunEnd
  retried : Raised → RunEnd
  propagated : Raised → RunEnd

-- What the build gave, and the requests for the token, the index of threads (`index_failure` if one of the two
-- raised) and the stale threads (`stale_failure`).
pub record Surface : Type 0 where
  pub build : PublishSurfaceBuild
  pub summary_json : Members
  pub check_summary : String
  pub issue_comment : String
  pub collapsed_summary : Members
  pub thread_resolve_skipped : Json
  pub collapsed_fingerprints : List String
  pub thread_index : ℤ → Option String
  pub index_failure : Option Raised
  pub stale_failure : Option Raised
  pub rollup : Option Members
  pub model_provider : Option String
  pub model_id : Option String

-- The end of `_build_publish_surface`.
pub data Built : Type 0 where
  built : Surface → Built
  not_built : Raised → Built

abbrev pub is_superseded_run : GitHubReviewRunStatus → Bool
is_superseded_run GitHubReviewRunStatus.superseded = true
is_superseded_run _ = false

abbrev pub set_status : GitHubPublishJobStatus → Option String → Flight → Flight
set_status status error_message s = record s {
  job = record s.job { status = status; error_message = error_message };
}

abbrev pub fail_job : String → Flight → Flight
fail_job message s = set_status GitHubPublishJobStatus.failed (some message) s

abbrev pub is_skipped_job : GitHubPublishJobStatus → Bool
is_skipped_job GitHubPublishJobStatus.skipped_not_head = true
is_skipped_job GitHubPublishJobStatus.skipped_superseded = true
is_skipped_job _ = false

-- `httpx.HTTPError` or `ServiceUnavailableError`
abbrev pub is_caught : Raised → Bool
is_caught commit_failed = false
is_caught uncaught = false
is_caught _ = true

-- `classify_transient_error`
abbrev pub is_transient : Raised → Bool
is_transient (http_status code) = is_retryable_http_status code
is_transient transport = true
is_transient _ = false

-- The session is rolled back when an exception leaves the function.
abbrev pub roll_back : Flight → Flight
roll_back s = record s { job = s.saved; pipeline = s.saved_pipeline }

abbrev pub leave : Flight × Option Raised → Flight × RunEnd
leave (s, none) = (s, returned)
leave (s, some raised) = (roll_back s, propagated raised)

-- `if job.status not in _TERMINAL_PUBLISH_JOB_STATUSES:`
abbrev pub fail_if_open : String → Flight → Flight
fail_if_open message s = if is_open_job s.job.status then fail_job message s else s

-- `record_publish_pipeline_step` for the pipeline of the run, if there is one.
abbrev pub record_step_for :
    Option PipelineRun → String → ℕ → String → Option String → Option String → Flight → Flight
record_step_for none summary duration_ms comment model_provider model_id s = s
record_step_for (some run) summary duration_ms comment model_provider model_id s = record s {
  pipeline =
      record_publish_pipeline_step run.id s.job summary duration_ms comment model_provider model_id
        s.pipeline;
}

abbrev pub pipeline_run_of : Flight → Option PipelineRun
pipeline_run_of s = get_pipeline_run_for_review_run s.job.review_run_id s.pipeline

abbrev message_or_empty : Option String → String
message_or_empty none = ""
message_or_empty (some message) = message

-- `job.error_message or "Publish failed"`
abbrev failure_summary : Option String → String
failure_summary none = "Publish failed"
failure_summary (some message) = if str_eq message "" then "Publish failed" else message

abbrev pub set_rollup : Option Members → Flight → Flight
set_rollup none s = s
set_rollup (some rollup) s = record s {
  job = write_summary "pr_resolution_rollup" (Json.object rollup) s.job;
}

-- The fingerprints of earlier collapsed threads that the summary has; they are texts.
abbrev pub collapsed_of : Json → List String
collapsed_of (Json.array items) = read_texts items
collapsed_of _ = []

-- `finalize_pipeline_github_check_failure`
abbrev pub finalize_failed_for :
    World → Option PipelineRun → String → Flight → Flight × Option Raised
finalize_failed_for world none summary s = (s, none)
finalize_failed_for world (some run) summary s =
    finalize_at world (finalize_failure run.id summary)
      (resolve_pipeline_github_check_run_id run.id s.pipeline) s

-- `text_of` is the message of an exception and `duration_ms` the time that has passed.
module _ (world : World) (text_of : Raised → String) (duration_ms : ℕ) where
  -- `finalize_pipeline_github_check_failure` takes `job.error_message`.
  abbrev pub report_failure : Flight → Flight × Option Raised
  report_failure s =
      finalize_failed_for world (pipeline_run_of s) (message_or_empty s.job.error_message) (
        record_step_for (pipeline_run_of s) (failure_summary s.job.error_message) duration_ms ""
          none none s)

  -- The handler of `httpx.HTTPError` and `ServiceUnavailableError`; any other exception leaves the function.
  abbrev pub handle_failure : Raised → Flight → Flight × RunEnd
  handle_failure raised s =
      if not (is_caught raised)
      then (roll_back s, propagated raised)
      else if is_skipped_job s.job.status
      then (s, returned)
      else if is_transient raised
      then (roll_back s, retried raised)
      else leave (report_failure (fail_if_open (take_chars 2000 (text_of raised)) s))

  abbrev pub settle_flush : Surface → Posting × LoopEnd → Flight × RunEnd
  settle_flush surface (s, skipped) = (s.flight, returned)
  settle_flush surface (s, stopped raised) = handle_failure raised s.flight
  settle_flush surface (s, finished) =
      let done =
        set_status GitHubPublishJobStatus.completed s.flight.job.error_message
          (set_rollup surface.rollup s.flight) in
      (
        record_step_for (pipeline_run_of done) surface.check_summary duration_ms
            surface.issue_comment surface.model_provider surface.model_id done,
        returned,
      )

  module _ (with_blocks : List String → Option String) (parse_uuid : String → Option ℕ) (db : Db)
      (build_surface : Flight → Built) where
    -- `job.summary_json = {**build.summary_json, collapsed: …}`
    abbrev pub take_summary : Surface → Flight → Flight
    take_summary surface s = record s {
      job = record s.job {
        summary_json = some (
            set_key collapsed_key
              (Json.array
                (text_items (collapsed_of (summary_key collapsed_key s.job.summary_json))))
              surface.summary_json);
      };
    }

    abbrev pub after_stale : Dict ℤ → Surface → Flight → Posting × LoopEnd
    after_stale retry_posted surface s =
        flush_publish_surface world surface.build with_blocks surface.thread_index retry_posted
          surface.collapsed_summary surface.thread_resolve_skipped surface.check_summary
          surface.issue_comment true surface.collapsed_fingerprints s

    -- The stale threads are resolved once the second reading of the flush has found the authority.
    abbrev pub after_second : Dict ℤ → Surface → Flight → Posting × LoopEnd
    after_second retry_posted surface s =
        when_written surface.build (after_stale retry_posted surface) (s, surface.stale_failure)

    abbrev pub after_index : Dict ℤ → Surface → Flight → Posting × LoopEnd
    after_index retry_posted surface s =
        when_held surface.build (λ s. s) (after_second retry_posted surface)
          (recheck_authority world s)

    -- The token and the index of threads are read once the first one has.
    abbrev pub after_first : Dict ℤ → Surface → Flight → Posting × LoopEnd
    after_first retry_posted surface s =
        when_written surface.build (after_index retry_posted surface) (s, surface.index_failure)

    abbrev pub after_build : Dict ℤ → Surface → Flight → Posting × LoopEnd
    after_build retry_posted surface s =
        when_held surface.build (λ s. s) (after_first retry_posted surface)
          (recheck_authority world s)

    -- The reading before the flush, the two of the flush before its stale threads, and the flush.
    abbrev pub publish_surface : Dict ℤ → Surface → Flight → Posting × LoopEnd
    publish_surface retry_posted surface s =
        when_held surface.build (λ s. s) (after_build retry_posted surface)
          (recheck_authority world (take_summary surface s))

    abbrev pub publish_built : Dict ℤ → Flight → Built → Flight × RunEnd
    publish_built retry_posted s (built surface) =
        settle_flush surface (publish_surface retry_posted surface s)
    publish_built retry_posted s (not_built raised) = handle_failure raised s

    abbrev pub publish : PullRequest → Flight → Flight × RunEnd
    publish pull_request s =
        let processing = set_status GitHubPublishJobStatus.processing none s in
        let retry_posted =
          rekey_inline_thread_map_to_group_ids parse_uuid db.groups pull_request.id
            (deserialize_inline_thread_map (summary_key threads_key s.job.summary_json)) in
        publish_built retry_posted processing (build_surface processing)

    abbrev pub with_context :
        PullRequest → Option Repository → Option Installation → Flight → Flight × RunEnd
    with_context p (some repository) (some installation) s = publish p s
    with_context p (some repository) none s =
        (fail_job "pull_request_context_not_found" s, returned)
    with_context p none installation s = (fail_job "pull_request_context_not_found" s, returned)

    abbrev pub with_pull_request : ReviewRun → Option PullRequest → Flight → Flight × RunEnd
    with_pull_request run none s = (fail_job "pull_request_context_not_found" s, returned)
    with_pull_request run (some p) s =
        if is_superseded_run run.status
        then leave (skip_publish_job_at_gate world true s)
        else if not (str_eq s.job.head_sha p.head_sha)
        then leave (skip_publish_job_at_gate world false s)
        else with_context p (Table.get Repository.id p.repository_id db.repositories)
            (Table.get Installation.id p.installation_id db.installations) s

    abbrev pub with_run : Option ReviewRun → Option Revision → Flight → Flight × RunEnd
    with_run (some run) (some revision) s =
        with_pull_request run (Table.get PullRequest.id revision.pull_request_id db.pull_requests) s
    with_run (some run) none s = (fail_job "review_run_or_revision_not_found" s, returned)
    with_run none revision s = (fail_job "review_run_or_revision_not_found" s, returned)

    abbrev pub run_found : Flight → Flight × RunEnd
    run_found s =
        if not (is_open_job s.job.status)
        then (s, returned)
        else with_run (Table.get ReviewRun.id s.job.review_run_id db.runs)
            (Table.get Revision.id s.job.revision_id db.revisions) s

    -- The worker asks for the surface to be committed at the end. `none` is the `NotFoundError` of a job that is
    -- not there.
    unfoldable pub run_publish_job : ℕ → PipelineDb → Option (Flight × RunEnd)
    unfolding skip_publish_job_at_gate recheck_authority flush_publish_surface
        rekey_inline_thread_map_to_group_ids deserialize_inline_thread_map summary_key set_key
        get_pipeline_run_for_review_run record_publish_pipeline_step
    run_publish_job publish_job_id pipeline =
        elim (Table.get PublishJob.id publish_job_id db.publish_jobs) [
          | none ↦ none
          | some job ↦ some (
              run_found (record {
                job = job;
                saved = job;
                pipeline = pipeline;
                saved_pipeline = pipeline;
                log = [];
                clock = 0;
              }))
        ]
