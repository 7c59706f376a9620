-- ===== src/Publishing/Run/Ended.antt =====
-- A job that has been run is completed, failed or skipped, or an exception has rolled it back to a row
-- that is still open.
use revy.Common.{
  ℕ, ◌≡◌, refl, ◌∙◌, ap, String, true, false, Option, none, some, List, str_eq, take_chars, Bool,
  [], Bool-cases, Option-cases, inl, inr, ◌⊎◌, arith,
}
use revy.Common.Dict.{Dict}
use revy.Common.Json.{ℤ, Members}
use revy.Common.Table
use revy.Enums.{GitHubPublishJobStatus}
use revy.Findings.Rows.{Db, PublishJob, ReviewRun, Revision, PullRequest, Repository, Installation}
use revy.Pipeline.{PipelineDb, PipelineRun, resolve_pipeline_github_check_run_id}
use revy.Publishing.Jobs.{is_open_job}
use revy.Publishing.Flight.{finalize_failure, Flight, World, Raised, skip_publish_job_at_gate}
use revy.Publishing.Threads.{
  deserialize_inline_thread_map, rekey_inline_thread_map_to_group_ids, summary_key,
}
use revy.Publishing.Inline.{threads_key, Posting, LoopEnd, finished, skipped, stopped}
use revy.Publishing.Run.{
  RunEnd, returned, retried, propagated, Surface, Built, built, not_built, is_superseded_run,
  is_skipped_job, is_caught, is_transient, fail_if_open, take_summary, set_status, set_rollup,
  leave, report_failure, handle_failure, settle_flush, pipeline_run_of, record_step_for,
  finalize_failed_for, message_or_empty, failure_summary, publish_surface, after_build, after_first,
  after_index, after_second, after_stale, publish_built, publish, with_context, with_pull_request,
  with_run, run_found, run_publish_job,
}
use revy.Publishing.Inline.Steady.{view-finalize_at}
use revy.Publishing.Run.Closed.{
  status-IsAside, IsGoing, IsClosed, gate-closes, gate-saved, going-AtStep, when_held-IsClosed,
  when_written-IsClosed,
}
use revy.Publishing.Run.Flushed.{flush-IsClosed}

-- The job that is given back has ended. An exception leaves the row as last committed, which is still
-- pending or processing, and only one that is transient asks for a retry.
abbrev pub IsEnded : Flight × RunEnd → Type 0
IsEnded (s, returned) = is_open_job s.job.status ≡ false
IsEnded (s, retried raised) =
    (is_transient raised ≡ true)
    × (s.job ≡ s.saved)
    × (s.pipeline ≡ s.saved_pipeline)
    × (is_open_job s.job.status ≡ true)
IsEnded (s, propagated raised) =
    (s.job ≡ s.saved) × (s.pipeline ≡ s.saved_pipeline) × (is_open_job s.job.status ≡ true)

leave-IsEnded :
    (r : Flight × Option Raised)
    → is_open_job r.0.job.status ≡ false
    → is_open_job r.0.saved.status ≡ true
    → IsEnded (leave r)
leave-IsEnded (s, none) closed saved = closed
leave-IsEnded (s, some e) closed saved = (refl, refl, saved)

record_step-job :
    (run : Option PipelineRun) (summary : String) (duration_ms : ℕ) (comment : String)
    (model_provider model_id : Option String) (s : Flight)
    → let t = record_step_for run summary duration_ms comment model_provider model_id s in
      (t.job.status ≡ s.job.status) × (t.saved ≡ s.saved)
record_step-job none summary duration_ms comment model_provider model_id s = (refl, refl)
record_step-job (some run) summary duration_ms comment model_provider model_id s = (refl, refl)

finalize-job :
    (world : World) (run : Option PipelineRun) (summary : String) (s : Flight)
    → let t = (finalize_failed_for world run summary s).0 in
      (t.job.status ≡ s.job.status) × (t.saved ≡ s.saved)
finalize-job world none summary s = (refl, refl)
finalize-job world (some run) summary s =
    let call = finalize_failure run.id summary in
    let check = resolve_pipeline_github_check_run_id run.id s.pipeline in
    (
      view-finalize_at (λ t. t.job.status) status-IsAside world call check s,
      view-finalize_at Flight.saved (record { requested = λ s log clock. refl }) world call check s,
    )

rollup-status :
    (rollup : Option Members) (s : Flight) → (set_rollup rollup s).job.status ≡ s.job.status
rollup-status none s = refl
rollup-status (some rollup) s = refl

fail_if_open-ends :
    (message : String) (s : Flight)
    → (is_open_job (fail_if_open message s).job.status ≡ false)
      × ((fail_if_open message s).saved ≡ s.saved)
fail_if_open-ends message s = elim (Bool-cases (is_open_job s.job.status)) [
  | inl going ↦ rw going (refl, refl)
  | inr ended ↦ rw ended (ended, refl)
]

skipped_ends :
    (status : GitHubPublishJobStatus) → is_skipped_job status ≡ true → is_open_job status ≡ false
skipped_ends GitHubPublishJobStatus.pending h = absurd (ground arith)
skipped_ends GitHubPublishJobStatus.processing h = absurd (ground arith)
skipped_ends GitHubPublishJobStatus.completed h = refl
skipped_ends GitHubPublishJobStatus.failed h = refl
skipped_ends GitHubPublishJobStatus.skipped_not_head h = refl
skipped_ends GitHubPublishJobStatus.skipped_superseded h = refl

module _ (world : World) (text_of : Raised → String) (duration_ms : ℕ) where
  report_failure-IsEnded :
      (s : Flight)
      → is_open_job s.job.status ≡ false
      → is_open_job s.saved.status ≡ true
      → IsEnded (leave (report_failure world text_of duration_ms s))
  report_failure-IsEnded s closed saved =
      let run = pipeline_run_of s in
      let summary = failure_summary s.job.error_message in
      let step = record_step_for run summary duration_ms "" none none s in
      let message = message_or_empty s.job.error_message in
      let (a, b) = record_step-job run summary duration_ms "" none none s in
      let (c, d) = finalize-job world run message step in
      leave-IsEnded (finalize_failed_for world run message step) (ap is_open_job (c ∙ a) ∙ closed)
        (ap (λ j. is_open_job (PublishJob.status j)) (d ∙ b) ∙ saved)

  handle_failure-IsEnded :
      (raised : Raised) (s : Flight)
      → is_open_job s.saved.status ≡ true
      → IsEnded (handle_failure world text_of duration_ms raised s)
  handle_failure-IsEnded raised s saved =
      let message = take_chars 2000 (text_of raised) in
      elim (Bool-cases (is_caught raised)) [
        | inr uncaught ↦ rw uncaught (refl, refl, saved)
        | inl caught ↦ rw caught (elim (Bool-cases (is_skipped_job s.job.status)) [
          | inl skip ↦ rw skip (skipped_ends s.job.status skip)
          | inr unskipped ↦ rw unskipped (elim (Bool-cases (is_transient raised)) [
            | inl transient ↦ rw transient (transient, refl, refl, saved)
            | inr permanent ↦ rw permanent (
                let (closed, kept) = fail_if_open-ends message s in
                report_failure-IsEnded (fail_if_open message s) closed
                  (ap (λ j. is_open_job (PublishJob.status j)) kept ∙ saved))
          ])
        ])
      ]

  settle_flush-IsEnded :
      (surface : Surface) (r : Posting × LoopEnd)
      → IsClosed r
      → IsEnded (settle_flush world text_of duration_ms surface r)
  settle_flush-IsEnded surface (s, skipped) h = h
  settle_flush-IsEnded surface (s, stopped raised) h = handle_failure-IsEnded raised s.flight h
  settle_flush-IsEnded surface (s, finished) h =
      let done =
        set_status GitHubPublishJobStatus.completed s.flight.job.error_message
          (set_rollup surface.rollup s.flight) in
      ap is_open_job
        (record_step-job (pipeline_run_of done) surface.check_summary duration_ms
          surface.issue_comment surface.model_provider surface.model_id done).0

  module _ (with_blocks : List String → Option String) (parse_uuid : String → Option ℕ) (db : Db)
      (build_surface : Flight → Built) where
    module _ (retry_posted : Dict ℤ) (surface : Surface) where
      second-IsClosed :
          (s : Flight)
          → IsGoing s
          → IsClosed (
              after_second world text_of duration_ms with_blocks parse_uuid db build_surface
                retry_posted surface s)
      second-IsClosed s h =
          when_written-IsClosed world surface.build
            (after_stale world text_of duration_ms with_blocks parse_uuid db build_surface
              retry_posted surface)
            (s, surface.stale_failure) (going-AtStep surface.stale_failure s h)
            (flush-IsClosed world surface.build with_blocks surface.thread_index retry_posted
              surface.collapsed_summary surface.thread_resolve_skipped surface.check_summary
              surface.issue_comment true surface.collapsed_fingerprints)

      first-IsClosed :
          (s : Flight)
          → IsGoing s
          → IsClosed (
              after_first world text_of duration_ms with_blocks parse_uuid db build_surface
                retry_posted surface s)
      first-IsClosed s h =
          when_written-IsClosed world surface.build
            (after_index world text_of duration_ms with_blocks parse_uuid db build_surface
              retry_posted surface)
            (s, surface.index_failure) (going-AtStep surface.index_failure s h)
            (λ t k.
              when_held-IsClosed world surface.build (λ s. s)
                (after_second world text_of duration_ms with_blocks parse_uuid db build_surface
                  retry_posted surface)
                t k (λ u closed. closed) second-IsClosed)

      publish_surface-IsClosed :
          (s : Flight)
          → IsGoing s
          → IsClosed (
              publish_surface world text_of duration_ms with_blocks parse_uuid db build_surface
                retry_posted surface s)
      publish_surface-IsClosed s h =
          when_held-IsClosed world surface.build (λ s. s)
            (after_build world text_of duration_ms with_blocks parse_uuid db build_surface
              retry_posted surface)
            (take_summary world text_of duration_ms with_blocks parse_uuid db build_surface surface
              s)
            h (λ t closed. closed)
            (λ t k.
              when_held-IsClosed world surface.build (λ s. s)
                (after_first world text_of duration_ms with_blocks parse_uuid db build_surface
                  retry_posted surface)
                t k (λ u closed. closed) first-IsClosed)

    publish_built-IsEnded :
        (retry_posted : Dict ℤ) (s : Flight) (b : Built)
        → IsGoing s
        → IsEnded (
            publish_built world text_of duration_ms with_blocks parse_uuid db build_surface
              retry_posted s b)
    publish_built-IsEnded retry_posted s (built surface) h =
        settle_flush-IsEnded surface
          (publish_surface world text_of duration_ms with_blocks parse_uuid db build_surface
            retry_posted surface s)
          (publish_surface-IsClosed retry_posted surface s h)
    publish_built-IsEnded retry_posted s (not_built raised) h = handle_failure-IsEnded raised s h.1

    publish-IsEnded :
        (p : PullRequest) (s : Flight)
        → is_open_job s.saved.status ≡ true
        → IsEnded (publish world text_of duration_ms with_blocks parse_uuid db build_surface p s)
    publish-IsEnded p s saved =
        let processing = set_status GitHubPublishJobStatus.processing none s in
        publish_built-IsEnded
          (rekey_inline_thread_map_to_group_ids parse_uuid db.groups p.id
            (deserialize_inline_thread_map (summary_key threads_key s.job.summary_json)))
          processing (build_surface processing) (refl, saved)

    context-IsEnded :
        (p : PullRequest) (repository : Option Repository) (installation : Option Installation)
        (s : Flight)
        → is_open_job s.saved.status ≡ true
        → IsEnded (
            with_context world text_of duration_ms with_blocks parse_uuid db build_surface p
              repository installation s)
    context-IsEnded p (some repository) (some installation) s saved = publish-IsEnded p s saved
    context-IsEnded p (some repository) none s saved = refl
    context-IsEnded p none installation s saved = refl

    gate-IsEnded :
        (b : Bool) (s : Flight)
        → is_open_job s.saved.status ≡ true
        → IsEnded (leave (skip_publish_job_at_gate world b s))
    gate-IsEnded b s saved =
        leave-IsEnded (skip_publish_job_at_gate world b s) (gate-closes world b s)
          (gate-saved world b s saved)

    pull_request-IsEnded :
        (run : ReviewRun) (p : Option PullRequest) (s : Flight)
        → is_open_job s.saved.status ≡ true
        → IsEnded (
            with_pull_request world text_of duration_ms with_blocks parse_uuid db build_surface run
              p s)
    pull_request-IsEnded run none s saved = refl
    pull_request-IsEnded run (some p) s saved = elim (Bool-cases (is_superseded_run run.status)) [
      | inl gone ↦ rw gone (gate-IsEnded true s saved)
      | inr there ↦ rw there (elim (Bool-cases (str_eq s.job.head_sha p.head_sha)) [
        | inr behind ↦ rw behind (gate-IsEnded false s saved)
        | inl at_head ↦ rw at_head (
            context-IsEnded p (Table.get Repository.id p.repository_id db.repositories)
              (Table.get Installation.id p.installation_id db.installations) s saved)
      ])
    ]

    with_run-IsEnded :
        (run : Option ReviewRun) (revision : Option Revision) (s : Flight)
        → is_open_job s.saved.status ≡ true
        → IsEnded (
            with_run world text_of duration_ms with_blocks parse_uuid db build_surface run revision
              s)
    with_run-IsEnded (some run) (some revision) s saved =
        pull_request-IsEnded run
          (Table.get PullRequest.id revision.pull_request_id db.pull_requests) s saved
    with_run-IsEnded (some run) none s saved = refl
    with_run-IsEnded none revision s saved = refl

    run_found-IsEnded :
        (s : Flight)
        → s.saved ≡ s.job
        → IsEnded (run_found world text_of duration_ms with_blocks parse_uuid db build_surface s)
    run_found-IsEnded s fresh = elim (Bool-cases (is_open_job s.job.status)) [
      | inr ended ↦ rw ended ended
      | inl going ↦ rw going (
          with_run-IsEnded (Table.get ReviewRun.id s.job.review_run_id db.runs)
            (Table.get Revision.id s.job.revision_id db.revisions) s
            (ap (λ j. is_open_job (PublishJob.status j)) fresh ∙ going))
    ]

    -- A run of a publish job, whatever the build and the requests of the flush give or raise, whatever rows
    -- are missing, however HEAD moves, whatever GitHub answers and whether or not commits succeed (the other
    -- statements to the database are answered). A job that
    -- is not there is the not-found error. Otherwise the job is given back completed, failed or skipped, or
    -- an exception leaves the run: then the job and the trace are back to what was last committed, in
    -- which the job is pending or processing; the exception asks for a retry only if it is transient.
    pub run_publish_job-IsEnded :
        (publish_job_id : ℕ) (pipeline : PipelineDb)
        → let end =
            run_publish_job world text_of duration_ms with_blocks parse_uuid db build_surface
              publish_job_id pipeline in
          ((Table.get PublishJob.id publish_job_id db.publish_jobs ≡ none) × (end ≡ none))
          ⊎ ((r : Flight × RunEnd) × (end ≡ some r) × IsEnded r)
    unfolding run_publish_job
    run_publish_job-IsEnded publish_job_id pipeline =
        elim (Option-cases (Table.get PublishJob.id publish_job_id db.publish_jobs)) [
          | inl missing ↦ inl (missing, rw (run_publish_job, missing) refl)
          | inr (job, there) ↦
              let start : Flight = record {
                job = job;
                saved = job;
                pipeline = pipeline;
                saved_pipeline = pipeline;
                log = [];
                clock = 0;
              } in
              inr (
                run_found world text_of duration_ms with_blocks parse_uuid db build_surface start,
                rw (run_publish_job, there) refl,
                run_found-IsEnded start refl,
              )
        ]
