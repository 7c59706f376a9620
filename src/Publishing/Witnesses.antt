-- ===== src/Publishing/Witnesses.antt =====
-- Publications of the second review run of the example: two comments, whose posting loses its authority
-- after the first, or is cut off by an outage and runs again.
use revy.Common.{
  any_of, uuid_str, ap, ◌∙◌, eq_iff, true, false, some, none, ◌==◌, ℕ, ◌≡◌, refl, String, List, [],
  ◌∷◌, Option, ltb, if◌then◌else◌, ◌⊎◌,
}
use revy.Common.Dict.{Dict, is_in}
use revy.Common.Table
use revy.Common.Json.{ℤ, pos, int_eq, Json, end}
use revy.Enums.{GitHubPublishJobStatus, FindingSeverity, GitHubJudgeOutcome, JudgePurpose}
use revy.Findings.Samples.{sample, race, second_run, second_revision}
use revy.Pipeline.{PipelineDb}
use revy.Publishing.Threads.{deserialize_inline_thread_map}
use revy.Publishing.Jobs.{
  PublishDb, new_job, create_publish_job_for_review_run, resolve_publish_job_id_for_review_run,
}
use revy.Publishing.Single.{IsSingle, here, next, created, dispatched, JobSteps-IsSingle}
use revy.Publishing.Flight.{
  Raised, commit_failed, InlinePostSpec, World, Flight, accepted, unreachable, post_comment,
  delete_comment, create_check, create_issue_comment, update_check, update_issue_comment,
  skip_summary,
}
use revy.Publishing.Choice.{publishable_fingerprints_for_run, publishable_groups_for_review_run}
use revy.Publishing.Choice.Aligned.{has_key, publishable_fingerprints-publishable_groups}
use revy.Findings.Rows.{Db, PublishJob}
use revy.Publishing.Run.{RunEnd, returned, Surface, built, run_publish_job}
use revy.Publishing.Run.Ended.{IsEnded, run_publish_job-IsEnded}
use revy.Retries.{Failure}
use revy.Publishing.Stale.{ThreadWorld, Resolving, resolve_stale_inline_threads}
use revy.Publishing.Stale.Resolved.{IsSettled, start, resolve_stale_inline_threads-IsSettled}
use revy.Publishing.Surface.{PublishSurfaceBuild}
use revy.Publishing.Flush.{flush_publish_surface}
use revy.Publishing.Flush.Unwound.{IsUnwound, flush_publish_surface-IsUnwound}
use revy.Publishing.Inline.{all_posted, Posting, LoopEnd, stopped, post_inline_comments}
use revy.Publishing.Inline.Saved.{stored, IsLeft}
use revy.Publishing.Inline.Resumed.{IsOnce, flush, post_inline_comments-IsOnce}

-- Two groups with a comment.
abbrev two_threads : Dict ℤ
two_threads = ("g1", pos 500) ∷ ("g2", pos 501) ∷ []

abbrev no_pipeline : PipelineDb
no_pipeline = record { runs = []; steps = []; artifacts = []; next_id = 300 }

abbrev tables : PublishDb
tables = record { rows = sample; pipeline = no_pipeline }

-- A job is made for the run, and a second dispatch finds it.
abbrev after_creation : PublishDb
after_creation = (create_publish_job_for_review_run 31 tables).0

abbrev after_dispatch : PublishDb
after_dispatch = (resolve_publish_job_id_for_review_run 31 after_creation).0

JobSteps-IsSingle_example : IsSingle after_dispatch
JobSteps-IsSingle_example =
    JobSteps-IsSingle (next (next here (created 31 refl)) (dispatched 31 refl)) (tt, tt)

abbrev spec : ℕ → String → InlinePostSpec
spec group_id fingerprint = record {
  finding_id = 400;
  group_id = group_id;
  group_fingerprint = fingerprint;
  file_path = "b.py";
  start_line = 7;
  title = "Race";
  message = "Two writers.";
  severity = FindingSeverity.critical;
  suggestion = none;
}

abbrev specs : List InlinePostSpec
specs = spec 1 "g1" ∷ spec 2 "g2" ∷ []

-- HEAD moves, or GitHub is out of reach, from some step on.
abbrev until : ℕ → ℕ → World
until moved outage = record {
  authority = λ n. record { superseded = false; head_sha = if ltb n moved then "b" else "c" };
  answer = λ n. if ltb n outage then accepted (pos n) else unreachable;
  commits = λ n. true;
}

abbrev flight : Flight
flight =
    let job = new_job 60 second_run 21 second_revision in
    record {
      job = job;
      saved = job;
      pipeline = no_pipeline;
      saved_pipeline = no_pipeline;
      log = [];
      clock = 0;
    }

abbrev posting : Posting
posting = record {
  flight = flight;
  inline_threads = [];
  inline_thread_ids = [];
  recovered_fingerprints = [];
  recovered_count = 0;
  written_this_flush = [];
}

abbrev no_threads : ℤ → Option String
no_threads comment_id = none

abbrev lost : Posting × LoopEnd
lost = post_inline_comments no_threads end (until 2 10) [] specs posting

-- The first comment is posted and deleted again, the second is never asked for.
lost_log :
    lost.0.flight.log
    ≡ (post_comment (spec 1 "g1") 7, accepted (pos 1))
      ∷ (delete_comment (pos 1), accepted (pos 4))
      ∷ []
unfolding post_inline_comments
lost_log = refl

abbrev build : PublishSurfaceBuild
build = record {
  conclusion = "neutral";
  inline_threads = [];
  prior_v2_inline = end;
  inline_posts = specs;
  post_inline = true;
  is_update_from_other = false;
  existing_github_check_run_id = none;
  existing_github_comment_id = none;
  prior_collapsed_fingerprints = [];
}

abbrev no_blocks : List String → Option String
no_blocks fingerprints = none

-- HEAD moves once the check, the issue comment and the first inline comment are there.
abbrev flushed : Posting × LoopEnd
flushed =
    flush_publish_surface (until 7 20) build no_blocks no_threads [] end Json.null "1 finding"
      "Revy found 1 issue" false [] flight

flushed_log :
    flushed.0.flight.log
    ≡ (create_check "neutral" "1 finding", accepted (pos 1))
      ∷ (create_issue_comment "Revy found 1 issue", accepted (pos 2))
      ∷ (post_comment (spec 1 "g1") 7, accepted (pos 7))
      ∷ (update_check (pos 1) "neutral" skip_summary, accepted (pos 10))
      ∷ (update_issue_comment (pos 2) skip_summary, accepted (pos 11))
      ∷ (delete_comment (pos 7), accepted (pos 12))
      ∷ []
unfolding flush_publish_surface
flushed_log = refl

flush_publish_surface-IsUnwound_example : IsUnwound flushed
flush_publish_surface-IsUnwound_example =
    flush_publish_surface-IsUnwound (until 7 20) build no_blocks no_threads [] end Json.null
      "1 finding" "Revy found 1 issue" false [] flight refl

-- The thread of the first comment is found by a second reading of the index, and resolved at the second request.
abbrev threads_world : ThreadWorld
threads_world = record {
  index_failure = λ n. none;
  index = λ n comment_id. if int_eq comment_id (pos 500) then some "T1" else none;
  resolve_failure = λ n thread_id. if n == 1 then some (Failure.http_status 502) else none;
}

abbrev resolving : Resolving × Option Failure
resolving =
    resolve_stale_inline_threads threads_world no_threads [] ("g1" ∷ "g2" ∷ []) (start two_threads)

resolving_left : resolving.0.inline_threads ≡ ("g2", pos 501) ∷ []
unfolding resolve_stale_inline_threads
resolving_left = refl

resolve_stale_inline_threads-IsSettled_example :
    IsSettled threads_world no_threads [] two_threads
      ("g1" ∷ "g2" ∷ [])
      resolving.0.inline_threads
      resolving.0.closed_fingerprints
      resolving.0.log
resolve_stale_inline_threads-IsSettled_example =
    resolve_stale_inline_threads-IsSettled threads_world no_threads [] ("g1" ∷ "g2" ∷ [])
      two_threads

-- The first attempt ends at the second comment, for want of an answer.
abbrev cut_off : Posting × LoopEnd
cut_off = flush no_threads end [] (until 100 3) specs posting

cut_off_stored : stored cut_off.0.flight.saved ≡ ("g1", pos 1) ∷ []
unfolding stored post_inline_comments deserialize_inline_thread_map
cut_off_stored = refl

-- The commit after the first comment fails: the comment is placed, and the committed row does not have it.
abbrev in_doubt : Posting × LoopEnd
in_doubt = flush no_threads end [] (record (until 100 100) { commits = λ n. false }) specs posting

in_doubt_end : (in_doubt.1 ≡ stopped commit_failed) × (stored in_doubt.0.flight.saved ≡ [])
unfolding stored post_inline_comments deserialize_inline_thread_map
in_doubt_end = (refl, refl)

post_inline_comments-IsOnce_example :
    IsLeft cut_off.1
      (IsOnce
        (flush no_threads end
          (stored cut_off.0.flight.saved)
          (until 100 100)
          specs
          posting).0.flight.log)
      cut_off.0.flight.log
post_inline_comments-IsOnce_example =
    post_inline_comments-IsOnce no_threads end (until 100 3) (until 100 100) [] specs posting specs
      posting tt refl refl

-- The race is bound to a group, and the judge has an outcome for it.
abbrev judged : Db
judged = record sample {
  findings = record race { group_id = some 100 } ∷ [];
  judge_outcomes =
      record {
        group_id = 100;
        review_run_id = 31;
        outcome = GitHubJudgeOutcome.upheld;
        judge_purpose = JudgePurpose.discovery;
      }
      ∷ [];
}

race_is_inline : publishable_fingerprints_for_run judged 31 10 ≡ uuid_str 100 ∷ []
unfolding publishable_fingerprints_for_run
race_is_inline = refl

publishable_fingerprints-publishable_groups_example :
    any_of (has_key (uuid_str 100)) (publishable_groups_for_review_run judged 31 10) ≡ true
publishable_fingerprints-publishable_groups_example =
    publishable_fingerprints-publishable_groups judged 31 10 (uuid_str 100) (
      ap (is_in (uuid_str 100)) race_is_inline
      ∙ rw ((eq_iff (uuid_str 100) (uuid_str 100)).1 refl) refl)

-- The surface of the same two comments.
abbrev surface : Surface
surface = record {
  build = build;
  summary_json = end;
  check_summary = "1 finding";
  issue_comment = "Revy found 1 issue";
  collapsed_summary = end;
  thread_resolve_skipped = Json.null;
  collapsed_fingerprints = [];
  thread_index = no_threads;
  index_failure = none;
  stale_failure = none;
  rollup = none;
  model_provider = none;
  model_id = none;
}

abbrev error_text : Raised → String
error_text raised = "request failed"

abbrev no_uuid : String → Option ℕ
no_uuid s = none

abbrev with_job : Db
with_job = record sample { publish_jobs = new_job 60 second_run 21 second_revision ∷ [] }

abbrev publication : Option (Flight × RunEnd)
publication =
    run_publish_job (until 100 100) error_text 1200 no_blocks no_uuid with_job (λ s. built surface)
      60 no_pipeline

-- The job is completed, with both comments posted.
abbrev IsComplete : Option (Flight × RunEnd) → Type 0
IsComplete none = true ≡ false
IsComplete (some (s, left)) =
    (s.job.status ≡ GitHubPublishJobStatus.completed)
    × (s.job.inline_comments_posted ≡ true)
    × (left ≡ returned)

publication_completes : IsComplete publication
unfolding run_publish_job all_posted
publication_completes = (refl, refl, refl)

run_publish_job-IsEnded_example :
    ((Table.get PublishJob.id 60 with_job.publish_jobs ≡ none) × (publication ≡ none))
    ⊎ ((r : Flight × RunEnd) × (publication ≡ some r) × IsEnded r)
run_publish_job-IsEnded_example =
    run_publish_job-IsEnded (until 100 100) error_text 1200 no_blocks no_uuid with_job
      (λ s. built surface) 60 no_pipeline
