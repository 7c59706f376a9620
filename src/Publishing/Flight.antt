-- ===== src/Publishing/Flight.antt =====
-- A publication in flight: the job row, what of it has been committed, the trace of the pipeline and
-- the requests to GitHub with their answers. `clock` counts the readings of the database, the commits and the requests, and
-- the environment says what each of them finds: HEAD may move, the run may be superseded, GitHub may
-- refuse, be out of reach or answer what the client cannot use, and a commit may fail.
use revy.Common.{
  ℕ, suc, ◌-◌, ◌+◌, String, Bool, true, false, not, ◌||◌, Option, none, some, List, [], ◌∷◌, ◌++◌,
  ◌==◌, ltb, if◌then◌else◌, str_eq,
}
use revy.Common.Json.{ℤ}
use revy.Enums.{GitHubPublishJobStatus, FindingSeverity}
use revy.Findings.Rows.{PublishJob}
use revy.Pipeline.{
  PipelineDb, PipelineRun, get_pipeline_run_for_review_run, record_publish_skip_on_pipeline,
  resolve_pipeline_github_check_run_id,
}

pub record InlinePostSpec : Type 0 where
  pub finding_id : ℕ
  pub group_id : ℕ
  pub group_fingerprint : String
  pub file_path : String
  pub start_line : ℕ
  pub title : String
  pub message : String
  pub severity : FindingSeverity
  pub suggestion : Option String

-- The requests. `post_comment` is a review comment for a spec at a line, with the text that
-- `format_inline_comment_body` makes of the spec.
pub data Call : Type 0 where
  post_comment : InlinePostSpec → ℕ → Call
  delete_comment : ℤ → Call
  create_check : String → String → Call
  update_check : ℤ → String → String → Call
  create_issue_comment : String → Call
  update_issue_comment : ℤ → String → Call
  finalize_neutral : ℕ → Call
  finalize_failure : ℕ → String → Call

-- A success with the id of what was made, an error status, no answer, or one that the client does not
-- take: a reply that it cannot read, or no token for the installation.
pub data Answer : Type 0 where
  accepted : ℤ → Answer
  status : ℕ → Answer
  unreachable : Answer
  unusable : Answer

-- What a refresh of the run and the pull request finds.
pub record Authority : Type 0 where
  pub superseded : Bool
  pub head_sha : String

pub record World : Type 0 where
  pub authority : ℕ → Authority
  pub answer : ℕ → Answer
  pub commits : ℕ → Bool

-- An exception: of httpx, `ServiceUnavailableError`, a commit that failed, which is also a worker that
-- is killed before it, or any other one.
pub data Raised : Type 0 where
  http_status : ℕ → Raised
  transport : Raised
  service_unavailable : Raised
  commit_failed : Raised
  uncaught : Raised

pub record Flight : Type 0 where
  pub job : PublishJob
  pub saved : PublishJob
  pub pipeline : PipelineDb
  pub saved_pipeline : PipelineDb
  pub log : List (Call × Answer)
  pub clock : ℕ

-- `_commit_publish_job_progress`
abbrev pub commit : World → Flight → Flight × Option Raised
commit world s = (
  record s {
    saved = if world.commits s.clock then s.job else s.saved;
    saved_pipeline = if world.commits s.clock then s.pipeline else s.saved_pipeline;
    clock = suc s.clock;
  },
  if world.commits s.clock then none else some commit_failed,
)

-- A reading of the authority: the job has it, lost it and is skipped, or an exception was raised on
-- the way.
pub data Reading : Type 0 where
  held lost : Reading
  failed : Raised → Reading

abbrev pub reading_of : Option Raised → Reading
reading_of none = lost
reading_of (some raised) = failed raised

-- `except httpx.HTTPError` around the request that finalizes a check.
abbrev pub escapes : Answer → Option Raised
escapes (accepted id) = none
escapes (status code) = none
escapes unreachable = none
escapes unusable = some service_unavailable

-- `_SKIP_PUBLISH_NEUTRAL_SUMMARY`
abbrev pub skip_summary : String
skip_summary = "Superseded by newer commit"

-- `skip_manifest_key`
abbrev pub skip_key : Bool → String
skip_key true = "publish_skipped_superseded"
skip_key false = "publish_skipped_not_head"

abbrev pub skip_status : Bool → GitHubPublishJobStatus
skip_status true = GitHubPublishJobStatus.skipped_superseded
skip_status false = GitHubPublishJobStatus.skipped_not_head

module _ (world : World) where
  -- A request and its answer.
  abbrev pub send : Call → Flight → Flight × Answer
  send call s = (
    record s { log = s.log ++ (call, world.answer s.clock) ∷ []; clock = suc s.clock },
    world.answer s.clock,
  )

  -- A request whose failure is logged and no more.
  abbrev pub try_send : Call → Flight → Flight
  try_send call s = (send call s).0

  -- `_finalize_pipeline_github_check`, if the pipeline has a check.
  abbrev pub finalize_at : Call → Option ℤ → Flight → Flight × Option Raised
  finalize_at call none s = (s, none)
  finalize_at call (some check_run_id) s = ((send call s).0, escapes (world.answer s.clock))

  -- `finalize_pipeline_github_check_neutral`, for the run of the pipeline if there is one.
  abbrev pub finalize_for : Option PipelineRun → Flight → Flight × Option Raised
  finalize_for none s = (s, none)
  finalize_for (some run) s =
      finalize_at (finalize_neutral run.id) (resolve_pipeline_github_check_run_id run.id s.pipeline)
        s

  -- `_skip_publish_job_at_gate`; whether the run was superseded, or else is not at HEAD.
  unfoldable pub skip_publish_job_at_gate : Bool → Flight → Flight × Option Raised
  unfolding get_pipeline_run_for_review_run record_publish_skip_on_pipeline
  skip_publish_job_at_gate superseded s =
      let skipped : Flight = record s {
        job = record s.job { status = skip_status superseded; error_message = none };
        pipeline =
            record_publish_skip_on_pipeline s.job.review_run_id (skip_key superseded) s.pipeline;
      } in
      finalize_for (get_pipeline_run_for_review_run s.job.review_run_id skipped.pipeline) skipped

  abbrev pub skip_for : Bool → Flight → Flight × Reading
  skip_for superseded s = (
    (skip_publish_job_at_gate superseded s).0,
    reading_of (skip_publish_job_at_gate superseded s).1,
  )

  -- `_recheck_publish_authority_before_flush`
  unfoldable pub recheck_authority : Flight → Flight × Reading
  unfolding skip_publish_job_at_gate
  recheck_authority s =
      let found = world.authority s.clock in
      let read : Flight = record s { clock = suc s.clock } in
      if found.superseded
      then skip_for true read
      else if not (str_eq s.job.head_sha found.head_sha)
      then skip_for false read
      else (read, held)

  abbrev pub delete_all : List ℤ → Flight → Flight
  delete_all [] s = s
  delete_all (comment_id ∷ ids) s = delete_all ids (try_send (delete_comment comment_id) s)

  abbrev pub neutralize_check_at : Option ℤ → Flight → Flight
  neutralize_check_at none s = s
  neutralize_check_at (some check_run_id) s =
      try_send (update_check check_run_id "neutral" skip_summary) s

  -- `_neutralize_github_check_after_partial_flush`
  abbrev pub neutralize_check : Flight → Flight
  neutralize_check s = neutralize_check_at s.job.github_check_run_id s

  abbrev pub neutralize_issue_comment_at : Option ℤ → Flight → Flight
  neutralize_issue_comment_at none s = s
  neutralize_issue_comment_at (some comment_id) s =
      try_send (update_issue_comment comment_id skip_summary) s

  -- `_neutralize_github_issue_comment_after_partial_flush`
  abbrev pub neutralize_issue_comment : Flight → Flight
  neutralize_issue_comment s = neutralize_issue_comment_at s.job.github_comment_id s

  -- `_best_effort_revert_partial_flush_surface`; the check and the issue comment have been written at
  -- every call.
  unfoldable pub revert_partial_flush : List ℤ → Flight → Flight
  revert_partial_flush inline_comment_ids s =
      delete_all inline_comment_ids (neutralize_issue_comment (neutralize_check s))

-- `_nearest_inline_retry_line`
abbrev pub nearest_inline_retry_line : ℕ → ℕ
nearest_inline_retry_line start_line = if ltb 1 start_line then start_line - 1 else start_line + 1

-- `INLINE_COMMENT_RECOVERABLE_STATUS_CODES`
abbrev pub is_recoverable : ℕ → Bool
is_recoverable code = code == 404 || code == 422

-- `InlineReviewCommentPostResult`, or the exception.
pub data PostResult : Type 0 where
  created : ℤ → PostResult
  recovered : ℕ → PostResult
  raised : Raised → PostResult

-- The answer at the last line that is tried.
abbrev pub last_answer : Answer → Flight → Flight × PostResult
last_answer (accepted comment_id) s = (s, created comment_id)
last_answer unreachable s = (s, raised transport)
last_answer unusable s = (s, raised service_unavailable)
last_answer (status code) s =
    if is_recoverable code then (s, recovered code) else (s, raised (http_status code))

-- The answer at the first line: a line that GitHub does not know is followed by the one beside it.
abbrev pub first_answer : World → InlinePostSpec → Answer → Flight → Flight × PostResult
first_answer world spec (accepted comment_id) s = (s, created comment_id)
first_answer world spec unreachable s = (s, raised transport)
first_answer world spec unusable s = (s, raised service_unavailable)
first_answer world spec (status code) s =
    let (s', answer) =
      send world (post_comment spec (nearest_inline_retry_line spec.start_line)) s in
    if is_recoverable code then last_answer answer s' else (s, raised (http_status code))

-- `_create_inline_review_comment_with_422_retry`
unfoldable pub create_inline_review_comment_with_422_retry :
    World → InlinePostSpec → Flight → Flight × PostResult
create_inline_review_comment_with_422_retry world spec s =
    let (s', answer) = send world (post_comment spec spec.start_line) s in
    first_answer world spec answer s'
