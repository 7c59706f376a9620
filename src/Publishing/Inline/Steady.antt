-- ===== src/Publishing/Inline/Steady.antt =====
-- What of a publication in flight the requests, the readings of the authority and the taking back leave as it is.
use revy.Common.{
  ℕ, suc, ◌≡◌, refl, ◌∙◌, Bool, true, false, Option, none, some, List, [], ◌∷◌, ◌++◌, str_eq,
  Bool-cases, inl, inr,
}
use revy.Common.Json.{ℤ}
use revy.Enums.{GitHubPublishJobStatus}
use revy.Pipeline.{
  PipelineDb, PipelineRun, get_pipeline_run_for_review_run, record_publish_skip_on_pipeline,
  resolve_pipeline_github_check_run_id,
}
use revy.Publishing.Flight.{
  InlinePostSpec, Call, post_comment, delete_comment, update_check, update_issue_comment,
  finalize_neutral, Answer, accepted, status, unreachable, unusable, Flight, World,
  recheck_authority, revert_partial_flush, delete_all, send, try_send, skip_key, skip_status,
  skip_summary, nearest_inline_retry_line, neutralize_check, neutralize_issue_comment,
  neutralize_check_at, neutralize_issue_comment_at, skip_publish_job_at_gate, finalize_for,
  finalize_at, is_recoverable, create_inline_review_comment_with_422_retry, first_answer,
  last_answer,
}

-- A view of a flight that no request changes.
pub record IsAside {T : Type 0} (view : Flight → T) : Type 0 where
  pub requested :
      (s : Flight) (log : List (Call × Answer)) (clock : ℕ)
      → view (record s { log = log; clock = clock }) ≡ view s

-- One that the skip of the job does not change either.
pub record IsSteady {T : Type 0} (view : Flight → T) : Type 0 where
  pub aside : IsAside view
  pub skipped :
      (s : Flight) (status : GitHubPublishJobStatus) (pipeline : PipelineDb)
      → view (record s {
        job = record s.job { status = status; error_message = none };
        pipeline = pipeline;
      })
        ≡ view s

module _ {T : Type 0} (view : Flight → T) (aside : IsAside view) (world : World) where
  view-send : (call : Call) (s : Flight) → view (send world call s).0 ≡ view s
  view-send call s = aside.requested s (s.log ++ (call, world.answer s.clock) ∷ []) (suc s.clock)

  pub view-finalize_at :
      (call : Call) (check : Option ℤ) (s : Flight)
      → view (finalize_at world call check s).0 ≡ view s
  view-finalize_at call none s = refl
  view-finalize_at call (some check) s = view-send call s

  pub view-finalize :
      (run : Option PipelineRun) (s : Flight) → view (finalize_for world run s).0 ≡ view s
  view-finalize none s = refl
  view-finalize (some run) s =
      view-finalize_at (finalize_neutral run.id)
        (resolve_pipeline_github_check_run_id run.id s.pipeline) s

  pub view-delete_all : (ids : List ℤ) (s : Flight) → view (delete_all world ids s) ≡ view s
  view-delete_all [] s = refl
  view-delete_all (i ∷ ids) s =
      view-delete_all ids (try_send world (delete_comment i) s) ∙ view-send (delete_comment i) s

  view-check_at :
      (check : Option ℤ) (s : Flight) → view (neutralize_check_at world check s) ≡ view s
  view-check_at none s = refl
  view-check_at (some check) s = view-send (update_check check "neutral" skip_summary) s

  pub view-check : (s : Flight) → view (neutralize_check world s) ≡ view s
  view-check s = view-check_at s.job.github_check_run_id s

  view-comment_at :
      (comment : Option ℤ) (s : Flight)
      → view (neutralize_issue_comment_at world comment s) ≡ view s
  view-comment_at none s = refl
  view-comment_at (some comment) s = view-send (update_issue_comment comment skip_summary) s

  pub view-issue_comment : (s : Flight) → view (neutralize_issue_comment world s) ≡ view s
  view-issue_comment s = view-comment_at s.job.github_comment_id s

  pub view-revert : (ids : List ℤ) (s : Flight) → view (revert_partial_flush world ids s) ≡ view s
  unfolding revert_partial_flush
  view-revert ids s =
      view-delete_all ids (neutralize_issue_comment world (neutralize_check world s))
      ∙ view-issue_comment (neutralize_check world s)
      ∙ view-check s

  view-last : (a : Answer) (s : Flight) → view (last_answer a s).0 ≡ view s
  view-last (accepted i) s = refl
  view-last unreachable s = refl
  view-last unusable s = refl
  view-last (status code) s = elim (Bool-cases (is_recoverable code)) [
    | inl again ↦ rw again refl
    | inr other ↦ rw other refl
  ]

  view-first :
      (spec : InlinePostSpec) (a : Answer) (s : Flight)
      → view (first_answer world spec a s).0 ≡ view s
  view-first spec (accepted i) s = refl
  view-first spec unreachable s = refl
  view-first spec unusable s = refl
  view-first spec (status code) s =
      let second = post_comment spec (nearest_inline_retry_line spec.start_line) in
      elim (Bool-cases (is_recoverable code)) [
        | inl again ↦
            rw again (view-last (world.answer s.clock) (send world second s).0 ∙ view-send second s)
        | inr other ↦ rw other refl
      ]

  pub view-post :
      (spec : InlinePostSpec) (s : Flight)
      → view (create_inline_review_comment_with_422_retry world spec s).0 ≡ view s
  unfolding create_inline_review_comment_with_422_retry
  view-post spec s =
      let first = post_comment spec spec.start_line in
      view-first spec (world.answer s.clock) (send world first s).0 ∙ view-send first s

module _ {T : Type 0} (view : Flight → T) (steady : IsSteady view) (world : World) where
  pub view-gate : (b : Bool) (s : Flight) → view (skip_publish_job_at_gate world b s).0 ≡ view s
  unfolding skip_publish_job_at_gate
  view-gate b s =
      let pipeline = record_publish_skip_on_pipeline s.job.review_run_id (skip_key b) s.pipeline in
      view-finalize view steady.aside world
        (get_pipeline_run_for_review_run s.job.review_run_id pipeline) _
      ∙ steady.skipped s (skip_status b) pipeline

  pub view-recheck : (s : Flight) → view (recheck_authority world s).0 ≡ view s
  unfolding recheck_authority
  view-recheck s =
      let read : Flight = record s { clock = suc s.clock } in
      let same = steady.aside.requested s s.log (suc s.clock) in
      elim (Bool-cases ((world.authority s.clock).superseded)) [
        | inl gone ↦ rw (recheck_authority, gone) (view-gate true read ∙ same)
        | inr there ↦ elim (Bool-cases (str_eq s.job.head_sha (world.authority s.clock).head_sha)) [
          | inl at_head ↦ rw (recheck_authority, there, at_head) same
          | inr behind ↦ rw (recheck_authority, there, behind) (view-gate false read ∙ same)
        ]
      ]
