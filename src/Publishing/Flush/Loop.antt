-- ===== src/Publishing/Flush/Loop.antt =====
-- The loop of the inline comments keeps the ids of the check and of the issue comment, and a taking back within it
-- clears them.
use revy.Common.{◌≡◌, sym, ◌∙◌, subst, String, Option, List, All}
use revy.Common.Dict.{Dict}
use revy.Common.Json.{ℤ, Members}
use revy.Publishing.Flight.{
  recheck_authority, InlinePostSpec, Flight, World, PostResult, created, recovered, raised,
  create_inline_review_comment_with_422_retry,
}
use revy.Publishing.Inline.Log.{Entry, AllPosted, post-All, recheck-All}
use revy.Publishing.Inline.Steady.{view-recheck, view-post}
use revy.Publishing.Inline.Steps.{loop_induction}
use revy.Publishing.Inline.{
  Posting, LoopEnd, finished, skipped, stopped, keep_posted, keep_recovered, settle_post, post_one,
  post_inline_comments,
}
use revy.Publishing.Flush.Surface.{
  IsKnown, IsCleared, IsKnown-elsewhere, check-IsSteady, comment-IsSteady, revert-IsCleared,
}

-- The same for the check and the issue comment only.
abbrev pub IsSurfaceCleared : Posting × LoopEnd → Type 0
IsSurfaceCleared (s, finished) = Unit
IsSurfaceCleared (s, stopped e) = Unit
IsSurfaceCleared (s, skipped) = All (IsCleared s.flight.log) s.flight.log

pub IsKnown-at :
    {check check' comment comment' : Option ℤ} (log : List Entry)
    → check' ≡ check
    → comment' ≡ comment
    → All (IsKnown check comment) log
    → All (IsKnown check' comment') log
IsKnown-at {check} {check'} {comment} {comment'} log e f h =
    subst (λ c. All (IsKnown c comment') log) (sym e)
      (subst (λ c. All (IsKnown check c) log) (sym f) h)

-- The loop keeps the ids of the check and of the issue comment.
module _ (thread_index : ℤ → Option String) (prior_v2_inline : Members) (world : World)
    (retry_posted : Dict ℤ) (check comment : Option ℤ) where
  abbrev pub HasSurface : Posting → Type 0
  HasSurface s =
      (s.flight.job.github_check_run_id ≡ check)
      × (s.flight.job.github_comment_id ≡ comment)
      × All (IsKnown check comment) s.flight.log

  abbrev KnownPost : InlinePostSpec → Flight × PostResult → Type 0
  KnownPost spec =
      AllPosted world (IsKnown check comment) (IsKnown-elsewhere check comment) spec
        (λ i. IsKnown check comment) (λ i e known. known) (λ line i. (tt, tt))
        (λ line code. (tt, tt)) (λ line. (tt, tt)) (λ line. (tt, tt))

  settle_post-HasSurface :
      (spec : InlinePostSpec) (s : Posting) (posted : Flight × PostResult)
      → posted.0.job.github_check_run_id ≡ check
      → posted.0.job.github_comment_id ≡ comment
      → KnownPost spec posted
      → HasSurface (settle_post thread_index prior_v2_inline world retry_posted spec s posted).0
  unfolding keep_posted keep_recovered AllPosted
  settle_post-HasSurface spec s (flight, created i) e f h = (e, f, h.0)
  settle_post-HasSurface spec s (flight, recovered code) e f h = (e, f, h)
  settle_post-HasSurface spec s (flight, raised x) e f h = (e, f, h)

  one-HasSurface :
      (s : Posting) (spec : InlinePostSpec)
      → HasSurface s
      → HasSurface (post_one thread_index prior_v2_inline world retry_posted spec s).0
  unfolding post_one
  one-HasSurface s spec h =
      settle_post-HasSurface spec s
        (create_inline_review_comment_with_422_retry world spec s.flight)
        (view-post (λ s. s.job.github_check_run_id) check-IsSteady.aside world spec s.flight ∙ h.0)
        (view-post (λ s. s.job.github_comment_id) comment-IsSteady.aside world spec s.flight ∙ h.1)
        (post-All world (IsKnown check comment) (IsKnown-elsewhere check comment) spec
          (λ i. IsKnown check comment) (λ i e known. known) (λ line i. (tt, tt))
          (λ line code. (tt, tt)) (λ line. (tt, tt)) (λ line. (tt, tt)) s.flight h.2)

  read-HasSurface :
      (s : Posting)
      → HasSurface s
      → HasSurface (record s { flight = (recheck_authority world s.flight).0 })
  read-HasSurface s h = (
    view-recheck (λ s. s.job.github_check_run_id) check-IsSteady world s.flight ∙ h.0,
    view-recheck (λ s. s.job.github_comment_id) comment-IsSteady world s.flight ∙ h.1,
    recheck-All world (IsKnown check comment) (IsKnown-elsewhere check comment) s.flight h.2,
  )

  pub loop-IsSurfaceCleared :
      (specs : List InlinePostSpec) (s : Posting)
      → HasSurface s
      → IsSurfaceCleared
          (post_inline_comments thread_index prior_v2_inline world retry_posted specs s)
  loop-IsSurfaceCleared =
      loop_induction thread_index prior_v2_inline world retry_posted HasSurface IsSurfaceCleared
        (λ s h. tt) (λ s k i retried h. h) (λ s h has. read-HasSurface s h) (λ s e h stop. tt)
        (λ s h gone.
          let kept = read-HasSurface s h in
          revert-IsCleared world s.written_this_flush (recheck_authority world s.flight).0
            (IsKnown-at (recheck_authority world s.flight).0.log kept.0 kept.1 kept.2))
        (λ s spec new h went_on. one-HasSurface s spec h) (λ s spec e new h stop. tt)
