-- ===== src/Publishing/Flush/Unwound.antt =====
-- A flush that loses its authority takes back all that it wrote.
use revy.Common.{
  ◌≡◌, refl, sym, subst, String, Bool, true, false, Option, none, some, List, [], arith, any_of,
  All, All-map,
}
use revy.Common.Dict.{Dict}
use revy.Common.Json.{ℤ, Json, Members, int_eq}
use revy.Common.Options.{Whenever}
use revy.Publishing.Flight.{
  Flight, World, Raised, Reading, held, lost, failed, commit, recheck_authority,
  revert_partial_flush,
}
use revy.Publishing.Inline.Log.{recheck-All}
use revy.Publishing.Inline.Steady.{view-recheck}
use revy.Publishing.Inline.TakenBack.{
  made, deletes, IsTracked, IsUndone, IsTakenBack, revert-undoes, post_inline_comments-IsTakenBack,
}
use revy.Publishing.Inline.{
  Posting, LoopEnd, finished, skipped, stopped, text_items, post_inline_comments,
}
use revy.Publishing.Surface.{PublishSurfaceBuild, existing_id, write_check, write_issue_comment}
use revy.Publishing.Flush.{
  posting_of, note_inline, append_blocks, blocks_for, after_inline, checkpoint, union, when_held,
  when_written, start_summary, post_inline_stage, flush_inline, take_back_surface, flush_committed,
  flush_written, end_of, persist_surface, set_summary, collapsed_key, flush_checked, flush_held,
  flush_publish_surface,
}
use revy.Publishing.Flush.Surface.{
  neutralizes, blanks, written_check, written_comment, IsKnown, IsCleared, check-IsSteady,
  comment-IsSteady, revert-IsCleared,
}
use revy.Publishing.Flush.Loop.{IsSurfaceCleared, loop-IsSurfaceCleared}
use revy.Publishing.Flush.Writes.{
  IsSurface, IsSurface-elsewhere, AllSurface, Ok, Ok-always, Unwritten, Checked, write_check_at-Ok,
  write_comment_at-Ok,
}

-- What holds of each entry when the job is skipped: comments deleted, the check and the issue comment cleared.
abbrev pub IsUnwound : Posting × LoopEnd → Type 0
IsUnwound (s, finished) = Unit
IsUnwound (s, stopped e) = Unit
IsUnwound (s, skipped) =
    All (IsUndone s.flight.log) s.flight.log × All (IsCleared s.flight.log) s.flight.log

unwritten_of :
    (P : ℤ → Type 0) (written : Option ℤ)
    → Whenever (λ i. none ≡ some i) written
    → Whenever P written
unwritten_of P none h = tt
unwritten_of P (some i) h = absurd (ground arith)

untracked_of :
    (P : ℤ → Type 0) (posted : Option ℤ)
    → Whenever (λ i. any_of (int_eq i) [] ≡ true) posted
    → Whenever P posted
untracked_of P none h = tt
untracked_of P (some i) h = absurd (ground arith)

module _ (world : World) where
  recheck-AllSurface : (s : Flight) → AllSurface s → AllSurface (recheck_authority world s).0
  recheck-AllSurface s h =
      let left = (recheck_authority world s).0 in
      let check = s.job.github_check_run_id in
      subst (λ c. All (IsSurface c left.job.github_comment_id) left.log)
        (sym (view-recheck (λ s. s.job.github_check_run_id) check-IsSteady world s))
        (subst (λ c. All (IsSurface check c) left.log)
          (sym (view-recheck (λ s. s.job.github_comment_id) comment-IsSteady world s))
          (recheck-All world (IsSurface check s.job.github_comment_id)
            (IsSurface-elsewhere check s.job.github_comment_id) s h))

  module _ (build : PublishSurfaceBuild) where
    Unwritten-IsUnwound : (s : Flight) → Unwritten world s → IsUnwound (posting_of build s, skipped)
    Unwritten-IsUnwound s h = (
      All-map (IsSurface none none) (IsUndone s.log) s.log
          (λ e known. untracked_of (λ i. any_of (deletes i) s.log ≡ true) (made e) known.0) h,
      All-map (IsSurface none none) (IsCleared s.log) s.log
          (λ e known. (
            unwritten_of (λ i. any_of (neutralizes i) s.log ≡ true) (written_check e) known.1.0,
            unwritten_of (λ i. any_of (blanks i) s.log ≡ true) (written_comment e) known.1.1,
          ))
          h,
    )

    revert-IsUnwound :
        (s : Flight)
        → AllSurface s
        → IsUnwound (posting_of build (revert_partial_flush world [] s), skipped)
    revert-IsUnwound s h =
        let check = s.job.github_check_run_id in
        let comment = s.job.github_comment_id in
        (
          revert-undoes world [] s
              (All-map (IsSurface check comment) (IsTracked []) s.log (λ e known. known.0) h),
          revert-IsCleared world [] s (
              All-map (IsSurface check comment) (IsKnown check comment) s.log (λ e known. known.1)
                h),
        )

    when_held-IsUnwound :
        (undo : Flight → Flight) (next : Flight → Posting × LoopEnd) (found : Flight × Reading)
        → IsUnwound (posting_of build (undo found.0), skipped)
        → IsUnwound (next found.0)
        → IsUnwound (when_held build undo next found)
    when_held-IsUnwound undo next (s, lost) undone went_on = undone
    when_held-IsUnwound undo next (s, failed e) undone went_on = tt
    when_held-IsUnwound undo next (s, held) undone went_on = went_on

    when_written-IsUnwound :
        (P : Flight → Type 0) (next : Flight → Posting × LoopEnd) (r : Flight × Option Raised)
        → Ok P r
        → ((s : Flight) → P s → IsUnwound (next s))
        → IsUnwound (when_written build next r)
    when_written-IsUnwound P next (s, some e) h step = tt
    when_written-IsUnwound P next (s, none) h step = step s h

    checkpoint-IsUnwound :
        (persist : Bool) (collapsed : List String) (r : Posting × LoopEnd)
        → IsUnwound r
        → IsUnwound (checkpoint world persist collapsed r)
    checkpoint-IsUnwound persist collapsed (s, skipped) h = h
    checkpoint-IsUnwound persist collapsed (s, stopped e) h = tt
    checkpoint-IsUnwound persist collapsed (s, finished) h = end_of-IsUnwound (
        persist_surface world persist
          (set_summary collapsed_key (Json.array (text_items collapsed)) s))
      where
        end_of-IsUnwound : (r : Posting × Option Raised) → IsUnwound (end_of r)
        end_of-IsUnwound (s, none) = tt
        end_of-IsUnwound (s, some e) = tt

    module _ (with_blocks : List String → Option String) (thread_index : ℤ → Option String)
        (retry_posted : Dict ℤ) where
      note_inline-IsUnwound :
          (r : Posting × Option Raised) → IsUnwound (note_inline world build with_blocks r)
      note_inline-IsUnwound (s, some e) = tt
      note_inline-IsUnwound (s, none) = tt

      after_inline-IsUnwound :
          (r : Posting × LoopEnd)
          → IsTakenBack r
          → IsSurfaceCleared r
          → IsUnwound (after_inline world build with_blocks r)
      after_inline-IsUnwound (s, skipped) undone cleared = (undone, cleared)
      after_inline-IsUnwound (s, stopped e) undone cleared = tt
      after_inline-IsUnwound (s, finished) undone cleared =
          note_inline-IsUnwound
            (append_blocks world build with_blocks (blocks_for build s.recovered_fingerprints) s)

      stage-IsUnwound :
          (post_inline : Bool) (s : Flight)
          → AllSurface s
          → IsUnwound (
              post_inline_stage world build with_blocks thread_index retry_posted post_inline
                (posting_of build s))
      stage-IsUnwound false s h = tt
      stage-IsUnwound true s h =
          let check = s.job.github_check_run_id in
          let comment = s.job.github_comment_id in
          after_inline-IsUnwound
            (post_inline_comments thread_index build.prior_v2_inline world retry_posted
              build.inline_posts (posting_of build s))
            (post_inline_comments-IsTakenBack thread_index build.prior_v2_inline world retry_posted
              build.inline_posts (posting_of build s)
              (All-map (IsSurface check comment) (IsTracked []) s.log (λ e known. known.0) h))
            (loop-IsSurfaceCleared thread_index build.prior_v2_inline world retry_posted check
              comment build.inline_posts (posting_of build s)
              (
                refl,
                refl,
                All-map (IsSurface check comment) (IsKnown check comment) s.log (λ e known. known.1)
                    h,
              ))

      committed-IsUnwound :
          (persist : Bool) (collapsed : List String) (s : Flight)
          → AllSurface s
          → IsUnwound (
              flush_committed world build with_blocks thread_index retry_posted persist collapsed s)
      committed-IsUnwound persist collapsed s h =
          let found = recheck_authority world s in
          let kept = recheck-AllSurface s h in
          when_held-IsUnwound (take_back_surface world build with_blocks thread_index retry_posted)
            (flush_inline world build with_blocks thread_index retry_posted persist collapsed) found
            (revert-IsUnwound found.0 kept)
            (checkpoint-IsUnwound persist collapsed
              (post_inline_stage world build with_blocks thread_index retry_posted build.post_inline
                (posting_of build found.0))
              (stage-IsUnwound build.post_inline found.0 kept))

      written-IsUnwound :
          (persist : Bool) (collapsed : List String) (s : Flight)
          → AllSurface s
          → IsUnwound
              (flush_written world build with_blocks thread_index retry_posted persist collapsed s)
      written-IsUnwound persist collapsed s h =
          let found = recheck_authority world s in
          let kept = recheck-AllSurface s h in
          let rest =
            flush_committed world build with_blocks thread_index retry_posted persist collapsed in
          when_held-IsUnwound (take_back_surface world build with_blocks thread_index retry_posted)
            (λ r. when_written build rest (commit world r)) found (revert-IsUnwound found.0 kept)
            (when_written-IsUnwound AllSurface rest (commit world found.0)
              (Ok-always AllSurface (commit world found.0) kept)
              (committed-IsUnwound persist collapsed))

      -- A flush of a job that has no request behind it and returns it as skipped, at whichever reading of its authority and
      -- whatever GitHub answers: every comment that a request made was asked to be deleted, and every check
      -- and issue comment that a request wrote was asked to be replaced by the notice of a skip.
      pub flush_publish_surface-IsUnwound :
          (collapsed_summary : Members) (thread_resolve_skipped : Json)
          (check_summary issue_comment : String) (persist : Bool) (collapsed : List String)
          (s : Flight)
          → s.log ≡ []
          → IsUnwound (
              flush_publish_surface world build with_blocks thread_index retry_posted
                collapsed_summary thread_resolve_skipped check_summary issue_comment persist
                collapsed s)
      unfolding flush_publish_surface start_summary write_check write_issue_comment
      flush_publish_surface-IsUnwound collapsed_summary thread_resolve_skipped check_summary
            issue_comment persist collapsed s empty =
          let started =
            start_summary build thread_index collapsed_summary thread_resolve_skipped s in
          let found = recheck_authority world started in
          let quiet =
            recheck-All world (IsSurface none none) (IsSurface-elsewhere none none) started
              (subst (All (IsSurface none none)) (sym empty) tt) in
          let all = union build.prior_collapsed_fingerprints collapsed in
          when_held-IsUnwound (λ s. s)
            (flush_held world build with_blocks thread_index retry_posted check_summary
              issue_comment persist all)
            found (Unwritten-IsUnwound found.0 quiet)
            (when_written-IsUnwound (Checked world)
              (flush_checked world build with_blocks thread_index retry_posted issue_comment persist
                all)
              (write_check world build check_summary found.0)
              (write_check_at-Ok world build.conclusion check_summary
                (existing_id found.0.job.github_check_run_id build.is_update_from_other
                  build.existing_github_check_run_id)
                found.0 quiet)
              (λ checked h.
                when_written-IsUnwound AllSurface
                  (flush_written world build with_blocks thread_index retry_posted persist all)
                  (write_issue_comment world build issue_comment checked)
                  (write_comment_at-Ok world issue_comment
                    (existing_id checked.job.github_comment_id build.is_update_from_other
                      build.existing_github_comment_id)
                    checked h)
                  (λ written. written-IsUnwound persist all written)))
