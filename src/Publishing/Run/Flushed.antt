-- ===== src/Publishing/Run/Flushed.antt =====
-- The whole flush of an open job closes it or leaves its committed row open, in the sense of Run/Closed.
use revy.Common.{ℕ, zero, suc, String, Bool, true, false, Option, none, some, List, [], ◌∷◌}
use revy.Common.Dict.{Dict}
use revy.Common.Json.{ℤ, Json, Members}
use revy.Publishing.Flight.{
  Answer, accepted, status, unreachable, unusable, Flight, World, Raised, commit, send,
  create_check, update_check, create_issue_comment, update_issue_comment,
}
use revy.Publishing.Inline.{Posting, LoopEnd, finished, skipped, stopped, post_inline_comments}
use revy.Publishing.Surface.{
  PublishSurfaceBuild, existing_id, with_check, with_comment, raise_failure, note_check,
  note_comment, write_check_at, write_check, write_comment_at, write_issue_comment, keep_existing,
  append_at, append_recovered_blocks,
}
use revy.Publishing.Flush.{
  posting_of, note_recovered, note_threads, note_all_posted, note_inline, append_blocks, blocks_for,
  after_inline, union, when_written, start_summary, post_inline_stage, flush_inline,
  take_back_surface, flush_committed, flush_written, flush_checked, flush_held,
  flush_publish_surface,
}
use revy.Publishing.Run.Closed.{
  IsGoing, AtStep, IsClosed, revert-closes, commit-AtStep, when_held-IsClosed,
  when_written-IsClosed, checkpoint-IsClosed, loop-IsClosed,
}

-- The requests for the check and the issue comment write no status.
raise-AtStep :
    (s : Flight) (a : Answer) → IsGoing s → AtStep (raise_failure s a).1 (raise_failure s a).0
raise-AtStep s (accepted id) h = h
raise-AtStep s (status code) h = h.1
raise-AtStep s unreachable h = h.1
raise-AtStep s unusable h = h.1

check-AtStep : (s : Flight) (a : Answer) → IsGoing s → AtStep (note_check s a).1 (note_check s a).0
check-AtStep s (accepted id) h = h
check-AtStep s (status code) h = h.1
check-AtStep s unreachable h = h.1
check-AtStep s unusable h = h.1

comment-AtStep :
    (s : Flight) (a : Answer) → IsGoing s → AtStep (note_comment s a).1 (note_comment s a).0
comment-AtStep s (accepted id) h = h
comment-AtStep s (status code) h = h.1
comment-AtStep s unreachable h = h.1
comment-AtStep s unusable h = h.1

note_recovered-IsGoing :
    (n : ℕ) (s : Posting) → IsGoing s.flight → IsGoing (note_recovered n s).flight
note_recovered-IsGoing zero s h = h
note_recovered-IsGoing (suc n) s h = h

note_threads-IsGoing :
    (prior : Members) (ids : Dict String) (s : Posting)
    → IsGoing s.flight
    → IsGoing (note_threads prior ids s).flight
note_threads-IsGoing prior [] s h = h
note_threads-IsGoing prior (known ∷ ids) s h = h

module _ (world : World) where
  write_check_at-AtStep :
      (conclusion summary : String) (id : Option ℤ) (s : Flight)
      → IsGoing s
      → let (t, e) = write_check_at world conclusion summary id s in AtStep e t
  write_check_at-AtStep conclusion summary (some id) s h =
      raise-AtStep (send world (update_check id conclusion summary) (with_check (some id) s)).0
        (world.answer s.clock) h
  write_check_at-AtStep conclusion summary none s h =
      check-AtStep (send world (create_check conclusion summary) s).0 (world.answer s.clock) h

  write_comment_at-AtStep :
      (body : String) (id : Option ℤ) (s : Flight)
      → IsGoing s
      → let (t, e) = write_comment_at world body id s in AtStep e t
  write_comment_at-AtStep body (some id) s h =
      raise-AtStep (send world (update_issue_comment id body) (with_comment (some id) s)).0
        (world.answer s.clock) h
  write_comment_at-AtStep body none s h =
      comment-AtStep (send world (create_issue_comment body) s).0 (world.answer s.clock) h

  keep_existing-AtStep :
      (id : Option ℤ) (r : Flight × Option Raised)
      → AtStep r.1 r.0
      → let (t, e) = keep_existing world id r in AtStep e t
  keep_existing-AtStep id (s, some raised) h = h
  keep_existing-AtStep id (s, none) h = kept (s.job.github_comment_id)
    where
      kept :
          (known : Option ℤ)
          → let (t, e) : Flight × Option Raised = elim known [
            | some written ↦ (s, none)
            | none ↦ (with_comment id s, none)
          ] in
            AtStep e t
      kept none = h
      kept (some written) = h

  append_at-AtStep :
      (body : Option String) (id : Option ℤ) (s : Flight)
      → IsGoing s
      → let (t, e) = append_at world body id s in AtStep e t
  append_at-AtStep none id s h = h
  append_at-AtStep (some body) none s h =
      comment-AtStep (send world (create_issue_comment body) s).0 (world.answer s.clock) h
  append_at-AtStep (some body) (some id) s h =
      let sent = (send world (update_issue_comment id body) s).0 in
      keep_existing-AtStep (some id) (raise_failure sent (world.answer s.clock))
        (raise-AtStep sent (world.answer s.clock) h)

  module _ (build : PublishSurfaceBuild) (with_blocks : List String → Option String) where
    append_blocks-AtStep :
        (fingerprints : List String) (s : Posting)
        → IsGoing s.flight
        → let (t, e) = append_blocks world build with_blocks fingerprints s in AtStep e t.flight
    unfolding append_recovered_blocks
    append_blocks-AtStep [] s h = h
    append_blocks-AtStep (fingerprint ∷ fingerprints) s h =
        append_at-AtStep (with_blocks (fingerprint ∷ fingerprints)) _ s.flight h

    note_inline-IsClosed :
        (r : Posting × Option Raised)
        → AtStep r.1 r.0.flight
        → IsClosed (note_inline world build with_blocks r)
    note_inline-IsClosed (s, some e) h = h
    note_inline-IsClosed (s, none) h =
        note_threads-IsGoing build.prior_v2_inline s.inline_thread_ids
          (note_all_posted build (note_recovered s.recovered_count s))
          (note_recovered-IsGoing s.recovered_count s h)

    after_inline-IsClosed :
        (r : Posting × LoopEnd) → IsClosed r → IsClosed (after_inline world build with_blocks r)
    after_inline-IsClosed (s, skipped) h = h
    after_inline-IsClosed (s, stopped e) h = h
    after_inline-IsClosed (s, finished) h =
        let fingerprints = blocks_for build s.recovered_fingerprints in
        note_inline-IsClosed (append_blocks world build with_blocks fingerprints s)
          (append_blocks-AtStep fingerprints s h)

    module _ (thread_index : ℤ → Option String) (retry_posted : Dict ℤ) where
      stage-IsClosed :
          (post_inline : Bool) (s : Posting)
          → IsGoing s.flight
          → IsClosed
              (post_inline_stage world build with_blocks thread_index retry_posted post_inline s)
      stage-IsClosed false s h = h
      stage-IsClosed true s h =
          after_inline-IsClosed
            (post_inline_comments thread_index build.prior_v2_inline world retry_posted
              build.inline_posts s)
            (loop-IsClosed world thread_index build.prior_v2_inline retry_posted build.inline_posts
              s h)

      committed-IsClosed :
          (persist : Bool) (collapsed : List String) (s : Flight)
          → IsGoing s
          → IsClosed (
              flush_committed world build with_blocks thread_index retry_posted persist collapsed s)
      committed-IsClosed persist collapsed s h =
          when_held-IsClosed world build
            (take_back_surface world build with_blocks thread_index retry_posted)
            (flush_inline world build with_blocks thread_index retry_posted persist collapsed) s h
            (revert-closes world [])
            (λ t k.
              checkpoint-IsClosed world persist collapsed
                (post_inline_stage world build with_blocks thread_index retry_posted
                  build.post_inline (posting_of build t))
                (stage-IsClosed build.post_inline (posting_of build t) k))

      written-IsClosed :
          (persist : Bool) (collapsed : List String) (s : Flight)
          → IsGoing s
          → IsClosed
              (flush_written world build with_blocks thread_index retry_posted persist collapsed s)
      written-IsClosed persist collapsed s h =
          let rest =
            flush_committed world build with_blocks thread_index retry_posted persist collapsed in
          when_held-IsClosed world build
            (take_back_surface world build with_blocks thread_index retry_posted)
            (λ r. when_written build rest (commit world r)) s h (revert-closes world [])
            (λ t k.
              when_written-IsClosed world build rest (commit world t) (commit-AtStep world t k)
                (committed-IsClosed persist collapsed))

      pub flush-IsClosed :
          (collapsed_summary : Members) (thread_resolve_skipped : Json)
          (check_summary issue_comment : String) (persist : Bool) (collapsed : List String)
          (s : Flight)
          → IsGoing s
          → IsClosed (
              flush_publish_surface world build with_blocks thread_index retry_posted
                collapsed_summary thread_resolve_skipped check_summary issue_comment persist
                collapsed s)
      unfolding flush_publish_surface start_summary write_check write_issue_comment
      flush-IsClosed collapsed_summary thread_resolve_skipped check_summary issue_comment persist
            collapsed s h =
          let all = union build.prior_collapsed_fingerprints collapsed in
          let started =
            start_summary build thread_index collapsed_summary thread_resolve_skipped s in
          when_held-IsClosed world build (λ s. s)
            (flush_held world build with_blocks thread_index retry_posted check_summary
              issue_comment persist all)
            started h (λ t k. k)
            (λ t k.
              when_written-IsClosed world build
                (flush_checked world build with_blocks thread_index retry_posted issue_comment
                  persist all)
                (write_check world build check_summary t)
                (write_check_at-AtStep build.conclusion check_summary
                  (existing_id t.job.github_check_run_id build.is_update_from_other
                    build.existing_github_check_run_id)
                  t k)
                (λ u m.
                  when_written-IsClosed world build
                    (flush_written world build with_blocks thread_index retry_posted persist all)
                    (write_issue_comment world build issue_comment u)
                    (write_comment_at-AtStep issue_comment
                      (existing_id u.job.github_comment_id build.is_update_from_other
                        build.existing_github_comment_id)
                      u m)
                    (written-IsClosed persist all)))
