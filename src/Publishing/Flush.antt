-- ===== src/Publishing/Flush.antt =====
-- The rest of `_flush_publish_surface`: what it writes before the inline comments and after them. The flush
-- starts here once the stale threads are resolved, with the bodies of the check and of the issue comment.
pub mod Surface
pub mod Loop
pub mod Writes
pub mod Unwound
use revy.Common.{
  ℕ, zero, suc, String, Bool, true, false, Option, none, some, List, [], ◌∷◌, if◌then◌else◌,
}
use revy.Common.Dict.{Dict}
use revy.Common.Json.{ℤ, pos, Json, Items, nil, Members, end, update_keys}
use revy.Findings.Rows.{PublishJob}
use revy.Publishing.Threads.{serialize_inline_thread_map, fingerprint_thread_ids_from_index}
use revy.Publishing.Flight.{
  InlinePostSpec, Call, create_check, update_check, create_issue_comment, update_issue_comment,
  Answer, accepted, status, unreachable, Flight, World, Raised, Reading, held, lost, failed,
  http_status, transport, commit, send, recheck_authority, revert_partial_flush,
}
use revy.Publishing.Surface.{
  PublishSurfaceBuild, existing_id, with_check, with_comment, raise_failure, note_check,
  note_comment, write_check_at, write_check, write_comment_at, write_issue_comment, keep_existing,
  append_at, append_recovered_blocks,
}
use revy.Publishing.Inline.{
  Posting, LoopEnd, finished, skipped, stopped, threads_key, recovered_key, summary_or_empty,
  write_summary, text_items, insert_text, load_inline_422_recovered_fingerprints,
  post_inline_comments, prior_threads, all_posted,
}

-- `_COLLAPSED_INLINE_FINGERPRINTS_KEY` and `_INLINE_422_RECOVERED_COUNT_KEY`
abbrev pub collapsed_key : String
collapsed_key = "collapsed_inline_fingerprints"

abbrev pub recovered_count_key : String
recovered_count_key = "inline_publish_422_recovered_count"

-- The first reading of `job.summary_json` when the loop starts.
abbrev pub posting_of : PublishSurfaceBuild → Flight → Posting
posting_of build s = record {
  flight = s;
  inline_threads = build.inline_threads;
  inline_thread_ids = [];
  recovered_fingerprints = load_inline_422_recovered_fingerprints s.job.summary_json;
  recovered_count = 0;
  written_this_flush = [];
}

abbrev pub set_summary : String → Json → Posting → Posting
set_summary key value s = record s {
  flight = record s.flight { job = write_summary key value s.flight.job };
}

-- `if inline_422_recovered_count:`
abbrev pub note_recovered : ℕ → Posting → Posting
note_recovered zero s = s
note_recovered (suc n) s =
    set_summary recovered_key (Json.array (text_items s.recovered_fingerprints))
      (set_summary recovered_count_key (Json.integer (pos (suc n))) s)

-- `if inline_thread_ids:`
abbrev pub note_threads : Members → Dict String → Posting → Posting
note_threads prior_v2_inline [] s = s
note_threads prior_v2_inline (known ∷ thread_ids) s =
    set_summary threads_key
      (Json.object (
        serialize_inline_thread_map s.inline_threads (prior_threads prior_v2_inline s.flight.job)
          (known ∷ thread_ids)))
      s

abbrev pub note_all_posted : PublishSurfaceBuild → Posting → Posting
note_all_posted build s = record s {
  flight = record s.flight {
    job = record s.flight.job { inline_comments_posted = all_posted build.inline_posts s };
  };
}

-- The fingerprints of recovered comments that go into the issue comment.
abbrev pub blocks_for : PublishSurfaceBuild → List String → List String
blocks_for build fingerprints = elim (build.inline_posts) [ [] ↦ [] | spec ∷ specs ↦ fingerprints ]

abbrev pub union : List String → List String → List String
union ss [] = ss
union ss (t ∷ ts) = union (insert_text t ss) ts

-- `with_blocks` is the body of the issue comment with the blocks of some fingerprints, where any is missing.
module _ (world : World) (build : PublishSurfaceBuild)
    (with_blocks : List String → Option String) where
  abbrev pub append_blocks : List String → Posting → Posting × Option Raised
  append_blocks [] s = (s, none)
  append_blocks (fingerprint ∷ fingerprints) s =
      let (flight, raised) =
        append_recovered_blocks world build (with_blocks (fingerprint ∷ fingerprints)) s.flight in
      (record s { flight = flight }, raised)

  abbrev pub note_inline : Posting × Option Raised → Posting × LoopEnd
  note_inline (s, some raised) = (s, stopped raised)
  note_inline (s, none) = (
    note_threads build.prior_v2_inline s.inline_thread_ids
        (note_all_posted build (note_recovered s.recovered_count s)),
    finished,
  )

  -- What follows a loop that has finished.
  abbrev pub after_inline : Posting × LoopEnd → Posting × LoopEnd
  after_inline (s, skipped) = (s, skipped)
  after_inline (s, stopped raised) = (s, stopped raised)
  after_inline (s, finished) =
      note_inline (append_blocks (blocks_for build s.recovered_fingerprints) s)

-- The end of the flush: the collapsed fingerprints, and the commit where the caller wants it.
abbrev pub persist_surface : World → Bool → Posting → Posting × Option Raised
persist_surface world false s = (s, none)
persist_surface world true s =
    (record s { flight = (commit world s.flight).0 }, (commit world s.flight).1)

abbrev pub end_of : Posting × Option Raised → Posting × LoopEnd
end_of (s, none) = (s, finished)
end_of (s, some raised) = (s, stopped raised)

abbrev pub checkpoint : World → Bool → List String → Posting × LoopEnd → Posting × LoopEnd
checkpoint world persist collapsed (s, skipped) = (s, skipped)
checkpoint world persist collapsed (s, stopped raised) = (s, stopped raised)
checkpoint world persist collapsed (s, finished) = end_of (
    persist_surface world persist (set_summary collapsed_key (Json.array (text_items collapsed)) s))

-- The rest of the flush, once the job has its authority, or is skipped and what was written taken back.
abbrev pub when_held :
    PublishSurfaceBuild
    → (Flight → Flight)
    → (Flight → Posting × LoopEnd)
    → Flight × Reading
    → Posting × LoopEnd
when_held build undo next (s, lost) = (posting_of build (undo s), skipped)
when_held build undo next (s, failed raised) = (posting_of build s, stopped raised)
when_held build undo next (s, held) = next s

abbrev pub when_written :
    PublishSurfaceBuild → (Flight → Posting × LoopEnd) → Flight × Option Raised → Posting × LoopEnd
when_written build next (s, some raised) = (posting_of build s, stopped raised)
when_written build next (s, none) = next s

-- The summary before the first write: the fields of the collapsed threads, the map and the skipped threads.
unfoldable pub start_summary :
    PublishSurfaceBuild → (ℤ → Option String) → Members → Json → Flight → Flight
unfolding update_keys serialize_inline_thread_map fingerprint_thread_ids_from_index
start_summary build thread_index collapsed_summary thread_resolve_skipped s = record s {
  job = write_summary "thread_resolve_skipped" thread_resolve_skipped (
      write_summary threads_key
        (Json.object (
          serialize_inline_thread_map build.inline_threads build.prior_v2_inline
            (fingerprint_thread_ids_from_index thread_index build.inline_threads)))
        (record s.job {
          summary_json = some (update_keys (summary_or_empty s.job.summary_json) collapsed_summary);
        }));
}

module _ (world : World) (build : PublishSurfaceBuild) (with_blocks : List String → Option String)
    (thread_index : ℤ → Option String) (retry_posted : Dict ℤ) where
  abbrev pub post_inline_stage : Bool → Posting → Posting × LoopEnd
  post_inline_stage false s = (s, finished)
  post_inline_stage true s = after_inline world build with_blocks (
      post_inline_comments thread_index build.prior_v2_inline world retry_posted build.inline_posts
        s)

  -- From the second reading after the writes on.
  abbrev pub flush_inline : Bool → List String → Flight → Posting × LoopEnd
  flush_inline persist collapsed s =
      checkpoint world persist collapsed (post_inline_stage build.post_inline (posting_of build s))

  abbrev pub take_back_surface : Flight → Flight
  take_back_surface s = revert_partial_flush world [] s

  abbrev pub flush_committed : Bool → List String → Flight → Posting × LoopEnd
  flush_committed persist collapsed s =
      when_held build take_back_surface (flush_inline persist collapsed) (recheck_authority world s)

  abbrev pub flush_written : Bool → List String → Flight → Posting × LoopEnd
  flush_written persist collapsed s =
      when_held build take_back_surface
        (λ r. when_written build (flush_committed persist collapsed) (commit world r))
        (recheck_authority world s)

  -- From the write of the issue comment on.
  abbrev pub flush_checked : String → Bool → List String → Flight → Posting × LoopEnd
  flush_checked issue_comment persist collapsed s =
      when_written build (flush_written persist collapsed)
        (write_issue_comment world build issue_comment s)

  -- From the write of the check on.
  abbrev pub flush_held : String → String → Bool → List String → Flight → Posting × LoopEnd
  flush_held check_summary issue_comment persist collapsed s =
      when_written build (flush_checked issue_comment persist collapsed)
        (write_check world build check_summary s)

  -- `_flush_publish_surface` from the writes to GitHub on; `build.inline_threads` are those that
  -- are left, with the comments of the attempt before.
  unfoldable pub flush_publish_surface :
      Members → Json → String → String → Bool → List String → Flight → Posting × LoopEnd
  unfolding start_summary write_check write_issue_comment recheck_authority revert_partial_flush
      post_inline_comments load_inline_422_recovered_fingerprints append_recovered_blocks
      serialize_inline_thread_map all_posted
  flush_publish_surface collapsed_summary thread_resolve_skipped check_summary issue_comment persist
        collapsed s =
      when_held build (λ s. s)
        (flush_held check_summary issue_comment persist
          (union build.prior_collapsed_fingerprints collapsed))
        (recheck_authority world
          (start_summary build thread_index collapsed_summary thread_resolve_skipped s))
