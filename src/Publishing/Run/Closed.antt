-- ===== src/Publishing/Run/Closed.antt =====
-- How a flush of an open job ends: a job that is skipped is closed, and an exception leaves the committed row open.
use revy.Common.{
  suc, ◌≡◌, refl, ◌∙◌, ap, subst, String, Bool, true, false, Option, none, some, List, str_eq,
  Bool-cases, inl, inr,
}
use revy.Common.Dict.{Dict}
use revy.Common.Json.{ℤ, Json, Members}
use revy.Pipeline.{get_pipeline_run_for_review_run, record_publish_skip_on_pipeline}
use revy.Publishing.Jobs.{is_open_job}
use revy.Publishing.Flight.{
  InlinePostSpec, Flight, World, Raised, Reading, held, lost, failed, reading_of, PostResult,
  created, recovered, raised, commit, recheck_authority, skip_publish_job_at_gate, skip_key,
  skip_status, revert_partial_flush, create_inline_review_comment_with_422_retry,
}
use revy.Publishing.Inline.Steady.{
  IsAside, IsSteady, view-finalize, view-gate, view-revert, view-post,
}
use revy.Publishing.Inline.Steps.{loop_induction}
use revy.Publishing.Inline.{
  Posting, LoopEnd, finished, skipped, stopped, text_items, keep_posted, keep_recovered,
  settle_post, post_one, post_inline_comments,
}
use revy.Publishing.Surface.{PublishSurfaceBuild}
use revy.Publishing.Flush.{
  when_held, when_written, end_of, persist_surface, set_summary, collapsed_key, checkpoint,
}

-- The job and its committed row are pending or processing.
abbrev pub IsGoing : Flight → Type 0
IsGoing s = (is_open_job s.job.status ≡ true) × (is_open_job s.saved.status ≡ true)

abbrev pub AtReading : Reading → Flight → Type 0
AtReading held s = IsGoing s
AtReading lost s = is_open_job s.job.status ≡ false
AtReading (failed e) s = is_open_job s.saved.status ≡ true

-- After a step that may raise.
abbrev pub AtStep : Option Raised → Flight → Type 0
AtStep none s = IsGoing s
AtStep (some e) s = is_open_job s.saved.status ≡ true

abbrev pub IsClosed : Posting × LoopEnd → Type 0
IsClosed (s, finished) = IsGoing s.flight
IsClosed (s, stopped e) = is_open_job s.flight.saved.status ≡ true
IsClosed (s, skipped) = is_open_job s.flight.job.status ≡ false

pub IsGoing-by :
    (t s : Flight)
    → t.job.status ≡ s.job.status
    → t.saved.status ≡ s.saved.status
    → IsGoing s
    → IsGoing t
IsGoing-by t s e f h = (ap is_open_job e ∙ h.0, ap is_open_job f ∙ h.1)

pub going-AtStep : (e : Option Raised) (s : Flight) → IsGoing s → AtStep e s
going-AtStep none s h = h
going-AtStep (some e) s h = h.1

pub status-IsAside : IsAside (λ s. s.job.status)
status-IsAside = record { requested = λ s log clock. refl }

pub saved-IsSteady : IsSteady (λ s. s.saved.status)
saved-IsSteady = record {
  aside = record { requested = λ s log clock. refl };
  skipped = λ s status pipeline. refl;
}

skip_closes : (b : Bool) → is_open_job (skip_status b) ≡ false
skip_closes true = refl
skip_closes false = refl

module _ (world : World) where
  pub gate-closes :
      (b : Bool) (s : Flight)
      → is_open_job (skip_publish_job_at_gate world b s).0.job.status ≡ false
  unfolding skip_publish_job_at_gate
  gate-closes b s =
      ap is_open_job (
        view-finalize (λ s. s.job.status) status-IsAside world
          (get_pipeline_run_for_review_run s.job.review_run_id
            (record_publish_skip_on_pipeline s.job.review_run_id (skip_key b) s.pipeline))
          (record s {
            job = record s.job { status = skip_status b; error_message = none };
            pipeline = record_publish_skip_on_pipeline s.job.review_run_id (skip_key b) s.pipeline;
          }))
      ∙ skip_closes b

  pub gate-saved :
      (b : Bool) (s : Flight)
      → is_open_job s.saved.status ≡ true
      → is_open_job (skip_publish_job_at_gate world b s).0.saved.status ≡ true
  gate-saved b s h = ap is_open_job (view-gate (λ s. s.saved.status) saved-IsSteady world b s) ∙ h

  skip-AtReading :
      (b : Bool) (s : Flight)
      → is_open_job s.saved.status ≡ true
      → AtReading
          (reading_of (skip_publish_job_at_gate world b s).1)
          (skip_publish_job_at_gate world b s).0
  skip-AtReading b s h =
      by_end (skip_publish_job_at_gate world b s).1 (skip_publish_job_at_gate world b s).0
        (gate-closes b s) (gate-saved b s h)
    where
      by_end :
          (e : Option Raised) (t : Flight)
          → is_open_job t.job.status ≡ false
          → is_open_job t.saved.status ≡ true
          → AtReading (reading_of e) t
      by_end none t closed saved = closed
      by_end (some e) t closed saved = saved

  pub recheck-AtReading :
      (s : Flight)
      → IsGoing s
      → AtReading (recheck_authority world s).1 (recheck_authority world s).0
  unfolding recheck_authority
  recheck-AtReading s h =
      let read : Flight = record s { clock = suc s.clock } in
      elim (Bool-cases ((world.authority s.clock).superseded)) [
        | inl gone ↦ rw (recheck_authority, gone) (skip-AtReading true read h.1)
        | inr there ↦ elim (Bool-cases (str_eq s.job.head_sha (world.authority s.clock).head_sha)) [
          | inl at_head ↦ rw (recheck_authority, there, at_head) h
          | inr behind ↦ rw (recheck_authority, there, behind) (skip-AtReading false read h.1)
        ]
      ]

  pub revert-closes :
      (ids : List ℤ) (s : Flight)
      → is_open_job s.job.status ≡ false
      → is_open_job (revert_partial_flush world ids s).job.status ≡ false
  revert-closes ids s h =
      ap is_open_job (view-revert (λ s. s.job.status) status-IsAside world ids s) ∙ h

  pub commit-AtStep : (s : Flight) → IsGoing s → AtStep (commit world s).1 (commit world s).0
  commit-AtStep s h = elim (Bool-cases (world.commits s.clock)) [
    | inl done ↦ rw done (h.0, h.0)
    | inr broken ↦ rw broken h.1
  ]

  pub when_held-IsClosed :
      (build : PublishSurfaceBuild) (undo : Flight → Flight) (next : Flight → Posting × LoopEnd)
      (s : Flight)
      → IsGoing s
      → ((t : Flight) → is_open_job t.job.status ≡ false → is_open_job (undo t).job.status ≡ false)
      → ((t : Flight) → IsGoing t → IsClosed (next t))
      → IsClosed (when_held build undo next (recheck_authority world s))
  when_held-IsClosed build undo next s h undone step =
      found (recheck_authority world s) (recheck-AtReading s h)
    where
      found : (r : Flight × Reading) → AtReading r.1 r.0 → IsClosed (when_held build undo next r)
      found (t, lost) closed = undone t closed
      found (t, failed e) saved = saved
      found (t, held) going = step t going

  pub when_written-IsClosed :
      (build : PublishSurfaceBuild) (next : Flight → Posting × LoopEnd) (r : Flight × Option Raised)
      → AtStep r.1 r.0
      → ((t : Flight) → IsGoing t → IsClosed (next t))
      → IsClosed (when_written build next r)
  when_written-IsClosed build next (s, some e) h step = h
  when_written-IsClosed build next (s, none) h step = step s h

  pub checkpoint-IsClosed :
      (persist : Bool) (collapsed : List String) (r : Posting × LoopEnd)
      → IsClosed r
      → IsClosed (checkpoint world persist collapsed r)
  checkpoint-IsClosed persist collapsed (s, skipped) h = h
  checkpoint-IsClosed persist collapsed (s, stopped e) h = h
  checkpoint-IsClosed persist collapsed (s, finished) h =
      persisted persist (set_summary collapsed_key (Json.array (text_items collapsed)) s) h
    where
      ended : (r : Posting × Option Raised) → AtStep r.1 r.0.flight → IsClosed (end_of r)
      ended (t, none) k = k
      ended (t, some e) k = k

      persisted :
          (persist : Bool) (t : Posting)
          → IsGoing t.flight
          → IsClosed (end_of (persist_surface world persist t))
      persisted false t k = k
      persisted true t k =
          ended (record t { flight = (commit world t.flight).0 }, (commit world t.flight).1)
            (commit-AtStep t.flight k)

  -- The loop of the inline comments.
  module _ (thread_index : ℤ → Option String) (prior_v2_inline : Members)
      (retry_posted : Dict ℤ) where
    settle_post-AtStep :
        (spec : InlinePostSpec) (s : Posting) (posted : Flight × PostResult)
        → IsGoing posted.0
        → let (after, e) =
            settle_post thread_index prior_v2_inline world retry_posted spec s posted in
          AtStep e after.flight
    unfolding keep_posted keep_recovered
    settle_post-AtStep spec s (flight, created i) h =
        elim (Bool-cases (world.commits flight.clock)) [
          | inl done ↦ rw done (h.0, h.0)
          | inr broken ↦ rw broken h.1
        ]
    settle_post-AtStep spec s (flight, recovered code) h = h
    settle_post-AtStep spec s (flight, raised e) h = h.1

    post_one-AtStep :
        (spec : InlinePostSpec) (s : Posting)
        → IsGoing s.flight
        → let (after, e) = post_one thread_index prior_v2_inline world retry_posted spec s in
          AtStep e after.flight
    unfolding post_one
    post_one-AtStep spec s h =
        let posted = create_inline_review_comment_with_422_retry world spec s.flight in
        settle_post-AtStep spec s posted (
          IsGoing-by posted.0 s.flight
            (view-post (λ s. s.job.status) status-IsAside world spec s.flight)
            (view-post (λ s. s.saved.status) saved-IsSteady.aside world spec s.flight) h)

    pub loop-IsClosed :
        (specs : List InlinePostSpec) (s : Posting)
        → IsGoing s.flight
        → IsClosed (post_inline_comments thread_index prior_v2_inline world retry_posted specs s)
    loop-IsClosed =
        loop_induction thread_index prior_v2_inline world retry_posted (λ s. IsGoing s.flight)
          IsClosed (λ s h. h) (λ s k i retried h. h)
          (λ s h has. subst (λ r. AtReading r (found s).0) has (recheck-AtReading s.flight h))
          (λ s e h stop. subst (λ r. AtReading r (found s).0) stop (recheck-AtReading s.flight h))
          (λ s h gone.
            revert-closes s.written_this_flush (found s).0
              (subst (λ r. AtReading r (found s).0) gone (recheck-AtReading s.flight h)))
          (λ s spec new h went_on.
            subst (λ e. AtStep e (one spec s).0.flight) went_on (post_one-AtStep spec s h))
          (λ s spec e new h stop.
            subst (λ e. AtStep e (one spec s).0.flight) stop (post_one-AtStep spec s h))
      where
        found : Posting → Flight × Reading
        found s = recheck_authority world s.flight

        one : InlinePostSpec → Posting → Posting × Option Raised
        one spec s = post_one thread_index prior_v2_inline world retry_posted spec s
