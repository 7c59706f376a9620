-- ===== src/Publishing/Inline.antt =====
-- The loop of `_flush_publish_surface` that posts the inline comments, one after the other, with the
-- authority read again before each and the progress committed after each.
pub mod Steps
pub mod Log
pub mod Steady
pub mod Saved
pub mod TakenBack
pub mod Resumed
use revy.Common.{
  ℕ, suc, ◌≡◌, String, Bool, true, false, not, ◌||◌, ◌&&◌, Option, none, some, List, [], ◌∷◌, ◌++◌,
  ◌==◌, if◌then◌else◌, str_eq, any_of,
}
use Prim.Native.Nat.{Ordering}
use Prim.Native.String.{compare}
use revy.Common.Dict.{Dict, is_in, lookup, has, put}
use revy.Common.Json.{
  ℤ, Json, Items, nil, cons, Members, end, member, get_key, set_key, as_dict, as_text,
}
use revy.Findings.Rows.{PublishJob}
use revy.Publishing.Threads.{serialize_inline_thread_map, non_empty, summary_key}
use revy.Publishing.Flight.{
  InlinePostSpec, Flight, World, Raised, PostResult, created, recovered, raised, held, lost, failed,
  commit, send, recheck_authority, revert_partial_flush,
  create_inline_review_comment_with_422_retry,
}

abbrev pub threads_key : String
threads_key = "github_inline_threads"

-- `_INLINE_422_RECOVERED_FINGERPRINTS_KEY`
abbrev pub recovered_key : String
recovered_key = "inline_publish_422_recovered_fingerprints"

abbrev pub summary_or_empty : Option Members → Members
summary_or_empty none = end
summary_or_empty (some summary) = summary

-- `job.summary_json = {**(job.summary_json or {}), key: value}`
abbrev pub write_summary : String → Json → PublishJob → PublishJob
write_summary key value job = record job {
  summary_json = some (set_key key value (summary_or_empty job.summary_json));
}

-- A set of texts as its sorted list, with `add`.
abbrev pub insert_text : String → List String → List String
insert_text s [] = s ∷ []
insert_text s (t ∷ ts) =
    let later = insert_text s ts in
    elim (compare s t) [ Ordering.lt ↦ s ∷ t ∷ ts | Ordering.eq ↦ t ∷ ts | Ordering.gt ↦ t ∷ later ]

abbrev pub text_items : List String → Items
text_items [] = nil
text_items (s ∷ ss) = cons (Json.string s) (text_items ss)

-- The texts of a list that are not empty, as a set.
abbrev pub read_texts : Items → List String
read_texts nil = []
read_texts (cons value rest) = elim (as_text value) [
  | none ↦ read_texts rest
  | some s ↦ if str_eq s "" then read_texts rest else insert_text s (read_texts rest)
]

-- `_load_inline_422_recovered_fingerprints`
unfoldable pub load_inline_422_recovered_fingerprints : Option Members → List String
unfolding summary_key
load_inline_422_recovered_fingerprints summary = elim (summary_key recovered_key summary) [
  | Json.array items ↦ read_texts items
  | _ ↦ []
]

-- The variables of the loop.
pub record Posting : Type 0 where
  pub flight : Flight
  pub inline_threads : Dict ℤ
  pub inline_thread_ids : Dict String
  pub recovered_fingerprints : List String
  pub recovered_count : ℕ
  pub written_this_flush : List ℤ

-- How the loop is left.
pub data LoopEnd : Type 0 where
  finished : LoopEnd
  skipped : LoopEnd
  stopped : Raised → LoopEnd

-- The threads of earlier jobs: those in the summary, or else those of the build.
abbrev pub prior_threads : Members → PublishJob → Members
prior_threads prior_v2_inline job = elim (as_dict (summary_key threads_key job.summary_json)) [
  | some prior ↦ prior
  | none ↦ prior_v2_inline
]

-- A comment that could not be placed is kept for the issue comment.
unfoldable pub keep_recovered : String → Posting → Posting
unfolding set_key
keep_recovered fingerprint s =
    let fingerprints = insert_text fingerprint s.recovered_fingerprints in
    record s {
      recovered_count = suc s.recovered_count;
      recovered_fingerprints = fingerprints;
      flight = record s.flight {
        job = write_summary recovered_key (Json.array (text_items fingerprints)) s.flight.job;
      };
    }

-- `thread_index` is the index of review threads by their first comment.
module _ (thread_index : ℤ → Option String) (prior_v2_inline : Members) where
  abbrev pub note_thread : String → ℤ → Dict String → Dict String
  note_thread fingerprint comment_id thread_ids = elim (non_empty (thread_index comment_id)) [
    | none ↦ thread_ids
    | some thread_id ↦ put fingerprint thread_id thread_ids
  ]

  -- A comment that was placed is tracked, and the progress committed.
  unfoldable pub keep_posted : World → String → ℤ → Posting → Posting × Option Raised
  unfolding serialize_inline_thread_map set_key summary_key
  keep_posted world fingerprint comment_id s =
      let threads = put fingerprint comment_id s.inline_threads in
      let thread_ids = note_thread fingerprint comment_id s.inline_thread_ids in
      let job = s.flight.job in
      let (flight, exception) = commit world (record s.flight {
        job =
            write_summary threads_key
              (Json.object (
                serialize_inline_thread_map threads (prior_threads prior_v2_inline job) thread_ids))
              job;
      }) in
      (
        record s {
          inline_threads = threads;
          inline_thread_ids = thread_ids;
          written_this_flush = s.written_this_flush ++ comment_id ∷ [];
          flight = flight;
        },
        exception,
      )

  module _ (world : World) (retry_posted : Dict ℤ) where
    -- What the loop does with the answer.
    abbrev pub settle_post :
        InlinePostSpec → Posting → Flight × PostResult → Posting × Option Raised
    settle_post spec s (flight, created comment_id) =
        keep_posted world spec.group_fingerprint comment_id (record s { flight = flight })
    settle_post spec s (flight, recovered code) =
        (keep_recovered spec.group_fingerprint (record s { flight = flight }), none)
    settle_post spec s (flight, raised exception) = (record s { flight = flight }, some exception)

    -- One comment, once the job still has its authority.
    unfoldable pub post_one : InlinePostSpec → Posting → Posting × Option Raised
    unfolding keep_posted keep_recovered create_inline_review_comment_with_422_retry
    post_one spec s =
        settle_post spec s (create_inline_review_comment_with_422_retry world spec s.flight)

    -- The job lost its authority: what this flush wrote is taken back.
    abbrev pub take_back : Posting → Posting
    take_back s = record s { flight = revert_partial_flush world s.written_this_flush s.flight }

    unfoldable pub post_inline_comments : List InlinePostSpec → Posting → Posting × LoopEnd
    unfolding post_one recheck_authority revert_partial_flush
    post_inline_comments [] s = (s, finished)
    post_inline_comments (spec ∷ specs) s = elim (lookup spec.group_fingerprint retry_posted) [
      | some comment_id ↦
          post_inline_comments specs
            (record s { inline_threads = put spec.group_fingerprint comment_id s.inline_threads })
      | none ↦ elim (is_in spec.group_fingerprint s.recovered_fingerprints) [
        | true ↦ post_inline_comments specs s
        | false ↦
            let (flight, reading) = recheck_authority world s.flight in
            let read : Posting = record s { flight = flight } in
            let (posted, exception) = post_one spec read in
            elim reading [
              | lost ↦ (take_back read, skipped)
              | failed e ↦ (read, stopped e)
              | held ↦ elim exception [
                | some e ↦ (posted, stopped e)
                | none ↦ post_inline_comments specs posted
              ]
            ]
      ]
    ]

-- `job.inline_comments_posted = all(…)` after the loop.
unfoldable pub all_posted : List InlinePostSpec → Posting → Bool
all_posted [] s = true
all_posted (spec ∷ specs) s =
    (has spec.group_fingerprint s.inline_threads
      || is_in spec.group_fingerprint s.recovered_fingerprints)
    && all_posted specs s
