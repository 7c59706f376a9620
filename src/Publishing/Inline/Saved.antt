-- ===== src/Publishing/Inline/Saved.antt =====
-- What a posting loop has committed when it is left, in whatever way.
use revy.Common.{
  ◌≡◌, refl, sym, ◌∙◌, ap, subst, String, true, false, Option, none, some, List, [], ◌∷◌, str_eq,
  All, All-map, Bool-cases, inl, inr,
}
use revy.Common.Dict.{has-put, has-put_self, All-put, Dict, has, put}
use revy.Common.Json.{ℤ, Json, Members, get_key-set_key}
use revy.Common.Options.{Whenever}
use revy.Findings.Rows.{PublishJob}
use revy.Publishing.Threads.{
  IsKeyed, summary_key, deserialize_inline_thread_map, serialize_inline_thread_map,
  deserialize-serialize,
}
use revy.Publishing.Flight.{
  InlinePostSpec, post_comment, accepted, Flight, World, PostResult, created, recovered, raised,
  Raised, http_status, transport, service_unavailable, commit_failed, uncaught, recheck_authority,
  revert_partial_flush, create_inline_review_comment_with_422_retry,
}
use revy.Publishing.Inline.Log.{
  Entry, HoldsElsewhere, AllButLast, AllButLast-map, AllPosted, post-All, recheck-All, revert-All,
}
use revy.Publishing.Inline.Steady.{IsSteady, view-recheck, view-revert, view-post}
use revy.Publishing.Inline.Steps.{loop_induction}
use revy.Publishing.Inline.{
  summary_or_empty, Posting, LoopEnd, finished, skipped, stopped, keep_posted, keep_recovered,
  settle_post, post_one, prior_threads, write_summary, take_back, post_inline_comments, threads_key,
  note_thread,
}

-- The group of an entry whose comment was made.
abbrev pub placed : Entry → Option String
placed (post_comment spec line, accepted i) = some spec.group_fingerprint
placed _ = none

-- The map that a job row keeps.
unfoldable pub stored : PublishJob → Dict ℤ
unfolding summary_key
stored job = deserialize_inline_thread_map (summary_key threads_key job.summary_json)

abbrev pub IsStored : PublishJob → Entry → Type 0
IsStored job entry = Whenever (λ k. has k (stored job) ≡ true) (placed entry)

abbrev pub IsSaved : Dict ℤ → PublishJob → Entry → Type 0
IsSaved threads job entry =
    Whenever (λ k. (has k threads ≡ true) × (has k (stored job) ≡ true)) (placed entry)

put-IsKeyed : (k : String) (v : ℤ) (d : Dict ℤ) → IsKeyed d → IsKeyed (put k v d)
put-IsKeyed k v [] h = (tt, tt)
put-IsKeyed k v ((j, w) ∷ d) h = elim (Bool-cases (str_eq j k)) [
  | inl same ↦ rw same h
  | inr other ↦ rw other (All-put (λ x. str_eq j x ≡ false) k v d h.0 other, put-IsKeyed k v d h.1)
]

-- The map that is written is the one that is read back.
stored-write_summary :
    (threads : Dict ℤ) (prior : Members) (thread_ids : Dict String) (job : PublishJob)
    → IsKeyed threads
    → stored (
        write_summary threads_key
          (Json.object (serialize_inline_thread_map threads prior thread_ids))
          job)
      ≡ threads
unfolding stored summary_key
stored-write_summary threads prior thread_ids job keyed =
    let map : Json = Json.object (serialize_inline_thread_map threads prior thread_ids) in
    ap deserialize_inline_thread_map
      (get_key-set_key threads_key threads_key map (summary_or_empty job.summary_json))
    ∙ deserialize-serialize threads prior thread_ids keyed

-- What every posting has committed, and the map that it has is one.
abbrev IsCommitted : Posting → Type 0
IsCommitted s =
    IsKeyed s.inline_threads × All (IsSaved s.inline_threads s.flight.saved) s.flight.log

IsSaved-elsewhere : (threads : Dict ℤ) (job : PublishJob) → HoldsElsewhere (IsSaved threads job)
IsSaved-elsewhere threads job = record {
  on_delete = λ i a. tt;
  on_check = λ i a. tt;
  on_issue_comment = λ i a. tt;
  on_finalize = λ i a. tt;
}

has-put_placed :
    (k : String) (i : ℤ) (threads : Dict ℤ) (job : PublishJob) (group : Option String)
    → Whenever (λ j. (has j threads ≡ true) × (has j (stored job) ≡ true)) group
    → Whenever (λ j. has j (put k i threads) ≡ true) group
has-put_placed k i threads job none h = tt
has-put_placed k i threads job (some j) h = has-put j k i threads h.0

has_both :
    (threads : Dict ℤ) (job : PublishJob) (group : Option String)
    → stored job ≡ threads
    → Whenever (λ j. has j threads ≡ true) group
    → Whenever (λ j. (has j threads ≡ true) × (has j (stored job) ≡ true)) group
has_both threads job none e h = tt
has_both threads job (some j) e h = (h, ap (has j) e ∙ h)

has-put_more :
    (k : String) (i : ℤ) (threads : Dict ℤ) (job : PublishJob) (group : Option String)
    → Whenever (λ j. (has j threads ≡ true) × (has j (stored job) ≡ true)) group
    → Whenever (λ j. (has j (put k i threads) ≡ true) × (has j (stored job) ≡ true)) group
has-put_more k i threads job none h = tt
has-put_more k i threads job (some j) h = (has-put j k i threads h.0, h.1)

has-stored :
    (threads : Dict ℤ) (job : PublishJob) (group : Option String)
    → Whenever (λ j. (has j threads ≡ true) × (has j (stored job) ≡ true)) group
    → Whenever (λ j. has j (stored job) ≡ true) group
has-stored threads job none h = tt
has-stored threads job (some j) h = h.1

-- Of the entries of a loop that is left: a failed commit leaves out the last one.
abbrev pub IsLeft : LoopEnd → (Entry → Type 0) → List Entry → Type 0
IsLeft (stopped commit_failed) Q log = AllButLast Q log
IsLeft _ Q log = All Q log

AllButLast-of_All : (Q : Entry → Type 0) (log : List Entry) → All Q log → AllButLast Q log
AllButLast-of_All Q [] h = tt
AllButLast-of_All Q (e ∷ []) h = tt
AllButLast-of_All Q (e ∷ f ∷ log) h = (h.0, AllButLast-of_All Q (f ∷ log) h.1)

IsLeft-of_All :
    (end : LoopEnd) (Q : Entry → Type 0) (log : List Entry) → All Q log → IsLeft end Q log
IsLeft-of_All finished Q log h = h
IsLeft-of_All skipped Q log h = h
IsLeft-of_All (stopped (http_status code)) Q log h = h
IsLeft-of_All (stopped transport) Q log h = h
IsLeft-of_All (stopped service_unavailable) Q log h = h
IsLeft-of_All (stopped uncaught) Q log h = h
IsLeft-of_All (stopped commit_failed) Q log h = AllButLast-of_All Q log h

pub IsLeft-map :
    (end : LoopEnd) (P Q : Entry → Type 0) (log : List Entry)
    → ((e : Entry) → P e → Q e)
    → IsLeft end P log
    → IsLeft end Q log
IsLeft-map finished P Q log step h = All-map P Q log step h
IsLeft-map skipped P Q log step h = All-map P Q log step h
IsLeft-map (stopped (http_status code)) P Q log step h = All-map P Q log step h
IsLeft-map (stopped transport) P Q log step h = All-map P Q log step h
IsLeft-map (stopped service_unavailable) P Q log step h = All-map P Q log step h
IsLeft-map (stopped uncaught) P Q log step h = All-map P Q log step h
IsLeft-map (stopped commit_failed) P Q log step h = AllButLast-map P Q log step h

-- What a loop that is left has committed.
abbrev IsSavedAt : LoopEnd → Posting → Type 0
IsSavedAt end s = IsLeft end (IsSaved s.inline_threads s.flight.saved) s.flight.log

abbrev IsPosted : Option Raised → Posting → Type 0
IsPosted none s = IsCommitted s
IsPosted (some e) s = IsSavedAt (stopped e) s

saved-IsSteady : IsSteady Flight.saved
saved-IsSteady = record {
  aside = record { requested = λ s log clock. refl };
  skipped = λ s status pipeline. refl;
}

module _ (thread_index : ℤ → Option String) (prior_v2_inline : Members) (world : World)
    (retry_posted : Dict ℤ) where
  committed_at :
      (threads : Dict ℤ) (log : List Entry) {job other : PublishJob}
      → job ≡ other
      → All (IsSaved threads other) log
      → All (IsSaved threads job) log
  committed_at threads log e h = subst (λ j. All (IsSaved threads j) log) (sym e) h

  read-IsCommitted :
      (s : Posting)
      → IsCommitted s
      → IsCommitted (record s { flight = (recheck_authority world s.flight).0 })
  read-IsCommitted s h = (
    h.0,
    committed_at s.inline_threads (recheck_authority world s.flight).0.log
        (view-recheck Flight.saved saved-IsSteady world s.flight)
        (recheck-All world (IsSaved s.inline_threads s.flight.saved)
          (IsSaved-elsewhere s.inline_threads s.flight.saved) s.flight h.1),
  )

  take_back-IsCommitted :
      (s : Posting)
      → IsCommitted s
      → IsCommitted (take_back thread_index prior_v2_inline world retry_posted s)
  take_back-IsCommitted s h =
      let after = revert_partial_flush world s.written_this_flush s.flight in
      (
        h.0,
        committed_at s.inline_threads after.log
            (view-revert Flight.saved saved-IsSteady.aside world s.written_this_flush s.flight)
            (revert-All world (IsSaved s.inline_threads s.flight.saved)
              (IsSaved-elsewhere s.inline_threads s.flight.saved) s.written_this_flush s.flight
              h.1),
      )

  module _ (spec : InlinePostSpec) (s : Posting) where
    abbrev SavedPost : Flight × PostResult → Type 0
    SavedPost =
        AllPosted world (IsSaved s.inline_threads s.flight.saved)
          (IsSaved-elsewhere s.inline_threads s.flight.saved) spec
          (λ i e.
            Whenever (λ k. has k (put spec.group_fingerprint i s.inline_threads) ≡ true) (placed e))
          (λ i e h.
            has-put_placed spec.group_fingerprint i s.inline_threads s.flight.saved (placed e) h)
          (λ line i. has-put_self spec.group_fingerprint i s.inline_threads) (λ line code. tt)
          (λ line. tt) (λ line. tt)

    -- The row that a posting commits has its comment, and those before.
    written-IsSaved :
        (i : ℤ) (flight : Flight)
        → IsKeyed s.inline_threads
        → SavedPost (flight, created i)
        → let threads = put spec.group_fingerprint i s.inline_threads in
          let job =
            write_summary threads_key
              (Json.object (
                serialize_inline_thread_map threads (prior_threads prior_v2_inline flight.job) (
                  note_thread thread_index prior_v2_inline spec.group_fingerprint i
                    s.inline_thread_ids)))
              flight.job in
          IsKeyed threads × All (IsSaved threads job) flight.log
    unfolding AllPosted
    written-IsSaved i flight keyed h =
        let k = spec.group_fingerprint in
        let threads = put k i s.inline_threads in
        let prior = prior_threads prior_v2_inline flight.job in
        let ids = note_thread thread_index prior_v2_inline k i s.inline_thread_ids in
        let job =
          write_summary threads_key (Json.object (serialize_inline_thread_map threads prior ids))
            flight.job in
        let kept = put-IsKeyed k i s.inline_threads keyed in
        (
          kept,
          All-map (λ x. Whenever (λ j. has j threads ≡ true) (placed x)) (IsSaved threads job)
              flight.log
              (λ x q.
                has_both threads job (placed x)
                  (stored-write_summary threads prior ids flight.job kept) q)
              h.0,
        )

    -- If the commit fails, the row is the one before, and the last entry is the new comment.
    unwritten-IsSaved :
        (i : ℤ) (flight : Flight)
        → flight.saved ≡ s.flight.saved
        → SavedPost (flight, created i)
        → AllButLast
            (IsSaved (put spec.group_fingerprint i s.inline_threads) flight.saved)
            flight.log
    unfolding AllPosted
    unwritten-IsSaved i flight e h =
        subst
          (λ j. AllButLast (IsSaved (put spec.group_fingerprint i s.inline_threads) j) flight.log)
          (sym e)
          (AllButLast-map (IsSaved s.inline_threads s.flight.saved)
            (IsSaved (put spec.group_fingerprint i s.inline_threads) s.flight.saved) flight.log
            (λ x saved.
              has-put_more spec.group_fingerprint i s.inline_threads s.flight.saved (placed x)
                saved)
            h.1)

    settle_post-IsPosted :
        (posted : Flight × PostResult)
        → IsKeyed s.inline_threads
        → posted.0.saved ≡ s.flight.saved
        → SavedPost posted
        → let (after, e) =
            settle_post thread_index prior_v2_inline world retry_posted spec s posted in
          IsPosted e after
    unfolding keep_posted keep_recovered AllPosted
    settle_post-IsPosted (flight, created i) keyed e h =
        elim (Bool-cases (world.commits flight.clock)) [
          | inl done ↦ rw done (written-IsSaved i flight keyed h)
          | inr broken ↦ rw broken (unwritten-IsSaved i flight e h)
        ]
    settle_post-IsPosted (flight, recovered code) keyed e h =
        (keyed, committed_at s.inline_threads flight.log e h)
    settle_post-IsPosted (flight, raised x) keyed e h =
        IsLeft-of_All (stopped x) (IsSaved s.inline_threads flight.saved) flight.log
          (committed_at s.inline_threads flight.log e h)

    post_one-IsPosted :
        IsCommitted s
        → let (after, e) = post_one thread_index prior_v2_inline world retry_posted spec s in
          IsPosted e after
    unfolding post_one
    post_one-IsPosted h =
        settle_post-IsPosted (create_inline_review_comment_with_422_retry world spec s.flight) h.0
          (view-post Flight.saved saved-IsSteady.aside world spec s.flight)
          (post-All world (IsSaved s.inline_threads s.flight.saved)
            (IsSaved-elsewhere s.inline_threads s.flight.saved) spec
            (λ i e.
              Whenever (λ k. has k (put spec.group_fingerprint i s.inline_threads) ≡ true)
                (placed e))
            (λ i e q.
              has-put_placed spec.group_fingerprint i s.inline_threads s.flight.saved (placed e) q)
            (λ line i. has-put_self spec.group_fingerprint i s.inline_threads) (λ line code. tt)
            (λ line. tt) (λ line. tt) s.flight h.1)

  -- However the loop is left, the groups whose comments its log has placed are in the committed map, but
  -- for the last entry where a commit failed.
  pub loop-IsStored :
      (specs : List InlinePostSpec) (s : Posting)
      → IsCommitted s
      → let (left, end) =
          post_inline_comments thread_index prior_v2_inline world retry_posted specs s in
        IsLeft end (IsStored left.flight.saved) left.flight.log
  loop-IsStored specs s h =
      let (left, end) =
        post_inline_comments thread_index prior_v2_inline world retry_posted specs s in
      IsLeft-map end (IsSaved left.inline_threads left.flight.saved) (IsStored left.flight.saved)
        left.flight.log
        (λ e saved. has-stored left.inline_threads left.flight.saved (placed e) saved)
        (loop_induction thread_index prior_v2_inline world retry_posted IsCommitted
          (λ r. IsSavedAt r.1 r.0) (λ s h. h.1)
          (λ s k i retried h. (
            put-IsKeyed k i s.inline_threads h.0,
            All-map (IsSaved s.inline_threads s.flight.saved)
                (IsSaved (put k i s.inline_threads) s.flight.saved) s.flight.log
                (λ e saved. has-put_more k i s.inline_threads s.flight.saved (placed e) saved) h.1,
          ))
          (λ s h has. read-IsCommitted s h)
          (λ s e h stop.
            let read : Posting = record s { flight = (recheck_authority world s.flight).0 } in
            IsLeft-of_All (stopped e) (IsSaved read.inline_threads read.flight.saved)
              read.flight.log (read-IsCommitted s h).1)
          (λ s h gone.
            (take_back-IsCommitted (record s { flight = (recheck_authority world s.flight).0 })
              (read-IsCommitted s h)).1)
          (λ s spec new h went_on.
            let after = post_one thread_index prior_v2_inline world retry_posted spec s in
            subst (λ e. IsPosted e after.0) went_on (post_one-IsPosted spec s h))
          (λ s spec e new h stop.
            let after = post_one thread_index prior_v2_inline world retry_posted spec s in
            subst (λ e. IsPosted e after.0) stop (post_one-IsPosted spec s h))
          specs s h)
