-- ===== src/Publishing/Inline/Resumed.antt =====
-- A publication that stopped and runs again from what it committed posts no comment twice.
use revy.Common.{
  ◌≡◌, refl, sym, subst, String, Bool, true, false, Option, none, some, List, [], arith, str_eq,
  eq_iff, All, Bool-cases, inl, inr,
}
use revy.Common.Dict.{Dict, lookup, has}
use revy.Common.Json.{ℤ, Members}
use revy.Common.Options.{Whenever}
use revy.Findings.Rows.{PublishJob}
use revy.Publishing.Threads.{IsKeyed}
use revy.Publishing.Flight.{
  recheck_authority, InlinePostSpec, post_comment, Flight, World, PostResult, created, recovered,
  raised, create_inline_review_comment_with_422_retry,
}
use revy.Publishing.Inline.Log.{Entry, HoldsElsewhere, AllPosted, post-All, recheck-All, revert-All}
use revy.Publishing.Inline.Steps.{loop_induction}
use revy.Publishing.Inline.Saved.{
  placed, stored, IsStored, IsSaved, IsLeft, IsLeft-map, loop-IsStored,
}
use revy.Publishing.Inline.{
  Posting, LoopEnd, keep_posted, keep_recovered, settle_post, post_one, post_inline_comments,
}

-- Whether an entry is a request for a comment of a group.
abbrev pub posts : String → Entry → Bool
posts fingerprint (post_comment spec line, _) = str_eq spec.group_fingerprint fingerprint
posts fingerprint _ = false

abbrev pub IsQuiet : String → Entry → Type 0
IsQuiet fingerprint entry = posts fingerprint entry ≡ false

module _ (thread_index : ℤ → Option String) (prior_v2_inline : Members) (world : World)
    (retry_posted : Dict ℤ) (fingerprint : String)
    (posted_before : has fingerprint retry_posted ≡ true) where
  IsQuiet-elsewhere : HoldsElsewhere (IsQuiet fingerprint)
  IsQuiet-elsewhere = record {
    on_delete = λ i a. refl;
    on_check = λ i a. refl;
    on_issue_comment = λ i a. refl;
    on_finalize = λ i a. refl;
  }

  another :
      (spec : InlinePostSpec)
      → lookup spec.group_fingerprint retry_posted ≡ none
      → str_eq spec.group_fingerprint fingerprint ≡ false
  another spec new = elim (Bool-cases (str_eq spec.group_fingerprint fingerprint)) [
    | inr other ↦ other
    | inl same ↦
        let e = (eq_iff spec.group_fingerprint fingerprint).0 same in
        let missing = subst (λ k. lookup k retry_posted ≡ none) e new in absurd (ground arith)
  ]

  IsQuiet-post_one :
      (s : Posting) (spec : InlinePostSpec)
      → lookup spec.group_fingerprint retry_posted ≡ none
      → All (IsQuiet fingerprint) s.flight.log
      → All
          (IsQuiet fingerprint)
          (post_one thread_index prior_v2_inline world retry_posted spec s).0.flight.log
  unfolding post_one keep_posted keep_recovered AllPosted
  IsQuiet-post_one s spec new h =
      settled (create_inline_review_comment_with_422_retry world spec s.flight) (
        post-All world (IsQuiet fingerprint) IsQuiet-elsewhere spec (λ i. IsQuiet fingerprint)
          (λ i e q. q) (λ line i. another spec new) (λ line code. another spec new)
          (λ line. another spec new) (λ line. another spec new) s.flight h)
    where
      settled :
          (posted : Flight × PostResult)
          → AllPosted world
              (IsQuiet fingerprint)
              IsQuiet-elsewhere
              spec
              (λ i. IsQuiet fingerprint)
              (λ i e q. q)
              (λ line i. another spec new)
              (λ line code. another spec new)
              (λ line. another spec new)
              (λ line. another spec new)
              posted
          → All
              (IsQuiet fingerprint)
              (settle_post thread_index prior_v2_inline world retry_posted spec s
                posted).0.flight.log
      settled (flight, created i) t = t.0
      settled (flight, recovered code) t = t
      settled (flight, raised e) t = t

  -- No request is made for a group whose comment an earlier attempt posted.
  pub retried-IsQuiet :
      (specs : List InlinePostSpec) (s : Posting)
      → All (IsQuiet fingerprint) s.flight.log
      → All
          (IsQuiet fingerprint)
          (post_inline_comments thread_index prior_v2_inline world retry_posted specs
            s).0.flight.log
  retried-IsQuiet =
      loop_induction thread_index prior_v2_inline world retry_posted
        (λ s. All (IsQuiet fingerprint) s.flight.log)
        (λ left. All (IsQuiet fingerprint) left.0.flight.log) (λ s h. h) (λ s k i retried h. h)
        (λ s h has. recheck-All world (IsQuiet fingerprint) IsQuiet-elsewhere s.flight h)
        (λ s e h stop. recheck-All world (IsQuiet fingerprint) IsQuiet-elsewhere s.flight h)
        (λ s h gone.
          revert-All world (IsQuiet fingerprint) IsQuiet-elsewhere s.written_this_flush
            (recheck_authority world s.flight).0
            (recheck-All world (IsQuiet fingerprint) IsQuiet-elsewhere s.flight h))
        (λ s spec new h went_on. IsQuiet-post_one s spec new h)
        (λ s spec e new h stop. IsQuiet-post_one s spec new h)

-- Whether a log asks for no comment of the group whose comment an entry placed.
abbrev pub IsOnce : List Entry → Entry → Type 0
IsOnce log entry = Whenever (λ k. All (IsQuiet k) log) (placed entry)

module _ (thread_index : ℤ → Option String) (prior_v2_inline : Members)
    (retry_posted : Dict ℤ) where
  abbrev pub flush : World → List InlinePostSpec → Posting → Posting × LoopEnd
  flush world specs s = post_inline_comments thread_index prior_v2_inline world retry_posted specs s

module _ (thread_index : ℤ → Option String) (prior_v2_inline : Members)
    (first_world second_world : World) (retry_posted : Dict ℤ) where
  IsQuiet-again :
      (job : PublishJob) (specs : List InlinePostSpec) (s : Posting)
      → s.flight.log ≡ []
      → (group : Option String) → Whenever (λ k. has k (stored job) ≡ true) group
      → Whenever
          (λ k.
            All
              (IsQuiet k)
              (flush thread_index prior_v2_inline (stored job) second_world specs s).0.flight.log)
          group
  IsQuiet-again job specs s empty none h = tt
  IsQuiet-again job specs s empty (some k) h =
      retried-IsQuiet thread_index prior_v2_inline second_world (stored job) k h specs s
        (subst (All (IsQuiet k)) (sym empty) tt)

  -- Two attempts of a job, the second with the comments that the committed row of the first lists as
  -- already posted. Whatever GitHub answers in either, and however the first was left (finished, skipped, stopped by
  -- an exception), the second asks for no comment of a group whose comment the first has placed, which is one that
  -- GitHub answered with an id. If the first was stopped by a commit that failed, the last request is left out of
  -- this: its comment is placed and not on the committed row.
  pub post_inline_comments-IsOnce :
      (specs : List InlinePostSpec) (s : Posting) (specs' : List InlinePostSpec) (s' : Posting)
      → IsKeyed s.inline_threads
      → s.flight.log ≡ []
      → s'.flight.log ≡ []
      → let (left, end) = flush thread_index prior_v2_inline retry_posted first_world specs s in
        let (again, _) =
          flush thread_index prior_v2_inline (stored left.flight.saved) second_world specs' s' in
        IsLeft end (IsOnce again.flight.log) left.flight.log
  post_inline_comments-IsOnce specs s specs' s' keyed empty empty' =
      let (left, end) = flush thread_index prior_v2_inline retry_posted first_world specs s in
      let (again, _) =
        flush thread_index prior_v2_inline (stored left.flight.saved) second_world specs' s' in
      IsLeft-map end (IsStored left.flight.saved) (IsOnce again.flight.log) left.flight.log
        (λ e h. IsQuiet-again left.flight.saved specs' s' empty' (placed e) h)
        (loop-IsStored thread_index prior_v2_inline first_world retry_posted specs s
          (keyed, subst (All (IsSaved s.inline_threads s.flight.saved)) (sym empty) tt))
