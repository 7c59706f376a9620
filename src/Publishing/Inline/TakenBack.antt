-- ===== src/Publishing/Inline/TakenBack.antt =====
-- A publication that loses its authority while it posts takes back the comments that it posted.
use revy.Common.{
  any_of-append_left, any_of-append_last, ◌≡◌, ◌∙◌, String, Bool, true, false, Option, none, some,
  List, [], ◌∷◌, ◌++◌, arith, any_of, All, All-map, Bool-cases, inl, inr,
}
use revy.Common.Dict.{Dict}
use revy.Common.Json.{ℤ, int_eq, int_eq_refl, int_eq_comm, Members}
use revy.Common.Options.{Whenever}
use revy.Publishing.Flight.{
  InlinePostSpec, post_comment, delete_comment, accepted, Flight, World, PostResult, created,
  recovered, raised, try_send, delete_all, neutralize_check, neutralize_issue_comment,
  recheck_authority, revert_partial_flush, create_inline_review_comment_with_422_retry,
}
use revy.Publishing.Inline.Log.{
  delete_all-keeps, Entry, HoldsElsewhere, AllPosted, post-All, recheck-All, revert-All,
}
use revy.Publishing.Inline.Steps.{loop_induction}
use revy.Publishing.Inline.{
  Posting, LoopEnd, finished, skipped, stopped, keep_posted, keep_recovered, settle_post, post_one,
  post_inline_comments,
}

-- The comment that a request made, if it was accepted.
abbrev pub made : Entry → Option ℤ
made (post_comment spec line, accepted comment_id) = some comment_id
made _ = none

abbrev pub deletes : ℤ → Entry → Bool
deletes comment_id (delete_comment deleted, _) = int_eq deleted comment_id
deletes comment_id _ = false

-- The comment of an entry is among some ids.
abbrev pub IsTracked : List ℤ → Entry → Type 0
IsTracked ids entry = Whenever (λ i. any_of (int_eq i) ids ≡ true) (made entry)

-- The comment of an entry was asked to be deleted.
abbrev pub IsUndone : List Entry → Entry → Type 0
IsUndone log entry = Whenever (λ i. any_of (deletes i) log ≡ true) (made entry)

module _ (world : World) where
  delete_all-deletes :
      (i : ℤ) (ids : List ℤ) (s : Flight)
      → any_of (int_eq i) ids ≡ true
      → any_of (deletes i) (delete_all world ids s).log ≡ true
  delete_all-deletes i [] s h = cc
  delete_all-deletes i (j ∷ ids) s h = elim (Bool-cases (int_eq i j)) [
    | inl this ↦
        delete_all-keeps world (deletes i) ids (try_send world (delete_comment j) s)
          (any_of-append_last (deletes i) _ s.log (int_eq_comm j i ∙ this))
    | inr other ↦ delete_all-deletes i ids (try_send world (delete_comment j) s) (ground arith)
  ]

  module _ (ids : List ℤ) where
    pub IsTracked-elsewhere : HoldsElsewhere (IsTracked ids)
    IsTracked-elsewhere = record {
      on_delete = λ i a. tt;
      on_check = λ i a. tt;
      on_issue_comment = λ i a. tt;
      on_finalize = λ i a. tt;
    }

    abbrev AllTracked : Flight → Type 0
    AllTracked s = All (IsTracked ids) s.log

    recheck-tracked : (s : Flight) → AllTracked s → AllTracked (recheck_authority world s).0
    recheck-tracked = recheck-All world (IsTracked ids) IsTracked-elsewhere

    undone :
        (comment : Option ℤ) (before : Flight)
        → Whenever (λ i. any_of (int_eq i) ids ≡ true) comment
        → Whenever (λ i. any_of (deletes i) (delete_all world ids before).log ≡ true) comment
    undone none before t = tt
    undone (some i) before t = delete_all-deletes i ids before t

    pub revert-undoes :
        (s : Flight)
        → AllTracked s
        → let after = revert_partial_flush world ids s in All (IsUndone after.log) after.log
    unfolding revert_partial_flush
    revert-undoes s h =
        let before = neutralize_issue_comment world (neutralize_check world s) in
        All-map (IsTracked ids) (IsUndone (delete_all world ids before).log)
          (delete_all world ids before).log (λ entry tracked. undone (made entry) before tracked)
          (revert-All world (IsTracked ids) IsTracked-elsewhere ids s h)

    wider :
        (i : ℤ) (comment : Option ℤ)
        → Whenever (λ j. any_of (int_eq j) ids ≡ true) comment
        → Whenever (λ j. any_of (int_eq j) (ids ++ i ∷ []) ≡ true) comment
    wider i none t = tt
    wider i (some j) t = any_of-append_left (int_eq j) i ids t

    -- What a posting leaves in the log, by its result.
    abbrev TrackedPost : InlinePostSpec → Flight × PostResult → Type 0
    TrackedPost spec =
        AllPosted world (IsTracked ids) IsTracked-elsewhere spec (λ i. IsTracked (ids ++ i ∷ []))
          (λ i e tracked. wider i (made e) tracked)
          (λ line i. any_of-append_last (int_eq i) i ids (int_eq_refl i)) (λ line code. tt)
          (λ line. tt) (λ line. tt)

    post-tracked :
        (spec : InlinePostSpec) (s : Flight)
        → AllTracked s
        → TrackedPost spec (create_inline_review_comment_with_422_retry world spec s)
    post-tracked spec =
        post-All world (IsTracked ids) IsTracked-elsewhere spec (λ i. IsTracked (ids ++ i ∷ []))
          (λ i e tracked. wider i (made e) tracked)
          (λ line i. any_of-append_last (int_eq i) i ids (int_eq_refl i)) (λ line code. tt)
          (λ line. tt) (λ line. tt)

-- What a lost authority leaves: each comment in the log is deleted.
abbrev pub IsTakenBack : Posting × LoopEnd → Type 0
IsTakenBack (s, finished) = Unit
IsTakenBack (s, stopped e) = Unit
IsTakenBack (s, skipped) = All (IsUndone s.flight.log) s.flight.log

module _ (thread_index : ℤ → Option String) (prior_v2_inline : Members) (world : World)
    (retry_posted : Dict ℤ) where
  post_one-IsTracked :
      (spec : InlinePostSpec) (s : Posting)
      → All (IsTracked s.written_this_flush) s.flight.log
      → let (after, _) = post_one thread_index prior_v2_inline world retry_posted spec s in
        All (IsTracked after.written_this_flush) after.flight.log
  unfolding post_one keep_posted keep_recovered AllPosted
  post_one-IsTracked spec s h =
      settled (create_inline_review_comment_with_422_retry world spec s.flight)
        (post-tracked world s.written_this_flush spec s.flight h)
    where
      settled :
          (posted : Flight × PostResult)
          → TrackedPost world s.written_this_flush spec posted
          → let after =
              (settle_post thread_index prior_v2_inline world retry_posted spec s posted).0 in
            All (IsTracked after.written_this_flush) after.flight.log
      settled (flight, created i) t = t.0
      settled (flight, recovered code) t = t
      settled (flight, raised e) t = t

  -- A loop that loses its authority, because HEAD moved or the run was superseded, asks GitHub to delete
  -- every comment that a request in its log made, whatever GitHub answers and wherever the loop was.
  pub post_inline_comments-IsTakenBack :
      (specs : List InlinePostSpec) (s : Posting)
      → All (IsTracked s.written_this_flush) s.flight.log
      → IsTakenBack (post_inline_comments thread_index prior_v2_inline world retry_posted specs s)
  post_inline_comments-IsTakenBack =
      loop_induction thread_index prior_v2_inline world retry_posted
        (λ s. All (IsTracked s.written_this_flush) s.flight.log) IsTakenBack (λ s h. tt)
        (λ s fingerprint i retried h. h)
        (λ s h has. recheck-tracked world s.written_this_flush s.flight h) (λ s e h stop. tt)
        (λ s h gone.
          revert-undoes world s.written_this_flush (recheck_authority world s.flight).0
            (recheck-tracked world s.written_this_flush s.flight h))
        (λ s spec new h went_on. post_one-IsTracked spec s h) (λ s spec e new h stop. tt)
