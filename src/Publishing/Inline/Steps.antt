-- ===== src/Publishing/Inline/Steps.antt =====
-- Induction over the loop that posts: what each round keeps, and what each way out gives.
use revy.Common.{
  ◌≡◌, refl, sym, subst, String, true, false, Option, none, some, List, [], ◌∷◌, Bool-cases,
  Option-cases, inl, inr, ◌⊎◌,
}
use revy.Common.Dict.{Dict, is_in, lookup, put}
use revy.Common.Json.{ℤ, Members}
use revy.Publishing.Flight.{
  InlinePostSpec, World, Raised, Reading, held, lost, failed, recheck_authority,
}
use revy.Publishing.Inline.{
  Posting, LoopEnd, finished, skipped, stopped, post_one, take_back, post_inline_comments,
}

Reading-cases : (r : Reading) → (r ≡ lost) ⊎ (((e : Raised) × (r ≡ failed e)) ⊎ (r ≡ held))
Reading-cases lost = inl refl
Reading-cases (failed e) = inr (inl (e, refl))
Reading-cases held = inr (inr refl)

module _ (thread_index : ℤ → Option String) (prior_v2_inline : Members) (world : World)
    (retry_posted : Dict ℤ) where
  abbrev loop : List InlinePostSpec → Posting → Posting × LoopEnd
  loop = post_inline_comments thread_index prior_v2_inline world retry_posted

  abbrev pub reread : Posting → Posting
  reread s = record s { flight = (recheck_authority world s.flight).0 }

  abbrev one : InlinePostSpec → Posting → Posting × Option Raised
  one = post_one thread_index prior_v2_inline world retry_posted

  loop-end : (s : Posting) → loop [] s ≡ (s, finished)
  unfolding post_inline_comments
  loop-end s = refl

  module _ (spec : InlinePostSpec) (specs : List InlinePostSpec) (s : Posting) where
    loop-retried :
        (i : ℤ)
        → lookup spec.group_fingerprint retry_posted ≡ some i
        → loop (spec ∷ specs) s
          ≡ loop specs (record s { inline_threads = put spec.group_fingerprint i s.inline_threads })
    unfolding post_inline_comments
    loop-retried i retried = rw (post_inline_comments, retried) refl

    module _ (new : lookup spec.group_fingerprint retry_posted ≡ none) where
      loop-known :
          is_in spec.group_fingerprint s.recovered_fingerprints ≡ true
          → loop (spec ∷ specs) s ≡ loop specs s
      unfolding post_inline_comments
      loop-known known = rw (post_inline_comments, new, known) refl

      module _ (unknown : is_in spec.group_fingerprint s.recovered_fingerprints ≡ false) where
        loop-failed :
            (e : Raised)
            → (recheck_authority world s.flight).1 ≡ failed e
            → loop (spec ∷ specs) s ≡ (reread s, stopped e)
        unfolding post_inline_comments
        loop-failed e stop = rw (post_inline_comments, new, unknown, stop) refl

        loop-lost :
            (recheck_authority world s.flight).1 ≡ lost
            → loop (spec ∷ specs) s
              ≡ (take_back thread_index prior_v2_inline world retry_posted (reread s), skipped)
        unfolding post_inline_comments
        loop-lost gone = rw (post_inline_comments, new, unknown, gone) refl

        loop-stopped :
            (e : Raised)
            → (recheck_authority world s.flight).1 ≡ held
            → (one spec (reread s)).1 ≡ some e
            → loop (spec ∷ specs) s ≡ ((one spec (reread s)).0, stopped e)
        unfolding post_inline_comments
        loop-stopped e has stop = rw (post_inline_comments, new, unknown, has, stop) refl

        loop-posted :
            (recheck_authority world s.flight).1 ≡ held
            → (one spec (reread s)).1 ≡ none
            → loop (spec ∷ specs) s ≡ loop specs (one spec (reread s)).0
        unfolding post_inline_comments
        loop-posted has went_on = rw (post_inline_comments, new, unknown, has, went_on) refl

  module _ (I : Posting → Type 0) (P : Posting × LoopEnd → Type 0)
      (at_end : (s : Posting) → I s → P (s, finished))
      (retries : (s : Posting) (fingerprint : String) (i : ℤ)
        → lookup fingerprint retry_posted ≡ some i
        → I s
        → I (record s { inline_threads = put fingerprint i s.inline_threads }))
      (reads : (s : Posting) → I s → (recheck_authority world s.flight).1 ≡ held → I (reread s))
      (fails : (s : Posting) (e : Raised)
        → I s
        → (recheck_authority world s.flight).1 ≡ failed e
        → P (reread s, stopped e))
      (loses : (s : Posting)
        → I s
        → (recheck_authority world s.flight).1 ≡ lost
        → P (take_back thread_index prior_v2_inline world retry_posted (reread s), skipped))
      (posts : (s : Posting) (spec : InlinePostSpec)
        → lookup spec.group_fingerprint retry_posted ≡ none
        → I s
        → (one spec s).1 ≡ none
        → I (one spec s).0)
      (stops : (s : Posting) (spec : InlinePostSpec) (e : Raised)
        → lookup spec.group_fingerprint retry_posted ≡ none
        → I s
        → (one spec s).1 ≡ some e
        → P ((one spec s).0, stopped e)) where
    pub loop_induction : (specs : List InlinePostSpec) (s : Posting) → I s → P (loop specs s)
    loop_induction [] s h = subst P (sym (loop-end s)) (at_end s h)
    loop_induction (spec ∷ specs) s h =
        elim (Option-cases (lookup spec.group_fingerprint retry_posted)) [
          | inr (i, retried) ↦ subst P (sym (loop-retried spec specs s i retried)) (
              loop_induction specs
                (record s { inline_threads = put spec.group_fingerprint i s.inline_threads })
                (retries s spec.group_fingerprint i retried h))
          | inl new ↦ elim (Bool-cases (is_in spec.group_fingerprint s.recovered_fingerprints)) [
            | inl known ↦
                subst P (sym (loop-known spec specs s new known)) (loop_induction specs s h)
            | inr unknown ↦ elim (Reading-cases (recheck_authority world s.flight).1) [
              | inl gone ↦ subst P (sym (loop-lost spec specs s new unknown gone)) (loses s h gone)
              | inr (inl (e, stop)) ↦
                  subst P (sym (loop-failed spec specs s new unknown e stop)) (fails s e h stop)
              | inr (inr has) ↦
                  let kept = reads s h has in
                  elim (Option-cases (one spec (reread s)).1) [
                    | inr (e, stop) ↦
                        subst P (sym (loop-stopped spec specs s new unknown e has stop))
                          (stops (reread s) spec e new kept stop)
                    | inl went_on ↦
                        subst P (sym (loop-posted spec specs s new unknown has went_on)) (
                          loop_induction specs (one spec (reread s)).0
                            (posts (reread s) spec new kept went_on))
                  ]
            ]
          ]
        ]
