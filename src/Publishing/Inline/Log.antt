-- ===== src/Publishing/Inline/Log.antt =====
-- What the requests of a publication add to its log, for any property of the entries.
use revy.Common.{
  any_of, any_of-append_left, ◌≡◌, ℕ, suc, Bool, true, false, Option, none, some, List, [], ◌∷◌,
  ◌++◌, str_eq, All, All-map, All-append_one, Bool-cases, inl, inr,
}
use revy.Common.Json.{ℤ}
use revy.Pipeline.{
  PipelineRun, get_pipeline_run_for_review_run, record_publish_skip_on_pipeline,
  resolve_pipeline_github_check_run_id,
}
use revy.Publishing.Flight.{
  InlinePostSpec, Call, post_comment, delete_comment, update_check, update_issue_comment,
  finalize_neutral, Answer, accepted, status, unreachable, unusable, Flight, World, PostResult,
  created, recovered, raised, try_send, delete_all, neutralize_check, neutralize_issue_comment,
  neutralize_check_at, neutralize_issue_comment_at, skip_summary, finalize_for, finalize_at,
  skip_key, skip_status, skip_publish_job_at_gate, recheck_authority, revert_partial_flush,
  is_recoverable, last_answer, first_answer, nearest_inline_retry_line,
  create_inline_review_comment_with_422_retry,
}

abbrev pub Entry : Type 0
Entry = Call × Answer

-- Of all entries but the last one.
abbrev pub AllButLast : (Entry → Type 0) → List Entry → Type 0
AllButLast Q [] = Unit
AllButLast Q (e ∷ []) = Unit
AllButLast Q (e ∷ f ∷ log) = Q e × AllButLast Q (f ∷ log)

AllButLast-append :
    (Q : Entry → Type 0) (e : Entry) (log : List Entry) → All Q log → AllButLast Q (log ++ e ∷ [])
AllButLast-append Q e [] h = tt
AllButLast-append Q e (f ∷ []) h = (h.0, tt)
AllButLast-append Q e (f ∷ g ∷ log) h = (h.0, AllButLast-append Q e (g ∷ log) h.1)

pub AllButLast-map :
    (P Q : Entry → Type 0) (log : List Entry)
    → ((e : Entry) → P e → Q e)
    → AllButLast P log
    → AllButLast Q log
AllButLast-map P Q [] step h = tt
AllButLast-map P Q (e ∷ []) step h = tt
AllButLast-map P Q (e ∷ f ∷ log) step h = (step e h.0, AllButLast-map P Q (f ∷ log) step h.1)

-- What stands in the log stays there.
pub delete_all-keeps :
    (world : World) (p : Entry → Bool) (ids : List ℤ) (s : Flight)
    → any_of p s.log ≡ true
    → any_of p (delete_all world ids s).log ≡ true
delete_all-keeps world p [] s h = h
delete_all-keeps world p (j ∷ ids) s h =
    delete_all-keeps world p ids (try_send world (delete_comment j) s)
      (any_of-append_left p (delete_comment j, world.answer s.clock) s.log h)

-- A property that every entry has which is no request for a comment.
pub record HoldsElsewhere (Q : Entry → Type 0) : Type 0 where
  pub on_delete : (i : ℤ) (a : Answer) → Q (delete_comment i, a)
  pub on_check : (i : ℤ) (a : Answer) → Q (update_check i "neutral" skip_summary, a)
  pub on_issue_comment : (i : ℤ) (a : Answer) → Q (update_issue_comment i skip_summary, a)
  pub on_finalize : (i : ℕ) (a : Answer) → Q (finalize_neutral i, a)

module _ (world : World) (Q : Entry → Type 0) (elsewhere : HoldsElsewhere Q) where
  abbrev AllQ : Flight → Type 0
  AllQ s = All Q s.log

  pub delete_all-All : (js : List ℤ) (s : Flight) → AllQ s → AllQ (delete_all world js s)
  delete_all-All [] s h = h
  delete_all-All (j ∷ js) s h = delete_all-All js (try_send world (delete_comment j) s) (
      All-append_one Q s.log (delete_comment j, world.answer s.clock) h
        (elsewhere.on_delete j (world.answer s.clock)))

  check_at-All : (check : Option ℤ) (s : Flight) → AllQ s → AllQ (neutralize_check_at world check s)
  check_at-All none s h = h
  check_at-All (some check) s h = All-append_one Q s.log _ h (elsewhere.on_check check _)

  pub neutralize_check-All : (s : Flight) → AllQ s → AllQ (neutralize_check world s)
  neutralize_check-All s h = check_at-All s.job.github_check_run_id s h

  comment_at-All :
      (comment : Option ℤ) (s : Flight)
      → AllQ s
      → AllQ (neutralize_issue_comment_at world comment s)
  comment_at-All none s h = h
  comment_at-All (some comment) s h =
      All-append_one Q s.log _ h (elsewhere.on_issue_comment comment _)

  pub neutralize_issue_comment-All : (s : Flight) → AllQ s → AllQ (neutralize_issue_comment world s)
  neutralize_issue_comment-All s h = comment_at-All s.job.github_comment_id s h

  pub revert-All : (ids : List ℤ) (s : Flight) → AllQ s → AllQ (revert_partial_flush world ids s)
  unfolding revert_partial_flush
  revert-All ids s h =
      delete_all-All ids (neutralize_issue_comment world (neutralize_check world s))
        (neutralize_issue_comment-All (neutralize_check world s) (neutralize_check-All s h))

  finalize_at-All :
      (call : Call) (check : Option ℤ) (s : Flight)
      → ((a : Answer) → Q (call, a))
      → AllQ s
      → AllQ (finalize_at world call check s).0
  finalize_at-All call none s q h = h
  finalize_at-All call (some check) s q h = All-append_one Q s.log _ h (q (world.answer s.clock))

  finalize-All :
      (run : Option PipelineRun) (s : Flight) → AllQ s → AllQ (finalize_for world run s).0
  finalize-All none s h = h
  finalize-All (some run) s h =
      finalize_at-All (finalize_neutral run.id)
        (resolve_pipeline_github_check_run_id run.id s.pipeline) s (elsewhere.on_finalize run.id) h

  gate-All :
      (superseded : Bool) (s : Flight)
      → AllQ s
      → AllQ (skip_publish_job_at_gate world superseded s).0
  unfolding skip_publish_job_at_gate
  gate-All superseded s h =
      finalize-All
        (get_pipeline_run_for_review_run s.job.review_run_id
          (record_publish_skip_on_pipeline s.job.review_run_id (skip_key superseded) s.pipeline))
        (record s {
          job = record s.job { status = skip_status superseded; error_message = none };
          pipeline =
              record_publish_skip_on_pipeline s.job.review_run_id (skip_key superseded) s.pipeline;
        })
        h

  pub recheck-All : (s : Flight) → AllQ s → AllQ (recheck_authority world s).0
  unfolding recheck_authority
  recheck-All s h =
      let read : Flight = record s { clock = suc s.clock } in
      elim (Bool-cases ((world.authority s.clock).superseded)) [
        | inl gone ↦ rw (recheck_authority, gone) (gate-All true read h)
        | inr there ↦ elim (Bool-cases (str_eq s.job.head_sha (world.authority s.clock).head_sha)) [
          | inl at_head ↦ rw (recheck_authority, there, at_head) h
          | inr behind ↦ rw (recheck_authority, there, behind) (gate-All false read h)
        ]
      ]

  -- The requests for one comment, whose acceptance may need a wider property.
  module _ (spec : InlinePostSpec) (Wider : ℤ → Entry → Type 0)
      (widens : (i : ℤ) (e : Entry) → Q e → Wider i e)
      (on_accepted : (line : ℕ) (i : ℤ) → Wider i (post_comment spec line, accepted i))
      (on_status : (line code : ℕ) → Q (post_comment spec line, status code))
      (on_unreachable : (line : ℕ) → Q (post_comment spec line, unreachable))
      (on_unusable : (line : ℕ) → Q (post_comment spec line, unusable)) where
    unfoldable pub AllPosted : Flight × PostResult → Type 0
    AllPosted (s, created i) = All (Wider i) s.log × AllButLast Q s.log
    AllPosted (s, recovered code) = All Q s.log
    AllPosted (s, raised e) = All Q s.log

    abbrev answered : ℕ → Answer → Flight → Flight
    answered line answer s = record s {
      log = s.log ++ (post_comment spec line, answer) ∷ [];
      clock = suc s.clock;
    }

    accepted-All :
        (line : ℕ) (i : ℤ) (s : Flight)
        → AllQ s
        → All (Wider i) (s.log ++ (post_comment spec line, accepted i) ∷ [])
          × AllButLast Q (s.log ++ (post_comment spec line, accepted i) ∷ [])
    accepted-All line i s h = (
      All-append_one (Wider i) s.log (post_comment spec line, accepted i)
          (All-map Q (Wider i) s.log (widens i) h) (on_accepted line i),
      AllButLast-append Q (post_comment spec line, accepted i) s.log h,
    )

    status-All :
        (line code : ℕ) (s : Flight)
        → AllQ s
        → All Q (s.log ++ (post_comment spec line, status code) ∷ [])
    status-All line code s h = All-append_one Q s.log _ h (on_status line code)

    last-All :
        (line : ℕ) (answer : Answer) (s : Flight)
        → AllQ s
        → AllPosted (last_answer answer (answered line answer s))
    unfolding AllPosted
    last-All line (accepted i) s h = accepted-All line i s h
    last-All line unreachable s h = All-append_one Q s.log _ h (on_unreachable line)
    last-All line unusable s h = All-append_one Q s.log _ h (on_unusable line)
    last-All line (status code) s h = elim (Bool-cases (is_recoverable code)) [
      | inl again ↦ rw again (status-All line code s h)
      | inr other ↦ rw other (status-All line code s h)
    ]

    first-All :
        (line : ℕ) (answer : Answer) (s : Flight)
        → AllQ s
        → AllPosted (first_answer world spec answer (answered line answer s))
    unfolding AllPosted
    first-All line (accepted i) s h = accepted-All line i s h
    first-All line unreachable s h = All-append_one Q s.log _ h (on_unreachable line)
    first-All line unusable s h = All-append_one Q s.log _ h (on_unusable line)
    first-All line (status code) s h =
        let after = answered line (status code) s in
        elim (Bool-cases (is_recoverable code)) [
          | inl again ↦ rw again (
              last-All (nearest_inline_retry_line spec.start_line) (world.answer after.clock) after
                (status-All line code s h))
          | inr other ↦ rw other (status-All line code s h)
        ]

    pub post-All :
        (s : Flight) → AllQ s → AllPosted (create_inline_review_comment_with_422_retry world spec s)
    unfolding create_inline_review_comment_with_422_retry
    post-All s h = first-All spec.start_line (world.answer s.clock) s h
