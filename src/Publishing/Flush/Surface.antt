-- ===== src/Publishing/Flush/Surface.antt =====
-- The check and the issue comment of a flush: which the log has written, and that a taking back clears them.
use revy.Common.{
  ◌≡◌, refl, ◌∙◌, subst, String, Bool, true, false, ◌&&◌, Option, none, some, List, arith,
  if◌then◌else◌, str_eq, any_of, any_of-append_left, any_of-append_last, All, All-map,
}
use revy.Common.Json.{ℤ, int_eq, int_eq_refl}
use revy.Common.Options.{Whenever}
use revy.Publishing.Flight.{
  create_check, update_check, create_issue_comment, update_issue_comment, accepted, Flight, World,
  skip_summary, neutralize_check, neutralize_issue_comment, neutralize_check_at,
  neutralize_issue_comment_at, revert_partial_flush,
}
use revy.Publishing.Inline.Log.{Entry, HoldsElsewhere, revert-All, delete_all-keeps}
use revy.Publishing.Inline.Steady.{IsSteady, view-check}

-- The id that a request made known as written; the text of a taking back is no write.
abbrev pub unless_skip : String → ℤ → Option ℤ
unless_skip text id = if str_eq text skip_summary then none else some id

-- The check that an entry has written, whatever GitHub answered to an update.
abbrev pub written_check : Entry → Option ℤ
written_check (create_check conclusion summary, accepted id) = some id
written_check (update_check id conclusion summary, answer) = unless_skip summary id
written_check _ = none

abbrev pub written_comment : Entry → Option ℤ
written_comment (create_issue_comment body, accepted id) = some id
written_comment (update_issue_comment id body, answer) = unless_skip body id
written_comment _ = none

abbrev pub neutralizes : ℤ → Entry → Bool
neutralizes id (update_check written conclusion summary, answer) =
    int_eq written id && str_eq conclusion "neutral" && str_eq summary skip_summary
neutralizes id _ = false

abbrev pub blanks : ℤ → Entry → Bool
blanks id (update_issue_comment written body, answer) =
    int_eq written id && str_eq body skip_summary
blanks id _ = false

-- What an entry wrote is what the job has the id of.
abbrev pub IsKnown : Option ℤ → Option ℤ → Entry → Type 0
IsKnown check comment e =
    Whenever (λ i. check ≡ some i) (written_check e)
    × Whenever (λ i. comment ≡ some i) (written_comment e)

-- What an entry wrote was asked to be replaced by the text of a taking back.
abbrev pub IsCleared : List Entry → Entry → Type 0
IsCleared log e =
    Whenever (λ i. any_of (neutralizes i) log ≡ true) (written_check e)
    × Whenever (λ i. any_of (blanks i) log ≡ true) (written_comment e)

pub IsKnown-elsewhere : (check comment : Option ℤ) → HoldsElsewhere (IsKnown check comment)
IsKnown-elsewhere check comment = record {
  on_delete = λ i a. (tt, tt);
  on_check = λ i a. (tt, tt);
  on_issue_comment = λ i a. (tt, tt);
  on_finalize = λ i a. (tt, tt);
}

pub check_id : Flight → Option ℤ
check_id s = s.job.github_check_run_id

pub comment_id : Flight → Option ℤ
comment_id s = s.job.github_comment_id

pub check-IsSteady : IsSteady (λ s. s.job.github_check_run_id)
check-IsSteady = record {
  aside = record { requested = λ s log clock. refl };
  skipped = λ s status pipeline. refl;
}

pub comment-IsSteady : IsSteady (λ s. s.job.github_comment_id)
comment-IsSteady = record {
  aside = record { requested = λ s log clock. refl };
  skipped = λ s status pipeline. refl;
}

same_id : (j i : ℤ) → some j ≡ some i → int_eq j i ≡ true
same_id j i e = subst (Whenever (λ k. int_eq j k ≡ true)) e (int_eq_refl j)

module _ (world : World) where
  comment_at-keeps :
      (p : Entry → Bool) (comment : Option ℤ) (s : Flight)
      → any_of p s.log ≡ true
      → any_of p (neutralize_issue_comment_at world comment s).log ≡ true
  comment_at-keeps p none s h = h
  comment_at-keeps p (some comment) s h = any_of-append_left p _ s.log h

  check_at-neutralizes :
      (check : Option ℤ) (i : ℤ) (s : Flight)
      → check ≡ some i
      → any_of (neutralizes i) (neutralize_check_at world check s).log ≡ true
  check_at-neutralizes none i s e = absurd (ground arith)
  check_at-neutralizes (some j) i s e =
      any_of-append_last (neutralizes i)
        (update_check j "neutral" skip_summary, world.answer s.clock) s.log
        (rw (same_id j i e) refl)

  comment_at-blanks :
      (comment : Option ℤ) (i : ℤ) (s : Flight)
      → comment ≡ some i
      → any_of (blanks i) (neutralize_issue_comment_at world comment s).log ≡ true
  comment_at-blanks none i s e = absurd (ground arith)
  comment_at-blanks (some j) i s e =
      any_of-append_last (blanks i) (update_issue_comment j skip_summary, world.answer s.clock)
        s.log (rw (same_id j i e) refl)

  module _ (ids : List ℤ) (s : Flight) where
    abbrev after : Flight
    after = revert_partial_flush world ids s

    revert-neutralizes :
        (i : ℤ) → s.job.github_check_run_id ≡ some i → any_of (neutralizes i) after.log ≡ true
    unfolding revert_partial_flush
    revert-neutralizes i e =
        delete_all-keeps world (neutralizes i) ids
          (neutralize_issue_comment world (neutralize_check world s))
          (comment_at-keeps (neutralizes i) (neutralize_check world s).job.github_comment_id
            (neutralize_check world s) (check_at-neutralizes s.job.github_check_run_id i s e))

    revert-blanks : (i : ℤ) → s.job.github_comment_id ≡ some i → any_of (blanks i) after.log ≡ true
    unfolding revert_partial_flush
    revert-blanks i e =
        delete_all-keeps world (blanks i) ids
          (neutralize_issue_comment world (neutralize_check world s))
          (comment_at-blanks (neutralize_check world s).job.github_comment_id i
            (neutralize_check world s)
            (view-check (λ s. s.job.github_comment_id) comment-IsSteady.aside world s ∙ e))

    cleared :
        (P : ℤ → Type 0) (known : Option ℤ) (written : Option ℤ)
        → ((i : ℤ) → known ≡ some i → P i)
        → Whenever (λ i. known ≡ some i) written
        → Whenever P written
    cleared P known none clears h = tt
    cleared P known (some i) clears h = clears i h

    pub revert-IsCleared :
        All (IsKnown s.job.github_check_run_id s.job.github_comment_id) s.log
        → All (IsCleared after.log) after.log
    revert-IsCleared h =
        let check = s.job.github_check_run_id in
        let comment = s.job.github_comment_id in
        All-map (IsKnown check comment) (IsCleared after.log) after.log
          (λ e known. (
            cleared (λ i. any_of (neutralizes i) after.log ≡ true) check (written_check e)
                revert-neutralizes known.0,
            cleared (λ i. any_of (blanks i) after.log ≡ true) comment (written_comment e)
                revert-blanks known.1,
          ))
          (revert-All world (IsKnown check comment) (IsKnown-elsewhere check comment) ids s h)
