-- ===== src/Generations/Race.antt =====
-- The worker of a run against the calls that supersede it: every order of the writes of the status.
-- `mark_review_run_failed` reads the row, and then writes it: `failed` is its write in time and `broke`
-- its write when the row has changed since, as well as the writes of `run_review_run` that have no
-- condition. `start_run`, `complete_run` and `supersede_run` are single conditional updates.
use revy.Common.{
  ◌≡◌, refl, ap, ◌∙◌, Bool, true, false, List, [], ◌∷◌, any_of, if◌then◌else◌, ◌⊎◌, arith,
}
use revy.Enums.{GitHubReviewRunStatus}
use revy.Findings.Rows.{ReviewRun}
use revy.Generations.{start_run, complete_run, mark_review_run_failed, break_run, supersede_run}

pub data RunEvent : Type 0 where
  started completed failed broke superseded : RunEvent

abbrev pub write : RunEvent → ReviewRun → ReviewRun
write started r = start_run r
write completed r = complete_run r
write failed r = mark_review_run_failed r
write broke r = break_run r
write superseded r = supersede_run r

abbrev pub writes : List RunEvent → ReviewRun → ReviewRun
writes [] r = r
writes (e ∷ es) r = writes es (write e r)

abbrev pub is_broken : RunEvent → Bool
is_broken broke = true
is_broken _ = false

abbrev pub is_failure : RunEvent → Bool
is_failure failed = true
is_failure broke = true
is_failure _ = false

abbrev pub as_failed : ReviewRun → ReviewRun
as_failed r = record r { status = GitHubReviewRunStatus.failed }

ended_write :
    (r : ReviewRun) (e : RunEvent)
    → (r.status ≡ GitHubReviewRunStatus.completed) ⊎ (r.status ≡ GitHubReviewRunStatus.failed)
    → write e r ≡ (if is_broken e then as_failed r else r)
unfolding start_run complete_run mark_review_run_failed break_run supersede_run
ended_write r started h = ground arith
ended_write r completed h = ground arith
ended_write r failed h = ground arith
ended_write r broke h = refl
ended_write r superseded h = ground arith

-- A run that has failed stays as it is under any writes.
writes-failed : (es : List RunEvent) (r : ReviewRun) → writes es (as_failed r) ≡ as_failed r
unfolding start_run complete_run mark_review_run_failed break_run supersede_run
writes-failed [] r = refl
writes-failed (started ∷ es) r = writes-failed es r
writes-failed (completed ∷ es) r = writes-failed es r
writes-failed (failed ∷ es) r = writes-failed es r
writes-failed (broke ∷ es) r = writes-failed es r
writes-failed (superseded ∷ es) r = writes-failed es r

-- A run that is completed or failed has ended: whatever its worker or a newer generation writes next,
-- in any order, the row stays as it is, or is failed if one of the writes is a failure of the worker
-- that has no condition, or whose condition was read before the run ended.
pub writes-ended :
    (es : List RunEvent) (r : ReviewRun)
    → (r.status ≡ GitHubReviewRunStatus.completed) ⊎ (r.status ≡ GitHubReviewRunStatus.failed)
    → writes es r ≡ (if any_of is_broken es then as_failed r else r)
writes-ended [] r h = refl
writes-ended (broke ∷ es) r h = ap (writes es) (ended_write r broke h) ∙ writes-failed es r
writes-ended (started ∷ es) r h = ap (writes es) (ended_write r started h) ∙ writes-ended es r h
writes-ended (completed ∷ es) r h = ap (writes es) (ended_write r completed h) ∙ writes-ended es r h
writes-ended (failed ∷ es) r h = ap (writes es) (ended_write r failed h) ∙ writes-ended es r h
writes-ended (superseded ∷ es) r h =
    ap (writes es) (ended_write r superseded h) ∙ writes-ended es r h

superseded_write :
    (r : ReviewRun) (e : RunEvent)
    → r.status ≡ GitHubReviewRunStatus.superseded
    → write e r ≡ (if is_failure e then as_failed r else r)
unfolding start_run complete_run mark_review_run_failed break_run supersede_run
superseded_write r started h = ground arith
superseded_write r completed h = ground arith
superseded_write r failed h = ground arith
superseded_write r broke h = refl
superseded_write r superseded h = ground arith

-- A run that is superseded is never started or completed: any order of writes leaves the row as it
-- is, or failed if the worker reports a failure.
pub writes-superseded :
    (es : List RunEvent) (r : ReviewRun)
    → r.status ≡ GitHubReviewRunStatus.superseded
    → writes es r ≡ (if any_of is_failure es then as_failed r else r)
writes-superseded [] r h = refl
writes-superseded (failed ∷ es) r h =
    ap (writes es) (superseded_write r failed h) ∙ writes-failed es r
writes-superseded (broke ∷ es) r h =
    ap (writes es) (superseded_write r broke h) ∙ writes-failed es r
writes-superseded (started ∷ es) r h =
    ap (writes es) (superseded_write r started h) ∙ writes-superseded es r h
writes-superseded (completed ∷ es) r h =
    ap (writes es) (superseded_write r completed h) ∙ writes-superseded es r h
writes-superseded (superseded ∷ es) r h =
    ap (writes es) (superseded_write r superseded h) ∙ writes-superseded es r h
