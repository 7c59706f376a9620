-- ===== src/Findings/Rules.antt =====
-- services/github_finding_closure_rules.py: when a group is closed, reopened or left alone, and the
-- fields that each closure writes.
use revy.Common.{
  ℕ, String, Bool, true, false, not, ◌||◌, Option, none, some, ◌==◌, is_none, if◌then◌else◌,
}
use revy.Enums.{
  GitHubFindingGroupState, GitHubJudgeOutcome, ResolutionMethod, is_active, is_resolved,
  is_dismissed,
}
use revy.Findings.Rows.{Group}

abbrev pub compare_failed_reason : String
compare_failed_reason = "compare_failed"

abbrev pub head_check_failed_reason : String
head_check_failed_reason = "head_check_failed"

unfoldable pub should_close_absent_and_addressed :
    GitHubFindingGroupState → Bool → ℕ → Bool → Option String → Bool
should_close_absent_and_addressed state bound_this_run this_run_finding_count path_gone blocked =
    if not (is_active state)
    then false
    else if bound_this_run
    then false
    else if not (path_gone || this_run_finding_count == 0)
    then false
    else is_none blocked

-- The four columns that every closure and every reopening writes.
pub record ResolutionFields : Type 0 where
  pub state : GitHubFindingGroupState
  pub resolution_method : Option ResolutionMethod
  pub resolved_at_revision_id : Option ℕ
  pub closure_blocked_reason : Option String

-- `for key, value in fields.items(): setattr(group, key, value)`
unfoldable pub set_fields : ResolutionFields → Group → Group
set_fields f g = record g {
  state = f.state;
  resolution_method = f.resolution_method;
  resolved_at_revision_id = f.resolved_at_revision_id;
  closure_blocked_reason = f.closure_blocked_reason;
}

abbrev resolved_fields : ResolutionMethod → ℕ → ResolutionFields
resolved_fields method revision_id = record {
  state = GitHubFindingGroupState.resolved;
  resolution_method = some method;
  resolved_at_revision_id = some revision_id;
  closure_blocked_reason = none;
}

unfoldable pub closure_fields_for_absent_and_addressed : ℕ → ResolutionFields
closure_fields_for_absent_and_addressed = resolved_fields ResolutionMethod.absent_and_addressed

unfoldable pub apply_resolution_method_on_judge_dismiss :
    GitHubJudgeOutcome → ℕ → Option ResolutionFields
apply_resolution_method_on_judge_dismiss outcome revision_id =
    if not (is_dismissed outcome)
    then none
    else some (resolved_fields ResolutionMethod.judge_dismissed revision_id)

unfoldable pub apply_resolution_method_on_verification_dismiss :
    GitHubJudgeOutcome → ℕ → Option ResolutionFields
apply_resolution_method_on_verification_dismiss outcome revision_id =
    if not (is_dismissed outcome)
    then none
    else some (resolved_fields ResolutionMethod.verification_dismissed revision_id)

unfoldable pub apply_resolution_method_on_human_dismiss : ℕ → ResolutionFields
apply_resolution_method_on_human_dismiss = resolved_fields ResolutionMethod.human_dismissed

abbrev is_absent_and_addressed : Option ResolutionMethod → Bool
is_absent_and_addressed (some ResolutionMethod.absent_and_addressed) = true
is_absent_and_addressed _ = false

unfoldable pub should_reopen_absent_and_addressed :
    GitHubFindingGroupState → Option ResolutionMethod → Bool → Bool
should_reopen_absent_and_addressed state resolution_method bound_this_run =
    if not (is_resolved state)
    then false
    else if not (is_absent_and_addressed resolution_method)
    then false
    else bound_this_run

unfoldable pub reopen_fields_for_re_report : ResolutionFields
reopen_fields_for_re_report = record {
  state = GitHubFindingGroupState.active;
  resolution_method = none;
  resolved_at_revision_id = none;
  closure_blocked_reason = none;
}

-- `None` is the method of the rows that were resolved before methods were recorded.
abbrev is_dismissal_or_legacy : Option ResolutionMethod → Bool
is_dismissal_or_legacy none = true
is_dismissal_or_legacy (some ResolutionMethod.judge_dismissed) = true
is_dismissal_or_legacy (some ResolutionMethod.verification_dismissed) = true
is_dismissal_or_legacy (some ResolutionMethod.human_dismissed) = true
is_dismissal_or_legacy _ = false

unfoldable pub should_skip_resolved_group_on_reconcile :
    GitHubFindingGroupState → Option ResolutionMethod → Bool
should_skip_resolved_group_on_reconcile state resolution_method =
    if not (is_resolved state) then false else is_dismissal_or_legacy resolution_method
