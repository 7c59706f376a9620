-- ===== src/Enums.antt =====
-- constants/enums.py: the enums of the rows that the development models, with `==` and the stored
-- value where the code compares or prints them.
use revy.Common.{Option, none, some, ℕ, String, ◌≡◌, Bool, true, false, arith, ◌==◌}

pub data AppRole : Type 0 where
  admin operator viewer : AppRole

pub data PlatformRole : Type 0 where
  super_admin : PlatformRole

pub data WorkspaceStatus : Type 0 where
  active suspended deleted : WorkspaceStatus

pub data UserStatus : Type 0 where
  pending_activation pending_email_verification pending_profile pending_approval : UserStatus
  active rejected suspended deleted : UserStatus

pub data InvitationStatus : Type 0 where
  pending accepted revoked expired : InvitationStatus

-- The tests and values of these enums that the tenancy services use.
abbrev pub is_admin : AppRole → Bool
is_admin admin = true
is_admin _ = false

abbrev role_place : AppRole → ℕ
role_place admin = 0
role_place operator = 1
role_place viewer = 2

abbrev pub role_eq : AppRole → AppRole → Bool
role_eq r s = role_place r == role_place s

-- `role.value`
abbrev pub role_value : AppRole → String
role_value admin = "admin"
role_value operator = "operator"
role_value viewer = "viewer"

abbrev pub is_deleted_workspace : WorkspaceStatus → Bool
is_deleted_workspace WorkspaceStatus.deleted = true
is_deleted_workspace _ = false

abbrev pub is_deleted_user : UserStatus → Bool
is_deleted_user UserStatus.deleted = true
is_deleted_user _ = false

-- `platform_role == PlatformRole.super_admin`
abbrev pub is_super_admin : Option PlatformRole → Bool
is_super_admin none = false
is_super_admin (some super_admin) = true

-- `_INVITATION_ACCEPT_BLOCKED_STATUSES` of services/invitations.py
abbrev pub blocks_acceptance : UserStatus → Bool
blocks_acceptance UserStatus.active = false
blocks_acceptance UserStatus.deleted = false
blocks_acceptance _ = true

abbrev pub is_pending_invitation : InvitationStatus → Bool
is_pending_invitation InvitationStatus.pending = true
is_pending_invitation _ = false

pub data GitHubReviewRunStatus : Type 0 where
  pending processing completed failed superseded : GitHubReviewRunStatus

-- `open_` is `open`, a word of the language.
pub data GitHubPullRequestState : Type 0 where
  open_ closed : GitHubPullRequestState

pub data GitHubRepositoryStatus : Type 0 where
  active removed : GitHubRepositoryStatus

pub data GitHubIndexJobStatus : Type 0 where
  pending processing completed failed : GitHubIndexJobStatus

pub data GitHubIndexJobTriggerSource : Type 0 where
  manual autostart command : GitHubIndexJobTriggerSource

pub data GitHubPublishJobStatus : Type 0 where
  pending processing completed failed skipped_not_head skipped_superseded : GitHubPublishJobStatus

pub data ResolutionStatus : Type 0 where
  addressed still_open judge_dismissed : ResolutionStatus

pub data ResolutionMethod : Type 0 where
  absent_and_addressed judge_dismissed verification_dismissed human_dismissed : ResolutionMethod
  head_contradiction : ResolutionMethod

pub data FindingSeverity : Type 0 where
  info warning error critical : FindingSeverity

pub data FindingCategory : Type 0 where
  security bug performance style maintainability other : FindingCategory

pub data GitHubFindingGroupState : Type 0 where
  active superseded resolved : GitHubFindingGroupState

pub data GitHubJudgeOutcome : Type 0 where
  upheld dismissed modified : GitHubJudgeOutcome

pub data JudgePurpose : Type 0 where
  discovery verification : JudgePurpose

-- `stored_enum_value(category)`
abbrev pub category_value : FindingCategory → String
category_value security = "security"
category_value bug = "bug"
category_value performance = "performance"
category_value style = "style"
category_value maintainability = "maintainability"
category_value other = "other"

-- The place of a member in its enum; `==` on members is `==` on places.
abbrev category_place : FindingCategory → ℕ
category_place security = 0
category_place bug = 1
category_place performance = 2
category_place style = 3
category_place maintainability = 4
category_place other = 5

unfoldable pub category_eq : FindingCategory → FindingCategory → Bool
category_eq a b = category_place a == category_place b

pub category_eq→eq : (a b : FindingCategory) → category_eq a b ≡ true → a ≡ b
unfolding category_eq
category_eq→eq a b h = ground arith

pub category_eq_refl : (a : FindingCategory) → category_eq a a ≡ true
unfolding category_eq
category_eq_refl a = ground arith

abbrev pub is_active : GitHubFindingGroupState → Bool
is_active active = true
is_active _ = false

abbrev pub is_resolved : GitHubFindingGroupState → Bool
is_resolved resolved = true
is_resolved _ = false

abbrev pub is_completed_run : GitHubReviewRunStatus → Bool
is_completed_run completed = true
is_completed_run _ = false

abbrev pub is_completed_publish : GitHubPublishJobStatus → Bool
is_completed_publish completed = true
is_completed_publish _ = false

abbrev pub is_dismissed : GitHubJudgeOutcome → Bool
is_dismissed dismissed = true
is_dismissed _ = false

abbrev pub is_open : GitHubPullRequestState → Bool
is_open open_ = true
is_open closed = false

abbrev pub is_active_repository : GitHubRepositoryStatus → Bool
is_active_repository GitHubRepositoryStatus.active = true
is_active_repository GitHubRepositoryStatus.removed = false

abbrev pub is_superseded : GitHubFindingGroupState → Bool
is_superseded superseded = true
is_superseded _ = false

pub data GitHubIndexMode : Type 0 where
  diff full : GitHubIndexMode

pub data PipelineStepType : Type 0 where
  index retrieve review reconcile judge publish : PipelineStepType

pub data PipelineStepStatus : Type 0 where
  pending processing completed failed : PipelineStepStatus

pub data PipelineArtifactKind : Type 0 where
  manifest prompt raw_response parse_report summary_markdown retrieval_hits : PipelineArtifactKind

abbrev step_type_place : PipelineStepType → ℕ
step_type_place index = 0
step_type_place retrieve = 1
step_type_place review = 2
step_type_place reconcile = 3
step_type_place judge = 4
step_type_place publish = 5

abbrev pub step_type_eq : PipelineStepType → PipelineStepType → Bool
step_type_eq a b = step_type_place a == step_type_place b

abbrev pub is_manifest : PipelineArtifactKind → Bool
is_manifest manifest = true
is_manifest _ = false
