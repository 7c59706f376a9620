-- ===== src/Tenancy/Samples.antt =====
-- A workspace with an admin and a viewer, and a user who has been invited.
use revy.Common.{ℕ, String, Bool, some, none, [], ◌∷◌, str_eq}
use revy.Enums.{AppRole, WorkspaceStatus, UserStatus, InvitationStatus}
use revy.Tenancy.Rows.{Workspace, Membership, User, Invitation, Db}

abbrev pub same_case : String → String
same_case s = s

abbrev pub exactly : String → String → Bool
exactly s pattern = str_eq s pattern

abbrev pub acme : Workspace
acme = record {
  id = 1;
  slug = "acme";
  status = WorkspaceStatus.active;
  plan = some "free";
  stripe_customer_id = some "cus_1";
  completed_review_runs = 24;
  review_run_limit = some 25;
}

abbrev pub ann_in_acme : Membership
ann_in_acme = record { id = 11; user_id = 21; workspace_id = 1; role = AppRole.admin }

abbrev pub bob_in_acme : Membership
bob_in_acme = record { id = 12; user_id = 22; workspace_id = 1; role = AppRole.viewer }

abbrev pub user : ℕ → String → User
user id email = record {
  id = id;
  email = email;
  full_name = none;
  status = UserStatus.active;
  platform_role = none;
}

abbrev pub cat : User
cat = user 23 "cat@b.c"

abbrev pub cats_invitation : Invitation
cats_invitation = record {
  id = 31;
  workspace_id = 1;
  email = "cat@b.c";
  role = AppRole.operator;
  token = "t1";
  invited_by_user_id = 21;
  status = InvitationStatus.pending;
  expires_at = 100;
  accepted_at = none;
}

abbrev pub sample : Db
sample = record {
  workspaces = acme ∷ [];
  memberships = ann_in_acme ∷ bob_in_acme ∷ [];
  users = user 21 "ann@b.c" ∷ user 22 "bob@b.c" ∷ cat ∷ [];
  invitations = cats_invitation ∷ [];
  audit_logs = [];
  next_id = 40;
}
