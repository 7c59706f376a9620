-- ===== src/Tenancy/Rows.antt =====
-- models/workspaces.py, models/workspace_memberships.py, models/users.py, models/invitations.py and
-- the audit log: the columns that the tenancy services read and write. A UUID is a number, and a time
-- is in microseconds since the epoch.
use revy.Common.{ℕ, String, Option, List, [], ◌∷◌, ◌++◌}
use revy.Enums.{AppRole, PlatformRole, WorkspaceStatus, UserStatus, InvitationStatus}

pub record Workspace : Type 0 where
  pub id : ℕ
  pub slug : String
  pub status : WorkspaceStatus
  pub plan : Option String
  pub stripe_customer_id : Option String
  pub completed_review_runs : ℕ
  pub review_run_limit : Option ℕ

pub record Membership : Type 0 where
  pub id : ℕ
  pub user_id : ℕ
  pub workspace_id : ℕ
  pub role : AppRole

pub record User : Type 0 where
  pub id : ℕ
  pub email : String
  pub full_name : Option String
  pub status : UserStatus
  pub platform_role : Option PlatformRole

pub record Invitation : Type 0 where
  pub id : ℕ
  pub workspace_id : ℕ
  pub email : String
  pub role : AppRole
  pub token : String
  pub invited_by_user_id : ℕ
  pub status : InvitationStatus
  pub expires_at : ℕ
  pub accepted_at : Option ℕ

pub record AuditLog : Type 0 where
  pub actor_user_id : ℕ
  pub impersonator_user_id : Option ℕ
  pub workspace_id : Option ℕ
  pub action : String
  pub resource_type : String
  pub resource_id : String
  pub metadata : List (String × String)

pub record Db : Type 0 where
  pub workspaces : List Workspace
  pub memberships : List Membership
  pub users : List User
  pub invitations : List Invitation
  pub audit_logs : List AuditLog
  pub next_id : ℕ

-- services/audit_service.py
unfoldable pub record_audit : AuditLog → Db → Db
record_audit row db = record db { audit_logs = db.audit_logs ++ row ∷ [] }
