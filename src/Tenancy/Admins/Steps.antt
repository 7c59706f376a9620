-- ===== src/Tenancy/Admins/Steps.antt =====
-- Runs of the service: any sequence of the operations on members, accounts and invitations.
use revy.Common.{ℕ, String, Bool, Option, ◌≡◌}
use revy.Common.Errors.{ok}
use revy.Enums.{AppRole}
use revy.Tenancy.Rows.{Membership, User, Invitation, Db}
use revy.Tenancy.Memberships.{update_member_role, remove_member, leave_workspace}
use revy.Tenancy.Account.{delete_workspace, delete_account}
use revy.Tenancy.Invitations.{accept_invitation, create_invitation, revoke_invitation}
use revy.Tenancy.Admins.{IsTenancy}
use revy.Tenancy.Admins.Members.{
  update_member_role-IsTenancy, remove_member-IsTenancy, leave_workspace-IsTenancy,
}
use revy.Tenancy.Admins.Accounts.{delete_workspace-IsTenancy, delete_account-IsTenancy}
use revy.Tenancy.Admins.Invitees.{
  accept_invitation-IsTenancy, create_invitation-IsTenancy, revoke_invitation-IsTenancy,
}

module _ (lower : String → String) (ilike : String → String → Bool) where
  -- One call that went through.
  pub data Step (db db' : Db) : Type 0 where
    role_updated :
        (workspace_id user_id : ℕ) (role : AppRole) (actor impersonator : Option ℕ) (m : Membership)
        → update_member_role workspace_id user_id role actor impersonator db ≡ ok (db', m)
        → Step db db'
    member_removed :
        (workspace_id user_id : ℕ) (actor impersonator : Option ℕ)
        → remove_member workspace_id user_id actor impersonator db ≡ ok db'
        → Step db db'
    workspace_left :
        (workspace_id user_id : ℕ) (impersonator : Option ℕ)
        → leave_workspace workspace_id user_id impersonator db ≡ ok db'
        → Step db db'
    workspace_deleted :
        (workspace_id : ℕ) (slug : String) (actor : ℕ) (impersonator : Option ℕ)
        → delete_workspace workspace_id slug actor impersonator db ≡ ok db'
        → Step db db'
    account_deleted :
        (user_id : ℕ) (email : String) (impersonator : Option ℕ)
        → delete_account lower user_id email impersonator db ≡ ok db'
        → Step db db'
    invitation_created :
        (token : String) (workspace_id : ℕ) (email : String) (role : AppRole) (by : ℕ)
        (impersonator : Option ℕ) (now : ℕ) (i : Invitation)
        → create_invitation lower ilike token workspace_id email role by impersonator now db
          ≡ ok (db', i)
        → Step db db'
    invitation_accepted :
        (token : String) (user : User) (now : ℕ) (m : Membership)
        → accept_invitation lower token user now db ≡ ok (db', m)
        → Step db db'
    invitation_revoked :
        (workspace_id invitation_id : ℕ) (actor impersonator : Option ℕ) (i : Invitation)
        → revoke_invitation workspace_id invitation_id actor impersonator db ≡ ok (db', i)
        → Step db db'

  pub data Run (db : Db) : Db → Type 0 where
    start : Run db db
    then_step : {mid db' : Db} → Run db mid → Step mid db' → Run db db'

  Step-IsTenancy : (db db' : Db) → Step db db' → IsTenancy db → IsTenancy db'
  Step-IsTenancy db db' (role_updated w u role a i m h) t =
      update_member_role-IsTenancy db w u role a i db' m t h
  Step-IsTenancy db db' (member_removed w u a i h) t = remove_member-IsTenancy db w u a i db' t h
  Step-IsTenancy db db' (workspace_left w u i h) t = leave_workspace-IsTenancy db w u i db' t h
  Step-IsTenancy db db' (workspace_deleted w s a i h) t =
      delete_workspace-IsTenancy w s a i db db' t h
  Step-IsTenancy db db' (account_deleted u e i h) t =
      delete_account-IsTenancy lower u e i db db' t h
  Step-IsTenancy db db' (invitation_created token w e r by i now row h) t =
      create_invitation-IsTenancy lower ilike token w e r by i now db db' row t h
  Step-IsTenancy db db' (invitation_accepted token u now m h) t =
      accept_invitation-IsTenancy lower token u now db db' m t h
  Step-IsTenancy db db' (invitation_revoked w v a i row h) t =
      revoke_invitation-IsTenancy w v a i db db' row t h

  -- After any sequence of calls, from a state in which they hold: membership keys are distinct and
  -- below the next one, a user has one membership at most in a workspace, and every workspace that is
  -- not deleted has an admin.
  pub Run-IsTenancy : (db db' : Db) → Run db db' → IsTenancy db → IsTenancy db'
  Run-IsTenancy db _ start t = t
  Run-IsTenancy db db' (then_step {mid = mid} before step) t =
      Step-IsTenancy mid db' step (Run-IsTenancy db mid before t)
