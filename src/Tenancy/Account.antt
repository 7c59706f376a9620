-- ===== src/Tenancy/Account.antt =====
-- services/account_lifecycle.py: the deletion of a workspace and of an account. `lower` is Python's
-- `str.lower`, whose tables are those of Unicode.
use Prim.Native.String.{◌++◌}
use revy.Common.{
  ℕ, String, not, ◌&&◌, ◌||◌, Bool, false, Option, none, some, List, [], ◌∷◌, ◌==◌, leb,
  if◌then◌else◌, keep, strip, str_eq, uuid_str, any_of,
}
use revy.Common.Table
use revy.Common.Errors.{
  Result, ok, ◌>>=◌, ◌>>◌, ensure, ensure_some, raise_with, not_found, forbidden, validation,
}
use revy.Enums.{
  WorkspaceStatus, UserStatus, is_admin, is_deleted_workspace, is_deleted_user, is_super_admin,
}
use revy.Tenancy.Rows.{Workspace, Membership, User, Db, record_audit}
use revy.Tenancy.Memberships.{count_workspace_admins}

-- `bool(text)` of an optional text
abbrev pub is_truthy : Option String → Bool
is_truthy none = false
is_truthy (some s) = not (str_eq s "")

abbrev pub is_valid_plan : String → Bool
is_valid_plan plan = str_eq plan "free" || str_eq plan "pro"

-- `effective_plan` of services/billing.py; `None` and the empty text are both free.
unfoldable pub effective_plan : Workspace → String
effective_plan workspace = elim (workspace.plan) [
  | none ↦ "free"
  | some plan ↦ if is_valid_plan plan then plan else "free"
]

unfoldable pub delete_workspace : ℕ → String → ℕ → Option ℕ → Db → Result Db
delete_workspace workspace_id confirm_slug actor_user_id impersonator_user_id db =
    ensure_some (Table.get Workspace.id workspace_id db.workspaces)
      (raise_with not_found "Workspace not found" none)
    >>= λ workspace.
        ensure (not (is_deleted_workspace workspace.status))
          (raise_with not_found "Workspace not found" none)
        >> ensure (str_eq workspace.slug (strip confirm_slug))
            (raise_with validation "Workspace slug confirmation does not match" none)
        >> ensure
            (not
              (str_eq (effective_plan workspace) "pro" && is_truthy workspace.stripe_customer_id))
            (raise_with forbidden "Cancel your subscription before deleting this workspace"
              (some "subscription_active"))
        >> ok (
            record_audit
              (record {
                actor_user_id = actor_user_id;
                impersonator_user_id = impersonator_user_id;
                workspace_id = some workspace_id;
                action = "workspace.deleted";
                resource_type = "workspace";
                resource_id = uuid_str workspace_id;
                metadata = ("slug", workspace.slug) ∷ [];
              })
              (record db {
                workspaces =
                    Table.update Workspace.id workspace_id
                      (λ w. record w { status = WorkspaceStatus.deleted }) db.workspaces;
                memberships = keep (λ m. not (m.workspace_id == workspace_id)) db.memberships;
              }))

-- The loop over the admin memberships of the user, with the workspaces checked so far.
unfoldable pub check_admin_workspaces : Db → List ℕ → List Membership → Result (Unit {0})
check_admin_workspaces db checked [] = ok tt
check_admin_workspaces db checked (m ∷ ms) =
    let skip = check_admin_workspaces db checked ms in
    let rest = check_admin_workspaces db (m.workspace_id ∷ checked) ms in
    if any_of (λ i. i == m.workspace_id) checked
    then skip
    else ensure_some (Table.get Workspace.id m.workspace_id db.workspaces)
        (raise_with not_found "Workspace not found" none)
      >>= λ workspace.
          ensure (not (leb (count_workspace_admins db m.workspace_id) 1)) (
            raise_with forbidden
              "You are the only admin of a workspace. Transfer admin role or delete the workspace first."
              (some "sole_workspace_admin"))
          >> rest

unfoldable pub assert_not_sole_workspace_admin : Db → ℕ → Result (Unit {0})
assert_not_sole_workspace_admin db user_id =
    check_admin_workspaces db []
      (keep (λ m. m.user_id == user_id && is_admin m.role) db.memberships)

-- The user row that a deletion leaves.
unfoldable pub deleted_user : User → User
deleted_user user = record user {
  status = UserStatus.deleted;
  email = "deleted+" ++ uuid_str user.id ++ "@revy.invalid";
  full_name = none;
}

module _ (lower : String → String) where
  unfoldable pub delete_account : ℕ → String → Option ℕ → Db → Result Db
  delete_account user_id confirm_email impersonator_user_id db =
      ensure_some (Table.get User.id user_id db.users) (raise_with not_found "User not found" none)
      >>= λ user.
          ensure (not (is_deleted_user user.status)) (raise_with not_found "User not found" none)
          >> ensure (str_eq (lower user.email) (lower (strip confirm_email)))
              (raise_with validation "Email confirmation does not match" none)
          >> ensure (not (is_super_admin user.platform_role)) (
              raise_with forbidden "Platform administrators cannot delete their account via the app"
                (some "platform_admin_protected"))
          >> assert_not_sole_workspace_admin db user_id
          >> ok (
              record_audit
                (record {
                  actor_user_id = user_id;
                  impersonator_user_id = impersonator_user_id;
                  workspace_id = none;
                  action = "user.deleted";
                  resource_type = "user";
                  resource_id = uuid_str user_id;
                  metadata = [];
                })
                (record db {
                  users = Table.update User.id user_id deleted_user db.users;
                  memberships = keep (λ m. not (m.user_id == user_id)) db.memberships;
                }))
