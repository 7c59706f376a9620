-- ===== src/Tenancy/Memberships.antt =====
-- services/memberships.py and `leave_workspace` of services/account_lifecycle.py: the members of a
-- workspace, their roles, and the guard that keeps an admin in it.
use revy.Common.{
  ℕ, String, Bool, true, not, ◌&&◌, Option, none, some, List, [], ◌∷◌, ◌==◌, leb, if◌then◌else◌,
  find, count_if, uuid_str,
}
use revy.Common.Table
use revy.Common.Errors.{
  Result, ok, ◌>>=◌, ◌>>◌, ensure, ensure_some, raise_with, not_found, forbidden,
}
use revy.Enums.{AppRole, is_admin, role_eq, role_value}
use revy.Tenancy.Rows.{Workspace, Membership, AuditLog, Db, record_audit}

abbrev pub is_admin_of : ℕ → Membership → Bool
is_admin_of workspace_id m = m.workspace_id == workspace_id && is_admin m.role

unfoldable pub count_workspace_admins : Db → ℕ → ℕ
count_workspace_admins db workspace_id = count_if (is_admin_of workspace_id) db.memberships

unfoldable pub assert_not_last_admin : Db → ℕ → Membership → Result (Unit {0})
assert_not_last_admin db workspace_id membership =
    if not (is_admin membership.role)
    then ok tt
    else ensure_some (Table.get Workspace.id workspace_id db.workspaces)
        (raise_with not_found "Workspace not found" none)
      >>= λ workspace. ensure (not (leb (count_workspace_admins db workspace_id) 1)) (
          raise_with forbidden "Cannot remove or demote the last workspace admin"
            (some "last_workspace_admin"))

abbrev pub is_member : ℕ → ℕ → Membership → Bool
is_member user_id workspace_id m = m.user_id == user_id && m.workspace_id == workspace_id

unfoldable pub get_membership : ℕ → ℕ → Db → Result Membership
get_membership workspace_id user_id db =
    ensure_some (find (is_member user_id workspace_id) db.memberships)
      (raise_with not_found "Member not found" none)

-- `if actor_user_id is not None and test: await record_audit(...)`
abbrev pub record_audit_if : Option ℕ → Bool → (ℕ → AuditLog) → Db → Db
record_audit_if none test row db = db
record_audit_if (some actor) test row db = if test then record_audit (row actor) db else db

abbrev member_audit : String → ℕ → ℕ → Option ℕ → List (String × String) → ℕ → AuditLog
member_audit action workspace_id user_id impersonator_user_id metadata actor = record {
  actor_user_id = actor;
  impersonator_user_id = impersonator_user_id;
  workspace_id = some workspace_id;
  action = action;
  resource_type = "workspace_member";
  resource_id = uuid_str user_id;
  metadata = ("user_id", uuid_str user_id) ∷ metadata;
}

-- `membership.role = role`
unfoldable pub set_role : ℕ → AppRole → Db → Db
set_role membership_id role db = record db {
  memberships =
      Table.update Membership.id membership_id (λ m. record m { role = role }) db.memberships;
}

-- `session.delete(membership)`
unfoldable pub delete_membership : ℕ → Db → Db
delete_membership membership_id db = record db {
  memberships = Table.delete Membership.id membership_id db.memberships;
}

-- The guard of `update_member_role`: only the demotion of an admin is checked.
abbrev pub assert_may_take_role : Db → ℕ → Membership → AppRole → Result (Unit {0})
assert_may_take_role db workspace_id membership role =
    if is_admin membership.role && not (is_admin role)
    then assert_not_last_admin db workspace_id membership
    else ok tt

unfoldable pub update_member_role :
    ℕ → ℕ → AppRole → Option ℕ → Option ℕ → Db → Result (Db × Membership)
update_member_role workspace_id user_id role actor_user_id impersonator_user_id db =
    get_membership workspace_id user_id db >>= λ membership.
    assert_may_take_role db workspace_id membership role
    >> ok (
      record_audit_if actor_user_id (not (role_eq membership.role role))
          (member_audit "workspace_member.role_changed" workspace_id user_id impersonator_user_id
            (("old_role", role_value membership.role) ∷ ("new_role", role_value role) ∷ []))
          (set_role membership.id role db),
      record membership { role = role },
    )

unfoldable pub remove_member : ℕ → ℕ → Option ℕ → Option ℕ → Db → Result Db
remove_member workspace_id user_id actor_user_id impersonator_user_id db =
    get_membership workspace_id user_id db >>= λ membership.
    assert_not_last_admin db workspace_id membership
    >> ok (
        record_audit_if actor_user_id true
          (member_audit "workspace_member.removed" workspace_id user_id impersonator_user_id
            (("role", role_value membership.role) ∷ []))
          (delete_membership membership.id db))

unfoldable pub leave_workspace : ℕ → ℕ → Option ℕ → Db → Result Db
leave_workspace workspace_id user_id impersonator_user_id db =
    get_membership workspace_id user_id db >>= λ membership.
    assert_not_last_admin db workspace_id membership
    >> ok (
        record_audit
          (record {
            actor_user_id = user_id;
            impersonator_user_id = impersonator_user_id;
            workspace_id = some workspace_id;
            action = "workspace.left";
            resource_type = "workspace";
            resource_id = uuid_str workspace_id;
            metadata = [];
          })
          (delete_membership membership.id db))
