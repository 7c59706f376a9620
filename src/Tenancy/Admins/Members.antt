-- ===== src/Tenancy/Admins/Members.antt =====
-- The three operations on members keep the constraints and an admin in every workspace.
use revy.Common.{
  ℕ, ◌≤◌, ◌<◌, ◌≡◌, ◌≢◌, subst, Bool, true, false, not, some, none, Option, List, arith, ◌==◌, All,
  All-map, All-keep_of, Has, inl, inr,
}
use revy.Common.Table
use revy.Common.Errors.{ok, Result-cases, ok_injective}
use revy.Enums.{AppRole, is_admin}
use revy.Tenancy.Rows.{Workspace, Membership, AuditLog, Db, record_audit}
use revy.Tenancy.Memberships.{
  count_workspace_admins, assert_not_last_admin, get_membership, set_role, delete_membership,
  record_audit_if, assert_may_take_role, update_member_role, remove_member, leave_workspace,
}
use revy.Tenancy.Admins.{
  IsTenancy, IsAdministered, OtherMember, get_membership_ok, delete-keeps_admin,
  set_role-keeps_admin,
}

-- Workspaces keep their admins in a state that has as many.
pub admins_of :
    (db db' : Db) (ws : List Workspace)
    → ((w : ℕ) → 1 ≤ count_workspace_admins db w → 1 ≤ count_workspace_admins db' w)
    → All (IsAdministered db) ws
    → All (IsAdministered db') ws
admins_of db db' ws keeps h =
    All-map (IsAdministered db) (IsAdministered db') ws
      (λ w a. elim a [ inl gone ↦ inl gone | inr one ↦ inr (keeps w.id one) ]) h

pub record_audit-IsTenancy :
    (row : AuditLog) (db : Db) → IsTenancy db → IsTenancy (record_audit row db)
unfolding record_audit count_workspace_admins
record_audit-IsTenancy row db t = record {
  ids = t.ids;
  fresh = t.fresh;
  members = t.members;
  admins = t.admins;
}

pub record_audit_if-IsTenancy :
    (actor : Option ℕ) (test : Bool) (row : ℕ → AuditLog) (db : Db)
    → IsTenancy db
    → IsTenancy (record_audit_if actor test row db)
record_audit_if-IsTenancy none test row db t = t
record_audit_if-IsTenancy (some actor) true row db t = record_audit-IsTenancy (row actor) db t
record_audit_if-IsTenancy (some actor) false row db t = t

module _ (db : Db) (workspace_id : ℕ) (m : Membership) (t : IsTenancy db) where
  delete_membership-IsTenancy :
      Has m db.memberships
      → m.workspace_id ≡ workspace_id
      → assert_not_last_admin db workspace_id m ≡ ok tt
      → IsTenancy (delete_membership m.id db)
  unfolding delete_membership
  delete_membership-IsTenancy row mine allowed = record {
    ids = Table.keep-IsPairwise (λ x y. x.id ≢ y.id) (λ x. not (x.id == m.id)) db.memberships t.ids;
    fresh = All-keep_of (λ x. x.id < db.next_id) (λ x. not (x.id == m.id)) db.memberships t.fresh;
    members = Table.keep-IsPairwise OtherMember (λ x. not (x.id == m.id)) db.memberships t.members;
    admins =
        admins_of db (delete_membership m.id db) db.workspaces
          (λ w. delete-keeps_admin db workspace_id m w t.ids row mine allowed) t.admins;
  }

  set_role-IsTenancy :
      (role : AppRole)
      → Has m db.memberships
      → m.workspace_id ≡ workspace_id
      → (is_admin m.role ≡ true
          → is_admin role ≡ false
          → assert_not_last_admin db workspace_id m ≡ ok tt)
      → IsTenancy (set_role m.id role db)
  unfolding set_role
  set_role-IsTenancy role row mine allowed = record {
    ids =
        Table.update-IsPairwise Membership.id (λ x y. x.id ≢ y.id) m.id
          (λ x. record x { role = role }) db.memberships (λ x y apart. apart) (λ x y apart. apart)
          t.ids;
    fresh =
        Table.All-update Membership.id (λ x. x.id < db.next_id) m.id (λ x. record x { role = role })
          db.memberships (λ x n same below. below) t.fresh;
    members =
        Table.update-IsPairwise Membership.id OtherMember m.id (λ x. record x { role = role })
          db.memberships (λ x y apart. apart) (λ x y apart. apart) t.members;
    admins =
        admins_of db (set_role m.id role db) db.workspaces
          (λ w. set_role-keeps_admin db workspace_id m w role t.ids row mine allowed) t.admins;
  }

-- What an operation that went through was allowed to do, and the row that it wrote.
module _ (db : Db) (workspace_id user_id : ℕ) where
  pub update_member_role-IsTenancy :
      (role : AppRole) (actor impersonator : Option ℕ) (db' : Db) (m' : Membership)
      → IsTenancy db
      → update_member_role workspace_id user_id role actor impersonator db ≡ ok (db', m')
      → IsTenancy db'
  unfolding update_member_role
  update_member_role-IsTenancy role actor impersonator db' m' t h =
      elim (Result-cases (get_membership workspace_id user_id db)) [
        | inl (e, there) ↦ absurd (ground arith)
        | inr (m, there) ↦ elim (Result-cases (assert_may_take_role db workspace_id m role)) [
          | inl (e, refused) ↦ absurd (ground arith)
          | inr (u, allowed) ↦
              let (row, member, mine) = get_membership_ok db workspace_id user_id m there in
              subst (λ (r : Db × Membership). IsTenancy r.0)
                (ok_injective (rw (there, allowed) at h))
                (record_audit_if-IsTenancy actor _ _ (set_role m.id role db)
                  (set_role-IsTenancy db workspace_id m t role row mine (λ a d. ground arith)))
        ]
      ]

  pub remove_member-IsTenancy :
      (actor impersonator : Option ℕ) (db' : Db)
      → IsTenancy db
      → remove_member workspace_id user_id actor impersonator db ≡ ok db'
      → IsTenancy db'
  unfolding remove_member
  remove_member-IsTenancy actor impersonator db' t h =
      elim (Result-cases (get_membership workspace_id user_id db)) [
        | inl (e, there) ↦ absurd (ground arith)
        | inr (m, there) ↦ elim (Result-cases (assert_not_last_admin db workspace_id m)) [
          | inl (e, refused) ↦ absurd (ground arith)
          | inr (u, allowed) ↦
              let (row, member, mine) = get_membership_ok db workspace_id user_id m there in
              subst IsTenancy (ok_injective (rw (there, allowed) at h)) (
                record_audit_if-IsTenancy actor true _ (delete_membership m.id db)
                  (delete_membership-IsTenancy db workspace_id m t row mine allowed))
        ]
      ]

  pub leave_workspace-IsTenancy :
      (impersonator : Option ℕ) (db' : Db)
      → IsTenancy db
      → leave_workspace workspace_id user_id impersonator db ≡ ok db'
      → IsTenancy db'
  unfolding leave_workspace
  leave_workspace-IsTenancy impersonator db' t h =
      elim (Result-cases (get_membership workspace_id user_id db)) [
        | inl (e, there) ↦ absurd (ground arith)
        | inr (m, there) ↦ elim (Result-cases (assert_not_last_admin db workspace_id m)) [
          | inl (e, refused) ↦ absurd (ground arith)
          | inr (u, allowed) ↦
              let (row, member, mine) = get_membership_ok db workspace_id user_id m there in
              subst IsTenancy (ok_injective (rw (there, allowed) at h)) (
                record_audit-IsTenancy _ (delete_membership m.id db)
                  (delete_membership-IsTenancy db workspace_id m t row mine allowed))
        ]
      ]
