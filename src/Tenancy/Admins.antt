-- ===== src/Tenancy/Admins.antt =====
-- The guard of the last admin: every workspace that is not deleted keeps an admin, whatever the
-- members, the invitees and the deletions do.
pub mod Members
pub mod Accounts
pub mod Invitees
pub mod Steps
use revy.Common.{
  subst, ℕ, suc, ◌≤◌, ◌<◌, ◌≡◌, ◌≢◌, refl, sym, Bool, true, false, not, some, none, List, [], ◌∷◌,
  ◌++◌, arith, ◌==◌, All, All-map, All-keep, All-of_Has, All-keep_of, Has, find, find-Has,
  find-none, keep, count_if, Option-cases, Bool-cases, inl, inr, ◌⊎◌,
}
use revy.Common.Table
use revy.Common.Table.Counts.{
  count_if-append, count_if-keep, count_if-keep_one, count_if-update, count_if-update_one,
  count_if-delete, count_if-delete_one,
}
use revy.Common.Errors.{ok}
use revy.Enums.{AppRole, WorkspaceStatus, is_admin}
use revy.Tenancy.Rows.{Workspace, Membership, Db}
use revy.Tenancy.Memberships.{
  is_admin_of, is_member, count_workspace_admins, assert_not_last_admin, get_membership, set_role,
  delete_membership,
}

-- Two memberships of different users or of different workspaces.
abbrev pub OtherMember : Membership → Membership → Type 0
OtherMember x y = x.user_id ≡ y.user_id → x.workspace_id ≢ y.workspace_id

abbrev pub IsAdministered : Db → Workspace → Type 0
IsAdministered db w = (w.status ≡ WorkspaceStatus.deleted) ⊎ (1 ≤ count_workspace_admins db w.id)

-- The constraints of the table of memberships, and an admin in every workspace that is not deleted.
pub record IsTenancy (db : Db) : Type 0 where
  pub ids : Table.IsUnique Membership.id db.memberships
  pub fresh : Table.Below Membership.id db.next_id db.memberships
  pub members : Table.IsPairwise OtherMember db.memberships
  pub admins : All (IsAdministered db) db.workspaces

-- A membership that the guard lets go leaves another admin in its workspace.
pub assert_not_last_admin_ok :
    (db : Db) (workspace_id : ℕ) (m : Membership)
    → assert_not_last_admin db workspace_id m ≡ ok tt
    → (is_admin m.role ≡ false) ⊎ (2 ≤ count_workspace_admins db workspace_id)
unfolding assert_not_last_admin
assert_not_last_admin_ok db workspace_id m h = elim (Bool-cases (is_admin m.role)) [
  | inl admin ↦ elim (Option-cases (Table.get Workspace.id workspace_id db.workspaces)) [
    | inl missing ↦ absurd (ground arith)
    | inr (w, there) ↦ inr (ground arith)
  ]
  | inr other ↦ inl other
]

pub get_membership_ok :
    (db : Db) (workspace_id user_id : ℕ) (m : Membership)
    → get_membership workspace_id user_id db ≡ ok m
    → Has m db.memberships × (m.user_id ≡ user_id) × (m.workspace_id ≡ workspace_id)
unfolding get_membership
get_membership_ok db workspace_id user_id m h =
    ground (arith, find-Has (is_member user_id workspace_id) db.memberships {x = m})

module _ (db : Db) (workspace_id : ℕ) (m : Membership) where
  counts-two :
      (w : ℕ)
      → m.workspace_id ≡ workspace_id
      → assert_not_last_admin db workspace_id m ≡ ok tt
      → is_admin_of w m ≡ true
      → 2 ≤ count_workspace_admins db w
  counts-two w mine allowed counted = elim (assert_not_last_admin_ok db workspace_id m allowed) [
    | inl other ↦ absurd (ground arith)
    | inr two ↦ subst (λ v. 2 ≤ count_workspace_admins db v) (ground arith) two
  ]

  -- Deleting the membership keeps the admins of every workspace, if the guard allows it.
  pub delete-keeps_admin :
      (w : ℕ)
      → Table.IsUnique Membership.id db.memberships
      → Has m db.memberships
      → m.workspace_id ≡ workspace_id
      → assert_not_last_admin db workspace_id m ≡ ok tt
      → 1 ≤ count_workspace_admins db w
      → 1 ≤ count_workspace_admins (delete_membership m.id db) w
  unfolding count_workspace_admins delete_membership
  delete-keeps_admin w unique row mine allowed h = elim (Bool-cases (is_admin_of w m)) [
    | inl counted ↦
        let two = counts-two w mine allowed counted in
        let drop = count_if-delete_one (is_admin_of w) Membership.id m.id db.memberships unique in
        omega arith
    | inr other ↦
        subst (λ n. 1 ≤ n)
          (sym (count_if-delete (is_admin_of w) Membership.id m db.memberships unique row other)) h
  ]

  -- So does a change of its role, which the guard sees when an admin is demoted.
  pub set_role-keeps_admin :
      (w : ℕ) (role : AppRole)
      → Table.IsUnique Membership.id db.memberships
      → Has m db.memberships
      → m.workspace_id ≡ workspace_id
      → (is_admin m.role ≡ true
          → is_admin role ≡ false
          → assert_not_last_admin db workspace_id m ≡ ok tt)
      → 1 ≤ count_workspace_admins db w
      → 1 ≤ count_workspace_admins (set_role m.id role db) w
  unfolding count_workspace_admins set_role
  set_role-keeps_admin w role unique row mine allowed h = elim (Bool-cases (is_admin_of w m)) [
    | inl counted ↦ elim (Bool-cases (is_admin role)) [
      | inl promoted ↦
          let more =
            count_if-update (is_admin_of w) Membership.id m.id (λ x. record x { role = role })
              db.memberships (All-of_Has _ db.memberships (λ x n same admin. ground arith)) in
          omega arith
      | inr demoted ↦
          let two = counts-two w mine (allowed (ground arith) demoted) counted in
          let drop =
            count_if-update_one (is_admin_of w) Membership.id m.id (λ x. record x { role = role })
              db.memberships unique in
          omega arith
    ]
    | inr other ↦
        let more =
          count_if-update (is_admin_of w) Membership.id m.id (λ x. record x { role = role })
            db.memberships
            (All-of_Has _ db.memberships (λ x n same admin. absurd (
              cc (
                admin,
                other,
                Table.unique_rows Membership.id x m db.memberships unique n row same,
              )))) in
        omega arith
  ]
