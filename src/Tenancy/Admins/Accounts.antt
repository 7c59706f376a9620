-- ===== src/Tenancy/Admins/Accounts.antt =====
-- The deletion of a workspace or of an account keeps the constraints and an admin in every workspace
-- that is not deleted.
use revy.Common.{
  strip, str_eq, ℕ, ◌≤◌, ◌<◌, ◌≡◌, ◌≢◌, refl, sym, subst, Bool, true, false, not, ◌&&◌, Option,
  List, [], ◌∷◌, arith, ◌==◌, All, All-map, All-keep_of, All-of_Has, Has, Has-All, keep-Has, find,
  find-none, find-Has, keep, Option-cases, inl, inr, String, any_of-find,
}
use revy.Common.Table
use revy.Common.Table.Counts.{count_if-keep, count_if-keep_one}
use revy.Common.Errors.{ok, Result-cases, ensure_ok, ok_injective}
use revy.Enums.{WorkspaceStatus, is_admin, is_deleted_workspace, is_deleted_user, is_super_admin}
use revy.Tenancy.Rows.{Workspace, Membership, User, Db}
use revy.Tenancy.Memberships.{is_admin_of, count_workspace_admins}
use revy.Tenancy.Account.{
  effective_plan, is_truthy, delete_workspace, check_admin_workspaces,
  assert_not_sole_workspace_admin, deleted_user, delete_account,
}
use revy.Tenancy.Admins.{IsTenancy, IsAdministered, OtherMember}
use revy.Tenancy.Admins.Members.{admins_of, record_audit-IsTenancy}

-- The state before the audit row of `delete_workspace`.
abbrev without_workspace : ℕ → Db → Db
without_workspace workspace_id db = record db {
  workspaces =
      Table.update Workspace.id workspace_id (λ w. record w { status = WorkspaceStatus.deleted })
        db.workspaces;
  memberships = keep (λ m. not (m.workspace_id == workspace_id)) db.memberships;
}

without_workspace-admins :
    (workspace_id : ℕ) (db : Db) (w : Workspace)
    → w.id ≢ workspace_id
    → IsAdministered db w
    → IsAdministered (without_workspace workspace_id db) w
unfolding count_workspace_admins
without_workspace-admins workspace_id db w other (inl gone) = inl gone
without_workspace-admins workspace_id db w other (inr one) = inr (
    subst (λ n. 1 ≤ n)
      (sym (
        count_if-keep (is_admin_of w.id) (λ m. not (m.workspace_id == workspace_id)) db.memberships
          (All-of_Has _ db.memberships (λ m n counted. ground (arith, other)))))
      one)

without_workspace-IsTenancy :
    (workspace_id : ℕ) (db : Db) → IsTenancy db → IsTenancy (without_workspace workspace_id db)
without_workspace-IsTenancy workspace_id db t = record {
  ids =
      Table.keep-IsPairwise (λ x y. x.id ≢ y.id) (λ m. not (m.workspace_id == workspace_id))
        db.memberships t.ids;
  fresh =
      All-keep_of (λ x. x.id < db.next_id) (λ m. not (m.workspace_id == workspace_id))
        db.memberships t.fresh;
  members =
      Table.keep-IsPairwise OtherMember (λ m. not (m.workspace_id == workspace_id)) db.memberships
        t.members;
  admins =
      Table.All-update_to Workspace.id (IsAdministered db)
        (IsAdministered (without_workspace workspace_id db)) workspace_id
        (λ w. record w { status = WorkspaceStatus.deleted }) db.workspaces (λ w same. inl refl)
        (λ w other a. without_workspace-admins workspace_id db w other a) t.admins;
}

-- Every workspace in which the user is an admin has another one, if the check goes through.
check_admin_workspaces_ok :
    (db : Db) (checked : List ℕ) (ms : List Membership)
    → check_admin_workspaces db checked ms ≡ ok tt
    → All (λ i. 2 ≤ count_workspace_admins db i) checked
    → All (λ m. 2 ≤ count_workspace_admins db m.workspace_id) ms
unfolding check_admin_workspaces
check_admin_workspaces_ok db checked [] h seen = tt
check_admin_workspaces_ok db checked (m ∷ ms) h seen =
    elim (Option-cases (find (λ i. i == m.workspace_id) checked)) [
      | inl new ↦ elim (Option-cases (Table.get Workspace.id m.workspace_id db.workspaces)) [
        | inl missing ↦ absurd (ground (arith, any_of-find (λ i. i == m.workspace_id) checked))
        | inr (w, there) ↦
            let two : 2 ≤ count_workspace_admins db m.workspace_id =
              ground (arith, any_of-find (λ i. i == m.workspace_id) checked) in
            (
              two,
              check_admin_workspaces_ok db (m.workspace_id ∷ checked) ms
                  (ground (arith, any_of-find (λ i. i == m.workspace_id) checked)) (two, seen),
            )
      ]
      | inr (i, old) ↦
          let (n, same) = find-Has (λ i. i == m.workspace_id) checked old in
          (
            subst (λ v. 2 ≤ count_workspace_admins db v) (ground arith)
                (Has-All (λ i. 2 ≤ count_workspace_admins db i) i checked seen n),
            check_admin_workspaces_ok db checked ms
                (ground (arith, any_of-find (λ i. i == m.workspace_id) checked)) seen,
          )
    ]

module _ (user_id : ℕ) (db : Db) where
  -- The state before the audit row of `delete_account`.
  abbrev without_user : Db
  without_user = record db {
    users = Table.update User.id user_id deleted_user db.users;
    memberships = keep (λ m. not (m.user_id == user_id)) db.memberships;
  }

  abbrev is_users_admin : Membership → Bool
  is_users_admin m = m.user_id == user_id && is_admin m.role

  module _ (t : IsTenancy db) (checked : assert_not_sole_workspace_admin db user_id ≡ ok tt) where
    -- A workspace in which the user is an admin has two.
    two_admins_of :
        (m : Membership)
        → Has m db.memberships
        → is_users_admin m ≡ true
        → 2 ≤ count_workspace_admins db m.workspace_id
    unfolding assert_not_sole_workspace_admin
    two_admins_of m row admin =
        Has-All (λ m. 2 ≤ count_workspace_admins db m.workspace_id) m
          (keep is_users_admin db.memberships)
          (check_admin_workspaces_ok db [] (keep is_users_admin db.memberships) checked tt)
          (keep-Has is_users_admin m db.memberships row admin)

    without_user-admin :
        (w : ℕ) → 1 ≤ count_workspace_admins db w → 1 ≤ count_workspace_admins without_user w
    unfolding count_workspace_admins
    without_user-admin w one =
        elim (Option-cases (find (λ m. is_users_admin m && m.workspace_id == w) db.memberships)) [
          | inl away ↦
              subst (λ n. 1 ≤ n)
                (sym (
                  count_if-keep (is_admin_of w) (λ m. not (m.user_id == user_id)) db.memberships
                    (All-map (λ m. (is_users_admin m && m.workspace_id == w) ≡ false) _
                      db.memberships (λ m no counted. ground (arith, no))
                      (find-none _ db.memberships away))))
                one
          | inr (m, there) ↦
              let (row, both) = find-Has _ db.memberships there in
              let two = two_admins_of m row (ground (arith, both)) in
              let here : m.workspace_id ≡ w = ground (arith, both) in
              let drop =
                count_if-keep_one (is_admin_of w) (λ m. not (m.user_id == user_id)) db.memberships
                  (Table.map-IsPairwise OtherMember _ db.memberships
                    (λ x y apart dropped counted other. ground (arith, apart)) t.members) in
              let two' : 2 ≤ count_workspace_admins db w =
                subst (λ v. 2 ≤ count_workspace_admins db v) here two in
              omega arith
        ]

    without_user-IsTenancy : IsTenancy without_user
    without_user-IsTenancy = record {
      ids =
          Table.keep-IsPairwise (λ x y. x.id ≢ y.id) (λ m. not (m.user_id == user_id))
            db.memberships t.ids;
      fresh =
          All-keep_of (λ x. x.id < db.next_id) (λ m. not (m.user_id == user_id)) db.memberships
            t.fresh;
      members =
          Table.keep-IsPairwise OtherMember (λ m. not (m.user_id == user_id)) db.memberships
            t.members;
      admins = admins_of db without_user db.workspaces without_user-admin t.admins;
    }

pub delete_workspace-IsTenancy :
    (workspace_id : ℕ) (slug : String) (actor : ℕ) (impersonator : Option ℕ) (db db' : Db)
    → IsTenancy db
    → delete_workspace workspace_id slug actor impersonator db ≡ ok db'
    → IsTenancy db'
unfolding delete_workspace
delete_workspace-IsTenancy workspace_id slug actor impersonator db db' t h =
    elim (Option-cases (Table.get Workspace.id workspace_id db.workspaces)) [
      | inl missing ↦ absurd (ground arith)
      | inr (w, there) ↦
          let (kept, h₁) = ensure_ok (not (is_deleted_workspace w.status)) _ (rw there at h) in
          let (confirmed, h₂) = ensure_ok (str_eq w.slug (strip slug)) _ h₁ in
          let (unsubscribed, h₃) =
            ensure_ok (not (str_eq (effective_plan w) "pro" && is_truthy w.stripe_customer_id)) _
              h₂ in
          subst IsTenancy (ok_injective h₃)
            (record_audit-IsTenancy _ _ (without_workspace-IsTenancy workspace_id db t))
    ]

pub delete_account-IsTenancy :
    (lower : String → String) (user_id : ℕ) (email : String) (impersonator : Option ℕ) (db db' : Db)
    → IsTenancy db
    → delete_account lower user_id email impersonator db ≡ ok db'
    → IsTenancy db'
unfolding delete_account
delete_account-IsTenancy lower user_id email impersonator db db' t h =
    elim (Option-cases (Table.get User.id user_id db.users)) [
      | inl missing ↦ absurd (ground arith)
      | inr (u, there) ↦
          let (kept, h₁) = ensure_ok (not (is_deleted_user u.status)) _ (rw there at h) in
          let (confirmed, h₂) = ensure_ok (str_eq (lower u.email) (lower (strip email))) _ h₁ in
          let (plain, h₃) = ensure_ok (not (is_super_admin u.platform_role)) _ h₂ in
          elim (Result-cases (assert_not_sole_workspace_admin db user_id)) [
            | inl (e, refused) ↦ absurd (cc (refused, h₃))
            | inr (done, checked) ↦
                subst IsTenancy (ok_injective (rw checked at h₃))
                  (record_audit-IsTenancy _ _ (without_user-IsTenancy user_id db t checked))
          ]
    ]
