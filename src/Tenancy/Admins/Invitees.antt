-- ===== src/Tenancy/Admins/Invitees.antt =====
-- Invitations keep the constraints and an admin in every workspace.
use revy.Common.{
  ℕ, suc, ◌<◌, ◌≡◌, ◌≢◌, subst, Bool, true, false, not, ◌&&◌, some, none, Option, arith, ◌==◌, leb,
  All-map, All-append_one, find, find-none, Option-cases, inl, inr, String, strip, str_eq, is_none,
}
use revy.Common.Table
use revy.Common.Table.Counts.{count_if-append}
use revy.Common.Errors.{ok, ensure_ok, ok_injective}
use revy.Enums.{AppRole, is_pending_invitation, blocks_acceptance}
use revy.Tenancy.Rows.{Workspace, Membership, User, Invitation, Db}
use revy.Tenancy.Memberships.{is_member, is_admin_of, count_workspace_admins}
use revy.Tenancy.Invitations.{
  join_workspace, accept_invitation, create_invitation, has_at, add_invitation, is_open,
  already_member, revoke_invitation,
}
use revy.Tenancy.Admins.{IsTenancy, OtherMember}
use revy.Tenancy.Admins.Members.{admins_of, record_audit-IsTenancy, record_audit_if-IsTenancy}

-- An acceptance that went through: the invitation is pending, not over, for the user's address, and
-- the user was no member yet.
pub accept_invitation_ok :
    (lower : String → String) (token : String) (user : User) (now : ℕ) (db db' : Db)
    (m : Membership)
    → accept_invitation lower token user now db ≡ ok (db', m)
    → (i : Invitation) × (find (λ i. str_eq i.token (strip token)) db.invitations ≡ some i)
      × (is_pending_invitation i.status ≡ true)
      × (now < i.expires_at)
      × (str_eq (lower (strip user.email)) i.email ≡ true)
      × (blocks_acceptance user.status ≡ false)
      × (find (is_member user.id i.workspace_id) db.memberships ≡ none)
      × (join_workspace i user now db ≡ (db', m))
unfolding accept_invitation
accept_invitation_ok lower token user now db db' m h =
    elim (Option-cases (find (λ i. str_eq i.token (strip token)) db.invitations)) [
      | inl missing ↦ absurd (ground arith)
      | inr (i, there) ↦
          let (given, h₁) = ensure_ok (not (str_eq (strip token) "")) _ (rw there at h) in
          let (pending, h₂) = ensure_ok (is_pending_invitation i.status) _ h₁ in
          let (still, h₃) = ensure_ok (not (leb i.expires_at now)) _ h₂ in
          let (mine, h₄) = ensure_ok (str_eq (lower (strip user.email)) i.email) _ h₃ in
          let (able, h₅) = ensure_ok (not (blocks_acceptance user.status)) _ h₄ in
          let (new, h₆) =
            ensure_ok (is_none (find (is_member user.id i.workspace_id) db.memberships)) _ h₅ in
          (
            i,
            there,
            pending,
            ground arith,
            mine,
            ground arith,
            elim (Option-cases (find (is_member user.id i.workspace_id) db.memberships)) [
              | inl none_ ↦ none_
              | inr (x, some_) ↦ absurd (ground arith)
            ],
            ok_injective h₆,
          )
    ]

join_workspace-IsTenancy :
    (i : Invitation) (user : User) (now : ℕ) (db : Db)
    → IsTenancy db
    → find (is_member user.id i.workspace_id) db.memberships ≡ none
    → IsTenancy (join_workspace i user now db).0
unfolding join_workspace count_workspace_admins
join_workspace-IsTenancy i user now db t new = record {
  ids =
      Table.append_one-IsPairwise (λ x y. x.id ≢ y.id) _ db.memberships t.ids
        (All-map (λ x. x.id < db.next_id) (λ x. x.id ≢ db.next_id) db.memberships
          (λ x below. ground arith) t.fresh);
  fresh =
      All-append_one (λ x. x.id < suc db.next_id) db.memberships _
        (All-map (λ x. x.id < db.next_id) (λ x. x.id < suc db.next_id) db.memberships
          (λ x below. ground arith) t.fresh)
        (ground arith);
  members = Table.append_one-IsPairwise OtherMember _ db.memberships t.members (
      All-map (λ x. is_member user.id i.workspace_id x ≡ false)
        (λ x. x.user_id ≡ user.id → x.workspace_id ≢ i.workspace_id) db.memberships
        (λ x other same here. ground arith) (find-none _ db.memberships new));
  admins =
      admins_of db (join_workspace i user now db).0 db.workspaces
        (λ w one.
          let more =
            count_if-append (is_admin_of w) (join_workspace i user now db).1 db.memberships in
          ground arith)
        t.admins;
}

pub accept_invitation-IsTenancy :
    (lower : String → String) (token : String) (user : User) (now : ℕ) (db db' : Db)
    (m : Membership)
    → IsTenancy db
    → accept_invitation lower token user now db ≡ ok (db', m)
    → IsTenancy db'
accept_invitation-IsTenancy lower token user now db db' m t h =
    let (i, there, pending, still, mine, able, new, e) =
      accept_invitation_ok lower token user now db db' m h in
    subst (λ (r : Db × Membership). IsTenancy r.0) e (join_workspace-IsTenancy i user now db t new)

-- An invitation that was created: no open one was there, and the row is added.
pub create_invitation_ok :
    (lower : String → String) (ilike : String → String → Bool) (token : String) (workspace_id : ℕ)
    (email : String) (role : AppRole) (by : ℕ) (impersonator : Option ℕ) (now : ℕ) (db db' : Db)
    (i : Invitation)
    → create_invitation lower ilike token workspace_id email role by impersonator now db
      ≡ ok (db', i)
    → ((not (str_eq (lower (strip email)) "") && has_at (lower (strip email))) ≡ true)
      × (already_member ilike workspace_id (lower (strip email)) db ≡ false)
      × ((w : Workspace) × (Table.get Workspace.id workspace_id db.workspaces ≡ some w))
      × (find (is_open lower workspace_id (lower (strip email)) now) db.invitations ≡ none)
      × (add_invitation workspace_id (lower (strip email)) role token by impersonator now db
          ≡ (db', i))
unfolding create_invitation
create_invitation_ok lower ilike token workspace_id email role by impersonator now db db' i h =
    let (given, h₁) =
      ensure_ok (not (str_eq (lower (strip email)) "") && has_at (lower (strip email))) _ h in
    let (new, h₂) =
      ensure_ok (not (already_member ilike workspace_id (lower (strip email)) db)) _ h₁ in
    elim (Option-cases (Table.get Workspace.id workspace_id db.workspaces)) [
      | inl missing ↦ absurd (ground arith)
      | inr (w, there) ↦
          let (alone, h₃) =
            ensure_ok
              (is_none (find (is_open lower workspace_id (lower (strip email)) now) db.invitations))
              _ (rw there at h₂) in
          (
            given,
            ground arith,
            (w, there),
            elim (Option-cases
                (find (is_open lower workspace_id (lower (strip email)) now) db.invitations)) [
                  | inl none_ ↦ none_
                  | inr (x, some_) ↦ absurd (ground arith)
                ],
            ok_injective h₃,
          )
    ]

pub create_invitation-IsTenancy :
    (lower : String → String) (ilike : String → String → Bool) (token : String) (workspace_id : ℕ)
    (email : String) (role : AppRole) (by : ℕ) (impersonator : Option ℕ) (now : ℕ) (db db' : Db)
    (i : Invitation)
    → IsTenancy db
    → create_invitation lower ilike token workspace_id email role by impersonator now db
      ≡ ok (db', i)
    → IsTenancy db'
unfolding add_invitation count_workspace_admins
create_invitation-IsTenancy lower ilike token workspace_id email role by impersonator now db db' i t
      h =
    let (given, new, known, alone, e) =
      create_invitation_ok lower ilike token workspace_id email role by impersonator now db db' i
        h in
    subst (λ (r : Db × Invitation). IsTenancy r.0) e
      (record_audit-IsTenancy _ _ (record {
        ids = t.ids;
        fresh =
            All-map (λ x. x.id < db.next_id) (λ x. x.id < suc db.next_id) db.memberships
              (λ x below. ground arith) t.fresh;
        members = t.members;
        admins = t.admins;
      }))

pub revoke_invitation-IsTenancy :
    (workspace_id invitation_id : ℕ) (actor impersonator : Option ℕ) (db db' : Db) (i : Invitation)
    → IsTenancy db
    → revoke_invitation workspace_id invitation_id actor impersonator db ≡ ok (db', i)
    → IsTenancy db'
unfolding revoke_invitation count_workspace_admins
revoke_invitation-IsTenancy workspace_id invitation_id actor impersonator db db' i t h =
    elim (Option-cases
      (find (λ i. i.id == invitation_id && i.workspace_id == workspace_id) db.invitations)) [
        | inl missing ↦ absurd (ground arith)
        | inr (j, there) ↦
            let (pending, h₁) = ensure_ok (is_pending_invitation j.status) _ (rw there at h) in
            subst (λ (r : Db × Invitation). IsTenancy r.0) (ok_injective h₁)
              (record_audit_if-IsTenancy actor true _ _
                (record { ids = t.ids; fresh = t.fresh; members = t.members; admins = t.admins }))
      ]
