-- ===== src/Tenancy/Invitations.antt =====
-- services/invitations.py: an invitation is created, accepted once and revoked. `lower` is Python's
-- `str.lower`, `ilike` the match of PostgreSQL's ILIKE (text, then pattern), and `token` what
-- `secrets.token_urlsafe` returned to the call.
pub mod Acceptance
use revy.Common.{
  ℕ, suc, ◌+◌, ◌*◌, String, not, ◌&&◌, ◌||◌, Bool, true, false, Option, none, some, List, [], ◌∷◌,
  ◌++◌, ◌==◌, ltb, leb, find, strip, str_eq, uuid_str, is_none,
}
use Prim.Native.Char.{code}
use revy.Common.Table
use revy.Common.Errors.{
  PlatformException, Result, ok, ◌>>=◌, ◌>>◌, ensure, ensure_some, raise_with, not_found, forbidden,
  validation, conflict,
}
use revy.Enums.{AppRole, InvitationStatus, is_pending_invitation, blocks_acceptance, role_value}
use revy.Tenancy.Rows.{Workspace, Membership, User, Invitation, AuditLog, Db, record_audit}
use revy.Tenancy.Memberships.{is_member, record_audit_if}

-- `timedelta(days=INVITATION_TTL_DAYS)` in microseconds
abbrev pub invitation_ttl : ℕ
invitation_ttl = 7 * 86400000000

-- `"@" in s`
unfoldable pub has_at : String → Bool
has_at String.[] = false
has_at (String.◌∷◌ c s) = code c == 64 || has_at s

abbrev invitation_audit : String → ℕ → Invitation → Option ℕ → List (String × String) → ℕ → AuditLog
invitation_audit action workspace_id invitation impersonator_user_id metadata actor = record {
  actor_user_id = actor;
  impersonator_user_id = impersonator_user_id;
  workspace_id = some workspace_id;
  action = action;
  resource_type = "workspace_invitation";
  resource_id = uuid_str invitation.id;
  metadata = ("invitation_id", uuid_str invitation.id) ∷ ("email", invitation.email) ∷ metadata;
}

abbrev pub not_found_or_expired : PlatformException
not_found_or_expired = raise_with not_found "Invitation not found or expired" none

-- The row that an acceptance leaves.
abbrev pub accepted_at_time : ℕ → Invitation → Invitation
accepted_at_time now i = record i { status = InvitationStatus.accepted; accepted_at = some now }

-- The membership and the status that an acceptance writes.
unfoldable pub join_workspace : Invitation → User → ℕ → Db → Db × Membership
join_workspace invitation user now db =
    let membership : Membership = record {
      id = db.next_id;
      user_id = user.id;
      workspace_id = invitation.workspace_id;
      role = invitation.role;
    } in
    (
      record db {
        memberships = db.memberships ++ membership ∷ [];
        invitations =
            Table.update Invitation.id invitation.id (accepted_at_time now) db.invitations;
        next_id = suc db.next_id;
      },
      membership,
    )

unfoldable pub add_invitation :
    ℕ → String → AppRole → String → ℕ → Option ℕ → ℕ → Db → Db × Invitation
add_invitation workspace_id normalized role token invited_by_user_id impersonator_user_id now db =
    let invitation : Invitation = record {
      id = db.next_id;
      workspace_id = workspace_id;
      email = normalized;
      role = role;
      token = token;
      invited_by_user_id = invited_by_user_id;
      status = InvitationStatus.pending;
      expires_at = now + invitation_ttl;
      accepted_at = none;
    } in
    (
      record_audit
          (invitation_audit "workspace_invitation.created" workspace_id invitation
            impersonator_user_id (("role", role_value role) ∷ []) invited_by_user_id)
          (record db { invitations = db.invitations ++ invitation ∷ []; next_id = suc db.next_id }),
      invitation,
    )

module _ (ilike : String → String → Bool) where
  -- `membership is not None` for the user that the address finds
  abbrev pub already_member : ℕ → String → Db → Bool
  already_member workspace_id email db = elim (find (λ u. ilike u.email email) db.users) [
    | none ↦ false
    | some user ↦ not (is_none (find (is_member user.id workspace_id) db.memberships))
  ]

module _ (lower : String → String) where
  unfoldable pub accept_invitation : String → User → ℕ → Db → Result (Db × Membership)
  accept_invitation token user now db =
      ensure (not (str_eq (strip token) ""))
        (raise_with validation "Invitation token required" none)
      >> ensure_some (find (λ i. str_eq i.token (strip token)) db.invitations) not_found_or_expired
      >>= λ invitation.
          ensure (is_pending_invitation invitation.status) not_found_or_expired
          >> ensure (not (leb invitation.expires_at now)) not_found_or_expired
          >> ensure (str_eq (lower (strip user.email)) invitation.email)
              (raise_with forbidden "Invitation email does not match your account" none)
          >> ensure (not (blocks_acceptance user.status))
              (raise_with forbidden "Account cannot accept invitations in current status" none)
          >> ensure (is_none (find (is_member user.id invitation.workspace_id) db.memberships))
              (raise_with conflict "User is already a workspace member" none)
          >> ok (join_workspace invitation user now db)

  abbrev pub is_open : ℕ → String → ℕ → Invitation → Bool
  is_open workspace_id email now i =
      i.workspace_id == workspace_id
      && str_eq (lower i.email) email
      && is_pending_invitation i.status
      && ltb now i.expires_at

  module _ (ilike : String → String → Bool) where
    unfoldable pub create_invitation :
        String → ℕ → String → AppRole → ℕ → Option ℕ → ℕ → Db → Result (Db × Invitation)
    create_invitation token workspace_id email role invited_by_user_id impersonator_user_id now db =
        let normalized = lower (strip email) in
        ensure (not (str_eq normalized "") && has_at normalized)
          (raise_with validation "Invalid email" none)
        >> ensure (not (already_member ilike workspace_id normalized db))
            (raise_with conflict "User is already a workspace member" none)
        >> ensure_some (Table.get Workspace.id workspace_id db.workspaces)
            (raise_with not_found "Workspace not found" none)
        >>= λ workspace.
            ensure (is_none (find (is_open workspace_id normalized now) db.invitations))
              (raise_with conflict "A pending invitation already exists for this email" none)
            >> ok (
                add_invitation workspace_id normalized role token invited_by_user_id
                  impersonator_user_id now db)

unfoldable pub revoke_invitation : ℕ → ℕ → Option ℕ → Option ℕ → Db → Result (Db × Invitation)
revoke_invitation workspace_id invitation_id actor_user_id impersonator_user_id db =
    ensure_some (find (λ i. i.id == invitation_id && i.workspace_id == workspace_id) db.invitations)
      (raise_with not_found "Invitation not found" none)
    >>= λ invitation.
        ensure (is_pending_invitation invitation.status)
          (raise_with not_found "Invitation not found" none)
        >> ok (
          record_audit_if actor_user_id true
              (invitation_audit "workspace_invitation.revoked" workspace_id invitation
                impersonator_user_id [])
              (record db {
                invitations =
                    Table.update Invitation.id invitation.id
                      (λ i. record i { status = InvitationStatus.revoked }) db.invitations;
              }),
          record invitation { status = InvitationStatus.revoked },
        )
