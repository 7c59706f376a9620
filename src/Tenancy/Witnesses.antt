-- ===== src/Tenancy/Witnesses.antt =====
-- The theorems about tenancy at inputs that meet their hypotheses, and runs of the code.
use revy.Common.{◌<◌, ◌≡◌, refl, some, none, [], arith, inr, eq_iff, Has, uuid_str, strip}
use revy.Common.Table
use revy.Common.Errors.{ok, err, raise_with, conflict}
use revy.Enums.{AppRole, InvitationStatus}
use revy.Tenancy.Rows.{Membership, User, Invitation, AuditLog, Db, record_audit}
use revy.Tenancy.Memberships.{
  count_workspace_admins, assert_not_last_admin, get_membership, set_role, delete_membership,
  update_member_role, leave_workspace,
}
use revy.Tenancy.Invitations.{
  has_at, join_workspace, accept_invitation, create_invitation, not_found_or_expired,
  add_invitation,
}
use revy.Tenancy.Admins.{IsTenancy}
use revy.Tenancy.Admins.Steps.{Step, Run, Run-IsTenancy}
use revy.Tenancy.Invitations.Acceptance.{
  accept_invitation-joins, accept_invitation-once, create-accept, create_invitation-twice,
}
use revy.Tenancy.Samples.{same_case, exactly, bob_in_acme, cat, cats_invitation, sample}

sample-IsTenancy : IsTenancy sample
unfolding count_workspace_admins
sample-IsTenancy = record {
  ids = omega arith;
  fresh = omega arith;
  members = (((λ p q. absurd (omega arith)), tt), (tt, tt));
  admins = (inr (omega arith), tt);
}

abbrev promoted : Db
promoted = set_role 12 AppRole.admin sample

abbrev left : Db
left = delete_membership 11 promoted

abbrev anns_farewell : AuditLog
anns_farewell = record {
  actor_user_id = 21;
  impersonator_user_id = none;
  workspace_id = some 1;
  action = "workspace.left";
  resource_type = "workspace";
  resource_id = "00000000-0000-0000-0000-000000000001";
  metadata = [];
}

-- Bob becomes an admin; then Ann can leave.
Run-IsTenancy_example : IsTenancy (record_audit anns_farewell left)
unfolding update_member_role leave_workspace get_membership assert_not_last_admin
    count_workspace_admins set_role delete_membership uuid_str Table.update
Run-IsTenancy_example =
    Run-IsTenancy same_case exactly sample (record_audit anns_farewell left)
      (Run.then_step
        (Run.then_step Run.start (
          Step.role_updated 1 22 AppRole.admin none none
            (record bob_in_acme { role = AppRole.admin }) refl))
        (Step.workspace_left 1 21 none refl))
      sample-IsTenancy

abbrev joined : Db × Membership
joined = join_workspace cats_invitation cat 99 sample

accepted : accept_invitation same_case " t1 " cat 99 sample ≡ ok (joined.0, joined.1)
unfolding accept_invitation join_workspace strip
accepted = refl

accept_invitation-joins_example :
    Has joined.1 joined.0.memberships
    × (joined.1.user_id ≡ 23)
    × ((i : Invitation) × Has i sample.invitations
        × (i.token ≡ strip " t1 ")
        × (i.status ≡ InvitationStatus.pending)
        × (99 < i.expires_at)
        × (i.email ≡ strip "cat@b.c")
        × (joined.1.workspace_id ≡ i.workspace_id)
        × (joined.1.role ≡ i.role))
accept_invitation-joins_example =
    accept_invitation-joins same_case " t1 " cat 99 sample joined.0 joined.1 accepted

accept_invitation-once_example :
    accept_invitation same_case " t1 " (record cat { id = 24 }) 99 joined.0
    ≡ err not_found_or_expired
accept_invitation-once_example =
    accept_invitation-once same_case " t1 " cat 99 sample joined.0 joined.1 (record cat { id = 24 })
      99 accepted

abbrev invited : Db × Invitation
invited = add_invitation 1 "dan@b.c" AppRole.viewer "t2" 21 none 5 sample

created :
    create_invitation same_case exactly "t2" 1 " dan@b.c" AppRole.viewer 21 none 5 sample
    ≡ ok (invited.0, invited.1)
unfolding create_invitation add_invitation strip record_audit has_at
created = refl

abbrev dan : User
dan = record cat { id = 24; email = "dan@b.c" }

create-accept_example :
    (db'' : Db) × (m : Membership) × (accept_invitation same_case "t2" dan 6 invited.0
      ≡ ok (db'', m))
    × (m.user_id ≡ 24)
    × (m.workspace_id ≡ 1)
    × (m.role ≡ AppRole.viewer)
unfolding strip
create-accept_example =
    create-accept same_case exactly "t2" 1 " dan@b.c" AppRole.viewer 21 none 5 sample invited.0
      invited.1 dan 6 created refl (λ e. ground (arith, eq_iff "t2" "")) refl (omega arith) refl
      refl refl

create_invitation-twice_example :
    create_invitation same_case exactly "t3" 1 " dan@b.c" AppRole.admin 21 none 6 invited.0
    ≡ err (raise_with conflict "A pending invitation already exists for this email" none)
create_invitation-twice_example =
    create_invitation-twice same_case exactly "t2" 1 " dan@b.c" AppRole.viewer 21 none 5 sample
      invited.0 invited.1 "t3" AppRole.admin 21 none 6 created (omega arith) refl
