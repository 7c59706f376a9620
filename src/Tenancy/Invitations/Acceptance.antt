-- ===== src/Tenancy/Invitations/Acceptance.antt =====
-- What an invitation promises: it can be taken once, by its addressee, before it expires.
use revy.Common.{
  ℕ, ◌<◌, ◌+◌, ◌≡◌, ◌≢◌, refl, sym, ◌∙◌, ap, subst, Bool, true, false, some, none, Option, arith,
  Has, Has-append_one, find, find-Has, find-append_one, find-some_of_Has, Bool-cases, inl, inr,
  String, strip, str_eq, eq_iff,
}
use revy.Common.Table
use revy.Common.Errors.{ok, err, raise_with, conflict}
use revy.Enums.{AppRole, InvitationStatus, blocks_acceptance}
use revy.Tenancy.Rows.{Membership, User, Invitation, Db, record_audit}
use revy.Tenancy.Memberships.{is_member}
use revy.Tenancy.Invitations.{
  invitation_ttl, accepted_at_time, join_workspace, accept_invitation, create_invitation,
  add_invitation, is_open, not_found_or_expired,
}
use revy.Tenancy.Admins.Invitees.{accept_invitation_ok, create_invitation_ok}

accept_invitation_of :
    (lower : String → String) (token : String) (user : User) (now : ℕ) (db : Db) (i : Invitation)
    → strip token ≢ ""
    → find (λ x. str_eq x.token (strip token)) db.invitations ≡ some i
    → i.status ≡ InvitationStatus.pending
    → now < i.expires_at
    → lower (strip user.email) ≡ i.email
    → blocks_acceptance user.status ≡ false
    → find (is_member user.id i.workspace_id) db.memberships ≡ none
    → accept_invitation lower token user now db ≡ ok (join_workspace i user now db)
unfolding accept_invitation
accept_invitation_of lower token user now db i given there pending still mine able new =
    let empty : str_eq (strip token) "" ≡ false = ground (arith, eq_iff (strip token) "") in
    let same : str_eq (lower (strip user.email)) i.email ≡ true =
      (eq_iff (lower (strip user.email)) i.email).1 mine in
    rw (empty, there, pending) (rw same (ground arith))

module _ (lower : String → String) (token : String) (user : User) (now : ℕ) (db db' : Db)
    (m : Membership) where
  -- An acceptance adds a membership of the user, in the workspace and with the role of a pending
  -- invitation with that token that is for the user's address and has not expired.
  pub accept_invitation-joins :
      accept_invitation lower token user now db ≡ ok (db', m)
      → Has m db'.memberships
        × (m.user_id ≡ user.id)
        × ((i : Invitation) × Has i db.invitations
            × (i.token ≡ strip token)
            × (i.status ≡ InvitationStatus.pending)
            × (now < i.expires_at)
            × (i.email ≡ lower (strip user.email))
            × (m.workspace_id ≡ i.workspace_id)
            × (m.role ≡ i.role))
  unfolding join_workspace
  accept_invitation-joins h =
      let (i, there, pending, still, mine, able, new, e) =
        accept_invitation_ok lower token user now db db' m h in
      let (row, named) = find-Has (λ x. str_eq x.token (strip token)) db.invitations there in
      (
        subst (λ (r : Db × Membership). Has r.1 r.0.memberships) e
            (Has-append_one _ db.memberships),
        ap (λ (r : Db × Membership). r.1.user_id) (sym e),
        (
          i,
          row,
          (eq_iff i.token (strip token)).0 named,
          ground arith,
          still,
          sym ((eq_iff (lower (strip user.email)) i.email).0 mine),
          ap (λ (r : Db × Membership). r.1.workspace_id) (sym e),
          ap (λ (r : Db × Membership). r.1.role) (sym e),
        ),
      )

  -- The token is used up: whoever presents it again is told that there is no such invitation.
  pub accept_invitation-once :
      (other : User) (later : ℕ)
      → accept_invitation lower token user now db ≡ ok (db', m)
      → accept_invitation lower token other later db' ≡ err not_found_or_expired
  unfolding accept_invitation join_workspace
  accept_invitation-once other later h =
      let (i, there, pending, still, mine, able, new, e) =
        accept_invitation_ok lower token user now db db' m h in
      let again : find (λ x. str_eq x.token (strip token)) db'.invitations
          ≡ some (accepted_at_time now i) =
        subst
          (λ (r : Db × Membership).
            find (λ x. str_eq x.token (strip token)) r.0.invitations
            ≡ some (accepted_at_time now i))
          e
          (Table.find-update Invitation.id (λ x. str_eq x.token (strip token))
            (accepted_at_time now) i db.invitations (λ x. refl) there) in
      elim (Bool-cases (str_eq (strip token) "")) [
        | inl empty ↦ absurd (ground arith)
        | inr given ↦ rw (given, again) refl
      ]

module _ (lower : String → String) (ilike : String → String → Bool) (token : String)
    (workspace_id : ℕ) (email : String) (role : AppRole) (by : ℕ) (impersonator : Option ℕ)
    (now : ℕ) (db db' : Db) (i : Invitation) where
  -- Who was invited can join: the token of a new invitation, presented within seven days by a user
  -- with its address who is active and not a member yet, gives a membership with the role of the
  -- invitation. The token is one that no invitation has, without space around it.
  pub create-accept :
      (user : User) (later : ℕ)
      → create_invitation lower ilike token workspace_id email role by impersonator now db
        ≡ ok (db', i)
      → strip token ≡ token
      → token ≢ ""
      → find (λ x. str_eq x.token token) db.invitations ≡ none
      → later < now + invitation_ttl
      → lower (strip user.email) ≡ lower (strip email)
      → blocks_acceptance user.status ≡ false
      → find (is_member user.id workspace_id) db.memberships ≡ none
      → (db'' : Db) × (m : Membership) × (accept_invitation lower token user later db'
          ≡ ok (db'', m))
        × (m.user_id ≡ user.id)
        × (m.workspace_id ≡ workspace_id)
        × (m.role ≡ role)
  unfolding add_invitation join_workspace record_audit
  create-accept user later h bare given fresh within same able new =
      let (named, alone_, known, alone, e) =
        create_invitation_ok lower ilike token workspace_id email role by impersonator now db db' i
          h in
      let there : find (λ x. str_eq x.token token) db'.invitations ≡ some i =
        subst (λ (r : Db × Invitation). find (λ x. str_eq x.token token) r.0.invitations ≡ some r.1)
          e
          (find-append_one (λ x. str_eq x.token token) _ db.invitations fresh
            (ground (arith, eq_iff token token))) in
      let here = ap (λ (r : Db × Invitation). r.1.workspace_id) e in
      let pending = ap (λ (r : Db × Invitation). r.1.status) e in
      let until = ap (λ (r : Db × Invitation). r.1.expires_at) e in
      let mail = ap (λ (r : Db × Invitation). r.1.email) e in
      let members = ap (λ (r : Db × Invitation). r.0.memberships) e in
      let (db'', m) = join_workspace i user later db' in
      (
        db'',
        m,
        accept_invitation_of lower token user later db' i (λ z. given (sym bare ∙ z))
            (rw bare there) (ground arith) (subst (λ t. later < t) until within) (same ∙ mail) able
            (subst (λ w. find (is_member user.id w) db'.memberships ≡ none) here
              (subst (λ ms. find (is_member user.id workspace_id) ms ≡ none) members new)),
        refl,
        sym here,
        ap (λ (r : Db × Invitation). r.1.role) (sym e),
      )

  -- A second invitation for the address, made on the state that the first one left, is a conflict until the
  -- first one expires. (`str.lower` gives the stored address back.)
  pub create_invitation-twice :
      (token' : String) (role' : AppRole) (by' : ℕ) (impersonator' : Option ℕ) (later : ℕ)
      → create_invitation lower ilike token workspace_id email role by impersonator now db
        ≡ ok (db', i)
      → later < now + invitation_ttl
      → lower (lower (strip email)) ≡ lower (strip email)
      → create_invitation lower ilike token' workspace_id email role' by' impersonator' later db'
        ≡ err (raise_with conflict "A pending invitation already exists for this email" none)
  unfolding create_invitation add_invitation record_audit
  create_invitation-twice token' role' by' impersonator' later h within same =
      let (named, new, known, alone, e) =
        create_invitation_ok lower ilike token workspace_id email role by impersonator now db db' i
          h in
      let (first, i₁) =
        add_invitation workspace_id (lower (strip email)) role token by impersonator now db in
      let (y, found) =
        find-some_of_Has (is_open lower workspace_id (lower (strip email)) later) i₁
          first.invitations (Has-append_one _ db.invitations)
          (rw same (ground (arith, eq_iff (lower (strip email)) (lower (strip email))))) in
      subst
        (λ (r : Db × Invitation).
          create_invitation lower ilike token' workspace_id email role' by' impersonator' later r.0
          ≡ err (raise_with conflict "A pending invitation already exists for this email" none))
        e (ground arith)
