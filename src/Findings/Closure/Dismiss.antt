-- ===== src/Findings/Closure/Dismiss.antt =====
-- The dismissal of a group by a person, and what the later passes do to it.
use mathlib.Core.Option
use revy.Common.{
  ◌<◌, ℕ, String, ◌≡◌, ◌≢◌, refl, sym, ◌∙◌, subst, none, some, List, arith, ◌==◌, keep, Has,
  find-Has, Option-cases, inl, inr,
}
use revy.Common.Errors.{conflict, raise_with, Result, ok, err}
use revy.Common.Table
use revy.Enums.{GitHubFindingGroupState, ResolutionMethod}
use revy.Findings.Rows.{Group, Revision, Db}
use revy.Findings.Published.{latest}
use revy.Findings.Reconcile.{reconcile_review_run}
use revy.Findings.Reconcile.Invariant.{IsWf, OtherKey}
use revy.Findings.Reconcile.Dismissed.{IsDismissed, reconcile-keeps_dismissed}
use revy.Findings.Closure.{ensure_pull_request_access, dismiss_finding_group}

-- The row that a dismissal at a revision leaves.
abbrev pub dismissed_at : ℕ → Group → Group
dismissed_at revision_id g = record g {
  state = GitHubFindingGroupState.resolved;
  resolution_method = some ResolutionMethod.human_dismissed;
  resolved_at_revision_id = some revision_id;
  closure_blocked_reason = none;
}

module _ (workspace_id repository_id pull_request_id group_id : ℕ) (db : Db) where
  abbrev dismissal : Result (Db × Group)
  dismissal = dismiss_finding_group workspace_id repository_id pull_request_id group_id db

  -- A dismissal that succeeds, taken apart.
  pub dismiss_ok :
      (db' : Db) (g' : Group)
      → dismissal ≡ ok (db', g')
      → (g : Group) × (head : Revision) × (Table.get Group.id group_id db.groups ≡ some g)
        × (latest (keep (λ r. r.pull_request_id == pull_request_id) db.revisions) ≡ some head)
        × (g.workspace_id ≡ workspace_id)
        × (g.pull_request_id ≡ pull_request_id)
        × (g.state ≡ GitHubFindingGroupState.active)
        × (g' ≡ dismissed_at head.id g)
        × (db' ≡ record db { groups = Table.update Group.id g.id (dismissed_at head.id) db.groups })
  unfolding dismiss_finding_group
  dismiss_ok db' g' h = elim (Option-cases (Table.get Group.id group_id db.groups)) [
    | inl missing ↦ absurd (ground arith)
    | inr (g, there) ↦
        elim (Option-cases
          (latest (keep (λ r. r.pull_request_id == pull_request_id) db.revisions))) [
            | inl missing ↦ absurd (ground arith)
            | inr (head, last) ↦ (
              g,
              head,
              there,
              last,
              ground arith,
              ground arith,
              ground arith,
              ground arith,
              ground arith,
            )
          ]
  ]

  dismiss-IsWf : (db' : Db) (g' : Group) → IsWf db → dismissal ≡ ok (db', g') → IsWf db'
  dismiss-IsWf db' g' wf h =
      let (g, head, there, last, mine, request, active, row, e) = dismiss_ok db' g' h in
      rw e (record {
        ids =
            Table.update-IsPairwise Group.id (λ x y. x.id ≢ y.id) g.id (dismissed_at head.id)
              db.groups (λ x y apart. apart) (λ x y apart. apart) wf.ids;
        fresh =
            Table.All-update Group.id (λ x. x.id < db.next_id) g.id (dismissed_at head.id) db.groups
              (λ x m same below. below) wf.fresh;
        keys =
            Table.update-IsPairwise Group.id OtherKey g.id (dismissed_at head.id) db.groups
              (λ x y apart. apart) (λ x y apart. apart) wf.keys;
      })

  dismiss-row : (db' : Db) (g' : Group) → dismissal ≡ ok (db', g') → Has g' db'.groups
  dismiss-row db' g' h =
      let (g, head, there, last, mine, request, active, row, e) = dismiss_ok db' g' h in
      let (m, key) = find-Has _ db.groups there in
      rw (e, row) (Table.Has-update_self Group.id g.id (dismissed_at head.id) g db.groups refl m)

  -- A dismissal writes one row: it was an active group of the workspace and the pull request, and is
  -- resolved by a person at the latest revision of the pull request. Every row with another key stays.
  pub dismiss-writes_one_row :
      (db' : Db) (g' h : Group)
      → dismissal ≡ ok (db', g')
      → h.id ≢ group_id
      → Has h db.groups
      → Has h db'.groups
        × Has g' db'.groups
        × (g'.id ≡ group_id)
        × (g'.state ≡ GitHubFindingGroupState.resolved)
        × (g'.resolution_method ≡ some ResolutionMethod.human_dismissed)
        × (g'.workspace_id ≡ workspace_id)
        × (g'.pull_request_id ≡ pull_request_id)
        × (g'.resolved_at_revision_id
            ≡ Option.map Revision.id
                (latest (keep (λ r. r.pull_request_id == pull_request_id) db.revisions)))
  dismiss-writes_one_row db' g' h e apart m =
      let (g, head, there, last, mine, request, active, row, changed) = dismiss_ok db' g' e in
      let key : g.id ≡ group_id =
        ground (arith, find-Has (λ x. Group.id x == group_id) db.groups {x = g}) in
      (
        rw changed (
            Table.Has-update_ne Group.id g.id (dismissed_at head.id) h db.groups
              (λ s. apart (s ∙ key)) m),
        dismiss-row db' g' e,
        rw row key,
        rw row refl,
        rw row refl,
        rw row mine,
        rw row request,
        rw (row, last) refl,
      )

  access_of_ok :
      (db' : Db) (g' : Group)
      → dismissal ≡ ok (db', g')
      → ensure_pull_request_access db workspace_id repository_id pull_request_id ≡ ok tt
  unfolding dismiss_finding_group
  access_of_ok db' g' h = ground arith

  -- Access does not depend on the groups.
  access_of_groups :
      (gs : List Group)
      → ensure_pull_request_access
          (record db { groups = gs })
          workspace_id
          repository_id
          pull_request_id
        ≡ ensure_pull_request_access db workspace_id repository_id pull_request_id
  unfolding ensure_pull_request_access
  access_of_groups gs = refl

  -- A second dismissal of the same group is refused as a conflict.
  pub dismiss-twice :
      (db' : Db) (g' : Group)
      → dismissal ≡ ok (db', g')
      → dismiss_finding_group workspace_id repository_id pull_request_id group_id db'
        ≡ err (raise_with conflict "Finding group is not active" (some "group_not_active"))
  unfolding dismiss_finding_group
  dismiss-twice db' g' h =
      let (g, head, there, last, mine, request, active, row, e) = dismiss_ok db' g' h in
      let key : g.id ≡ group_id =
        ground (arith, find-Has (λ x. Group.id x == group_id) db.groups {x = g}) in
      let again : Table.get Group.id group_id
            (Table.update Group.id g.id (dismissed_at head.id) db.groups)
          ≡ some (dismissed_at head.id g) =
        subst
          (λ k.
            Table.get Group.id group_id (Table.update Group.id k (dismissed_at head.id) db.groups)
            ≡ some (dismissed_at head.id g))
          (sym key)
          (Table.get-update_self Group.id group_id (dismissed_at head.id) g db.groups (λ x. refl)
            there) in
      rw e (
        rw (access_of_groups (Table.update Group.id g.id (dismissed_at head.id) db.groups))
          (rw (access_of_ok db' g' h) (rw again (ground arith))))

  -- What a person dismissed stays dismissed: after any later reconciliation the row is the one that the
  -- dismissal left, also if the run reports the same finding again.
  pub dismiss-survives_reconcile :
      (sha256 : String → String) (later_run_id : ℕ) (db' : Db) (g' : Group)
      → IsWf db
      → dismissal ≡ ok (db', g')
      → Has g' (reconcile_review_run sha256 later_run_id db').0.groups
  dismiss-survives_reconcile sha256 later_run_id db' g' wf h =
      reconcile-keeps_dismissed sha256 later_run_id db' g' (dismiss-IsWf db' g' wf h)
        (dismiss-row db' g' h) dismissed
    where
      dismissed : IsDismissed g'
      dismissed =
          let (g, head, there, last, mine, request, active, row, e) = dismiss_ok db' g' h in
          rw row (refl, inr (inr (inr refl)))
