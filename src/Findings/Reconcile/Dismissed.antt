-- ===== src/Findings/Reconcile/Dismissed.antt =====
-- What reconciliation leaves alone: groups that a person or a judge dismissed, groups resolved before
-- methods were recorded, and the groups of every other pull request.
use revy.Common.{
  ℕ, String, ◌≡◌, ◌≢◌, ap, ◌∙◌, subst, true, false, some, List, [], ◌∷◌, arith, Has,
  Has-append_left, Bool-cases, inl, inr, ◌⊎◌, none,
}
use revy.Enums.{GitHubFindingGroupState, ResolutionMethod}
use revy.Findings.Rules.{should_skip_resolved_group_on_reconcile}
use revy.Common.Table
use revy.Findings.Rows.{Group, Finding, ReviewRun, Revision, Db}
use revy.Findings.Reconcile.Cases.{bind_cases, reconcile_cases}
use revy.Findings.Reconcile.Lookup.{lookup_group-IsRowOf}
use revy.Findings.Reconcile.Invariant.{IsWf, bind_group_for_finding-IsWf, set_group_id-IsWf}
use revy.Findings.Reconcile.{
  BoundVia, is_skipped, add_group, bind_found, set_group_id, claim_slot_key, bind_group_for_finding,
  link_findings, reconcile_review_run,
}

-- Not to be touched by a run on the pull request.
abbrev pub IsApart : ℕ → Group → Type 0
IsApart pull_request_id g = (is_skipped g ≡ true) ⊎ (g.pull_request_id ≢ pull_request_id)

bind_found-keeps :
    (via : BoundVia) (slot : String) (pull_request_id revision_id : ℕ) (f : Finding)
    (found g : Group) (db : Db)
    → Table.IsUnique Group.id db.groups
    → Has found db.groups
    → found.pull_request_id ≡ pull_request_id
    → IsApart pull_request_id g
    → Has g db.groups
    → Has g (bind_found via slot revision_id f found db).0.groups
unfolding bind_found
bind_found-keeps via slot pull_request_id revision_id f found g db unique row mine apart m =
    elim (Bool-cases (is_skipped found)) [
      | inl skip ↦ rw skip m
      | inr go ↦ rw go (Table.Has-update_ne Group.id found.id _ g db.groups (differ go) m)
    ]
  where
    same : g.id ≡ found.id → g ≡ found
    same e = Table.unique_rows Group.id g found db.groups unique m row e

    differ : is_skipped found ≡ false → g.id ≢ found.id
    differ go e = elim apart [
      | inl skip ↦ cc (skip, go, ap is_skipped (same e))
      | inr away ↦ away (ap Group.pull_request_id (same e) ∙ mine)
    ]

module _ (sha256 : String → String) (run : ReviewRun) (pull_request_id revision_id : ℕ) where
  bind_group_for_finding-keeps :
      (f : Finding) (bound : List ℕ) (g : Group) (db : Db)
      → IsWf db
      → IsApart pull_request_id g
      → Has g db.groups
      → Has g (bind_group_for_finding sha256 run pull_request_id revision_id f bound db).0.groups
  bind_group_for_finding-keeps f bound g db wf apart m =
      elim (bind_cases sha256 run pull_request_id revision_id f bound db) [
        | inl (missing, e) ↦ rw e (unfold add_group in Has-append_left g _ db.groups m)
        | inr (via, found, e₁, e₂) ↦
            let row =
              lookup_group-IsRowOf sha256 run pull_request_id f bound db.groups via found e₁ in
            rw e₂ (
              bind_found-keeps via (claim_slot_key sha256 f.title) pull_request_id revision_id f
                found g db wf.ids row.0 row.1 apart m)
      ]

  link_findings-keeps :
      (bound : List ℕ) (fs : List Finding) (g : Group) (db : Db)
      → IsWf db
      → IsApart pull_request_id g
      → Has g db.groups
      → Has g (link_findings sha256 run pull_request_id revision_id bound fs db).0.groups
  unfolding link_findings
  link_findings-keeps bound [] g db wf apart m = m
  link_findings-keeps bound (f ∷ fs) g db wf apart m =
      let (db₁, found) = bind_group_for_finding sha256 run pull_request_id revision_id f bound db in
      link_findings-keeps (found.id ∷ bound) fs g (set_group_id f found.id db₁)
        (set_group_id-IsWf f found.id db₁
          (bind_group_for_finding-IsWf sha256 run pull_request_id revision_id f bound db wf))
        apart (unfold set_group_id in bind_group_for_finding-keeps f bound g db wf apart m)

-- Dismissed by a judge or a person, or resolved with no method on record.
abbrev pub IsDismissed : Group → Type 0
IsDismissed g =
    (g.state ≡ GitHubFindingGroupState.resolved)
    × ((g.resolution_method ≡ none)
        ⊎ (g.resolution_method ≡ some ResolutionMethod.judge_dismissed)
        ⊎ (g.resolution_method ≡ some ResolutionMethod.verification_dismissed)
        ⊎ (g.resolution_method ≡ some ResolutionMethod.human_dismissed))

is_skipped-dismissed : (g : Group) → IsDismissed g → is_skipped g ≡ true
unfolding should_skip_resolved_group_on_reconcile
is_skipped-dismissed g (resolved, inl e) = ground arith
is_skipped-dismissed g (resolved, inr (inl e)) = ground arith
is_skipped-dismissed g (resolved, inr (inr (inl e))) = ground arith
is_skipped-dismissed g (resolved, inr (inr (inr e))) = ground arith

-- A group that a judge or a person dismissed, or that was resolved with no method on record, is the
-- same row after any run is reconciled: no later report of the finding reopens or rewrites it.
pub reconcile-keeps_dismissed :
    (sha256 : String → String) (review_run_id : ℕ) (db : Db) (g : Group)
    → IsWf db
    → Has g db.groups
    → IsDismissed g
    → Has g (reconcile_review_run sha256 review_run_id db).0.groups
reconcile-keeps_dismissed sha256 review_run_id db g wf m dismissed =
    elim (reconcile_cases sha256 review_run_id db) [
      | inl e ↦ rw e m
      | inr (run, revision, known, done, seen, e) ↦ rw e (
          link_findings-keeps sha256 run revision.pull_request_id revision.id [] _ g db wf
            (inl (is_skipped-dismissed g dismissed)) m)
    ]

-- A run writes to the groups of its own pull request alone: a group of any other pull request is the
-- same row afterwards.
pub reconcile-keeps_other_pull_requests :
    (sha256 : String → String) (review_run_id : ℕ) (db : Db) (run : ReviewRun) (revision : Revision)
    (g : Group)
    → IsWf db
    → Table.get ReviewRun.id review_run_id db.runs ≡ some run
    → Table.get Revision.id run.revision_id db.revisions ≡ some revision
    → Has g db.groups
    → g.pull_request_id ≢ revision.pull_request_id
    → Has g (reconcile_review_run sha256 review_run_id db).0.groups
reconcile-keeps_other_pull_requests sha256 review_run_id db run revision g wf known seen m away =
    elim (reconcile_cases sha256 review_run_id db) [
      | inl e ↦ rw e m
      | inr (run', revision', known', done, seen', e) ↦
          let same : revision ≡ revision' = ground arith in
          rw e (
            link_findings-keeps sha256 run' revision'.pull_request_id revision'.id [] _ g db wf
              (inr (subst (λ r. g.pull_request_id ≢ Revision.pull_request_id r) same away)) m)
    ]
