-- ===== src/Findings/Reconcile/Linked.antt =====
-- What reconciliation promises of each finding of a finished run.
use revy.Common.{
  ℕ, String, ◌≡◌, ◌≢◌, refl, sym, true, some, List, [], ◌∷◌, ◌==◌, Has, All, All-map_both, keep,
  All-keep, length, ap, suc,
}
use revy.Common.Table
use revy.Enums.{is_completed_run}
use revy.Findings.Rows.{Finding, ReviewRun, Revision, Db}
use revy.Findings.Reconcile.Invariant.{IsWf, bind_group_for_finding-IsWf, set_group_id-IsWf}
use revy.Findings.Reconcile.Bound.{
  IsLinked, bind_group_for_finding-links, bind_group_for_finding-keeps_links,
  findings-bind_group_for_finding,
}
use revy.Findings.Reconcile.{
  set_group_id, bind_group_for_finding, link_findings, reconcile_review_run,
}

-- The finding's row names a current group of the pull request.
abbrev pub IsReconciled : ℕ → ℕ → Db → Finding → Type 0
IsReconciled pull_request_id revision_id db f =
    (i : ℕ) × Has (record f { group_id = some i }) db.findings
    × IsLinked pull_request_id revision_id db.groups i

abbrev OtherFinding : Finding → Finding → Type 0
OtherFinding f h = f.id ≢ h.id

module _ (sha256 : String → String) (run : ReviewRun) (pull_request_id revision_id : ℕ) where
  -- The rows after the step for one finding: its own, and any other.
  abbrev after_one : Finding → List ℕ → Db → Db
  after_one f bound db =
      let (db', g) = bind_group_for_finding sha256 run pull_request_id revision_id f bound db in
      set_group_id f g.id db'

  after_one-row :
      (f : Finding) (bound : List ℕ) (db : Db)
      → Has f db.findings
      → IsReconciled pull_request_id revision_id (after_one f bound db) f
  unfolding set_group_id
  after_one-row f bound db m =
      let (db', g) = bind_group_for_finding sha256 run pull_request_id revision_id f bound db in
      (
        g.id,
        Table.Has-update_self Finding.id f.id _ f db'.findings refl (
            rw (findings-bind_group_for_finding sha256 run pull_request_id revision_id f bound db)
              m),
        bind_group_for_finding-links sha256 run pull_request_id revision_id f bound db,
      )

  after_one-other :
      (f h : Finding) (bound : List ℕ) (db : Db)
      → h.id ≢ f.id
      → Has h db.findings
      → Has h (after_one f bound db).findings
  unfolding set_group_id
  after_one-other f h bound db ne m =
      let (db', g) = bind_group_for_finding sha256 run pull_request_id revision_id f bound db in
      Table.Has-update_ne Finding.id f.id _ h db'.findings ne
        (rw (findings-bind_group_for_finding sha256 run pull_request_id revision_id f bound db) m)

  after_one-IsWf : (f : Finding) (bound : List ℕ) (db : Db) → IsWf db → IsWf (after_one f bound db)
  after_one-IsWf f bound db wf =
      let (db', g) = bind_group_for_finding sha256 run pull_request_id revision_id f bound db in
      set_group_id-IsWf f g.id db'
        (bind_group_for_finding-IsWf sha256 run pull_request_id revision_id f bound db wf)

  after_one-keeps_links :
      (f : Finding) (bound : List ℕ) (db : Db) (i : ℕ)
      → IsWf db
      → IsLinked pull_request_id revision_id db.groups i
      → IsLinked pull_request_id revision_id (after_one f bound db).groups i
  unfolding set_group_id
  after_one-keeps_links f bound db i wf link =
      bind_group_for_finding-keeps_links sha256 run pull_request_id revision_id f bound db i wf link

  -- The rest of the loop leaves what is reconciled.
  link_findings-keeps_IsReconciled :
      (bound : List ℕ) (fs : List Finding) (f : Finding) (db : Db)
      → IsWf db
      → All (OtherFinding f) fs
      → IsReconciled pull_request_id revision_id db f
      → IsReconciled pull_request_id revision_id
          (link_findings sha256 run pull_request_id revision_id bound fs db).0
          f
  unfolding link_findings
  link_findings-keeps_IsReconciled bound [] f db wf others r = r
  link_findings-keeps_IsReconciled bound (h ∷ fs) f db wf others (i, row, link) =
      let (db', g) = bind_group_for_finding sha256 run pull_request_id revision_id h bound db in
      link_findings-keeps_IsReconciled (g.id ∷ bound) fs f (after_one h bound db)
        (after_one-IsWf h bound db wf) others.1
        (
          i,
          after_one-other h (record f { group_id = some i }) bound db others.0 row,
          after_one-keeps_links h bound db i wf link,
        )

  link_findings-reconciles :
      (bound : List ℕ) (fs : List Finding) (db : Db)
      → IsWf db
      → Table.IsUnique Finding.id fs
      → All (λ f. Has f db.findings) fs
      → All
          (IsReconciled pull_request_id revision_id
            (link_findings sha256 run pull_request_id revision_id bound fs db).0)
          fs
  unfolding link_findings
  link_findings-reconciles bound [] db wf unique rows = tt
  link_findings-reconciles bound (f ∷ fs) db wf unique rows =
      let (db', g) = bind_group_for_finding sha256 run pull_request_id revision_id f bound db in
      let wf' = after_one-IsWf f bound db wf in
      (
        link_findings-keeps_IsReconciled (g.id ∷ bound) fs f (after_one f bound db) wf' unique.0
            (after_one-row f bound db rows.0),
        link_findings-reconciles (g.id ∷ bound) fs (after_one f bound db) wf' unique.1 (
            All-map_both (OtherFinding f) (λ h. Has h db.findings) _ fs
              (λ h ne m. after_one-other f h bound db (λ e. ne (sym e)) m) unique.0 rows.1),
      )

  length-link_findings :
      (bound : List ℕ) (fs : List Finding) (db : Db)
      → length (link_findings sha256 run pull_request_id revision_id bound fs db).1 ≡ length fs
  unfolding link_findings
  length-link_findings bound [] db = refl
  length-link_findings bound (f ∷ fs) db =
      ap suc (length-link_findings (_ ∷ bound) fs (after_one f bound db))

-- For a completed run whose revision is on record: every finding of the run ends with the key of a
-- group in its `group_id`; that group is a row of the run's pull request, and it is active and last
-- seen at the run's revision, or one of the resolved groups that reconciliation never touches. The
-- call returns one group id for each finding.
pub reconcile-links_every_finding :
    (sha256 : String → String) (review_run_id : ℕ) (db : Db) (run : ReviewRun) (revision : Revision)
    → IsWf db
    → Table.IsUnique Finding.id db.findings
    → Table.get ReviewRun.id review_run_id db.runs ≡ some run
    → is_completed_run run.status ≡ true
    → Table.get Revision.id run.revision_id db.revisions ≡ some revision
    → let fs = keep (λ f. f.review_run_id == review_run_id) db.findings in
      let (db', ids) = reconcile_review_run sha256 review_run_id db in
      All (IsReconciled revision.pull_request_id revision.id db') fs × (length ids ≡ length fs)
unfolding reconcile_review_run
reconcile-links_every_finding sha256 review_run_id db run revision wf unique known done seen =
    rw (known, reconcile_review_run)
      (rw done (
        rw (seen, reconcile_review_run)
          (
            link_findings-reconciles sha256 run revision.pull_request_id revision.id [] fs db wf
                (Table.keep-IsPairwise OtherFinding _ db.findings unique)
                (All-keep (λ f. Has f db.findings) _ db.findings (λ f m met. m)),
            length-link_findings sha256 run revision.pull_request_id revision.id [] fs db,
          )))
  where
    fs : List Finding
    fs = keep (λ f. f.review_run_id == review_run_id) db.findings
