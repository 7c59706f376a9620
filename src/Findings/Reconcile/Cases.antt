-- ===== src/Findings/Reconcile/Cases.antt =====
-- The two ways that a finding is bound, and the two ways that a reconciliation ends.
use revy.Common.{
  ℕ, String, ◌≡◌, true, none, some, List, [], ◌⊎◌, inl, inr, arith, ◌==◌, keep, Option-cases,
}
use revy.Common.Table
use revy.Enums.{is_completed_run}
use revy.Findings.Rows.{Group, Finding, ReviewRun, Revision, Db}
use revy.Findings.Reconcile.{
  BoundVia, add_group, bind_found, finding_fingerprint, claim_slot_key, lookup_group,
  bind_group_for_finding, link_findings, reconcile_review_run,
}

module _ (sha256 : String → String) where
  pub bind_cases :
      (run : ReviewRun) (pull_request_id revision_id : ℕ) (f : Finding) (bound : List ℕ) (db : Db)
      → ((lookup_group sha256 run pull_request_id f bound db.groups ≡ none)
          × (bind_group_for_finding sha256 run pull_request_id revision_id f bound db
              ≡ add_group run.workspace_id pull_request_id
                  (finding_fingerprint sha256 run pull_request_id f)
                  (claim_slot_key sha256 f.title)
                  revision_id
                  f
                  db))
        ⊎ ((via : BoundVia) × (g : Group) × (lookup_group sha256 run pull_request_id f bound
                db.groups
              ≡ some (via, g))
            × (bind_group_for_finding sha256 run pull_request_id revision_id f bound db
                ≡ bind_found via (claim_slot_key sha256 f.title) revision_id f g db))
  unfolding bind_group_for_finding
  bind_cases run pull_request_id revision_id f bound db =
      elim (Option-cases (lookup_group sha256 run pull_request_id f bound db.groups)) [
        | inl e ↦ inl (e, ground arith)
        | inr (p, e) ↦ inr (p.0, p.1, e, ground arith)
      ]

  pub reconcile_cases :
      (review_run_id : ℕ) (db : Db)
      → (reconcile_review_run sha256 review_run_id db ≡ (db, []))
        ⊎ ((run : ReviewRun) × (revision : Revision) × (Table.get ReviewRun.id review_run_id db.runs
              ≡ some run)
            × (is_completed_run run.status ≡ true)
            × (Table.get Revision.id run.revision_id db.revisions ≡ some revision)
            × (reconcile_review_run sha256 review_run_id db
                ≡ link_findings sha256 run revision.pull_request_id revision.id []
                    (keep (λ f. f.review_run_id == review_run_id) db.findings)
                    db))
  unfolding reconcile_review_run
  reconcile_cases review_run_id db = ground arith
