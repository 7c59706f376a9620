-- ===== src/Findings/Reconcile/Invariant.antt =====
-- The constraints of the table of groups under reconciliation: primary keys, fresh keys, and
-- `uq_github_finding_groups_pr_fingerprint`.
use revy.Common.{
  ℕ, suc, ◌<◌, String, ◌≡◌, ◌≢◌, none, List, [], ◌∷◌, arith, eq_iff, All-map, All-append_one,
  find-none, Bool-cases, inl, inr,
}
use revy.Common.Table
use revy.Findings.Rows.{Group, Finding, ReviewRun, Db}
use revy.Findings.Reconcile.Cases.{bind_cases, reconcile_cases}
use revy.Findings.Reconcile.{
  BoundVia, is_skipped, load_group_by_fingerprint, rebind, new_group, add_group, bind_found,
  set_group_id, finding_fingerprint, claim_slot_key, lookup_group, bind_group_for_finding,
  link_findings, reconcile_review_run,
}

-- Not the same pull request and fingerprint.
abbrev pub OtherKey : Group → Group → Type 0
OtherKey g h = g.pull_request_id ≡ h.pull_request_id → g.fingerprint ≢ h.fingerprint

pub record IsWf (db : Db) : Type 0 where
  pub ids : Table.IsUnique Group.id db.groups
  pub fresh : Table.Below Group.id db.next_id db.groups
  pub keys : Table.IsPairwise OtherKey db.groups

-- A new group goes in where no row has its fingerprint yet.
pub add_group-IsWf :
    (workspace_id pull_request_id : ℕ) (fingerprint slot : String) (revision_id : ℕ) (f : Finding)
    (db : Db)
    → load_group_by_fingerprint db.groups pull_request_id fingerprint ≡ none
    → IsWf db
    → IsWf (add_group workspace_id pull_request_id fingerprint slot revision_id f db).0
unfolding add_group load_group_by_fingerprint
add_group-IsWf workspace_id pull_request_id fingerprint slot revision_id f db missing wf =
    let g = new_group db.next_id workspace_id pull_request_id fingerprint slot revision_id f in
    record {
      ids =
          Table.append_one-IsPairwise (λ x y. x.id ≢ y.id) g db.groups wf.ids
            (All-map (λ x. x.id < db.next_id) (λ x. x.id ≢ db.next_id) db.groups
              (λ x h. omega arith) wf.fresh);
      fresh =
          All-append_one (λ x. x.id < suc db.next_id) db.groups g
            (All-map (λ x. x.id < db.next_id) (λ x. x.id < suc db.next_id) db.groups
              (λ x h. omega arith) wf.fresh)
            (omega arith);
      keys = Table.append_one-IsPairwise OtherKey g db.groups wf.keys (
          All-map _ (λ x. OtherKey x g) db.groups
            (λ x h p q. ground (arith, eq_iff x.fingerprint fingerprint))
            (find-none _ db.groups missing));
    }

module _ (via : BoundVia) (slot : String) (revision_id : ℕ) (f : Finding) where
  pub id-rebind : (g : Group) → (rebind via slot revision_id f g).id ≡ g.id
  unfolding rebind
  id-rebind g = ground arith

  pub pull_request_id-rebind :
      (g : Group) → (rebind via slot revision_id f g).pull_request_id ≡ g.pull_request_id
  unfolding rebind
  pull_request_id-rebind g = ground arith

  pub fingerprint-rebind :
      (g : Group) → (rebind via slot revision_id f g).fingerprint ≡ g.fingerprint
  unfolding rebind
  fingerprint-rebind g = ground arith

  -- Writes to a found group leave its keys alone.
  pub bind_found-IsWf :
      (g : Group) (db : Db) → IsWf db → IsWf (bind_found via slot revision_id f g db).0
  unfolding bind_found
  bind_found-IsWf g db wf = elim (Bool-cases (is_skipped g)) [
    | inl skip ↦ rw skip wf
    | inr go ↦ rw go (record {
      ids =
          Table.update-IsPairwise Group.id (λ x y. x.id ≢ y.id) g.id change db.groups
            (λ x y h. rw id-rebind h) (λ x y h. rw id-rebind h) wf.ids;
      fresh =
          Table.All-update Group.id (λ x. x.id < db.next_id) g.id change db.groups
            (λ x m e h. rw id-rebind h) wf.fresh;
      keys =
          Table.update-IsPairwise Group.id OtherKey g.id change db.groups
            (λ x y h. rw (pull_request_id-rebind, fingerprint-rebind) h)
            (λ x y h. rw (pull_request_id-rebind, fingerprint-rebind) h) wf.keys;
    })
  ]
    where
      change : Group → Group
      change = rebind via slot revision_id f

pub set_group_id-IsWf :
    (f : Finding) (group_id : ℕ) (db : Db) → IsWf db → IsWf (set_group_id f group_id db)
unfolding set_group_id
set_group_id-IsWf f group_id db wf = record { ids = wf.ids; fresh = wf.fresh; keys = wf.keys }

module _ (sha256 : String → String) (run : ReviewRun) (pull_request_id revision_id : ℕ) where
  -- Where the lookups find nothing, no row has the finding's fingerprint.
  pub lookup_group-none :
      (f : Finding) (bound : List ℕ) (groups : List Group)
      → lookup_group sha256 run pull_request_id f bound groups ≡ none
      → load_group_by_fingerprint groups pull_request_id
          (finding_fingerprint sha256 run pull_request_id f)
        ≡ none
  unfolding lookup_group
  lookup_group-none f bound groups h = ground arith

  pub bind_group_for_finding-IsWf :
      (f : Finding) (bound : List ℕ) (db : Db)
      → IsWf db
      → IsWf (bind_group_for_finding sha256 run pull_request_id revision_id f bound db).0
  bind_group_for_finding-IsWf f bound db wf =
      elim (bind_cases sha256 run pull_request_id revision_id f bound db) [
        | inl (missing, e) ↦ rw e (
            add_group-IsWf run.workspace_id pull_request_id _ _ revision_id f db
              (lookup_group-none f bound db.groups missing) wf)
        | inr (via, g, found, e) ↦
            rw e (bind_found-IsWf via (claim_slot_key sha256 f.title) revision_id f g db wf)
      ]

  pub link_findings-IsWf :
      (bound : List ℕ) (fs : List Finding) (db : Db)
      → IsWf db
      → IsWf (link_findings sha256 run pull_request_id revision_id bound fs db).0
  unfolding link_findings
  link_findings-IsWf bound [] db wf = wf
  link_findings-IsWf bound (f ∷ fs) db wf =
      let (db₁, g) = bind_group_for_finding sha256 run pull_request_id revision_id f bound db in
      link_findings-IsWf (g.id ∷ bound) fs (set_group_id f g.id db₁)
        (set_group_id-IsWf f g.id db₁ (bind_group_for_finding-IsWf f bound db wf))

-- Reconciling any run, known or not, finished or not, keeps the three constraints on the table of
-- groups: distinct primary keys, keys below the next one, and at most one group for each fingerprint
-- in a pull request.
pub reconcile_review_run-IsWf :
    (sha256 : String → String) (review_run_id : ℕ) (db : Db)
    → IsWf db
    → IsWf (reconcile_review_run sha256 review_run_id db).0
reconcile_review_run-IsWf sha256 review_run_id db wf =
    elim (reconcile_cases sha256 review_run_id db) [
      | inl e ↦ rw e wf
      | inr (run, revision, known, done, seen, e) ↦
          rw e (link_findings-IsWf sha256 run revision.pull_request_id revision.id [] _ db wf)
    ]
