-- ===== src/Findings/Reconcile/Identity.antt =====
-- The persistent identity of a finding: workspace, pull request, path, category and claim.
use revy.Common.{
  ℕ, String, ◌≡◌, sym, ap, ◌∙◌, Bool, ◌&&◌, some, List, arith, ◌==◌, str_eq, eq_iff, Has, find-Has,
  find-some_of_Has, strip, length,
}
use revy.Common.Table
use revy.Findings.Rows.{Group, Finding, ReviewRun, Db}
use revy.Findings.Reconcile.Invariant.{IsWf, OtherKey, id-rebind}
use revy.Findings.Reconcile.{
  BoundVia, new, load_group_by_fingerprint, rebind, bind_found, finding_fingerprint, claim_slot_key,
  lookup_group, bind_group_for_finding,
}

-- By the constraint on fingerprints the lookup returns the row, and no other.
load_group_by_fingerprint-row :
    (groups : List Group) (g : Group)
    → Table.IsPairwise OtherKey groups
    → Has g groups
    → load_group_by_fingerprint groups g.pull_request_id g.fingerprint ≡ some g
unfolding load_group_by_fingerprint
load_group_by_fingerprint-row groups g keys m =
    let p : Group → Bool =
      λ h. h.pull_request_id == g.pull_request_id && str_eq h.fingerprint g.fingerprint in
    let (found, e) =
      find-some_of_Has p g groups m (ground (arith, eq_iff g.fingerprint g.fingerprint)) in
    let (row, met) = find-Has p groups e in
    let same_request : found.pull_request_id ≡ g.pull_request_id = ground arith in
    let same_print : found.fingerprint ≡ g.fingerprint =
      ground (arith, eq_iff found.fingerprint g.fingerprint) in
    let same : found ≡ g =
      Table.pairwise_rows OtherKey found g groups keys row m
        (λ apart. apart same_request same_print)
        (λ apart. apart (sym same_request) (sym same_print)) in
    e ∙ ap some same

bind_found-same_row :
    (via : BoundVia) (slot : String) (revision_id : ℕ) (f : Finding) (g : Group) (db : Db)
    → let (db', g') = bind_found via slot revision_id f g db in
      (g'.id ≡ g.id) × (length db'.groups ≡ length db.groups)
unfolding bind_found
bind_found-same_row via slot revision_id f g db = ground (
  arith,
  id-rebind via slot revision_id f g,
  Table.length-update Group.id g.id (rebind via slot revision_id f) db.groups,
)

module _ (sha256 : String → String) (run : ReviewRun) where
  same_claim-fingerprint :
      (pull_request_id : ℕ) (f h : Finding)
      → h.file_path ≡ f.file_path
      → h.category ≡ f.category
      → strip h.title ≡ strip f.title
      → finding_fingerprint sha256 run pull_request_id h
        ≡ finding_fingerprint sha256 run pull_request_id f
  unfolding claim_slot_key
  same_claim-fingerprint pull_request_id f h path category title = cc

  lookup_group-by_fingerprint :
      (pull_request_id : ℕ) (f : Finding) (bound : List ℕ) (groups : List Group) (g : Group)
      → load_group_by_fingerprint groups pull_request_id
          (finding_fingerprint sha256 run pull_request_id f)
        ≡ some g
      → lookup_group sha256 run pull_request_id f bound groups ≡ some (new, g)
  unfolding lookup_group
  lookup_group-by_fingerprint pull_request_id f bound groups g found = rw (found, lookup_group)

module _ (sha256 : String → String) (run : ReviewRun) (revision_id : ℕ) where
  -- Once a group has the fingerprint of a finding, a later report with the same path, category and
  -- title (up to surrounding space) is bound to that group, whatever its line, severity or message and
  -- whatever was bound before: the call returns the group's key and adds no row.
  pub bind-same_claim :
      (f h : Finding) (bound : List ℕ) (g : Group) (db : Db)
      → IsWf db
      → Has g db.groups
      → g.fingerprint ≡ finding_fingerprint sha256 run g.pull_request_id f
      → h.file_path ≡ f.file_path
      → h.category ≡ f.category
      → strip h.title ≡ strip f.title
      → let (db', g') =
          bind_group_for_finding sha256 run g.pull_request_id revision_id h bound db in
        (g'.id ≡ g.id) × (length db'.groups ≡ length db.groups)
  unfolding bind_group_for_finding
  bind-same_claim f h bound g db wf m print path category title =
      rw
        (
          lookup_group-by_fingerprint sha256 run g.pull_request_id h bound db.groups g found,
          bind_group_for_finding,
        )
        (bind_found-same_row new (claim_slot_key sha256 h.title) revision_id h g db)
    where
      found :
          load_group_by_fingerprint db.groups g.pull_request_id
            (finding_fingerprint sha256 run g.pull_request_id h)
          ≡ some g
      found =
          rw (same_claim-fingerprint sha256 run g.pull_request_id f h path category title, ← print)
            (load_group_by_fingerprint-row db.groups g wf.keys m)
