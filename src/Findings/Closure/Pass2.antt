-- ===== src/Findings/Closure/Pass2.antt =====
-- What Pass 2 closes and what it leaves.
mod Loop
use Loop.{closed_if, close_groups-row, count-close_groups, length-close_groups}
use revy.Common.{
  ℕ, String, ◌≡◌, ◌≢◌, refl, sym, ap, ◌∙◌, subst, Bool, true, false, ◌&&◌, ◌||◌, Option, none, some,
  List, [], ◌∷◌, map, arith, ◌==◌, str_eq, eq_iff, if◌then◌else◌, keep, any_of, count_if, length,
  Has, keep-Has, All, Has-All, All-of_Has, Bool-cases, Option-cases, inl, inr, ◌⊎◌,
}
use revy.Common.Table
use revy.Enums.{
  FindingCategory, GitHubFindingGroupState, ResolutionMethod, category_eq, category_eq_refl,
  is_active, is_completed_run,
}
use revy.Findings.Rows.{Group, Finding, ReviewRun, Revision, Db}
use revy.Findings.Rules.{should_close_absent_and_addressed}
use revy.Findings.Reconcile.{path_or_empty}
use revy.Findings.Paths.{Fetched, has_path}
use revy.Findings.Published.{
  get_last_published_prior_revision, get_intermediate_revision_ids_between,
  prior_publish_pairing_revision_ids,
}
use revy.Findings.Closure.{
  has_id, bound_group_ids_this_run, this_run_finding_count, is_addressed, is_pass2_candidate,
  group_file_paths, resolve_absent_paths, Pass2Context, closes, close_group, close_groups,
  pass2_context, pass2_groups, apply_pass2_closure_for_review_run,
}

-- A group last seen at the revision is bound in this run.
bound-last_seen :
    (groups : List Group) (revision_id : ℕ) (g : Group)
    → Has g groups
    → g.last_seen_revision_id ≡ revision_id
    → has_id g.id (map Group.id (keep (λ h. h.last_seen_revision_id == revision_id) groups)) ≡ true
bound-last_seen [] revision_id g m e = absurd m
bound-last_seen (h ∷ gs) revision_id g (inl same) e =
    ground (arith, ap Group.id same, ap Group.last_seen_revision_id same)
bound-last_seen (h ∷ gs) revision_id g (inr m) e =
    ground (arith, bound-last_seen gs revision_id g m e)

-- A group last seen at another revision is not: the rows have distinct keys.
unbound-last_seen :
    (table groups : List Group) (revision_id : ℕ) (g : Group)
    → Table.IsUnique Group.id table
    → Has g table
    → All (λ h. Has h table) groups
    → g.last_seen_revision_id ≢ revision_id
    → has_id g.id (map Group.id (keep (λ h. h.last_seen_revision_id == revision_id) groups)) ≡ false
unbound-last_seen table [] revision_id g unique m rows e = refl
unbound-last_seen table (h ∷ gs) revision_id g unique m rows e = ground (
  arith,
  Table.unique_rows Group.id h g table unique rows.0 m,
  λ (same : h ≡ g). ap Group.last_seen_revision_id same,
  unbound-last_seen table gs revision_id g unique m rows.1 e,
)

-- A finding of the run on the group's path and in its category is counted.
counted :
    (findings : List Finding) (test : Finding → Bool) (f : Finding)
    → Has f findings
    → test f ≡ true
    → (count_if test findings == 0) ≡ false
counted [] test f m h = absurd m
counted (x ∷ fs) test f (inl e) h = ground arith
counted (x ∷ fs) test f (inr m) h = ground (arith, counted fs test f m h)

module _ (fetch : ℕ → String → String → String → String → Fetched) (review_run_id : ℕ) (db : Db)
    (run : ReviewRun) (revision prior : Revision)
    (known : Table.get ReviewRun.id review_run_id db.runs ≡ some run)
    (done : is_completed_run run.status ≡ true)
    (seen : Table.get Revision.id run.revision_id db.revisions ≡ some revision)
    (found : get_last_published_prior_revision db revision.pull_request_id revision
      ≡ some prior) where
  abbrev after : Db × ℕ
  after = apply_pass2_closure_for_review_run fetch review_run_id db

  abbrev context : Pass2Context
  context = pass2_context fetch db review_run_id revision (pass2_groups db revision prior)

  abbrev pairing : List ℕ
  pairing =
      prior_publish_pairing_revision_ids prior
        (get_intermediate_revision_ids_between db revision.pull_request_id prior revision)

  after-close_groups : after ≡ (
      let (table, n) = close_groups context (pass2_groups db revision prior) db.groups in
      (record db { groups = table }, n))
  unfolding apply_pass2_closure_for_review_run
  after-close_groups =
      rw (known, apply_pass2_closure_for_review_run)
        (rw done (
          rw (seen, apply_pass2_closure_for_review_run)
            (rw (found, apply_pass2_closure_for_review_run))))

  after-row :
      (g : Group)
      → Table.IsUnique Group.id db.groups
      → Has g db.groups
      → Has
          (if is_pass2_candidate revision.pull_request_id pairing g then closed_if context g else g)
          after.0.groups
  after-row g unique row = rw after-close_groups (
      unfold pass2_groups in
      close_groups-row context (is_pass2_candidate revision.pull_request_id pairing) db.groups g
        unique row)

  -- A finding of the run on the path and in the category of the group.
  abbrev pub IsReportOf : Group → Finding → Type 0
  IsReportOf g f =
      Has f db.findings
      × (f.review_run_id ≡ review_run_id)
      × (path_or_empty f.file_path ≡ path_or_empty g.file_path)
      × (f.category ≡ g.category)

  abbrev pub is_path_gone : Group → Bool
  is_path_gone g = has_path (path_or_empty g.file_path) context.path_gone_paths

  -- The reasons for which a group stays as it is.
  abbrev pub IsProtected : Group → Type 0
  IsProtected g =
      (g.last_seen_revision_id ≡ revision.id)
      ⊎ ((reason : String) × (g.closure_blocked_reason ≡ some reason))
      ⊎ (g.state ≢ GitHubFindingGroupState.active)
      ⊎ (g.pull_request_id ≢ revision.pull_request_id)
      ⊎ ((f : Finding) × IsReportOf g f × (is_path_gone g ≡ false))

  closes-bound :
      (g : Group)
      → Has g db.groups
      → g.last_seen_revision_id ≡ revision.id
      → closes context g ≡ false
  unfolding closes should_close_absent_and_addressed pass2_context bound_group_ids_this_run
  closes-bound g m e = ground (arith, bound-last_seen db.groups revision.id g m e)

  closes-blocked :
      (g : Group) (reason : String)
      → g.closure_blocked_reason ≡ some reason
      → closes context g ≡ false
  unfolding closes should_close_absent_and_addressed
  closes-blocked g reason e = ground arith

  closes-inactive :
      (g : Group) → g.state ≢ GitHubFindingGroupState.active → closes context g ≡ false
  unfolding closes should_close_absent_and_addressed
  closes-inactive g e = ground arith

  count-reported :
      (g : Group) (f : Finding)
      → IsReportOf g f
      → (this_run_finding_count db review_run_id (path_or_empty g.file_path) g.category == 0)
        ≡ false
  unfolding this_run_finding_count
  count-reported g f report = counted db.findings _ f report.0 (
      ground (
        arith,
        eq_iff (path_or_empty f.file_path) (path_or_empty g.file_path),
        category_eq_refl g.category,
      ))

  closes-reported :
      (g : Group) (f : Finding) → IsReportOf g f → is_path_gone g ≡ false → closes context g ≡ false
  unfolding closes should_close_absent_and_addressed pass2_context
  closes-reported g f report there = ground (arith, count-reported g f report)

  other_pull_request :
      (g : Group)
      → g.pull_request_id ≢ revision.pull_request_id
      → is_pass2_candidate revision.pull_request_id pairing g ≡ false
  unfolding is_pass2_candidate
  other_pull_request g away = ground arith

  protects :
      (g : Group)
      → Has g db.groups
      → IsProtected g
      → (closes context g ≡ false) ⊎ (is_pass2_candidate revision.pull_request_id pairing g ≡ false)
  protects g row (inl bound) = inl (closes-bound g row bound)
  protects g row (inr (inl (reason, e))) = inl (closes-blocked g reason e)
  protects g row (inr (inr (inl idle))) = inl (closes-inactive g idle)
  protects g row (inr (inr (inr (inl away)))) = inr (other_pull_request g away)
  protects g row (inr (inr (inr (inr (f, report, there))))) = inl (closes-reported g f report there)

  -- Pass 2 leaves a row of the table exactly as it is if the group was bound in this run, or its closure
  -- is blocked, or it is not active, or it belongs to another pull request, or the run still reports a
  -- finding on its path and in its category and the path is not gone.
  pub pass2-keeps_protected :
      (g : Group)
      → Table.IsUnique Group.id db.groups
      → Has g db.groups
      → IsProtected g
      → Has g after.0.groups
  pass2-keeps_protected g unique row protected = elim (protects g row protected) [
    | inl open_ ↦
        let left = after-row g unique row in
        elim (Bool-cases (is_pass2_candidate revision.pull_request_id pairing g)) [
          | inl t ↦ rw (t, open_) at left
          | inr f ↦ rw f at left
        ]
    | inr skipped ↦ rw skipped at (after-row g unique row)
  ]

  candidate :
      (g : Group)
      → g.pull_request_id ≡ revision.pull_request_id
      → g.state ≡ GitHubFindingGroupState.active
      → (has_id g.last_seen_revision_id pairing ≡ true) ⊎ (is_addressed g.resolution_status ≡ true)
      → is_pass2_candidate revision.pull_request_id pairing g ≡ true
  unfolding is_pass2_candidate
  candidate g mine active stale = ground arith

  closes-absent :
      (g : Group)
      → Table.IsUnique Group.id db.groups
      → Has g db.groups
      → g.state ≡ GitHubFindingGroupState.active
      → g.closure_blocked_reason ≡ none
      → g.last_seen_revision_id ≢ revision.id
      → (is_path_gone g ≡ true)
        ⊎ (this_run_finding_count db review_run_id (path_or_empty g.file_path) g.category ≡ 0)
      → closes context g ≡ true
  unfolding closes should_close_absent_and_addressed pass2_context bound_group_ids_this_run
  closes-absent g unique row active free unseen gone = ground (
    arith,
    unbound-last_seen db.groups db.groups revision.id g unique row
        (All-of_Has (λ h. Has h db.groups) db.groups (λ h m. m)) unseen,
  )

  -- Pass 2 closes a group of the pull request that is active and not blocked, was last seen at the last
  -- published revision or one after it but before this one, or is marked as addressed, and whose path is
  -- gone or has no finding of the run in the group's category: its row is then resolved at this revision.
  pub pass2-closes_absent :
      (g : Group)
      → Table.IsUnique Group.id db.groups
      → Has g db.groups
      → g.pull_request_id ≡ revision.pull_request_id
      → g.state ≡ GitHubFindingGroupState.active
      → g.closure_blocked_reason ≡ none
      → g.last_seen_revision_id ≢ revision.id
      → (has_id g.last_seen_revision_id pairing ≡ true) ⊎ (is_addressed g.resolution_status ≡ true)
      → (is_path_gone g ≡ true)
        ⊎ (this_run_finding_count db review_run_id (path_or_empty g.file_path) g.category ≡ 0)
      → Has
          (record g {
            state = GitHubFindingGroupState.resolved;
            resolution_method = some ResolutionMethod.absent_and_addressed;
            resolved_at_revision_id = some revision.id;
            closure_blocked_reason = none;
          })
          after.0.groups
  unfolding pass2_context close_group
  pass2-closes_absent g unique row mine active free unseen stale gone =
      rw (candidate g mine active stale, closes-absent g unique row active free unseen gone) at
        (after-row g unique row)
