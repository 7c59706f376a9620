-- ===== src/Findings/Closure.antt =====
-- services/github_finding_closure.py: Pass 2, which closes the groups that a new run no longer reports,
-- and the dismissal of a group by a person.
pub mod Pass2
pub mod Dismiss
use revy.Common.{
  ℕ, suc, String, Bool, true, false, not, ◌&&◌, ◌||◌, Option, none, some, List, [], ◌∷◌, map, ◌==◌,
  str_eq, if◌then◌else◌, keep, find, any_of, count_if, option_eq, ltb,
}
use revy.Common.Errors.{
  PlatformException, raise_with, not_found, conflict, Result, ok, err, ensure, ensure_some, ◌>>=◌,
  ◌>>◌,
}
use revy.Common.Table
use revy.Enums.{FindingCategory, ResolutionStatus, category_eq, is_active, is_completed_run}
use revy.Findings.Rows.{Group, Finding, ReviewRun, Revision, PullRequest, Repository, Db}
use revy.Findings.Rules.{
  should_close_absent_and_addressed, closure_fields_for_absent_and_addressed, set_fields,
  apply_resolution_method_on_human_dismiss,
}
use revy.Findings.Reconcile.{path_or_empty}
use revy.Findings.Paths.{Fetched, paths_absent_at_head, absent, has_path}
use revy.Findings.Published.{
  latest, get_last_published_prior_revision, get_intermediate_revision_ids_between,
  prior_publish_pairing_revision_ids,
}

abbrev pub has_id : ℕ → List ℕ → Bool
has_id i ids = any_of (λ j. j == i) ids

unfoldable pub bound_group_ids_this_run : Db → ℕ → List ℕ
bound_group_ids_this_run db revision_id =
    map Group.id (keep (λ g. g.last_seen_revision_id == revision_id) db.groups)

-- `counts_by_key.get(file_key, 0)`. The query groups by path and category; a missing path and an empty
-- one have the same key, and are counted together here.
unfoldable pub this_run_finding_count : Db → ℕ → String → FindingCategory → ℕ
this_run_finding_count db review_run_id path category =
    count_if
      (λ f.
        f.review_run_id == review_run_id
        && str_eq (path_or_empty f.file_path) path
        && category_eq f.category category)
      db.findings

abbrev pub is_addressed : Option ResolutionStatus → Bool
is_addressed (some ResolutionStatus.addressed) = true
is_addressed _ = false

-- The groups that Pass 2 loads.
unfoldable pub is_pass2_candidate : ℕ → List ℕ → Group → Bool
is_pass2_candidate pull_request_id pairing_revision_ids g =
    g.pull_request_id == pull_request_id
    && is_active g.state
    && (has_id g.last_seen_revision_id pairing_revision_ids || is_addressed g.resolution_status)

-- `frozenset({g.file_path for g in groups if g.file_path})`
abbrev group_file_paths : List Group → List String
group_file_paths [] = []
group_file_paths (g ∷ gs) =
    let rest = group_file_paths gs in
    let path = path_or_empty g.file_path in
    if str_eq path "" || has_path path rest then rest else path ∷ rest

-- `{path for path, gone in absent.items() if gone}`
abbrev gone_paths : List (String × Option Bool) → List String
gone_paths [] = []
gone_paths ((p, some true) ∷ rest) = p ∷ gone_paths rest
gone_paths ((p, some false) ∷ rest) = gone_paths rest
gone_paths ((p, none) ∷ rest) = gone_paths rest

-- What Pass 2 compares each group with.
pub record Pass2Context : Type 0 where
  pub revision_id : ℕ
  pub bound_group_ids : List ℕ
  pub finding_count : String → FindingCategory → ℕ
  pub path_gone_paths : List String

-- The test of one group in the loop.
unfoldable pub closes : Pass2Context → Group → Bool
closes c g =
    should_close_absent_and_addressed g.state (has_id g.id c.bound_group_ids)
      (c.finding_count (path_or_empty g.file_path) g.category)
      (has_path (path_or_empty g.file_path) c.path_gone_paths) g.closure_blocked_reason

unfoldable pub close_group : ℕ → Group → Group
unfolding set_fields closure_fields_for_absent_and_addressed
close_group revision_id = set_fields (closure_fields_for_absent_and_addressed revision_id)

-- The loop, with the number of groups that it closes.
unfoldable pub close_groups : Pass2Context → List Group → List Group → List Group × ℕ
close_groups c [] table = (table, 0)
close_groups c (g ∷ gs) table =
    let (table', closed) = close_groups c gs (
      if closes c g then Table.update Group.id g.id (close_group c.revision_id) table else table) in
    (table', if closes c g then suc closed else closed)

-- The groups that Pass 2 loads, given the prior revision.
unfoldable pub pass2_groups : Db → Revision → Revision → List Group
pass2_groups db revision prior =
    keep
      (is_pass2_candidate revision.pull_request_id (
        prior_publish_pairing_revision_ids prior
          (get_intermediate_revision_ids_between db revision.pull_request_id prior revision)))
      db.groups

module _ (fetch : ℕ → String → String → String → String → Fetched) where
  unfoldable pub resolve_absent_paths : Db → Revision → List String → List String
  resolve_absent_paths db revision [] = []
  resolve_absent_paths db revision (p ∷ ps) =
      elim (Table.get PullRequest.id revision.pull_request_id db.pull_requests) [
        | none ↦ []
        | some pull_request ↦
            gone_paths (paths_absent_at_head fetch db pull_request revision.head_sha (p ∷ ps) [] [])
      ]

  unfoldable pub pass2_context : Db → ℕ → Revision → List Group → Pass2Context
  pass2_context db review_run_id revision groups = record {
    revision_id = revision.id;
    bound_group_ids = bound_group_ids_this_run db revision.id;
    finding_count = this_run_finding_count db review_run_id;
    path_gone_paths = resolve_absent_paths db revision (group_file_paths groups);
  }

  unfoldable pub apply_pass2_closure_for_review_run : ℕ → Db → Db × ℕ
  apply_pass2_closure_for_review_run review_run_id db =
      elim (Table.get ReviewRun.id review_run_id db.runs) [
        | none ↦ (db, 0)
        | some run ↦
            if not (is_completed_run run.status)
            then (db, 0)
            else elim (Table.get Revision.id run.revision_id db.revisions) [
              | none ↦ (db, 0)
              | some revision ↦
                  elim (get_last_published_prior_revision db revision.pull_request_id revision) [
                    | none ↦ (db, 0)
                    | some prior ↦
                        let groups = pass2_groups db revision prior in
                        let (table, closed) =
                          close_groups (pass2_context db review_run_id revision groups) groups
                            db.groups in
                        (record db { groups = table }, closed)
                  ]
            ]
      ]

-- `_ensure_pull_request_access`: the pull request belongs to the repository and both to the workspace.
unfoldable pub ensure_pull_request_access : Db → ℕ → ℕ → ℕ → Result (Unit {0})
ensure_pull_request_access db workspace_id repository_id pull_request_id =
    ensure
      (any_of
        (λ p.
          p.id == pull_request_id
          && p.repository_id == repository_id
          && p.workspace_id == workspace_id
          && any_of (λ r. r.id == repository_id && r.workspace_id == workspace_id) db.repositories)
        db.pull_requests)
      (raise_with not_found "Pull request not found" none)

unfoldable pub dismiss_finding_group : ℕ → ℕ → ℕ → ℕ → Db → Result (Db × Group)
unfolding set_fields apply_resolution_method_on_human_dismiss
dismiss_finding_group workspace_id repository_id pull_request_id group_id db = do
  ensure_pull_request_access db workspace_id repository_id pull_request_id
  group ←
      ensure_some (Table.get Group.id group_id db.groups)
        (raise_with not_found "Finding group not found" none)
  ensure (group.workspace_id == workspace_id && group.pull_request_id == pull_request_id)
      (raise_with not_found "Finding group not found" none)
  ensure (is_active group.state)
      (raise_with conflict "Finding group is not active" (some "group_not_active"))
  head_revision ←
      ensure_some (latest (keep (λ r. r.pull_request_id == pull_request_id) db.revisions))
        (raise_with not_found "Pull request revision not found" none)
  let dismiss = set_fields (apply_resolution_method_on_human_dismiss head_revision.id)
  ok (record db { groups = Table.update Group.id group.id dismiss db.groups }, dismiss group)
