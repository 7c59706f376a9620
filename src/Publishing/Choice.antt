-- ===== src/Publishing/Choice.antt =====
-- What of a pull request is published: the groups, the fingerprints with an inline comment and the earlier jobs
-- of services/github_publish.py, with the judge's test of services/github_finding_judge.py.
pub mod Aligned
use revy.Common.{
  ℕ, suc, String, Bool, true, false, not, ◌&&◌, ◌||◌, Option, none, some, List, [], ◌∷◌, ◌++◌, ◌==◌,
  leb, if◌then◌else◌, any_of, keep, find, map, uuid_str, is_some, option_eq, str_eq,
}
use Prim.Native.Nat.{Ordering}
use Prim.Native.String.{compare}
use revy.Common.Dict.{Dict, is_in, merge, keys}
use revy.Common.Json.{ℤ, Json, Items, nil, cons, Members, as_text, as_dict}
use revy.Common.Options.{◌>>=◌}
use revy.Common.Table
use revy.Enums.{
  FindingSeverity, FindingCategory, GitHubPublishJobStatus, is_active, is_resolved, is_superseded,
}
use revy.Findings.Rows.{Db, Group, Finding, PublishJob, Revision}
use revy.Findings.Reconcile.{path_or_empty}
use revy.Publishing.Threads.{
  load_inline_thread_map, deserialize_inline_thread_map, summary_key,
  rekey_inline_thread_map_to_group_ids,
}
use revy.Publishing.Jobs.{find_last}
use revy.Publishing.Stale.{add}

abbrev pub is_judge_candidate : FindingSeverity → FindingCategory → Bool
is_judge_candidate FindingSeverity.error category = true
is_judge_candidate FindingSeverity.critical category = true
is_judge_candidate FindingSeverity.warning FindingCategory.security = true
is_judge_candidate _ _ = false

-- "success" without an active group, or else "neutral".
unfoldable pub compute_check_conclusion : List Group → String
compute_check_conclusion groups =
    if any_of (λ g. is_active g.state) groups then "neutral" else "success"

-- The group of a finding, if there is one.
abbrev pub group_of : Db → Finding → Option Group
group_of db f = f.group_id >>= λ i. Table.get Group.id i db.groups

-- A judge of the run has an outcome for the group.
abbrev pub has_outcome : Db → ℕ → Group → Bool
has_outcome db review_run_id g =
    any_of (λ o. o.review_run_id == review_run_id && o.group_id == g.id) db.judge_outcomes

-- The join and the conditions of `inline_publish_findings_statement`; its severities are all there are.
abbrev pub is_inline_with : Finding → Option Group → Bool
is_inline_with f none = false
is_inline_with f (some g) = is_active g.state && is_some f.file_path && is_some f.start_line

unfoldable pub is_inline_finding : Db → ℕ → Finding → Bool
is_inline_finding db review_run_id f =
    f.review_run_id == review_run_id && is_inline_with f (group_of db f)

module _ (db : Db) (review_run_id pull_request_id : ℕ) where
  abbrev pub is_ungated : Finding → Group → Bool
  is_ungated f g =
      is_judge_candidate f.severity f.category
      && not (has_outcome db review_run_id g)
      && not (is_resolved g.state)

  abbrev pub fingerprint_with : Finding → Option Group → Option String
  fingerprint_with f none = none
  fingerprint_with f (some g) =
      if not (g.pull_request_id == pull_request_id)
      then none
      else if is_ungated f g
      then none
      else some (uuid_str g.id)

  abbrev pub fingerprints_from : List Finding → List String
  fingerprints_from [] = []
  fingerprints_from (f ∷ fs) =
      let rest = fingerprints_from fs in
      elim (fingerprint_with f (group_of db f)) [ none ↦ rest | some k ↦ add k rest ]

  -- `_publishable_fingerprints_for_run`
  unfoldable pub publishable_fingerprints_for_run : List String
  unfolding is_inline_finding
  publishable_fingerprints_for_run =
      fingerprints_from (keep (is_inline_finding db review_run_id) db.findings)

  -- The branches of the loop that chooses the groups.
  abbrev pub is_publishable : Finding → Group → Bool
  is_publishable f g =
      if is_superseded g.state
      then false
      else if is_resolved g.state
      then true
      else if not (is_judge_candidate f.severity f.category)
      then true
      else has_outcome db review_run_id g

  abbrev pub publishable_with : Finding → Option Group → Option Group
  publishable_with f none = none
  publishable_with f (some g) =
      if not (g.pull_request_id == pull_request_id)
      then none
      else if is_publishable f g
      then some g
      else none

  -- `publishable[group.id] = group`; the order is that of the sort that follows.
  abbrev pub note_group : Group → List Group → List Group
  note_group g gs = if any_of (λ h. h.id == g.id) gs then gs else g ∷ gs

  abbrev pub groups_from : List Finding → List Group
  groups_from [] = []
  groups_from (f ∷ fs) =
      let rest = groups_from fs in
      elim (publishable_with f (group_of db f)) [ none ↦ rest | some g ↦ note_group g rest ]

-- `severity_rank` of the sort.
abbrev pub publish_rank : FindingSeverity → ℕ
publish_rank FindingSeverity.critical = 0
publish_rank FindingSeverity.error = 1
publish_rank FindingSeverity.warning = 2
publish_rank FindingSeverity.info = 3

-- The order of texts, with what decides among equal ones.
abbrev text_before : String → String → Bool → Bool
text_before s t ties = elim (compare s t) [
  | Ordering.lt ↦ true
  | Ordering.eq ↦ ties
  | Ordering.gt ↦ false
]

-- The keys of two groups, compared as tuples.
abbrev pub goes_before : Group → Group → Bool
goes_before g h =
    let rank = publish_rank g.severity in
    let rank' = publish_rank h.severity in
    let ties =
      text_before (path_or_empty g.file_path) (path_or_empty h.file_path)
        (text_before g.title h.title (text_before (uuid_str g.id) (uuid_str h.id) true)) in
    if rank == rank' then ties else leb rank rank'

abbrev pub insert_group : Group → List Group → List Group
insert_group g [] = g ∷ []
insert_group g (h ∷ hs) =
    let later = insert_group g hs in if goes_before g h then g ∷ h ∷ hs else h ∷ later

unfoldable pub sort_publishable_groups : List Group → List Group
sort_publishable_groups [] = []
sort_publishable_groups (g ∷ gs) = insert_group g (sort_publishable_groups gs)

unfoldable pub publishable_groups_for_review_run : Db → ℕ → ℕ → List Group
unfolding sort_publishable_groups
publishable_groups_for_review_run db review_run_id pull_request_id = sort_publishable_groups (
    groups_from db review_run_id pull_request_id
      (keep (λ f. f.review_run_id == review_run_id && is_some f.group_id) db.findings))

unfoldable pub load_pr_active_groups : Db → ℕ → List Group
load_pr_active_groups db pull_request_id =
    keep (λ g. g.pull_request_id == pull_request_id && is_active g.state) db.groups

unfoldable pub load_pr_groups_for_rollup : Db → ℕ → List Group
load_pr_groups_for_rollup db pull_request_id =
    keep (λ g. g.pull_request_id == pull_request_id && not (is_superseded g.state)) db.groups

-- The job is of a revision of the pull request.
abbrev pub is_job_of : Db → ℕ → PublishJob → Bool
is_job_of db pull_request_id j =
    any_of (λ r. r.pull_request_id == pull_request_id && r.id == j.revision_id) db.revisions

-- `_PUBLISH_INLINE_THREAD_REUSE_STATUSES`
abbrev pub reuses_threads : GitHubPublishJobStatus → Bool
reuses_threads GitHubPublishJobStatus.completed = true
reuses_threads GitHubPublishJobStatus.failed = true
reuses_threads _ = false

-- `_PUBLISH_SURFACE_REUSE_STATUSES`
abbrev pub reuses_surface : GitHubPublishJobStatus → Bool
reuses_surface GitHubPublishJobStatus.completed = true
reuses_surface GitHubPublishJobStatus.skipped_not_head = true
reuses_surface GitHubPublishJobStatus.skipped_superseded = true
reuses_surface _ = false

unfoldable pub get_latest_publish_job_for_revision : Db → ℕ → ℕ → Option PublishJob
get_latest_publish_job_for_revision db workspace_id revision_id =
    find_last (λ j. j.workspace_id == workspace_id && j.revision_id == revision_id) db.publish_jobs

unfoldable pub fetch_prior_reusable_publish_jobs : Db → ℕ → List PublishJob
fetch_prior_reusable_publish_jobs db pull_request_id =
    keep (λ j. is_job_of db pull_request_id j && reuses_threads j.status) db.publish_jobs

unfoldable pub load_prior_inline_thread_map : (String → Option ℕ) → Db → ℕ → Dict ℤ
unfolding fetch_prior_reusable_publish_jobs load_inline_thread_map
    rekey_inline_thread_map_to_group_ids
load_prior_inline_thread_map parse_uuid db pull_request_id =
    rekey_inline_thread_map_to_group_ids parse_uuid db.groups pull_request_id
      (load_inline_thread_map (fetch_prior_reusable_publish_jobs db pull_request_id))

-- `_load_ever_inlined_fingerprints`, as a set.
unfoldable pub load_ever_inlined_fingerprints : List PublishJob → Option Members → List String
unfolding load_inline_thread_map deserialize_inline_thread_map summary_key
load_ever_inlined_fingerprints jobs current_job_summary = keys (
    merge (load_inline_thread_map jobs)
      (deserialize_inline_thread_map (summary_key "github_inline_threads" current_job_summary)))

unfoldable pub find_publish_job_for_head_sha : Db → ℕ → String → Option PublishJob
find_publish_job_for_head_sha db pull_request_id head_sha =
    find_last
      (λ j.
        is_job_of db pull_request_id j
        && str_eq j.head_sha head_sha
        && is_some j.github_check_run_id
        && reuses_surface j.status)
      db.publish_jobs

unfoldable pub find_prior_issue_comment_id_for_pull_request : Db → ℕ → Option ℕ → Option ℤ
find_prior_issue_comment_id_for_pull_request db pull_request_id exclude_job_id =
    find_last
      (λ j.
        is_job_of db pull_request_id j
        && is_some j.github_comment_id
        && reuses_surface j.status
        && not (option_eq exclude_job_id (some j.id)))
      db.publish_jobs
    >>= λ j. j.github_comment_id
