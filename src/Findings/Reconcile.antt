-- ===== src/Findings/Reconcile.antt =====
-- services/github_finding_reconcile.py: the link from a run's findings to the stable groups of its
-- pull request. `sha256` is the hexadecimal digest of a text; nothing is assumed of it.
mod Cases
mod Lookup
pub mod Invariant
pub mod Dismissed
pub mod Bound
pub mod Identity
pub mod Linked
use revy.Common.{
  ℕ, suc, String, Bool, true, false, not, ◌&&◌, Option, none, some, List, [], ◌∷◌, ◌++◌, ◌==◌,
  str_eq, is_none, if◌then◌else◌, keep, find, any_of, strip, take_chars, join, decimal, uuid_str,
}
use revy.Common.Table
use revy.Enums.{
  GitHubFindingGroupState, FindingCategory, category_value, category_eq, is_active,
  is_completed_run,
}
use revy.Findings.Rows.{Group, Finding, ReviewRun, Revision, Db}
use revy.Findings.Rules.{
  set_fields, should_reopen_absent_and_addressed, reopen_fields_for_re_report,
  should_skip_resolved_group_on_reconcile,
}

pub data BoundVia : Type 0 where
  new legacy continuation : BoundVia

abbrev pub is_legacy : BoundVia → Bool
is_legacy legacy = true
is_legacy _ = false

-- `file_path or ""`
abbrev pub path_or_empty : Option String → String
path_or_empty none = ""
path_or_empty (some path) = path

unfoldable pub start_line_key : Option ℕ → String
start_line_key none = "0"
start_line_key (some n) = decimal n

-- `_FINGERPRINT_SEP`, the character U+001F.
abbrev fingerprint_sep : String
fingerprint_sep = "\u{1f}"

-- A group of the pull request with the fingerprint.
unfoldable pub load_group_by_fingerprint : List Group → ℕ → String → Option Group
load_group_by_fingerprint groups pull_request_id fingerprint =
    find (λ g. g.pull_request_id == pull_request_id && str_eq g.fingerprint fingerprint) groups

-- `candidates[0]` if there is exactly one.
abbrev pub the_only : List Group → Option Group
the_only (g ∷ []) = some g
the_only _ = none

abbrev pub path_is : Option String → String → Bool
path_is none path = false
path_is (some p) path = str_eq p path

abbrev pub is_nearby : ℕ → String → FindingCategory → List ℕ → Group → Bool
is_nearby pull_request_id path category bound_this_run g =
    g.pull_request_id == pull_request_id
    && path_is g.file_path path
    && category_eq g.category category
    && is_active g.state
    && not (any_of (λ i. i == g.id) bound_this_run)

unfoldable pub continuation_candidate :
    List Group → ℕ → Option String → FindingCategory → List ℕ → Option Group
continuation_candidate groups pull_request_id none category bound_this_run = none
continuation_candidate groups pull_request_id (some path) category bound_this_run =
    if str_eq path ""
    then none
    else the_only (keep (is_nearby pull_request_id path category bound_this_run) groups)

unfoldable pub copy_finding_attributes : Group → Finding → ℕ → Group
copy_finding_attributes g finding revision_id = record g {
  last_seen_revision_id = revision_id;
  severity = finding.severity;
  category = finding.category;
  title = finding.title;
  message = finding.message;
  file_path = finding.file_path;
  start_line = finding.start_line;
}

-- The writes to a group that is found again and is not to be skipped.
unfoldable pub rebind : BoundVia → String → ℕ → Finding → Group → Group
unfolding copy_finding_attributes set_fields reopen_fields_for_re_report
rebind bound_via claim_slot revision_id finding g =
    let opened =
      if should_reopen_absent_and_addressed g.state g.resolution_method true
      then set_fields reopen_fields_for_re_report g
      else record g { state = GitHubFindingGroupState.active } in
    let copied = copy_finding_attributes opened finding revision_id in
    if is_legacy bound_via && is_none copied.claim_slot
    then record copied { claim_slot = some claim_slot }
    else copied

-- The group that a finding opens.
unfoldable pub new_group : ℕ → ℕ → ℕ → String → String → ℕ → Finding → Group
new_group id workspace_id pull_request_id fingerprint claim_slot revision_id finding = record {
  id = id;
  workspace_id = workspace_id;
  pull_request_id = pull_request_id;
  fingerprint = fingerprint;
  state = GitHubFindingGroupState.active;
  severity = finding.severity;
  category = finding.category;
  title = finding.title;
  message = finding.message;
  file_path = finding.file_path;
  start_line = finding.start_line;
  claim_slot = some claim_slot;
  last_seen_revision_id = revision_id;
  resolution_status = none;
  resolution_method = none;
  resolved_at_revision_id = none;
  closure_blocked_reason = none;
}

abbrev pub is_skipped : Group → Bool
is_skipped g = should_skip_resolved_group_on_reconcile g.state g.resolution_method

-- `session.add(group)`: the row goes in under the next key.
unfoldable pub add_group : ℕ → ℕ → String → String → ℕ → Finding → Db → Db × Group
unfolding new_group
add_group workspace_id pull_request_id fingerprint claim_slot revision_id finding db =
    let g =
      new_group db.next_id workspace_id pull_request_id fingerprint claim_slot revision_id
        finding in
    (record db { groups = db.groups ++ g ∷ []; next_id = suc db.next_id }, g)

-- What the code does with the group that the lookups found.
unfoldable pub bind_found : BoundVia → String → ℕ → Finding → Group → Db → Db × Group
bind_found bound_via claim_slot revision_id finding g db = if is_skipped g then (db, g) else (
  record db {
    groups = Table.update Group.id g.id (rebind bound_via claim_slot revision_id finding) db.groups;
  },
  rebind bound_via claim_slot revision_id finding g,
)

-- `finding.group_id = group.id`
unfoldable pub set_group_id : Finding → ℕ → Db → Db
set_group_id finding group_id db = record db {
  findings =
      Table.update Finding.id finding.id (λ f. record f { group_id = some group_id }) db.findings;
}

module _ (sha256 : String → String) where
  unfoldable pub claim_slot_key : String → String
  claim_slot_key title = take_chars 32 (sha256 (strip title))

  unfoldable pub compute_fingerprint : ℕ → ℕ → Option String → FindingCategory → String → String
  compute_fingerprint workspace_id pull_request_id file_path category claim_slot = sha256 (
      join fingerprint_sep (
        uuid_str workspace_id
        ∷ uuid_str pull_request_id
        ∷ path_or_empty file_path
        ∷ category_value category
        ∷ claim_slot
        ∷ []))

  unfoldable pub compute_legacy_d10_fingerprint :
      ℕ → ℕ → Option String → FindingCategory → String → Option ℕ → String
  compute_legacy_d10_fingerprint workspace_id pull_request_id file_path category title start_line =
      sha256 (
        join fingerprint_sep (
          uuid_str workspace_id
          ∷ uuid_str pull_request_id
          ∷ path_or_empty file_path
          ∷ category_value category
          ∷ strip title
          ∷ start_line_key start_line
          ∷ []))

  -- The fingerprint and the claim slot of a finding.
  abbrev pub finding_fingerprint : ReviewRun → ℕ → Finding → String
  finding_fingerprint run pull_request_id f =
      compute_fingerprint run.workspace_id pull_request_id f.file_path f.category
        (claim_slot_key f.title)

  abbrev pub legacy_fingerprint : ReviewRun → ℕ → Finding → String
  legacy_fingerprint run pull_request_id f =
      compute_legacy_d10_fingerprint run.workspace_id pull_request_id f.file_path f.category f.title
        f.start_line

  -- The three lookups in their order: fingerprint, legacy fingerprint, continuation.
  unfoldable pub lookup_group :
      ReviewRun → ℕ → Finding → List ℕ → List Group → Option (BoundVia × Group)
  lookup_group run pull_request_id f bound groups =
      elim (load_group_by_fingerprint groups pull_request_id
        (finding_fingerprint run pull_request_id f)) [
          | some g ↦ some (new, g)
          | none ↦
              elim (load_group_by_fingerprint groups pull_request_id
                (legacy_fingerprint run pull_request_id f)) [
                  | some g ↦ some (legacy, g)
                  | none ↦
                      elim (continuation_candidate groups pull_request_id f.file_path f.category
                        bound) [ some g ↦ some (continuation, g) | none ↦ none ]
                ]
        ]

  unfoldable pub bind_group_for_finding : ReviewRun → ℕ → ℕ → Finding → List ℕ → Db → Db × Group
  bind_group_for_finding run pull_request_id revision_id f bound db =
      elim (lookup_group run pull_request_id f bound db.groups) [
        | none ↦
            add_group run.workspace_id pull_request_id (finding_fingerprint run pull_request_id f)
              (claim_slot_key f.title) revision_id f db
        | some (via, g) ↦ bind_found via (claim_slot_key f.title) revision_id f g db
      ]

  -- The loop of `reconcile_review_run`, with the ids bound so far.
  unfoldable pub link_findings : ReviewRun → ℕ → ℕ → List ℕ → List Finding → Db → Db × List ℕ
  link_findings run pull_request_id revision_id bound [] db = (db, [])
  link_findings run pull_request_id revision_id bound (f ∷ fs) db =
      let (db₁, g) = bind_group_for_finding run pull_request_id revision_id f bound db in
      let (db₂, ids) =
        link_findings run pull_request_id revision_id (g.id ∷ bound) fs (set_group_id f g.id db₁) in
      (db₂, g.id ∷ ids)

  unfoldable pub reconcile_review_run : ℕ → Db → Db × List ℕ
  reconcile_review_run review_run_id db = elim (Table.get ReviewRun.id review_run_id db.runs) [
    | none ↦ (db, [])
    | some run ↦
        if not (is_completed_run run.status)
        then (db, [])
        else elim (Table.get Revision.id run.revision_id db.revisions) [
          | none ↦ (db, [])
          | some revision ↦
              link_findings run revision.pull_request_id revision.id []
                (keep (λ f. f.review_run_id == review_run_id) db.findings) db
        ]
  ]
