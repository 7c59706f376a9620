-- ===== src/PullRequests/Payload.antt =====
-- What services/github_pull_requests.py reads of a webhook's payload.
use revy.Common.{
  String, Bool, true, false, ◌&&◌, Option, none, some, List, [], ◌∷◌, str_eq, if◌then◌else◌,
}
use revy.Common.Json.{ℤ, Members, get_key, as_int, as_text, as_dict, is_true, has_text}
use revy.Common.Options.{◌>>=◌}
use revy.Enums.{GitHubPullRequestState}

-- The dictionary that `_extract_pr_fields` returns.
pub record PrFields : Type 0 where
  pub github_pull_request_id : ℤ
  pub number : ℤ
  pub title : String
  pub state : GitHubPullRequestState
  pub head_sha : String
  pub head_ref : String
  pub base_ref : String
  pub base_sha : String
  pub html_url : Option String
  pub body : Option String
  pub is_draft : Bool
  pub merged : Bool

-- `GitHubPullRequestState(state)`
unfoldable pub parse_state : String → Option GitHubPullRequestState
parse_state s =
    if str_eq s "open"
    then some GitHubPullRequestState.open_
    else if str_eq s "closed"
    then some GitHubPullRequestState.closed
    else none

abbrev is_closed : GitHubPullRequestState → Bool
is_closed GitHubPullRequestState.closed = true
is_closed GitHubPullRequestState.open_ = false

-- `body_raw if isinstance(body_raw, str) and body_raw.strip() else None`
abbrev non_blank : Option String → Option String
non_blank none = none
non_blank (some s) = if has_text s then some s else none

unfoldable pub extract_pr_fields : Members → Option PrFields
unfolding parse_state get_key
extract_pr_fields pull_request = do
  raw_id ← as_int (get_key "id" pull_request)
  number ← as_int (get_key "number" pull_request)
  title ← as_text (get_key "title" pull_request)
  state ← as_text (get_key "state" pull_request)
  head ← as_dict (get_key "head" pull_request)
  base ← as_dict (get_key "base" pull_request)
  head_sha ← as_text (get_key "sha" head)
  head_ref ← as_text (get_key "ref" head)
  base_ref ← as_text (get_key "ref" base)
  base_sha ← as_text (get_key "sha" base)
  pr_state ← parse_state state
  some (record {
    github_pull_request_id = raw_id;
    number = number;
    title = title;
    state = pr_state;
    head_sha = head_sha;
    head_ref = head_ref;
    base_ref = base_ref;
    base_sha = base_sha;
    html_url = as_text (get_key "html_url" pull_request);
    body = non_blank (as_text (get_key "body" pull_request));
    is_draft = is_true (get_key "draft" pull_request);
    merged = is_closed pr_state && is_true (get_key "merged" pull_request);
  })

-- `_PULL_REQUEST_ACTIONS`
abbrev pub pull_request_actions : List String
pull_request_actions =
    "opened" ∷ "synchronize" ∷ "closed" ∷ "reopened" ∷ "converted_to_draft" ∷ "ready_for_review"
    ∷ "edited" ∷ []
