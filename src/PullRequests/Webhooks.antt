-- ===== src/PullRequests/Webhooks.antt =====
-- The handlers of services/github_pull_requests.py for the three kinds of delivery. Nothing stands for
-- an exception, on which the request's transaction is rolled back; the second part of a result is
-- what the handler returns.
use revy.Common.{
  ℕ, suc, String, Bool, true, false, not, ◌&&◌, Option, none, some, List, [], ◌∷◌, ◌++◌, ◌==◌, ltb,
  str_eq, if◌then◌else◌, find, any_of, strip,
}
use revy.Common.Table
use revy.Common.Json.{ℤ, int_eq, Members, get_key, as_int, as_text, as_dict, is_null}
use revy.Common.Options.{◌>>=◌, ◌>>◌, require}
use revy.Enums.{is_open}
use revy.Findings.Rows.{Revision, PullRequest, Repository, Installation}
use revy.Generations.{
  supersede_stale_generations_for_new_revision, supersede_active_generations_for_revision,
}
use revy.PullRequests.Payload.{PrFields, extract_pr_fields, pull_request_actions}
use revy.PullRequests.Store.{
  Review, PullDb, pulls, revisions, write_pull, Others, resolve_repository, find_pull_request,
  get_revision_for_head_sha, append_revision, upsert_pull_request,
}

pub record PullRequestWebhookResult : Type 0 where
  pub workspace_id : ℕ
  pub revision_id : ℕ
  pub new_revision : Bool
  pub action : String
  pub pipeline_retrigger : Bool

pub record IssueCommentPipelineIntent : Type 0 where
  pub workspace_id : ℕ
  pub revision_id : ℕ

abbrev pub Handled : Type 0 → Type 0
Handled R = Option (PullDb × Option R)

unfoldable pub on_opened :
    Others → Repository → PrFields → String → PullDb → Handled PullRequestWebhookResult
on_opened others repository f action db = do
  (db', p, revision) ← upsert_pull_request others repository f false true db
  some (
    db',
    elim revision [
      | none ↦ none
      | some r ↦ some (record {
        workspace_id = repository.workspace_id;
        revision_id = r.id;
        new_revision = true;
        action = action;
        pipeline_retrigger = true;
      })
    ],
  )

-- Whether the delivery made a revision: the count moved past the one that was read first.
abbrev pub is_created : Option PullRequest → PullRequest → Bool
is_created none p = p.revision_count == 1
is_created (some existing) p = ltb existing.revision_count p.revision_count

-- Older generations are superseded; those of the revision itself too, unless it is new.
unfoldable pub supersede_for : Bool → PullRequest → Revision → PullDb → PullDb
supersede_for created p bound db =
    let stale = (supersede_stale_generations_for_new_revision p.id bound.id db.generations).0 in
    record db {
      generations =
          if created then stale else (supersede_active_generations_for_revision bound.id stale).0;
    }

-- What follows the upsert: the revision is read again, and older generations make way for it.
unfoldable pub bind_revision :
    Repository
    → String
    → Option PullRequest
    → PullDb × PullRequest × Option Revision
    → Handled PullRequestWebhookResult
unfolding supersede_for
bind_revision repository action existing (db, p, revision) = elim revision [
  | none ↦ some (db, none)
  | some r ↦ elim (Table.get Revision.id r.id (revisions db)) [
    | none ↦ some (db, none)
    | some bound ↦ some (
      supersede_for (is_created existing p) p bound db,
      some (record {
        workspace_id = repository.workspace_id;
        revision_id = bound.id;
        new_revision = is_created existing p;
        action = action;
        pipeline_retrigger = true;
      }),
    )
  ]
]

unfoldable pub on_synchronize :
    Others → Repository → PrFields → String → PullDb → Handled PullRequestWebhookResult
unfolding bind_revision
on_synchronize others repository f action db = do
  upserted ← upsert_pull_request others repository f true true db
  bind_revision repository action (find_pull_request repository.id f.github_pull_request_id db)
      upserted

unfoldable pub on_edited :
    Others → Repository → PrFields → PullDb → Handled PullRequestWebhookResult
on_edited others repository f db = do
  (db', p, revision) ← upsert_pull_request others repository f false false db
  some (db', none)

-- The columns that a change of state takes over.
abbrev pub take_state : PrFields → PullRequest → PullRequest
take_state f p = record p {
  state = f.state;
  title = f.title;
  html_url = f.html_url;
  is_draft = f.is_draft;
  merged = f.merged;
  body = f.body;
}

unfoldable pub on_state : Repository → PrFields → PullDb → Handled PullRequestWebhookResult
on_state repository f db = elim (find_pull_request repository.id f.github_pull_request_id db) [
  | none ↦ some (db, none)
  | some existing ↦ some (write_pull (take_state f) existing db, none)
]

-- The action, if it is handled, and what else the handler reads before it writes.
unfoldable pub read_event :
    Members → List Installation → List Repository → Option (String × PrFields × Repository)
unfolding extract_pr_fields resolve_repository get_key
read_event payload installations repositories = do
  action ← as_text (get_key "action" payload)
  require (any_of (λ a. str_eq a action) pull_request_actions)
  pull_request_payload ← as_dict (get_key "pull_request" payload)
  fields ← extract_pr_fields pull_request_payload
  repository ← resolve_repository payload installations repositories
  some (action, fields, repository)

unfoldable pub dispatch :
    Others → String → PrFields → Repository → PullDb → Handled PullRequestWebhookResult
unfolding on_opened on_synchronize on_edited on_state
dispatch others action f repository db =
    if str_eq action "opened"
    then on_opened others repository f action db
    else if str_eq action "synchronize"
    then on_synchronize others repository f action db
    else if str_eq action "edited"
    then on_edited others repository f db
    else on_state repository f db

unfoldable pub apply_pull_request_webhook_event :
    Others → Members → PullDb → Handled PullRequestWebhookResult
unfolding read_event dispatch
apply_pull_request_webhook_event others payload db =
    elim (read_event payload db.installations db.repositories) [
      | none ↦ some (db, none)
      | some (action, fields, repository) ↦ dispatch others action fields repository db
    ]

abbrev review_actions : List String
review_actions = "submitted" ∷ "edited" ∷ "dismissed" ∷ []

abbrev review_with : String → String → ℕ → Review → Review
review_with login state submitted_at r = record r {
  author_login = login;
  state = state;
  submitted_at = submitted_at;
}

-- The row of a review is written again if GitHub reports it again.
unfoldable pub save_review : ℕ → ℤ → String → String → ℕ → PullDb → PullDb
save_review pull_request_id github_review_id login state submitted_at db =
    elim (find (λ r. int_eq r.github_review_id github_review_id) db.reviews) [
      | some existing ↦ record db {
        reviews =
            Table.update Review.id existing.id (review_with login state submitted_at) db.reviews;
      }
      | none ↦ record db {
        reviews =
            db.reviews
            ++ record {
              id = db.next_id;
              pull_request_id = pull_request_id;
              github_review_id = github_review_id;
              author_login = login;
              state = state;
              submitted_at = submitted_at;
            }
              ∷ [];
        next_id = suc db.next_id;
      }
    ]

-- The pull request of a review, which may be the first that the backend hears of it.
unfoldable pub find_or_upsert :
    Others → Repository → PrFields → PullDb → Option (PullDb × PullRequest)
find_or_upsert others repository f db =
    elim (find_pull_request repository.id f.github_pull_request_id db) [
      | some existing ↦ some (db, existing)
      | none ↦ do
        (db', p, revision) ← upsert_pull_request others repository f false true db
        some (db', p)
    ]

-- The time of a review, or now for one that does not parse.
abbrev time_or : ℕ → Option ℕ → ℕ
time_or now none = now
time_or now (some t) = t

-- `parse_datetime` is `_parse_github_datetime` on a text that is not empty.
module _ (parse_datetime : String → Option ℕ) (now : ℕ) where
  abbrev read_review : Members → Option (ℤ × String × String × ℕ)
  read_review review_payload = do
    raw_review_id ← as_int (get_key "id" review_payload)
    user ← as_dict (get_key "user" review_payload)
    state ← as_text (get_key "state" review_payload)
    login ← as_text (get_key "login" user)
    some (
      raw_review_id,
      login,
      state,
      time_or now (as_text (get_key "submitted_at" review_payload) >>= parse_datetime),
    )

  abbrev read_review_event : Members → PullDb → Option (Members × PrFields × Repository)
  read_review_event payload db = do
    action ← as_text (get_key "action" payload)
    require (any_of (λ a. str_eq a action) review_actions)
    review_payload ← as_dict (get_key "review" payload)
    pull_request_payload ← as_dict (get_key "pull_request" payload)
    fields ← extract_pr_fields pull_request_payload
    repository ← resolve_repository payload db.installations db.repositories
    some (review_payload, fields, repository)

  unfoldable pub apply_pull_request_review_webhook_event : Others → Members → PullDb → Option PullDb
  unfolding get_key save_review find_or_upsert
  apply_pull_request_review_webhook_event others payload db = elim (read_review_event payload db) [
    | none ↦ some db
    | some (review_payload, f, repository) ↦ do
      (db', p) ← find_or_upsert others repository f db
      some (elim (read_review review_payload) [
        | none ↦ db'
        | some (github_review_id, login, state, submitted_at) ↦
            save_review p.id github_review_id login state submitted_at db'
      ])
  ]

-- The revision of the head, made if no delivery has made it.
unfoldable pub head_revision : Others → PullRequest → PullDb → Option (PullDb × Revision)
head_revision others p db = elim (get_revision_for_head_sha p.id p.head_sha db) [
  | some known ↦ some (db, known)
  | none ↦ do (db', q, revision) ← append_revision others p p.head_sha none db; some (db', revision)
]

-- `is_command` is the search for `@revy review` in a comment, `lower` is `str.lower`, and `bot_login`
-- the configured login of the app.
module _ (is_command : String → Bool) (lower : String → String) (bot_login : String) where
  abbrev is_bot : Members → Bool
  is_bot comment = elim (as_dict (get_key "user" comment)) [
    | none ↦ false
    | some user ↦ elim (as_text (get_key "login" user)) [
      | none ↦ false
      | some login ↦
          not (str_eq (strip bot_login) "") && str_eq (lower login) (lower (strip bot_login))
    ]
  ]

  abbrev is_text : String → Option String → Bool
  is_text expected none = false
  is_text expected (some s) = str_eq s expected

  -- The pull request that a comment asks to review, if it may be reviewed.
  unfoldable pub read_command : Members → PullDb → Option (PullRequest × Repository)
  unfolding get_key resolve_repository
  read_command payload db = do
    require (is_text "created" (as_text (get_key "action" payload)))
    comment ← as_dict (get_key "comment" payload)
    issue ← as_dict (get_key "issue" payload)
    require (not (is_null (get_key "pull_request" issue)))
    body ← as_text (get_key "body" comment)
    require (is_command body)
    require (not (is_bot comment))
    require (is_text "open" (as_text (get_key "state" issue)))
    repository ← resolve_repository payload db.installations db.repositories
    raw_pr_number ← as_int (get_key "number" issue)
    pull_request ←
        find (λ p. p.repository_id == repository.id && int_eq p.number raw_pr_number) (pulls db)
    require (not pull_request.is_draft)
    require (is_open pull_request.state)
    some (pull_request, repository)

  unfoldable pub apply_issue_comment_webhook_event :
      Others → Members → PullDb → Handled IssueCommentPipelineIntent
  unfolding read_command head_revision
  apply_issue_comment_webhook_event others payload db = elim (read_command payload db) [
    | none ↦ some (db, none)
    | some (p, repository) ↦ do
      (db', revision) ← head_revision others p db
      some
          (db', some (record { workspace_id = repository.workspace_id; revision_id = revision.id }))
  ]
