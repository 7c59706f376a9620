-- ===== src/PullRequests/Witnesses.antt =====
-- The results on deliveries at a push to pull request 10 of the sample tables.
use revy.Common.{String, ◌≡◌, refl, true, false, Option, none, some, [], ◌∷◌, arith}
use revy.Common.Table
use revy.Common.Json.{Json, Members, end, member, pos}
use revy.Enums.{GitHubPullRequestState, GitHubRepositoryStatus}
use revy.Findings.Rows.{Revision, PullRequest, Repository}
use revy.Findings.Published.{latest}
use revy.PullRequests.Payload.{PrFields}
use revy.PullRequests.Store.{
  PullDb, append_revision, get_revision_for_head_sha, upsert_pull_request, find_pull_request,
  update_pull_request, try_append,
}
use revy.PullRequests.Webhooks.{
  Handled, PullRequestWebhookResult, bind_revision, apply_pull_request_webhook_event,
  on_synchronize, read_event,
}
use revy.PullRequests.Numbers.Kept.{IsWf}
use revy.PullRequests.Deliveries.{apply_pull_request_webhook_event-IsWf}
use revy.PullRequests.Alone.{alone}
use revy.PullRequests.Redelivery.{IsRepeated, synchronize-twice, alone-IsFair}

abbrev first : Revision
first = record {
  id = 20;
  pull_request_id = 10;
  revision_number = 1;
  head_sha = "a";
  base_sha = none;
}

abbrev repository : Repository
repository = record {
  id = 5;
  workspace_id = 1;
  installation_id = 6;
  github_repository_id = pos 800;
  status = GitHubRepositoryStatus.active;
  full_name = "acme/app";
}

abbrev pull_request : PullRequest
pull_request = record {
  id = 10;
  workspace_id = 1;
  repository_id = 5;
  installation_id = 6;
  github_pull_request_id = pos 900;
  number = pos 4;
  title = "Close handles";
  state = GitHubPullRequestState.open_;
  head_sha = "a";
  head_ref = "fix";
  base_ref = "main";
  html_url = none;
  body = none;
  revision_count = 1;
  is_draft = false;
  merged = false;
}

abbrev tables : PullDb
tables = record {
  generations = record {
    pull_requests = pull_request ∷ [];
    revisions = first ∷ [];
    runs = [];
    jobs = [];
  };
  repositories = repository ∷ [];
  installations = record { id = 6; github_installation_id = 77 } ∷ [];
  reviews = [];
  next_id = 100;
}

abbrev branch : String → String → Json
branch ref sha = Json.object (member "ref" (Json.string ref) (member "sha" (Json.string sha) end))

abbrev push : Members
push = member "action" (Json.string "synchronize") (
    member "installation" (Json.object (member "id" (Json.integer (pos 77)) end)) (
      member "repository" (Json.object (member "id" (Json.integer (pos 800)) end)) (
        member "pull_request"
          (Json.object (
            member "id" (Json.integer (pos 900)) (
              member "number" (Json.integer (pos 4)) (
                member "title" (Json.string "Close all handles") (
                  member "state" (Json.string "open") (
                    member "draft" (Json.boolean true) (
                      member "head" (branch "fix" "b")
                        (member "base" (branch "main" "m") end))))))))
          end)))

abbrev fields : PrFields
fields = record {
  github_pull_request_id = pos 900;
  number = pos 4;
  title = "Close all handles";
  state = GitHubPullRequestState.open_;
  head_sha = "b";
  head_ref = "fix";
  base_ref = "main";
  base_sha = "m";
  html_url = none;
  body = none;
  is_draft = true;
  merged = false;
}

push_fields :
    read_event push tables.installations tables.repositories
    ≡ some ("synchronize", fields, repository)
unfolding read_event
push_fields = refl

tables-IsWf : IsWf tables
tables-IsWf = record {
  pull_keys = (tt, tt);
  pulls_below = (omega arith, tt);
  reported_once = (tt, tt);
  revision_keys = (tt, tt);
  revisions_below = (omega arith, tt);
  owned = (omega arith, tt);
  numbered_once = (tt, tt);
  positive = (omega arith, tt);
  counted = ((λ e. omega arith, tt), tt);
  filled = (λ n low high. ground arith, tt);
}

abbrev answered : Handled PullRequestWebhookResult → Option PullRequestWebhookResult
answered none = none
answered (some (after, result)) = result

-- The push makes the second revision, with the next key.
push_makes_revision :
    answered (apply_pull_request_webhook_event alone push tables)
    ≡ some (record {
      workspace_id = 1;
      revision_id = 100;
      new_revision = true;
      action = "synchronize";
      pipeline_retrigger = true;
    })
unfolding apply_pull_request_webhook_event on_synchronize upsert_pull_request find_pull_request
    update_pull_request get_revision_for_head_sha latest append_revision try_append bind_revision
    Table.update
push_makes_revision = refl

synchronize-twice_example : IsRepeated push fields repository tables
synchronize-twice_example = synchronize-twice push fields repository tables tables-IsWf push_fields

apply_pull_request_webhook_event-IsWf_example :
    IsWf (synchronize-twice push fields repository tables tables-IsWf push_fields).after
apply_pull_request_webhook_event-IsWf_example =
    apply_pull_request_webhook_event-IsWf alone alone-IsFair push tables tables-IsWf
      (synchronize-twice push fields repository tables tables-IsWf push_fields).first_delivery
