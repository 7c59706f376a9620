-- ===== src/PullRequests/Redelivery.antt =====
-- GitHub may deliver a push more than once.
use revy.Common.{
  ◌≡◌, refl, sym, ◌∙◌, subst, String, Bool, true, false, Option, some, arith, str_eq, eq_iff,
  Has-keep, ltb, find, keep,
}
use revy.Common.Table
use revy.Common.Json.{Members}
use revy.Common.Options.{Whenever-some}
use revy.Findings.Rows.{Revision, PullRequest, Repository}
use revy.Findings.Published.{latest, latest-row}
use revy.PullRequests.Payload.{PrFields}
use revy.PullRequests.Store.{
  PullDb, revisions, write_pull, take_fields, find_pull_request, get_revision_for_head_sha,
  has_head, is_reported_as, upsert_pull_request, update_pull_request,
}
use revy.PullRequests.Webhooks.{
  PullRequestWebhookResult, apply_pull_request_webhook_event, dispatch, read_event, on_synchronize,
  bind_revision, supersede_for, is_created,
}
use revy.PullRequests.Numbers.Kept.{IsWf, IsFair, Upserted, upsert_pull_request-IsWf}
use revy.PullRequests.Deliveries.{supersede_for-tables, supersede_for-IsWf}
use revy.PullRequests.Alone.{alone, IsSettled, upsert-Settles, get-Has}

pub alone-IsFair : IsFair alone
alone-IsFair = record { keeps = λ n db w. w; grows = λ n db p s. s }

-- What the handler answers for a push.
abbrev pub answer : Repository → String → Revision → Bool → PullRequestWebhookResult
answer repository action r created = record {
  workspace_id = repository.workspace_id;
  revision_id = r.id;
  new_revision = created;
  action = action;
  pipeline_retrigger = true;
}

module _ (repository : Repository) (f : PrFields) (action : String) where
  bound :
      (p : PullRequest) (r : Revision) (db : PullDb)
      → IsWf db
      → get_revision_for_head_sha p.id f.head_sha db ≡ some r
      → Table.get Revision.id r.id (revisions db) ≡ some r
  unfolding get_revision_for_head_sha
  bound p r db w known =
      get-Has Revision.id r (revisions db) w.revision_keys
        (Has-keep (has_head p.id f.head_sha) r (revisions db) (latest-row _ r known)).0

  bind-answer :
      (existing : Option PullRequest) (db : PullDb) (p : PullRequest) (r : Revision)
      → Table.get Revision.id r.id (revisions db) ≡ some r
      → bind_revision repository action existing (db, p, some r)
        ≡ some (
          supersede_for (is_created existing p) p r db,
          some (answer repository action r (is_created existing p)),
        )
  unfolding bind_revision
  bind-answer existing db p r there = rw (bind_revision, there) refl

  module _ (db : PullDb) (p : PullRequest) (r : Revision) (w : IsWf db)
      (settled : IsSettled repository f db p r) where
    abbrev written : PullDb
    written = write_pull (take_fields f) p db

    still_known : get_revision_for_head_sha p.id f.head_sha written ≡ some r
    unfolding get_revision_for_head_sha
    still_known = settled.known

    same_head : str_eq f.head_sha p.head_sha ≡ true
    same_head = let e = settled.head in ground (arith, eq_iff f.head_sha p.head_sha)

    upserted_again :
        upsert_pull_request alone repository f true true db
        ≡ some (written, take_fields f p, some r)
    unfolding upsert_pull_request update_pull_request
    upserted_again =
        rw (upsert_pull_request, settled.found, update_pull_request, same_head, still_known) refl

    -- A push that has arrived finds what it left.
    again :
        on_synchronize alone repository f action db
        ≡ some (
          supersede_for false (take_fields f p) r written,
          some (answer repository action r false),
        )
    unfolding on_synchronize
    again =
        let not_created : ltb p.revision_count p.revision_count ≡ false = ground arith in
        rw (on_synchronize, upserted_again, settled.found)
          (bind-answer (some p) written (take_fields f p) r (bound p r db w settled.known)
            ∙ rw not_created refl)

  -- The first delivery.
  first :
      (db : PullDb)
      → IsWf db
      → (v : Upserted) × (r : Revision) × (created : Bool) × (on_synchronize alone repository f
            action db
          ≡ some (supersede_for created v.1 r v.0, some (answer repository action r created)))
        × IsSettled repository f v.0 v.1 r
        × IsWf v.0
        × (v.0.installations ≡ db.installations)
        × (v.0.repositories ≡ db.repositories)
  unfolding on_synchronize
  first db w =
      let (v, r, upserted, settled, i, s) = upsert-Settles repository f db w in
      let w' =
        Whenever-some (λ (u : Upserted). IsWf u.0) _
          (upsert_pull_request-IsWf alone alone-IsFair repository f true true db w) upserted in
      let existing = find_pull_request repository.id f.github_pull_request_id db in
      (
        v,
        r,
        is_created existing v.1,
        rw (on_synchronize, upserted)
            (bind-answer existing v.0 v.1 r (bound v.1 r v.0 w' settled.known)),
        settled,
        w',
        i,
        s,
      )

-- The tables on which the revision of a head depends.
supersede_for-IsSettled :
    (repository : Repository) (f : PrFields) (created : Bool) (db : PullDb) (p : PullRequest)
    (r : Revision)
    → IsSettled repository f db p r
    → IsSettled repository f (supersede_for created p r db) p r
unfolding find_pull_request get_revision_for_head_sha
supersede_for-IsSettled repository f created db p r settled =
    let (same_pulls, same_revisions) = supersede_for-tables created p r db in
    record {
      found =
          subst (λ ps. find (is_reported_as repository.id f.github_pull_request_id) ps ≡ some p)
            (sym same_pulls) settled.found;
      head = settled.head;
      known =
          subst (λ rs. latest (keep (has_head p.id f.head_sha) rs) ≡ some r) (sym same_revisions)
            settled.known;
    }

supersede_for-repositories :
    (created : Bool) (p : PullRequest) (r : Revision) (db : PullDb)
    → ((supersede_for created p r db).installations ≡ db.installations)
      × ((supersede_for created p r db).repositories ≡ db.repositories)
unfolding supersede_for
supersede_for-repositories created p r db = (refl, refl)

delivered :
    (payload : Members) (f : PrFields) (repository : Repository) (db : PullDb)
    → read_event payload db.installations db.repositories ≡ some ("synchronize", f, repository)
    → apply_pull_request_webhook_event alone payload db
      ≡ on_synchronize alone repository f "synchronize" db
unfolding apply_pull_request_webhook_event dispatch
delivered payload f repository db event = rw (apply_pull_request_webhook_event, event) refl

-- What the first delivery of a push and the second leave and answer.
pub record IsRepeated (payload : Members) (f : PrFields) (repository : Repository) (db : PullDb)
    : Type 0 where
  pub after : PullDb
  pub later : PullDb
  pub pull_request : PullRequest
  pub revision : Revision
  pub created : Bool
  pub first_delivery :
      apply_pull_request_webhook_event alone payload db
      ≡ some (after, some (answer repository "synchronize" revision created))
  pub second_delivery :
      apply_pull_request_webhook_event alone payload after
      ≡ some (later, some (answer repository "synchronize" revision false))
  pub settled : IsSettled repository f after pull_request revision
  pub same_revisions : revisions later ≡ revisions after

-- A push on tables that are well formed, delivered twice with no other transaction in between, raises
-- nothing. The first delivery leaves the pull request at the pushed head, and the revision that it
-- answers with is the newest one of that head; the second answers with the same revision, says that it
-- is not new, and leaves the revisions as they are.
pub synchronize-twice :
    (payload : Members) (f : PrFields) (repository : Repository) (db : PullDb)
    → IsWf db
    → read_event payload db.installations db.repositories ≡ some ("synchronize", f, repository)
    → IsRepeated payload f repository db
synchronize-twice payload f repository db w event =
    let (v, r, created, done, settled, w', i, s) = first repository f "synchronize" db w in
    let after = supersede_for created v.1 r v.0 in
    let (i', s') = supersede_for-repositories created v.1 r v.0 in
    let settled' = supersede_for-IsSettled repository f created v.0 v.1 r settled in
    let event' =
      subst
        (λ rows. read_event payload rows after.repositories ≡ some ("synchronize", f, repository))
        (sym (i' ∙ i))
        (subst
          (λ rows. read_event payload db.installations rows ≡ some ("synchronize", f, repository))
          (sym (s' ∙ s)) event) in
    let once_more =
      again repository f "synchronize" after v.1 r (supersede_for-IsWf created v.1 r v.0 w')
        settled' in
    record {
      after = after;
      later = supersede_for false (take_fields f v.1) r (write_pull (take_fields f) v.1 after);
      pull_request = v.1;
      revision = r;
      created = created;
      first_delivery = delivered payload f repository db event ∙ done;
      second_delivery = delivered payload f repository after event' ∙ once_more;
      settled = settled';
      same_revisions =
          (supersede_for-tables false (take_fields f v.1) r
            (write_pull (take_fields f) v.1 after)).1;
    }
