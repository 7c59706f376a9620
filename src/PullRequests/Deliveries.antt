-- ===== src/PullRequests/Deliveries.antt =====
-- What a delivery about a pull request leaves in the tables.
use revy.Common.{
  ℕ, ◌≡◌, refl, sym, ◌∙◌, subst, String, Bool, true, false, Option, none, some, Option-cases,
  Bool-cases, inl, inr, str_eq,
}
use revy.Common.Table
use revy.Common.Json.{Members}
use revy.Common.Options.{Whenever, Whenever-bind, Whenever-some}
use revy.Findings.Rows.{Revision, PullRequest, Repository}
use revy.Generations.{
  GenerationDb, supersede_stale_generations_for_new_revision,
  supersede_active_generations_for_revision, supersede_runs_of, supersede_jobs_of,
  mark_review_runs_superseded_for_pull_request, mark_index_jobs_superseded_for_pull_request,
  mark_active_review_runs_superseded_for_revision, mark_active_index_jobs_superseded_for_revision,
}
use revy.PullRequests.Payload.{PrFields}
use revy.PullRequests.Store.{
  PullDb, Others, pulls, revisions, find_pull_request, upsert_pull_request,
}
use revy.PullRequests.Webhooks.{
  PullRequestWebhookResult, apply_pull_request_webhook_event, dispatch, read_event, bind_revision,
  on_opened, on_synchronize, on_edited, on_state, take_state, supersede_for, is_created,
}
use revy.PullRequests.Numbers.Rows.{IsNumbered, neutral-IsNumbered}
use revy.PullRequests.Numbers.Kept.{IsWf, IsFair, Upserted, upsert_pull_request-IsWf}

stale-tables :
    (pull_request_id keep : ℕ) (db : GenerationDb)
    → let after = (supersede_stale_generations_for_new_revision pull_request_id keep db).0 in
      (after.pull_requests ≡ db.pull_requests) × (after.revisions ≡ db.revisions)
unfolding supersede_stale_generations_for_new_revision mark_review_runs_superseded_for_pull_request
    mark_index_jobs_superseded_for_pull_request supersede_runs_of supersede_jobs_of
stale-tables pull_request_id keep db = (refl, refl)

active-tables :
    (revision_id : ℕ) (db : GenerationDb)
    → let after = (supersede_active_generations_for_revision revision_id db).0 in
      (after.pull_requests ≡ db.pull_requests) × (after.revisions ≡ db.revisions)
unfolding supersede_active_generations_for_revision mark_active_review_runs_superseded_for_revision
    mark_active_index_jobs_superseded_for_revision supersede_runs_of supersede_jobs_of
active-tables revision_id db =
    elim (Option-cases (Table.get Revision.id revision_id db.revisions)) [
      | inl none_there ↦
          rw (mark_active_review_runs_superseded_for_revision, none_there) (refl, refl)
      | inr (r, there) ↦ rw (mark_active_review_runs_superseded_for_revision, there) (refl, refl)
    ]

-- Superseding writes runs and jobs only.
pub supersede_for-tables :
    (created : Bool) (p : PullRequest) (bound : Revision) (db : PullDb)
    → (pulls (supersede_for created p bound db) ≡ pulls db)
      × (revisions (supersede_for created p bound db) ≡ revisions db)
unfolding supersede_for
supersede_for-tables true p bound db = stale-tables p.id bound.id db.generations
supersede_for-tables false p bound db =
    let (a, b) = stale-tables p.id bound.id db.generations in
    let (c, d) =
      active-tables bound.id
        (supersede_stale_generations_for_new_revision p.id bound.id db.generations).0 in
    (c ∙ a, d ∙ b)

pub supersede_for-IsWf :
    (created : Bool) (p : PullRequest) (bound : Revision) (db : PullDb)
    → IsWf db
    → IsWf (supersede_for created p bound db)
unfolding supersede_for
supersede_for-IsWf created p bound db w =
    let (a, b) = supersede_for-tables created p bound db in
    subst (λ rs. IsNumbered (pulls (supersede_for created p bound db)) rs db.next_id) (sym b)
      (subst (λ ps. IsNumbered ps (revisions db) db.next_id) (sym a) w)

abbrev After : Type 0
After = PullDb × Option PullRequestWebhookResult

bind_revision-IsWf :
    (repository : Repository) (action : String) (existing : Option PullRequest) (v : Upserted)
    → IsWf v.0
    → Whenever (λ (v : After). IsWf v.0) (bind_revision repository action existing v)
unfolding bind_revision
bind_revision-IsWf repository action existing (db, p, none) w = w
bind_revision-IsWf repository action existing (db, p, some r) w =
    elim (Option-cases (Table.get Revision.id r.id (revisions db))) [
      | inl gone ↦ rw (bind_revision, gone) w
      | inr (bound, there) ↦
          rw (bind_revision, there) (supersede_for-IsWf (is_created existing p) p bound db w)
    ]

module _ (others : Others) (fair : IsFair others) (repository : Repository) (f : PrFields)
    (action : String) (db : PullDb) (w : IsWf db) where
  on_opened-IsWf : Whenever (λ (v : After). IsWf v.0) (on_opened others repository f action db)
  unfolding on_opened
  on_opened-IsWf =
      Whenever-bind (λ (v : Upserted). IsWf v.0) (λ (v : After). IsWf v.0)
        (upsert_pull_request others repository f false true db) _
        (upsert_pull_request-IsWf others fair repository f false true db w) (λ v h. h)

  on_synchronize-IsWf :
      Whenever (λ (v : After). IsWf v.0) (on_synchronize others repository f action db)
  unfolding on_synchronize
  on_synchronize-IsWf =
      Whenever-bind (λ (v : Upserted). IsWf v.0) (λ (v : After). IsWf v.0)
        (upsert_pull_request others repository f true true db) _
        (upsert_pull_request-IsWf others fair repository f true true db w)
        (bind_revision-IsWf repository action _)

  on_edited-IsWf : Whenever (λ (v : After). IsWf v.0) (on_edited others repository f db)
  unfolding on_edited
  on_edited-IsWf =
      Whenever-bind (λ (v : Upserted). IsWf v.0) (λ (v : After). IsWf v.0)
        (upsert_pull_request others repository f false false db) _
        (upsert_pull_request-IsWf others fair repository f false false db w) (λ v h. h)

  on_state-IsWf : Whenever (λ (v : After). IsWf v.0) (on_state repository f db)
  unfolding on_state
  on_state-IsWf =
      elim (Option-cases (find_pull_request repository.id f.github_pull_request_id db)) [
        | inl unknown ↦ rw (on_state, unknown) w
        | inr (p, known) ↦
            rw (on_state, known)
              (neutral-IsNumbered p.id (take_state f) (λ q. refl) (λ q. refl) (λ q. refl)
                (λ q. refl) (pulls db) (revisions db) db.next_id w)
      ]

  dispatch-IsWf : Whenever (λ (v : After). IsWf v.0) (dispatch others action f repository db)
  unfolding dispatch
  dispatch-IsWf = elim (Bool-cases (str_eq action "opened")) [
    | inl opened ↦ rw opened on_opened-IsWf
    | inr x ↦ elim (Bool-cases (str_eq action "synchronize")) [
      | inl pushed ↦ rw (x, pushed) on_synchronize-IsWf
      | inr y ↦ elim (Bool-cases (str_eq action "edited")) [
        | inl edited ↦ rw (x, y, edited) on_edited-IsWf
        | inr z ↦ rw (x, y, z) on_state-IsWf
      ]
    ]
  ]

-- After a delivery, as before it, no two pull requests or revisions have one key, each pull request
-- that GitHub reports has one row, and the revisions of a pull request are numbered from 1 to its
-- count, each number once; this holds whatever other transactions commit in between, if they keep it
-- and take nothing back.
pub apply_pull_request_webhook_event-IsWf :
    (others : Others)
    → IsFair others
    → (payload : Members) (db : PullDb) {after : PullDb} {result : Option PullRequestWebhookResult}
    → IsWf db
    → apply_pull_request_webhook_event others payload db ≡ some (after, result)
    → IsWf after
unfolding apply_pull_request_webhook_event
apply_pull_request_webhook_event-IsWf others fair payload db w handled =
    Whenever-some (λ (v : After). IsWf v.0) (apply_pull_request_webhook_event others payload db)
      (elim (Option-cases (read_event payload db.installations db.repositories)) [
        | inl unread ↦ rw (apply_pull_request_webhook_event, unread) w
        | inr ((action, f, repository), event) ↦
            rw (apply_pull_request_webhook_event, event)
              (dispatch-IsWf others fair repository f action db w)
      ])
      handled
