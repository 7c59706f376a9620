-- ===== src/PullRequests/Numbers/Kept.antt =====
-- Every delivery about a pull request keeps the numbering of its revisions, whatever other
-- transactions that keep it too commit in between.
use revy.Common.{
  ℕ, suc, ◌+◌, ◌≡◌, refl, String, Bool, true, false, Option, some, List, arith, any_of, Has,
  find-Has, Bool-cases, Option-cases, inl, inr, ◌==◌, str_eq,
}
use revy.Common.Table
use revy.Common.Options.{Whenever, Whenever-bind, Whenever-some, ◌>>=◌}
use revy.Findings.Rows.{Revision, PullRequest, Repository}
use revy.PullRequests.Payload.{PrFields}
use revy.PullRequests.Store.{
  PullDb, Others, pulls, revisions, write_pull, set_head, try_append, retry_append, append_revision,
  create_pull_request, take_fields, update_pull_request, upsert_pull_request, find_pull_request,
  get_revision_for_head_sha, has_number, next_revision, is_reported_as,
}
use revy.PullRequests.Numbers.Rows.{IsNumbered, IsSnapshot, neutral-IsNumbered}
use revy.PullRequests.Numbers.Inserts.{append-IsNumbered, create-IsNumbered}

abbrev pub IsWf : PullDb → Type 0
IsWf db = IsNumbered (pulls db) (revisions db) db.next_id

-- Other transactions keep the tables well formed and take no pull request or count back.
pub record IsFair (others : Others) : Type 0 where
  pub keeps : (n : ℕ) (db : PullDb) → IsWf db → IsWf (others n db)
  pub grows :
      (n : ℕ) (db : PullDb) (p : PullRequest)
      → IsSnapshot p (pulls db)
      → IsSnapshot p (pulls (others n db))

pub row-IsSnapshot : (p : PullRequest) (ps : List PullRequest) → Has p ps → IsSnapshot p ps
row-IsSnapshot p ps m = (p, m, refl, omega arith)

abbrev pub Appended : Type 0
Appended = PullDb × PullRequest × Revision

abbrev pub Upserted : Type 0
Upserted = PullDb × PullRequest × Option Revision

pub set_head-IsWf :
    (head : String) (p : PullRequest) (db : PullDb) → IsWf db → IsWf (set_head head p db).0
unfolding set_head
set_head-IsWf head p db w =
    neutral-IsNumbered p.id (λ q. record q { head_sha = head }) (λ q. refl) (λ q. refl) (λ q. refl)
      (λ q. refl) (pulls db) (revisions db) db.next_id w

pub take_fields-IsWf :
    (f : PrFields) (p : PullRequest) (db : PullDb)
    → IsWf db
    → IsWf (write_pull (take_fields f) p db)
take_fields-IsWf f p db w =
    neutral-IsNumbered p.id (take_fields f) (λ q. refl) (λ q. refl) (λ q. refl) (λ q. refl)
      (pulls db) (revisions db) db.next_id w

try_append-IsWf :
    (p : PullRequest) (head : String) (base : Option String) (db : PullDb)
    → IsWf db
    → IsSnapshot p (pulls db)
    → Whenever (λ v. IsWf v.0) (try_append p head base db)
unfolding try_append
try_append-IsWf p head base db w snap =
    elim (Bool-cases (any_of (has_number p.id (p.revision_count + 1)) (revisions db))) [
      | inl taken ↦ rw taken tt
      | inr free ↦ rw free (
          append-IsNumbered (pulls db) (revisions db) db.next_id w p snap free
            (next_revision p head base db) refl refl refl head)
    ]

module _ (others : Others) (fair : IsFair others) where
  retry_append-IsWf :
      (pull_request_id : ℕ) (head : String) (base : Option String) (db : PullDb)
      → IsWf db
      → Whenever (λ v. IsWf v.0) (retry_append others pull_request_id head base db)
  unfolding retry_append
  retry_append-IsWf pull_request_id head base db w =
      elim (Option-cases (Table.get PullRequest.id pull_request_id (pulls db))) [
        | inl gone ↦ rw gone tt
        | inr (p, got) ↦
            let (m, _) = find-Has (λ q. q.id == pull_request_id) (pulls db) got in
            rw got (elim (Option-cases (get_revision_for_head_sha pull_request_id head db)) [
              | inl unseen ↦ rw unseen (
                  try_append-IsWf p head base (others 2 db) (fair.keeps 2 db w)
                    (fair.grows 2 db p (row-IsSnapshot p (pulls db) m)))
              | inr (raced, seen) ↦ rw seen (set_head-IsWf head p db w)
            ])
      ]

  pub append_revision-IsWf :
      (p : PullRequest) (head : String) (base : Option String) (db : PullDb)
      → IsWf db
      → IsSnapshot p (pulls db)
      → Whenever (λ v. IsWf v.0) (append_revision others p head base db)
  unfolding append_revision
  append_revision-IsWf p head base db w snap =
      elim (Option-cases (get_revision_for_head_sha p.id head db)) [
        | inr (r, seen) ↦ rw (append_revision, seen) (set_head-IsWf head p db w)
        | inl unseen ↦
            let w₀ = fair.keeps 0 db w in
            let first = try_append-IsWf p head base (others 0 db) w₀ (fair.grows 0 db p snap) in
            rw (append_revision, unseen)
              (elim (Option-cases (try_append p head base (others 0 db))) [
                | inl taken ↦ rw taken (
                    retry_append-IsWf p.id head base (others 1 (others 0 db))
                      (fair.keeps 1 (others 0 db) w₀))
                | inr (v, done) ↦ rw done (Whenever-some (λ v. IsWf v.0) _ first done)
              ])
      ]

  -- The append within an update.
  appended-IsWf :
      (p : PullRequest) (head : String) (base : Option String) (db : PullDb)
      → IsWf db
      → IsSnapshot p (pulls db)
      → Whenever
          (λ (v : Upserted). IsWf v.0)
          (append_revision others p head base db >>= λ (v : Appended). some (v.0, v.1, some v.2))
  appended-IsWf p head base db w snap =
      Whenever-bind (λ (v : Appended). IsWf v.0) (λ (v : Upserted). IsWf v.0)
        (append_revision others p head base db) _ (append_revision-IsWf p head base db w snap)
        (λ v h. h)

  update_pull_request-IsWf :
      (f : PrFields) (create_revision update_head_sha : Bool) (existing : PullRequest) (db : PullDb)
      → IsWf db
      → Has existing (pulls db)
      → Whenever
          (λ (v : Upserted). IsWf v.0)
          (update_pull_request others f create_revision update_head_sha existing db)
  unfolding update_pull_request
  update_pull_request-IsWf f true update_head_sha existing db₀ w m =
      let db = write_pull (take_fields f) existing db₀ in
      let p = take_fields f existing in
      let w' = take_fields-IsWf f existing db₀ w in
      let appended = appended-IsWf p f.head_sha (some f.base_sha) db w' (
        row-IsSnapshot p (pulls db) (
          Table.Has-update_self PullRequest.id existing.id (take_fields f) existing (pulls db₀) refl
            m)) in
      elim (Option-cases (get_revision_for_head_sha p.id f.head_sha db)) [
        | inl unseen ↦ elim (Bool-cases (str_eq f.head_sha p.head_sha)) [
          | inl same ↦ rw (same, unseen) appended
          | inr moved ↦ rw (moved, unseen) appended
        ]
        | inr (r, seen) ↦ elim (Bool-cases (str_eq f.head_sha p.head_sha)) [
          | inl same ↦ rw (same, seen) w'
          | inr moved ↦ rw (moved, seen) (set_head-IsWf f.head_sha p db w')
        ]
      ]
  update_pull_request-IsWf f false true existing db₀ w m =
      set_head-IsWf f.head_sha (take_fields f existing) (write_pull (take_fields f) existing db₀)
        (take_fields-IsWf f existing db₀ w)
  update_pull_request-IsWf f false false existing db₀ w m = take_fields-IsWf f existing db₀ w

-- What is fair from now on is fair later.
later-IsFair : (others : Others) → IsFair others → IsFair (λ n. others (suc n))
later-IsFair others fair = record {
  keeps = λ n. fair.keeps (suc n);
  grows = λ n. fair.grows (suc n);
}

pub create_pull_request-IsWf :
    (repository : Repository) (f : PrFields) (db : PullDb)
    → IsWf db
    → Whenever (λ (v : Appended). IsWf v.0) (create_pull_request repository f db)
unfolding create_pull_request
create_pull_request-IsWf repository f db w =
    elim (Bool-cases (any_of (is_reported_as repository.id f.github_pull_request_id) (pulls db))) [
      | inl taken ↦ rw taken tt
      | inr free ↦
          rw free (create-IsNumbered (pulls db) (revisions db) db.next_id w repository f free)
    ]

-- The row that a search gives is one of the table.
found-Has :
    (repository : Repository) (f : PrFields) (db : PullDb) {p : PullRequest}
    → find_pull_request repository.id f.github_pull_request_id db ≡ some p
    → Has p (pulls db)
unfolding find_pull_request
found-Has repository f db h =
    (find-Has (is_reported_as repository.id f.github_pull_request_id) (pulls db) h).0

pub upsert_pull_request-IsWf :
    (others : Others)
    → IsFair others
    → (repository : Repository) (f : PrFields) (create_revision update_head_sha : Bool)
      (db : PullDb)
    → IsWf db
    → Whenever
        (λ (v : Upserted). IsWf v.0)
        (upsert_pull_request others repository f create_revision update_head_sha db)
unfolding upsert_pull_request
upsert_pull_request-IsWf others fair repository f create_revision update_head_sha db w =
    let w₀ = fair.keeps 0 db w in
    elim (Option-cases (find_pull_request repository.id f.github_pull_request_id db)) [
      | inr (p, known) ↦
          rw (upsert_pull_request, known)
            (update_pull_request-IsWf others fair f create_revision update_head_sha p db w
              (found-Has repository f db known))
      | inl unknown ↦ elim (Option-cases (create_pull_request repository f (others 0 db))) [
        | inr (v, made) ↦
            rw (upsert_pull_request, unknown, made)
              (Whenever-some (λ (v : Appended). IsWf v.0) _
                (create_pull_request-IsWf repository f (others 0 db) w₀) made)
        | inl raced ↦
            elim (Option-cases
              (find_pull_request repository.id f.github_pull_request_id (others 0 db))) [
                | inl gone ↦ rw (upsert_pull_request, unknown, raced, gone) tt
                | inr (p, known) ↦
                    rw (upsert_pull_request, unknown, raced, known)
                      (update_pull_request-IsWf (λ n. others (suc n)) (later-IsFair others fair) f
                        create_revision update_head_sha p (others 0 db) w₀
                        (found-Has repository f (others 0 db) known))
              ]
      ]
    ]
