-- ===== src/PullRequests/Store.antt =====
-- The tables that services/github_pull_requests.py writes, and its writes of pull requests and
-- revisions. A flush that meets a unique constraint raises; the code catches that once or twice and
-- reads again, since another transaction has inserted the row. `others n` is what other transactions
-- have committed by the n-th point at which this one flushes or reads again.
use revy.Common.{
  ℕ, suc, ◌+◌, String, Bool, true, false, ◌&&◌, Option, none, some, List, [], ◌∷◌, ◌++◌, ◌==◌,
  str_eq, if◌then◌else◌, keep, find, any_of,
}
use revy.Common.Table
use revy.Common.Json.{ℤ, int_eq, Members, pos, get_key, as_int, as_dict}
use revy.Common.Options.{◌>>=◌}
use revy.Enums.{is_active_repository}
use revy.Findings.Rows.{Revision, PullRequest, Repository, Installation}
use revy.Findings.Published.{latest}
use revy.Generations.{GenerationDb}
use revy.PullRequests.Payload.{PrFields}

pub record Review : Type 0 where
  pub id : ℕ
  pub pull_request_id : ℕ
  pub github_review_id : ℤ
  pub author_login : String
  pub state : String
  pub submitted_at : ℕ

pub record PullDb : Type 0 where
  pub generations : GenerationDb
  pub repositories : List Repository
  pub installations : List Installation
  pub reviews : List Review
  pub next_id : ℕ

abbrev pub pulls : PullDb → List PullRequest
pulls db = db.generations.pull_requests

abbrev pub revisions : PullDb → List Revision
revisions db = db.generations.revisions

abbrev pub write_pulls : List PullRequest → PullDb → PullDb
write_pulls rows db = record db { generations = record db.generations { pull_requests = rows } }

-- What other transactions commit meanwhile.
abbrev pub Others : Type 0
Others = ℕ → PullDb → PullDb

unfoldable pub resolve_repository :
    Members → List Installation → List Repository → Option Repository
unfolding get_key
resolve_repository payload installations repositories = do
  installation_payload ← as_dict (get_key "installation" payload)
  repository_payload ← as_dict (get_key "repository" payload)
  github_installation_id ← as_int (get_key "id" installation_payload)
  github_repository_id ← as_int (get_key "id" repository_payload)
  installation ←
      find (λ i. int_eq (pos i.github_installation_id) github_installation_id) installations
  find
      (λ r.
        r.installation_id == installation.id
        && int_eq r.github_repository_id github_repository_id
        && is_active_repository r.status)
      repositories

abbrev pub is_reported_as : ℕ → ℤ → PullRequest → Bool
is_reported_as repository_id github_pull_request_id p =
    p.repository_id == repository_id && int_eq p.github_pull_request_id github_pull_request_id

unfoldable pub find_pull_request : ℕ → ℤ → PullDb → Option PullRequest
find_pull_request repository_id github_pull_request_id db =
    find (is_reported_as repository_id github_pull_request_id) (pulls db)

abbrev pub has_head : ℕ → String → Revision → Bool
has_head pull_request_id head_sha r =
    r.pull_request_id == pull_request_id && str_eq r.head_sha head_sha

-- The one with the greatest number, if a head was pushed more than once.
unfoldable pub get_revision_for_head_sha : ℕ → String → PullDb → Option Revision
get_revision_for_head_sha pull_request_id head_sha db =
    latest (keep (has_head pull_request_id head_sha) (revisions db))

-- `pull_request.head_sha = head_sha` and the flush.
unfoldable pub set_head : String → PullRequest → PullDb → PullDb × PullRequest
set_head head_sha p db = (
  write_pulls (Table.update PullRequest.id p.id (λ q. record q { head_sha = head_sha }) (pulls db))
      db,
  record p { head_sha = head_sha },
)

abbrev pub has_number : ℕ → ℕ → Revision → Bool
has_number pull_request_id revision_number r =
    r.pull_request_id == pull_request_id && r.revision_number == revision_number

-- The row that an attempt adds.
abbrev pub next_revision : PullRequest → String → Option String → PullDb → Revision
next_revision p head_sha base_sha db = record {
  id = db.next_id;
  pull_request_id = p.id;
  revision_number = p.revision_count + 1;
  head_sha = head_sha;
  base_sha = base_sha;
}

-- The insert of the revision with the two writes to its pull request.
abbrev pub with_next :
    PullRequest → String → Option String → PullDb → PullDb × PullRequest × Revision
with_next p head_sha base_sha db = (
  record db {
    generations = record db.generations {
      revisions = revisions db ++ next_revision p head_sha base_sha db ∷ [];
      pull_requests =
          Table.update PullRequest.id p.id
            (λ q. record q { head_sha = head_sha; revision_count = p.revision_count + 1 })
            (pulls db);
    };
    next_id = suc db.next_id;
  },
  record p { head_sha = head_sha; revision_count = p.revision_count + 1 },
  next_revision p head_sha base_sha db,
)

-- One attempt: nothing if the constraint on the number of a pull request's revision is violated.
unfoldable pub try_append :
    PullRequest → String → Option String → PullDb → Option (PullDb × PullRequest × Revision)
try_append p head_sha base_sha db =
    if any_of (has_number p.id (p.revision_count + 1)) (revisions db)
    then none
    else some (with_next p head_sha base_sha db)

-- The revision that is there already, with the head moved to it.
abbrev pub reuse : String → PullRequest → Revision → PullDb → PullDb × PullRequest × Revision
reuse head_sha p revision db = let (db', q) = set_head head_sha p db in (db', q, revision)

-- The second attempt, after the refresh of the pull request.
unfoldable pub retry_append :
    Others → ℕ → String → Option String → PullDb → Option (PullDb × PullRequest × Revision)
unfolding set_head
retry_append others pull_request_id head_sha base_sha db = do
  p ← Table.get PullRequest.id pull_request_id (pulls db)
  elim (get_revision_for_head_sha pull_request_id head_sha db) [
    | some raced ↦ some (reuse head_sha p raced db)
    | none ↦ try_append p head_sha base_sha (others 2 db)
  ]

-- Nothing is an `IntegrityError` that the request does not survive.
unfoldable pub append_revision :
    Others
    → PullRequest
    → String
    → Option String
    → PullDb
    → Option (PullDb × PullRequest × Revision)
unfolding set_head retry_append
append_revision others p head_sha base_sha db = elim (get_revision_for_head_sha p.id head_sha db) [
  | some existing ↦ some (reuse head_sha p existing db)
  | none ↦ elim (try_append p head_sha base_sha (others 0 db)) [
    | some done ↦ some done
    | none ↦ retry_append others p.id head_sha base_sha (others 1 (others 0 db))
  ]
]

abbrev pub new_pull_request : ℕ → Repository → PrFields → PullRequest
new_pull_request id repository f = record {
  id = id;
  workspace_id = repository.workspace_id;
  repository_id = repository.id;
  installation_id = repository.installation_id;
  github_pull_request_id = f.github_pull_request_id;
  number = f.number;
  title = f.title;
  state = f.state;
  head_sha = f.head_sha;
  head_ref = f.head_ref;
  base_ref = f.base_ref;
  html_url = f.html_url;
  body = f.body;
  revision_count = 1;
  is_draft = f.is_draft;
  merged = f.merged;
}

abbrev pub first_revision : ℕ → ℕ → PrFields → Revision
first_revision id pull_request_id f = record {
  id = id;
  pull_request_id = pull_request_id;
  revision_number = 1;
  head_sha = f.head_sha;
  base_sha = some f.base_sha;
}

-- The two rows of a pull request that is new.
abbrev pub with_pull_request : Repository → PrFields → PullDb → PullDb × PullRequest × Revision
with_pull_request repository f db =
    let p = new_pull_request db.next_id repository f in
    let r = first_revision (suc db.next_id) p.id f in
    (
      record db {
        generations = record db.generations {
          pull_requests = pulls db ++ p ∷ [];
          revisions = revisions db ++ r ∷ [];
        };
        next_id = suc (suc db.next_id);
      },
      p,
      r,
    )

-- Nothing if another transaction has reported the pull request.
unfoldable pub create_pull_request :
    Repository → PrFields → PullDb → Option (PullDb × PullRequest × Revision)
create_pull_request repository f db =
    if any_of (is_reported_as repository.id f.github_pull_request_id) (pulls db)
    then none
    else some (with_pull_request repository f db)

-- The columns that an update takes over from the payload; the head is written elsewhere.
abbrev pub take_fields : PrFields → PullRequest → PullRequest
take_fields f p = record p {
  title = f.title;
  state = f.state;
  head_ref = f.head_ref;
  base_ref = f.base_ref;
  html_url = f.html_url;
  number = f.number;
  is_draft = f.is_draft;
  merged = f.merged;
  body = f.body;
}

abbrev pub write_pull : (PullRequest → PullRequest) → PullRequest → PullDb → PullDb
write_pull f p db = write_pulls (Table.update PullRequest.id p.id f (pulls db)) db

-- The part of `_upsert_pull_request` for a pull request that is on record.
unfoldable pub update_pull_request :
    Others
    → PrFields
    → Bool
    → Bool
    → PullRequest
    → PullDb
    → Option (PullDb × PullRequest × Option Revision)
unfolding set_head append_revision
update_pull_request others f create_revision update_head_sha existing db₀ =
    let db = write_pull (take_fields f) existing db₀ in
    let p = take_fields f existing in
    if create_revision
    then elim (str_eq f.head_sha p.head_sha) [
      | false ↦ elim (get_revision_for_head_sha p.id f.head_sha db) [
        | some known ↦ let (db', q) = set_head f.head_sha p db in some (db', q, some known)
        | none ↦ do
          (db', q, r) ← append_revision others p f.head_sha (some f.base_sha) db
          some (db', q, some r)
      ]
      | true ↦ elim (get_revision_for_head_sha p.id f.head_sha db) [
        | some known ↦ some (db, p, some known)
        | none ↦ do
          (db', q, r) ← append_revision others p f.head_sha (some f.base_sha) db
          some (db', q, some r)
      ]
    ]
    else if update_head_sha
    then (let (db', q) = set_head f.head_sha p db in some (db', q, none))
    else some (db, p, none)

unfoldable pub upsert_pull_request :
    Others
    → Repository
    → PrFields
    → Bool
    → Bool
    → PullDb
    → Option (PullDb × PullRequest × Option Revision)
unfolding update_pull_request
upsert_pull_request others repository f create_revision update_head_sha db =
    elim (find_pull_request repository.id f.github_pull_request_id db) [
      | some existing ↦ update_pull_request others f create_revision update_head_sha existing db
      | none ↦ elim (create_pull_request repository f (others 0 db)) [
        | some (db', p, r) ↦ some (db', p, some r)
        | none ↦ do
          existing ← find_pull_request repository.id f.github_pull_request_id (others 0 db)
          update_pull_request (λ n. others (suc n)) f create_revision update_head_sha existing
              (others 0 db)
      ]
    ]
