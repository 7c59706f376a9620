-- ===== src/PullRequests/Alone.antt =====
-- A push with no other transaction in between: the pull request and the revision of its head are
-- there afterwards, and nothing is raised.
use revy.Common.{
  ℕ, ◌+◌, ◌≤◌, ◌<◌, ◌≡◌, refl, ◌∙◌, ap, String, Bool, true, false, Option, none, some, List, [],
  ◌∷◌, ◌++◌, arith, Option-cases, Bool-cases, inl, inr, str_eq, eq_iff, ◌==◌, keep, find, any_of,
  All, Has, is_some, find-Has, find-append_one, find-some_of_Has, All-map, any_of-find, Has-All,
}
use revy.Common.Table
use revy.Common.Json.{int_eq_refl}
use revy.Findings.Rows.{Revision, PullRequest, Repository}
use revy.Findings.Published.{latest, latest-none}
use revy.PullRequests.Payload.{PrFields}
use revy.PullRequests.Store.{
  PullDb, Others, pulls, revisions, write_pull, take_fields, set_head, find_pull_request,
  is_reported_as, has_head, has_number, get_revision_for_head_sha, try_append, append_revision,
  next_revision, with_next, with_pull_request, create_pull_request, update_pull_request,
  upsert_pull_request,
}
use revy.PullRequests.Numbers.Rows.{IsCounted}
use revy.PullRequests.Numbers.Kept.{IsWf, Upserted, take_fields-IsWf}

-- No other transaction commits.
abbrev pub alone : Others
alone n db = db

-- Where a push has arrived: the pull request has its head, and a revision stands for it.
pub record IsSettled (repository : Repository) (f : PrFields) (db : PullDb) (p : PullRequest)
    (r : Revision) : Type 0 where
  pub found : find_pull_request repository.id f.github_pull_request_id db ≡ some p
  pub head : p.head_sha ≡ f.head_sha
  pub known : get_revision_for_head_sha p.id f.head_sha db ≡ some r

keep-append {ℓ} :
    {A : Type ℓ} (p : A → Bool) (x : A) (xs : List A)
    → keep p xs ≡ []
    → p x ≡ true
    → keep p (xs ++ x ∷ []) ≡ (x ∷ [])
keep-append p x [] h t = ground arith
keep-append p x (y ∷ xs) h t = ground (arith, keep-append p x xs)

keep-none {ℓ} :
    {A : Type ℓ} (p : A → Bool) (xs : List A) → All (λ x. p x ≡ false) xs → keep p xs ≡ []
keep-none p [] h = refl
keep-none p (x ∷ xs) h = ground (arith, keep-none p xs)

pub get-Has :
    {A : Type 0} (key : A → ℕ) (x : A) (xs : List A)
    → Table.IsUnique key xs
    → Has x xs
    → Table.get key (key x) xs ≡ some x
get-Has key x xs u m =
    let (y, found) = find-some_of_Has (λ z. key z == key x) x xs m (ground arith) in
    let (n, same) = find-Has (λ z. key z == key x) xs found in
    let e = Table.unique_rows key y x xs u n m (ground arith) in found ∙ ap some e

-- A row whose head is new is the one that stands for it.
known-append :
    (k : ℕ) (head : String) (r : Revision) (rs : List Revision)
    → latest (keep (has_head k head) rs) ≡ none
    → has_head k head r ≡ true
    → latest (keep (has_head k head) (rs ++ r ∷ [])) ≡ some r
unfolding latest
known-append k head r rs h mine =
    rw (keep-append (has_head k head) r rs (latest-none _ h) mine) refl

-- The next number of a pull request is free.
pub free-next :
    (p : PullRequest) (db : PullDb)
    → IsWf db
    → Has p (pulls db)
    → any_of (has_number p.id (p.revision_count + 1)) (revisions db) ≡ false
free-next p db w m =
    elim (Option-cases (find (has_number p.id (p.revision_count + 1)) (revisions db))) [
      | inl free ↦ any_of-find _ (revisions db) ∙ ap is_some free
      | inr (r, taken) ↦
          let (n, number) = find-Has _ (revisions db) taken in
          let counted = Has-All (IsCounted (pulls db)) r (revisions db) w.counted n in
          let bound =
            Has-All (λ q. q.id ≡ r.pull_request_id → r.revision_number ≤ q.revision_count) p
              (pulls db) counted m in
          absurd (ground (arith, bound))
    ]

-- The first attempt to append succeeds.
module _ (repository : Repository) (f : PrFields) (p : PullRequest) (base : Option String)
    (db : PullDb) (w : IsWf db) (m : Has p (pulls db))
    (found : find_pull_request repository.id f.github_pull_request_id db ≡ some p)
    (unseen : get_revision_for_head_sha p.id f.head_sha db ≡ none) where
  append-succeeds :
      append_revision alone p f.head_sha base db ≡ some (with_next p f.head_sha base db)
  unfolding append_revision try_append
  append-succeeds = rw (append_revision, unseen, free-next p db w m) refl

  append-IsSettled : let v = with_next p f.head_sha base db in IsSettled repository f v.0 v.1 v.2
  unfolding find_pull_request get_revision_for_head_sha
  append-IsSettled = record {
    found =
        Table.find-update PullRequest.id (is_reported_as repository.id f.github_pull_request_id)
          (λ q. record q { head_sha = f.head_sha; revision_count = p.revision_count + 1 }) p
          (pulls db) (λ q. refl) found;
    head = refl;
    known =
        known-append p.id f.head_sha (next_revision p f.head_sha base db) (revisions db) unseen
          (ground (arith, eq_iff f.head_sha f.head_sha));
  }

abbrev pub Settles : Repository → PrFields → PullDb → Option Upserted → Type 0
Settles repository f db upserted =
    (v : Upserted) × (r : Revision) × (upserted ≡ some (v.0, v.1, some r))
    × IsSettled repository f v.0 v.1 r
    × (v.0.installations ≡ db.installations)
    × (v.0.repositories ≡ db.repositories)

module _ (repository : Repository) (f : PrFields) (e : PullRequest) (db₀ : PullDb) (w : IsWf db₀)
    (found₀ : find_pull_request repository.id f.github_pull_request_id db₀ ≡ some e) where
  abbrev updated : PullDb
  updated = write_pull (take_fields f) e db₀

  abbrev taken : PullRequest
  taken = take_fields f e

  found : find_pull_request repository.id f.github_pull_request_id updated ≡ some taken
  unfolding find_pull_request
  found =
      Table.find-update PullRequest.id (is_reported_as repository.id f.github_pull_request_id)
        (take_fields f) e (pulls db₀) (λ q. refl) found₀

  there : Has taken (pulls updated)
  unfolding find_pull_request
  there = (find-Has (is_reported_as repository.id f.github_pull_request_id) (pulls updated) found).0

  moved_found :
      find_pull_request repository.id f.github_pull_request_id (set_head f.head_sha taken updated).0
      ≡ some (set_head f.head_sha taken updated).1
  unfolding find_pull_request set_head
  moved_found =
      Table.find-update PullRequest.id (is_reported_as repository.id f.github_pull_request_id)
        (λ q. record q { head_sha = f.head_sha }) taken (pulls updated) (λ q. refl) found

  -- With a revision of the head, or without one.
  known-Settles :
      (r : Revision)
      → get_revision_for_head_sha taken.id f.head_sha updated ≡ some r
      → Settles repository f db₀ (update_pull_request alone f true true e db₀)
  unfolding update_pull_request set_head get_revision_for_head_sha
  known-Settles r seen = elim (Bool-cases (str_eq f.head_sha e.head_sha)) [
    | inl same ↦ (
      (updated, taken, some r),
      r,
      rw (update_pull_request, same, seen) refl,
      record { found = found; head = ground (arith, eq_iff f.head_sha e.head_sha); known = seen },
      refl,
      refl,
    )
    | inr moved ↦ (
      ((set_head f.head_sha taken updated).0, (set_head f.head_sha taken updated).1, some r),
      r,
      rw (update_pull_request, moved, seen) refl,
      record { found = moved_found; head = refl; known = seen },
      refl,
      refl,
    )
  ]

  unknown-Settles :
      get_revision_for_head_sha taken.id f.head_sha updated ≡ none
      → Settles repository f db₀ (update_pull_request alone f true true e db₀)
  unfolding update_pull_request
  unknown-Settles unseen =
      let w' = take_fields-IsWf f e db₀ w in
      let v = with_next taken f.head_sha (some f.base_sha) updated in
      let appended =
        append-succeeds repository f taken (some f.base_sha) updated w' there found unseen in
      (
        (v.0, v.1, some v.2),
        v.2,
        elim (Bool-cases (str_eq f.head_sha e.head_sha)) [
          | inl same ↦ rw (update_pull_request, same, unseen, appended) refl
          | inr moved ↦ rw (update_pull_request, moved, unseen, appended) refl
        ],
        append-IsSettled repository f taken (some f.base_sha) updated w' there found unseen,
        refl,
        refl,
      )

-- A pull request that is new gets its first revision.
create-Settles :
    (repository : Repository) (f : PrFields) (db : PullDb)
    → IsWf db
    → find_pull_request repository.id f.github_pull_request_id db ≡ none
    → Settles repository f db (upsert_pull_request alone repository f true true db)
unfolding upsert_pull_request create_pull_request find_pull_request get_revision_for_head_sha latest
create-Settles repository f db w unknown =
    let v = with_pull_request repository f db in
    let free =
      any_of-find (is_reported_as repository.id f.github_pull_request_id) (pulls db)
      ∙ ap is_some unknown in
    (
      (v.0, v.1, some v.2),
      v.2,
      rw (upsert_pull_request, unknown, free) refl,
      record {
        found =
            find-append_one (is_reported_as repository.id f.github_pull_request_id) v.1 (pulls db)
              unknown (ground (arith, int_eq_refl f.github_pull_request_id));
        head = refl;
        known =
            known-append db.next_id f.head_sha v.2 (revisions db)
              (ap latest (
                keep-none (has_head db.next_id f.head_sha) (revisions db) (
                  All-map (λ r. r.pull_request_id < db.next_id)
                    (λ r. has_head db.next_id f.head_sha r ≡ false) (revisions db)
                    (λ r h. ground arith) w.owned)))
              (ground (arith, eq_iff f.head_sha f.head_sha));
      },
      refl,
      refl,
    )

pub upsert-Settles :
    (repository : Repository) (f : PrFields) (db : PullDb)
    → IsWf db
    → Settles repository f db (upsert_pull_request alone repository f true true db)
unfolding upsert_pull_request
upsert-Settles repository f db w =
    elim (Option-cases (find_pull_request repository.id f.github_pull_request_id db)) [
      | inl unknown ↦ create-Settles repository f db w unknown
      | inr (e, found) ↦
          rw (upsert_pull_request, found)
            (elim (Option-cases (
              get_revision_for_head_sha (take_fields f e).id f.head_sha
                (write_pull (take_fields f) e db))) [
                  | inl unseen ↦ unknown-Settles repository f e db w found unseen
                  | inr (r, seen) ↦ known-Settles repository f e db w found r seen
                ])
    ]
