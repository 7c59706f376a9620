-- ===== src/Findings/Published.antt =====
-- The revisions before the current one that were published, from services/github_resolution_metrics.py.
use revy.Common.{
  keep-Has, Has-All, Option-cases, All-map, subst, sym, ℕ, ◌+◌, ◌≡◌, ◌≤◌, ◌<◌, refl, Bool, true,
  ◌&&◌, Option, none, some, List, [], ◌∷◌, map, arith, ◌==◌, ltb, leb, if◌then◌else◌, keep, any_of,
  All, Has, inl, inr, Has-keep,
}
use revy.Enums.{is_completed_publish}
use revy.Findings.Rows.{Revision, Db}

-- `order_by(revision_number.desc()).limit(1)`
unfoldable pub latest : List Revision → Option Revision
latest [] = none
latest (r ∷ rs) = elim (latest rs) [
  | none ↦ some r
  | some s ↦ if ltb r.revision_number s.revision_number then some s else some r
]

-- The joins with the review runs and the completed publish jobs of a revision.
unfoldable pub has_completed_publish : Db → Revision → Bool
has_completed_publish db r =
    any_of
      (λ run.
        run.revision_id == r.id
        && any_of (λ j. j.review_run_id == run.id && is_completed_publish j.status) db.publish_jobs)
      db.runs

abbrev is_published_prior : Db → ℕ → Revision → Revision → Bool
is_published_prior db pull_request_id current r =
    r.pull_request_id == pull_request_id
    && ltb r.revision_number current.revision_number
    && has_completed_publish db r

unfoldable pub get_last_published_prior_revision : Db → ℕ → Revision → Option Revision
get_last_published_prior_revision db pull_request_id current =
    latest (keep (is_published_prior db pull_request_id current) db.revisions)

abbrev is_between : ℕ → Revision → Revision → Revision → Bool
is_between pull_request_id prior current r =
    r.pull_request_id == pull_request_id
    && ltb prior.revision_number r.revision_number
    && ltb r.revision_number current.revision_number

unfoldable pub get_intermediate_revision_ids_between : Db → ℕ → Revision → Revision → List ℕ
get_intermediate_revision_ids_between db pull_request_id prior current =
    if leb current.revision_number (prior.revision_number + 1)
    then []
    else map Revision.id (keep (is_between pull_request_id prior current) db.revisions)

unfoldable pub prior_publish_pairing_revision_ids : Revision → List ℕ → List ℕ
prior_publish_pairing_revision_ids prior intermediate_revision_ids =
    prior.id ∷ intermediate_revision_ids

pub latest-none : (rs : List Revision) → latest rs ≡ none → rs ≡ []
unfolding latest
latest-none [] h = refl
latest-none (x ∷ rs) h = ground arith

pub latest-row : (rs : List Revision) (r : Revision) → latest rs ≡ some r → Has r rs
unfolding latest
latest-row [] r h = cc
latest-row (x ∷ rs) r h = elim (Option-cases (latest rs)) [
  | inl e ↦ ground arith
  | inr (s, e) ↦ ground (arith, latest-row rs s e)
]

latest-greatest :
    (rs : List Revision) (r : Revision)
    → latest rs ≡ some r
    → All (λ s. s.revision_number ≤ r.revision_number) rs
unfolding latest
latest-greatest [] r h = tt
latest-greatest (x ∷ rs) r h = elim (Option-cases (latest rs)) [
  | inl e ↦
      let empty : rs ≡ [] = latest-none rs e in
      (ground arith, subst (All (λ s. s.revision_number ≤ r.revision_number)) (sym empty) tt)
  | inr (s, e) ↦ (
    ground arith,
    All-map (λ t. t.revision_number ≤ s.revision_number) _ rs (λ t m. ground arith)
        (latest-greatest rs s e),
  )
]

-- A revision of the pull request before the current one, with a completed publish job.
abbrev pub IsPublishedPrior : Db → ℕ → Revision → Revision → Type 0
IsPublishedPrior db pull_request_id current r =
    Has r db.revisions
    × (r.pull_request_id ≡ pull_request_id)
    × (r.revision_number < current.revision_number)
    × (has_completed_publish db r ≡ true)

pub get_last_published_prior_revision_sound :
    (db : Db) (pull_request_id : ℕ) (current r : Revision)
    → get_last_published_prior_revision db pull_request_id current ≡ some r
    → IsPublishedPrior db pull_request_id current r
unfolding get_last_published_prior_revision
get_last_published_prior_revision_sound db pull_request_id current r h =
    let (row, met) = Has-keep _ r db.revisions (latest-row _ r h) in
    (row, ground arith, ground arith, ground arith)

-- The revision that a new one is compared with: whenever the pull request has a revision with a smaller
-- number and a completed publish job, the lookup returns such a revision, and the one with the greatest
-- number.
pub get_last_published_prior_revision-greatest :
    (db : Db) (pull_request_id : ℕ) (current s : Revision)
    → IsPublishedPrior db pull_request_id current s
    → (r : Revision) × (get_last_published_prior_revision db pull_request_id current ≡ some r)
      × IsPublishedPrior db pull_request_id current r
      × (s.revision_number ≤ r.revision_number)
unfolding get_last_published_prior_revision
get_last_published_prior_revision-greatest db pull_request_id current s prior =
    elim (Option-cases (latest rows)) [
      | inl e ↦ absurd (subst (Has s) (latest-none rows e) kept)
      | inr (r, e) ↦ (
        r,
        e,
        get_last_published_prior_revision_sound db pull_request_id current r
            (unfold get_last_published_prior_revision in e),
        Has-All (λ t. t.revision_number ≤ r.revision_number) s rows (latest-greatest rows r e) kept,
      )
    ]
  where
    rows : List Revision
    rows = keep (is_published_prior db pull_request_id current) db.revisions

    kept : Has s rows
    kept = keep-Has _ s db.revisions prior.0 (ground arith)
