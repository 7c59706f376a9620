-- ===== src/Generations/Supersede.antt =====
-- What superseding does to the tables: the loop of compare-and-set updates is one pass over the rows.
use revy.Common.{
  ℕ, ◌<◌, ◌≤◌, ◌≡◌, ◌≢◌, refl, sym, ◌∙◌, ap, subst, true, false, ◌&&◌, some, List, [], ◌∷◌, ◌==◌,
  arith, if◌then◌else◌, any_of, map, Has, Bool-cases, inl, inr, ◌⊎◌,
}
use revy.Common.Table
use revy.Common.Passes.{is_among, map_rows, map-map, Has-map, update-map, is_among-keep}
use revy.Enums.{GitHubReviewRunStatus, GitHubIndexJobStatus}
use revy.Findings.Rows.{ReviewRun, Revision}
use revy.Generations.{
  IndexJob, GenerationDb, is_active_run, is_active_job, supersede_run, supersede_job,
  mark_review_run_ids_superseded_cas, mark_index_job_ids_superseded_cas, supersede_runs_of,
  supersede_jobs_of, older_revision_ids, is_older, superseded_index_error,
  mark_review_runs_superseded_for_pull_request, mark_index_jobs_superseded_for_pull_request,
  supersede_stale_generations_for_new_revision,
}

supersede_run-twice : (r : ReviewRun) → supersede_run (supersede_run r) ≡ supersede_run r
unfolding supersede_run
supersede_run-twice r = ground arith

id-supersede_run : (r : ReviewRun) → (supersede_run r).id ≡ r.id
unfolding supersede_run
id-supersede_run r = ground arith

abbrev by_ids : List ℕ → ReviewRun → ReviewRun
by_ids ids r = if is_among ids r.id then supersede_run r else r

by_ids-step :
    (i : ℕ) (ids : List ℕ) (r : ReviewRun)
    → by_ids ids (if r.id == i then supersede_run r else r) ≡ by_ids (i ∷ ids) r
by_ids-step i ids r = elim (Bool-cases (r.id == i)) [
  | inl here ↦ ground (arith, supersede_run-twice r, id-supersede_run r)
  | inr there ↦ ground arith
]

loop-map :
    (ids : List ℕ) (runs : List ReviewRun)
    → (mark_review_run_ids_superseded_cas ids runs).0 ≡ map (by_ids ids) runs
unfolding mark_review_run_ids_superseded_cas
loop-map [] runs = map_id runs
  where
    map_id : (xs : List ReviewRun) → xs ≡ map (by_ids []) xs
    map_id [] = refl
    map_id (x ∷ xs) = ap (λ ys. x ∷ ys) (map_id xs)
loop-map (i ∷ ids) runs =
    let rest =
      loop-map ids (Table.update ReviewRun.id i supersede_run runs)
      ∙ ap (map (by_ids ids)) (update-map ReviewRun.id i supersede_run runs)
      ∙ map-map (by_ids ids) (λ r. if r.id == i then supersede_run r else r) runs
      ∙ map_rows _ (by_ids (i ∷ ids)) runs (λ r m. by_ids-step i ids r) in
    elim (Bool-cases (any_of (λ r. r.id == i && is_active_run r.status) runs)) [
      | inl hit ↦ rw hit rest
      | inr miss ↦ rw miss rest
    ]

-- The runs of some revisions after they are superseded.
abbrev pub by_revisions : List ℕ → ReviewRun → ReviewRun
by_revisions revision_ids r = if is_among revision_ids r.revision_id then supersede_run r else r

by_ids-by_revisions :
    (revision_ids ids : List ℕ) (r : ReviewRun)
    → is_among ids r.id ≡ (is_among revision_ids r.revision_id && is_active_run r.status)
    → by_ids ids r ≡ by_revisions revision_ids r
unfolding supersede_run
by_ids-by_revisions revision_ids ids r e = elim (Bool-cases (is_among revision_ids r.revision_id)) [
  | inl named ↦ elim (Bool-cases (is_active_run r.status)) [
    | inl active ↦ rw (e, named, active) refl
    | inr ended ↦ rw (e, named, ended) refl
  ]
  | inr other ↦ rw (e, other) refl
]

runs-supersede_runs_of :
    (revision_ids : List ℕ) (db : GenerationDb)
    → Table.IsUnique ReviewRun.id db.runs
    → (supersede_runs_of revision_ids db).0.runs ≡ map (by_revisions revision_ids) db.runs
unfolding supersede_runs_of
runs-supersede_runs_of revision_ids db unique =
    loop-map _ db.runs
    ∙ map_rows _ (by_revisions revision_ids) db.runs (λ r m. by_ids-by_revisions revision_ids _ r (
        is_among-keep ReviewRun.id
          (λ x. is_among revision_ids x.revision_id && is_active_run x.status) r db.runs unique m))

-- The jobs, for which the code has one update.
abbrev pub by_job_revisions : List ℕ → IndexJob → IndexJob
by_job_revisions revision_ids j = if is_among revision_ids j.revision_id then supersede_job j else j

by_ids-by_job_revisions :
    (revision_ids ids : List ℕ) (j : IndexJob)
    → is_among ids j.id ≡ (is_among revision_ids j.revision_id && is_active_job j.status)
    → (if is_among ids j.id then supersede_job j else j) ≡ by_job_revisions revision_ids j
unfolding supersede_job
by_ids-by_job_revisions revision_ids ids j e =
    elim (Bool-cases (is_among revision_ids j.revision_id)) [
      | inl named ↦ elim (Bool-cases (is_active_job j.status)) [
        | inl active ↦ rw (e, named, active) refl
        | inr ended ↦ rw (e, named, ended) refl
      ]
      | inr other ↦ rw (e, other) refl
    ]

jobs-supersede_jobs_of :
    (revision_ids : List ℕ) (db : GenerationDb)
    → Table.IsUnique IndexJob.id db.jobs
    → (supersede_jobs_of revision_ids db).0.jobs ≡ map (by_job_revisions revision_ids) db.jobs
unfolding supersede_jobs_of mark_index_job_ids_superseded_cas
jobs-supersede_jobs_of revision_ids db unique =
    map_rows _ (by_job_revisions revision_ids) db.jobs (λ j m.
      by_ids-by_job_revisions revision_ids _ j (
        is_among-keep IndexJob.id
          (λ x. is_among revision_ids x.revision_id && is_active_job x.status) j db.jobs unique m))

-- The ids of the older revisions, for a revision that is on record.
is_among-older :
    (pull_request_id keep_revision_id : ℕ) (db : GenerationDb) (kept v : Revision)
    → Table.IsUnique Revision.id db.revisions
    → Table.get Revision.id keep_revision_id db.revisions ≡ some kept
    → kept.pull_request_id ≡ pull_request_id
    → Has v db.revisions
    → is_among (older_revision_ids pull_request_id keep_revision_id db) v.id
      ≡ is_older pull_request_id kept v
unfolding older_revision_ids
is_among-older pull_request_id keep_revision_id db kept v unique known mine m =
    let same : (kept.pull_request_id == pull_request_id) ≡ true = ground arith in
    rw (older_revision_ids, known, same)
      (is_among-keep Revision.id (is_older pull_request_id kept) v db.revisions unique m)

module _ (pull_request_id keep_revision_id : ℕ) (db : GenerationDb) (kept v : Revision)
    (known : Table.get Revision.id keep_revision_id db.revisions ≡ some kept)
    (mine : kept.pull_request_id ≡ pull_request_id)
    (unique : Table.IsUnique Revision.id db.revisions)
    (unique_runs : Table.IsUnique ReviewRun.id db.runs)
    (unique_jobs : Table.IsUnique IndexJob.id db.jobs) (on_record : Has v db.revisions) where
  abbrev after : GenerationDb
  after = (supersede_stale_generations_for_new_revision pull_request_id keep_revision_id db).0

  abbrev older : List ℕ
  older = older_revision_ids pull_request_id keep_revision_id db

  named : (i : ℕ) → i ≡ v.id → is_among older i ≡ is_older pull_request_id kept v
  named i same =
      ap (is_among older) same
      ∙ is_among-older pull_request_id keep_revision_id db kept v unique known mine on_record

  runs-after : after.runs ≡ map (by_revisions older) db.runs
  unfolding supersede_stale_generations_for_new_revision
      mark_review_runs_superseded_for_pull_request mark_index_jobs_superseded_for_pull_request
      supersede_jobs_of
  runs-after = runs-supersede_runs_of older db unique_runs

  jobs-after : after.jobs ≡ map (by_job_revisions older) db.jobs
  unfolding supersede_stale_generations_for_new_revision
      mark_review_runs_superseded_for_pull_request mark_index_jobs_superseded_for_pull_request
      supersede_runs_of older_revision_ids
  jobs-after = jobs-supersede_jobs_of older _ unique_jobs

  -- The row of a run, and of a job, on the revision `v` afterwards.
  run-after :
      (r : ReviewRun)
      → Has r db.runs
      → r.revision_id ≡ v.id
      → Has (if is_older pull_request_id kept v then supersede_run r else r) after.runs
  run-after r m on_r = subst (Has _) (sym runs-after) (
      subst (λ x. Has x (map (by_revisions older) db.runs))
        (ap (λ b. if b then supersede_run r else r) (named r.revision_id on_r))
        (Has-map (by_revisions older) r db.runs m))

  job-after :
      (j : IndexJob)
      → Has j db.jobs
      → j.revision_id ≡ v.id
      → Has (if is_older pull_request_id kept v then supersede_job j else j) after.jobs
  job-after j n on_j = subst (Has _) (sym jobs-after) (
      subst (λ x. Has x (map (by_job_revisions older) db.jobs))
        (ap (λ b. if b then supersede_job j else j) (named j.revision_id on_j))
        (Has-map (by_job_revisions older) j db.jobs n))

  -- A new revision of a pull request supersedes the work in flight on its older revisions: a run there
  -- that is pending or processing becomes superseded, and such an index job fails with the message
  -- for a newer run.
  pub supersede_stale-stops_older :
      (r : ReviewRun) (j : IndexJob)
      → Has r db.runs
      → Has j db.jobs
      → r.revision_id ≡ v.id
      → j.revision_id ≡ v.id
      → v.pull_request_id ≡ pull_request_id
      → v.revision_number < kept.revision_number
      → (is_active_run r.status ≡ true
          → Has (record r { status = GitHubReviewRunStatus.superseded }) after.runs)
        × (is_active_job j.status ≡ true
            → Has
                (record j {
                  status = GitHubIndexJobStatus.failed;
                  error_message = some superseded_index_error;
                })
                after.jobs)
  unfolding supersede_run supersede_job
  supersede_stale-stops_older r j m n on_r on_j same earlier =
      let stale : is_older pull_request_id kept v ≡ true = ground arith in
      (
        λ active. subst (λ x. Has x after.runs) (rw (stale, active) refl) (run-after r m on_r),
        λ active. subst (λ x. Has x after.jobs) (rw (stale, active) refl) (job-after j n on_j),
      )

  -- It leaves everything else alone: the runs and jobs of the revision itself, of later ones and of
  -- other pull requests, and those that have ended.
  pub supersede_stale-keeps_rest :
      (r : ReviewRun) (j : IndexJob)
      → Has r db.runs
      → Has j db.jobs
      → r.revision_id ≡ v.id
      → j.revision_id ≡ v.id
      → (((v.pull_request_id ≢ pull_request_id) ⊎ (kept.revision_number ≤ v.revision_number))
          → Has r after.runs × Has j after.jobs)
        × (is_active_run r.status ≡ false → Has r after.runs)
        × (is_active_job j.status ≡ false → Has j after.jobs)
  unfolding supersede_run supersede_job
  supersede_stale-keeps_rest r j m n on_r on_j = (
    (λ apart.
        let fresh : is_older pull_request_id kept v ≡ false = ground arith in
        (
          subst (λ x. Has x after.runs) (rw fresh refl) (run-after r m on_r),
          subst (λ x. Has x after.jobs) (rw fresh refl) (job-after j n on_j),
        )),
    (λ ended.
        subst (λ x. Has x after.runs)
          (elim (Bool-cases (is_older pull_request_id kept v)) [
            | inl stale ↦ rw (stale, ended) refl
            | inr fresh ↦ rw fresh refl
          ])
          (run-after r m on_r)),
    (λ ended.
        subst (λ x. Has x after.jobs)
          (elim (Bool-cases (is_older pull_request_id kept v)) [
            | inl stale ↦ rw (stale, ended) refl
            | inr fresh ↦ rw fresh refl
          ])
          (job-after j n on_j)),
  )
