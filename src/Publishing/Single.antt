-- ===== src/Publishing/Single.antt =====
-- A review run has at most one publish job that is pending or processing, as long as jobs are made under the
-- lock of the run. `create_publish_job` takes no lock and is not among the steps.
use revy.Common.{
  ℕ, ◌≡◌, refl, String, Bool, true, false, not, ◌||◌, Option, none, some, List, [], ◌∷◌, arith,
  find, any_of, All, All-map, Bool-cases, Option-cases, inl, inr, if◌then◌else◌, ◌==◌,
}
use revy.Common.Table
use revy.Common.Table.{append_one-IsPairwise}
use revy.Common.Json.{ℤ}
use revy.Enums.{GitHubPublishJobStatus, is_completed_run}
use revy.Findings.Rows.{Db, PublishJob, ReviewRun, Revision}
use revy.Pipeline.{get_pipeline_run_for_review_run}
use revy.Publishing.Jobs.{
  PublishDb, is_open_job, is_open_for, new_job, add_job, update_job, link_job,
  create_publish_job_for_review_run, set_check, resolve_publish_job_id_for_review_run,
  mark_publish_job_failed, fail_with,
}

-- Two jobs of one run are not both open.
abbrev pub AreApart : PublishJob → PublishJob → Type 0
AreApart i j = is_open_job i.status ≡ true → is_open_for i.review_run_id j ≡ false

abbrev pub IsSingle : PublishDb → Type 0
IsSingle db = Table.IsPairwise AreApart db.rows.publish_jobs

-- A write that opens no job and moves none to another run.
record Closes (write : PublishJob → PublishJob) : Type 0 where
  run_kept : (j : PublishJob) → (write j).review_run_id ≡ j.review_run_id
  not_opened : (j : PublishJob) → is_open_job (write j).status ≡ true → is_open_job j.status ≡ true

update_job-IsSingle :
    (id : ℕ) (write : PublishJob → PublishJob) (rows : Db)
    → Closes write
    → Table.IsPairwise AreApart rows.publish_jobs
    → Table.IsPairwise AreApart (update_job id write rows).publish_jobs
unfolding update_job
update_job-IsSingle id write rows closes h =
    Table.update-IsPairwise PublishJob.id AreApart id write rows.publish_jobs
      (λ i j apart is_open.
        let r = closes.run_kept i in let o = closes.not_opened i is_open in rw r (apart o))
      (λ i j apart is_open.
        let r = closes.run_kept j in
        let e = apart is_open in
        elim (Bool-cases (is_open_job (write j).status)) [
          | inl opened ↦ let o = closes.not_opened j opened in ground arith
          | inr shut ↦ ground arith
        ])
      h

-- A job may be added for a run that has no open one.
add_job-IsSingle :
    (job : PublishJob) (rows : Db)
    → any_of (is_open_for job.review_run_id) rows.publish_jobs ≡ false
    → Table.IsPairwise AreApart rows.publish_jobs
    → Table.IsPairwise AreApart (add_job job rows).publish_jobs
unfolding add_job
add_job-IsSingle job rows free h = append_one-IsPairwise AreApart job rows.publish_jobs h (
    All-map (λ j. is_open_for job.review_run_id j ≡ false) (λ j. AreApart j job) rows.publish_jobs
      (λ j other is_open. ground arith) (any_of-false _ rows.publish_jobs free))
  where
    any_of-false :
        (p : PublishJob → Bool) (xs : List PublishJob)
        → any_of p xs ≡ false
        → All (λ x. p x ≡ false) xs
    any_of-false p [] e = tt
    any_of-false p (x ∷ xs) e = ground (arith, any_of-false p xs)

link_job-IsSingle :
    (run_id job_id : ℕ) (db : PublishDb) → IsSingle db → IsSingle (link_job run_id job_id db)
unfolding link_job
link_job-IsSingle run_id job_id db h =
    elim (Option-cases (get_pipeline_run_for_review_run run_id db.pipeline)) [
      | inl unlinked ↦ rw (link_job, unlinked) h
      | inr (run, linked) ↦
          rw (link_job, linked) (update_job-IsSingle job_id _ db.rows (takes_check _) h)
    ]
  where
    takes_check : (check : Option ℤ) → Closes (set_check check)
    takes_check none = record { run_kept = λ j. refl; not_opened = λ j h. h }
    takes_check (some c) = record { run_kept = λ j. refl; not_opened = λ j h. h }

create-IsSingle :
    (review_run_id : ℕ) (db : PublishDb)
    → IsSingle db
    → IsSingle (create_publish_job_for_review_run review_run_id db).0
unfolding create_publish_job_for_review_run
create-IsSingle review_run_id db h =
    elim (Option-cases (Table.get ReviewRun.id review_run_id db.rows.runs)) [
      | inl unknown ↦ rw (create_publish_job_for_review_run, unknown) h
      | inr (run, known) ↦
          elim (Bool-cases (
            not (is_completed_run run.status)
            || any_of (is_open_for run.id) db.rows.publish_jobs)) [
              | inl refused ↦ rw (create_publish_job_for_review_run, known, refused) h
              | inr allowed ↦
                  elim (Option-cases (Table.get Revision.id run.revision_id db.rows.revisions)) [
                    | inl gone ↦ rw (create_publish_job_for_review_run, known, allowed, gone) h
                    | inr (revision, there) ↦
                        rw (create_publish_job_for_review_run, known, allowed, there)
                          (link_job-IsSingle run.id db.rows.next_id _ (
                            add_job-IsSingle (new_job db.rows.next_id run run.revision_id revision)
                              db.rows (ground arith) h))
                  ]
            ]
    ]

resolve-IsSingle :
    (review_run_id : ℕ) (db : PublishDb)
    → IsSingle db
    → IsSingle (resolve_publish_job_id_for_review_run review_run_id db).0
unfolding resolve_publish_job_id_for_review_run
resolve-IsSingle review_run_id db h =
    let made = create-IsSingle review_run_id db h in
    elim (Option-cases (create_publish_job_for_review_run review_run_id db).1) [
      | inr (job_id, created) ↦ rw (resolve_publish_job_id_for_review_run, created) made
      | inl refused ↦
          elim (Option-cases (
            find (is_open_for review_run_id)
              (create_publish_job_for_review_run review_run_id db).0.rows.publish_jobs)) [
                | inl missing ↦ rw (resolve_publish_job_id_for_review_run, refused, missing) made
                | inr (j, there) ↦ rw (resolve_publish_job_id_for_review_run, refused, there) made
              ]
    ]

-- `job.status` set to a status, without a condition.
abbrev pub put_status : GitHubPublishJobStatus → PublishJob → PublishJob
put_status status j = record j { status = status }

abbrev pub keep_open : PublishJob → PublishJob
keep_open j = if is_open_job j.status then put_status GitHubPublishJobStatus.processing j else j

-- The rows with a key are open.
abbrev pub IsOpenAt : ℕ → PublishJob → Type 0
IsOpenAt id j = j.id ≡ id → is_open_job j.status ≡ true

-- The steps that make a job under the lock of its run, fail one, take one up, and end one. A worker
-- takes a job up if it is open, which stands as a premise here; its write has no condition.
pub data JobStep (before : PublishDb) (after : PublishDb) : Type 0 where
  dispatched :
      (review_run_id : ℕ)
      → after ≡ (resolve_publish_job_id_for_review_run review_run_id before).0
      → JobStep before after
  created :
      (review_run_id : ℕ)
      → after ≡ (create_publish_job_for_review_run review_run_id before).0
      → JobStep before after
  failed :
      (publish_job_id : ℕ) (message : String)
      → after ≡ record before { rows = mark_publish_job_failed publish_job_id message before.rows }
      → JobStep before after
  taken :
      (publish_job_id : ℕ)
      → All (IsOpenAt publish_job_id) before.rows.publish_jobs
      → after ≡ record before {
        rows = update_job publish_job_id (put_status GitHubPublishJobStatus.processing) before.rows;
      }
      → JobStep before after
  ended :
      (publish_job_id : ℕ) (status : GitHubPublishJobStatus)
      → is_open_job status ≡ false
      → after ≡ record before { rows = update_job publish_job_id (put_status status) before.rows }
      → JobStep before after

pub data JobSteps (start : PublishDb) : PublishDb → Type 0 where
  here : JobSteps start start
  next : {db after : PublishDb} → JobSteps start db → JobStep db after → JobSteps start after

mark-IsSingle :
    (id : ℕ) (message : String) (db : PublishDb)
    → IsSingle db
    → Table.IsPairwise AreApart (mark_publish_job_failed id message db.rows).publish_jobs
unfolding mark_publish_job_failed
mark-IsSingle id message db h =
    update_job-IsSingle id (fail_with message) db.rows
      (record { run_kept = λ j. ground arith; not_opened = λ j o. ground arith }) h

-- On a job that is open, the write is the one that would check for it.
same_writes :
    (id : ℕ) (jobs : List PublishJob)
    → All (IsOpenAt id) jobs
    → Table.update PublishJob.id id (put_status GitHubPublishJobStatus.processing) jobs
      ≡ Table.update PublishJob.id id keep_open jobs
unfolding Table.update
same_writes id [] h = refl
same_writes id (j ∷ jobs) h =
    let rest = same_writes id jobs h.1 in
    elim (Bool-cases (j.id == id)) [
      | inl this ↦ let is_open = h.0 (ground arith) in rw (this, is_open, rest) refl
      | inr other ↦ rw (other, rest) refl
    ]

taken-IsSingle :
    (id : ℕ) (db : PublishDb)
    → All (IsOpenAt id) db.rows.publish_jobs
    → IsSingle db
    → Table.IsPairwise AreApart
        (update_job id (put_status GitHubPublishJobStatus.processing) db.rows).publish_jobs
unfolding update_job
taken-IsSingle id db is_open h = rw (same_writes id db.rows.publish_jobs is_open) (
    update_job-IsSingle id keep_open db.rows
      (record { run_kept = λ j. ground arith; not_opened = λ j o. ground arith }) h)

JobStep-IsSingle :
    (before after : PublishDb) → JobStep before after → IsSingle before → IsSingle after
JobStep-IsSingle before after (dispatched run e) h = rw e (resolve-IsSingle run before h)
JobStep-IsSingle before after (created run e) h = rw e (create-IsSingle run before h)
JobStep-IsSingle before after (failed id message e) h = rw e (mark-IsSingle id message before h)
JobStep-IsSingle before after (taken id is_open e) h = rw e (taken-IsSingle id before is_open h)
JobStep-IsSingle before after (ended id status shut e) h = rw e (
    update_job-IsSingle id (put_status status) before.rows
      (record { run_kept = λ j. refl; not_opened = λ j o. absurd (ground arith) }) h)

-- However jobs are made under the lock of their run, failed, taken up by a worker that finds them open
-- at its write, and ended, one after the other: a review run has at most one job that is pending or
-- processing if it starts so.
pub JobSteps-IsSingle : {start db : PublishDb} → JobSteps start db → IsSingle start → IsSingle db
JobSteps-IsSingle here h = h
JobSteps-IsSingle (next {db} {after} steps step) h =
    JobStep-IsSingle db after step (JobSteps-IsSingle steps h)
