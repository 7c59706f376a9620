-- ===== src/Lib.antt =====
-- A model of the backend of Revy (backend/app), the service that reviews pull requests on GitHub
-- and keeps track of what it has found. The backend is a set of services over one PostgreSQL
-- database, called by an HTTP API and by Celery workers. Each part of the model has the tables
-- that the services read as lists of rows, and one function for each service function, named as
-- it is there.
--
-- Findings: a review run of a revision leaves findings. Reconciliation
-- (services/github_finding_reconcile.py) binds each finding to a group, the stable identity of a
-- claim in its pull request; closure (services/github_finding_closure.py and _rules.py) resolves
-- the groups that a later run no longer reports, using the earlier published revisions
-- (services/github_resolution_metrics.py) and the paths that are gone
-- (services/github_path_hygiene.py). A person can dismiss a group. Generations: when a pull
-- request moves on, the runs and index jobs in flight are superseded
-- (services/github_generation_lifecycle.py) while the worker writes the status of its run
-- (services/github_review.py). Pull requests: the deliveries of GitHub open pull requests, append
-- a revision for each new head and supersede what the old one had in flight
-- (services/github_pull_requests.py). Pipeline: the trace that each generation leaves
-- (services/github_pipeline_trace.py). Publishing: a completed run gets a publish job, whose
-- comments are posted to GitHub one by one while HEAD may move and requests may fail
-- (services/github_publish.py). Tenancy: workspaces, members, invitations and accounts
-- (services/memberships.py, account_lifecycle.py and invitations.py), and the plan and credits of
-- a workspace as the events of Stripe set them (services/billing.py, api/v1/webhooks/stripe.py).
-- A completed run takes a credit of its workspace. RateLimit: the limiter of requests over Redis
-- (core/rate_limit.py). Idempotency: the key under which a request's response is kept in Redis
-- (core/idempotency.py). Chunking: the pieces of a file that are indexed for the search of a
-- review's context (services/code_chunking.py).
--
-- Files. Paths are below backend/app.
--
--   Common: Boolean tests, lists, options, JSON values, dictionaries, text (Text, and what it
--     keeps without white space in Text/Visible), tables with a primary key (Table, Table/Counts,
--     Passes), and Errors, which is core/exceptions.py and the sequencing of calls that may
--     raise.
--   Enums: constants/enums.py.
--   Findings/Rows, Rules, Published, Paths: models/github_finding.py and its neighbours,
--     services/github_finding_closure_rules.py, the revision lookups of
--     services/github_resolution_metrics.py, services/github_path_hygiene.py.
--   Findings/Reconcile and its modules: reconcile_review_run with its loop (link_findings), the
--     three lookups and the writes; proofs in Cases, Lookup, Invariant, Dismissed, Bound, Linked
--     and Identity.
--   Findings/Closure and its modules: apply_pass2_closure_for_review_run with its loop
--     (close_groups) and dismiss_finding_group; proofs in Pass2 and Dismiss.
--   Generations: services/github_generation_lifecycle.py and the conditional status writes;
--     proofs in Supersede and Race.
--   PullRequests/Payload, Store, Webhooks: the handlers of services/github_pull_requests.py;
--     proofs in Numbers, Deliveries, Alone, Redelivery and Race.
--   Pipeline, Pipeline/Steps: services/github_pipeline_trace.py and
--     github_pipeline_run_lookup.py.
--   Publishing/Threads, Jobs, Flight, Inline: the stored map of inline comments, the publish
--     jobs, the gates and requests of a publication in flight, and the loop of
--     _flush_publish_surface that posts inline comments; proofs in Threads, Single,
--     Inline/TakenBack, Inline/Resumed and the modules beside them.
--   Publishing/Choice: which groups, findings and earlier jobs a publication goes by, with the
--     test of services/github_finding_judge.py; proofs in Choice/Aligned.
--   Publishing/Stale: the inline threads that a publication resolves; proofs in Stale/Resolved.
--     The order in which a set is gone through is a list of the caller.
--   Publishing/Surface, Flush: the requests for the check and the issue comment, and the rest of
--     _flush_publish_surface, from the writes to GitHub on, with its gates and its end; proofs in
--     Flush/Surface, Loop, Writes and Unwound.
--   Publishing/Run: run_publish_job, from the gates of a job to its end, with what the build of
--     the surface and the requests before the first write give or raise handed in; proofs in
--     Run/Closed, Flushed and Ended.
--   Retries: core/worker_retries.py.
--   Tenancy/Rows, Memberships, Account, Invitations, Billing: the models and the services of the
--     same names; proofs in Admins and its modules, Invitations/Acceptance, Billing/Credits,
--     Events and Replay.
--   RateLimit: core/rate_limit.py; proofs in Bound.
--   Idempotency: core/idempotency.py; proofs in Replay.
--   Chunking: chunk_file_content with its loop (chunk_lines) and flush; proofs in Chunks and
--     Kept.
--   Samples and Witnesses beside each part: concrete rows, runs of the code, and each theorem at
--     an input that meets its hypotheses.
--
-- How state and calls are modelled. A UUID is a natural number and a time a number of
-- microseconds (of seconds for the limiter, as in its code). An ORM object is its row, found
-- again by its primary key; setting attributes is an update by key, and a flush has no further
-- effect. Every service function takes the state and returns the new one; one that may raise
-- returns a Result whose error carries no state, since the session of a request is rolled back
-- when an exception leaves it. The order of rows is the order in which they were inserted; a
-- query without an order takes the first row that meets its condition. Only the columns that the
-- modelled code reads or writes are there.
--
-- Termination. All loops are structural recursion over the list that the code iterates, so no
-- fuel is needed; the only bounded recursions are the 30 attempts of the polling, as in its code,
-- and the digits of decimal (n + 1 of them for n) and of a UUID (32).
--
-- Concurrency and outside answers. Another transaction that commits between two statements is a
-- function on the tables, handed in by the caller (others in PullRequests), and a theorem states
-- what it assumes of it. A publication in flight reads an environment (World): what each refresh
-- of the database finds, what GitHub answers to each request and whether each commit succeeds, by
-- the number of the step. A commit that fails stands also for a worker that is killed before it;
-- the refreshes themselves are answered. Its log has the requests with their answers, and saved
-- and saved_pipeline are the job row and the trace as last committed, to which an exception that
-- leaves run_publish_job rolls back.
--
-- What is a parameter. The SHA-256 digest of a fingerprint, str.lower, the match of ILIKE, the
-- constructor of uuid.UUID, the random token of an invitation, the contents that GitHub returns,
-- and the event that the Stripe client verifies. Nothing is assumed of them but what a theorem
-- states.
--
-- What is not modelled. Listings with a cursor, log lines, outbound calls to Stripe, Keycloak and
-- the models, and the texts of comments. Locks (SELECT FOR UPDATE) are left out: outside
-- PullRequests and Publishing each operation is one step on the state. In Publishing/Jobs each
-- function that makes, finds or fails a job is one step too: create_publish_job_for_review_run
-- locks its run, create_publish_job takes no lock, and another request may commit between its
-- read and its insert. The conditional status writes of a run (start, completion, superseding)
-- are single updates in the code; mark_review_run_failed reads and then writes, and
-- Generations/Race has both ways that this can end. The remaining services, among them the judge,
-- the index job and model policy, are not modelled.
pub mod Common
pub mod Enums
pub mod Findings
pub mod Tenancy
pub mod Generations
pub mod Retries
pub mod RateLimit
pub mod Idempotency
pub mod Chunking
pub mod PullRequests
pub mod Pipeline
pub mod Publishing
