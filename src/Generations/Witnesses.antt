-- ===== src/Generations/Witnesses.antt =====
-- The theorems about generations at inputs that meet their hypotheses.
use revy.Common.{◌≤◌, ◌≡◌, ◌≢◌, ◌⊎◌, refl, true, false, some, none, [], ◌∷◌, arith, Has, inl, inr}
use revy.Enums.{GitHubReviewRunStatus, GitHubIndexJobStatus}
use revy.Findings.Rows.{ReviewRun, Revision}
use revy.Generations.{
  IndexJob, GenerationDb, superseded_index_error, supersede_stale_generations_for_new_revision,
}
use revy.Generations.Supersede.{supersede_stale-stops_older, supersede_stale-keeps_rest}
use revy.Generations.Race.{
  started, completed, failed, broke, superseded, writes, writes-ended, writes-superseded,
}

-- Two revisions of one pull request, and the work of the first one in flight.
abbrev first : Revision
first = record {
  id = 1;
  pull_request_id = 10;
  revision_number = 1;
  head_sha = "a";
  base_sha = none;
}

abbrev second : Revision
second = record {
  id = 2;
  pull_request_id = 10;
  revision_number = 2;
  head_sha = "b";
  base_sha = none;
}

abbrev first_run : ReviewRun
first_run = record {
  id = 21;
  revision_id = 1;
  workspace_id = 5;
  status = GitHubReviewRunStatus.processing;
}

abbrev first_job : IndexJob
first_job = record {
  id = 31;
  revision_id = 1;
  status = GitHubIndexJobStatus.pending;
  error_message = none;
}

abbrev second_run : ReviewRun
second_run = record first_run { id = 22; revision_id = 2 }

abbrev second_job : IndexJob
second_job = record first_job { id = 32; revision_id = 2 }

abbrev sample : GenerationDb
sample = record {
  pull_requests = [];
  revisions = first ∷ second ∷ [];
  runs = first_run ∷ second_run ∷ [];
  jobs = first_job ∷ second_job ∷ [];
}

abbrev after_second : GenerationDb
after_second = (supersede_stale_generations_for_new_revision 10 2 sample).0

supersede_stale-stops_older_example :
    (true ≡ true
      → Has (record first_run { status = GitHubReviewRunStatus.superseded }) after_second.runs)
    × (true ≡ true
        → Has
            (record first_job {
              status = GitHubIndexJobStatus.failed;
              error_message = some superseded_index_error;
            })
            after_second.jobs)
supersede_stale-stops_older_example =
    supersede_stale-stops_older 10 2 sample second first refl refl (omega arith) (omega arith)
      (omega arith) (inl refl) first_run first_job (inl refl) (inl refl) refl refl refl
      (omega arith)

supersede_stale-keeps_rest_example :
    (((second.pull_request_id ≢ 10) ⊎ (second.revision_number ≤ second.revision_number))
      → Has second_run after_second.runs × Has second_job after_second.jobs)
    × (true ≡ false → Has second_run after_second.runs)
    × (true ≡ false → Has second_job after_second.jobs)
supersede_stale-keeps_rest_example =
    supersede_stale-keeps_rest 10 2 sample second second refl refl (omega arith) (omega arith)
      (omega arith) (inr (inl refl)) second_run second_job (inr (inl refl)) (inr (inl refl)) refl
      refl

writes-ended_example :
    writes
      (superseded ∷ failed ∷ broke ∷ started ∷ [])
      (record first_run { status = GitHubReviewRunStatus.completed })
    ≡ record first_run { status = GitHubReviewRunStatus.failed }
writes-ended_example =
    writes-ended (superseded ∷ failed ∷ broke ∷ started ∷ [])
      (record first_run { status = GitHubReviewRunStatus.completed }) (inl refl)

writes-superseded_example :
    writes
      (completed ∷ failed ∷ [])
      (record first_run { status = GitHubReviewRunStatus.superseded })
    ≡ record first_run { status = GitHubReviewRunStatus.failed }
writes-superseded_example =
    writes-superseded (completed ∷ failed ∷ [])
      (record first_run { status = GitHubReviewRunStatus.superseded }) refl
