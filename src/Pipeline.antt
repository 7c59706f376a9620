-- ===== src/Pipeline.antt =====
-- services/github_pipeline_trace.py: the trace of a pipeline, from the index to the publication. A run
-- has steps, and a step has artifacts; the manifest of the index step keeps the check on GitHub, that
-- of the publish step why nothing was published. Rows stand in the order of their creation. The digest
-- of an artifact and the snapshot of the models are left out.
pub mod Steps
use revy.Common.{
  ℕ, suc, String, Bool, true, false, ◌&&◌, Option, none, some, List, [], ◌∷◌, ◌++◌, ◌==◌,
  if◌then◌else◌, option_eq, find, is_some, take_chars, str_eq, not, ◌||◌,
}
use revy.Common.Table
use revy.Common.Json.{ℤ, Json, Members, end, member, get_key, update_keys, as_int, as_dict}
use revy.Enums.{
  GitHubIndexMode, PipelineStepType, PipelineStepStatus, PipelineArtifactKind,
  GitHubPublishJobStatus, step_type_eq, is_manifest,
}
use revy.Findings.Rows.{PublishJob}

pub record PipelineRun : Type 0 where
  pub id : ℕ
  pub workspace_id : ℕ
  pub revision_id : ℕ
  pub head_sha : String
  pub index_mode : GitHubIndexMode
  pub index_job_id : Option ℕ
  pub review_run_id : Option ℕ
  pub publish_job_id : Option ℕ

pub record Step : Type 0 where
  pub id : ℕ
  pub pipeline_run_id : ℕ
  pub step_type : PipelineStepType
  pub status : PipelineStepStatus
  pub duration_ms : ℕ
  pub error : Option String
  pub model_provider : Option String
  pub model_id : Option String

pub record Artifact : Type 0 where
  pub id : ℕ
  pub step_id : ℕ
  pub kind : PipelineArtifactKind
  pub content_text : Option String
  pub content_json : Option Members

pub record PipelineDb : Type 0 where
  pub runs : List PipelineRun
  pub steps : List Step
  pub artifacts : List Artifact
  pub next_id : ℕ

unfoldable pub get_pipeline_run_for_review_run : ℕ → PipelineDb → Option PipelineRun
get_pipeline_run_for_review_run review_run_id db =
    find (λ r. option_eq r.review_run_id (some review_run_id)) db.runs

unfoldable pub get_pipeline_run_for_index_job : ℕ → PipelineDb → Option PipelineRun
get_pipeline_run_for_index_job index_job_id db =
    find (λ r. option_eq r.index_job_id (some index_job_id)) db.runs

unfoldable pub ensure_pipeline_run_for_index_job :
    ℕ → ℕ → ℕ → GitHubIndexMode → String → PipelineDb → PipelineDb × PipelineRun
unfolding get_pipeline_run_for_index_job
ensure_pipeline_run_for_index_job job_id workspace_id revision_id index_mode head_sha db =
    elim (get_pipeline_run_for_index_job job_id db) [
      | some existing ↦ (db, existing)
      | none ↦
          let run : PipelineRun = record {
            id = db.next_id;
            workspace_id = workspace_id;
            revision_id = revision_id;
            head_sha = head_sha;
            index_mode = index_mode;
            index_job_id = some job_id;
            review_run_id = none;
            publish_job_id = none;
          } in
          (record db { runs = db.runs ++ run ∷ []; next_id = suc db.next_id }, run)
    ]

unfoldable pub link_review_run_to_pipeline : PipelineRun → ℕ → PipelineDb → PipelineDb
link_review_run_to_pipeline run review_run_id db = record db {
  runs =
      Table.update PipelineRun.id run.id (λ r. record r { review_run_id = some review_run_id })
        db.runs;
}

unfoldable pub link_publish_job_to_pipeline : PipelineRun → ℕ → PipelineDb → PipelineDb
link_publish_job_to_pipeline run publish_job_id db = record db {
  runs =
      Table.update PipelineRun.id run.id (λ r. record r { publish_job_id = some publish_job_id })
        db.runs;
}

unfoldable pub add_step_artifact :
    ℕ → PipelineArtifactKind → Option String → Option Members → PipelineDb → PipelineDb
add_step_artifact step_id kind content_text content_json db = record db {
  artifacts =
      db.artifacts
      ++ record {
        id = db.next_id;
        step_id = step_id;
        kind = kind;
        content_text = content_text;
        content_json = content_json;
      }
        ∷ [];
  next_id = suc db.next_id;
}

-- `_create_completed_step`, and the step that `stash_pipeline_github_check_run_id` adds.
unfoldable pub create_step :
    ℕ
    → PipelineStepType
    → ℕ
    → PipelineStepStatus
    → Option String
    → Option String
    → Option String
    → PipelineDb
    → PipelineDb × Step
create_step pipeline_run_id step_type duration_ms status error model_provider model_id db =
    let step : Step = record {
      id = db.next_id;
      pipeline_run_id = pipeline_run_id;
      step_type = step_type;
      status = status;
      duration_ms = duration_ms;
      error = error;
      model_provider = model_provider;
      model_id = model_id;
    } in
    (record db { steps = db.steps ++ step ∷ []; next_id = suc db.next_id }, step)

-- The oldest step of its type in a run: `_get_index_pipeline_step` and `_get_publish_pipeline_step`.
unfoldable pub get_pipeline_step : PipelineStepType → ℕ → PipelineDb → Option Step
get_pipeline_step step_type pipeline_run_id db =
    find (λ s. s.pipeline_run_id == pipeline_run_id && step_type_eq s.step_type step_type) db.steps

unfoldable pub get_step_manifest_artifact : ℕ → PipelineDb → Option Artifact
get_step_manifest_artifact step_id db =
    find (λ a. a.step_id == step_id && is_manifest a.kind) db.artifacts

unfoldable pub pipeline_has_step : ℕ → PipelineStepType → PipelineDb → Bool
unfolding get_pipeline_step
pipeline_has_step pipeline_run_id step_type db =
    is_some (get_pipeline_step step_type pipeline_run_id db)

abbrev pub dict_or_empty : Option Members → Members
dict_or_empty none = end
dict_or_empty (some d) = d

unfoldable pub upsert_step_manifest : ℕ → Members → PipelineDb → PipelineDb
unfolding get_step_manifest_artifact add_step_artifact update_keys
upsert_step_manifest step_id updates db = elim (get_step_manifest_artifact step_id db) [
  | none ↦
      add_step_artifact step_id PipelineArtifactKind.manifest none (some (update_keys end updates))
        db
  | some a ↦ record db {
    artifacts =
        Table.update Artifact.id a.id
          (λ b. record b {
            content_json = some (update_keys (dict_or_empty a.content_json) updates);
          })
          db.artifacts;
  }
]

abbrev flag : String → Members
flag key = member key (Json.boolean true) end

-- The step that is there, or a new one.
unfoldable pub ensure_step :
    PipelineStepType → PipelineStepStatus → ℕ → PipelineDb → PipelineDb × Step
unfolding get_pipeline_step create_step
ensure_step step_type status pipeline_run_id db =
    elim (get_pipeline_step step_type pipeline_run_id db) [
      | some step ↦ (db, step)
      | none ↦ create_step pipeline_run_id step_type 0 status none none none db
    ]

unfoldable pub record_publish_skip_on_pipeline : ℕ → String → PipelineDb → PipelineDb
unfolding get_pipeline_run_for_review_run ensure_step upsert_step_manifest
record_publish_skip_on_pipeline review_run_id manifest_key db =
    elim (get_pipeline_run_for_review_run review_run_id db) [
      | none ↦ db
      | some run ↦
          let (db', step) =
            ensure_step PipelineStepType.publish PipelineStepStatus.completed run.id db in
          upsert_step_manifest step.id (flag manifest_key) db'
    ]

-- `now` is the time in the format of ISO 8601.
unfoldable pub record_generation_superseded_on_pipeline : String → ℕ → PipelineDb → PipelineDb
unfolding get_pipeline_run_for_review_run get_pipeline_step upsert_step_manifest
record_generation_superseded_on_pipeline now review_run_id db =
    elim (get_pipeline_run_for_review_run review_run_id db) [
      | none ↦ db
      | some run ↦ elim (get_pipeline_step PipelineStepType.index run.id db) [
        | none ↦ db
        | some step ↦
            upsert_step_manifest step.id (member "generation_superseded_at" (Json.string now) end)
              db
      ]
    ]

unfoldable pub stash_pipeline_github_check_run_id : ℕ → ℤ → PipelineDb → PipelineDb
unfolding ensure_step upsert_step_manifest
stash_pipeline_github_check_run_id pipeline_run_id github_check_run_id db =
    let (db', step) =
      ensure_step PipelineStepType.index PipelineStepStatus.pending pipeline_run_id db in
    upsert_step_manifest step.id
      (member "github_check_run_id" (Json.integer github_check_run_id) end) db'

unfoldable pub resolve_pipeline_github_check_run_id : ℕ → PipelineDb → Option ℤ
unfolding get_pipeline_step get_step_manifest_artifact get_key
resolve_pipeline_github_check_run_id pipeline_run_id db =
    elim (get_pipeline_step PipelineStepType.index pipeline_run_id db) [
      | none ↦ none
      | some step ↦ elim (get_step_manifest_artifact step.id db) [
        | none ↦ none
        | some a ↦ as_int (get_key "github_check_run_id" (dict_or_empty a.content_json))
      ]
    ]

abbrev step_status_for : GitHubPublishJobStatus → PipelineStepStatus
step_status_for GitHubPublishJobStatus.completed = PipelineStepStatus.completed
step_status_for _ = PipelineStepStatus.failed

-- `(job.error_message or "publish_failed")[:2000]`
abbrev error_or_default : Option String → String
error_or_default none = "publish_failed"
error_or_default (some message) =
    if str_eq message "" then "publish_failed" else take_chars 2000 message

abbrev is_failed_publish : GitHubPublishJobStatus → Bool
is_failed_publish GitHubPublishJobStatus.failed = true
is_failed_publish _ = false

-- The counts of a rollup that the manifest keeps.
abbrev rollup_pass : Members → Json
rollup_pass rollup = Json.object (
    member "raised_count" (get_key "raised_count" rollup) (
      member "resolved_count" (get_key "resolved_count" rollup) (
        member "still_open_display" (get_key "still_open_display" rollup)
          (member "review_count" (get_key "review_count" rollup) end))))

abbrev comment_members : String → Members → Members
comment_members comment rest =
    if str_eq comment "" then rest else member "issue_comment_markdown" (Json.string comment) rest

abbrev rollup_members : Option Members → Members
rollup_members none = end
rollup_members (some rollup) = member "rollup_pass" (rollup_pass rollup) end

-- An issue comment that is not given is the empty text, which the code treats alike.
unfoldable pub record_publish_pipeline_step :
    ℕ → PublishJob → String → ℕ → String → Option String → Option String → PipelineDb → PipelineDb
unfolding create_step add_step_artifact get_key
record_publish_pipeline_step run_id job summary duration_ms comment model_provider model_id db =
    let error =
      if is_failed_publish job.status then some (error_or_default job.error_message) else none in
    let (db₁, step) =
      create_step run_id PipelineStepType.publish duration_ms (step_status_for job.status) error
        model_provider model_id db in
    let db₂ =
      add_step_artifact step.id PipelineArtifactKind.summary_markdown (some summary) none db₁ in
    let rollup = as_dict (get_key "pr_resolution_rollup" (dict_or_empty job.summary_json)) in
    if not (str_eq comment "") || is_some rollup
    then add_step_artifact step.id PipelineArtifactKind.manifest none
        (some (comment_members comment (rollup_members rollup))) db₂
    else db₂
