-- ===== src/Pipeline/Steps.antt =====
-- The steps of services/github_pipeline_trace.py before the publication: the index, the retrieval, the review
-- and the reconciliation of a pipeline, with what their manifests hold.
use revy.Common.{
  ℕ, zero, suc, String, Bool, false, not, ◌||◌, Option, none, some, List, [], ◌∷◌, if◌then◌else◌,
  str_eq, take_chars,
}
use revy.Common.Table
use revy.Common.Json.{
  ℤ, pos, Json, cons, Members, end, member, get_key, set_key, update_keys, as_int, as_text, as_dict,
  int_eq,
}
use revy.Common.Options.{◌>>=◌}
use revy.Enums.{
  GitHubIndexMode, GitHubIndexJobStatus, GitHubReviewRunStatus, PipelineStepType,
  PipelineStepStatus, PipelineArtifactKind,
}
use revy.Pipeline.{
  PipelineDb, Step, Artifact, get_pipeline_run_for_review_run, add_step_artifact, create_step,
  get_pipeline_step, get_step_manifest_artifact, upsert_step_manifest, dict_or_empty,
}

-- `key in d`
abbrev has_key : String → Members → Bool
has_key key end = false
has_key key (member k v rest) = let later = has_key key rest in str_eq k key || later

-- `d.pop(key, None)`
abbrev pub drop_key : String → Members → Members
drop_key key end = end
drop_key key (member k v rest) =
    let later = drop_key key rest in if str_eq k key then later else member k v later

abbrev drop_keys : List String → Members → Members
drop_keys [] d = d
drop_keys (key ∷ ks) d = drop_keys ks (drop_key key d)

-- `for key in keys: if key in source: d[key] = source[key]`
copy_keys : List String → Members → Members → Members
unfolding get_key set_key
copy_keys [] source d = d
copy_keys (key ∷ ks) source d =
    copy_keys ks source (if has_key key source then set_key key (get_key key source) d else d)

abbrev pub update_step : ℕ → (Step → Step) → PipelineDb → PipelineDb
update_step id write db = record db { steps = Table.update Step.id id write db.steps }

-- What the recording of an index reads of its job; `index_manifest_stats` is set on the object while it is indexed.
pub record IndexedJob : Type 0 where
  pub status : GitHubIndexJobStatus
  pub index_mode : GitHubIndexMode
  pub chunk_count : Option ℕ
  pub fallback_reason : Option String
  pub warning_message : Option String
  pub error_message : Option String
  pub index_manifest_stats : Option Members

abbrev or_null : Option String → Json
or_null none = Json.null
or_null (some s) = Json.string s

abbrev count_or_null : Option ℕ → Json
count_or_null none = Json.null
count_or_null (some n) = Json.integer (pos n)

abbrev mode_value : GitHubIndexMode → String
mode_value GitHubIndexMode.diff = "diff"
mode_value GitHubIndexMode.full = "full"

-- `(message or default)[:2000]`
abbrev pub message_or : String → Option String → String
message_or default none = default
message_or default (some message) = if str_eq message "" then default else take_chars 2000 message

abbrev index_status : GitHubIndexJobStatus → PipelineStepStatus
index_status GitHubIndexJobStatus.completed = PipelineStepStatus.completed
index_status _ = PipelineStepStatus.failed

abbrev index_error : GitHubIndexJobStatus → Option String → Option String
index_error GitHubIndexJobStatus.failed message = some (message_or "index_failed" message)
index_error _ message = none

-- `_INDEX_MANIFEST_COUNT_KEYS`
abbrev count_keys : List String
count_keys = "reused_count" ∷ "new_count" ∷ "embed_batches" ∷ []

-- `_INDEX_EMBEDDING_MANIFEST_KEYS`
abbrev embedding_keys : List String
embedding_keys = "embedding_provider" ∷ "embedding_model" ∷ "embedding_dimensions" ∷ []

-- `index_manifest_stats.get("embed_batches", 0) == 0`, for a count that is whole.
abbrev is_zero_count : Option ℤ → Bool
is_zero_count none = false
is_zero_count (some n) = int_eq n (pos 0)

abbrev has_no_batches : Members → Bool
has_no_batches stats =
    not (has_key "embed_batches" stats) || is_zero_count (as_int (get_key "embed_batches" stats))

-- A text that is there and not empty.
abbrev text_or : Option String → Json → Option String
text_or default value = elim (as_text value) [
  | none ↦ default
  | some s ↦ if str_eq s "" then default else some s
]

-- The provider and the model of a step, where the embedding names a model.
abbrev embedding_model : Members → Step → Step
embedding_model stats step = elim (text_or none (get_key "embedding_model" stats)) [
  | none ↦ step
  | some model ↦ record step {
    model_provider = text_or (some "voyage") (get_key "embedding_provider" stats);
    model_id = some model;
  }
]

-- `_apply_index_manifest_stats`: the manifest, and what becomes of the step.
unfoldable pub apply_index_manifest_stats : Members → Members → Members × (Step → Step)
unfolding copy_keys set_key get_key
apply_index_manifest_stats manifest stats =
    let counted = copy_keys count_keys stats manifest in
    if has_no_batches stats
    then (
      drop_keys embedding_keys
          (set_key "embedding_skipped_reason" (Json.string "reused_chunks_only") counted),
      λ step. record step { model_provider = none; model_id = none },
    )
    else (
      copy_keys embedding_keys stats (drop_key "embedding_skipped_reason" counted),
      embedding_model stats,
    )

abbrev apply_stats : Members → Option Members → Members × (Step → Step)
apply_stats manifest none = (manifest, λ step. step)
apply_stats manifest (some stats) = apply_index_manifest_stats manifest stats

abbrev note_check_run : Option ℤ → Members → Members
note_check_run none manifest = manifest
note_check_run (some id) manifest = set_key "github_check_run_id" (Json.integer id) manifest

abbrev index_fields : IndexedJob → ℕ → Members
index_fields job duration_ms = member "index_mode" (Json.string (mode_value job.index_mode)) (
    member "chunk_count" (count_or_null job.chunk_count) (
      member "fallback_reason" (or_null job.fallback_reason) (
        member "warning_message" (or_null job.warning_message)
          (member "duration_ms" (Json.integer (pos duration_ms)) end))))

-- The index step, which is there if the check was stashed on it.
unfoldable pub note_index_step :
    ℕ → PipelineStepStatus → Option String → ℕ → Option Step → PipelineDb → PipelineDb × Step
unfolding create_step
note_index_step pipeline_run_id status error duration_ms none db =
    create_step pipeline_run_id PipelineStepType.index duration_ms status error none none db
note_index_step pipeline_run_id status error duration_ms (some step) db =
    let write : Step → Step =
      λ s. record s { status = status; duration_ms = duration_ms; error = error } in
    (update_step step.id write db, write step)

abbrev manifest_of : Option Artifact → Members
manifest_of none = end
manifest_of (some a) = dict_or_empty a.content_json

abbrev put_manifest : ℕ → Members → Option Artifact → PipelineDb → PipelineDb
put_manifest step_id manifest none db =
    add_step_artifact step_id PipelineArtifactKind.manifest none (some manifest) db
put_manifest step_id manifest (some a) db = record db {
  artifacts =
      Table.update Artifact.id a.id (λ b. record b { content_json = some manifest }) db.artifacts;
}

unfoldable pub record_index_pipeline_step : ℕ → IndexedJob → ℕ → Option ℤ → PipelineDb → PipelineDb
unfolding get_pipeline_step note_index_step get_step_manifest_artifact update_keys
    apply_index_manifest_stats set_key add_step_artifact
record_index_pipeline_step pipeline_run_id job duration_ms github_check_run_id db =
    let (db₁, step) =
      note_index_step pipeline_run_id (index_status job.status)
        (index_error job.status job.error_message) duration_ms
        (get_pipeline_step PipelineStepType.index pipeline_run_id db) db in
    let artifact = get_step_manifest_artifact step.id db₁ in
    let (manifest, write) =
      apply_stats (update_keys (manifest_of artifact) (index_fields job duration_ms))
        job.index_manifest_stats in
    put_manifest step.id (note_check_run github_check_run_id manifest) artifact
      (update_step step.id write db₁)

-- `isinstance(hits, list) and hits`
abbrev add_hits : ℕ → Json → PipelineDb → PipelineDb
add_hits step_id (Json.array (cons hit hits)) db =
    add_step_artifact step_id PipelineArtifactKind.retrieval_hits none
      (some (member "items" (Json.array (cons hit hits)) end)) db
add_hits step_id value db = db

unfoldable pub record_retrieve_pipeline_step : ℕ → Members → ℕ → PipelineDb → PipelineDb
unfolding create_step add_step_artifact get_key
record_retrieve_pipeline_step pipeline_run_id manifest duration_ms db =
    let (db₁, step) =
      create_step pipeline_run_id PipelineStepType.retrieve duration_ms PipelineStepStatus.completed
        none none none db in
    add_hits step.id (get_key "retrieval_hits" manifest)
      (add_step_artifact step.id PipelineArtifactKind.manifest none (some manifest) db₁)

abbrev review_status : GitHubReviewRunStatus → PipelineStepStatus
review_status GitHubReviewRunStatus.completed = PipelineStepStatus.completed
review_status _ = PipelineStepStatus.failed

abbrev review_error : GitHubReviewRunStatus → Option String → Option String
review_error GitHubReviewRunStatus.failed message = some (message_or "review_failed" message)
review_error _ message = none

abbrev text_or_empty : Option String → String
text_or_empty none = ""
text_or_empty (some s) = s

-- `truncate` is `_truncate_text` at 512 KiB, which counts the bytes of UTF-8.
unfoldable pub record_review_pipeline_step :
    (String → String)
    → ℕ
    → GitHubReviewRunStatus
    → Option String
    → Option String
    → Option String
    → String
    → Option String
    → Members
    → ℕ
    → PipelineDb
    → PipelineDb
unfolding create_step add_step_artifact
record_review_pipeline_step truncate pipeline_run_id status error_message provider model_id prompt
      raw_response parse_report duration_ms db =
    let (db₁, step) =
      create_step pipeline_run_id PipelineStepType.review duration_ms (review_status status)
        (review_error status error_message) provider model_id db in
    let db₂ =
      add_step_artifact step.id PipelineArtifactKind.prompt (some (truncate prompt)) none db₁ in
    let db₃ =
      add_step_artifact step.id PipelineArtifactKind.raw_response
        (some (truncate (text_or_empty raw_response))) none db₂ in
    add_step_artifact step.id PipelineArtifactKind.parse_report none (some parse_report) db₃

abbrev pass_members : Option Members → Members → Members
pass_members none rest = rest
pass_members (some pass) rest = member "resolution_pass" (Json.object pass) rest

abbrev suppressed_members : ℕ → Members
suppressed_members zero = end
suppressed_members (suc n) =
    member "head_contradiction_suppressed_count" (Json.integer (pos (suc n))) end

unfoldable pub record_reconcile_pipeline_step :
    ℕ → ℕ → ℕ → Option Members → ℕ → PipelineDb → PipelineDb
unfolding create_step add_step_artifact
record_reconcile_pipeline_step pipeline_run_id group_count duration_ms resolution_pass suppressed
      db =
    let (db₁, step) =
      create_step pipeline_run_id PipelineStepType.reconcile duration_ms
        PipelineStepStatus.completed none none none db in
    add_step_artifact step.id PipelineArtifactKind.manifest none
      (some (
        member "linked_group_count" (Json.integer (pos group_count))
          (pass_members resolution_pass (suppressed_members suppressed))))
      db₁

unfoldable pub record_resolution_pass_on_reconcile_step : ℕ → Members → PipelineDb → PipelineDb
unfolding get_pipeline_step upsert_step_manifest
record_resolution_pass_on_reconcile_step pipeline_run_id resolution_pass db =
    elim (get_pipeline_step PipelineStepType.reconcile pipeline_run_id db) [
      | none ↦ db
      | some step ↦
          upsert_step_manifest step.id (member "resolution_pass" (Json.object resolution_pass) end)
            db
    ]

unfoldable pub get_resolution_metrics_for_review_run : ℕ → PipelineDb → Option Members
unfolding get_pipeline_run_for_review_run get_pipeline_step get_step_manifest_artifact get_key
get_resolution_metrics_for_review_run review_run_id db =
    get_pipeline_run_for_review_run review_run_id db >>= λ run.
    get_pipeline_step PipelineStepType.reconcile run.id db >>= λ step.
    get_step_manifest_artifact step.id db >>= λ artifact.
    artifact.content_json >>= λ manifest. as_dict (get_key "resolution_pass" manifest)
