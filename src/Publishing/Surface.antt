-- ===== src/Publishing/Surface.antt =====
-- The check and the issue comment of a publication: what services/github_publish.py sends for them, and what it keeps
-- of the answers.
use revy.Common.{String, Bool, true, false, Option, none, some, List}
use revy.Common.Dict.{Dict}
use revy.Common.Json.{ℤ, Members}
use revy.Publishing.Flight.{
  InlinePostSpec, create_check, update_check, create_issue_comment, update_issue_comment, Answer,
  accepted, status, unreachable, unusable, Flight, World, Raised, http_status, transport,
  service_unavailable, send,
}

-- What the flush reads of `PublishSurfaceBuild`. The owner, the repository and the external id of the
-- check go into the requests only.
pub record PublishSurfaceBuild : Type 0 where
  pub conclusion : String
  pub inline_threads : Dict ℤ
  pub prior_v2_inline : Members
  pub inline_posts : List InlinePostSpec
  pub post_inline : Bool
  pub is_update_from_other : Bool
  pub existing_github_check_run_id : Option ℤ
  pub existing_github_comment_id : Option ℤ
  pub prior_collapsed_fingerprints : List String

-- `if job.x is not None: … elif build.is_update_from_other and build.existing_x is not None: …`
abbrev pub existing_id : Option ℤ → Bool → Option ℤ → Option ℤ
existing_id (some id) is_update_from_other existing = some id
existing_id none true existing = existing
existing_id none false existing = none

abbrev pub with_check : Option ℤ → Flight → Flight
with_check id s = record s { job = record s.job { github_check_run_id = id } }

abbrev pub with_comment : Option ℤ → Flight → Flight
with_comment id s = record s { job = record s.job { github_comment_id = id } }

-- What a request that has to succeed leaves: a failure is raised.
abbrev pub raise_failure : Flight → Answer → Flight × Option Raised
raise_failure s (accepted id) = (s, none)
raise_failure s (status code) = (s, some (http_status code))
raise_failure s unreachable = (s, some transport)
raise_failure s unusable = (s, some service_unavailable)

abbrev pub note_check : Flight → Answer → Flight × Option Raised
note_check s (accepted id) = (with_check (some id) s, none)
note_check s (status code) = (s, some (http_status code))
note_check s unreachable = (s, some transport)
note_check s unusable = (s, some service_unavailable)

abbrev pub note_comment : Flight → Answer → Flight × Option Raised
note_comment s (accepted id) = (with_comment (some id) s, none)
note_comment s (status code) = (s, some (http_status code))
note_comment s unreachable = (s, some transport)
note_comment s unusable = (s, some service_unavailable)

module _ (world : World) where
  abbrev pub write_check_at : String → String → Option ℤ → Flight → Flight × Option Raised
  write_check_at conclusion summary (some id) s =
      let (s', answer) = send world (update_check id conclusion summary) (with_check (some id) s) in
      raise_failure s' answer
  write_check_at conclusion summary none s =
      let (s', answer) = send world (create_check conclusion summary) s in note_check s' answer

  unfoldable pub write_check : PublishSurfaceBuild → String → Flight → Flight × Option Raised
  write_check build summary s =
      write_check_at build.conclusion summary
        (existing_id s.job.github_check_run_id build.is_update_from_other
          build.existing_github_check_run_id)
        s

  abbrev pub write_comment_at : String → Option ℤ → Flight → Flight × Option Raised
  write_comment_at body (some id) s =
      let (s', answer) = send world (update_issue_comment id body) (with_comment (some id) s) in
      raise_failure s' answer
  write_comment_at body none s =
      let (s', answer) = send world (create_issue_comment body) s in note_comment s' answer

  unfoldable pub write_issue_comment :
      PublishSurfaceBuild → String → Flight → Flight × Option Raised
  write_issue_comment build body s =
      write_comment_at body
        (existing_id s.job.github_comment_id build.is_update_from_other
          build.existing_github_comment_id)
        s

  -- `_append_recovered_inline_422_blocks_to_issue_comment`, for the body that it makes, if the blocks of the
  -- recovered comments are not all there yet.
  abbrev pub keep_existing : Option ℤ → Flight × Option Raised → Flight × Option Raised
  keep_existing id (s, some raised) = (s, some raised)
  keep_existing id (s, none) = elim (s.job.github_comment_id) [
    | some written ↦ (s, none)
    | none ↦ (with_comment id s, none)
  ]

  abbrev pub append_at : Option String → Option ℤ → Flight → Flight × Option Raised
  append_at none id s = (s, none)
  append_at (some body) none s =
      let (s', answer) = send world (create_issue_comment body) s in note_comment s' answer
  append_at (some body) (some id) s =
      let (s', answer) = send world (update_issue_comment id body) s in
      keep_existing (some id) (raise_failure s' answer)

  unfoldable pub append_recovered_blocks :
      PublishSurfaceBuild → Option String → Flight → Flight × Option Raised
  append_recovered_blocks build updated_body s =
      append_at updated_body
        (elim (s.job.github_comment_id) [
          | some id ↦ some id
          | none ↦ build.existing_github_comment_id
        ])
        s
