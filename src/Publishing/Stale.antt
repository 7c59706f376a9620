-- ===== src/Publishing/Stale.antt =====
-- The inline threads that a publication resolves, because their claim is gone or its lines are: the
-- functions about stale threads in services/github_publish.py.
mod Sets
pub mod Resolved
use revy.Common.{
  ℕ, suc, String, Bool, true, false, not, ◌&&◌, ◌||◌, Option, none, some, List, [], ◌∷◌, ◌++◌, ◌==◌,
  if◌then◌else◌, any_of, keep, map, uuid_str, is_none,
}
use revy.Common.Dict.{Dict, is_in, lookup, pop, keys}
use revy.Common.Json.{ℤ, int_eq}
use revy.Common.Table
use revy.Enums.{is_superseded, is_resolved, is_active}
use revy.Findings.Rows.{Db, Group, Revision}
use revy.Findings.Paths.{Fetched}
use revy.Findings.Closure.{has_id, is_addressed, Pass2Context, pass2_context, close_groups}
use revy.Retries.{Failure, is_retryable_immediate_mutation_error}

abbrev pub is_id_in : ℤ → List ℤ → Bool
is_id_in comment_id ids = any_of (int_eq comment_id) ids

-- `set.add`, for a set as the list of its members.
abbrev pub add : String → List String → List String
add s ss = if is_in s ss then ss else ss ++ s ∷ []

abbrev add_all : List String → List String → List String
add_all ss [] = ss
add_all ss (t ∷ ts) = add_all (add t ss) ts

-- The keys that are ids of groups.
abbrev pub parse_ids : (String → Option ℕ) → List String → List ℕ
parse_ids parse_uuid [] = []
parse_ids parse_uuid (key ∷ ks) =
    let rest = parse_ids parse_uuid ks in
    elim (parse_uuid key) [ none ↦ rest | some parsed ↦ parsed ∷ rest ]

-- The query for the groups whose claim is settled.
abbrev pub is_settled_group : ℕ → List ℕ → Group → Bool
is_settled_group pull_request_id tracked_ids g =
    g.pull_request_id == pull_request_id
    && (is_superseded g.state
        || is_resolved g.state
        || has_id g.id tracked_ids && is_addressed g.resolution_status)

abbrev settled_groups : ℕ → List ℕ → List Group → List Group
settled_groups pull_request_id [] groups = []
settled_groups pull_request_id (i ∷ ids) groups =
    keep (is_settled_group pull_request_id (i ∷ ids)) groups

-- `_fingerprints_to_resolve_inline_threads`, with the publishable fingerprints at hand.
unfoldable pub fingerprints_to_resolve :
    (String → Option ℕ) → List Group → ℕ → Dict ℤ → List ℤ → List String → List String
fingerprints_to_resolve parse_uuid groups pull_request_id inline_threads outdated publishable =
    let unpublished = keep (λ k. not (is_in k publishable)) (keys inline_threads) in
    let moved = keys (keep (λ item. is_id_in item.1 outdated) inline_threads) in
    let settled =
      keep (λ k. is_in k (keys inline_threads))
        (map (λ g. uuid_str g.id)
          (settled_groups pull_request_id (parse_ids parse_uuid (keys inline_threads)) groups)) in
    add_all (add_all unpublished moved) settled

-- The two requests, with their answers: the index of threads is read again, and a thread is resolved.
pub data ThreadRequest : Type 0 where
  read_index : Option Failure → ThreadRequest
  resolve_thread : String → Option Failure → ThreadRequest

-- What GitHub answers to the request with a given number.
pub record ThreadWorld : Type 0 where
  pub index_failure : ℕ → Option Failure
  pub index : ℕ → ℤ → Option String
  pub resolve_failure : ℕ → String → Option Failure

-- The variables of `_resolve_stale_inline_threads`. The other two reasons of `skipped` stay at 0.
pub record Resolving : Type 0 where
  pub inline_threads : Dict ℤ
  pub thread_id_not_found : ℕ
  pub resolve_mutation_failed : ℕ
  pub closed_fingerprints : List String
  pub log : List ThreadRequest
  pub clock : ℕ

-- `except (httpx.HTTPError, RateLimitedError, ServiceUnavailableError)`
abbrev pub is_caught : Failure → Bool
is_caught Failure.other = false
is_caught Failure.worker_retryable = false
is_caught _ = true

module _ (world : ThreadWorld) where
  abbrev pub note_request : ThreadRequest → Resolving → Resolving
  note_request request s = record s { log = s.log ++ request ∷ []; clock = suc s.clock }

  -- `find_review_thread_id_for_comment` of integrations/github_api.py, for a comment that the index at hand
  -- does not have.
  unfoldable pub find_review_thread_id_for_comment :
      ℤ → Resolving → Resolving × Option Failure × Option String
  find_review_thread_id_for_comment comment_id s =
      let failure = world.index_failure s.clock in
      (note_request (read_index failure) s, failure, world.index s.clock comment_id)

  abbrev pub request_resolve : String → Resolving → Resolving
  request_resolve thread_id s =
      note_request (resolve_thread thread_id (world.resolve_failure s.clock thread_id)) s

  abbrev pub retry_resolve : String → Resolving → Option Failure → Resolving × Option Failure
  retry_resolve thread_id s none = (s, none)
  retry_resolve thread_id s (some failure) =
      if is_retryable_immediate_mutation_error failure
      then (request_resolve thread_id s, world.resolve_failure s.clock thread_id)
      else (s, some failure)

  -- `_resolve_review_thread_with_retry`
  unfoldable pub resolve_review_thread_with_retry : String → Resolving → Resolving × Option Failure
  resolve_review_thread_with_retry thread_id s =
      retry_resolve thread_id (request_resolve thread_id s)
        (world.resolve_failure s.clock thread_id)

  -- `inline_threads.pop(fingerprint, None)` and `closed_fingerprints.add(fingerprint)`
  abbrev pub close : String → Resolving → Resolving
  close fingerprint s = record s {
    inline_threads = pop fingerprint s.inline_threads;
    closed_fingerprints = add fingerprint s.closed_fingerprints;
  }

  -- A failure is counted, or raised further.
  abbrev pub settle_failure : Failure → Resolving → Resolving × Option Failure
  settle_failure failure s =
      if is_caught failure
      then (record s { resolve_mutation_failed = suc s.resolve_mutation_failed }, none)
      else (s, some failure)

  abbrev pub settle_resolve : String → Resolving × Option Failure → Resolving × Option Failure
  settle_resolve fingerprint (s, none) = (close fingerprint s, none)
  settle_resolve fingerprint (s, some failure) = settle_failure failure s

  -- A thread that is known is resolved.
  abbrev pub resolve_found : String → Option String → Resolving → Resolving × Option Failure
  resolve_found fingerprint none s =
      (record s { thread_id_not_found = suc s.thread_id_not_found }, none)
  resolve_found fingerprint (some thread_id) s =
      settle_resolve fingerprint (resolve_review_thread_with_retry thread_id s)

  abbrev pub settle_find :
      String → Resolving × Option Failure × Option String → Resolving × Option Failure
  settle_find fingerprint (s, some failure, found) = settle_failure failure s
  settle_find fingerprint (s, none, found) = resolve_found fingerprint found s

  module _ (thread_index : ℤ → Option String) (resolved : List ℤ) where
    abbrev pub resolve_indexed : String → ℤ → Option String → Resolving → Resolving × Option Failure
    resolve_indexed fingerprint comment_id (some thread_id) s =
        resolve_found fingerprint (some thread_id) s
    resolve_indexed fingerprint comment_id none s =
        settle_find fingerprint (find_review_thread_id_for_comment comment_id s)

    -- One round of the loop.
    unfoldable pub resolve_one : String → Option ℤ → Resolving → Resolving × Option Failure
    unfolding find_review_thread_id_for_comment resolve_review_thread_with_retry
    resolve_one fingerprint none s = (s, none)
    resolve_one fingerprint (some comment_id) s =
        if is_id_in comment_id resolved
        then (close fingerprint s, none)
        else resolve_indexed fingerprint comment_id (thread_index comment_id) s

    -- The loop, over the set in the order that its iteration has.
    unfoldable pub resolve_stale_inline_threads :
        List String → Resolving → Resolving × Option Failure
    unfolding resolve_one
    resolve_stale_inline_threads [] s = (s, none)
    resolve_stale_inline_threads (fingerprint ∷ fingerprints) s =
        let (s', raised) = resolve_one fingerprint (lookup fingerprint s.inline_threads) s in
        let rest = resolve_stale_inline_threads fingerprints s' in
        elim raised [ some failure ↦ (s', some failure) | none ↦ rest ]

-- `_close_active_groups_for_fingerprints`: Pass 2's test for the groups whose threads were resolved.
abbrev pub is_collapsed_group : ℕ → List ℕ → Group → Bool
is_collapsed_group pull_request_id group_ids g =
    g.pull_request_id == pull_request_id && has_id g.id group_ids && is_active g.state

unfoldable pub close_active_groups :
    (ℕ → String → String → String → String → Fetched)
    → (String → Option ℕ)
    → ℕ
    → ℕ
    → ℕ
    → List String
    → Db
    → Db × ℕ
unfolding pass2_context close_groups
close_active_groups fetch parse_uuid pull_request_id revision_id review_run_id fingerprints db =
    elim (parse_ids parse_uuid fingerprints) [
      | [] ↦ (db, 0)
      | i ∷ ids ↦ elim (Table.get Revision.id revision_id db.revisions) [
        | none ↦ (db, 0)
        | some revision ↦
            let groups = keep (is_collapsed_group pull_request_id (i ∷ ids)) db.groups in
            let (table, closed) =
              close_groups (pass2_context fetch db review_run_id revision groups) groups
                db.groups in
            (record db { groups = table }, closed)
      ]
    ]
