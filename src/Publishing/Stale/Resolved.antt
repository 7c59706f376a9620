-- ===== src/Publishing/Stale/Resolved.antt =====
-- What the loop over the stale threads has done when it is left.
use revy.Common.{
  ℕ, ◌≡◌, ◌⊎◌, refl, sym, ◌∙◌, ap, String, Bool, true, false, Option, none, some, List, [], ◌∷◌,
  ◌++◌, arith, str_eq, eq_iff, any_of, any_of-append_left, any_of-append_last, All, All-map,
  Bool-cases, Option-cases, inl, inr,
}
use revy.Common.Dict.{Dict, is_in, lookup, lookup-pop}
use revy.Common.Json.{ℤ}
use revy.Retries.{Failure, is_retryable_immediate_mutation_error}
use revy.Publishing.Stale.Sets.{is_in-add_self, is_in-add, All-add, is_in_self}
use revy.Publishing.Stale.{
  add, is_id_in, ThreadRequest, read_index, resolve_thread, ThreadWorld, Resolving, is_caught,
  note_request, find_review_thread_id_for_comment, request_resolve, retry_resolve,
  resolve_review_thread_with_retry, close, settle_failure, settle_resolve, resolve_found,
  settle_find, resolve_indexed, resolve_one, resolve_stale_inline_threads,
}

-- A request that resolved a thread.
abbrev pub resolves : String → ThreadRequest → Bool
resolves thread_id (resolve_thread asked none) = str_eq asked thread_id
resolves thread_id _ = false

module _ (world : ThreadWorld) (thread_index : ℤ → Option String) (resolved : List ℤ)
    (threads : Dict ℤ) (listed : List String) where
  -- GitHub gave the thread for the comment, before the loop or in one of its answers.
  abbrev pub IsThread : ℤ → String → Type 0
  IsThread comment_id thread_id =
      (thread_index comment_id ≡ some thread_id)
      ⊎ ((n : ℕ) × (world.index n comment_id ≡ some thread_id))

  -- The comment of a group is resolved on GitHub, or its thread was resolved by a request.
  abbrev pub IsShut : List ThreadRequest → String → Type 0
  IsShut log k =
      (comment_id : ℤ) × (is_in k listed ≡ true)
      × (lookup k threads ≡ some comment_id)
      × ((is_id_in comment_id resolved ≡ true)
          ⊎ ((thread_id : String) × IsThread comment_id thread_id
              × (any_of (resolves thread_id) log ≡ true)))

  -- The map that is left is the map before without the closed groups, and these are shut.
  pub record IsSettled (left : Dict ℤ) (closed : List String) (log : List ThreadRequest)
      : Type 0 where
    pub kept : (k : String) → is_in k closed ≡ false → lookup k left ≡ lookup k threads
    pub gone : (k : String) → is_in k closed ≡ true → lookup k left ≡ none
    pub shut : All (IsShut log) closed

  abbrev pub Settled : Resolving → Type 0
  Settled s = IsSettled s.inline_threads s.closed_fingerprints s.log

  IsShut-append :
      (log : List ThreadRequest) (request : ThreadRequest) (k : String)
      → IsShut log k
      → IsShut (log ++ request ∷ []) k
  IsShut-append log request k (c, asked, found, inl before) = (c, asked, found, inl before)
  IsShut-append log request k (c, asked, found, inr (t, thread, done)) =
      (c, asked, found, inr (t, thread, any_of-append_left (resolves t) request log done))

  note-Settled :
      (request : ThreadRequest) (s : Resolving) → Settled s → Settled (note_request world request s)
  note-Settled request s h = record {
    kept = h.kept;
    gone = h.gone;
    shut =
        All-map (IsShut s.log) (IsShut (s.log ++ request ∷ [])) s.closed_fingerprints
          (IsShut-append s.log request) h.shut;
  }

  module _ (k : String) (comment_id : ℤ) (asked_for : is_in k listed ≡ true) where
    -- The state of a round whose group has a comment.
    abbrev AtGroup : Resolving → Type 0
    AtGroup s = Settled s × (lookup k s.inline_threads ≡ some comment_id)

    first_lookup : (s : Resolving) → AtGroup s → lookup k threads ≡ some comment_id
    first_lookup s h = elim (Bool-cases (is_in k s.closed_fingerprints)) [
      | inl shut ↦ let missing = h.0.gone k shut in let there = h.1 in absurd (ground arith)
      | inr untouched ↦ sym (h.0.kept k untouched) ∙ h.1
    ]

    close-Settled :
        (s : Resolving)
        → AtGroup s
        → ((is_id_in comment_id resolved ≡ true)
            ⊎ ((thread_id : String) × IsThread comment_id thread_id
                × (any_of (resolves thread_id) s.log ≡ true)))
        → Settled (close world k s)
    close-Settled s h why = record {
      kept = λ j untouched. elim (Bool-cases (str_eq k j)) [
        | inl same ↦
            let e = (eq_iff k j).0 same in
            let shut =
              ap (λ i. is_in i (add k s.closed_fingerprints)) (sym e)
              ∙ is_in-add_self k s.closed_fingerprints in
            absurd (ground arith)
        | inr other ↦
            lookup-pop j k s.inline_threads
            ∙ rw other (h.0.kept j (sym (is_in-add j k s.closed_fingerprints other) ∙ untouched))
      ];
      gone = λ j shut. elim (Bool-cases (str_eq k j)) [
        | inl same ↦ lookup-pop j k s.inline_threads ∙ rw same refl
        | inr other ↦
            lookup-pop j k s.inline_threads
            ∙ rw other (h.0.gone j (sym (is_in-add j k s.closed_fingerprints other) ∙ shut))
      ];
      shut =
          All-add (IsShut s.log) k s.closed_fingerprints h.0.shut
            (comment_id, asked_for, first_lookup s h, why);
    }

    settle_failure-Settled :
        (failure : Failure) (s : Resolving) → Settled s → Settled (settle_failure world failure s).0
    settle_failure-Settled failure s h = elim (Bool-cases (is_caught failure)) [
      | inl caught ↦ rw caught (record { kept = h.kept; gone = h.gone; shut = h.shut })
      | inr not_caught ↦ rw not_caught h
    ]

    -- What the requests for a thread leave: the group as it was, and the thread resolved if none failed.
    abbrev Asked : String → Resolving × Option Failure → Type 0
    Asked thread_id (s, failure) =
        AtGroup s × (failure ≡ none → any_of (resolves thread_id) s.log ≡ true)

    request-Asked :
        (thread_id : String) (s : Resolving)
        → AtGroup s
        → Asked thread_id
            (request_resolve world thread_id s, world.resolve_failure s.clock thread_id)
    request-Asked thread_id s h = (
      (
        note-Settled (resolve_thread thread_id (world.resolve_failure s.clock thread_id)) s h.0,
        h.1,
      ),
      λ e.
          any_of-append_last (resolves thread_id)
            (resolve_thread thread_id (world.resolve_failure s.clock thread_id)) s.log
            (rw e ((eq_iff thread_id thread_id).1 refl)),
    )

    retry-Asked :
        (thread_id : String) (s : Resolving) (failure : Option Failure)
        → Asked thread_id (s, failure)
        → Asked thread_id (retry_resolve world thread_id s failure)
    retry-Asked thread_id s none h = h
    retry-Asked thread_id s (some failure) h =
        elim (Bool-cases (is_retryable_immediate_mutation_error failure)) [
          | inl again ↦ rw again (request-Asked thread_id s h.0)
          | inr last ↦ rw last h
        ]

    settle_resolve-Settled :
        (thread_id : String)
        → IsThread comment_id thread_id
        → (asked : Resolving × Option Failure) → Asked thread_id asked
        → Settled (settle_resolve world k asked).0
    settle_resolve-Settled thread_id thread (s, none) h =
        close-Settled s h.0 (inr (thread_id, thread, h.1 refl))
    settle_resolve-Settled thread_id thread (s, some failure) h =
        settle_failure-Settled failure s h.0.0

    found-Settled :
        (thread : Option String) (s : Resolving)
        → ((thread_id : String) → thread ≡ some thread_id → IsThread comment_id thread_id)
        → AtGroup s
        → Settled (resolve_found world k thread s).0
    unfolding resolve_review_thread_with_retry
    found-Settled none s is h = record { kept = h.0.kept; gone = h.0.gone; shut = h.0.shut }
    found-Settled (some thread_id) s is h =
        let asked = request_resolve world thread_id s in
        let failure = world.resolve_failure s.clock thread_id in
        settle_resolve-Settled thread_id (is thread_id refl)
          (retry_resolve world thread_id asked failure)
          (retry-Asked thread_id asked failure (request-Asked thread_id s h))

    find-Settled :
        (s : Resolving) (failure : Option Failure)
        → AtGroup s
        → Settled
            (settle_find world k (
              note_request world (read_index failure) s,
              failure,
              world.index s.clock comment_id,
            )).0
    find-Settled s none h =
        found-Settled (world.index s.clock comment_id) (note_request world (read_index none) s)
          (λ t e. inr (s.clock, e)) (note-Settled (read_index none) s h.0, h.1)
    find-Settled s (some failure) h =
        settle_failure-Settled failure (note_request world (read_index (some failure)) s)
          (note-Settled (read_index (some failure)) s h.0)

    indexed-Settled :
        (thread : Option String) (s : Resolving)
        → thread_index comment_id ≡ thread
        → AtGroup s
        → Settled (resolve_indexed world thread_index resolved k comment_id thread s).0
    unfolding find_review_thread_id_for_comment
    indexed-Settled (some thread_id) s e h =
        found-Settled (some thread_id) s (λ t same. inl (e ∙ same)) h
    indexed-Settled none s e h = find-Settled s (world.index_failure s.clock) h

  one-Settled :
      (k : String) (comment : Option ℤ) (s : Resolving)
      → is_in k listed ≡ true
      → lookup k s.inline_threads ≡ comment
      → Settled s
      → Settled (resolve_one world thread_index resolved k comment s).0
  unfolding resolve_one
  one-Settled k none s asked e h = h
  one-Settled k (some comment_id) s asked e h = elim (Bool-cases (is_id_in comment_id resolved)) [
    | inl before ↦ rw before (close-Settled k comment_id asked s (h, e) (inl before))
    | inr unresolved ↦
        rw unresolved (indexed-Settled k comment_id asked (thread_index comment_id) s refl (h, e))
  ]

  loop-Settled :
      (fingerprints : List String) (s : Resolving)
      → All (λ k. is_in k listed ≡ true) fingerprints
      → Settled s
      → Settled (resolve_stale_inline_threads world thread_index resolved fingerprints s).0
  unfolding resolve_stale_inline_threads
  loop-Settled [] s asked h = h
  loop-Settled (k ∷ ks) s asked h =
      let (s', raised) = resolve_one world thread_index resolved k (lookup k s.inline_threads) s in
      let kept = one-Settled k (lookup k s.inline_threads) s asked.0 refl h in
      elim (Option-cases raised) [
        | inr (failure, stop) ↦ rw (resolve_stale_inline_threads, stop) kept
        | inl went_on ↦ rw (resolve_stale_inline_threads, went_on) (loop-Settled ks s' asked.1 kept)
      ]

abbrev pub start : Dict ℤ → Resolving
start threads = record {
  inline_threads = threads;
  thread_id_not_found = 0;
  resolve_mutation_failed = 0;
  closed_fingerprints = [];
  log = [];
  clock = 0;
}

-- Whatever GitHub answers, and whether or not an exception ends the loop: a group that is closed was listed, and
-- its comment was resolved before or a request resolved its thread; closed groups have left the map,
-- and every other group has its comment as before.
pub resolve_stale_inline_threads-IsSettled :
    (world : ThreadWorld) (thread_index : ℤ → Option String) (resolved : List ℤ)
    (fingerprints : List String) (threads : Dict ℤ)
    → let (left, _) =
        resolve_stale_inline_threads world thread_index resolved fingerprints (start threads) in
      IsSettled world thread_index resolved threads fingerprints left.inline_threads
        left.closed_fingerprints left.log
resolve_stale_inline_threads-IsSettled world thread_index resolved fingerprints threads =
    loop-Settled world thread_index resolved threads fingerprints fingerprints (start threads)
      (is_in_self fingerprints)
      (record { kept = λ k fresh. refl; gone = λ k shut. absurd (ground arith); shut = tt })
