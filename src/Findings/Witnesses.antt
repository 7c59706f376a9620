-- ===== src/Findings/Witnesses.antt =====
-- The theorems about findings at inputs that meet their hypotheses, and runs of the code.
use revy.Common.{
  str_eq, strip, join, uuid_str, take_chars, decimal, ℕ, ◌≤◌, String, ◌≡◌, ◌≢◌, refl, false, some,
  [], ◌∷◌, arith, inl, inr, eq_iff, length, All, Has,
}
use revy.Common.Table
use revy.Common.Errors.{ok}
use revy.Enums.{GitHubFindingGroupState, ResolutionMethod}
use revy.Findings.Rows.{Group, Revision, Db}
use revy.Findings.Published.{
  IsPublishedPrior, get_last_published_prior_revision, get_last_published_prior_revision-greatest,
  latest, get_intermediate_revision_ids_between, prior_publish_pairing_revision_ids,
  has_completed_publish,
}
use revy.Findings.Reconcile.{
  link_findings, set_group_id, lookup_group, load_group_by_fingerprint, compute_fingerprint,
  claim_slot_key, compute_legacy_d10_fingerprint, start_line_key, continuation_candidate, add_group,
  reconcile_review_run, bind_group_for_finding, finding_fingerprint,
}
use revy.Findings.Reconcile.Invariant.{IsWf, reconcile_review_run-IsWf}
use revy.Findings.Reconcile.Dismissed.{
  reconcile-keeps_dismissed, reconcile-keeps_other_pull_requests,
}
use revy.Findings.Reconcile.Linked.{IsReconciled, reconcile-links_every_finding}
use revy.Findings.Reconcile.Identity.{bind-same_claim}
use revy.Findings.Closure.{
  this_run_finding_count, apply_pass2_closure_for_review_run, ensure_pull_request_access,
  dismiss_finding_group,
}
use revy.Findings.Closure.Pass2.{pass2-keeps_protected, pass2-closes_absent}
use revy.Findings.Closure.Dismiss.{dismissed_at, dismiss-writes_one_row, dismiss-survives_reconcile}
use revy.Findings.Samples.{
  no_hash, all_there, second_run, first_revision, second_revision, leak, ignored, blocked,
  elsewhere, race, sample,
}

other_text : (a b : String) → str_eq a b ≡ false → {m n : ℕ} → m ≡ n → a ≢ b
other_text a b h p e = ground (arith, eq_iff a b)

sample-IsWf : IsWf sample
sample-IsWf = record {
  ids = omega arith;
  fresh = omega arith;
  keys = (
    (
      other_text "leak" "ignored" refl,
      (other_text "leak" "blocked" refl, ((λ p q. absurd (omega arith)), tt)),
    ),
    (
      (other_text "ignored" "blocked" refl, (other_text "ignored" "leak" refl, tt)),
      ((other_text "blocked" "leak" refl, tt), (tt, tt)),
    ),
  );
}

reconcile_review_run-IsWf_example : IsWf (reconcile_review_run no_hash 31 sample).0
reconcile_review_run-IsWf_example = reconcile_review_run-IsWf no_hash 31 sample sample-IsWf

reconcile-keeps_dismissed_example : Has ignored (reconcile_review_run no_hash 31 sample).0.groups
reconcile-keeps_dismissed_example =
    reconcile-keeps_dismissed no_hash 31 sample ignored sample-IsWf (inr (inl refl))
      (refl, inr (inr (inr refl)))

reconcile-keeps_other_pull_requests_example :
    Has elsewhere (reconcile_review_run no_hash 31 sample).0.groups
reconcile-keeps_other_pull_requests_example =
    reconcile-keeps_other_pull_requests no_hash 31 sample second_run second_revision elsewhere
      sample-IsWf refl refl (inr (inr (inr (inl refl)))) (omega arith)

reconcile-links_every_finding_example :
    let (db', ids) = reconcile_review_run no_hash 31 sample in
    All (IsReconciled 10 21 db') (race ∷ []) × (length ids ≡ 1)
reconcile-links_every_finding_example =
    reconcile-links_every_finding no_hash 31 sample second_run second_revision sample-IsWf (tt, tt)
      refl refl refl

-- The row that the first report of `race` makes.
abbrev raced : Db
raced = (reconcile_review_run no_hash 31 sample).0

abbrev race_group : Group
race_group = record leak {
  id = 200;
  fingerprint = finding_fingerprint no_hash second_run 10 race;
  severity = race.severity;
  title = race.title;
  message = race.message;
  file_path = race.file_path;
  start_line = race.start_line;
  claim_slot = some "Race";
  last_seen_revision_id = 21;
}

race_is_new : Has race_group raced.groups
unfolding reconcile_review_run link_findings set_group_id bind_group_for_finding lookup_group
    load_group_by_fingerprint compute_fingerprint join uuid_str claim_slot_key take_chars strip
    compute_legacy_d10_fingerprint start_line_key decimal continuation_candidate add_group
race_is_new = inr (inr (inr (inr (inl refl))))

bind-same_claim_example :
    let (db', g') =
      bind_group_for_finding no_hash second_run 10 22
        (record race { start_line = some 90; title = "Race" })
        []
        raced in
    (g'.id ≡ 200) × (length db'.groups ≡ length raced.groups)
unfolding strip
bind-same_claim_example =
    bind-same_claim no_hash second_run 22 race
      (record race { start_line = some 90; title = "Race" }) [] race_group raced
      reconcile_review_run-IsWf_example race_is_new refl refl refl refl

first_is_published : IsPublishedPrior sample 10 second_revision first_revision
unfolding has_completed_publish
first_is_published = (inl refl, refl, omega arith, refl)

get_last_published_prior_revision-greatest_example :
    (r : Revision) × (get_last_published_prior_revision sample 10 second_revision ≡ some r)
    × IsPublishedPrior sample 10 second_revision r
    × (1 ≤ r.revision_number)
get_last_published_prior_revision-greatest_example =
    get_last_published_prior_revision-greatest sample 10 second_revision first_revision
      first_is_published

abbrev passed : Db
passed = (apply_pass2_closure_for_review_run all_there 31 sample).0

prior_is_first : get_last_published_prior_revision sample 10 second_revision ≡ some first_revision
unfolding get_last_published_prior_revision latest has_completed_publish
prior_is_first = refl

pass2-keeps_protected_example : Has blocked passed.groups
pass2-keeps_protected_example =
    pass2-keeps_protected all_there 31 sample second_run second_revision first_revision refl refl
      refl prior_is_first blocked sample-IsWf.ids (inr (inr (inl refl)))
      (inr (inl ("compare_failed", refl)))

pass2-closes_absent_example :
    Has
      (record leak {
        state = GitHubFindingGroupState.resolved;
        resolution_method = some ResolutionMethod.absent_and_addressed;
        resolved_at_revision_id = some 21;
      })
      passed.groups
unfolding this_run_finding_count get_intermediate_revision_ids_between
    prior_publish_pairing_revision_ids
pass2-closes_absent_example =
    pass2-closes_absent all_there 31 sample second_run second_revision first_revision refl refl refl
      prior_is_first leak sample-IsWf.ids (inl refl) refl refl refl (omega arith) (inl refl)
      (inr refl)

abbrev dismissed : Db
dismissed = record sample { groups = Table.update Group.id 100 (dismissed_at 21) sample.groups }

leak_is_dismissed : dismiss_finding_group 1 5 10 100 sample ≡ ok (dismissed, dismissed_at 21 leak)
unfolding dismiss_finding_group ensure_pull_request_access latest
leak_is_dismissed = refl

dismiss-writes_one_row_example :
    Has blocked dismissed.groups × Has (dismissed_at 21 leak) dismissed.groups
dismiss-writes_one_row_example =
    let r =
      dismiss-writes_one_row 1 5 10 100 sample dismissed (dismissed_at 21 leak) blocked
        leak_is_dismissed (omega arith) (inr (inr (inl refl))) in
    (r.0, r.1)

dismiss-survives_reconcile_example :
    Has (dismissed_at 21 leak) (reconcile_review_run no_hash 31 dismissed).0.groups
dismiss-survives_reconcile_example =
    dismiss-survives_reconcile 1 5 10 100 sample no_hash 31 dismissed (dismissed_at 21 leak)
      sample-IsWf leak_is_dismissed
