-- ===== src/PullRequests/Numbers/Inserts.antt =====
-- The two inserts: the next revision of a pull request, with its count, and a pull request that is
-- new, with its first revision.
use revy.Common.{
  ℕ, suc, ◌+◌, ◌≤◌, ◌<◌, ◌≡◌, ◌≢◌, refl, ◌∙◌, String, true, false, List, [], ◌∷◌, ◌++◌, ◌==◌, arith,
  any_of, All, Has, All-map, All-map_both, All-append_one, Has-All, All-of_Has, inl, inr,
  Bool-cases,
}
use revy.Common.Table
use revy.Common.Table.{append_one-IsPairwise}
use revy.Common.Json.{int_eq_comm}
use revy.Findings.Rows.{Revision, PullRequest, Repository}
use revy.PullRequests.Payload.{PrFields}
use revy.PullRequests.Store.{has_number, is_reported_as, new_pull_request, first_revision}
use revy.PullRequests.Numbers.Rows.{
  IsNumbered, IsSnapshot, IsCounted, IsFilled, IsOther, IsApart, any_of-append, any_of-false,
  snapshot-count,
}

-- A number that a revision has stays one when a row is added.
IsFilled-append :
    (p : PullRequest) (rs : List Revision) (r : Revision)
    → IsFilled rs p
    → IsFilled (rs ++ r ∷ []) p
IsFilled-append p rs r h n low high = rw (any_of-append (has_number p.id n) r rs, h n low high) refl

Below-step :
    {A : Type 0} (key : A → ℕ) (n m : ℕ) (xs : List A)
    → n ≤ m
    → Table.Below key n xs
    → Table.Below key m xs
Below-step key n m xs le h = All-map (λ x. key x < n) (λ x. key x < m) xs (λ x b. omega arith) h

fresh :
    {A : Type 0} (key : A → ℕ) (n m : ℕ) (xs : List A)
    → n ≤ m
    → Table.Below key n xs
    → All (λ x. key x ≢ m) xs
fresh key n m xs le h = All-map (λ x. key x < n) (λ x. key x ≢ m) xs (λ x b e. omega arith) h

module _ (ps : List PullRequest) (rs : List Revision) (next : ℕ) (w : IsNumbered ps rs next)
    (p : PullRequest) (snap : IsSnapshot p ps)
    (free : any_of (has_number p.id (p.revision_count + 1)) rs ≡ false) (r : Revision)
    (r_id : r.id ≡ next) (r_of : r.pull_request_id ≡ p.id)
    (r_number : r.revision_number ≡ p.revision_count + 1) (head : String) where
  abbrev moved : PullRequest → PullRequest
  moved q = record q { head_sha = head; revision_count = p.revision_count + 1 }

  abbrev after : List PullRequest
  after = Table.update PullRequest.id p.id moved ps

  count_of : (q : PullRequest) → Has q ps → q.id ≡ p.id → q.revision_count ≡ p.revision_count
  count_of = snapshot-count ps rs next w p snap free

  old-IsCounted : (v : Revision) → IsCounted ps v → IsCounted after v
  old-IsCounted v h =
      Table.All-update PullRequest.id
        (λ q. q.id ≡ v.pull_request_id → v.revision_number ≤ q.revision_count) p.id moved ps
        (λ q m e g d. let c = count_of q m e in let b = g d in omega arith) h

  new-IsCounted : IsCounted after r
  new-IsCounted =
      Table.All-update_to PullRequest.id (λ q. Unit {0})
        (λ q. q.id ≡ r.pull_request_id → r.revision_number ≤ q.revision_count) p.id moved ps
        (λ q e d. omega arith) (λ q ne u d. absurd (ne (d ∙ r_of)))
        (All-of_Has (λ q. Unit {0}) ps (λ q m. tt))

  grown :
      (q : PullRequest)
      → Has q ps
      → q.id ≡ p.id
      → IsFilled (rs ++ r ∷ []) q
      → IsFilled (rs ++ r ∷ []) (moved q)
  grown q m e h n low high = elim (Bool-cases (n == p.revision_count + 1)) [
    | inl last ↦
        let eq : n ≡ p.revision_count + 1 = ground arith in
        let mine : has_number q.id n r ≡ true = rw (r_of, r_number, e, eq) (ground arith) in
        rw (any_of-append (has_number q.id n) r rs, mine) (ground arith)
    | inr less ↦ let c = count_of q m e in h n low (ground arith)
  ]

  pub append-IsNumbered : IsNumbered after (rs ++ r ∷ []) (suc next)
  append-IsNumbered = record {
    pull_keys =
        Table.update-IsPairwise PullRequest.id (λ x y. x.id ≢ y.id) p.id moved ps (λ x y h. h)
          (λ x y h. h) w.pull_keys;
    pulls_below =
        Table.All-update PullRequest.id (λ q. q.id < suc next) p.id moved ps (λ q m e h. h)
          (Below-step PullRequest.id next (suc next) ps (omega arith) w.pulls_below);
    reported_once =
        Table.update-IsPairwise PullRequest.id IsOther p.id moved ps (λ x y h. h) (λ x y h. h)
          w.reported_once;
    revision_keys =
        append_one-IsPairwise (λ x y. x.id ≢ y.id) r rs w.revision_keys
          (rw r_id (fresh Revision.id next next rs (omega arith) w.revisions_below));
    revisions_below =
        All-append_one (λ v. v.id < suc next) rs r
          (Below-step Revision.id next (suc next) rs (omega arith) w.revisions_below) (omega arith);
    owned =
        All-append_one (λ v. v.pull_request_id < suc next) rs r
          (All-map (λ v. v.pull_request_id < next) (λ v. v.pull_request_id < suc next) rs
            (λ v h. omega arith) w.owned)
          (let (q, m, e, _) = snap in
            let b = Has-All (λ x. x.id < next) q ps w.pulls_below m in omega arith);
    numbered_once = append_one-IsPairwise IsApart r rs w.numbered_once (
        All-map (λ v. has_number p.id (p.revision_count + 1) v ≡ false) (λ v. IsApart v r) rs
          (λ v h. rw (r_of, r_number) (ground arith)) (any_of-false _ rs free));
    positive = All-append_one (λ v. 1 ≤ v.revision_number) rs r w.positive (omega arith);
    counted =
        All-append_one (IsCounted after) rs r
          (All-map (IsCounted ps) (IsCounted after) rs old-IsCounted w.counted) new-IsCounted;
    filled =
        Table.All-update PullRequest.id (IsFilled (rs ++ r ∷ [])) p.id moved ps grown (
          All-map (IsFilled rs) (IsFilled (rs ++ r ∷ [])) ps (λ q. IsFilled-append q rs r)
            w.filled);
  }

module _ (ps : List PullRequest) (rs : List Revision) (next : ℕ) (w : IsNumbered ps rs next)
    (repository : Repository) (f : PrFields)
    (unreported : any_of (is_reported_as repository.id f.github_pull_request_id) ps ≡ false) where
  abbrev p : PullRequest
  p = new_pull_request next repository f

  abbrev r : Revision
  r = first_revision (suc next) next f

  none_of : (v : Revision) → v.pull_request_id < next → has_number next 1 v ≡ false
  none_of v h = ground arith

  pub create-IsNumbered : IsNumbered (ps ++ p ∷ []) (rs ++ r ∷ []) (suc (suc next))
  create-IsNumbered = record {
    pull_keys =
        append_one-IsPairwise (λ x y. x.id ≢ y.id) p ps w.pull_keys
          (fresh PullRequest.id next next ps (omega arith) w.pulls_below);
    pulls_below =
        All-append_one (λ q. q.id < suc (suc next)) ps p
          (Below-step PullRequest.id next (suc (suc next)) ps (omega arith) w.pulls_below)
          (omega arith);
    reported_once = append_one-IsPairwise IsOther p ps w.reported_once (
        All-map (λ q. is_reported_as repository.id f.github_pull_request_id q ≡ false)
          (λ q. IsOther q p) ps (λ q h. reported_sym q h) (any_of-false _ ps unreported));
    revision_keys =
        append_one-IsPairwise (λ x y. x.id ≢ y.id) r rs w.revision_keys
          (fresh Revision.id next (suc next) rs (omega arith) w.revisions_below);
    revisions_below =
        All-append_one (λ v. v.id < suc (suc next)) rs r
          (Below-step Revision.id next (suc (suc next)) rs (omega arith) w.revisions_below)
          (omega arith);
    owned =
        All-append_one (λ v. v.pull_request_id < suc (suc next)) rs r
          (All-map (λ v. v.pull_request_id < next) (λ v. v.pull_request_id < suc (suc next)) rs
            (λ v h. omega arith) w.owned)
          (omega arith);
    numbered_once = append_one-IsPairwise IsApart r rs w.numbered_once (
        All-map (λ v. v.pull_request_id < next) (λ v. IsApart v r) rs (λ v h. ground arith)
          w.owned);
    positive = All-append_one (λ v. 1 ≤ v.revision_number) rs r w.positive (omega arith);
    counted =
        All-append_one (IsCounted (ps ++ p ∷ [])) rs r
          (All-map_both (IsCounted ps) (λ v. v.pull_request_id < next) (IsCounted (ps ++ p ∷ [])) rs
            (λ v h b.
              All-append_one (λ q. q.id ≡ v.pull_request_id → v.revision_number ≤ q.revision_count)
                ps p h (λ e. absurd (omega arith)))
            w.counted w.owned)
          (All-append_one (λ q. q.id ≡ next → 1 ≤ q.revision_count) ps p
            (All-map (λ q. q.id < next) (λ q. q.id ≡ next → 1 ≤ q.revision_count) ps
              (λ q h e. absurd (omega arith)) w.pulls_below)
            (λ e. omega arith));
    filled =
        All-append_one (IsFilled (rs ++ r ∷ [])) ps p
          (All-map (IsFilled rs) (IsFilled (rs ++ r ∷ [])) ps (λ q. IsFilled-append q rs r)
            w.filled)
          (λ n low high.
            let one : n ≡ 1 = omega arith in
            let mine : has_number next n r ≡ true = rw one (ground arith) in
            rw (any_of-append (has_number next n) r rs, mine) (ground arith));
  }
    where
      reported_sym :
          (q : PullRequest)
          → is_reported_as repository.id f.github_pull_request_id q ≡ false
          → IsOther q p
      reported_sym q h =
          ground (arith, int_eq_comm q.github_pull_request_id f.github_pull_request_id)
