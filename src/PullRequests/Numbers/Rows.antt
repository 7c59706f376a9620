-- ===== src/PullRequests/Numbers/Rows.antt =====
-- The invariant on the two tables, and what each kind of write does to it.
use revy.Common.{
  ℕ, ◌+◌, ◌≤◌, ◌<◌, ◌≡◌, ◌≢◌, sym, ◌∙◌, Bool, true, false, ◌||◌, List, [], ◌∷◌, ◌++◌, ◌==◌, arith,
  any_of, All, Has, All-map, Has-All, inl, inr, Bool-cases,
}
use revy.Common.Table
use revy.Findings.Rows.{Revision, PullRequest}
use revy.PullRequests.Store.{has_number, is_reported_as}

abbrev pub IsCounted : List PullRequest → Revision → Type 0
IsCounted ps r = All (λ p. p.id ≡ r.pull_request_id → r.revision_number ≤ p.revision_count) ps

abbrev pub IsFilled : List Revision → PullRequest → Type 0
IsFilled rs p = (n : ℕ) → 1 ≤ n → n ≤ p.revision_count → any_of (has_number p.id n) rs ≡ true

abbrev pub IsOther : PullRequest → PullRequest → Type 0
IsOther p q = is_reported_as p.repository_id p.github_pull_request_id q ≡ false

abbrev pub IsApart : Revision → Revision → Type 0
IsApart r s = has_number r.pull_request_id r.revision_number s ≡ false

-- `next` is the next key that the database hands out.
pub record IsNumbered (ps : List PullRequest) (rs : List Revision) (next : ℕ) : Type 0 where
  pub pull_keys : Table.IsUnique PullRequest.id ps
  pub pulls_below : Table.Below PullRequest.id next ps
  pub reported_once : Table.IsPairwise IsOther ps
  pub revision_keys : Table.IsUnique Revision.id rs
  pub revisions_below : Table.Below Revision.id next rs
  pub owned : All (λ r. r.pull_request_id < next) rs
  pub numbered_once : Table.IsPairwise IsApart rs
  pub positive : All (λ r. 1 ≤ r.revision_number) rs
  pub counted : All (IsCounted ps) rs
  pub filled : All (IsFilled rs) ps

-- A copy of a row that other transactions may have moved on meanwhile.
abbrev pub IsSnapshot : PullRequest → List PullRequest → Type 0
IsSnapshot p ps =
    (q : PullRequest) × Has q ps × (q.id ≡ p.id) × (p.revision_count ≤ q.revision_count)

pub any_of-append {ℓ} :
    {A : Type ℓ} (p : A → Bool) (x : A) (xs : List A)
    → any_of p (xs ++ x ∷ []) ≡ (any_of p xs || p x)
any_of-append p x [] = ground arith
any_of-append p x (y ∷ xs) = ground (arith, any_of-append p x xs)

pub any_of-false {ℓ} :
    {A : Type ℓ} (p : A → Bool) (xs : List A) → any_of p xs ≡ false → All (λ x. p x ≡ false) xs
any_of-false p [] h = tt
any_of-false p (x ∷ xs) h = ground (arith, any_of-false p xs)

pub any_of-Has :
    {A : Type 0} (p : A → Bool) (x : A) (xs : List A) → Has x xs → p x ≡ true → any_of p xs ≡ true
any_of-Has p x [] m h = absurd m
any_of-Has p x (y ∷ xs) (inl e) h = ground arith
any_of-Has p x (y ∷ xs) (inr m) h = ground (arith, any_of-Has p x xs m h)

-- A write to one pull request that moves neither its keys nor its count.
module _ (k : ℕ) (f : PullRequest → PullRequest) (keeps_id : (p : PullRequest) → (f p).id ≡ p.id)
    (keeps_repository : (p : PullRequest) → (f p).repository_id ≡ p.repository_id)
    (keeps_report : (p : PullRequest) → (f p).github_pull_request_id ≡ p.github_pull_request_id)
    (keeps_count : (p : PullRequest) → (f p).revision_count ≡ p.revision_count) where
  pub neutral-IsNumbered :
      (ps : List PullRequest) (rs : List Revision) (next : ℕ)
      → IsNumbered ps rs next
      → IsNumbered (Table.update PullRequest.id k f ps) rs next
  neutral-IsNumbered ps rs next w = record {
    pull_keys =
        Table.update-IsPairwise PullRequest.id (λ p q. p.id ≢ q.id) k f ps
          (λ p q h e. h (sym (keeps_id p) ∙ e)) (λ p q h e. h (e ∙ keeps_id q)) w.pull_keys;
    pulls_below =
        Table.All-update PullRequest.id (λ p. p.id < next) k f ps (λ p m e h. rw (keeps_id p) h)
          w.pulls_below;
    reported_once =
        Table.update-IsPairwise PullRequest.id IsOther k f ps
          (λ p q h. rw (keeps_repository p, keeps_report p) h)
          (λ p q h. rw (keeps_repository q, keeps_report q) h) w.reported_once;
    revision_keys = w.revision_keys;
    revisions_below = w.revisions_below;
    owned = w.owned;
    numbered_once = w.numbered_once;
    positive = w.positive;
    counted =
        All-map (IsCounted ps) (IsCounted (Table.update PullRequest.id k f ps)) rs
          (λ r h.
            Table.All-update PullRequest.id
              (λ p. p.id ≡ r.pull_request_id → r.revision_number ≤ p.revision_count) k f ps
              (λ p m e g. rw (keeps_id p, keeps_count p) g) h)
          w.counted;
    filled =
        Table.All-update PullRequest.id (IsFilled rs) k f ps
          (λ p m e h. rw (keeps_id p, keeps_count p) h) w.filled;
  }

module _ (ps : List PullRequest) (rs : List Revision) (next : ℕ) (w : IsNumbered ps rs next) where
  -- A copy of a row is up to date if the next number is free.
  pub snapshot-count :
      (p : PullRequest)
      → IsSnapshot p ps
      → any_of (has_number p.id (p.revision_count + 1)) rs ≡ false
      → (q : PullRequest) → Has q ps
      → q.id ≡ p.id
      → q.revision_count ≡ p.revision_count
  snapshot-count p (s, m, e, behind) free q n d =
      let same = Table.unique_rows PullRequest.id q s ps w.pull_keys n m (d ∙ sym e) in
      let full = Has-All (IsFilled rs) s ps w.filled m (p.revision_count + 1) in
      let taken : s.id ≡ p.id → any_of (has_number s.id (p.revision_count + 1)) rs ≡ false =
        λ d. rw d free in
      elim (Bool-cases (s.revision_count == p.revision_count)) [
        | inl equal ↦ rw same (ground arith)
        | inr ahead ↦ absurd (cc (full (omega arith) (ground arith), taken e))
      ]
