-- ===== src/Publishing/Choice/Aligned.antt =====
-- The inline comments of a run are about groups that the run publishes.
use revy.Common.{
  ℕ, ◌≡◌, refl, sym, ◌∙◌, ap, subst, String, Bool, true, false, not, ◌&&◌, ◌||◌, Option, none, some,
  List, [], ◌∷◌, ◌++◌, ◌==◌, arith, str_eq, eq_iff, if◌then◌else◌, any_of, keep, is_some, uuid_str,
  Bool-cases, Option-cases, inl, inr,
}
use revy.Common.Dict.{is_in}
use revy.Common.Options.{Whenever}
use revy.Enums.{GitHubFindingGroupState, is_active, is_resolved, is_superseded}
use revy.Findings.Rows.{Db, Group, Finding}
use revy.Publishing.Stale.{add}
use revy.Publishing.Choice.{
  group_of, has_outcome, is_judge_candidate, is_inline_with, is_inline_finding, is_ungated,
  fingerprint_with, fingerprints_from, publishable_fingerprints_for_run, is_publishable,
  publishable_with, note_group, groups_from, goes_before, insert_group, sort_publishable_groups,
  publishable_groups_for_review_run,
}

-- The group with an identity key.
abbrev pub has_key : String → Group → Bool
has_key k g = str_eq (uuid_str g.id) k

active_lem :
    (state : GitHubFindingGroupState) → is_active state ≡ true → is_superseded state ≡ false
active_lem GitHubFindingGroupState.active h = refl
active_lem GitHubFindingGroupState.superseded h = absurd (ground arith)
active_lem GitHubFindingGroupState.resolved h = refl

any_of-insert_group :
    (p : Group → Bool) (g : Group) (gs : List Group)
    → any_of p (insert_group g gs) ≡ (p g || any_of p gs)
any_of-insert_group p g [] = refl
any_of-insert_group p g (h ∷ hs) =
    let later = any_of-insert_group p g hs in
    elim (Bool-cases (goes_before g h)) [
      | inl first ↦ rw first refl
      | inr second ↦ rw second (ground arith)
    ]

any_of-sort :
    (p : Group → Bool) (gs : List Group) → any_of p (sort_publishable_groups gs) ≡ any_of p gs
unfolding sort_publishable_groups
any_of-sort p [] = refl
any_of-sort p (g ∷ gs) =
    any_of-insert_group p g (sort_publishable_groups gs) ∙ ap (λ b. p g || b) (any_of-sort p gs)

any_of-append_one :
    {A : Type 0} (p : A → Bool) (x : A) (xs : List A)
    → any_of p (xs ++ x ∷ []) ≡ (p x || any_of p xs)
any_of-append_one p x [] = refl
any_of-append_one p x (y ∷ xs) = let rest = any_of-append_one p x xs in ground arith

is_in-add :
    (k j : String) (ss : List String)
    → is_in k (add j ss) ≡ true
    → (str_eq j k || is_in k ss) ≡ true
is_in-add k j ss h = elim (Bool-cases (is_in j ss)) [
  | inr new ↦
      let new' = new in
      rw⁻¹ (any_of-append_one (λ i. str_eq i k) j ss)
        (subst (λ b. is_in k (if b then ss else ss ++ j ∷ []) ≡ true) new h)
  | inl there ↦
      let h' = subst (λ b. is_in k (if b then ss else ss ++ j ∷ []) ≡ true) there h in ground arith
]

gate_lem :
    (superseded resolved candidate judged : Bool)
    → superseded ≡ false
    → (candidate && not judged && not resolved) ≡ false
    → (if superseded
        then false
        else if resolved
        then true
        else if not candidate
        then true
        else judged)
      ≡ true
gate_lem superseded resolved candidate judged current gated = ground arith

active_of : (g : Group) (f : Finding) → is_inline_with f (some g) ≡ true → is_active g.state ≡ true
active_of g f h = ground arith

module _ (db : Db) (review_run_id pull_request_id : ℕ) where
  -- What gives a fingerprint gives its group.
  aligned :
      (f : Finding) (group : Option Group) (k : String)
      → is_inline_with f group ≡ true
      → fingerprint_with db review_run_id pull_request_id f group ≡ some k
      → (g : Group) × (publishable_with db review_run_id pull_request_id f group ≡ some g)
        × (has_key k g ≡ true)
  aligned f none k inline e = absurd (ground arith)
  aligned f (some g) k inline e = elim (Bool-cases (g.pull_request_id == pull_request_id)) [
    | inr other ↦ absurd (ground arith)
    | inl ours ↦ elim (Bool-cases (is_ungated db review_run_id pull_request_id f g)) [
      | inl ungated ↦ absurd (ground arith)
      | inr gated ↦
          let chosen : is_publishable db review_run_id pull_request_id f g ≡ true =
            gate_lem (is_superseded g.state) (is_resolved g.state)
              (is_judge_candidate f.severity f.category) (has_outcome db review_run_id g)
              (active_lem g.state (active_of g f inline)) gated in
          let keyed : fingerprint_with db review_run_id pull_request_id f (some g)
              ≡ some (uuid_str g.id) =
            rw ours (rw gated refl) in
          (
            g,
            rw ours (rw chosen refl),
            subst (Whenever (λ j. str_eq (uuid_str g.id) j ≡ true)) (sym keyed ∙ e)
                ((eq_iff (uuid_str g.id) (uuid_str g.id)).1 refl),
          )
    ]
  ]

  any_of-note_group_kept :
      (k : String) (g : Group) (gs : List Group)
      → any_of (has_key k) gs ≡ true
      → any_of (has_key k) (note_group db review_run_id pull_request_id g gs) ≡ true
  any_of-note_group_kept k g gs h = elim (Bool-cases (any_of (λ h. h.id == g.id) gs)) [
    | inl there ↦ rw there h
    | inr new ↦ rw new (ground arith)
  ]

  same_key :
      (k : String) (g : Group) (gs : List Group)
      → has_key k g ≡ true
      → any_of (λ h. h.id == g.id) gs ≡ true
      → any_of (has_key k) gs ≡ true
  same_key k g [] keyed there = absurd (ground arith)
  same_key k g (h ∷ gs) keyed there = elim (Bool-cases (h.id == g.id)) [
    | inl same ↦
        let e : h.id ≡ g.id = ground arith in
        let found : has_key k h ≡ true = subst (λ i. str_eq (uuid_str i) k ≡ true) (sym e) keyed in
        ground arith
    | inr other ↦ let rest = same_key k g gs keyed (ground arith) in ground arith
  ]

  any_of-note_group :
      (k : String) (g : Group) (gs : List Group)
      → has_key k g ≡ true
      → any_of (has_key k) (note_group db review_run_id pull_request_id g gs) ≡ true
  any_of-note_group k g gs keyed = elim (Bool-cases (any_of (λ h. h.id == g.id) gs)) [
    | inl there ↦ rw there (same_key k g gs keyed there)
    | inr new ↦ rw new (ground arith)
  ]

  -- A finding of the run with a group.
  abbrev is_bound : Finding → Bool
  is_bound f = f.review_run_id == review_run_id && is_some f.group_id

  inline_bound : (f : Finding) → is_inline_finding db review_run_id f ≡ true → is_bound f ≡ true
  unfolding is_inline_finding
  inline_bound f h = elim (Option-cases f.group_id) [
    | inl unbound ↦ absurd (
        let no_group : group_of db f ≡ none = rw unbound refl in
        let h' =
          subst (λ g. (f.review_run_id == review_run_id && is_inline_with f g) ≡ true) no_group h in
        ground arith)
    | inr (i, bound) ↦ rw bound (ground arith)
  ]

  inline_group :
      (f : Finding)
      → is_inline_finding db review_run_id f ≡ true
      → is_inline_with f (group_of db f) ≡ true
  unfolding is_inline_finding
  inline_group f h = ground arith

  groups-keep :
      (k : String) (f : Finding) (rest : List Group)
      → any_of (has_key k) rest ≡ true
      → any_of
          (has_key k)
          (elim (publishable_with db review_run_id pull_request_id f (group_of db f)) [
            | none ↦ rest
            | some g ↦ note_group db review_run_id pull_request_id g rest
          ])
        ≡ true
  groups-keep k f rest h =
      elim (Option-cases (publishable_with db review_run_id pull_request_id f (group_of db f))) [
        | inl unpublished ↦ rw unpublished h
        | inr (g, published) ↦ rw published (any_of-note_group_kept k g rest h)
      ]

  -- One inline finding, before those that follow.
  inline-aligned :
      (k : String) (f : Finding) (ks : List String) (gs : List Group)
      → is_inline_with f (group_of db f) ≡ true
      → (is_in k ks ≡ true → any_of (has_key k) gs ≡ true)
      → is_in k (elim (fingerprint_with db review_run_id pull_request_id f (group_of db f)) [
        | none ↦ ks
        | some j ↦ add j ks
      ])
        ≡ true
      → any_of
          (has_key k)
          (elim (publishable_with db review_run_id pull_request_id f (group_of db f)) [
            | none ↦ gs
            | some g ↦ note_group db review_run_id pull_request_id g gs
          ])
        ≡ true
  inline-aligned k f ks gs inline later h =
      elim (Option-cases (fingerprint_with db review_run_id pull_request_id f (group_of db f))) [
        | inl gated ↦
            groups-keep k f gs (
              later
                (subst (λ o. is_in k (elim o [ none ↦ ks | some j ↦ add j ks ]) ≡ true) gated h))
        | inr (j, keyed) ↦
            let h' : is_in k (add j ks) ≡ true =
              subst (λ o. is_in k (elim o [ none ↦ ks | some j ↦ add j ks ]) ≡ true) keyed h in
            elim (Bool-cases (str_eq j k)) [
              | inl same ↦
                  let (g, published, key) = aligned f (group_of db f) j inline keyed in
                  let key' = subst (λ i. has_key i g ≡ true) ((eq_iff j k).0 same) key in
                  rw published (any_of-note_group k g gs key')
              | inr other ↦
                  let either = is_in-add k j ks h' in groups-keep k f gs (later (ground arith))
            ]
      ]

  from-aligned :
      (k : String) (fs : List Finding)
      → is_in k (
          fingerprints_from db review_run_id pull_request_id
            (keep (is_inline_finding db review_run_id) fs))
        ≡ true
      → any_of (has_key k) (groups_from db review_run_id pull_request_id (keep is_bound fs)) ≡ true
  from-aligned k [] h = absurd (ground arith)
  from-aligned k (f ∷ fs) h = elim (Bool-cases (is_inline_finding db review_run_id f)) [
    | inr other ↦
        let h' =
          subst
            (λ b.
              is_in k (
                fingerprints_from db review_run_id pull_request_id (
                  if b
                  then f ∷ keep (is_inline_finding db review_run_id) fs
                  else keep (is_inline_finding db review_run_id) fs))
              ≡ true)
            other h in
        let rest = from-aligned k fs h' in
        elim (Bool-cases (is_bound f)) [
          | inl bound ↦ rw bound (
              groups-keep k f (groups_from db review_run_id pull_request_id (keep is_bound fs))
                rest)
          | inr unbound ↦ rw unbound rest
        ]
    | inl inline ↦
        let h' =
          subst
            (λ b.
              is_in k (
                fingerprints_from db review_run_id pull_request_id (
                  if b
                  then f ∷ keep (is_inline_finding db review_run_id) fs
                  else keep (is_inline_finding db review_run_id) fs))
              ≡ true)
            inline h in
        rw (inline_bound f inline) (
          inline-aligned k f
            (fingerprints_from db review_run_id pull_request_id
              (keep (is_inline_finding db review_run_id) fs))
            (groups_from db review_run_id pull_request_id (keep is_bound fs))
            (inline_group f inline) (from-aligned k fs) h')
  ]

-- Each fingerprint that is eligible for an inline comment of a run is the identity key of a group that the run
-- publishes in its summary, whatever the findings, groups and outcomes of the judge are.
pub publishable_fingerprints-publishable_groups :
    (db : Db) (review_run_id pull_request_id : ℕ) (k : String)
    → is_in k (publishable_fingerprints_for_run db review_run_id pull_request_id) ≡ true
    → any_of (has_key k) (publishable_groups_for_review_run db review_run_id pull_request_id) ≡ true
unfolding publishable_fingerprints_for_run publishable_groups_for_review_run
publishable_fingerprints-publishable_groups db review_run_id pull_request_id k h =
    any_of-sort (has_key k) (
      groups_from db review_run_id pull_request_id
        (keep (λ f. f.review_run_id == review_run_id && is_some f.group_id) db.findings))
    ∙ from-aligned db review_run_id pull_request_id k db.findings h
