-- ===== src/Findings/Reconcile/Bound.antt =====
-- What one `_bind_group_for_finding` promises: the group that it returns is current, and the groups
-- bound before it in the run stay current.
use revy.Common.{
  ℕ, String, ◌≡◌, refl, ◌∙◌, true, List, arith, ◌==◌, ==_iff, Has, Has-append_left, Has-append_one,
  Bool-cases, inl, inr, ◌⊎◌,
}
use revy.Common.Table
use revy.Enums.{GitHubFindingGroupState}
use revy.Findings.Rows.{Group, Finding, ReviewRun, Db}
use revy.Findings.Reconcile.Cases.{bind_cases}
use revy.Findings.Reconcile.Lookup.{lookup_group-IsRowOf}
use revy.Findings.Reconcile.Invariant.{IsWf, id-rebind, pull_request_id-rebind}
use revy.Findings.Reconcile.{
  BoundVia, is_skipped, rebind, add_group, bind_found, claim_slot_key, bind_group_for_finding,
}

-- Left alone for good, or active and last seen at the revision.
abbrev pub IsCurrent : ℕ → Group → Type 0
IsCurrent revision_id g =
    (is_skipped g ≡ true)
    ⊎ ((g.state ≡ GitHubFindingGroupState.active) × (g.last_seen_revision_id ≡ revision_id))

-- `group_id` is the key of a current group of the pull request.
abbrev pub IsLinked : ℕ → ℕ → List Group → ℕ → Type 0
IsLinked pull_request_id revision_id groups group_id =
    (g : Group) × Has g groups
    × (g.id ≡ group_id)
    × (g.pull_request_id ≡ pull_request_id)
    × IsCurrent revision_id g

rebind-IsCurrent :
    (via : BoundVia) (slot : String) (revision_id : ℕ) (f : Finding) (g : Group)
    → IsCurrent revision_id (rebind via slot revision_id f g)
unfolding rebind
rebind-IsCurrent via slot revision_id f g = inr (ground arith, ground arith)

bind_found-links :
    (via : BoundVia) (slot : String) (pull_request_id revision_id : ℕ) (f : Finding) (g : Group)
    (db : Db)
    → Has g db.groups
    → g.pull_request_id ≡ pull_request_id
    → let (db', g') = bind_found via slot revision_id f g db in
      IsLinked pull_request_id revision_id db'.groups g'.id
unfolding bind_found
bind_found-links via slot pull_request_id revision_id f g db row mine =
    elim (Bool-cases (is_skipped g)) [
      | inl skip ↦ rw skip (g, row, refl, mine, inl skip)
      | inr go ↦ rw go (
        rebind via slot revision_id f g,
        Table.Has-update_self Group.id g.id _ g db.groups refl row,
        refl,
        pull_request_id-rebind via slot revision_id f g ∙ mine,
        rebind-IsCurrent via slot revision_id f g,
      )
    ]

bind_found-keeps_links :
    (via : BoundVia) (slot : String) (pull_request_id revision_id : ℕ) (f : Finding) (found : Group)
    (db : Db) (i : ℕ)
    → Table.IsUnique Group.id db.groups
    → Has found db.groups
    → IsLinked pull_request_id revision_id db.groups i
    → IsLinked pull_request_id revision_id (bind_found via slot revision_id f found db).0.groups i
unfolding bind_found
bind_found-keeps_links via slot pull_request_id revision_id f found db i unique row
      (g, m, key, mine, now) =
    elim (Bool-cases (is_skipped found)) [
      | inl skip ↦ rw skip (g, m, key, mine, now)
      | inr go ↦ rw go (elim (Bool-cases (g.id == found.id)) [
        | inl same ↦ (
          rebind via slot revision_id f g,
          Table.Has-update_self Group.id found.id _ g db.groups ((==_iff _ _).0 same) m,
          id-rebind via slot revision_id f g ∙ key,
          pull_request_id-rebind via slot revision_id f g ∙ mine,
          rebind-IsCurrent via slot revision_id f g,
        )
        | inr other ↦ (
          g,
          Table.Has-update_ne Group.id found.id _ g db.groups (ground arith) m,
          key,
          mine,
          now,
        )
      ])
    ]

module _ (sha256 : String → String) (run : ReviewRun) (pull_request_id revision_id : ℕ) where
  pub bind_group_for_finding-links :
      (f : Finding) (bound : List ℕ) (db : Db)
      → let (db', g) = bind_group_for_finding sha256 run pull_request_id revision_id f bound db in
        IsLinked pull_request_id revision_id db'.groups g.id
  bind_group_for_finding-links f bound db =
      elim (bind_cases sha256 run pull_request_id revision_id f bound db) [
        | inl (missing, e) ↦
            rw e (unfold add_group in (_, Has-append_one _ db.groups, refl, refl, inr (refl, refl)))
        | inr (via, g, e₁, e₂) ↦
            let row = lookup_group-IsRowOf sha256 run pull_request_id f bound db.groups via g e₁ in
            rw e₂ (
              bind_found-links via (claim_slot_key sha256 f.title) pull_request_id revision_id f g
                db row.0 row.1)
      ]

  pub bind_group_for_finding-keeps_links :
      (f : Finding) (bound : List ℕ) (db : Db) (i : ℕ)
      → IsWf db
      → IsLinked pull_request_id revision_id db.groups i
      → IsLinked pull_request_id revision_id
          (bind_group_for_finding sha256 run pull_request_id revision_id f bound db).0.groups
          i
  bind_group_for_finding-keeps_links f bound db i wf link =
      elim (bind_cases sha256 run pull_request_id revision_id f bound db) [
        | inl (missing, e) ↦ rw e (
            unfold add_group in
            (link.0, Has-append_left link.0 _ db.groups link.1, link.2, link.3, link.4))
        | inr (via, g, e₁, e₂) ↦
            let row = lookup_group-IsRowOf sha256 run pull_request_id f bound db.groups via g e₁ in
            rw e₂ (
              bind_found-keeps_links via (claim_slot_key sha256 f.title) pull_request_id revision_id
                f g db i wf.ids row.0 link)
      ]

  pub findings-bind_group_for_finding :
      (f : Finding) (bound : List ℕ) (db : Db)
      → (bind_group_for_finding sha256 run pull_request_id revision_id f bound db).0.findings
        ≡ db.findings
  findings-bind_group_for_finding f bound db =
      elim (bind_cases sha256 run pull_request_id revision_id f bound db) [
        | inl (missing, e) ↦ rw e (unfold add_group in refl)
        | inr (via, g, e₁, e₂) ↦ rw e₂ (unfold bind_found in ground arith)
      ]
