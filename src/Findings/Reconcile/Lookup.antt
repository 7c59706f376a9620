-- ===== src/Findings/Reconcile/Lookup.antt =====
-- What the lookups return is a row of the table, of the pull request that they search.
use revy.Common.{
  ℕ, String, ◌≡◌, refl, true, Option, none, some, List, [], ◌∷◌, arith, Has, find-Has, Has-keep,
  keep, ◌⊎◌, inl, inr,
}
use revy.Enums.{FindingCategory}
use revy.Findings.Rows.{Group, Finding, ReviewRun}
use revy.Findings.Reconcile.{
  BoundVia, load_group_by_fingerprint, continuation_candidate, the_only, is_nearby, lookup_group,
  finding_fingerprint, legacy_fingerprint,
}

-- A row of the table that belongs to the pull request.
abbrev pub IsRowOf : ℕ → List Group → Group → Type 0
IsRowOf pull_request_id groups g = Has g groups × (g.pull_request_id ≡ pull_request_id)

load_group_by_fingerprint-IsRowOf :
    (groups : List Group) (pull_request_id : ℕ) (fingerprint : String) (g : Group)
    → load_group_by_fingerprint groups pull_request_id fingerprint ≡ some g
    → IsRowOf pull_request_id groups g
unfolding load_group_by_fingerprint
load_group_by_fingerprint-IsRowOf groups pull_request_id fingerprint g h =
    let (row, met) = find-Has _ groups h in (row, ground arith)

the_only-Has : (gs : List Group) (g : Group) → the_only gs ≡ some g → Has g gs
the_only-Has [] g h = cc
the_only-Has (x ∷ []) g h = ground arith
the_only-Has (x ∷ y ∷ gs) g h = cc

-- A continuation is active and was not bound before in the run.
pub continuation_candidate-row :
    (groups : List Group) (pull_request_id : ℕ) (path : Option String) (category : FindingCategory)
    (bound : List ℕ) (g : Group)
    → continuation_candidate groups pull_request_id path category bound ≡ some g
    → (p : String) × (path ≡ some p)
      × Has g groups
      × (is_nearby pull_request_id p category bound g ≡ true)
unfolding continuation_candidate
continuation_candidate-row groups pull_request_id none category bound g h = cc
continuation_candidate-row groups pull_request_id (some p) category bound g h =
    let kept =
      the_only-Has (keep (is_nearby pull_request_id p category bound) groups) g (ground arith) in
    let (row, near) = Has-keep _ g groups kept in (p, refl, row, near)

module _ (sha256 : String → String) (run : ReviewRun) (pull_request_id : ℕ) (f : Finding) where
  lookup_group_source :
      (bound : List ℕ) (groups : List Group) (via : BoundVia) (g : Group)
      → lookup_group sha256 run pull_request_id f bound groups ≡ some (via, g)
      → (load_group_by_fingerprint groups pull_request_id
            (finding_fingerprint sha256 run pull_request_id f)
          ≡ some g)
        ⊎ (load_group_by_fingerprint groups pull_request_id
              (legacy_fingerprint sha256 run pull_request_id f)
            ≡ some g)
        ⊎ (continuation_candidate groups pull_request_id f.file_path f.category bound ≡ some g)
  unfolding lookup_group
  lookup_group_source bound groups via g h = ground arith

  pub lookup_group-IsRowOf :
      (bound : List ℕ) (groups : List Group) (via : BoundVia) (g : Group)
      → lookup_group sha256 run pull_request_id f bound groups ≡ some (via, g)
      → IsRowOf pull_request_id groups g
  lookup_group-IsRowOf bound groups via g h = elim (lookup_group_source bound groups via g h) [
    | inl e ↦ load_group_by_fingerprint-IsRowOf groups pull_request_id _ g e
    | inr (inl e) ↦ load_group_by_fingerprint-IsRowOf groups pull_request_id _ g e
    | inr (inr e) ↦
        let (p, path, row, near) =
          continuation_candidate-row groups pull_request_id f.file_path f.category bound g e in
        (row, ground arith)
  ]
