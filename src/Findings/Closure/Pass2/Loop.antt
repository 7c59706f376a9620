-- ===== src/Findings/Closure/Pass2/Loop.antt =====
-- The loop of Pass 2 as an update of each row by itself.
use revy.Common.{
  ◌≡◌, ◌≢◌, refl, sym, ap, ◌∙◌, Bool, List, [], ◌∷◌, arith, if◌then◌else◌, keep, Has, keep-Has, All,
  All-keep, Has-All, Bool-cases, count_if, length, inl, inr, subst,
}
use revy.Common.Table
use revy.Findings.Rows.{Group}
use revy.Findings.Closure.{Pass2Context, closes, close_group, close_groups}

abbrev pub closed_if : Pass2Context → Group → Group
closed_if c g = if closes c g then close_group c.revision_id g else g

-- A row that the loop does not visit.
close_groups-other :
    (c : Pass2Context) (gs table : List Group) (g : Group)
    → All (λ h. g.id ≢ h.id) gs
    → Has g table
    → Has g (close_groups c gs table).0
unfolding close_groups
close_groups-other c [] table g apart m = m
close_groups-other c (h ∷ gs) table g apart m = elim (Bool-cases (closes c h)) [
  | inl t ↦
      rw t (
        close_groups-other c gs _ g apart.1 (Table.Has-update_ne Group.id h.id _ g table apart.0 m))
  | inr f ↦ rw f (close_groups-other c gs table g apart.1 m)
]

close_groups-head :
    (c : Pass2Context) (gs table : List Group) (g : Group)
    → All (λ h. g.id ≢ h.id) gs
    → Has g table
    → Has (closed_if c g) (close_groups c (g ∷ gs) table).0
unfolding close_groups close_group
close_groups-head c gs table g apart row = elim (Bool-cases (closes c g)) [
  | inl t ↦ rw t (
      close_groups-other c gs _ (close_group c.revision_id g) apart
        (Table.Has-update_self Group.id g.id (close_group c.revision_id) g table refl row))
  | inr f ↦ rw f (close_groups-other c gs table g apart row)
]

-- A row that it visits.
close_groups-visited :
    (c : Pass2Context) (gs table : List Group) (g : Group)
    → Table.IsUnique Group.id gs
    → Has g gs
    → Has g table
    → Has (closed_if c g) (close_groups c gs table).0
unfolding close_groups
close_groups-visited c [] table g unique m row = absurd m
close_groups-visited c (h ∷ gs) table g unique (inl e) row =
    subst (λ x. Has (closed_if c g) (close_groups c (x ∷ gs) table).0) e
      (close_groups-head c gs table g
        (subst (λ x. All (λ y. Group.id x ≢ y.id) gs) (sym e) unique.0) row)
close_groups-visited c (h ∷ gs) table g unique (inr m) row = elim (Bool-cases (closes c h)) [
  | inl t ↦ rw t (
      close_groups-visited c gs _ g unique.1 m
        (Table.Has-update_ne Group.id h.id _ g table (λ e. differ (sym e)) row))
  | inr f ↦ rw f (close_groups-visited c gs table g unique.1 m row)
]
  where
    differ : h.id ≢ g.id
    differ = Has-All (λ w. h.id ≢ w.id) g gs unique.0 m

-- Over the rows that a query keeps, the loop closes those that meet the test and leaves all others.
pub close_groups-row :
    (c : Pass2Context) (selects : Group → Bool) (table : List Group) (g : Group)
    → Table.IsUnique Group.id table
    → Has g table
    → Has (if selects g then closed_if c g else g) (close_groups c (keep selects table) table).0
close_groups-row c selects table g unique row = elim (Bool-cases (selects g)) [
  | inl t ↦ rw t (
      close_groups-visited c (keep selects table) table g
        (Table.keep-IsPairwise (λ x y. x.id ≢ y.id) selects table unique)
        (keep-Has selects g table row t) row)
  | inr f ↦ rw f (
      close_groups-other c (keep selects table) table g
        (All-keep (λ h. g.id ≢ h.id) selects table
          (λ h m kept same.
            cc (f, kept, ap selects (Table.unique_rows Group.id g h table unique row m same))))
        row)
]

-- The number that the loop returns.
pub count-close_groups :
    (c : Pass2Context) (gs table : List Group)
    → (close_groups c gs table).1 ≡ count_if (closes c) gs
unfolding close_groups
count-close_groups c [] table = refl
count-close_groups c (h ∷ gs) table = ground (
  arith,
  count-close_groups c gs
      (if closes c h then Table.update Group.id h.id (close_group c.revision_id) table else table),
)

pub length-close_groups :
    (c : Pass2Context) (gs table : List Group) → length (close_groups c gs table).0 ≡ length table
unfolding close_groups
length-close_groups c [] table = refl
length-close_groups c (h ∷ gs) table = elim (Bool-cases (closes c h)) [
  | inl t ↦ rw t (
      length-close_groups c gs _
      ∙ Table.length-update Group.id h.id (close_group c.revision_id) table)
  | inr f ↦ rw f (length-close_groups c gs table)
]
