-- ===== src/Common/Table/Counts.antt =====
-- How many rows meet a condition after an update, a deletion or an insert.
use Prim.Native.Nat.{ℕ, suc, ◌≤◌}
use mathlib.Core.Path.{◌≡◌, refl}
use mathlib.Core.Logic.{◌≢◌, inl, inr}
use mathlib.Core.Bool.{Bool, true, false, not}
use mathlib.Core.List.{List, [], ◌∷◌, ◌++◌}
use native.Mathlib.Omega.{arith}
use revy.Common.Tests.{◌==◌, Bool-cases}
use revy.Common.Lists.{keep, count_if, All, All-map, All-of_Has, Has}
use revy.Common.Table.{update, delete, IsPairwise, IsUnique, map-IsPairwise, unique_rows}

module _ {A : Type 0} (p : A → Bool) where
  pub count_if-append : (x : A) (xs : List A) → count_if p xs ≤ count_if p (xs ++ x ∷ [])
  count_if-append x [] = ground arith
  count_if-append x (y ∷ xs) = ground (arith, count_if-append x xs)

  -- Rows that are counted and kept.
  pub count_if-keep :
      (q : A → Bool) (xs : List A)
      → All (λ x. p x ≡ true → q x ≡ true) xs
      → count_if p (keep q xs) ≡ count_if p xs
  count_if-keep q [] h = refl
  count_if-keep q (x ∷ xs) h = ground (arith, h.0, count_if-keep q xs h.1)

  -- Of the rows that are counted, at most one is dropped.
  pub count_if-keep_one :
      (q : A → Bool) (xs : List A)
      → IsPairwise (λ x y. q x ≡ false → p x ≡ true → p y ≡ true → q y ≡ true) xs
      → count_if p xs ≤ suc (count_if p (keep q xs))
  count_if-keep_one q [] h = ground arith
  count_if-keep_one q (x ∷ xs) h = elim (Bool-cases (q x)) [
    | inl kept ↦ ground (arith, count_if-keep_one q xs h.1)
    | inr dropped ↦ elim (Bool-cases (p x)) [
      | inl counted ↦ ground (
        arith,
        count_if-keep q xs (
            All-map (λ y. q x ≡ false → p x ≡ true → p y ≡ true → q y ≡ true)
              (λ y. p y ≡ true → q y ≡ true) xs (λ y f. f dropped counted) h.0),
      )
      | inr other ↦ ground (arith, count_if-keep_one q xs h.1)
    ]
  ]

module _ {A : Type 0} (p : A → Bool) (key : A → ℕ) (k : ℕ) (f : A → A) where
  -- An update that keeps the counted rows counted.
  pub count_if-update :
      (xs : List A)
      → All (λ x. key x ≡ k → p x ≡ true → p (f x) ≡ true) xs
      → count_if p xs ≤ count_if p (update key k f xs)
  unfolding update
  count_if-update [] h = ground arith
  count_if-update (x ∷ xs) h = ground (arith, h.0, count_if-update xs h.1)

  -- An update of one row takes one at most from the count.
  pub count_if-update_one :
      (xs : List A) → IsUnique key xs → count_if p xs ≤ suc (count_if p (update key k f xs))
  unfolding update
  count_if-update_one [] h = ground arith
  count_if-update_one (x ∷ xs) h = elim (Bool-cases (key x == k)) [
    | inl here ↦
        let rest = count_if-update xs (
          All-map (λ y. key x ≢ key y) (λ y. key y ≡ k → p y ≡ true → p (f y) ≡ true) xs
            (λ y apart same counted. absurd (ground (arith, apart))) h.0) in
        ground arith
    | inr there ↦ ground (arith, count_if-update_one xs h.1)
  ]

module _ {A : Type 0} (p : A → Bool) (key : A → ℕ) where
  -- A count after the deletion of a row that is not counted, and of any row.
  pub count_if-delete :
      (x : A) (xs : List A)
      → IsUnique key xs
      → Has x xs
      → p x ≡ false
      → count_if p (delete key (key x) xs) ≡ count_if p xs
  count_if-delete x xs u m h =
      count_if-keep p (λ y. not (key y == key x)) xs
        (All-of_Has _ xs (λ y n counted. elim (Bool-cases (key y == key x)) [
          | inl same ↦ absurd (cc (counted, h, unique_rows key y x xs u n m (ground arith)))
          | inr other ↦ ground arith
        ]))

  pub count_if-delete_one :
      (k : ℕ) (xs : List A) → IsUnique key xs → count_if p xs ≤ suc (count_if p (delete key k xs))
  count_if-delete_one k xs u =
      count_if-keep_one p (λ y. not (key y == k)) xs
        (map-IsPairwise (λ x y. key x ≢ key y) _ xs
          (λ x y apart dropped counted other. ground (arith, apart)) u)
