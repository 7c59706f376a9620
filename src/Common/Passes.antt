-- ===== src/Common/Passes.antt =====
-- One pass over a table against updates by key, and the keys of the rows that a query returns.
use mathlib.Core.Path.{◌≡◌, refl, sym, ◌∙◌, ap}
use mathlib.Core.Logic.{inl, inr}
use mathlib.Core.Bool.{Bool, true}
use mathlib.Core.List.{List, [], ◌∷◌, map}
use Prim.Native.Nat.{ℕ}
use native.Mathlib.Omega.{arith}
use revy.Common.Tests.{◌==◌, if◌then◌else◌, Bool-cases}
use revy.Common.Lists.{keep, any_of, Has, Has-keep, keep-Has}
use revy.Common.Table

-- `id in ids`
abbrev pub is_among : List ℕ → ℕ → Bool
is_among ids i = any_of (λ j. j == i) ids

module _ {A : Type 0} where
  pub map_rows :
      (f g : A → A) (xs : List A) → ((x : A) → Has x xs → f x ≡ g x) → map f xs ≡ map g xs
  map_rows f g [] h = refl
  map_rows f g (x ∷ xs) h =
      rw (h x (inl refl)) (ap (λ ys. g x ∷ ys) (map_rows f g xs (λ y m. h y (inr m))))

  pub map-map : (f g : A → A) (xs : List A) → map f (map g xs) ≡ map (λ x. f (g x)) xs
  map-map f g [] = refl
  map-map f g (x ∷ xs) = ap (λ ys. f (g x) ∷ ys) (map-map f g xs)

  pub Has-map : (f : A → A) (x : A) (xs : List A) → Has x xs → Has (f x) (map f xs)
  Has-map f x [] m = absurd m
  Has-map f x (y ∷ xs) (inl e) = inl (ap f e)
  Has-map f x (y ∷ xs) (inr m) = inr (Has-map f x xs m)

  module _ (key : A → ℕ) where
    pub update-map :
        (k : ℕ) (f : A → A) (xs : List A)
        → Table.update key k f xs ≡ map (λ x. if key x == k then f x else x) xs
    unfolding Table.update
    update-map k f [] = refl
    update-map k f (x ∷ xs) = ap (λ ys. (if key x == k then f x else x) ∷ ys) (update-map k f xs)

    is_among-Has : (x : A) (xs : List A) → Has x xs → is_among (map key xs) (key x) ≡ true
    is_among-Has x [] m = absurd m
    is_among-Has x (y ∷ xs) (inl e) = ground (arith, ap key e)
    is_among-Has x (y ∷ xs) (inr m) = ground (arith, is_among-Has x xs m)

    is_among-row :
        (k : ℕ) (xs : List A) → is_among (map key xs) k ≡ true → (y : A) × Has y xs × (key y ≡ k)
    is_among-row k [] h = absurd (ground arith)
    is_among-row k (y ∷ xs) h = elim (Bool-cases (key y == k)) [
      | inl here ↦ (y, inl refl, ground arith)
      | inr there ↦ let (z, m, e) = is_among-row k xs (ground arith) in (z, inr m, e)
    ]

    -- A row's key is among those of a query's rows if the row is.
    pub is_among-keep :
        (p : A → Bool) (x : A) (xs : List A)
        → Table.IsUnique key xs
        → Has x xs
        → is_among (map key (keep p xs)) (key x) ≡ p x
    is_among-keep p x xs u m = elim (Bool-cases (p x)) [
      | inl kept ↦ is_among-Has x (keep p xs) (keep-Has p x xs m kept) ∙ sym kept
      | inr dropped ↦ elim (Bool-cases (is_among (map key (keep p xs)) (key x))) [
        | inl named ↦
            let (y, n, e) = is_among-row (key x) (keep p xs) named in
            let (row, kept) = Has-keep p y xs n in
            absurd (cc (kept, dropped, Table.unique_rows key y x xs u row m e))
        | inr unnamed ↦ unnamed ∙ sym dropped
      ]
    ]
