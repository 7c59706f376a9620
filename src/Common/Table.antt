-- ===== src/Common/Table.antt =====
-- A database table as a list of rows with a primary key: reads by key, an update of the one row
-- that an ORM object stands for, and an insert at the end.
pub mod Counts
use Prim.Native.Nat.{ℕ, ◌<◌}
use mathlib.Core.Path.{◌≡◌, refl, sym, ◌∙◌, ap, subst}
use mathlib.Core.Logic.{◌≢◌, inl, inr}
use mathlib.Core.Bool.{Bool, not}
use mathlib.Core.Option.{Option, some}
use mathlib.Core.List.{List, [], ◌∷◌, ◌++◌}
use native.Mathlib.Omega.{arith}
use revy.Common.Tests.{◌==◌, if◌then◌else◌, Bool-cases}
use revy.Common.Lists.{length, find, keep, All-keep_of, All, All-map, All-append_one, Has, Has-All}

-- A relation between every row and each later one: a constraint over pairs of rows.
abbrev pub IsPairwise : {A : Type 0} → (A → A → Type 0) → List A → Type 0
IsPairwise R [] = Unit
IsPairwise R (x ∷ xs) = All (R x) xs × IsPairwise R xs

pub append_one-IsPairwise :
    {A : Type 0} (R : A → A → Type 0) (x : A) (xs : List A)
    → IsPairwise R xs
    → All (λ y. R y x) xs
    → IsPairwise R (xs ++ x ∷ [])
append_one-IsPairwise R x [] u h = (tt, tt)
append_one-IsPairwise R x (y ∷ xs) u h =
    (All-append_one (R y) xs x u.0 h.0, append_one-IsPairwise R x xs u.1 h.1)

pub keep-IsPairwise :
    {A : Type 0} (R : A → A → Type 0) (p : A → Bool) (xs : List A)
    → IsPairwise R xs
    → IsPairwise R (keep p xs)
keep-IsPairwise R p [] u = tt
keep-IsPairwise R p (x ∷ xs) u = elim (Bool-cases (p x)) [
  | inl t ↦ rw t (All-keep_of (R x) p xs u.0, keep-IsPairwise R p xs u.1)
  | inr e ↦ rw e (keep-IsPairwise R p xs u.1)
]

pub map-IsPairwise :
    {A : Type 0} (R S : A → A → Type 0) (xs : List A)
    → ((x y : A) → R x y → S x y)
    → IsPairwise R xs
    → IsPairwise S xs
map-IsPairwise R S [] f u = tt
map-IsPairwise R S (x ∷ xs) f u =
    (All-map (R x) (S x) xs (λ y. f x y) u.0, map-IsPairwise R S xs f u.1)

-- Two rows between which the relation fails are one row.
pub pairwise_rows :
    {A : Type 0} (R : A → A → Type 0) (x y : A) (xs : List A)
    → IsPairwise R xs
    → Has x xs
    → Has y xs
    → ¬ R x y
    → ¬ R y x
    → x ≡ y
pairwise_rows R x y [] u m n p q = absurd m
pairwise_rows R x y (z ∷ xs) u (inl m) (inl n) p q = m ∙ sym n
pairwise_rows R x y (z ∷ xs) u (inl m) (inr n) p q =
    absurd (p (subst (λ w. R w y) (sym m) (Has-All (R z) y xs u.0 n)))
pairwise_rows R x y (z ∷ xs) u (inr m) (inl n) p q =
    absurd (q (subst (λ w. R w x) (sym n) (Has-All (R z) x xs u.0 m)))
pairwise_rows R x y (z ∷ xs) u (inr m) (inr n) p q = pairwise_rows R x y xs u.1 m n p q

module _ {A : Type 0} (key : A → ℕ) where
  -- `session.get(Row, id)`
  abbrev pub get : ℕ → List A → Option A
  get k xs = find (λ x. key x == k) xs

  -- `setattr` on the mapped object with primary key `k`.
  unfoldable pub update : ℕ → (A → A) → List A → List A
  update k f [] = []
  update k f (x ∷ xs) = (if key x == k then f x else x) ∷ update k f xs

  -- `session.delete(row)` for the row with primary key `k`.
  abbrev pub delete : ℕ → List A → List A
  delete k xs = keep (λ x. not (key x == k)) xs

  -- The primary key constraint.
  abbrev pub IsUnique : List A → Type 0
  IsUnique = IsPairwise (λ x y. key x ≢ key y)

  -- Every key is below the next one that the database hands out.
  abbrev pub Below : ℕ → List A → Type 0
  Below n xs = All (λ x. key x < n) xs

  pub length-update : (k : ℕ) (f : A → A) (xs : List A) → length (update k f xs) ≡ length xs
  unfolding update
  length-update k f [] = refl
  length-update k f (x ∷ xs) = ground (arith, length-update k f xs)

  pub Has-update_ne :
      (k : ℕ) (f : A → A) (x : A) (xs : List A) → key x ≢ k → Has x xs → Has x (update k f xs)
  unfolding update
  Has-update_ne k f x [] h m = absurd m
  Has-update_ne k f x (y ∷ xs) h m = ground (arith, Has-update_ne k f x xs, ap key)

  pub Has-update_self :
      (k : ℕ) (f : A → A) (x : A) (xs : List A) → key x ≡ k → Has x xs → Has (f x) (update k f xs)
  unfolding update
  Has-update_self k f x [] h m = absurd m
  Has-update_self k f x (y ∷ xs) h (inl e) = ground arith
  Has-update_self k f x (y ∷ xs) h (inr m) = inr (Has-update_self k f x xs h m)

  pub unique_rows :
      (x y : A) (xs : List A) → IsUnique xs → Has x xs → Has y xs → key x ≡ key y → x ≡ y
  unique_rows x y xs u m n e =
      pairwise_rows (λ v w. key v ≢ key w) x y xs u m n (λ h. h e) (λ h. h (sym e))

  -- A predicate that the update keeps holds of every row after it.
  pub All-update :
      (P : A → Type 0) (k : ℕ) (f : A → A) (xs : List A)
      → ((x : A) → Has x xs → key x ≡ k → P x → P (f x))
      → All P xs
      → All P (update k f xs)
  unfolding update
  All-update P k f [] keeps h = tt
  All-update P k f (x ∷ xs) keeps h =
      ground (arith, keeps x (inl refl), All-update P k f xs (λ y m. keeps y (inr m)))

  pub All-update_to :
      (P Q : A → Type 0) (k : ℕ) (f : A → A) (xs : List A)
      → ((x : A) → key x ≡ k → Q (f x))
      → ((x : A) → key x ≢ k → P x → Q x)
      → All P xs
      → All Q (update k f xs)
  unfolding update
  All-update_to P Q k f [] here there h = tt
  All-update_to P Q k f (x ∷ xs) here there h = (
    elim (Bool-cases (key x == k)) [
      | inl t ↦ rw t (here x (ground arith))
      | inr e ↦ rw e (there x (ground arith) h.0)
    ],
    All-update_to P Q k f xs here there h.1,
  )

  -- An update that neither side of the relation sees keeps the constraint.
  pub update-IsPairwise :
      (R : A → A → Type 0) (k : ℕ) (f : A → A) (xs : List A)
      → ((x y : A) → R x y → R (f x) y)
      → ((x y : A) → R x y → R x (f y))
      → IsPairwise R xs
      → IsPairwise R (update k f xs)
  unfolding update
  update-IsPairwise R k f [] left right u = tt
  update-IsPairwise R k f (x ∷ xs) left right u = (
    All-update (R (if key x == k then f x else x)) k f xs
        (λ z m e h. right (if key x == k then f x else x) z h)
        (elim (Bool-cases (key x == k)) [
          | inl t ↦ rw t (All-map (R x) (R (f x)) xs (λ y h. left x y h) u.0)
          | inr e ↦ rw e u.0
        ]),
    update-IsPairwise R k f xs left right u.1,
  )

  -- A read by the key that was updated.
  pub get-update_self :
      (k : ℕ) (f : A → A) (x : A) (xs : List A)
      → ((y : A) → key (f y) ≡ key y)
      → get k xs ≡ some x
      → get k (update k f xs) ≡ some (f x)
  unfolding update
  get-update_self k f x [] keeps h = cc
  get-update_self k f x (y ∷ xs) keeps h = ground (arith, keeps y, get-update_self k f x xs keeps)

  -- A search by a condition that the update does not see finds the updated row.
  pub find-update :
      (p : A → Bool) (f : A → A) (x : A) (xs : List A)
      → ((y : A) → p (f y) ≡ p y)
      → find p xs ≡ some x
      → find p (update (key x) f xs) ≡ some (f x)
  unfolding update
  find-update p f x [] same h = cc
  find-update p f x (y ∷ xs) same h = ground (arith, same y, find-update p f x xs same)

  pub get-update_ne :
      (k j : ℕ) (f : A → A) (xs : List A)
      → ((y : A) → key (f y) ≡ key y)
      → j ≢ k
      → get j (update k f xs) ≡ get j xs
  unfolding update
  get-update_ne k j f [] keeps ne = refl
  get-update_ne k j f (y ∷ xs) keeps ne = ground (arith, keeps y, get-update_ne k j f xs keeps ne)
