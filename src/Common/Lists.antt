-- ===== src/Common/Lists.antt =====
-- Lists measured and searched by native numbers, and the predicates "all" and "some" over them.
use Prim.Native.Nat.{ℕ, zero, suc}
use mathlib.Core.Path.{◌≡◌, refl, sym, subst}
use mathlib.Core.Logic.{◌⊎◌, inl, inr}
use mathlib.Core.Bool.{Bool, true, false, ◌||◌}
use mathlib.Core.Option.{Option, none, some}
use mathlib.Core.List.{List, [], ◌∷◌, ◌++◌}
use native.Mathlib.Omega.{arith}
use revy.Common.Tests.{if◌then◌else◌, is_some, Bool-cases}

module _ {ℓ} {A : Type ℓ} where
  abbrev pub length : List A → ℕ
  length [] = 0
  length (x ∷ xs) = suc (length xs)

  abbrev pub take : ℕ → List A → List A
  take zero xs = []
  take (suc n) [] = []
  take (suc n) (x ∷ xs) = x ∷ take n xs

  -- The rows that a query's `where` clause keeps, in order.
  abbrev pub keep : (A → Bool) → List A → List A
  keep p [] = []
  keep p (x ∷ xs) = let rest = keep p xs in if p x then x ∷ rest else rest

  -- The first row that a query's `where` clause keeps.
  abbrev pub find : (A → Bool) → List A → Option A
  find p [] = none
  find p (x ∷ xs) = let rest = find p xs in if p x then some x else rest

  abbrev pub count_if : (A → Bool) → List A → ℕ
  count_if p [] = 0
  count_if p (x ∷ xs) = let rest = count_if p xs in if p x then suc rest else rest

  abbrev pub any_of : (A → Bool) → List A → Bool
  any_of p [] = false
  any_of p (x ∷ xs) = p x || any_of p xs

abbrev pub All {ℓ κ} : {Row : Type ℓ} (P : Row → Type κ) → List Row → Type κ
All P [] = Unit
All P (row ∷ rows) = P row × All P rows

pub All-append_one {ℓ κ} :
    {A : Type ℓ} (P : A → Type κ) (xs : List A) (x : A) → All P xs → P x → All P (xs ++ x ∷ [])
All-append_one P [] x h p = (p, tt)
All-append_one P (y ∷ xs) x h p = (h.0, All-append_one P xs x h.1 p)

pub All-map {ℓ κ ι} :
    {A : Type ℓ} (P : A → Type κ) (Q : A → Type ι) (xs : List A)
    → ((x : A) → P x → Q x)
    → All P xs
    → All Q xs
All-map P Q [] f h = tt
All-map P Q (x ∷ xs) f h = (f x h.0, All-map P Q xs f h.1)

pub All-map_both {ℓ κ ι μ} :
    {A : Type ℓ} (P : A → Type κ) (Q : A → Type ι) (R : A → Type μ) (xs : List A)
    → ((x : A) → P x → Q x → R x)
    → All P xs
    → All Q xs
    → All R xs
All-map_both P Q R [] f h k = tt
All-map_both P Q R (x ∷ xs) f h k = (f x h.0 k.0, All-map_both P Q R xs f h.1 k.1)

-- A row is in a table. (Rows are records of level 0.)
abbrev pub Has : {A : Type 0} → A → List A → Type 0
Has x [] = ⊥
Has x (y ∷ ys) = (x ≡ y) ⊎ Has x ys

module _ {A : Type 0} where
  pub Has-All : (P : A → Type 0) (x : A) (xs : List A) → All P xs → Has x xs → P x
  Has-All P x [] h m = absurd m
  Has-All P x (y ∷ xs) h (inl e) = subst P (sym e) h.0
  Has-All P x (y ∷ xs) h (inr m) = Has-All P x xs h.1 m

  pub Has-append_left : (x y : A) (xs : List A) → Has x xs → Has x (xs ++ y ∷ [])
  Has-append_left x y [] m = absurd m
  Has-append_left x y (z ∷ xs) (inl e) = inl e
  Has-append_left x y (z ∷ xs) (inr m) = inr (Has-append_left x y xs m)

  pub Has-append_one : (x : A) (xs : List A) → Has x (xs ++ x ∷ [])
  Has-append_one x [] = inl refl
  Has-append_one x (z ∷ xs) = inr (Has-append_one x xs)

  pub Has-append_cases : (x y : A) (xs : List A) → Has x (xs ++ y ∷ []) → Has x xs ⊎ (x ≡ y)
  Has-append_cases x y [] (inl e) = inr e
  Has-append_cases x y [] (inr m) = absurd m
  Has-append_cases x y (z ∷ xs) (inl e) = inl (inl e)
  Has-append_cases x y (z ∷ xs) (inr m) = elim (Has-append_cases x y xs m) [
    | inl h ↦ inl (inr h)
    | inr e ↦ inr e
  ]

  -- What a query returns is a row of the table that meets the query's condition.
  pub find-Has : (p : A → Bool) (xs : List A) {x : A} → find p xs ≡ some x → Has x xs × (p x ≡ true)
  find-Has p [] h = cc
  find-Has p (y ∷ xs) {x} h = ground (arith, find-Has p xs {x = x})

  pub find-append_one :
      (p : A → Bool) (x : A) (xs : List A)
      → find p xs ≡ none
      → p x ≡ true
      → find p (xs ++ x ∷ []) ≡ some x
  find-append_one p x [] h t = ground arith
  find-append_one p x (y ∷ xs) h t = ground (arith, find-append_one p x xs)

  pub find-none : (p : A → Bool) (xs : List A) → find p xs ≡ none → All (λ x. p x ≡ false) xs
  find-none p [] h = tt
  find-none p (y ∷ xs) h = ground (arith, find-none p xs)

  pub Has-keep : (p : A → Bool) (x : A) (xs : List A) → Has x (keep p xs) → Has x xs × (p x ≡ true)
  Has-keep p x [] m = absurd m
  Has-keep p x (y ∷ xs) m = ground (arith, Has-keep p x xs)

  pub keep-Has : (p : A → Bool) (x : A) (xs : List A) → Has x xs → p x ≡ true → Has x (keep p xs)
  keep-Has p x [] m h = absurd m
  keep-Has p x (y ∷ xs) m h = ground (arith, keep-Has p x xs)

  pub any_of-find : (p : A → Bool) (xs : List A) → any_of p xs ≡ is_some (find p xs)
  any_of-find p [] = refl
  any_of-find p (y ∷ xs) = ground (arith, any_of-find p xs)

  pub All-keep :
      (P : A → Type 0) (p : A → Bool) (xs : List A)
      → ((x : A) → Has x xs → p x ≡ true → P x)
      → All P (keep p xs)
  All-keep P p [] h = tt
  All-keep P p (x ∷ xs) h = elim (Bool-cases (p x)) [
    | inl t ↦ rw t (h x (inl refl) t, All-keep P p xs (λ y m. h y (inr m)))
    | inr e ↦ rw e (All-keep P p xs (λ y m. h y (inr m)))
  ]

  pub All-keep_of : (P : A → Type 0) (p : A → Bool) (xs : List A) → All P xs → All P (keep p xs)
  All-keep_of P p [] h = tt
  All-keep_of P p (x ∷ xs) h = elim (Bool-cases (p x)) [
    | inl t ↦ rw t (h.0, All-keep_of P p xs h.1)
    | inr e ↦ rw e (All-keep_of P p xs h.1)
  ]

  -- A query returns a row if some row meets its condition.
  pub find-some_of_Has :
      (p : A → Bool) (x : A) (xs : List A) → Has x xs → p x ≡ true → (y : A) × (find p xs ≡ some y)
  find-some_of_Has p x [] m h = absurd m
  find-some_of_Has p x (y ∷ xs) (inl e) h = (y, ground arith)
  find-some_of_Has p x (y ∷ xs) (inr m) h = elim (Bool-cases (p y)) [
    | inl t ↦ (y, ground arith)
    | inr f ↦ let r = find-some_of_Has p x xs m h in (r.0, rw f r.1)
  ]

  pub All-of_Has : (P : A → Type 0) (xs : List A) → ((x : A) → Has x xs → P x) → All P xs
  All-of_Has P [] h = tt
  All-of_Has P (x ∷ xs) h = (h x (inl refl), All-of_Has P xs (λ y m. h y (inr m)))

pub any_of-append_left :
    {A : Type 0} (p : A → Bool) (x : A) (xs : List A)
    → any_of p xs ≡ true
    → any_of p (xs ++ x ∷ []) ≡ true
any_of-append_left p x [] h = cc
any_of-append_left p x (y ∷ xs) h = ground (arith, any_of-append_left p x xs)

pub any_of-append_last :
    {A : Type 0} (p : A → Bool) (x : A) (xs : List A) → p x ≡ true → any_of p (xs ++ x ∷ []) ≡ true
any_of-append_last p x [] h = ground arith
any_of-append_last p x (y ∷ xs) h = ground (arith, any_of-append_last p x xs)
