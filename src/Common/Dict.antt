-- ===== src/Common/Dict.antt =====
-- Python's `dict` with text keys, as its items in their order of insertion.
use mathlib.Core.Path.{◌≡◌, refl}
use mathlib.Core.Logic.{inl, inr}
use mathlib.Core.Bool.{Bool, true, not}
use mathlib.Core.Option.{Option, none, some}
use mathlib.Core.List.{List, [], ◌∷◌}
use Prim.Native.String.{String}
use native.Mathlib.Omega.{arith}
use text.Mathlib.Text.{◌==◌ as str_eq}
use text.Mathlib.TextEquality.{eq_iff}
use revy.Common.Tests.{if◌then◌else◌, is_some, Bool-cases}
use revy.Common.Lists.{keep, any_of, All}

abbrev pub Dict {ℓ} : Type ℓ → Type ℓ
Dict V = List (String × V)

-- `x in xs`
abbrev pub is_in : String → List String → Bool
is_in k ks = any_of (λ j. str_eq j k) ks

module _ {ℓ} {V : Type ℓ} where
  -- `d.get(k)`
  abbrev pub lookup : String → Dict V → Option V
  lookup k [] = none
  lookup k ((j, v) ∷ d) = let rest = lookup k d in if str_eq j k then some v else rest

  -- `k in d`
  abbrev pub has : String → Dict V → Bool
  has k d = is_some (lookup k d)

  -- `d[k] = v`: a key that is there keeps its place.
  abbrev pub put : String → V → Dict V → Dict V
  put k v [] = (k, v) ∷ []
  put k v ((j, w) ∷ d) = let rest = put k v d in if str_eq j k then (j, v) ∷ d else (j, w) ∷ rest

  -- `d.setdefault(k, v)`
  abbrev pub set_default : String → V → Dict V → Dict V
  set_default k v d = if has k d then d else put k v d

  -- `d.pop(k, None)`
  abbrev pub pop : String → Dict V → Dict V
  pop k d = keep (λ item. not (str_eq item.0 k)) d

  -- `d.update(items)`
  abbrev pub merge : Dict V → Dict V → Dict V
  merge d [] = d
  merge d ((k, v) ∷ items) = merge (put k v d) items

  abbrev pub keys : Dict V → List String
  keys [] = []
  keys ((k, v) ∷ d) = k ∷ keys d

  -- A read after a write.
  pub lookup-put :
      (j k : String) (v : V) (d : Dict V)
      → lookup j (put k v d) ≡ (if str_eq k j then some v else lookup j d)
  lookup-put j k v [] = refl
  lookup-put j k v ((i, w) ∷ d) = elim (Bool-cases (str_eq i k)) [
    | inl same ↦ ground (arith, eq_iff i k, eq_iff i j, eq_iff k j)
    | inr other ↦ ground (arith, lookup-put j k v d, eq_iff i k, eq_iff i j, eq_iff k j)
  ]

  -- A read after a removal.
  pub lookup-pop :
      (j k : String) (d : Dict V) → lookup j (pop k d) ≡ (if str_eq k j then none else lookup j d)
  lookup-pop j k [] = ground arith
  lookup-pop j k ((i, w) ∷ d) = elim (Bool-cases (str_eq i k)) [
    | inl same ↦ ground (arith, lookup-pop j k d, eq_iff i k, eq_iff i j, eq_iff k j)
    | inr other ↦ ground (arith, lookup-pop j k d, eq_iff i k, eq_iff i j, eq_iff k j)
  ]

  pub has-put : (j k : String) (v : V) (d : Dict V) → has j d ≡ true → has j (put k v d) ≡ true
  has-put j k v d h =
      rw (lookup-put j k v d)
        (elim (Bool-cases (str_eq k j)) [ inl same ↦ rw same refl | inr other ↦ rw other h ])

  pub has-put_self : (k : String) (v : V) (d : Dict V) → has k (put k v d) ≡ true
  has-put_self k v d = rw (lookup-put k k v d, (eq_iff k k).1 refl) refl

  pub All-put :
      (P : String → Type 0) (k : String) (v : V) (d : Dict V)
      → All (λ x. P x.0) d
      → P k
      → All (λ x. P x.0) (put k v d)
  All-put P k v [] h p = (p, tt)
  All-put P k v ((j, w) ∷ d) h p = elim (Bool-cases (str_eq j k)) [
    | inl same ↦ rw same h
    | inr other ↦ rw other (h.0, All-put P k v d h.1 p)
  ]
