-- ===== src/Publishing/Stale/Sets.antt =====
-- Sets of texts as lists of their members.
use revy.Common.{
  ◌≡◌, refl, String, true, false, List, [], ◌∷◌, ◌++◌, arith, str_eq, eq_iff, any_of-append_last,
  All, All-map, All-append_one, Bool-cases, inl, inr,
}
use revy.Common.Dict.{is_in}
use revy.Publishing.Stale.{add}

pub is_in-add_self : (k : String) (ss : List String) → is_in k (add k ss) ≡ true
is_in-add_self k ss = elim (Bool-cases (is_in k ss)) [
  | inl there ↦ rw there there
  | inr new ↦ rw new (any_of-append_last (λ j. str_eq j k) k ss ((eq_iff k k).1 refl))
]

pub is_in-append :
    (j k : String) (ss : List String) → str_eq k j ≡ false → is_in j (ss ++ k ∷ []) ≡ is_in j ss
is_in-append j k [] other = rw other refl
is_in-append j k (s ∷ ss) other = let rest = is_in-append j k ss other in ground arith

pub is_in-add :
    (j k : String) (ss : List String) → str_eq k j ≡ false → is_in j (add k ss) ≡ is_in j ss
is_in-add j k ss other = elim (Bool-cases (is_in k ss)) [
  | inl there ↦ rw there refl
  | inr new ↦ rw new (is_in-append j k ss other)
]

pub All-add :
    (P : String → Type 0) (k : String) (ss : List String) → All P ss → P k → All P (add k ss)
All-add P k ss h p = elim (Bool-cases (is_in k ss)) [
  | inl there ↦ rw there h
  | inr new ↦ rw new (All-append_one P ss k h p)
]

pub is_in_self : (ks : List String) → All (λ k. is_in k ks ≡ true) ks
is_in_self [] = tt
is_in_self (k ∷ ks) =
    let self = (eq_iff k k).1 refl in
    (
      ground arith,
      All-map (λ j. is_in j ks ≡ true) (λ j. is_in j (k ∷ ks) ≡ true) ks (λ j there. ground arith)
          (is_in_self ks),
    )
