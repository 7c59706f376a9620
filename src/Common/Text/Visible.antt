-- ===== src/Common/Text/Visible.antt =====
-- The characters of a text that are not white space: what stripping, joining by line feeds and
-- splitting into lines leave as they are.
use Prim.Native.Char.{Char, code}
use Prim.Native.String.{String, ◌++◌}
use mathlib.Core.Path.{◌≡◌, refl, sym, ◌∙◌, ap}
use mathlib.Core.Logic.{inl, inr}
use mathlib.Core.Bool.{Bool, true, false, ◌&&◌}
use mathlib.Core.List.{List, [], ◌∷◌}
use native.Mathlib.Omega.{arith}
use text.Mathlib.Text.{◌==◌ as str_eq}
use text.Mathlib.TextEquality.{eq_iff}
use text.Mathlib.TextLemmas.{nil-append, cons-append, append-nil, append_assoc}
use revy.Common.Tests.{◌==◌, if◌then◌else◌, Bool-cases}
use revy.Common.Text.{is_space, is_line_end, lstrip, rstrip, strip, join, split_from, splitlines}

unfoldable pub visible : String → String
visible String.[] = ""
visible (String.◌∷◌ c s) = let rest = visible s in if is_space c then rest else String.◌∷◌ c rest

unfoldable pub visible_all : List String → String
visible_all [] = ""
visible_all (s ∷ ss) = visible s ++ visible_all ss

visible-append : (s t : String) → visible (s ++ t) ≡ visible s ++ visible t
unfolding visible
visible-append String.[] t = ap visible (nil-append t) ∙ sym (nil-append (visible t))
visible-append (String.◌∷◌ c s) t =
    ap visible (cons-append c s t) ∙ elim (Bool-cases (is_space c)) [
      | inl space ↦ rw space (visible-append s t)
      | inr mark ↦
          rw mark
            (ap (String.◌∷◌ c) (visible-append s t) ∙ sym (cons-append c (visible s) (visible t)))
    ]

visible-lstrip : (s : String) → visible (lstrip s) ≡ visible s
unfolding visible lstrip
visible-lstrip String.[] = refl
visible-lstrip (String.◌∷◌ c s) = elim (Bool-cases (is_space c)) [
  | inl space ↦ rw space (visible-lstrip s)
  | inr mark ↦ rw mark (rw mark refl)
]

visible-rstrip : (s : String) → visible (rstrip s) ≡ visible s
unfolding visible rstrip
visible-rstrip String.[] = refl
visible-rstrip (String.◌∷◌ c s) = elim (Bool-cases (is_space c)) [
  | inl space ↦ elim (Bool-cases (str_eq (rstrip s) "")) [
    | inl blank ↦
        rw (space, blank) (sym (ap visible ((eq_iff (rstrip s) "").0 blank)) ∙ visible-rstrip s)
    | inr kept ↦ rw (space, kept) (rw space (visible-rstrip s))
  ]
  | inr mark ↦ rw mark (rw mark (ap (String.◌∷◌ c) (visible-rstrip s)))
]

pub visible-strip : (s : String) → visible (strip s) ≡ visible s
unfolding strip
visible-strip s = visible-rstrip (lstrip s) ∙ visible-lstrip s

visible_none : visible "" ≡ ""
unfolding visible
visible_none = refl

visible_feed : visible "\n" ≡ ""
unfolding visible is_space
visible_feed = refl

pub visible-join : (ss : List String) → visible (join "\n" ss) ≡ visible_all ss
unfolding join visible_all
visible-join [] = visible_none
visible-join (s ∷ []) = sym (append-nil (visible s))
visible-join (s ∷ t ∷ ss) =
    visible-append s ("\n" ++ join "\n" (t ∷ ss))
    ∙ ap (λ v. visible s ++ v)
        (visible-append "\n" (join "\n" (t ∷ ss))
          ∙ ap (λ v. v ++ visible (join "\n" (t ∷ ss))) visible_feed
          ∙ nil-append (visible (join "\n" (t ∷ ss)))
          ∙ visible-join (t ∷ ss))

line_end-space : (c : Char) → is_line_end c ≡ true → is_space c ≡ true
unfolding is_line_end is_space
line_end-space c h = ground arith

feed-space : (c : Char) → (code c == 10) ≡ true → is_space c ≡ true
unfolding is_space
feed-space c h = ground arith

visible_one :
    (c : Char) (s : String) → visible (String.◌∷◌ c "") ++ visible s ≡ visible (String.◌∷◌ c s)
visible_one c s =
    sym (visible-append (String.◌∷◌ c "") s)
    ∙ ap visible (cons-append c "" s ∙ ap (String.◌∷◌ c) (nil-append s))

visible-split_from :
    (after_return : Bool) (line s : String)
    → (after_return ≡ true → line ≡ "")
    → visible_all (split_from after_return line s) ≡ visible line ++ visible s
unfolding visible_all split_from visible
visible-split_from after_return line String.[] h = elim (Bool-cases (str_eq line "")) [
  | inl empty ↦ rw empty (sym (ap (λ l. visible l ++ "") ((eq_iff line "").0 empty)))
  | inr some_ ↦ rw some_ refl
]
visible-split_from after_return line (String.◌∷◌ c s) h =
    elim (Bool-cases (after_return && code c == 10)) [
      | inl skip ↦
          let at_start : line ≡ "" = h (ground arith) in
          let space : is_space c ≡ true = feed-space c (ground arith) in
          rw skip (
            rw space (
              visible-split_from false "" s (λ e. absurd (ground arith))
              ∙ ap (λ l. visible l ++ visible s) (sym at_start)))
      | inr read ↦ elim (Bool-cases (is_line_end c)) [
        | inl ends ↦
            rw (read, ends)
              (rw (line_end-space c ends) (
                ap (λ v. visible line ++ v)
                  (visible-split_from (code c == 13) "" s (λ e. refl) ∙ nil-append (visible s))))
        | inr goes ↦
            rw (read, goes)
              (visible-split_from false (line ++ String.◌∷◌ c "") s (λ e. absurd (ground arith))
                ∙ ap (λ v. v ++ visible s) (visible-append line (String.◌∷◌ c ""))
                ∙ append_assoc (visible line) (visible (String.◌∷◌ c "")) (visible s)
                ∙ ap (λ v. visible line ++ v) (visible_one c s))
      ]
    ]

pub visible-splitlines : (s : String) → visible_all (splitlines s) ≡ visible s
unfolding splitlines visible
visible-splitlines s =
    visible-split_from false "" s (λ h. absurd (ground arith)) ∙ nil-append (visible s)
