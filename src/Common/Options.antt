-- ===== src/Common/Options.antt =====
-- Chains of steps that may give nothing: early returns of `None`, and raises that no one catches.
use mathlib.Core.Path.{◌≡◌, refl, subst}
use mathlib.Core.Bool.{Bool, true, false}
use mathlib.Core.Option.{Option, none, some}
use native.Mathlib.Omega.{arith}

infixr 5 ◌>>=◌ ◌>>◌
abbrev pub ◌>>=◌ {ℓ κ} : {T : Type ℓ} {U : Type κ} → Option T → (T → Option U) → Option U
found >>= next = elim found [ none ↦ none | some value ↦ next value ]

abbrev pub ◌>>◌ {κ} : {U : Type κ} → Option (Unit {0}) → Option U → Option U
found >> next = elim found [ none ↦ none | some _ ↦ next ]

-- `if not test: return None`
abbrev pub require : Bool → Option (Unit {0})
require true = some tt
require false = none

-- A chain that gave something: its first step did, and so did the rest.
pub bind_some {ℓ κ} :
    {T : Type ℓ} {U : Type κ} (found : Option T) {next : T → Option U} {value : U}
    → (found >>= next) ≡ some value
    → (first : T) × (found ≡ some first) × (next first ≡ some value)
bind_some none h = absurd (ground arith)
bind_some (some first) h = (first, refl, h)

-- What holds of the value, if there is one.
abbrev pub Whenever {ℓ κ} : {T : Type ℓ} → (T → Type κ) → Option T → Type κ
Whenever P none = Unit
Whenever P (some value) = P value

pub Whenever-bind {ℓ κ ι} :
    {T : Type ℓ} {U : Type κ} (P : T → Type ι) (Q : U → Type ι) (found : Option T)
    (next : T → Option U)
    → Whenever P found
    → ((value : T) → P value → Whenever Q (next value))
    → Whenever Q (found >>= next)
Whenever-bind P Q none next h step = tt
Whenever-bind P Q (some value) next h step = step value h

pub Whenever-some {ℓ κ} :
    {T : Type ℓ} (P : T → Type κ) (found : Option T) {value : T}
    → Whenever P found
    → found ≡ some value
    → P value
Whenever-some P found h e = subst (Whenever P) e h
