-- ===== src/Common/Json.antt =====
-- The values that `json.loads` makes, as the code tests them with `isinstance` and `dict.get`.
use Prim.Native.Nat.{ℕ}
use Prim.Native.String.{String}
use mathlib.Core.Path.{◌≡◌, refl}
use mathlib.Core.Bool.{Bool, true, false}
use mathlib.Core.Option.{Option, none, some}
use native.Mathlib.Omega.{arith}
use text.Mathlib.Text.{◌==◌ as str_eq}
use mathlib.Core.Logic.{inl, inr}
use text.Mathlib.TextEquality.{eq_iff}
use revy.Common.Tests.{◌==◌, if◌then◌else◌, Bool-cases}
use revy.Common.Text.{strip}

-- `negsuc n` is -(n + 1).
pub data ℤ : Type 0 where
  pos negsuc : ℕ → ℤ

abbrev pub int_eq : ℤ → ℤ → Bool
int_eq (pos m) (pos n) = m == n
int_eq (negsuc m) (negsuc n) = m == n
int_eq _ _ = false

-- `real` keeps the text that `str` prints of a number with a fraction or an exponent.
mutual
  pub data Json : Type 0 where
    null : Json
    boolean : Bool → Json
    integer : ℤ → Json
    real : String → Json
    string : String → Json
    array : Items → Json
    object : Members → Json

  pub data Items : Type 0 where
    nil : Items
    cons : Json → Items → Items

  pub data Members : Type 0 where
    end : Members
    member : String → Json → Members → Members

-- `d.get(key)`, with `None` for a key that is not there.
unfoldable pub get_key : String → Members → Json
get_key key end = Json.null
get_key key (member k v rest) = let later = get_key key rest in if str_eq k key then v else later

-- The value behind `isinstance(x, int)`: a Boolean is an int too.
abbrev pub as_int : Json → Option ℤ
as_int (Json.integer n) = some n
as_int (Json.boolean true) = some (pos 1)
as_int (Json.boolean false) = some (pos 0)
as_int _ = none

-- `isinstance(x, str)`
abbrev pub as_text : Json → Option String
as_text (Json.string s) = some s
as_text _ = none

-- `isinstance(x, dict)`
abbrev pub as_dict : Json → Option Members
as_dict (Json.object d) = some d
as_dict _ = none

-- `x is True`
abbrev pub is_true : Json → Bool
is_true (Json.boolean b) = b
is_true _ = false

abbrev pub is_null : Json → Bool
is_null Json.null = true
is_null _ = false

-- `x.strip()` is not empty.
abbrev pub has_text : String → Bool
has_text s = if str_eq (strip s) "" then false else true

pub int_eq_comm : (m n : ℤ) → int_eq m n ≡ int_eq n m
int_eq_comm (pos m) (pos n) = ground arith
int_eq_comm (pos m) (negsuc n) = refl
int_eq_comm (negsuc m) (pos n) = refl
int_eq_comm (negsuc m) (negsuc n) = ground arith

pub int_eq→eq : (m n : ℤ) → int_eq m n ≡ true → m ≡ n
int_eq→eq (pos m) (pos n) h = ground arith
int_eq→eq (pos m) (negsuc n) h = cc
int_eq→eq (negsuc m) (pos n) h = cc
int_eq→eq (negsuc m) (negsuc n) h = ground arith

pub int_eq_refl : (m : ℤ) → int_eq m m ≡ true
int_eq_refl (pos m) = ground arith
int_eq_refl (negsuc m) = ground arith

-- `d[key] = value`
unfoldable pub set_key : String → Json → Members → Members
set_key key value end = member key value end
set_key key value (member k v rest) =
    let later = set_key key value rest in
    if str_eq k key then member k value rest else member k v later

-- `{**d, **updates}`
unfoldable pub update_keys : Members → Members → Members
unfolding set_key
update_keys d end = d
update_keys d (member k v updates) = update_keys (set_key k v d) updates

-- A read after a write.
pub get_key-set_key :
    (j k : String) (value : Json) (d : Members)
    → get_key j (set_key k value d) ≡ (if str_eq k j then value else get_key j d)
unfolding get_key set_key
get_key-set_key j k value end = refl
get_key-set_key j k value (member i v rest) = elim (Bool-cases (str_eq i k)) [
  | inl same ↦ ground (arith, eq_iff i k, eq_iff i j, eq_iff k j)
  | inr other ↦ ground (arith, get_key-set_key j k value rest, eq_iff i k, eq_iff i j, eq_iff k j)
]
