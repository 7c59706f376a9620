-- ===== src/Common/Errors.antt =====
-- core/exceptions.py: the exceptions that the API maps to HTTP statuses. A service function that may
-- raise returns a `Result`; `get_db` rolls the session back on a raise, so an error carries no state.
use Prim.Native.Nat.{ℕ}
use Prim.Native.String.{String}
use mathlib.Core.Path.{◌≡◌, refl, ap}
use mathlib.Core.Logic.{◌⊎◌, inl, inr}
use mathlib.Core.Bool.{Bool, true, false}
use native.Mathlib.Omega.{arith}
use mathlib.Core.Option.{Option, none, some}

pub data ErrorClass : Type 0 where
  platform validation not_found conflict unauthorized forbidden : ErrorClass
  service_unavailable billing_webhook rate_limited : ErrorClass

pub record PlatformException : Type 0 where
  pub error_class : ErrorClass
  pub message : String
  pub error_code : String

unfoldable pub http_status_code : ErrorClass → ℕ
http_status_code platform = 500
http_status_code validation = 422
http_status_code not_found = 404
http_status_code conflict = 409
http_status_code unauthorized = 401
http_status_code forbidden = 403
http_status_code service_unavailable = 503
http_status_code billing_webhook = 500
http_status_code rate_limited = 429

abbrev pub default_error_code : ErrorClass → String
default_error_code platform = "internal_error"
default_error_code validation = "validation_error"
default_error_code not_found = "not_found"
default_error_code conflict = "conflict"
default_error_code unauthorized = "unauthorized"
default_error_code forbidden = "forbidden"
default_error_code service_unavailable = "service_unavailable"
default_error_code billing_webhook = "billing_webhook_error"
default_error_code rate_limited = "rate_limited"

-- `SomeError(message, error_code)`, with the class's code where none is given.
abbrev pub raise_with : ErrorClass → String → Option String → PlatformException
raise_with c m none = record { error_class = c; message = m; error_code = default_error_code c }
raise_with c m (some code) = record { error_class = c; message = m; error_code = code }

-- What a service call ends with: a value, or the exception that it raised.
pub data Result {ℓ} (T : Type ℓ) : Type ℓ where
  err : PlatformException → Result T
  ok : T → Result T

infixr 5 ◌>>=◌ ◌>>◌
abbrev pub ◌>>=◌ {ℓ κ} : {T : Type ℓ} {U : Type κ} → Result T → (T → Result U) → Result U
call >>= next = elim call [ err raised ↦ err raised | ok value ↦ next value ]

abbrev pub ◌>>◌ {κ} : {U : Type κ} → Result (Unit {0}) → Result U → Result U
call >> next = elim call [ err raised ↦ err raised | ok _ ↦ next ]

-- `if not test: raise e`
abbrev pub ensure : Bool → PlatformException → Result (Unit {0})
ensure true e = ok tt
ensure false e = err e

-- `if row is None: raise e`
abbrev pub ensure_some {ℓ} : {A : Type ℓ} → Option A → PlatformException → Result A
ensure_some none e = err e
ensure_some (some a) e = ok a

-- To split on how a call ended and keep the equation.
pub Result-cases {ℓ} :
    {T : Type ℓ} (call : Result T)
    → ((raised : PlatformException) × (call ≡ err raised)) ⊎ ((value : T) × (call ≡ ok value))
Result-cases (err raised) = inl (raised, refl)
Result-cases (ok value) = inr (value, refl)

pub ok_injective {ℓ} : {T : Type ℓ} {a b : T} → ok a ≡ ok b → a ≡ b
ok_injective {a = a} h = ap (λ call. elim call [ err raised ↦ a | ok value ↦ value ]) h

-- What a guard that let a call pass had tested.
pub ensure_ok {ℓ} :
    {T : Type ℓ} (test : Bool) (e : PlatformException) {next : Result T} {value : T}
    → (ensure test e >> next) ≡ ok value
    → (test ≡ true) × (next ≡ ok value)
ensure_ok true e h = (refl, h)
ensure_ok false e h = absurd (ground arith)

-- A chain that went through: its first call did, and so did the rest.
pub bind_ok {ℓ κ} :
    {T : Type ℓ} {U : Type κ} (call : Result T) {next : T → Result U} {value : U}
    → (call >>= next) ≡ ok value
    → (first : T) × (call ≡ ok first) × (next first ≡ ok value)
bind_ok (err raised) h = absurd (ground arith)
bind_ok (ok first) h = (first, refl, h)

pub ensure_some_ok {ℓ} :
    {A : Type ℓ} (found : Option A) (e : PlatformException) {a : A}
    → ensure_some found e ≡ ok a
    → found ≡ some a
ensure_some_ok none e h = absurd (ground arith)
ensure_some_ok (some b) e h = ap some (ok_injective h)
