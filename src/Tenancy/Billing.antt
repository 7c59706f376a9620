-- ===== src/Tenancy/Billing.antt =====
-- services/billing.py and api/v1/webhooks/stripe.py: the plan of a workspace as Stripe's events set
-- it, the events seen so far, and the credits that services/github_review.py takes. The settings are
-- a record, and `parse_uuid` is the constructor of `uuid.UUID`, which raises on a text that is none. A value that a message prints is left out of the message.

pub mod Credits
pub mod Events
pub mod Replay
mod Witnesses
use revy.Common.{
  ℕ, suc, String, Bool, true, false, not, ◌&&◌, ◌||◌, Option, none, some, List, [], ◌∷◌, ◌++◌, ◌==◌,
  ltb, leb, if◌then◌else◌, find, strip, str_eq, uuid_str, any_of, is_some,
}
use revy.Common.Table
use revy.Common.Errors.{
  PlatformException, Result, ok, err, ◌>>=◌, ◌>>◌, ensure, ensure_some, raise_with, not_found,
  forbidden, platform, billing_webhook, service_unavailable, validation,
}
use revy.Tenancy.Rows.{Workspace, Membership, AuditLog, Db, record_audit}
use revy.Tenancy.Memberships.{is_admin_of}
use revy.Tenancy.Account.{effective_plan, is_valid_plan, is_truthy}

pub record Settings : Type 0 where
  pub stripe_enabled : Bool
  pub stripe_price_pro : Option String

-- The fields of `event["data"]["object"]` that the code reads. An absent field, and a `customer`
-- that is no text, is `none`; `invoice` is the audit's metadata of an invoice.
pub record StripeObject : Type 0 where
  pub payment_status : Option String
  pub workspace_id : Option String
  pub plan : Option String
  pub actor_user_id : Option String
  pub customer : Option String
  pub status : Option String
  pub price_ids : List (Option String)
  pub invoice : List (String × String)

pub record StripeEvent : Type 0 where
  pub id : String
  pub event_type : String
  pub object : StripeObject

-- The webhook's tables: the tenants and the keys of the events in stripe_webhook_events.
pub record BillingDb : Type 0 where
  pub tenants : Db
  pub events : List String

-- `value in {...}` for an optional value
abbrev pub is_in : Option String → List String → Bool
is_in none values = false
is_in (some s) values = any_of (str_eq s) values

unfoldable pub billing_actor_id : Db → ℕ → Result ℕ
billing_actor_id db workspace_id = elim (find (is_admin_of workspace_id) db.memberships) [
  | none ↦ err (raise_with not_found "No workspace admin found for billing audit" none)
  | some m ↦ ok m.user_id
]

abbrev pub normalized_plan : String → String
normalized_plan plan = if is_valid_plan plan then plan else "free"

-- The writes of `_update_workspace_plan` to the row.
unfoldable pub set_plan : String → Option String → Workspace → Workspace
set_plan new_plan none w = record w { plan = some (normalized_plan new_plan) }
set_plan new_plan (some customer_id) w = record w {
  plan = some (normalized_plan new_plan);
  stripe_customer_id = some customer_id;
}

abbrev pub write_workspace : ℕ → (Workspace → Workspace) → Db → Db
write_workspace workspace_id f db = record db {
  workspaces = Table.update Workspace.id workspace_id f db.workspaces;
}

abbrev billing_audit : String → ℕ → List (String × String) → ℕ → AuditLog
billing_audit action workspace_id metadata actor = record {
  actor_user_id = actor;
  impersonator_user_id = none;
  workspace_id = some workspace_id;
  action = action;
  resource_type = "workspace";
  resource_id = uuid_str workspace_id;
  metadata = metadata;
}

-- `actor_user_id or await _billing_actor_id(...)`
abbrev pub actor_or_admin : Option ℕ → Db → ℕ → Result ℕ
actor_or_admin none db workspace_id = billing_actor_id db workspace_id
actor_or_admin (some actor) db workspace_id = ok actor

-- The value that the code returns, whether the row changed, is not read by any caller.
unfoldable pub update_workspace_plan :
    Workspace → String → Option ℕ → Option String → Db → Result Db
update_workspace_plan w new_plan actor_user_id stripe_customer_id db =
    if str_eq (effective_plan w) (normalized_plan new_plan)
    then ok (write_workspace w.id (set_plan new_plan stripe_customer_id) db)
    else actor_or_admin actor_user_id db w.id >>= λ actor. ok (
        record_audit
          (billing_audit "billing.subscription_updated" w.id
            (("old_plan", effective_plan w) ∷ ("new_plan", normalized_plan new_plan) ∷ []) actor)
          (write_workspace w.id (set_plan new_plan stripe_customer_id) db))

-- `price_id == settings.stripe_price_pro`
abbrev is_pro_price : String → Option String → Bool
is_pro_price pro none = false
is_pro_price pro (some price_id) = str_eq price_id pro

unfoldable pub plan_from_subscription : Settings → StripeObject → String
plan_from_subscription settings o = elim (settings.stripe_price_pro) [
  | none ↦ "free"
  | some pro ↦
      if str_eq pro ""
      then "free"
      else if not (is_in o.status ("active" ∷ "trialing" ∷ "past_due" ∷ []))
      then "free"
      else if any_of (is_pro_price pro) o.price_ids
      then "pro"
      else "free"
]

unfoldable pub workspace_by_customer_id : Db → String → Option Workspace
workspace_by_customer_id db customer_id =
    find (λ w. is_in w.stripe_customer_id (customer_id ∷ [])) db.workspaces

-- The credits that go with a plan.
unfoldable pub set_limit : String → Workspace → Workspace
set_limit plan w =
    if str_eq plan "free"
    then record w { review_run_limit = some 25 }
    else if str_eq plan "pro"
    then record w { review_run_limit = none }
    else w

-- `metadata.get("plan") or "pro"`
abbrev pub plan_or_pro : Option String → String
plan_or_pro none = "pro"
plan_or_pro (some plan) = if str_eq plan "" then "pro" else plan

-- `if plan == "pro": workspace.review_run_limit = None`
abbrev pub lift_limit : String → Workspace → Workspace
lift_limit plan w = if str_eq plan "pro" then record w { review_run_limit = none } else w

unfoldable pub try_record_webhook_event : String → BillingDb → BillingDb × Bool
try_record_webhook_event event_id db =
    if any_of (str_eq event_id) db.events
    then (db, false)
    else (record db { events = db.events ++ event_id ∷ [] }, true)

module _ (settings : Settings) (parse_uuid : String → Option ℕ) where
  -- `UUID(raw)`
  abbrev pub uuid_of : String → Result ℕ
  uuid_of raw =
      ensure_some (parse_uuid raw) (raise_with platform "badly formed hexadecimal UUID string" none)

  -- `UUID(actor_raw) if actor_raw else None`
  abbrev pub actor_of : Option String → Result (Option ℕ)
  actor_of none = ok none
  actor_of (some raw) = if str_eq raw "" then ok none else uuid_of raw >>= λ actor. ok (some actor)

  -- The workspace that the metadata names, if they name one.
  abbrev pub workspace_of_metadata : Option String → Db → Result (Option Workspace)
  workspace_of_metadata none db = ok none
  workspace_of_metadata (some raw) db =
      if str_eq raw ""
      then ok none
      else uuid_of raw >>= λ workspace_id. ok (Table.get Workspace.id workspace_id db.workspaces)

  unfoldable pub complete_checkout : StripeObject → Db → Result Db
  complete_checkout o db =
      ensure (is_in o.payment_status ("paid" ∷ "no_payment_required" ∷ []))
        (raise_with billing_webhook "Checkout session not paid" none)
      >> ensure (is_truthy o.workspace_id)
          (raise_with billing_webhook "Checkout metadata missing workspace_id" none)
      >> workspace_of_metadata o.workspace_id db
      >>= λ found.
          ensure_some found
            (raise_with billing_webhook "Workspace not found for checkout metadata" none)
          >>= λ w. actor_of o.actor_user_id >>= λ actor.
              update_workspace_plan w (plan_or_pro o.plan) actor o.customer db >>= λ db'.
              ok (write_workspace w.id (lift_limit (plan_or_pro o.plan)) db')

  -- The workspace of a subscription: by its customer, or else by the metadata.
  unfoldable pub subscribed_workspace : String → StripeObject → Db → Result (Option Workspace)
  subscribed_workspace customer_id o db = elim (workspace_by_customer_id db customer_id) [
    | some w ↦ ok (some w)
    | none ↦ workspace_of_metadata o.workspace_id db
  ]

  -- Both subscription events, with the plan that they lead to.
  unfoldable pub change_subscription : String → StripeObject → Db → Result Db
  change_subscription new_plan o db =
      ensure_some o.customer
        (raise_with billing_webhook "Subscription event missing customer id" none)
      >>= λ customer_id. subscribed_workspace customer_id o db >>= λ found. elim found [
        | none ↦ ok db
        | some w ↦ update_workspace_plan w new_plan none none db >>= λ db'.
            ok (write_workspace w.id (set_limit new_plan) db')
      ]

  unfoldable pub audit_invoice : String → StripeObject → Db → Result Db
  audit_invoice action o db = elim (o.customer) [
    | none ↦ ok db
    | some customer_id ↦ elim (workspace_by_customer_id db customer_id) [
      | none ↦ ok db
      | some w ↦ billing_actor_id db w.id >>= λ actor.
          ok (record_audit (billing_audit action w.id o.invoice actor) db)
    ]
  ]

  unfoldable pub apply_subscription_event : StripeEvent → Db → Result Db
  apply_subscription_event event db =
      if str_eq event.event_type "checkout.session.completed"
      then complete_checkout event.object db
      else if str_eq event.event_type "customer.subscription.updated"
      then change_subscription (plan_from_subscription settings event.object) event.object db
      else if str_eq event.event_type "customer.subscription.deleted"
      then change_subscription "free" event.object db
      else if str_eq event.event_type "invoice.paid"
      then audit_invoice "billing.invoice_paid" event.object db
      else if str_eq event.event_type "invoice.payment_failed"
      then audit_invoice "billing.invoice_payment_failed" event.object db
      else ok db

  -- The handler, with the event that the client gives for a body whose signature it has verified.
  unfoldable pub post_stripe_webhook : Option String → StripeEvent → BillingDb → Result BillingDb
  post_stripe_webhook signature event db =
      ensure settings.stripe_enabled
        (raise_with service_unavailable "Billing is not configured" (some "billing_disabled"))
      >> ensure (is_truthy signature) (raise_with validation "Missing Stripe-Signature header" none)
      >> (let (db₁, is_new) = try_record_webhook_event event.id db in
          if not is_new
          then ok db₁
          else apply_subscription_event event db₁.tenants >>= λ tenants.
              ok (record db₁ { tenants = tenants }))

-- `create_review_run`: the check of the credits.
unfoldable pub ensure_credits : Workspace → Result (Unit {0})
ensure_credits w = elim (w.review_run_limit) [
  | none ↦ ok tt
  | some limit ↦ ensure (not (leb limit w.completed_review_runs)) (
      raise_with forbidden "Credit limit reached. Upgrade to Pro for unlimited reviews."
        (some "credit_limit_reached"))
]

-- `run_review_run`: the credit that a completed run takes, in one UPDATE with its condition.
unfoldable pub take_credit : Workspace → Workspace
take_credit w = elim (w.review_run_limit) [
  | none ↦ w
  | some limit ↦
      if ltb w.completed_review_runs limit
      then record w { completed_review_runs = suc w.completed_review_runs }
      else w
]
