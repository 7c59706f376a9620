-- ===== src/Tenancy/Billing/Witnesses.antt =====
-- The theorems about billing at inputs that meet their hypotheses, and runs of the code.
use revy.Common.{ℕ, ◌<◌, String, ◌≡◌, ◌≢◌, refl, true, Option, some, none, [], ◌∷◌, uuid_str}
use revy.Common.Table
use revy.Common.Errors.{ok, err, raise_with, forbidden}
use revy.Tenancy.Rows.{Db, record_audit}
use revy.Tenancy.Account.{effective_plan}
use revy.Tenancy.Billing.{
  Settings, StripeObject, StripeEvent, BillingDb, post_stripe_webhook, try_record_webhook_event,
  apply_subscription_event, change_subscription, plan_from_subscription, workspace_by_customer_id,
  subscribed_workspace, update_workspace_plan, set_plan, set_limit, billing_actor_id,
  ensure_credits,
}
use revy.Tenancy.Billing.Credits.{after_runs, credits-run_out}
use revy.Tenancy.Billing.Events.{IsEntitled, apply_subscription_event-entitles}
use revy.Tenancy.Billing.Replay.{post_stripe_webhook-replay}
use revy.Tenancy.Samples.{acme, sample}

abbrev stripe : Settings
stripe = record { stripe_enabled = true; stripe_price_pro = some "price_pro" }

abbrev no_uuid : String → Option ℕ
no_uuid s = none

-- A subscription of acme's customer to the Pro price, and its end.
abbrev subscription : StripeObject
subscription = record {
  payment_status = none;
  workspace_id = none;
  plan = none;
  actor_user_id = none;
  customer = some "cus_1";
  status = some "active";
  price_ids = some "price_pro" ∷ [];
  invoice = [];
}

abbrev upgrade : StripeEvent
upgrade = record {
  id = "evt_1";
  event_type = "customer.subscription.updated";
  object = subscription;
}

abbrev upgraded : Db
upgraded =
    record_audit
      (record {
        actor_user_id = 21;
        impersonator_user_id = none;
        workspace_id = some 1;
        action = "billing.subscription_updated";
        resource_type = "workspace";
        resource_id = "00000000-0000-0000-0000-000000000001";
        metadata = ("old_plan", "free") ∷ ("new_plan", "pro") ∷ [];
      })
      (record sample {
        workspaces = record acme { plan = some "pro"; review_run_limit = none } ∷ [];
      })

upgrade_applies : apply_subscription_event stripe no_uuid upgrade sample ≡ ok upgraded
unfolding apply_subscription_event change_subscription subscribed_workspace workspace_by_customer_id
    update_workspace_plan effective_plan plan_from_subscription billing_actor_id record_audit
    Table.update uuid_str set_plan set_limit
upgrade_applies = refl

apply_subscription_event-entitles_example :
    (upgrade.event_type ≡ "customer.subscription.deleted"
      → IsEntitled "free" (some 25) acme upgraded)
    × (upgrade.event_type ≡ "customer.subscription.updated"
        → plan_from_subscription stripe subscription ≡ "pro"
        → IsEntitled "pro" none acme upgraded)
    × (upgrade.event_type ≡ "customer.subscription.updated"
        → plan_from_subscription stripe subscription ≢ "pro"
        → IsEntitled "free" (some 25) acme upgraded)
unfolding workspace_by_customer_id
apply_subscription_event-entitles_example =
    apply_subscription_event-entitles stripe no_uuid upgrade "cus_1" acme sample upgraded refl refl
      refl upgrade_applies

credits-run_out_example :
    ((k : ℕ) → k < 1 → ensure_credits (after_runs k acme) ≡ ok tt)
    × (ensure_credits (after_runs 1 acme)
        ≡ err (
            raise_with forbidden "Credit limit reached. Upgrade to Pro for unlimited reviews."
              (some "credit_limit_reached")))
credits-run_out_example = credits-run_out acme 25 1 refl refl

abbrev delivered : BillingDb
delivered = record { tenants = upgraded; events = "evt_1" ∷ [] }

delivery :
    post_stripe_webhook stripe no_uuid
      (some "sig")
      upgrade
      (record { tenants = sample; events = [] })
    ≡ ok delivered
unfolding post_stripe_webhook try_record_webhook_event apply_subscription_event change_subscription
    subscribed_workspace workspace_by_customer_id update_workspace_plan effective_plan
    plan_from_subscription billing_actor_id record_audit Table.update uuid_str set_plan set_limit
delivery = refl

post_stripe_webhook-replay_example :
    post_stripe_webhook stripe no_uuid
      (some "sig")
      (record upgrade { event_type = "invoice.paid" })
      delivered
    ≡ ok delivered
post_stripe_webhook-replay_example =
    post_stripe_webhook-replay stripe no_uuid (some "sig") upgrade
      (record upgrade { event_type = "invoice.paid" }) (record { tenants = sample; events = [] })
      delivered delivery refl
