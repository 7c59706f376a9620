-- ===== src/Tenancy/Billing/Events.antt =====
-- What Stripe's events do to the plan and the credits of a workspace.
use revy.Common.{
  ℕ, ◌≡◌, ◌≢◌, refl, sym, ◌∙◌, ap, subst, String, Option, none, some, arith, str_eq, Bool-cases,
  Option-cases, inl, inr, ◌⊎◌,
}
use revy.Common.Table
use revy.Common.Errors.{
  billing_webhook, raise_with, ensure_some, ok, ensure_some_ok, bind_ok, ok_injective,
}
use revy.Tenancy.Rows.{Workspace, Db, record_audit}
use revy.Tenancy.Account.{effective_plan}
use revy.Tenancy.Billing.{
  Settings, StripeObject, StripeEvent, set_plan, set_limit, update_workspace_plan,
  plan_from_subscription, workspace_by_customer_id, actor_or_admin, normalized_plan,
  subscribed_workspace, change_subscription, apply_subscription_event,
}

-- The rows after a change of plan.
update_workspace_plan_ok :
    (w : Workspace) (plan : String) (actor : Option ℕ) (customer : Option String) (db db' : Db)
    → update_workspace_plan w plan actor customer db ≡ ok db'
    → db'.workspaces ≡ Table.update Workspace.id w.id (set_plan plan customer) db.workspaces
unfolding update_workspace_plan record_audit
update_workspace_plan_ok w plan actor customer db db' h =
    elim (Bool-cases (str_eq (effective_plan w) (normalized_plan plan))) [
      | inl same ↦ sym (ap Db.workspaces (ok_injective (rw same at h)))
      | inr changed ↦
          let (by, found, e) = bind_ok (actor_or_admin actor db w.id) (rw changed at h) in
          sym (ap Db.workspaces (ok_injective e))
    ]

id-set_plan :
    (plan : String) (customer : Option String) (w : Workspace)
    → (set_plan plan customer w).id ≡ w.id
unfolding set_plan
id-set_plan plan none w = refl
id-set_plan plan (some c) w = refl

id-set_limit : (plan : String) (w : Workspace) → (set_limit plan w).id ≡ w.id
unfolding set_limit
id-set_limit plan w = ground arith

plan_from_subscription-cases :
    (settings : Settings) (o : StripeObject)
    → (plan_from_subscription settings o ≡ "free") ⊎ (plan_from_subscription settings o ≡ "pro")
unfolding plan_from_subscription
plan_from_subscription-cases settings o = elim (Option-cases (settings.stripe_price_pro)) [
  | inl unset ↦ inl (rw unset refl)
  | inr (pro, set) ↦ ground arith
]

-- The row of a workspace, with its plan and its limit.
abbrev pub IsEntitled : String → Option ℕ → Workspace → Db → Type 0
IsEntitled plan limit w db =
    (row : Workspace) × (Table.get Workspace.id w.id db.workspaces ≡ some row)
    × (effective_plan row ≡ plan)
    × (row.review_run_limit ≡ limit)

entitled_free :
    (w : Workspace)
    → let row = set_limit "free" (set_plan "free" none w) in
      (effective_plan row ≡ "free") × (row.review_run_limit ≡ some 25)
unfolding set_limit set_plan effective_plan
entitled_free w = (refl, refl)

entitled_pro :
    (w : Workspace)
    → let row = set_limit "pro" (set_plan "pro" none w) in
      (effective_plan row ≡ "pro") × (row.review_run_limit ≡ none)
unfolding set_limit set_plan effective_plan
entitled_pro w = (refl, refl)

module _ (settings : Settings) (parse_uuid : String → Option ℕ) where
  subscribed_workspace-known :
      (customer_id : String) (o : StripeObject) (w : Workspace) (db : Db)
      → workspace_by_customer_id db customer_id ≡ some w
      → subscribed_workspace settings parse_uuid customer_id o db ≡ ok (some w)
  unfolding subscribed_workspace
  subscribed_workspace-known customer_id o w db known = rw (subscribed_workspace, known) refl

  change_subscription-row :
      (plan : String) (o : StripeObject) (customer_id : String) (w : Workspace) (db db' : Db)
      → o.customer ≡ some customer_id
      → workspace_by_customer_id db customer_id ≡ some w
      → Table.get Workspace.id w.id db.workspaces ≡ some w
      → change_subscription settings parse_uuid plan o db ≡ ok db'
      → Table.get Workspace.id w.id db'.workspaces ≡ some (set_limit plan (set_plan plan none w))
  unfolding change_subscription
  change_subscription-row plan o customer_id w db db' customer known here h =
      let (c, e₁, h₁) =
        bind_ok
          (ensure_some o.customer
            (raise_with billing_webhook "Subscription event missing customer id" none))
          h in
      let (found, e₂, h₂) = bind_ok (subscribed_workspace settings parse_uuid c o db) h₁ in
      let same : some c ≡ some customer_id = sym (ensure_some_ok o.customer _ e₁) ∙ customer in
      let is_w : found ≡ some w =
        ok_injective (sym e₂ ∙ subscribed_workspace-known c o w db (ground arith)) in
      let (mid, e, h₃) = bind_ok (update_workspace_plan w plan none none db) (rw is_w at h₂) in
      let changed =
        Table.get-update_self Workspace.id w.id (set_plan plan none) w db.workspaces
          (id-set_plan plan none) here in
      let row : Table.get Workspace.id w.id mid.workspaces ≡ some (set_plan plan none w) =
        subst (λ ws. Table.get Workspace.id w.id ws ≡ some (set_plan plan none w))
          (sym (update_workspace_plan_ok w plan none none db mid e)) changed in
      subst
        (λ (d : Db).
          Table.get Workspace.id w.id d.workspaces ≡ some (set_limit plan (set_plan plan none w)))
        (ok_injective h₃)
        (Table.get-update_self Workspace.id w.id (set_limit plan) (set_plan plan none w)
          mid.workspaces (id-set_limit plan) row)

  -- A subscription event for a known customer sets the plan and the credits of its workspace together.
  -- A deletion leaves the free plan with 25 runs; an update leaves the Pro plan without a limit if the
  -- subscription pays for Pro, and the free plan with 25 runs if it does not.
  pub apply_subscription_event-entitles :
      (event : StripeEvent) (customer_id : String) (w : Workspace) (db db' : Db)
      → event.object.customer ≡ some customer_id
      → workspace_by_customer_id db customer_id ≡ some w
      → Table.get Workspace.id w.id db.workspaces ≡ some w
      → apply_subscription_event settings parse_uuid event db ≡ ok db'
      → (event.event_type ≡ "customer.subscription.deleted" → IsEntitled "free" (some 25) w db')
        × (event.event_type ≡ "customer.subscription.updated"
            → plan_from_subscription settings event.object ≡ "pro"
            → IsEntitled "pro" none w db')
        × (event.event_type ≡ "customer.subscription.updated"
            → plan_from_subscription settings event.object ≢ "pro"
            → IsEntitled "free" (some 25) w db')
  unfolding apply_subscription_event
  apply_subscription_event-entitles event customer_id w db db' customer known here h =
      let updated_row : event.event_type ≡ "customer.subscription.updated" → _ = λ updated.
        change_subscription-row (plan_from_subscription settings event.object) event.object
          customer_id w db db' customer known here (rw (updated, apply_subscription_event) at h) in
      (
        (λ deleted. (
          _,
          change_subscription-row "free" event.object customer_id w db db' customer known here
              (rw (deleted, apply_subscription_event) at h),
          (entitled_free w).0,
          (entitled_free w).1,
        )),
        (λ updated pro.
            (_, updated_row updated, rw pro (entitled_pro w).0, rw pro (entitled_pro w).1)),
        (λ updated unpaid. elim (plan_from_subscription-cases settings event.object) [
          | inl free ↦
              (_, updated_row updated, rw free (entitled_free w).0, rw free (entitled_free w).1)
          | inr pro ↦ absurd (unpaid pro)
        ]),
      )
