-- ===== src/Tenancy/Billing/Replay.antt =====
-- Stripe delivers an event more than once: a delivery that was handled changes nothing again.
use revy.Common.{
  ℕ, String, true, Option, List, [], ◌∷◌, ◌++◌, ◌≡◌, refl, subst, arith, any_of, Bool-cases, inl,
  inr, str_eq, eq_iff,
}
use revy.Common.Errors.{ok, ensure_ok, bind_ok, ok_injective}
use revy.Tenancy.Account.{is_truthy}
use revy.Tenancy.Billing.{
  Settings, StripeEvent, BillingDb, try_record_webhook_event, apply_subscription_event,
  post_stripe_webhook,
}

any_of-append_one : (x : String) (xs : List String) → any_of (str_eq x) (xs ++ x ∷ []) ≡ true
any_of-append_one x [] = ground (arith, eq_iff x x)
any_of-append_one x (y ∷ xs) = ground (arith, any_of-append_one x xs)

module _ (settings : Settings) (parse_uuid : String → Option ℕ) where
  -- An event that was handled is on record, and any later delivery with its id is answered without a
  -- change, whatever else the delivery carries.
  pub post_stripe_webhook-replay :
      (signature : Option String) (event again : StripeEvent) (db db' : BillingDb)
      → post_stripe_webhook settings parse_uuid signature event db ≡ ok db'
      → again.id ≡ event.id
      → post_stripe_webhook settings parse_uuid signature again db' ≡ ok db'
  unfolding post_stripe_webhook try_record_webhook_event
  post_stripe_webhook-replay signature event again db db' h same =
      let (on, h₁) = ensure_ok settings.stripe_enabled _ h in
      let (signed, h₂) = ensure_ok (is_truthy signature) _ h₁ in
      let seen_now : any_of (str_eq event.id) db'.events ≡ true =
        elim (Bool-cases (any_of (str_eq event.id) db.events)) [
          | inl seen ↦
              subst (λ (d : BillingDb). any_of (str_eq event.id) d.events ≡ true)
                (ok_injective (rw seen at h₂)) seen
          | inr new ↦
              let (tenants, done, e) =
                bind_ok (apply_subscription_event settings parse_uuid event db.tenants)
                  (rw new at h₂) in
              subst (λ (d : BillingDb). any_of (str_eq event.id) d.events ≡ true) (ok_injective e)
                (any_of-append_one event.id db.events)
        ] in
      rw (on, signed, same, seen_now) refl
