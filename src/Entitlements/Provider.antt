-- ===== src/Entitlements/Provider.antt =====
-- backend/apps/entitlements/providers: the interface of a billing provider (base.py) and the
-- provider that charges nobody (fake.py). Each call is handed its reading of the clock.
use e_platform.Prelude.{ℕ, ◌+◌, Bool, true, false, Option, none, some, if◌then◌else◌}
use e_platform.Prelude.Text.{Text, codes}
use e_platform.Entitlements.Model.{
  SubscriptionStatus, trialing, active, past_due, canceled, expired, Payload, days,
}

pub record ProviderSubscription : Type 0 where
  pub provider : Text
  pub provider_subscription_id : Option Text
  pub status : SubscriptionStatus
  pub current_period_end : ℕ
  pub trial_end : Option ℕ
  pub cancel_at_period_end : Bool
  pub raw : Option Payload

-- The protocol `BillingProvider`.
pub record BillingProvider : Type 0 where
  pub start_subscription : ℕ → ℕ → Option ℕ → ProviderSubscription
  pub renew_subscription : ℕ → Option Text → ProviderSubscription
  pub fail_payment : ℕ → Option Text → ℕ → ProviderSubscription
  pub cancel_subscription : ℕ → Option Text → Bool → ProviderSubscription

-- `PERIOD`
unfoldable pub period : ℕ
unfolding days
period = days 30

abbrev pub snapshot :
    ℕ → Option Text → SubscriptionStatus → ℕ → Option ℕ → Bool → Text → ProviderSubscription
snapshot now id status period_end trial_end cancel event = record {
  provider = codes "fake";
  provider_subscription_id = id;
  status = status;
  current_period_end = period_end;
  trial_end = trial_end;
  cancel_at_period_end = cancel;
  raw = some (record { event = event; at = now });
}

-- `fresh` is `f"fake_{uuid.uuid4().hex[:16]}"`.
abbrev pub fake_start : Text → ℕ → ℕ → Option ℕ → ProviderSubscription
fake_start fresh now reference (some trial_days) =
    snapshot now (some fresh) trialing (now + days trial_days) (some (now + days trial_days)) false
      (codes "subscription.started.trial")
fake_start fresh now reference none =
    snapshot now (some fresh) active (now + period) none false (codes "subscription.started")

abbrev pub fake_renew : ℕ → Option Text → ProviderSubscription
fake_renew now id = snapshot now id active (now + period) none false (codes "subscription.renewed")

abbrev pub fake_fail : ℕ → Option Text → ℕ → ProviderSubscription
fake_fail now id period_end =
    snapshot now id past_due period_end none false (codes "payment.failed")

abbrev pub fake_cancel : ℕ → Option Text → Bool → ProviderSubscription
fake_cancel now id immediately =
    if immediately
    then snapshot now id expired now none false (codes "subscription.canceled.immediate")
    else snapshot now id canceled (now + period) none true (codes "subscription.canceled")

-- `FakeBillingProvider`
unfoldable pub fake_provider : Text → BillingProvider
unfolding period
fake_provider fresh = record {
  start_subscription = fake_start fresh;
  renew_subscription = fake_renew;
  fail_payment = fake_fail;
  cancel_subscription = fake_cancel;
}
