-- ===== src/Entitlements/Services.antt =====
-- backend/apps/entitlements/services.py: the only writer of subscription state. A subscription
-- argument is the caller's instance; the row behind it is found by its primary key.
pub mod Table
pub mod History
pub mod Reach
pub mod Access
use e_platform.Prelude.{
  ℕ, ◌+◌, Bool, true, false, not, ◌&&◌, ◌||◌, Option, none, some, List, [], ◌∷◌, ◌==◌, leb, ltb,
  if◌then◌else◌, is_some,
}
use e_platform.Prelude.Rows.{exists_by, first_by, update_by}
use e_platform.Prelude.Result.{Result, ok, err, ◌>>=◌, ◌>>◌, require, or_raise}
use e_platform.Prelude.Text.{Text, is_nonempty, strip}
use e_platform.Accounts.{User}
use e_platform.Core.Audit.{
  NotAuditable, AuditLog, Request, record_admin_action, access_override_granted, user_model,
  override_details,
}
use e_platform.Entitlements.Model.{
  SubscriptionStatus, trialing, active, past_due, canceled, expired, is_live, Subscription,
  EventType, trial_started, activated, renewed, payment_failed, cancellation_requested,
  canceled_event, expired_event, SubscriptionEvent, Payload, AccessOverride, Db, admits,
  admits_override, days,
}
use e_platform.Entitlements.Provider.{ProviderSubscription, BillingProvider}

pub data ServiceError : Type 0 where
  no_live_subscription transition_error invalid_override : ServiceError
  invalid_refund refund_not_available : ServiceError
  integrity_error missing_row key_error : ServiceError
  not_auditable : NotAuditable → ServiceError

-- `ALLOWED_TRANSITIONS`
unfoldable pub allowed_transition : SubscriptionStatus → SubscriptionStatus → Bool
allowed_transition trialing active = true
allowed_transition trialing past_due = true
allowed_transition trialing canceled = true
allowed_transition trialing expired = true
allowed_transition active active = true
allowed_transition active past_due = true
allowed_transition active canceled = true
allowed_transition active expired = true
allowed_transition past_due active = true
allowed_transition past_due canceled = true
allowed_transition past_due expired = true
allowed_transition canceled expired = true
allowed_transition _ _ = false

-- `_EVENT_FOR`; `none` is a `KeyError`.
abbrev pub event_for : SubscriptionStatus → Option EventType
event_for active = some activated
event_for past_due = some payment_failed
event_for canceled = some canceled_event
event_for expired = some expired_event
event_for trialing = none

-- `live_subscription`
unfoldable pub live_subscription : Db → User → Result ServiceError Subscription
live_subscription db user =
    or_raise (first_by (λ s. s.user == user.pk && is_live s.status) db.subscriptions)
      no_live_subscription

-- `subscription.save(update_fields=...)`: the columns are written to the row with this key, if the
-- database's constraints admit the row that results.
unfoldable pub save_subscription : (Subscription → Subscription) → ℕ → Db → Result ServiceError Db
save_subscription columns pk db = do
  row ← or_raise (first_by (λ s. s.pk == pk) db.subscriptions) missing_row
  require (admits (columns row) db.subscriptions) integrity_error
  ok (record db { subscriptions = update_by (λ s. s.pk == pk) columns db.subscriptions })

-- The columns that `_apply` writes, from the snapshot; a known trial end is never cleared.
abbrev pub write_snapshot : ProviderSubscription → Option ℕ → Subscription → Subscription
write_snapshot report trial_end s = record s {
  status = report.status;
  current_period_end = report.current_period_end;
  cancel_at_period_end = report.cancel_at_period_end;
  trial_end = trial_end;
}

abbrev pub kept_trial_end : ProviderSubscription → Subscription → Option ℕ
kept_trial_end report s = if is_some report.trial_end then report.trial_end else s.trial_end

abbrev pub log_event : SubscriptionEvent → Db → Db
log_event e db = record db { events = e ∷ db.events }

abbrev pub named_event : Option EventType → SubscriptionStatus → Option EventType
named_event none status = event_for status
named_event (some e) status = some e

-- `_apply`
unfoldable pub apply :
    Subscription
    → ProviderSubscription
    → Option EventType
    → Db
    → Result ServiceError (Subscription × Db)
apply s report event_type db = do
  require (allowed_transition s.status report.status) transition_error
  let trial_end = kept_trial_end report s
  db' ← save_subscription (write_snapshot report trial_end) s.pk db
  event ← or_raise (named_event event_type report.status) key_error
  ok (
    write_snapshot report trial_end s,
    log_event
        (record {
          subscription = s.pk;
          event_type = event;
          from_status = some s.status;
          to_status = report.status;
          provider_payload = report.raw;
        })
        db',
  )

abbrev pub first_event : Option ℕ → EventType
first_event none = activated
first_event (some trial_days) = trial_started

-- The row and the event that `start_subscription` creates; `pk` is the row's UUID.
abbrev pub started_row : ℕ → User → ProviderSubscription → Subscription
started_row pk user report = record {
  pk = pk;
  user = user.pk;
  status = report.status;
  current_period_end = report.current_period_end;
  trial_end = report.trial_end;
  cancel_at_period_end = report.cancel_at_period_end;
  provider = report.provider;
  provider_subscription_id = report.provider_subscription_id;
}

abbrev pub started_event : ℕ → Option ℕ → ProviderSubscription → SubscriptionEvent
started_event pk trial_days report = record {
  subscription = pk;
  event_type = first_event trial_days;
  from_status = none;
  to_status = report.status;
  provider_payload = report.raw;
}

unfoldable pub start_subscription :
    BillingProvider → ℕ → ℕ → User → Option ℕ → Db → Result ServiceError (Subscription × Db)
start_subscription provider pk now user trial_days db = do
  require (not (exists_by (λ s. s.user == user.pk && is_live s.status) db.subscriptions))
      transition_error
  let report = provider.start_subscription now user.pk trial_days
  require (admits (started_row pk user report) db.subscriptions) integrity_error
  ok (
    started_row pk user report,
    log_event (started_event pk trial_days report)
        (record db { subscriptions = started_row pk user report ∷ db.subscriptions }),
  )

unfoldable pub renew :
    BillingProvider → ℕ → Subscription → Db → Result ServiceError (Subscription × Db)
renew provider now s db =
    apply s (provider.renew_subscription now s.provider_subscription_id) (some renewed) db

unfoldable pub fail_payment :
    BillingProvider → ℕ → Subscription → Db → Result ServiceError (Subscription × Db)
fail_payment provider now s db =
    apply s (provider.fail_payment now s.provider_subscription_id s.current_period_end) none db

unfoldable pub cancel :
    BillingProvider → ℕ → Bool → Subscription → Db → Result ServiceError (Subscription × Db)
cancel provider now immediately s db =
    apply s (provider.cancel_subscription now s.provider_subscription_id immediately)
      (some (if immediately then expired_event else cancellation_requested)) db

-- `expire`: only the status is written.
abbrev pub write_expired : Subscription → Subscription
write_expired s = record s { status = expired }

unfoldable pub expire : Subscription → Db → Result ServiceError (Subscription × Db)
expire s db = do
  require (allowed_transition s.status expired) transition_error
  db' ← save_subscription write_expired s.pk db
  ok (
    write_expired s,
    log_event
        (record {
          subscription = s.pk;
          event_type = expired_event;
          from_status = some s.status;
          to_status = expired;
          provider_payload = none;
        })
        db',
  )

-- ACCESS_OVERRIDE_MAX_DAYS
abbrev pub override_max_days : ℕ
override_max_days = 90

abbrev pub audited : Result NotAuditable AuditLog → Result ServiceError AuditLog
audited (ok row) = ok row
audited (err e) = err (not_auditable e)

-- `grant_access_override`; `n` is the number of days, where a negative number reads as 0.
unfoldable pub grant_access_override :
    ℕ → ℕ → User → User → ℕ → Text → Option Request → Db → Result ServiceError (AccessOverride × Db)
unfolding record_admin_action
grant_access_override pk now actor user n reason request db = do
  require (not (ltb n 1 || ltb override_max_days n)) invalid_override
  require (is_nonempty (strip reason)) invalid_override
  let o : AccessOverride = record {
    pk = pk;
    user = user.pk;
    granted_by = actor.pk;
    reason = strip reason;
    starts_at = now;
    ends_at = now + days n;
  }
  require (admits_override o) integrity_error
  row ← audited (
      record_admin_action (some actor) access_override_granted
        (record { model_name = user_model; pk = user.pk }) reason request
        (override_details n o.ends_at pk))
  ok (o, record db { overrides = o ∷ db.overrides; audit = row ∷ db.audit })

-- `issue_refund`: nothing is refunded, whatever is asked.
unfoldable pub issue_refund :
    Option User → Subscription → Text → Option Request → Db → Result ServiceError Db
issue_refund actor s reason request db = do
  user ← or_raise actor invalid_refund
  require (is_nonempty (strip reason)) invalid_refund
  err refund_not_available
