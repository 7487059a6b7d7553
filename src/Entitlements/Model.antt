-- ===== src/Entitlements/Model.antt =====
-- backend/apps/entitlements/models.py: the tables, and the constraints that the database checks.
use e_platform.Prelude.{
  ℕ, ◌*◌, Bool, true, false, not, ◌&&◌, Option, none, some, List, ◌==◌, ltb, is_some,
}
use e_platform.Prelude.Rows.{exists_by}
use e_platform.Prelude.Text.{Text, is_nonempty, text_eq}
use e_platform.Core.Audit.{AuditLog}

-- A `datetime` counts microseconds, and so does a `timedelta`.
abbrev pub day : ℕ
day = 86400000000

-- `timedelta(days=n)`
unfoldable pub days : ℕ → ℕ
days n = n * day

pub data SubscriptionStatus : Type 0 where
  trialing active past_due canceled expired : SubscriptionStatus

-- `status in LIVE_STATUSES`
abbrev pub is_live : SubscriptionStatus → Bool
is_live trialing = true
is_live active = true
is_live past_due = true
is_live canceled = false
is_live expired = false

pub record Subscription : Type 0 where
  pub pk : ℕ
  pub user : ℕ
  pub status : SubscriptionStatus
  pub current_period_end : ℕ
  pub trial_end : Option ℕ
  pub cancel_at_period_end : Bool
  pub provider : Text
  pub provider_subscription_id : Option Text

pub data EventType : Type 0 where
  trial_started activated renewed payment_failed : EventType
  cancellation_requested canceled_event expired_event : EventType

-- The provider's `raw` report: the fake sends an event name and a time.
pub record Payload : Type 0 where
  pub event : Text
  pub at : ℕ

-- `from_status` is blank on the first event; `none` for the payload is `{}`.
pub record SubscriptionEvent : Type 0 where
  pub subscription : ℕ
  pub event_type : EventType
  pub from_status : Option SubscriptionStatus
  pub to_status : SubscriptionStatus
  pub provider_payload : Option Payload

pub record AccessOverride : Type 0 where
  pub pk : ℕ
  pub user : ℕ
  pub granted_by : ℕ
  pub reason : Text
  pub starts_at : ℕ
  pub ends_at : ℕ

-- The tables, newest row first.
pub record Db : Type 0 where
  pub subscriptions : List Subscription
  pub events : List SubscriptionEvent
  pub overrides : List AccessOverride
  pub audit : List AuditLog

-- Another live row of the same user: what `one_live_subscription_per_user` refuses.
abbrev pub rivals : Subscription → Subscription → Bool
rivals r s = s.user == r.user && is_live s.status && not (s.pk == r.pk)

abbrev pub same_id : Option Text → Option Text → Bool
same_id (some a) (some b) = text_eq a b
same_id none b = false
same_id (some a) none = false

-- Another row with the same provider id: what `subscription_unique_per_provider_id` refuses.
abbrev pub same_provider_id : Subscription → Subscription → Bool
same_provider_id r s =
    text_eq s.provider r.provider
    && same_id s.provider_subscription_id r.provider_subscription_id
    && not (s.pk == r.pk)

abbrev pub is_trialing : SubscriptionStatus → Bool
is_trialing trialing = true
is_trialing active = false
is_trialing past_due = false
is_trialing canceled = false
is_trialing expired = false

-- The constraints of `Subscription.Meta`, for a row that is about to be written to a table.
unfoldable pub admits : Subscription → List Subscription → Bool
admits r rows =
    not (is_live r.status && exists_by (rivals r) rows)
    && not (is_trialing r.status && not (is_some r.trial_end))
    && not (exists_by (same_provider_id r) rows)

-- The constraints of `AccessOverride.Meta`.
unfoldable pub admits_override : AccessOverride → Bool
admits_override o = ltb o.starts_at o.ends_at && is_nonempty o.reason
