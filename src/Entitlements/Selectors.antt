-- ===== src/Entitlements/Selectors.antt =====
-- backend/apps/entitlements/selectors.py: what support, the scheduled report of tasks.py and the
-- export of personal data read.
use e_platform.Prelude.{
  ℕ, ◌-◌, Bool, true, false, not, ◌&&◌, Option, none, some, List, [], ◌∷◌, ◌++◌, ◌==◌, ltb, leb,
  if◌then◌else◌, map,
}
use e_platform.Prelude.Rows.{filter_by, count_by, exists_by, length}
use e_platform.Prelude.Sorting.{sort_by, take_first}
use e_platform.Prelude.Text.{Text, is_nonempty}
use e_platform.Core.Audit.{AuditLog, Target, ModelName, user_model, course_model, invitation_model}
use e_platform.Entitlements.Model.{
  Subscription, SubscriptionStatus, trialing, active, past_due, canceled, is_live,
  SubscriptionEvent, EventType, AccessOverride, Db, days,
}

abbrev same_model : ModelName → ModelName → Bool
same_model user_model user_model = true
same_model course_model course_model = true
same_model invitation_model invitation_model = true
same_model _ _ = false

-- `admin_actions_against` of backend/apps/core/selectors.py
unfoldable pub admin_actions_against : Target → Option ℕ → List AuditLog → List AuditLog
admin_actions_against target limit rows =
    let found =
      filter_by (λ r. same_model r.target.model_name target.model_name && r.target.pk == target.pk)
        rows in
    elim limit [ none ↦ found | some n ↦ take_first n found ]

abbrev pub diagnostic_trail_limit : ℕ
diagnostic_trail_limit = 50

abbrev pub user_target : ℕ → Target
user_target pk = record { model_name = user_model; pk = pk }

unfoldable pub admin_trail_for : ℕ → Db → List AuditLog × ℕ
unfolding admin_actions_against
admin_trail_for user db = (
  admin_actions_against (user_target user) (some diagnostic_trail_limit) db.audit,
  length (admin_actions_against (user_target user) none db.audit),
)

-- The events of the user's subscriptions.
abbrev pub event_of : ℕ → List Subscription → SubscriptionEvent → Bool
event_of user rows e = exists_by (λ s. s.pk == e.subscription && s.user == user) rows

-- The rows of the model are newest first, as `order_by("-created_at")` has them.
unfoldable pub diagnostics_for :
    ℕ → Db → List Subscription × List SubscriptionEvent × List AccessOverride
diagnostics_for user db = (
  filter_by (λ s. s.user == user) db.subscriptions,
  filter_by (event_of user db.subscriptions) db.events,
  sort_by (λ a b. leb b.starts_at a.starts_at) (filter_by (λ o. o.user == user) db.overrides),
)

pub data FindingCode : Type 0 where
  active_past_period trialing_past_end past_due_beyond_grace canceled_past_period : FindingCode
  multiple_live_subscriptions : FindingCode

-- The description is determined by the code; the examples are keys, of users for the last code.
pub record Finding : Type 0 where
  pub code : FindingCode
  pub grants_access : Bool
  pub count : ℕ
  pub examples : List ℕ

abbrev pub finding_examples : ℕ
finding_examples = 5

-- `..._lt=now` of a nullable column.
abbrev pub before : Option ℕ → ℕ → Bool
before none now = false
before (some at) now = ltb at now

-- The `Q` of each category.
abbrev pub condition : ℕ → ℕ → FindingCode → SubscriptionStatus → Subscription → Bool
condition grace_days now active_past_period active s = ltb s.current_period_end now
condition grace_days now trialing_past_end trialing s = before s.trial_end now
condition grace_days now past_due_beyond_grace past_due s =
    ltb s.current_period_end (now - days grace_days)
condition grace_days now canceled_past_period canceled s = ltb s.current_period_end now
condition grace_days now _ _ s = false

abbrev pub matching : ℕ → ℕ → FindingCode → Subscription → Bool
matching grace_days now code s = condition grace_days now code s.status s

abbrev pub grants : FindingCode → Bool
grants active_past_period = true
grants multiple_live_subscriptions = true
grants trialing_past_end = false
grants past_due_beyond_grace = false
grants canceled_past_period = false

abbrev pub categories : List FindingCode
categories =
    active_past_period ∷ trialing_past_end ∷ past_due_beyond_grace ∷ canceled_past_period ∷ []

abbrev pub finding_of : ℕ → ℕ → Db → FindingCode → Finding
finding_of grace_days now db code =
    let rows = filter_by (matching grace_days now code) db.subscriptions in
    record {
      code = code;
      grants_access = grants code;
      count = length rows;
      examples = take_first finding_examples (sort_by leb (map (λ s. s.pk) rows));
    }

abbrev pub found : ℕ → ℕ → Db → List FindingCode → List Finding
found grace_days now db [] = []
found grace_days now db (code ∷ codes) =
    let rest = found grace_days now db codes in
    let f = finding_of grace_days now db code in if f.count == 0 then rest else f ∷ rest

-- The users with more than one live row. The query has no order: here it is that of the table.
abbrev pub duplicated : List Subscription → List ℕ
duplicated [] = []
duplicated (s ∷ rows) =
    let rest = duplicated rows in
    if is_live s.status && count_by (λ r. r.user == s.user && is_live r.status) rows == 1
    then s.user ∷ rest
    else rest

abbrev pub duplicates : Db → List Finding
duplicates db =
    let users = duplicated db.subscriptions in
    if length users == 0
    then []
    else record {
      code = multiple_live_subscriptions;
      grants_access = true;
      count = length users;
      examples = take_first finding_examples users;
    }
      ∷ []

unfoldable pub reconciliation_findings : ℕ → ℕ → Db → List Finding
unfolding days
reconciliation_findings grace_days now db = found grace_days now db categories ++ duplicates db

-- `alert_on_entitlement_drift` of backend/apps/entitlements/tasks.py: the mail that it queues, to
-- OPERATIONS_ALERT_EMAIL.
unfoldable pub alert_on_entitlement_drift : ℕ → ℕ → Text → Db → Option (Text × List Finding)
unfolding reconciliation_findings
alert_on_entitlement_drift grace_days now recipient db =
    let findings = reconciliation_findings grace_days now db in
    if length findings == 0
    then none
    else if not (is_nonempty recipient)
    then none
    else some (recipient, findings)

pub record EventExport : Type 0 where
  pub event : EventType
  pub from_status : Option SubscriptionStatus
  pub to_status : SubscriptionStatus

pub record SubscriptionExport : Type 0 where
  pub status : SubscriptionStatus
  pub current_period_end : ℕ
  pub trial_end : Option ℕ
  pub cancellation_requested : Bool
  pub provider : Text
  pub provider_subscription_id : Option Text
  pub history : List EventExport

pub record GrantExport : Type 0 where
  pub reason : Text
  pub starts_at : ℕ
  pub ends_at : ℕ

pub record BillingExport : Type 0 where
  pub subscriptions : List SubscriptionExport
  pub manual_access_grants : List GrantExport

abbrev pub export_event : SubscriptionEvent → EventExport
export_event e = record {
  event = e.event_type;
  from_status = e.from_status;
  to_status = e.to_status;
}

abbrev pub export_subscription : Db → Subscription → SubscriptionExport
export_subscription db s = record {
  status = s.status;
  current_period_end = s.current_period_end;
  trial_end = s.trial_end;
  cancellation_requested = s.cancel_at_period_end;
  provider = s.provider;
  provider_subscription_id = s.provider_subscription_id;
  history = map export_event (filter_by (λ e. e.subscription == s.pk) db.events);
}

abbrev pub export_grant : AccessOverride → GrantExport
export_grant o = record { reason = o.reason; starts_at = o.starts_at; ends_at = o.ends_at }

abbrev pub oldest_first : {A : Type 0} → List A → List A
oldest_first [] = []
oldest_first (x ∷ xs) = oldest_first xs ++ (x ∷ [])

-- The dates of the events are not columns of the model.
unfoldable pub personal_billing_data : ℕ → Db → BillingExport
personal_billing_data user db = record {
  subscriptions =
      map (export_subscription db)
        (oldest_first (filter_by (λ s. s.user == user) db.subscriptions));
  manual_access_grants =
      map export_grant (
        sort_by (λ a b. leb a.starts_at b.starts_at)
          (filter_by (λ o. o.user == user) db.overrides));
}
