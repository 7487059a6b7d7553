-- ===== src/Entitlements/Resolver.antt =====
-- backend/apps/entitlements/resolver.py, with the two selectors that it reads through
-- (backend/apps/entitlements/selectors.py). `now` and `override_now` are the two readings of the
-- clock: the resolver's own, and the one of `active_override_exists`.
pub mod Spec
pub mod Refusal
use e_platform.Prelude.{
  ℕ, ◌+◌, Bool, true, false, not, ◌&&◌, ◌||◌, Option, none, some, List, [], ◌∷◌, map, ltb, leb,
  ◌==◌, if◌then◌else◌,
}
use e_platform.Prelude.Rows.{filter_by, exists_by, first_by}
use e_platform.Accounts.{User, Visitor, absent, anonymous, account, is_platform_administrator}
use e_platform.Entitlements.Model.{
  SubscriptionStatus, trialing, active, past_due, canceled, expired, Subscription, AccessOverride,
  Db, days,
}

pub data Reason : Type 0 where
  preview staff course_owner override subscription_active trial : Reason
  grace_period canceled_but_paid : Reason
  login_required no_subscription subscription_expired trial_expired : Reason
  trial_scope grace_period_ended : Reason

pub data Cta : Type 0 where
  login subscribe update_payment : Cta

pub record AccessDecision : Type 0 where
  pub allowed : Bool
  pub reason : Reason
  pub cta : Option Cta

-- The `_ALLOW_*` and `_DENY_*` constants.
abbrev pub allow : Reason → AccessDecision
allow r = record { allowed = true; reason = r; cta = none }

abbrev pub deny : Reason → Cta → AccessDecision
deny r c = record { allowed = false; reason = r; cta = some c }

-- `_DENIAL_RANK`; `none` is a `KeyError`.
unfoldable pub denial_rank : Reason → Option ℕ
denial_rank no_subscription = some 0
denial_rank trial_scope = some 1
denial_rank trial_expired = some 2
denial_rank subscription_expired = some 3
denial_rank grace_period_ended = some 4
denial_rank _ = none

-- A lesson, by what access depends on: `is_preview`, and `course.instructor_id`.
pub record Lesson : Type 0 where
  pub pk : ℕ
  pub course : ℕ
  pub instructor : ℕ
  pub is_preview : Bool

unfoldable pub trial_covers : Subscription → Option Lesson → Bool
trial_covers subscription lesson = true

abbrev pub trial_is_over : Option ℕ → ℕ → Bool
trial_is_over none now = false
trial_is_over (some end_at) now = leb end_at now

-- `_decide_for`, by the row's status; `grace_days` is ENTITLEMENT_GRACE_PERIOD_DAYS.
abbrev pub decide_status :
    SubscriptionStatus → ℕ → Subscription → Option Lesson → ℕ → AccessDecision
decide_status active grace_days s lesson now = allow subscription_active
decide_status trialing grace_days s lesson now =
    if trial_is_over s.trial_end now
    then deny trial_expired subscribe
    else if not (trial_covers s lesson)
    then deny trial_scope subscribe
    else allow trial
decide_status past_due grace_days s lesson now =
    if ltb now (s.current_period_end + days grace_days)
    then allow grace_period
    else deny grace_period_ended update_payment
decide_status canceled grace_days s lesson now =
    if ltb now s.current_period_end
    then allow canceled_but_paid
    else deny subscription_expired subscribe
decide_status expired grace_days s lesson now = deny subscription_expired subscribe

unfoldable pub decide_for : ℕ → Subscription → Option Lesson → ℕ → AccessDecision
unfolding trial_covers
decide_for grace_days s lesson now = decide_status s.status grace_days s lesson now

-- `subscriptions_bearing_on_access`
unfoldable pub subscriptions_bearing_on_access : Db → ℕ → List Subscription
subscriptions_bearing_on_access db user = filter_by (λ s. s.user == user) db.subscriptions

-- `active_override_exists`
abbrev pub covers : ℕ → ℕ → AccessOverride → Bool
covers user now o = o.user == user && leb o.starts_at now && ltb now o.ends_at

unfoldable pub active_override_exists : Db → ℕ → ℕ → Bool
active_override_exists db user now = exists_by (covers user now) db.overrides

-- `max(decisions, key=...)`: the first of the greatest. The key is looked up for every decision.
unfoldable pub most_informative : AccessDecision → List AccessDecision → Option AccessDecision
most_informative best [] = elim (denial_rank best.reason) [ none ↦ none | some n ↦ some best ]
most_informative best (d ∷ ds) = elim (denial_rank best.reason) [
  | none ↦ none
  | some n ↦ elim (denial_rank d.reason) [
    | none ↦ none
    | some m ↦ most_informative (if ltb n m then d else best) ds
  ]
]

abbrev pub surface : List AccessDecision → Option AccessDecision
surface [] = some (deny no_subscription subscribe)
surface (d ∷ ds) = most_informative d ds

-- What the subscriptions decide: the first that allows, or the most informative refusal.
unfoldable pub settle : List AccessDecision → Option AccessDecision
unfolding most_informative denial_rank
settle decisions = elim (first_by (λ d. d.allowed) decisions) [
  | some d ↦ some d
  | none ↦ surface decisions
]

-- `none` is a `KeyError` of the ranking.
unfoldable pub resolve_account_access :
    ℕ → Db → ℕ → ℕ → Visitor → Option Lesson → Option AccessDecision
unfolding settle active_override_exists subscriptions_bearing_on_access decide_for
resolve_account_access grace_days db now override_now absent lesson =
    some (deny login_required login)
resolve_account_access grace_days db now override_now anonymous lesson =
    some (deny login_required login)
resolve_account_access grace_days db now override_now (account user) lesson =
    if is_platform_administrator user
    then some (allow staff)
    else if active_override_exists db user.pk override_now
    then some (allow override)
    else settle
        (map (λ s. decide_for grace_days s lesson now) (subscriptions_bearing_on_access db user.pk))

abbrev pub owns : Visitor → Lesson → Bool
owns absent lesson = false
owns anonymous lesson = false
owns (account user) lesson = lesson.instructor == user.pk

unfoldable pub resolve_access : ℕ → Db → ℕ → ℕ → Visitor → Lesson → Option AccessDecision
unfolding resolve_account_access
resolve_access grace_days db now override_now visitor lesson =
    if lesson.is_preview
    then some (allow preview)
    else if owns visitor lesson
    then some (allow course_owner)
    else resolve_account_access grace_days db now override_now visitor (some lesson)
