-- ===== src/Examples/Billing.antt =====
-- A subscription that starts, fails, expires and is cancelled, and an override that is granted.
use e_platform.Prelude.{
  refl, ◌≡◌, ◌≢◌, ◌≤◌, ◌<◌, ◌↔◌, ◌+◌, ◌⊎◌, inl, inr, true, false, none, some, [], ◌∷◌, sym, ◌∙◌,
}
use e_platform.Prelude.Members.{In}
use e_platform.Prelude.Result.{ok, err, is_ok}
use e_platform.Prelude.Text.{Text, codes, is_nonempty, strip, lstrip, is_space, text_eq}
use e_platform.Accounts.{User, account}
use e_platform.Core.Audit.{access_override_granted, user_model, override_details}
use e_platform.Entitlements.Model.{
  Subscription, active, past_due, expired, Db, AccessOverride, EventType, days, admits,
  admits_override,
}
use e_platform.Entitlements.Provider.{fake_provider, fake_renew, period, snapshot}
use e_platform.Entitlements.Resolver.{resolve_account_access}
use e_platform.Entitlements.Resolver.Spec.{Allows}
use e_platform.Entitlements.Services.{
  start_subscription, started_event, log_event, transition_error, grant_access_override,
  override_max_days, allowed_transition, apply, named_event, write_snapshot,
}
use e_platform.Entitlements.Services.Table.{IsConsistent, saved}
use e_platform.Entitlements.Services.History.{IsSound, apply_outcome, move_event}
use e_platform.Entitlements.Services.Reach.{
  Reach, empty, next, started, OverridesHold, Reach-IsSound,
}
use e_platform.Entitlements.Services.Access.{grant_opens, grant_iff}
use e_platform.Examples.People.{learner, manager}

abbrev id : Text
id = codes "f"

abbrev nothing : Db
nothing = record { subscriptions = []; events = []; overrides = []; audit = [] }

abbrev paid : Subscription
paid = record {
  pk = 11;
  user = 1;
  status = active;
  current_period_end = 2592000000000;
  trial_end = none;
  cancel_at_period_end = false;
  provider = codes "fake";
  provider_subscription_id = some id;
}

abbrev store : Db
store = record {
  subscriptions = paid ∷ [];
  events =
      started_event 11 none
        (snapshot 0 (some id) active 2592000000000 none false (codes "subscription.started"))
      ∷ [];
  overrides = [];
  audit = [];
}

starts : start_subscription (fake_provider id) 11 0 learner none nothing ≡ ok (paid, store)
unfolding start_subscription fake_provider period days admits
starts = refl

reached : Reach store
reached = next empty (
    started (fake_provider id) 11 0 learner none paid (record { no_row = refl; no_event = refl })
      starts)

Reach-IsSound_example : IsSound store × OverridesHold store
Reach-IsSound_example = Reach-IsSound reached

-- One row alone is consistent.
alone : (s : Subscription) → admits s (s ∷ []) ≡ true → IsConsistent (s ∷ [])
alone s fine = record { admitted = admitted; keyed = keyed }
  where
    admitted : (t : Subscription) → In t (s ∷ []) → admits t (s ∷ []) ≡ true
    admitted t (inl e) = rw e fine
    admitted t (inr m) = absurd m

    keyed : (t u : Subscription) → In t (s ∷ []) → In u (s ∷ []) → t.pk ≡ u.pk → t ≡ u
    keyed t u (inl e) (inl f) p = e ∙ sym f
    keyed t u (inl e) (inr m) p = absurd m
    keyed t u (inr m) k p = absurd m

paid_alone : IsConsistent (paid ∷ [])
unfolding admits text_eq
paid_alone = alone paid refl

apply_outcome_example :
    ((allowed_transition active active ≡ false)
      × (apply paid (fake_renew 5 (some id)) none store ≡ err transition_error))
    ⊎ ((allowed_transition active active ≡ true)
        × ((event : EventType) × (named_event none active ≡ some event)
            × (apply paid (fake_renew 5 (some id)) none store
                ≡ ok (
                  write_snapshot (fake_renew 5 (some id)) none paid,
                  log_event
                      (move_event paid (fake_renew 5 (some id)) event)
                      (saved store paid (write_snapshot (fake_renew 5 (some id)) none)),
                ))))
apply_outcome_example = apply_outcome store paid (fake_renew 5 (some id)) none paid_alone (inl refl)

abbrev unpaid : Subscription
unpaid = record paid { status = past_due; current_period_end = 5 }

abbrev unpaid_store : Db
unpaid_store = record store { subscriptions = unpaid ∷ [] }

abbrev ended : Subscription
ended = record paid { status = expired }

grant_iff_example :
    (is_ok (grant_access_override 4 0 manager learner 30 (codes " lost card ") none nothing) ≡ true)
    ↔ ((1 ≤ 30)
        × (30 ≤ override_max_days)
        × (is_nonempty (strip (codes " lost card ")) ≡ true)
        × (is_nonempty manager.email ≡ true))
grant_iff_example = grant_iff 4 0 manager learner 30 (codes " lost card ") none nothing

abbrev granted : AccessOverride
granted = record {
  pk = 4;
  user = 1;
  granted_by = 3;
  reason = codes "lost card";
  starts_at = 0;
  ends_at = 2592000000000;
}

abbrev granted_store : Db
granted_store = record nothing {
  overrides = granted ∷ [];
  audit =
      record {
        actor = 3;
        actor_label = manager.email;
        action = access_override_granted;
        target = record { model_name = user_model; pk = 1 };
        reason = codes "lost card";
        details = override_details 30 2592000000000 4;
        ip_address = none;
      }
      ∷ [];
}

grants :
    grant_access_override 4 0 manager learner 30 (codes " lost card ") none nothing
    ≡ ok (granted, granted_store)
unfolding grant_access_override days admits_override strip lstrip is_space
grants = refl

grant_opens_example :
    (((0 ≤ 12)
        × (12 < 0 + days 30)
        × Allows (resolve_account_access 7 granted_store 12 12 (account learner) none))
      ⊎ (((12 < 0) ⊎ (0 + days 30 ≤ 12))
          × (resolve_account_access 7 granted_store 12 12 (account learner) none
              ≡ resolve_account_access 7 nothing 12 12 (account learner) none)))
    × ((other : User)
        → other.pk ≢ 1
        → resolve_account_access 7 granted_store 12 12 (account other) none
          ≡ resolve_account_access 7 nothing 12 12 (account other) none)
grant_opens_example =
    grant_opens 4 0 manager learner 30 (codes " lost card ") none nothing granted 7 12 12 none
      grants
