-- ===== src/Examples/Access.antt =====
-- Access of an account that did not pay.
use e_platform.Prelude.{refl, ◌≡◌, ◌≤◌, ◌↔◌, false, none, some, [], ◌∷◌}
use e_platform.Prelude.Text.{codes}
use e_platform.Prelude.Members.{In}
use e_platform.Accounts.{account, is_platform_administrator}
use e_platform.Entitlements.Model.{Subscription, past_due, Db, days}
use e_platform.Entitlements.Resolver.{
  AccessDecision, deny, grace_period_ended, update_payment, resolve_access, resolve_account_access,
  decide_for,
}
use e_platform.Entitlements.Resolver.Spec.{
  Entitled, Allows, resolve_access-Entitled, resolve_access-total,
}
use e_platform.Entitlements.Resolver.Refusal.{Explains, refusal_most_informative, rank}
use e_platform.Examples.People.{learner, lesson}

abbrev unpaid : Subscription
unpaid = record {
  pk = 11;
  user = 1;
  status = past_due;
  current_period_end = 100;
  trial_end = none;
  cancel_at_period_end = false;
  provider = codes "fake";
  provider_subscription_id = some (codes "f");
}

abbrev store : Db
store = record { subscriptions = unpaid ∷ []; events = []; overrides = []; audit = [] }

resolve_access-Entitled_example :
    Allows (resolve_access 7 store 200 200 (account learner) lesson)
    ↔ Entitled 7 store 200 200 lesson (account learner)
resolve_access-Entitled_example = resolve_access-Entitled 7 store 200 200 (account learner) lesson

resolve_access-total_example :
    (d : AccessDecision) × (resolve_access 7 store 200 200 (account learner) lesson ≡ some d)
resolve_access-total_example = resolve_access-total 7 store 200 200 (account learner) lesson

refused :
    resolve_account_access 0 store 200 200 (account learner) (some lesson)
    ≡ some (deny grace_period_ended update_payment)
unfolding resolve_account_access days is_platform_administrator
refused = refl

refusal_most_informative_example :
    Explains 0 store 200 learner (some lesson) (deny grace_period_ended update_payment)
    × ((s : Subscription)
        → In s store.subscriptions
        → s.user ≡ learner.pk
        → rank (decide_for 0 s (some lesson) 200) ≤ rank (deny grace_period_ended update_payment))
refusal_most_informative_example =
    refusal_most_informative 0 store 200 200 learner (some lesson)
      (deny grace_period_ended update_payment) refused refl
