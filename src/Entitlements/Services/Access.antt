-- ===== src/Entitlements/Services/Access.antt =====
-- What the writes of backend/apps/entitlements/services.py do to the answers of the resolver.
use e_platform.Prelude.{
  ℕ, ◌+◌, ◌≤◌, ◌<◌, ◌≡◌, ◌⊎◌, ◌↔◌, refl, Bool, true, false, Option, none, some, ◌∷◌, arith, inl,
  inr, subst, sym, ◌≢◌, Bool-cases, leb, ltb,
}
use e_platform.Prelude.Members.{In}
use e_platform.Prelude.Result.{ok, err, is_ok}
use e_platform.Prelude.Text.{Text, is_nonempty, strip}
use e_platform.Accounts.{User, account}
use e_platform.Core.Audit.{Request, record_admin_action}
use e_platform.Entitlements.Model.{
  Subscription, AccessOverride, Db, active, trialing, cancellation_requested, canceled, expired,
  is_live, days, admits_override,
}
use e_platform.Entitlements.Provider.{
  BillingProvider, fake_provider, fake_cancel, fake_fail, period,
}
use e_platform.Entitlements.Resolver.{
  Lesson, decide_for, resolve_account_access, covers, active_override_exists,
  subscriptions_bearing_on_access,
}
use e_platform.Entitlements.Resolver.Spec.{by_override, Allows, Member-account}
use e_platform.Entitlements.Services.{
  transition_error, allowed_transition, apply, cancel, renew, fail_payment, expire,
  grant_access_override, override_max_days,
}
use e_platform.Entitlements.Services.Table.{IsConsistent}
use e_platform.Entitlements.Services.History.{apply_outcome}

-- The row that a grant leaves at the head of the table, and its window.
granted_row :
    (pk now : ℕ) (actor user : User) (n : ℕ) (reason : Text) (request : Option Request) (db : Db)
    (o : AccessOverride) {db' : Db}
    → grant_access_override pk now actor user n reason request db ≡ ok (o, db')
    → (db'.overrides ≡ o ∷ db.overrides)
      × (o.user ≡ user.pk)
      × (o.starts_at ≡ now)
      × (o.ends_at ≡ now + days n)
      × (n ≤ override_max_days)
      × (1 ≤ n)
unfolding grant_access_override
granted_row pk now actor user n reason request db o {db'} h = ground arith

pub grant-tables :
    (pk now : ℕ) (actor user : User) (n : ℕ) (reason : Text) (request : Option Request) (db : Db)
    (o : AccessOverride) {db' : Db}
    → grant_access_override pk now actor user n reason request db ≡ ok (o, db')
    → (db.subscriptions ≡ db'.subscriptions) × (db.events ≡ db'.events)
unfolding grant_access_override
grant-tables pk now actor user n reason request db o {db'} h = ground arith

-- A grant adds no subscription, so an override that does not cover the account now changes nothing.
granted_beside :
    (pk now : ℕ) (actor user : User) (n : ℕ) (reason : Text) (request : Option Request) (db : Db)
    (o : AccessOverride) {db' : Db} (grace_days t override_t : ℕ) (lesson : Option Lesson)
    (visitor : User)
    → grant_access_override pk now actor user n reason request db ≡ ok (o, db')
    → covers visitor.pk override_t o ≡ false
    → resolve_account_access grace_days db' t override_t (account visitor) lesson
      ≡ resolve_account_access grace_days db t override_t (account visitor) lesson
unfolding resolve_account_access active_override_exists subscriptions_bearing_on_access
granted_beside pk now actor user n reason request db o {db'} g t ot lesson visitor h miss =
    let rows = (granted_row pk now actor user n reason request db o h).0 in
    let same : db.subscriptions ≡ db'.subscriptions =
      (grant-tables pk now actor user n reason request db o h).0 in
    rw (rows, miss, sym same) refl

-- A successful grant opens gated content to its account at every moment from the grant until that
-- many days later, whatever the account's subscriptions are. At every other moment, and for every
-- other account at any moment, the answer is what it was without the grant.
pub grant_opens :
    (pk now : ℕ) (actor user : User) (n : ℕ) (reason : Text) (request : Option Request) (db : Db)
    (o : AccessOverride) {db' : Db} (grace_days t override_t : ℕ) (lesson : Option Lesson)
    → grant_access_override pk now actor user n reason request db ≡ ok (o, db')
    → (((now ≤ override_t)
          × (override_t < now + days n)
          × Allows (resolve_account_access grace_days db' t override_t (account user) lesson))
        ⊎ (((override_t < now) ⊎ (now + days n ≤ override_t))
            × (resolve_account_access grace_days db' t override_t (account user) lesson
                ≡ resolve_account_access grace_days db t override_t (account user) lesson)))
      × ((other : User)
          → other.pk ≢ user.pk
          → resolve_account_access grace_days db' t override_t (account other) lesson
            ≡ resolve_account_access grace_days db t override_t (account other) lesson)
grant_opens pk now actor user n reason request db o {db'} g t ot lesson h =
    let (rows, who, from, until, most, least) =
      granted_row pk now actor user n reason request db o h in
    (
      elim (Bool-cases (leb now ot)) [
        | inr early ↦ inr (
          inl (ground arith),
          granted_beside pk now actor user n reason request db o g t ot lesson user h
              (ground arith),
        )
        | inl begun ↦ elim (Bool-cases (ltb ot (now + days n))) [
          | inr over ↦ inr (
            inr (ground arith),
            granted_beside pk now actor user n reason request db o g t ot lesson user h
                (ground arith),
          )
          | inl open_still ↦
              let after : now ≤ ot = ground arith in
              let before : ot < now + days n = ground arith in
              inl (
                after,
                before,
                Member-account g db' t ot user lesson (
                    by_override o (subst (In o) (sym rows) (inl refl)) who (omega arith)
                      (omega arith)),
              )
        ]
      ],
      λ other differs.
          granted_beside pk now actor user n reason request db o g t ot lesson other h
            (ground arith),
    )

-- A grant is given exactly when the days are in range, the reason says something and the actor has
-- an address to record; every other call is refused.
pub grant_iff :
    (pk now : ℕ) (actor user : User) (n : ℕ) (reason : Text) (request : Option Request) (db : Db)
    → (is_ok (grant_access_override pk now actor user n reason request db) ≡ true) ↔ (
        (1 ≤ n)
        × (n ≤ override_max_days)
        × (is_nonempty (strip reason) ≡ true)
        × (is_nonempty actor.email ≡ true))
unfolding grant_access_override record_admin_action days admits_override
grant_iff pk now actor user n reason request db = (λ h. ground arith, λ h. ground arith)

-- Every write is refused to an expired subscription: a provider cannot bring it back.
expired_final :
    (provider : BillingProvider) (now : ℕ) (immediately : Bool) (s : Subscription) (db : Db)
    → s.status ≡ expired
    → (renew provider now s db ≡ err transition_error)
      × (fail_payment provider now s db ≡ err transition_error)
      × (cancel provider now immediately s db ≡ err transition_error)
      × (expire s db ≡ err transition_error)
unfolding renew fail_payment cancel expire apply allowed_transition
expired_final provider now immediately s db h = ground arith

-- Cancelling at the end of the period through the fake provider, for a current live row: the row
-- becomes cancelled, and its period ends thirty days after the cancellation whatever its end was.
pub fake_cancel-period :
    (fresh : Text) (now : ℕ) (s : Subscription) (db : Db)
    → IsConsistent db.subscriptions
    → In s db.subscriptions
    → is_live s.status ≡ true
    → (s' : Subscription) × ((db' : Db) × (cancel (fake_provider fresh) now false s db
          ≡ ok (s', db')))
      × (s'.status ≡ canceled)
      × (s'.current_period_end ≡ now + period)
unfolding cancel fake_provider allowed_transition
fake_cancel-period fresh now s db c m live =
    elim (apply_outcome db s (fake_cancel now s.provider_subscription_id false)
      (some cancellation_requested) c m) [
        | inl (illegal, e) ↦ absurd (ground arith)
        | inr (legal, (event, named, e)) ↦ (_, (_, e), refl, refl)
      ]

-- A failed charge reported by the fake provider, for a current row that was paid for or in trial:
-- the period's end does not move, and access lasts exactly until the grace period after it is over.
fake_failure_grace :
    (fresh : Text) (grace_days now t : ℕ) (lesson : Option Lesson) (s : Subscription) (db : Db)
    → IsConsistent db.subscriptions
    → In s db.subscriptions
    → (s.status ≡ active) ⊎ (s.status ≡ trialing)
    → (s' : Subscription) × ((db' : Db) × (fail_payment (fake_provider fresh) now s db
          ≡ ok (s', db')))
      × (((decide_for grace_days s' lesson t).allowed ≡ true)
          ↔ (t < s.current_period_end + days grace_days))
unfolding fail_payment fake_provider allowed_transition decide_for
fake_failure_grace fresh g now t lesson s db c m live =
    elim (apply_outcome db s (fake_fail now s.provider_subscription_id s.current_period_end) none c
      m) [
        | inl (illegal, e) ↦ absurd (ground arith)
        | inr (legal, (event, named, e)) ↦ (_, (_, e), (λ h. ground arith, λ h. ground arith))
      ]
