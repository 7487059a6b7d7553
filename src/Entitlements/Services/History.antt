-- ===== src/Entitlements/Services/History.antt =====
-- The event log of backend/apps/entitlements/services.py, and what it says of the rows.
use e_platform.Prelude.{
  ℕ, ◌≡◌, ◌⊎◌, refl, true, false, Option, none, some, List, [], ◌∷◌, ◌==◌, arith, inl, inr,
  Bool-cases, Option-cases, subst, sym, ◌∙◌,
}
use e_platform.Prelude.Rows.{first_by}
use e_platform.Prelude.Members.{In}
use e_platform.Prelude.Result.{ok, err}
use e_platform.Entitlements.Model.{
  SubscriptionStatus, Subscription, SubscriptionEvent, EventType, Db, expired, expired_event,
}
use e_platform.Entitlements.Provider.{ProviderSubscription}
use e_platform.Entitlements.Services.{
  transition_error, allowed_transition, write_snapshot, write_expired, event_for, named_event,
  kept_trial_end, log_event, apply, expire,
}
use e_platform.Entitlements.Services.Table.{
  IsConsistent, IsSafeWrite, written-rows, written-IsConsistent, saved, save_safe, transition_live,
  snapshot-IsSafeWrite, expired-IsSafeWrite,
}

-- The newest event of a subscription.
abbrev pub latest : ℕ → List SubscriptionEvent → Option SubscriptionEvent
latest pk = first_by (λ e. e.subscription == pk)

abbrev pub left_in : Option SubscriptionEvent → Option SubscriptionStatus
left_in none = none
left_in (some e) = some e.to_status

-- A move that the table allows, or a beginning.
abbrev pub IsMove : Option SubscriptionStatus → SubscriptionStatus → Type 0
IsMove none to = Unit
IsMove (some from) to = allowed_transition from to ≡ true

-- Each event leaves from where the event before it, of the same subscription, arrived, by a legal
-- move.
abbrev pub Chained : List SubscriptionEvent → Type 0
Chained [] = Unit
Chained (e ∷ es) =
    (e.from_status ≡ left_in (latest e.subscription es))
    × IsMove e.from_status e.to_status
    × Chained es

pub record IsSound (db : Db) : Type 0 where
  pub consistent : IsConsistent db.subscriptions
  pub explained :
      (s : Subscription) → In s db.subscriptions → left_in (latest s.pk db.events) ≡ some s.status
  pub chained : Chained db.events

module _ (db : Db) (sound : IsSound db) (s : Subscription) (m : In s db.subscriptions) where
  module _ (columns : Subscription → Subscription) (w : IsSafeWrite columns s)
      (e : SubscriptionEvent) where
    -- A legal move that is written and recorded keeps the store sound.
    pub move-IsSound :
        e.subscription ≡ s.pk
        → e.from_status ≡ some s.status
        → e.to_status ≡ (columns s).status
        → allowed_transition s.status (columns s).status ≡ true
        → IsSound (log_event e (saved db s columns))
    move-IsSound at from to legal = record {
      consistent = written-IsConsistent columns db.subscriptions sound.consistent s m w;
      explained = λ r k. elim (written-rows columns db.subscriptions sound.consistent s m w r k) [
        | inl new ↦
            subst (λ x. left_in (latest x.pk (e ∷ db.events)) ≡ some x.status) (sym new)
              (ground (arith, w.same_pk))
        | inr (old, other) ↦ ground (arith, sound.explained r old, other)
      ];
      chained = (from ∙ sym (rw at (sound.explained s m)), rw (from, to) legal, sound.chained);
    }

named_event_total :
    (event_type : Option EventType) (a b : SubscriptionStatus)
    → allowed_transition a b ≡ true
    → (e : EventType) × (named_event event_type b ≡ some e)
named_event_total (some e) a b h = (e, refl)
named_event_total none a b h = elim (Option-cases (event_for b)) [
  | inl missing ↦ absurd (ground (arith, transition_live a b h))
  | inr (e, found) ↦ (e, found)
]

-- The event that `_apply` records.
abbrev pub move_event : Subscription → ProviderSubscription → EventType → SubscriptionEvent
move_event s report event = record {
  subscription = s.pk;
  event_type = event;
  from_status = some s.status;
  to_status = report.status;
  provider_payload = report.raw;
}

-- `_apply` on a current row of a store that satisfies the constraints: an illegal move is refused
-- and writes nothing; a legal one goes through, with no database error, writes the snapshot's
-- columns to that row alone, and records one event.
pub apply_outcome :
    (db : Db) (s : Subscription) (report : ProviderSubscription) (event_type : Option EventType)
    → IsConsistent db.subscriptions
    → In s db.subscriptions
    → ((allowed_transition s.status report.status ≡ false)
        × (apply s report event_type db ≡ err transition_error))
      ⊎ ((allowed_transition s.status report.status ≡ true)
          × ((event : EventType) × (named_event event_type report.status ≡ some event)
              × (apply s report event_type db
                  ≡ ok (
                    write_snapshot report (kept_trial_end report s) s,
                    log_event
                        (move_event s report event)
                        (saved db s (write_snapshot report (kept_trial_end report s))),
                  ))))
unfolding apply
apply_outcome db s report event_type c m =
    elim (Bool-cases (allowed_transition s.status report.status)) [
      | inl legal ↦
          let (event, named) = named_event_total event_type s.status report.status legal in
          inr (
            legal,
            (
              event,
              named,
              rw legal (
                  rw
                    (save_safe db c s m _
                      (snapshot-IsSafeWrite s report (kept_trial_end report s) legal))
                    (rw named)),
            ),
          )
      | inr illegal ↦ inl (illegal, rw illegal)
    ]

-- The event that `expire` records.
abbrev pub expiry_event : Subscription → SubscriptionEvent
expiry_event s = record {
  subscription = s.pk;
  event_type = expired_event;
  from_status = some s.status;
  to_status = expired;
  provider_payload = none;
}

pub expire_legal :
    (db : Db) (s : Subscription)
    → IsConsistent db.subscriptions
    → In s db.subscriptions
    → allowed_transition s.status expired ≡ true
    → expire s db ≡ ok (write_expired s, log_event (expiry_event s) (saved db s write_expired))
unfolding expire
expire_legal db s c m legal =
    rw legal (rw (save_safe db c s m write_expired (expired-IsSafeWrite s)))
