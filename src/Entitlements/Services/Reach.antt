-- ===== src/Entitlements/Services/Reach.antt =====
-- Every store that the services of backend/apps/entitlements/services.py can reach, with any
-- billing provider: the transactions run one after another, and each acts on the row that it read.
use e_platform.Prelude.{
  ℕ, ◌≡◌, refl, Bool, true, false, Option, none, some, [], ◌∷◌, ◌==◌, arith, inl, inr, Bool-cases,
  ◌&&◌, subst, sym, ◌∙◌, ◌<◌,
}
use e_platform.Prelude.Rows.{exists_by}
use e_platform.Prelude.Members.{In, In-exists}
use e_platform.Prelude.Result.{ok}
use e_platform.Prelude.Text.{Text, is_nonempty}
use e_platform.Accounts.{User}
use e_platform.Core.Audit.{Request}
use e_platform.Entitlements.Model.{
  Subscription, SubscriptionEvent, EventType, AccessOverride, Db, admits, expired, is_live,
  admits_override,
}
use e_platform.Entitlements.Provider.{ProviderSubscription, BillingProvider}
use e_platform.Entitlements.Services.{
  allowed_transition, write_snapshot, write_expired, kept_trial_end, log_event, started_row,
  started_event, apply, start_subscription, renew, fail_payment, cancel, expire,
  grant_access_override, save_subscription,
}
use e_platform.Entitlements.Services.Access.{grant-tables}
use e_platform.Entitlements.Services.Table.{
  IsConsistent, insert-IsConsistent, saved, snapshot-IsSafeWrite, expired-IsSafeWrite,
}
use e_platform.Entitlements.Services.History.{
  IsSound, latest, left_in, Chained, move-IsSound, move_event, apply_outcome, expire_legal,
  expiry_event,
}

-- A primary key that no row and no event has: a new UUID.
pub record IsFresh (pk : ℕ) (db : Db) : Type 0 where
  pub no_row : exists_by (λ s. s.pk == pk) db.subscriptions ≡ false
  pub no_event : latest pk db.events ≡ none

-- One committed transaction.
pub data Step (db : Db) : Db → Type 0 where
  started :
      (provider : BillingProvider) (pk now : ℕ) (user : User) (trial_days : Option ℕ)
      (s : Subscription) {db' : Db}
      → IsFresh pk db
      → start_subscription provider pk now user trial_days db ≡ ok (s, db')
      → Step db db'
  renewal :
      (provider : BillingProvider) (now : ℕ) (s s' : Subscription) {db' : Db}
      → In s db.subscriptions
      → renew provider now s db ≡ ok (s', db')
      → Step db db'
  failure :
      (provider : BillingProvider) (now : ℕ) (s s' : Subscription) {db' : Db}
      → In s db.subscriptions
      → fail_payment provider now s db ≡ ok (s', db')
      → Step db db'
  cancellation :
      (provider : BillingProvider) (now : ℕ) (immediately : Bool) (s s' : Subscription) {db' : Db}
      → In s db.subscriptions
      → cancel provider now immediately s db ≡ ok (s', db')
      → Step db db'
  expiry :
      (s s' : Subscription) {db' : Db}
      → In s db.subscriptions
      → expire s db ≡ ok (s', db')
      → Step db db'
  grant :
      (pk now : ℕ) (actor user : User) (n : ℕ) (reason : Text) (request : Option Request)
      (o : AccessOverride) {db' : Db}
      → grant_access_override pk now actor user n reason request db ≡ ok (o, db')
      → Step db db'

pub data Reach : Db → Type 0 where
  empty : Reach (record { subscriptions = []; events = []; overrides = []; audit = [] })
  next : {db db' : Db} → Reach db → Step db db' → Reach db'

module _ (db : Db) (sound : IsSound db) (s : Subscription) (m : In s db.subscriptions) where
  apply-IsSound :
      (report : ProviderSubscription) (event_type : Option EventType) {s' : Subscription} {db' : Db}
      → apply s report event_type db ≡ ok (s', db')
      → IsSound db'
  apply-IsSound report event_type {s'} {db'} h =
      elim (apply_outcome db s report event_type sound.consistent m) [
        | inl (_, e) ↦ absurd (ground arith)
        | inr (legal, (event, named, e)) ↦
            let columns = write_snapshot report (kept_trial_end report s) in
            let same : log_event (move_event s report event) (saved db s columns) ≡ db' = cc in
            subst IsSound same (
              move-IsSound db sound s m columns
                (snapshot-IsSafeWrite s report (kept_trial_end report s) legal)
                (move_event s report event) refl refl refl legal)
      ]

  expire-IsSound : {s' : Subscription} {db' : Db} → expire s db ≡ ok (s', db') → IsSound db'
  unfolding expire
  expire-IsSound {s'} {db'} h = elim (Bool-cases (allowed_transition s.status expired)) [
    | inl legal ↦
        let e = expire_legal db s sound.consistent m legal in
        let same : log_event (expiry_event s) (saved db s write_expired) ≡ db' =
          unfold expire in cc in
        subst IsSound same (
          move-IsSound db sound s m write_expired (expired-IsSafeWrite s) (expiry_event s) refl refl
            refl legal)
    | inr illegal ↦ absurd (ground arith)
  ]

-- A new row and its first event keep the store sound.
start-IsSound :
    (db : Db) (s : Subscription) (e : SubscriptionEvent)
    → IsSound db
    → IsFresh s.pk db
    → admits s db.subscriptions ≡ true
    → e.subscription ≡ s.pk
    → e.from_status ≡ none
    → e.to_status ≡ s.status
    → IsSound (log_event e (record db { subscriptions = s ∷ db.subscriptions }))
start-IsSound db s e sound fresh admitted at from to = record {
  consistent = insert-IsConsistent db.subscriptions sound.consistent s admitted fresh.no_row;
  explained = explain;
  chained = (from ∙ sym (rw (at, fresh.no_event)), rw from tt, sound.chained);
}
  where
    explain :
        (r : Subscription)
        → In r (s ∷ db.subscriptions)
        → left_in (latest r.pk (e ∷ db.events)) ≡ some r.status
    explain r (inl same) = rw same (ground arith)
    explain r (inr k) = ground (
      arith,
      sound.explained r k,
      In-exists (λ t. t.pk == s.pk) r db.subscriptions k,
      fresh.no_row,
    )

start_subscription-IsSound :
    (provider : BillingProvider) (pk now : ℕ) (user : User) (trial_days : Option ℕ) (db : Db)
    (s : Subscription) {db' : Db}
    → IsSound db
    → IsFresh pk db
    → start_subscription provider pk now user trial_days db ≡ ok (s, db')
    → IsSound db'
unfolding start_subscription
start_subscription-IsSound provider pk now user trial_days db s {db'} sound fresh h =
    let report = provider.start_subscription now user.pk trial_days in
    let row : Subscription = started_row pk user report in
    elim (Bool-cases (exists_by (λ t. t.user == user.pk && is_live t.status) db.subscriptions)) [
      | inl taken ↦ absurd (ground arith)
      | inr free ↦ elim (Bool-cases (admits row db.subscriptions)) [
        | inl admitted ↦
            let same : log_event (started_event pk trial_days report)
                  (record db { subscriptions = row ∷ db.subscriptions })
                ≡ db' =
              ground arith in
            subst IsSound same (
              start-IsSound db row (started_event pk trial_days report) sound fresh admitted refl
                refl refl)
        | inr clash ↦ absurd (ground arith)
      ]
    ]

-- The invariant is about two of the tables.
IsSound-tables :
    (a b : Db) → a.subscriptions ≡ b.subscriptions → a.events ≡ b.events → IsSound a → IsSound b
IsSound-tables a b rows events h = record {
  consistent = subst IsConsistent rows h.consistent;
  explained = λ s m.
      subst (λ es. left_in (latest s.pk es) ≡ some s.status) events
        (h.explained s (subst (In s) (sym rows) m));
  chained = subst Chained events h.chained;
}

-- The constraints of `AccessOverride.Meta`, of every row.
pub OverridesHold : Db → Type 0
OverridesHold db =
    (o : AccessOverride)
    → In o db.overrides
    → (o.starts_at < o.ends_at) × (is_nonempty o.reason ≡ true)

grant-OverridesHold :
    (pk now : ℕ) (actor user : User) (n : ℕ) (reason : Text) (request : Option Request) (db : Db)
    (o : AccessOverride) {db' : Db}
    → grant_access_override pk now actor user n reason request db ≡ ok (o, db')
    → OverridesHold db
    → OverridesHold db'
unfolding grant_access_override admits_override OverridesHold
grant-OverridesHold pk now actor user n reason request db o {db'} h held =
    let rows : db'.overrides ≡ o ∷ db.overrides = ground arith in
    let span : o.starts_at < o.ends_at = ground arith in
    let words : is_nonempty o.reason ≡ true = ground arith in
    λ r m. elim (subst (In r) rows m) [ inl e ↦ rw e (span, words) | inr k ↦ held r k ]

same-OverridesHold :
    (db db' : Db) → db'.overrides ≡ db.overrides → OverridesHold db → OverridesHold db'
unfolding OverridesHold
same-OverridesHold db db' same held o m = held o (subst (In o) same m)

apply-overrides :
    (s : Subscription) (report : ProviderSubscription) (event_type : Option EventType) (db : Db)
    {s' : Subscription} {db' : Db}
    → apply s report event_type db ≡ ok (s', db')
    → db'.overrides ≡ db.overrides
unfolding apply save_subscription
apply-overrides s report event_type db {s'} {db'} h = ground arith

Step-OverridesHold : {db db' : Db} → OverridesHold db → Step db db' → OverridesHold db'
unfolding renew fail_payment cancel start_subscription expire save_subscription
Step-OverridesHold {db} {db'} held (started provider pk now user trial_days s fresh h) =
    same-OverridesHold db db' (ground arith) held
Step-OverridesHold {db} {db'} held (renewal provider now s s' m h) =
    same-OverridesHold db db' (apply-overrides s _ _ db h) held
Step-OverridesHold {db} {db'} held (failure provider now s s' m h) =
    same-OverridesHold db db' (apply-overrides s _ _ db h) held
Step-OverridesHold {db} {db'} held (cancellation provider now immediately s s' m h) =
    same-OverridesHold db db' (apply-overrides s _ _ db h) held
Step-OverridesHold {db} {db'} held (expiry s s' m h) = same-OverridesHold db db' (ground arith) held
Step-OverridesHold {db} {db'} held (grant pk now actor user n reason request o h) =
    grant-OverridesHold pk now actor user n reason request db o h held

Step-IsSound : {db db' : Db} → IsSound db → Step db db' → IsSound db'
unfolding renew fail_payment cancel
Step-IsSound {db} sound (started provider pk now user trial_days s fresh h) =
    start_subscription-IsSound provider pk now user trial_days db s sound fresh h
Step-IsSound {db} sound (renewal provider now s s' m h) = apply-IsSound db sound s m _ _ h
Step-IsSound {db} sound (failure provider now s s' m h) = apply-IsSound db sound s m _ _ h
Step-IsSound {db} sound (cancellation provider now immediately s s' m h) =
    apply-IsSound db sound s m _ _ h
Step-IsSound {db} sound (expiry s s' m h) = expire-IsSound db sound s m h
Step-IsSound {db} sound (grant pk now actor user n reason request o h) =
    let (rows, events) = grant-tables pk now actor user n reason request db o h in
    IsSound-tables db _ rows events sound

reached-IsSound : {db : Db} → Reach db → IsSound db
reached-IsSound empty = record {
  consistent = record { admitted = λ s m. absurd m; keyed = λ s t m k e. absurd m };
  explained = λ s m. absurd m;
  chained = tt;
}
reached-IsSound (next r step) = Step-IsSound (reached-IsSound r) step

reached-OverridesHold : {db : Db} → Reach db → OverridesHold db
unfolding OverridesHold
reached-OverridesHold empty = λ o m. absurd m
reached-OverridesHold (next r step) = Step-OverridesHold (reached-OverridesHold r) step

-- In every store that the services reach, with any provider: the constraints of the subscription
-- table and of the override table hold, the newest event of a subscription arrived at the status of
-- its row, and the events of a subscription form a chain of allowed moves from its beginning.
pub Reach-IsSound : {db : Db} → Reach db → IsSound db × OverridesHold db
Reach-IsSound r = (reached-IsSound r, reached-OverridesHold r)
