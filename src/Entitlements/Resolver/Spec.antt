-- ===== src/Entitlements/Resolver/Spec.antt =====
-- Who is entitled, stated with no order of checks, beside backend/apps/entitlements/resolver.py.
use e_platform.Prelude.{
  ℕ, ◌+◌, ◌≤◌, ◌<◌, ◌≡◌, ◌⊎◌, ◌↔◌, inl, inr, refl, true, Option, none, some, map, arith, Bool-cases,
  ◌==◌, ==→eq, subst, List,
}
use e_platform.Prelude.Rows.{first_by}
use e_platform.Prelude.Members.{
  In, In-filter, filter-In, In-map, map-In, exists-In, In-exists, first-none,
}
use e_platform.Accounts.{
  User, Visitor, absent, anonymous, account, is_admin_role, is_platform_administrator,
}
use e_platform.Entitlements.Model.{
  Subscription, AccessOverride, Db, trialing, active, past_due, canceled, days,
}
use e_platform.Entitlements.Resolver.{
  AccessDecision, Lesson, decide_for, settle, covers, active_override_exists,
  subscriptions_bearing_on_access, resolve_account_access, resolve_access, allow, staff, override,
  preview, course_owner, deny, login_required, login,
}
use e_platform.Entitlements.Resolver.Refusal.{settle_total, Settling, grants, refuses}

abbrev IsOpen : Option ℕ → ℕ → Type 0
IsOpen none now = Unit
IsOpen (some end_at) now = now < end_at

-- A subscription that gives access at `now`: a paid one, a trial that is not over, an unpaid one in
-- its grace period, or a cancelled one in the period that was paid for.
pub data Grants (grace_days : ℕ) (now : ℕ) (s : Subscription) : Type 0 where
  paid : s.status ≡ active → Grants grace_days now s
  in_trial : s.status ≡ trialing → IsOpen s.trial_end now → Grants grace_days now s
  in_grace :
      s.status ≡ past_due → now < s.current_period_end + days grace_days → Grants grace_days now s
  still_paid : s.status ≡ canceled → now < s.current_period_end → Grants grace_days now s

-- An account that gated content is open to.
pub data Member (grace_days : ℕ) (db : Db) (now override_now : ℕ) (user : User) : Type 0 where
  by_administration :
      (is_admin_role user.role ≡ true) ⊎ (user.is_superuser ≡ true)
      → Member grace_days db now override_now user
  by_override :
      (o : AccessOverride)
      → In o db.overrides
      → o.user ≡ user.pk
      → o.starts_at ≤ override_now
      → override_now < o.ends_at
      → Member grace_days db now override_now user
  by_subscription :
      (s : Subscription)
      → In s db.subscriptions
      → s.user ≡ user.pk
      → Grants grace_days now s
      → Member grace_days db now override_now user

-- Who may see a lesson.
pub data Entitled (grace_days : ℕ) (db : Db) (now override_now : ℕ) (lesson : Lesson)
    : Visitor → Type 0 where
  by_preview :
      {visitor : Visitor}
      → lesson.is_preview ≡ true
      → Entitled grace_days db now override_now lesson visitor
  by_ownership :
      (user : User)
      → lesson.instructor ≡ user.pk
      → Entitled grace_days db now override_now lesson (account user)
  by_membership :
      (user : User)
      → Member grace_days db now override_now user
      → Entitled grace_days db now override_now lesson (account user)

-- The resolver answers, and it allows.
abbrev pub Allows : Option AccessDecision → Type 0
Allows answer = (d : AccessDecision) × (answer ≡ some d) × (d.allowed ≡ true)

module _ (grace_days : ℕ) (now : ℕ) (s : Subscription) (lesson : Option Lesson) where
  allowed-Grants : (decide_for grace_days s lesson now).allowed ≡ true → Grants grace_days now s
  unfolding decide_for
  allowed-Grants h = grind (arith, paid, in_trial, in_grace, still_paid)

  Grants-allowed : Grants grace_days now s → (decide_for grace_days s lesson now).allowed ≡ true
  unfolding decide_for
  Grants-allowed (paid e) = ground arith
  Grants-allowed (in_trial e h) = ground arith
  Grants-allowed (in_grace e h) = ground arith
  Grants-allowed (still_paid e h) = ground arith

module _ (grace_days : ℕ) (db : Db) (now override_now : ℕ) (user : User)
    (lesson : Option Lesson) where
  -- The override that the selector found.
  override-Member :
      active_override_exists db user.pk override_now ≡ true
      → Member grace_days db now override_now user
  unfolding active_override_exists
  override-Member h =
      let (o, m, q) = exists-In (covers user.pk override_now) db.overrides h in
      by_override o m (ground arith) (ground arith) (ground arith)

  Member-override :
      (o : AccessOverride)
      → In o db.overrides
      → o.user ≡ user.pk
      → o.starts_at ≤ override_now
      → override_now < o.ends_at
      → active_override_exists db user.pk override_now ≡ true
  unfolding active_override_exists
  Member-override o m same from until =
      In-exists (covers user.pk override_now) o db.overrides m (ground arith)

  abbrev verdicts : List AccessDecision
  verdicts =
      map (λ s. decide_for grace_days s lesson now) (subscriptions_bearing_on_access db user.pk)

  -- A subscription that allows is one of the account's, and it grants.
  verdict-Member :
      (d : AccessDecision)
      → In d verdicts
      → d.allowed ≡ true
      → Member grace_days db now override_now user
  unfolding subscriptions_bearing_on_access
  verdict-Member d m granted =
      let (s, k, e) =
        In-map (λ s. decide_for grace_days s lesson now) d
          (subscriptions_bearing_on_access db user.pk) m in
      let (inside, q) = In-filter (λ s. s.user == user.pk) s db.subscriptions k in
      by_subscription s inside (==→eq s.user user.pk q)
        (allowed-Grants grace_days now s lesson (subst (λ x. x.allowed ≡ true) e granted))

  -- A row that grants keeps the list of decisions from refusing.
  Grants-no_refusal :
      (s : Subscription)
      → In s db.subscriptions
      → s.user ≡ user.pk
      → Grants grace_days now s
      → ¬ (first_by (λ d. d.allowed) verdicts ≡ none)
  unfolding subscriptions_bearing_on_access
  Grants-no_refusal s m same g none_found =
      let k = filter-In (λ r. r.user == user.pk) s db.subscriptions m (ground arith) in
      let granted = Grants-allowed grace_days now s lesson g in
      let refused =
        first-none (λ d. d.allowed) (decide_for grace_days s lesson now) verdicts none_found
          (map-In (λ r. decide_for grace_days r lesson now) s
            (subscriptions_bearing_on_access db user.pk) k) in
      cc

  Settling-allows :
      (d : AccessDecision)
      → Settling verdicts d
      → d.allowed ≡ true
      → Member grace_days db now override_now user
  Settling-allows d (grants m granted) h = verdict-Member d m granted
  Settling-allows d (refuses refused e _) h = cc

  Settling-complete :
      (s : Subscription) (d : AccessDecision)
      → In s db.subscriptions
      → s.user ≡ user.pk
      → Grants grace_days now s
      → Settling verdicts d
      → d.allowed ≡ true
  Settling-complete s d m same g (grants _ granted) = granted
  Settling-complete s d m same g (refuses _ e _) = absurd (Grants-no_refusal s m same g e)

  administers :
      is_platform_administrator user ≡ true
      → (is_admin_role user.role ≡ true) ⊎ (user.is_superuser ≡ true)
  unfolding is_platform_administrator
  administers h = ground arith

  pub account-Member :
      Allows (resolve_account_access grace_days db now override_now (account user) lesson)
      → Member grace_days db now override_now user
  unfolding resolve_account_access
  account-Member (d, e, granted) =
      let (w, s, how) =
        settle_total grace_days lesson now (subscriptions_bearing_on_access db user.pk) in
      elim (Bool-cases (is_platform_administrator user)) [
        | inl admin ↦ by_administration (administers admin)
        | inr not_admin ↦ elim (Bool-cases (active_override_exists db user.pk override_now)) [
          | inl o ↦ override-Member o
          | inr no_override ↦ Settling-allows w how (ground arith)
        ]
      ]

  -- Any of the three grounds is enough for the answer to allow.
  grounds-Allows :
      (w : AccessDecision)
      → settle verdicts ≡ some w
      → (is_platform_administrator user ≡ true)
        ⊎ ((active_override_exists db user.pk override_now ≡ true) ⊎ (w.allowed ≡ true))
      → Allows (resolve_account_access grace_days db now override_now (account user) lesson)
  unfolding resolve_account_access
  grounds-Allows w e how = elim (Bool-cases (is_platform_administrator user)) [
    | inl admin ↦ (allow staff, ground arith, refl)
    | inr not_admin ↦ elim (Bool-cases (active_override_exists db user.pk override_now)) [
      | inl o ↦ (allow override, ground arith, refl)
      | inr no_override ↦ (w, ground arith, ground arith)
    ]
  ]

  is-administrator :
      (is_admin_role user.role ≡ true) ⊎ (user.is_superuser ≡ true)
      → is_platform_administrator user ≡ true
  unfolding is_platform_administrator
  is-administrator h = ground arith

  pub Member-account :
      Member grace_days db now override_now user
      → Allows (resolve_account_access grace_days db now override_now (account user) lesson)
  Member-account m =
      let (w, e, how) =
        settle_total grace_days lesson now (subscriptions_bearing_on_access db user.pk) in
      grounds-Allows w e (grounds w how m)
    where
      grounds :
          (w : AccessDecision)
          → Settling verdicts w
          → Member grace_days db now override_now user
          → (is_platform_administrator user ≡ true)
            ⊎ ((active_override_exists db user.pk override_now ≡ true) ⊎ (w.allowed ≡ true))
      grounds w how (by_administration role) = inl (is-administrator role)
      grounds w how (by_override o k same from until) =
          inr (inl (Member-override o k same from until))
      grounds w how (by_subscription s k same g) = inr (inr (Settling-complete s w k same g how))

-- The resolver allows a visitor a lesson exactly when the lesson is a preview, the visitor is its
-- course's instructor, an administrator, holds an override that covers the moment, or holds a
-- subscription that grants at that moment; neither the order of the checks nor of the rows matters.
pub resolve_access-Entitled :
    (grace_days : ℕ) (db : Db) (now override_now : ℕ) (visitor : Visitor) (lesson : Lesson)
    → Allows (resolve_access grace_days db now override_now visitor lesson)
      ↔ Entitled grace_days db now override_now lesson visitor
unfolding resolve_access
resolve_access-Entitled g db now onow visitor lesson = (sound visitor, complete visitor)
  where
    sound :
        (v : Visitor)
        → Allows (resolve_access g db now onow v lesson)
        → Entitled g db now onow lesson v
    sound absent (d, e, granted) = by_preview (ground arith)
    sound anonymous (d, e, granted) = by_preview (ground arith)
    sound (account user) (d, e, granted) = elim (Bool-cases lesson.is_preview) [
      | inl free ↦ by_preview free
      | inr gated ↦ elim (Bool-cases (lesson.instructor == user.pk)) [
        | inl owner ↦ by_ownership user (==→eq _ _ owner)
        | inr other ↦
            by_membership user
              (account-Member g db now onow user (some lesson) (d, ground arith, granted))
      ]
    ]

    complete :
        (v : Visitor)
        → Entitled g db now onow lesson v
        → Allows (resolve_access g db now onow v lesson)
    complete v (by_preview free) = (allow preview, ground arith, refl)
    complete _ (by_ownership user own) = elim (Bool-cases lesson.is_preview) [
      | inl free ↦ (allow preview, ground arith, refl)
      | inr gated ↦ (allow course_owner, ground arith, refl)
    ]
    complete _ (by_membership user m) =
        let (d, e, granted) = Member-account g db now onow user (some lesson) m in
        elim (Bool-cases lesson.is_preview) [
          | inl free ↦ (allow preview, ground arith, refl)
          | inr gated ↦ elim (Bool-cases (lesson.instructor == user.pk)) [
            | inl owner ↦ (allow course_owner, ground arith, refl)
            | inr other ↦ (d, ground arith, granted)
          ]
        ]

account_total :
    (grace_days : ℕ) (db : Db) (now override_now : ℕ) (user : User) (lesson : Option Lesson)
    → (d : AccessDecision) × (resolve_account_access grace_days db now override_now
          (account user)
          lesson
        ≡ some d)
unfolding resolve_account_access
account_total g db now onow user lesson =
    let (w, s, how) = settle_total g lesson now (subscriptions_bearing_on_access db user.pk) in
    elim (Bool-cases (is_platform_administrator user)) [
      | inl admin ↦ (allow staff, ground arith)
      | inr not_admin ↦ elim (Bool-cases (active_override_exists db user.pk onow)) [
        | inl o ↦ (allow override, ground arith)
        | inr no_override ↦ (w, ground arith)
      ]
    ]

-- The resolver answers for every visitor and lesson: no decision is missing from the ranking.
pub resolve_access-total :
    (grace_days : ℕ) (db : Db) (now override_now : ℕ) (visitor : Visitor) (lesson : Lesson)
    → (d : AccessDecision) × (resolve_access grace_days db now override_now visitor lesson ≡ some d)
unfolding resolve_access resolve_account_access
resolve_access-total g db now onow absent lesson = elim (Bool-cases lesson.is_preview) [
  | inl free ↦ (allow preview, ground arith)
  | inr gated ↦ (deny login_required login, ground arith)
]
resolve_access-total g db now onow anonymous lesson = elim (Bool-cases lesson.is_preview) [
  | inl free ↦ (allow preview, ground arith)
  | inr gated ↦ (deny login_required login, ground arith)
]
resolve_access-total g db now onow (account user) lesson =
    let (d, e) = account_total g db now onow user (some lesson) in
    elim (Bool-cases lesson.is_preview) [
      | inl free ↦ (allow preview, ground arith)
      | inr gated ↦ elim (Bool-cases (lesson.instructor == user.pk)) [
        | inl owner ↦ (allow course_owner, ground arith)
        | inr other ↦ (d, ground arith)
      ]
    ]
