-- ===== src/Entitlements/Resolver/Refusal.antt =====
-- The refusals of backend/apps/entitlements/resolver.py, and their ranks.
use e_platform.Prelude.{
  ℕ, ◌≤◌, ◌≡◌, refl, subst, true, false, Option, none, some, List, [], ◌∷◌, map, arith, inl, inr,
  Option-cases, Bool-cases, ltb, ◌⊎◌, is_some, get_or, ◌==◌, ◌≢◌, ==→eq,
}
use e_platform.Prelude.Rows.{first_by}
use e_platform.Prelude.Members.{In, first-In, first-none, In-map, map-In, In-filter, filter-In}
use e_platform.Accounts.{User, account}
use e_platform.Entitlements.Model.{Subscription, Db}
use e_platform.Entitlements.Resolver.{
  no_subscription, AccessDecision, denial_rank, Lesson, decide_for, subscriptions_bearing_on_access,
  most_informative, surface, settle, resolve_account_access, deny, subscribe,
}

abbrev pub Ranked : AccessDecision → Type 0
Ranked d = is_some (denial_rank d.reason) ≡ true

-- A rank as a number, for comparisons.
abbrev pub rank : AccessDecision → ℕ
rank d = get_or (denial_rank d.reason) 0

decide_for-Ranked :
    (grace_days : ℕ) (s : Subscription) (lesson : Option Lesson) (now : ℕ)
    → (decide_for grace_days s lesson now).allowed ≡ false
    → Ranked (decide_for grace_days s lesson now)
unfolding decide_for denial_rank
decide_for-Ranked g s lesson now h = ground arith

abbrev AllRanked : List AccessDecision → Type 0
AllRanked ds = (x : AccessDecision) → In x ds → Ranked x

-- The maximum is one of the decisions, and no other has a greater rank.
abbrev IsGreatest : AccessDecision → List AccessDecision → Type 0
IsGreatest d ds = In d ds × ((x : AccessDecision) → In x ds → rank x ≤ rank d)

most_informative-IsGreatest :
    (best : AccessDecision) (ds : List AccessDecision)
    → Ranked best
    → AllRanked ds
    → (d : AccessDecision) × (most_informative best ds ≡ some d) × IsGreatest d (best ∷ ds)
unfolding most_informative
most_informative-IsGreatest best [] r rs = (best, ground arith, (inl refl, λ x m. ground arith))
most_informative-IsGreatest best (d ∷ ds) r rs = elim (Bool-cases (ltb (rank best) (rank d))) [
  | inl less ↦
      let (w, e, g) = most_informative-IsGreatest d ds (rs d (inl refl)) (λ x k. rs x (inr k)) in
      (
        w,
        ground (arith, rs d (inl refl)),
        (inr g.0, λ x k. ground (arith, g.1 x, g.1 d (inl refl))),
      )
  | inr more ↦
      let (w, e, g) = most_informative-IsGreatest best ds r (λ x k. rs x (inr k)) in
      (
        w,
        ground (arith, rs d (inl refl)),
        (skip g.0, λ x k. ground (arith, g.1 x, g.1 best (inl refl))),
      )
]
  where
    skip : {w : AccessDecision} → In w (best ∷ ds) → In w (best ∷ d ∷ ds)
    skip (inl e) = inl e
    skip (inr m) = inr (inr m)

-- What the decisions of some subscriptions come to, when none of them allows.
abbrev Settles : List AccessDecision → AccessDecision → Type 0
Settles [] d = d ≡ deny no_subscription subscribe
Settles (x ∷ xs) d = IsGreatest d (x ∷ xs)

surface-Settles :
    (ds : List AccessDecision)
    → AllRanked ds
    → (d : AccessDecision) × (surface ds ≡ some d) × Settles ds d
surface-Settles [] r = (deny no_subscription subscribe, refl, refl)
surface-Settles (d ∷ ds) r = most_informative-IsGreatest d ds (r d (inl refl)) (λ x m. r x (inr m))

Settles-refuses :
    (ds : List AccessDecision) (d : AccessDecision)
    → first_by (λ x. x.allowed) ds ≡ none
    → Settles ds d
    → d.allowed ≡ false
Settles-refuses [] d e h = ground arith
Settles-refuses (x ∷ xs) d e h = first-none (λ y. y.allowed) d (x ∷ xs) e h.0

-- How a list of decisions settles: one that allows, or a refusal when none does.
pub data Settling (ds : List AccessDecision) (d : AccessDecision) : Type 0 where
  grants : In d ds → d.allowed ≡ true → Settling ds d
  refuses : d.allowed ≡ false → first_by (λ x. x.allowed) ds ≡ none → Settles ds d → Settling ds d

module _ (grace_days : ℕ) (lesson : Option Lesson) (now : ℕ) (rows : List Subscription) where
  abbrev decisions : List AccessDecision
  decisions = map (λ s. decide_for grace_days s lesson now) rows

  decisions-ranked : first_by (λ d. d.allowed) decisions ≡ none → AllRanked decisions
  decisions-ranked h d m =
      let (s, k, e) = In-map (λ s. decide_for grace_days s lesson now) d rows m in
      let refused : d.allowed ≡ false = first-none (λ d. d.allowed) d decisions h m in
      rw e (decide_for-Ranked grace_days s lesson now (rw e at refused))

  -- Either the first allowing decision, or the most informative refusal.
  pub settle_total : (d : AccessDecision) × (settle decisions ≡ some d) × Settling decisions d
  unfolding settle
  settle_total = elim (Option-cases (first_by (λ d. d.allowed) decisions)) [
    | inl e ↦
        let (d, found, g) = surface-Settles decisions (decisions-ranked e) in
        (d, ground arith, refuses (Settles-refuses decisions d e g) e g)
    | inr (d, e) ↦
        let (m, granted) = first-In (λ d. d.allowed) d decisions e in
        (d, ground arith, grants m granted)
  ]

-- What settled is a refusal only if the rows refuse.
settled_refusal :
    (ds : List AccessDecision) (w d : AccessDecision)
    → Settling ds w
    → w ≡ d
    → d.allowed ≡ false
    → Settles ds d
settled_refusal ds w d (grants m granted) same refused = absurd (ground arith)
settled_refusal ds w d (refuses _ no_grant h) same refused = subst (Settles ds) same h

-- What a refusal says: the decision of one of the account's rows, or that it has none.
abbrev pub Explains : ℕ → Db → ℕ → User → Option Lesson → AccessDecision → Type 0
Explains grace_days db now user lesson d =
    ((s : Subscription) × In s db.subscriptions
      × (s.user ≡ user.pk)
      × (d ≡ decide_for grace_days s lesson now))
    ⊎ ((d ≡ deny no_subscription subscribe)
        × ((s : Subscription) → In s db.subscriptions → s.user ≢ user.pk))

module _ (grace_days : ℕ) (db : Db) (now : ℕ) (user : User) (lesson : Option Lesson) where
  abbrev verdicts : List AccessDecision
  verdicts =
      map (λ s. decide_for grace_days s lesson now) (subscriptions_bearing_on_access db user.pk)

  rows-mine :
      (s : Subscription)
      → In s (subscriptions_bearing_on_access db user.pk)
      → In s db.subscriptions × (s.user ≡ user.pk)
  unfolding subscriptions_bearing_on_access
  rows-mine s m =
      let (k, q) = In-filter (λ s. s.user == user.pk) s db.subscriptions m in
      (k, ==→eq s.user user.pk q)

  mine-rows :
      (s : Subscription)
      → In s db.subscriptions
      → s.user ≡ user.pk
      → In s (subscriptions_bearing_on_access db user.pk)
  unfolding subscriptions_bearing_on_access
  mine-rows s m same = filter-In (λ s. s.user == user.pk) s db.subscriptions m (ground arith)

  Settles-Explains :
      (rs : List Subscription) (d : AccessDecision)
      → ((s : Subscription) → In s rs → In s db.subscriptions × (s.user ≡ user.pk))
      → ((s : Subscription) → In s db.subscriptions → s.user ≡ user.pk → In s rs)
      → Settles (map (λ s. decide_for grace_days s lesson now) rs) d
      → Explains grace_days db now user lesson d
  Settles-Explains [] d back forth h = inr (h, λ s m same. forth s m same)
  Settles-Explains (r ∷ rs) d back forth h =
      let (s, k, same) = In-map (λ s. decide_for grace_days s lesson now) d (r ∷ rs) h.0 in
      let (m, q) = back s k in inl (s, m, q, same)

  Settles-bounds :
      (rs : List Subscription) (d : AccessDecision)
      → Settles (map (λ s. decide_for grace_days s lesson now) rs) d
      → (s : Subscription) → In s rs
      → rank (decide_for grace_days s lesson now) ≤ rank d
  Settles-bounds [] d h s m = absurd m
  Settles-bounds (r ∷ rs) d h s m =
      h.1 _ (map-In (λ s. decide_for grace_days s lesson now) s (r ∷ rs) m)

  refused-settle :
      (override_now : ℕ) (d w : AccessDecision)
      → resolve_account_access grace_days db now override_now (account user) lesson ≡ some d
      → d.allowed ≡ false
      → settle verdicts ≡ some w
      → w ≡ d
  unfolding resolve_account_access
  refused-settle onow d w h refused e = ground arith

  -- A refusal comes from the subscriptions.
  refused-Settles :
      (override_now : ℕ) (d : AccessDecision)
      → resolve_account_access grace_days db now override_now (account user) lesson ≡ some d
      → d.allowed ≡ false
      → Settles verdicts d
  refused-Settles onow d h refused =
      let (w, e, which) =
        settle_total grace_days lesson now (subscriptions_bearing_on_access db user.pk) in
      settled_refusal verdicts w d which (refused-settle onow d w h refused e) refused

-- A signed-in account that is refused is told about one of its own subscriptions, or that it never
-- had one when it has none; and no row of the account has a more informative refusal.
pub refusal_most_informative :
    (grace_days : ℕ) (db : Db) (now override_now : ℕ) (user : User) (lesson : Option Lesson)
    (d : AccessDecision)
    → resolve_account_access grace_days db now override_now (account user) lesson ≡ some d
    → d.allowed ≡ false
    → Explains grace_days db now user lesson d
      × ((s : Subscription)
          → In s db.subscriptions
          → s.user ≡ user.pk
          → rank (decide_for grace_days s lesson now) ≤ rank d)
refusal_most_informative g db now onow user lesson d h refused =
    let settled = refused-Settles g db now user lesson onow d h refused in
    (
      Settles-Explains g db now user lesson (subscriptions_bearing_on_access db user.pk) d
          (rows-mine g db now user lesson) (mine-rows g db now user lesson) settled,
      λ s m same.
          Settles-bounds g db now user lesson (subscriptions_bearing_on_access db user.pk) d settled
            s (mine-rows g db now user lesson s m same),
    )
