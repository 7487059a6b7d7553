-- ===== src/Entitlements/Reconciliation.antt =====
-- The reconciliation report of backend/apps/entitlements/selectors.py against the resolver.
use e_platform.Prelude.{
  ℕ, ◌<◌, ◌≡◌, ◌≢◌, inl, inr, refl, subst, true, false, Option, none, List, [], ◌∷◌, ◌++◌, ◌==◌,
  arith, Bool-cases, Option-cases,
}
use e_platform.Prelude.Rows.{filter_by, length}
use e_platform.Prelude.Members.{In, filter-In}
use e_platform.Entitlements.Model.{
  Subscription, SubscriptionStatus, trialing, active, past_due, canceled, expired, Db,
}
use e_platform.Entitlements.Resolver.{Lesson, decide_for, decide_status, trial_covers}
use e_platform.Entitlements.Selectors.{
  FindingCode, active_past_period, trialing_past_end, past_due_beyond_grace, canceled_past_period,
  Finding, condition, matching, grants, categories, finding_of, found, duplicates,
  reconciliation_findings,
}

-- The verdict of the resolver on a row that a category reports.
category_verdict :
    (grace_days now : ℕ) (code : FindingCode) (status : SubscriptionStatus) (s : Subscription)
    (lesson : Option Lesson)
    → condition grace_days now code status s ≡ true
    → (decide_status status grace_days s lesson now).allowed ≡ grants code
unfolding trial_covers
category_verdict grace_days now active_past_period active s lesson h = refl
category_verdict grace_days now trialing_past_end trialing s lesson h =
    elim (Option-cases s.trial_end) [ inl e ↦ ground arith | inr (at, e) ↦ ground arith ]
category_verdict grace_days now past_due_beyond_grace past_due s lesson h = ground arith
category_verdict grace_days now canceled_past_period canceled s lesson h = ground arith
category_verdict grace_days now _ _ s lesson h = absurd (ground arith)

-- The category of a row that the resolver refused earlier.
refused_category :
    (grace_days now later : ℕ) (status : SubscriptionStatus) (s : Subscription)
    → now < later
    → (decide_status status grace_days s none now).allowed ≡ false
    → status ≢ expired
    → (code : FindingCode) × In code categories
      × (condition grace_days later code status s ≡ true)
      × (grants code ≡ false)
unfolding trial_covers
refused_category grace_days now later active s l h n = absurd (ground arith)
refused_category grace_days now later trialing s l h n = (
  trialing_past_end,
  inr (inl refl),
  elim (Option-cases s.trial_end) [ inl e ↦ absurd (ground arith) | inr (at, e) ↦ ground arith ],
  refl,
)
refused_category grace_days now later past_due s l h n =
    (past_due_beyond_grace, inr (inr (inl refl)), ground arith, refl)
refused_category grace_days now later canceled s l h n =
    (canceled_past_period, inr (inr (inr (inl refl))), ground arith, refl)
refused_category grace_days now later expired s l h n = absurd (n refl)

nonempty_count :
    (rows : List Subscription) (s : Subscription) → In s rows → (length rows == 0) ≡ false
nonempty_count [] s m = absurd m
nonempty_count (r ∷ rows) s m = ground arith

finding-In :
    (grace_days now : ℕ) (db : Db) (code : FindingCode) (s : Subscription)
    (codes : List FindingCode)
    → In code codes
    → In s db.subscriptions
    → matching grace_days now code s ≡ true
    → In (finding_of grace_days now db code) (found grace_days now db codes)
finding-In grace_days now db code s [] m k h = absurd m
finding-In grace_days now db code s (c ∷ codes) (inl e) k h =
    let some_row =
      nonempty_count (filter_by (matching grace_days now code) db.subscriptions) s
        (filter-In (matching grace_days now code) s db.subscriptions k h) in
    subst (λ x. In (finding_of grace_days now db code) (found grace_days now db (x ∷ codes))) e
      (rw some_row (inl refl))
finding-In grace_days now db code s (c ∷ codes) (inr m) k h =
    let rest = finding-In grace_days now db code s codes m k h in
    elim (Bool-cases ((finding_of grace_days now db c).count == 0)) [
      | inl z ↦ rw z rest
      | inr z ↦ rw z (inr rest)
    ]

In-left : (f : Finding) (xs ys : List Finding) → In f xs → In f (xs ++ ys)
In-left f [] ys m = absurd m
In-left f (x ∷ xs) ys (inl e) = inl e
In-left f (x ∷ xs) ys (inr m) = inr (In-left f xs ys m)

-- The report agrees with the resolver. A row that a category matches is allowed by the resolver
-- exactly when the category is marked as granting access, for any lesson. And no dead row is
-- overlooked: one that is not EXPIRED and that the resolver refused at some earlier time matches a
-- finding of the report that is marked as not granting.
pub reconciliation-resolver :
    (grace_days now : ℕ) (db : Db) (s : Subscription)
    → In s db.subscriptions
    → ((code : FindingCode) (lesson : Option Lesson)
        → matching grace_days now code s ≡ true
        → (decide_for grace_days s lesson now).allowed ≡ grants code)
      × ((earlier : ℕ)
          → earlier < now
          → (decide_for grace_days s none earlier).allowed ≡ false
          → s.status ≢ expired
          → (f : Finding) × In f (reconciliation_findings grace_days now db)
            × (matching grace_days now f.code s ≡ true)
            × (f.grants_access ≡ false))
unfolding decide_for reconciliation_findings
reconciliation-resolver grace_days now db s m = (
  λ code lesson h. category_verdict grace_days now code s.status s lesson h,
  λ earlier l h n.
      let (code, k, hit, g) = refused_category grace_days earlier now s.status s l h n in
      (
        finding_of grace_days now db code,
        In-left (finding_of grace_days now db code) (found grace_days now db categories)
            (duplicates db) (finding-In grace_days now db code s categories k m hit),
        hit,
        g,
      ),
)
