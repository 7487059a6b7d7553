-- ===== src/Entitlements/Services/Table.antt =====
-- The constraints of the subscription table (backend/apps/entitlements/models.py) under the writes
-- of backend/apps/entitlements/services.py.
use e_platform.Prelude.{
  ℕ, ◌≡◌, ◌≢◌, ◌⊎◌, refl, Bool, true, false, Option, none, some, List, ◌∷◌, ◌==◌, arith, is_some,
  ==→eq, ==-refl, inl, inr, Bool-cases, subst, sym, fun_ext, ap, ◌∙◌,
}
use e_platform.Prelude.Rows.{exists_by, first_by, update_by}
use e_platform.Prelude.Members.{In, In-update, exists-update, first_of_In, In-exists}
use e_platform.Prelude.Result.{ok}
use e_platform.Prelude.Text.{Text, text_eq-sym}
use e_platform.Entitlements.Model.{
  SubscriptionStatus, Subscription, Db, same_id, admits, rivals, same_provider_id, is_live,
  is_trialing,
}
use e_platform.Entitlements.Provider.{ProviderSubscription}
use e_platform.Entitlements.Services.{
  save_subscription, allowed_transition, write_snapshot, write_expired, event_for,
}

-- Every row satisfies the constraints, and a primary key names one row.
pub record IsConsistent (rows : List Subscription) : Type 0 where
  pub admitted : (s : Subscription) → In s rows → admits s rows ≡ true
  pub keyed : (s t : Subscription) → In s rows → In t rows → s.pk ≡ t.pk → s ≡ t

-- A write that keeps the key, the owner and the provider's id, makes a row live only if it was,
-- and gives a trial its end.
pub record IsSafeWrite (columns : Subscription → Subscription) (s : Subscription) : Type 0 where
  pub same_pk : (columns s).pk ≡ s.pk
  pub same_user : (columns s).user ≡ s.user
  pub same_provider : (columns s).provider ≡ s.provider
  pub same_provider_id : (columns s).provider_subscription_id ≡ s.provider_subscription_id
  pub live_only_if : is_live (columns s).status ≡ true → is_live s.status ≡ true
  pub trial_ends : is_trialing (columns s).status ≡ true → is_some (columns s).trial_end ≡ true

rivals-eq : (r s : Subscription) → r.pk ≡ s.pk → r.user ≡ s.user → rivals r ≡ rivals s
rivals-eq r s e f = fun_ext λ t. rw (e, f)

same_provider_id-eq :
    (r s : Subscription)
    → r.pk ≡ s.pk
    → r.provider ≡ s.provider
    → r.provider_subscription_id ≡ s.provider_subscription_id
    → same_provider_id r ≡ same_provider_id s
same_provider_id-eq r s e f g = fun_ext λ t. rw (e, f, g)

module _ (columns : Subscription → Subscription) (rows : List Subscription)
    (c : IsConsistent rows) where
  module _ (s : Subscription) (m : In s rows) (w : IsSafeWrite columns s) where
    -- The row that is written, against the table as it stands.
    pub safe-admits : admits (columns s) rows ≡ true
    unfolding admits
    safe-admits =
        rw
          (
            rivals-eq (columns s) s w.same_pk w.same_user,
            same_provider_id-eq (columns s) s w.same_pk w.same_provider w.same_provider_id,
          )
          (ground (arith, c.admitted s m, w.live_only_if, w.trial_ends))

    abbrev written : List Subscription
    written = update_by (λ t. t.pk == s.pk) columns rows

    -- What a row clashes with after the write, it clashed with before.
    no_new_clash :
        (clash : Subscription → Bool)
        → (clash (columns s) ≡ true → clash s ≡ true)
        → exists_by clash rows ≡ false
        → exists_by clash written ≡ false
    no_new_clash clash keep h =
        exists-update clash (λ t. t.pk == s.pk) columns rows
          (λ t k e q.
            let same : t ≡ s = c.keyed t s k m (==→eq t.pk s.pk e) in
            subst (λ x. clash x ≡ true) (sym same)
              (keep (subst (λ x. clash (columns x) ≡ true) same q)))
          h

    -- A row that the table admitted is admitted after the write.
    still-admits : (r : Subscription) → admits r rows ≡ true → admits r written ≡ true
    unfolding admits
    still-admits r h = ground (
      arith,
      no_new_clash (rivals r) (λ q. ground (arith, w.same_pk, w.same_user, w.live_only_if)),
      no_new_clash (same_provider_id r)
          (λ q. ground (arith, w.same_provider, w.same_provider_id, w.same_pk)),
    )

    -- The rows of the table after the write: the new value of `s`, and the others.
    pub written-rows :
        (r : Subscription) → In r written → (r ≡ columns s) ⊎ (In r rows × (r.pk ≢ s.pk))
    written-rows r k =
        let (t, l, e) = In-update (λ t. t.pk == s.pk) columns r rows k in
        elim (Bool-cases (t.pk == s.pk)) [
          | inl same ↦ inl ((rw same at e) ∙ ap columns (c.keyed t s l m (==→eq t.pk s.pk same)))
          | inr other ↦
              let left : r ≡ t = rw other at e in
              inr (subst (λ x. In x rows) (sym left) l, λ p. ground arith)
        ]

    written-keyed :
        (r t : Subscription)
        → (r ≡ columns s) ⊎ (In r rows × (r.pk ≢ s.pk))
        → (t ≡ columns s) ⊎ (In t rows × (t.pk ≢ s.pk))
        → r.pk ≡ t.pk
        → r ≡ t
    written-keyed r t (inl e) (inl f) same = e ∙ sym f
    written-keyed r t (inl e) (inr (l, n)) same = absurd (n (ground (arith, w.same_pk)))
    written-keyed r t (inr (k, n)) (inl f) same = absurd (n (ground (arith, w.same_pk)))
    written-keyed r t (inr (k, _)) (inr (l, _)) same = c.keyed r t k l same

    pub written-IsConsistent : IsConsistent written
    written-IsConsistent = record {
      admitted = λ r k. elim (written-rows r k) [
        | inl e ↦
            subst (λ x. admits x written ≡ true) (sym e) (still-admits (columns s) safe-admits)
        | inr (l, _) ↦ still-admits r (c.admitted r l)
      ];
      keyed = λ r t k l e. written-keyed r t (written-rows r k) (written-rows t l) e;
    }

-- The table with the columns written to the row of `s`.
abbrev pub saved : Db → Subscription → (Subscription → Subscription) → Db
saved db s columns = record db {
  subscriptions = update_by (λ t. t.pk == s.pk) columns db.subscriptions;
}

module _ (db : Db) (c : IsConsistent db.subscriptions) (s : Subscription)
    (m : In s db.subscriptions) where
  row_found : first_by (λ t. t.pk == s.pk) db.subscriptions ≡ some s
  row_found =
      let (y, e, k, same) = first_of_In (λ t. t.pk == s.pk) s db.subscriptions m (==-refl s.pk) in
      e ∙ ap some (c.keyed y s k m (==→eq y.pk s.pk same))

  -- A safe write to a current row goes through, and the constraints hold of the result.
  pub save_safe :
      (columns : Subscription → Subscription)
      → IsSafeWrite columns s
      → save_subscription columns s.pk db ≡ ok (saved db s columns)
  unfolding save_subscription
  save_safe columns w = rw row_found (rw (safe-admits columns db.subscriptions c s m w))

-- No legal move makes a row live that was not, and none leads into a trial.
pub transition_live :
    (a b : SubscriptionStatus)
    → allowed_transition a b ≡ true
    → (is_live b ≡ true → is_live a ≡ true)
      × (is_trialing b ≡ false)
      × (is_some (event_for b) ≡ true)
unfolding allowed_transition
transition_live a b h = ground arith

pub snapshot-IsSafeWrite :
    (s : Subscription) (report : ProviderSubscription) (trial_end : Option ℕ)
    → allowed_transition s.status report.status ≡ true
    → IsSafeWrite (write_snapshot report trial_end) s
snapshot-IsSafeWrite s report trial_end h =
    let (live, trial, _) = transition_live s.status report.status h in
    record {
      same_pk = refl;
      same_user = refl;
      same_provider = refl;
      same_provider_id = refl;
      live_only_if = live;
      trial_ends = λ t. cc;
    }

pub expired-IsSafeWrite : (s : Subscription) → IsSafeWrite write_expired s
expired-IsSafeWrite s = record {
  same_pk = refl;
  same_user = refl;
  same_provider = refl;
  same_provider_id = refl;
  live_only_if = λ t. cc;
  trial_ends = λ t. cc;
}

same_id-sym : (a b : Option Text) → same_id a b ≡ same_id b a
same_id-sym none none = refl
same_id-sym none (some b) = refl
same_id-sym (some a) none = refl
same_id-sym (some a) (some b) = text_eq-sym a b

-- A new row that the table admits keeps the constraints.
module _ (rows : List Subscription) (c : IsConsistent rows) (s : Subscription)
    (ok_row : admits s rows ≡ true) where
  module _ (fresh : exists_by (λ r. r.pk == s.pk) rows ≡ false) where
    old_key : (r : Subscription) → In r rows → r.pk ≢ s.pk
    old_key r k e = ground (arith, In-exists (λ t. t.pk == s.pk) r rows k)

    no_rival : (r : Subscription) → In r rows → is_live r.status ≡ true → rivals r s ≡ false
    unfolding admits
    no_rival r k live = ground (arith, old_key r k, In-exists (rivals s) r rows k)

    no_same_id : (r : Subscription) → In r rows → same_provider_id r s ≡ false
    unfolding admits
    no_same_id r k = ground (
      arith,
      old_key r k,
      In-exists (same_provider_id s) r rows k,
      text_eq-sym r.provider s.provider,
      same_id-sym r.provider_subscription_id s.provider_subscription_id,
    )

    self-admitted : admits s (s ∷ rows) ≡ true
    unfolding admits
    self-admitted = ground arith

    insert-admitted : (r : Subscription) → In r (s ∷ rows) → admits r (s ∷ rows) ≡ true
    unfolding admits
    insert-admitted r (inl e) = subst (λ x. admits x (s ∷ rows) ≡ true) (sym e) self-admitted
    insert-admitted r (inr k) = ground (arith, c.admitted r k, no_rival r k, no_same_id r k)

    insert-keyed : (r t : Subscription) → In r (s ∷ rows) → In t (s ∷ rows) → r.pk ≡ t.pk → r ≡ t
    insert-keyed r t (inl e) (inl f) same = e ∙ sym f
    insert-keyed r t (inl e) (inr l) same = absurd (old_key t l (ground arith))
    insert-keyed r t (inr k) (inl f) same = absurd (old_key r k (ground arith))
    insert-keyed r t (inr k) (inr l) same = c.keyed r t k l same

    pub insert-IsConsistent : IsConsistent (s ∷ rows)
    insert-IsConsistent = record { admitted = insert-admitted; keyed = insert-keyed }
