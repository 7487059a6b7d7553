-- ===== src/Prelude/Keyed.antt =====
-- Tables whose rows are told apart by a primary key.
use mathlib.Core.Path.{refl, ◌≡◌, sym, ap, subst, ◌∙◌}
use mathlib.Core.Logic.{◌≢◌, ◌⊎◌, inl, inr}
use mathlib.Core.Bool.{Bool, false}
use mathlib.Core.Option.{some}
use mathlib.Core.List.{List, ◌∷◌}
use Prim.Native.Nat.{ℕ}
use native.Mathlib.Omega.{arith}
use e_platform.Prelude.Tests.{◌==◌, ==→eq, ==-refl, Bool-cases, if◌then◌else◌}
use e_platform.Prelude.Rows.{exists_by, first_by, update_by}
use e_platform.Prelude.Members.{In, In-update, update-In, first_of_In, In-exists}

module _ {A : Type 0} (pk : A → ℕ) where
  abbrev pub IsKeyed : List A → Type 0
  IsKeyed rows = (s t : A) → In s rows → In t rows → pk s ≡ pk t → s ≡ t

  -- The row that a key finds is the row that has it.
  pub find_self :
      (rows : List A) (s : A)
      → IsKeyed rows
      → In s rows
      → first_by (λ t. pk t == pk s) rows ≡ some s
  find_self rows s keyed m =
      let (y, e, k, same) = first_of_In (λ t. pk t == pk s) s rows m (==-refl (pk s)) in
      e ∙ ap some (keyed y s k m (==→eq (pk y) (pk s) same))

  module _ (rows : List A) (s : A) (f : A → A) (keyed : IsKeyed rows) (m : In s rows)
      (same_pk : pk (f s) ≡ pk s) where
    -- The rows after a write by key: the new value of `s`, and the others.
    pub update-rows :
        (r : A)
        → In r (update_by (λ t. pk t == pk s) f rows)
        → (r ≡ f s) ⊎ (In r rows × (pk r ≢ pk s))
    update-rows r k =
        let (t, l, e) = In-update (λ t. pk t == pk s) f r rows k in
        elim (Bool-cases (pk t == pk s)) [
          | inl hit ↦ inl ((rw hit at e) ∙ ap f (keyed t s l m (==→eq (pk t) (pk s) hit)))
          | inr miss ↦
              let left : r ≡ t = rw miss at e in
              inr (subst (λ x. In x rows) (sym left) l, λ p. ground (arith, ap pk left))
        ]

    keyed-cases :
        (r t : A)
        → (r ≡ f s) ⊎ (In r rows × (pk r ≢ pk s))
        → (t ≡ f s) ⊎ (In t rows × (pk t ≢ pk s))
        → pk r ≡ pk t
        → r ≡ t
    keyed-cases r t (inl e) (inl g) same = e ∙ sym g
    keyed-cases r t (inl e) (inr (l, n)) same = absurd (n (sym same ∙ ap pk e ∙ same_pk))
    keyed-cases r t (inr (k, n)) (inl g) same = absurd (n (same ∙ ap pk g ∙ same_pk))
    keyed-cases r t (inr (k, _)) (inr (l, _)) same = keyed r t k l same

    pub update-IsKeyed : IsKeyed (update_by (λ t. pk t == pk s) f rows)
    update-IsKeyed r t k l e = keyed-cases r t (update-rows r k) (update-rows t l) e

    pub self-update : In (f s) (update_by (λ t. pk t == pk s) f rows)
    self-update = rw (==-refl (pk s)) at (update-In (λ t. pk t == pk s) f s rows m)

  -- A key that no row has.
  pub unused :
      (rows : List A) (n : ℕ) (r : A)
      → exists_by (λ t. pk t == n) rows ≡ false
      → In r rows
      → pk r ≢ n
  unused rows n r fresh k e = ground (arith, In-exists (λ t. pk t == n) r rows k)

  pub insert-IsKeyed :
      (rows : List A) (s : A)
      → IsKeyed rows
      → exists_by (λ t. pk t == pk s) rows ≡ false
      → IsKeyed (s ∷ rows)
  insert-IsKeyed rows s keyed fresh r t (inl e) (inl g) same = e ∙ sym g
  insert-IsKeyed rows s keyed fresh r t (inl e) (inr l) same =
      absurd (unused rows (pk s) t fresh l (sym same ∙ ap pk e))
  insert-IsKeyed rows s keyed fresh r t (inr k) (inl g) same =
      absurd (unused rows (pk s) r fresh k (same ∙ ap pk g))
  insert-IsKeyed rows s keyed fresh r t (inr k) (inr l) same = keyed r t k l same

  -- A write that keeps the key, on any rows.
  pub rewrite-IsKeyed :
      (q : A → Bool) (f : A → A) (rows : List A)
      → ((a : A) → pk (f a) ≡ pk a)
      → IsKeyed rows
      → IsKeyed (update_by q f rows)
  rewrite-IsKeyed q f rows keeps keyed r t k l same =
      let (x, m, e) = In-update q f r rows k in
      let (y, n, g) = In-update q f t rows l in
      let one : x ≡ y = keyed x y m n (sym (key x) ∙ sym (ap pk e) ∙ same ∙ ap pk g ∙ key y) in
      e ∙ ap write one ∙ sym g
    where
      write : A → A
      write a = if q a then f a else a

      key : (a : A) → pk (write a) ≡ pk a
      key a = elim (Bool-cases (q a)) [ inl hit ↦ rw hit (keeps a) | inr miss ↦ rw miss refl ]
