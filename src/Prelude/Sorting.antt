-- ===== src/Prelude/Sorting.antt =====
-- `.order_by(...)`: a stable sort by insertion, and what it keeps.
use Prim.Native.Nat.{ℕ, zero, suc, ◌≤◌}
use mathlib.Core.Path.{◌≡◌, sym, subst}
use mathlib.Core.Logic.{◌⊎◌, inl, inr}
use mathlib.Core.Bool.{Bool, true}
use mathlib.Core.Option.{some}
use mathlib.Core.List.{List, [], ◌∷◌}
use native.Mathlib.Omega.{arith}
use e_platform.Prelude.Tests.{Bool-cases, if◌then◌else◌}
use e_platform.Prelude.Members.{In}
use e_platform.Prelude.Rows.{length, first_by}

module _ {A : Type 0} where
  -- `le x y`: `x` may stand before `y`.
  abbrev pub insert_by : (A → A → Bool) → A → List A → List A
  insert_by le x [] = x ∷ []
  insert_by le x (y ∷ ys) = let rest = insert_by le x ys in if le x y then x ∷ y ∷ ys else y ∷ rest

  abbrev pub sort_by : (A → A → Bool) → List A → List A
  sort_by le [] = []
  sort_by le (x ∷ xs) = insert_by le x (sort_by le xs)

  insert-In :
      (le : A → A → Bool) (x z : A) (xs : List A) → (z ≡ x) ⊎ In z xs → In z (insert_by le x xs)
  insert-In le x z [] h = h
  insert-In le x z (y ∷ ys) h = ground (arith, insert-In le x z ys)

  In-insert :
      (le : A → A → Bool) (x z : A) (xs : List A) → In z (insert_by le x xs) → (z ≡ x) ⊎ In z xs
  In-insert le x z [] h = h
  In-insert le x z (y ∷ ys) h = ground (arith, In-insert le x z ys)

  pub In-sort : (le : A → A → Bool) (z : A) (xs : List A) → In z (sort_by le xs) → In z xs
  In-sort le z [] h = h
  In-sort le z (x ∷ xs) h = ground (arith, In-insert le x z (sort_by le xs), In-sort le z xs)

  pub sort-In : (le : A → A → Bool) (z : A) (xs : List A) → In z xs → In z (sort_by le xs)
  sort-In le z [] h = h
  sort-In le z (x ∷ xs) (inl e) = insert-In le x z (sort_by le xs) (inl e)
  sort-In le z (x ∷ xs) (inr m) = insert-In le x z (sort_by le xs) (inr (sort-In le z xs m))

  abbrev pub take_first : ℕ → List A → List A
  take_first zero xs = []
  take_first (suc n) [] = []
  take_first (suc n) (x ∷ xs) = x ∷ take_first n xs

  pub In-take : (n : ℕ) (z : A) (xs : List A) → In z (take_first n xs) → In z xs
  In-take zero z xs h = absurd h
  In-take (suc n) z [] h = absurd h
  In-take (suc n) z (x ∷ xs) (inl e) = inl e
  In-take (suc n) z (x ∷ xs) (inr m) = inr (In-take n z xs m)

  pub length-take : (n : ℕ) (xs : List A) → length (take_first n xs) ≤ n
  length-take zero xs = omega arith
  length-take (suc n) [] = omega arith
  length-take (suc n) (x ∷ xs) = omega (arith, length-take n xs)

  -- The first row of a table in an order that is total and transitive is before every row.
  module _ (le : A → A → Bool) (total : (x y : A) → (le x y ≡ true) ⊎ (le y x ≡ true))
      (transitive : (x y z : A) → le x y ≡ true → le y z ≡ true → le x z ≡ true) where
    abbrev Leads : List A → Type 0
    Leads [] = Unit {0}
    Leads (x ∷ xs) = (z : A) → In z (x ∷ xs) → le x z ≡ true

    self : (x : A) → le x x ≡ true
    self x = elim (total x x) [ inl h ↦ h | inr h ↦ h ]

    insert-Leads : (x : A) (xs : List A) → Leads xs → Leads (insert_by le x xs)
    insert-Leads x [] h =
        λ z m. elim m [ inl e ↦ subst (λ w. le x w ≡ true) (sym e) (self x) | inr k ↦ absurd k ]
    insert-Leads x (y ∷ ys) h = elim (Bool-cases (le x y)) [
      | inl e ↦ rw e (λ z m. elim m [
        | inl p ↦ subst (λ w. le x w ≡ true) (sym p) (self x)
        | inr k ↦ transitive x y z e (h z k)
      ])
      | inr e ↦ rw e (λ z m. elim m [
        | inl p ↦ subst (λ w. le y w ≡ true) (sym p) (self y)
        | inr k ↦ elim (In-insert le x z ys k) [
          | inl p ↦
              subst (λ w. le y w ≡ true) (sym p)
                (elim (total x y) [ inl c ↦ absurd (ground arith) | inr c ↦ c ])
          | inr q ↦ h z (inr q)
        ]
      ])
    ]

    sort-Leads : (xs : List A) → Leads (sort_by le xs)
    sort-Leads [] = tt
    sort-Leads (x ∷ xs) = insert-Leads x (sort_by le xs) (sort-Leads xs)

    pub first_least :
        (x : A) (xs : List A)
        → first_by (λ y. true) (sort_by le xs) ≡ some x
        → (z : A) → In z xs
        → le x z ≡ true
    first_least x xs h z m = least (sort_by le xs) (sort-Leads xs) h (sort-In le z xs m)
      where
        least :
            (rows : List A)
            → Leads rows
            → first_by (λ y. true) rows ≡ some x
            → In z rows
            → le x z ≡ true
        least [] l e k = absurd k
        least (y ∷ ys) l e k =
            let same : y ≡ x = ground arith in subst (λ w. le w z ≡ true) same (l z k)
