-- ===== src/Prelude/Members.antt =====
-- Rows of a table, as evidence, and what the query-set operations keep of them.
use mathlib.Core.Path.{◌≡◌, refl, sym, ap, ◌∙◌}
use mathlib.Core.Logic.{◌⊎◌, inl, inr}
use mathlib.Core.Bool.{Bool, true, false}
use mathlib.Core.Option.{none, some}
use mathlib.Core.List.{List, [], ◌∷◌, map}
use native.Mathlib.Omega.{arith}
use e_platform.Prelude.Tests.{Bool-cases, if◌then◌else◌}
use e_platform.Prelude.Rows.{filter_by, exists_by, first_by, update_by}

module _ {A : Type 0} where
  -- `x` stands in the list, with its place.
  abbrev pub In : A → List A → Type 0
  In x [] = ⊥
  In x (y ∷ ys) = (x ≡ y) ⊎ In x ys

  pub In-filter :
      (p : A → Bool) (x : A) (xs : List A) → In x (filter_by p xs) → In x xs × (p x ≡ true)
  In-filter p x [] h = absurd h
  In-filter p x (y ∷ ys) h = ground (arith, In-filter p x ys)

  pub filter-In :
      (p : A → Bool) (x : A) (xs : List A) → In x xs → p x ≡ true → In x (filter_by p xs)
  filter-In p x [] h q = absurd h
  filter-In p x (y ∷ ys) h q = ground (arith, filter-In p x ys)

  pub exists-In :
      (p : A → Bool) (xs : List A) → exists_by p xs ≡ true → (x : A) × In x xs × (p x ≡ true)
  exists-In p [] h = cc
  exists-In p (y ∷ ys) h = elim (Bool-cases (p y)) [
    | inl e ↦ (y, inl refl, e)
    | inr e ↦ let (x, m, q) = exists-In p ys (ground arith) in (x, inr m, q)
  ]

  pub In-exists :
      (p : A → Bool) (x : A) (xs : List A) → In x xs → p x ≡ true → exists_by p xs ≡ true
  In-exists p x [] h q = absurd h
  In-exists p x (y ∷ ys) h q = ground (arith, In-exists p x ys)

  pub first-In :
      (p : A → Bool) (x : A) (xs : List A) → first_by p xs ≡ some x → In x xs × (p x ≡ true)
  first-In p x [] h = cc
  first-In p x (y ∷ ys) h = ground (arith, first-In p x ys)

  pub first-none :
      (p : A → Bool) (x : A) (xs : List A) → first_by p xs ≡ none → In x xs → p x ≡ false
  first-none p x [] h m = absurd m
  first-none p x (y ∷ ys) h m = ground (arith, first-none p x ys)

module _ {A B : Type 0} where
  pub In-map : (f : A → B) (y : B) (xs : List A) → In y (map f xs) → (x : A) × In x xs × (y ≡ f x)
  In-map f y [] h = absurd h
  In-map f y (x ∷ xs) (inl e) = (x, inl refl, e)
  In-map f y (x ∷ xs) (inr m) = let (z, k, e) = In-map f y xs m in (z, inr k, e)

  pub map-In : (f : A → B) (x : A) (xs : List A) → In x xs → In (f x) (map f xs)
  map-In f x [] h = absurd h
  map-In f x (y ∷ ys) (inl e) = inl (ap f e)
  map-In f x (y ∷ ys) (inr m) = inr (map-In f x ys m)

module _ {A : Type 0} where
  -- A row after an update is an old row that was left, or the new value of one that was selected.
  pub In-update :
      (p : A → Bool) (f : A → A) (y : A) (xs : List A)
      → In y (update_by p f xs)
      → (x : A) × In x xs × (y ≡ (if p x then f x else x))
  In-update p f y [] h = absurd h
  In-update p f y (x ∷ xs) (inl e) = (x, inl refl, e)
  In-update p f y (x ∷ xs) (inr m) = let (z, k, e) = In-update p f y xs m in (z, inr k, e)

  pub update-In :
      (p : A → Bool) (f : A → A) (x : A) (xs : List A)
      → In x xs
      → In (if p x then f x else x) (update_by p f xs)
  update-In p f x [] h = absurd h
  update-In p f x (y ∷ ys) (inl e) = inl (rw e)
  update-In p f x (y ∷ ys) (inr m) = inr (update-In p f x ys m)

  -- A test that no update can turn on fails after the update where it failed before.
  pub exists-update :
      (q p : A → Bool) (f : A → A) (xs : List A)
      → ((x : A) → In x xs → p x ≡ true → q (f x) ≡ true → q x ≡ true)
      → exists_by q xs ≡ false
      → exists_by q (update_by p f xs) ≡ false
  exists-update q p f [] h e = refl
  exists-update q p f (x ∷ xs) h e =
      ground (arith, h x (inl refl), exists-update q p f xs (λ y m. h y (inr m)))

  pub first_of_In :
      (p : A → Bool) (x : A) (xs : List A)
      → In x xs
      → p x ≡ true
      → (y : A) × (first_by p xs ≡ some y) × In y xs × (p y ≡ true)
  first_of_In p x [] h e = absurd h
  first_of_In p x (y ∷ ys) h e = elim (Bool-cases (p y)) [
    | inl found ↦ (y, ground arith, inl refl, found)
    | inr other ↦
        let (z, first, m, q) = first_of_In p x ys (ground arith) e in (z, ground arith, inr m, q)
  ]

  -- The first row of a test that a write keeps is the same row afterwards, written if selected.
  pub first_written :
      (p q : A → Bool) (f : A → A) (x : A) (xs : List A)
      → ((y : A) → p (f y) ≡ p y)
      → first_by p xs ≡ some x
      → first_by p (update_by q f xs) ≡ some (if q x then f x else x)
  first_written p q f x [] keeps h = cc
  first_written p q f x (y ∷ ys) keeps h = elim (Bool-cases (p y)) [
    | inl e ↦
        let same : y ≡ x = ground arith in
        elim (Bool-cases (q y)) [
          | inl k ↦
              let k' : q x ≡ true = ap q (sym same) ∙ k in
              rw (k, k') (rw (keeps y) (rw e (ap (λ z. some (f z)) same)))
          | inr k ↦
              let k' : q x ≡ false = ap q (sym same) ∙ k in
              rw (k, k') (rw e (ap (λ z. some z) same))
        ]
    | inr e ↦
        let rest = first_written p q f x ys keeps (ground arith) in
        elim (Bool-cases (q y)) [
          | inl k ↦ rw k (rw (keeps y) (rw e rest))
          | inr k ↦ rw k (rw e rest)
        ]
  ]
