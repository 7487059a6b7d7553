-- ===== src/Prelude/Distinct.antt =====
-- Lists of keys without repetition, and how many of them a list can hold.
use Prim.Native.Nat.{ℕ, suc, ◌≤◌}
use mathlib.Core.Path.{◌≡◌, refl, sym, subst}
use mathlib.Core.Logic.{◌⊎◌, inl, inr}
use mathlib.Core.Bool.{Bool}
use mathlib.Core.List.{List, [], ◌∷◌, map}
use native.Mathlib.Omega.{arith}
use e_platform.Prelude.Tests.{◌==◌, ==→eq, Bool-cases, if◌then◌else◌}
use e_platform.Prelude.Rows.{filter_by, count_by, length}
use e_platform.Prelude.Members.{In, In-map, In-filter, map-In}

abbrev pub IsDistinct : List ℕ → Type 0
IsDistinct [] = Unit {0}
IsDistinct (i ∷ ids) = (In i ids → ⊥) × IsDistinct ids

abbrev remove : ℕ → List ℕ → List ℕ
remove i [] = []
remove i (j ∷ ids) = let rest = remove i ids in if j == i then ids else j ∷ rest

length-remove : (i : ℕ) (ids : List ℕ) → In i ids → suc (length (remove i ids)) ≡ length ids
length-remove i [] h = absurd h
length-remove i (j ∷ ids) h = ground (arith, length-remove i ids)

In-remove : (i k : ℕ) (ids : List ℕ) → In k ids → (k ≡ i → ⊥) → In k (remove i ids)
In-remove i k [] h n = absurd h
In-remove i k (j ∷ ids) h n = ground (arith, In-remove i k ids)

-- Distinct keys that all stand in a list are no more than the list has.
pub length-distinct :
    (ids all : List ℕ) → IsDistinct ids → ((i : ℕ) → In i ids → In i all) → length ids ≤ length all
length-distinct [] all d h = omega arith
length-distinct (i ∷ ids) all (fresh, d) h =
    let rest =
      length-distinct ids (remove i all) d
        (λ k m. In-remove i k all (h k (inr m)) (λ e. fresh (subst (λ x. In x ids) e m))) in
    omega (arith, length-remove i all (h i (inl refl)))

In-or-not : (i : ℕ) (ids : List ℕ) → In i ids ⊎ (In i ids → ⊥)
In-or-not i [] = inr (λ m. m)
In-or-not i (j ∷ ids) = elim (Bool-cases (i == j)) [
  | inl e ↦ inl (inl (==→eq i j e))
  | inr e ↦ elim (In-or-not i ids) [
    | inl m ↦ inl (inr m)
    | inr n ↦ inr (λ m. elim m [ inl same ↦ ground arith | inr k ↦ n k ])
  ]
]

-- If distinct keys of a list are as many as the list has, they are all of it.
pub distinct-all :
    (ids all : List ℕ)
    → IsDistinct ids
    → ((i : ℕ) → In i ids → In i all)
    → length all ≤ length ids
    → (i : ℕ) → In i all
    → In i ids
distinct-all ids all d h full i m = elim (In-or-not i ids) [
  | inl k ↦ k
  | inr n ↦
      let more =
        length-distinct (i ∷ ids) all (n, d)
          (λ j k. elim k [ inl e ↦ subst (λ x. In x all) (sym e) m | inr l ↦ h j l ]) in
      absurd (omega arith)
]

module _ {A : Type 0} (key : A → ℕ) (p : A → Bool) where
  pub length-filter : (xs : List A) → length (map key (filter_by p xs)) ≡ count_by p xs
  length-filter [] = refl
  length-filter (x ∷ xs) = ground (arith, length-filter xs)

  pub filter-IsDistinct :
      (xs : List A) → IsDistinct (map key xs) → IsDistinct (map key (filter_by p xs))
  filter-IsDistinct [] d = tt
  filter-IsDistinct (x ∷ xs) (fresh, d) = elim (Bool-cases (p x)) [
    | inl e ↦ rw e (
      λ m.
          let (y, k, s) = In-map key (key x) (filter_by p xs) m in
          let (inside, _) = In-filter p y xs k in
          fresh (subst (λ n. In n (map key xs)) (sym s) (map-In key y xs inside)),
      filter-IsDistinct xs d,
    )
    | inr e ↦ rw e (filter-IsDistinct xs d)
  ]
