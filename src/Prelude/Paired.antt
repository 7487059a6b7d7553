-- ===== src/Prelude/Paired.antt =====
-- Tables whose rows are told apart by two columns together.
use Prim.Native.Nat.{ℕ}
use mathlib.Core.Path.{◌≡◌, sym, ap, ◌∙◌}
use mathlib.Core.Logic.{inl, inr}
use mathlib.Core.Bool.{Bool, true, false, ◌&&◌}
use mathlib.Core.Option.{some}
use mathlib.Core.List.{List, [], ◌∷◌}
use native.Mathlib.Omega.{arith}
use e_platform.Prelude.Tests.{◌==◌, Bool-cases, if◌then◌else◌}
use e_platform.Prelude.Rows.{exists_by, first_by, update_by}
use e_platform.Prelude.Members.{In, In-exists, update-In, exists-update, first_of_In}

module _ {A : Type 0} (a b : A → ℕ) where
  abbrev pub at : ℕ → ℕ → A → Bool
  at m n t = a t == m && b t == n

  abbrev pub IsUnique : List A → Type 0
  IsUnique [] = Unit {0}
  IsUnique (x ∷ xs) = (exists_by (at (a x) (b x)) xs ≡ false) × IsUnique xs

  pub unique-eq :
      (rows : List A) (s t : A)
      → IsUnique rows
      → In s rows
      → In t rows
      → a s ≡ a t
      → b s ≡ b t
      → s ≡ t
  unique-eq [] s t u m k e f = absurd m
  unique-eq (x ∷ xs) s t (fresh, u) (inl m) (inl k) e f = m ∙ sym k
  unique-eq (x ∷ xs) s t (fresh, u) (inr m) (inr k) e f = unique-eq xs s t u m k e f
  unique-eq (x ∷ xs) s t (fresh, u) (inl m) (inr k) e f =
      ground (arith, In-exists (at (a x) (b x)) t xs k, ap a m, ap b m)
  unique-eq (x ∷ xs) s t (fresh, u) (inr m) (inl k) e f =
      ground (arith, In-exists (at (a x) (b x)) s xs m, ap a k, ap b k)

  -- The row that the two columns find is the row that has them.
  pub find_pair :
      (rows : List A) (s : A) → IsUnique rows → In s rows → first_by (at (a s) (b s)) rows ≡ some s
  find_pair rows s u m =
      let (y, e, k, same) = first_of_In (at (a s) (b s)) s rows m (ground arith) in
      e ∙ ap some (unique-eq rows y s u k m (ground arith) (ground arith))

  pub update-IsUnique :
      (m n : ℕ) (f : A → A) (rows : List A)
      → ((t : A) → at m n t ≡ true → (a (f t) ≡ m) × (b (f t) ≡ n))
      → IsUnique rows
      → IsUnique (update_by (at m n) f rows)
  update-IsUnique m n f [] keeps u = tt
  update-IsUnique m n f (x ∷ xs) keeps (fresh, u) = (head, update-IsUnique m n f xs keeps u)
    where
      head :
          exists_by
            (at (a (if at m n x then f x else x)) (b (if at m n x then f x else x)))
            (update_by (at m n) f xs)
          ≡ false
      head =
          exists-update _ (at m n) f xs (λ t k hit again. ground (arith, keeps t, keeps x))
            (ground (arith, keeps x))

  -- A relation that the update respects on the rows that it selects relates the tables.
  pub update-kept :
      (R : A → A → Type 0) (m n : ℕ) (f : A → A) (rows : List A)
      → ((x : A) → R x x)
      → ((x : A) → In x rows → a x ≡ m → b x ≡ n → R x (f x))
      → (x : A) → In x rows
      → (y : A) × In y (update_by (at m n) f rows) × R x y
  update-kept R m n f rows same hit x k = elim (Bool-cases (at m n x)) [
    | inl e ↦ (f x, rw e at (update-In (at m n) f x rows k), hit x k (ground arith) (ground arith))
    | inr e ↦ (x, rw e at (update-In (at m n) f x rows k), same x)
  ]
