-- ===== src/Prelude/Rows.antt =====
-- A database table as a list of rows, newest first (the models order by `-created_at`), and the
-- query-set operations that the services use.
use Prim.Native.Nat.{ℕ, suc, ◌+◌}
use mathlib.Core.Bool.{Bool, false, ◌||◌}
use mathlib.Core.Option.{Option, none, some}
use mathlib.Core.List.{List, [], ◌∷◌}
use e_platform.Prelude.Tests.{if◌then◌else◌}

module _ {A : Type 0} where
  -- `.filter(p)`
  abbrev pub filter_by : (A → Bool) → List A → List A
  filter_by p [] = []
  filter_by p (x ∷ xs) = let rest = filter_by p xs in if p x then x ∷ rest else rest

  -- `.filter(p).exists()`
  abbrev pub exists_by : (A → Bool) → List A → Bool
  exists_by p [] = false
  exists_by p (x ∷ xs) = p x || exists_by p xs

  -- `.filter(p).first()`
  abbrev pub first_by : (A → Bool) → List A → Option A
  first_by p [] = none
  first_by p (x ∷ xs) = if p x then some x else first_by p xs

  -- `.filter(p).count()`
  abbrev pub count_by : (A → Bool) → List A → ℕ
  count_by p [] = 0
  count_by p (x ∷ xs) = (if p x then 1 else 0) + count_by p xs

  -- `.filter(p).update(...)`: `f` writes the named columns
  abbrev pub update_by : (A → Bool) → (A → A) → List A → List A
  update_by p f [] = []
  update_by p f (x ∷ xs) = (if p x then f x else x) ∷ update_by p f xs

  abbrev pub length : List A → ℕ
  length [] = 0
  length (x ∷ xs) = suc (length xs)
