-- ===== src/Catalog/Order.antt =====
-- `_apply_order` of backend/apps/catalog/services.py: rewriting the positions of the rows under one
-- parent, all or nothing. It serves sections and lessons, so the row type is a parameter.
pub mod Positions
use e_platform.Prelude.{
  ℕ, ◌+◌, ◌≡◌, Bool, true, false, not, ◌&&◌, ◌||◌, List, [], ◌∷◌, map, ◌==◌, if◌then◌else◌,
}
use e_platform.Prelude.Rows.{filter_by, exists_by, update_by}
use e_platform.Prelude.Result.{Result, ok, err, ◌>>=◌, ◌>>◌, require}

-- A model with a primary key and a `position`, and the write of that column: it is what is read back,
-- a second write replaces the first, and writing what is there changes nothing.
pub record Positioned (A : Type 0) : Type 0 where
  pub pk : A → ℕ
  pub position : A → ℕ
  pub write : ℕ → A → A
  pub pk-write : (n : ℕ) (a : A) → pk (write n a) ≡ pk a
  pub position-write : (n : ℕ) (a : A) → position (write n a) ≡ n
  pub write-write : (m n : ℕ) (a : A) → write m (write n a) ≡ write m a
  pub write-position : (a : A) → write (position a) a ≡ a

pub data OrderError : Type 0 where
  invalid_reorder : OrderError

-- `i in ids`
abbrev pub holds : ℕ → List ℕ → Bool
holds i ids = exists_by (λ j. j == i) ids

-- `len(ids) == len(set(ids))`
unfoldable pub distinct : List ℕ → Bool
distinct [] = true
distinct (i ∷ ids) = not (holds i ids) && distinct ids

-- `set(a) <= set(b)`
unfoldable pub subset : List ℕ → List ℕ → Bool
subset [] b = true
subset (i ∷ a) b = holds i b && subset a b

module _ {A : Type 0} (o : Positioned A) where
  -- `for position, pk in enumerate(submitted, start=n): rows[pk].position = position`, with the
  -- `bulk_update` of the rows in scope.
  unfoldable pub assign : (A → Bool) → ℕ → List ℕ → List A → List A
  assign scope n [] rows = rows
  assign scope n (i ∷ ids) rows =
      assign scope (n + 1) ids (update_by (λ r. scope r && o.pk r == i) (o.write n) rows)

  -- `scope` is the filter of the query set, `rows` the whole table.
  unfoldable pub apply_order : (A → Bool) → List ℕ → List A → Result OrderError (List A)
  unfolding assign distinct subset
  apply_order scope submitted rows = do
    let pks = map o.pk (filter_by scope rows)
    require (distinct submitted && subset submitted pks && subset pks submitted) invalid_reorder
    ok (assign scope 1 submitted rows)
