-- ===== src/Catalog/Order/Positions.antt =====
-- What `_apply_order` of backend/apps/catalog/services.py leaves behind.
use e_platform.Prelude.{
  ℕ, zero, suc, ◌+◌, ◌≡◌, ◌⊎◌, ◌↔◌, refl, Bool, true, false, ◌&&◌, List, [], ◌∷◌, map, ◌==◌,
  if◌then◌else◌, arith, inl, inr, Option, none, some, Bool-cases, ==→eq, subst, sym, ◌∙◌, ap,
}
use e_platform.Prelude.Rows.{filter_by, update_by}
use e_platform.Prelude.Members.{In, In-update, update-In, In-filter, filter-In, In-map, map-In}
use e_platform.Prelude.Result.{ok, is_ok}
use e_platform.Catalog.Order.{Positioned, holds, distinct, subset, assign, apply_order}

abbrev pub get_elem? : List ℕ → ℕ → Option ℕ
get_elem? [] k = none
get_elem? (i ∷ ids) zero = some i
get_elem? (i ∷ ids) (suc k) = get_elem? ids k

module _ {A : Type 0} (o : Positioned A) (scope : A → Bool) where
  -- A row after the loop that began at position `n`: it stands at the place that its key has in the
  -- list, or the list does not name it and the row is as it was.
  abbrev Placed : ℕ → List ℕ → List A → A → Type 0
  Placed n ids rows r =
      ((k : ℕ) × (o.position r ≡ n + k) × (get_elem? ids k ≡ some (o.pk r)))
      ⊎ (In r rows × (holds (o.pk r) ids ≡ false))

  assign-Placed :
      (ids : List ℕ) (n : ℕ) (rows : List A) (r : A)
      → distinct ids ≡ true
      → scope r ≡ true
      → In r (assign o scope n ids rows)
      → Placed n ids rows r
  unfolding assign distinct
  assign-Placed [] n rows r d s m = inr (m, refl)
  assign-Placed (i ∷ ids) n rows r d s m =
      later (assign-Placed ids (n + 1) (update_by test (o.write n) rows) r (ground arith) s m)
    where
      test : A → Bool
      test a = scope a && o.pk a == i

      moved :
          (x : A)
          → In x rows
          → r ≡ (if test x then o.write n x else x)
          → holds (o.pk r) ids ≡ false
          → Placed n (i ∷ ids) rows r
      moved x k e absent = elim (Bool-cases (test x)) [
        | inl hit ↦
            let written : r ≡ o.write n x = rw hit at e in
            let at : o.pk x ≡ i = ground arith in
            inl (
              0,
              omega (arith, ap o.position written, o.position-write n x),
              ap some (sym (ap o.pk written ∙ o.pk-write n x ∙ at)),
            )
        | inr miss ↦
            let same : r ≡ x = rw miss at e in
            inr (subst (λ y. In y rows) (sym same) k, ground (arith, ap scope same, ap o.pk same))
      ]

      later : Placed (n + 1) ids (update_by test (o.write n) rows) r → Placed n (i ∷ ids) rows r
      later (inl (k, e, g)) = inl (suc k, omega arith, g)
      later (inr (k, absent)) =
          let (x, inside, e) = In-update test (o.write n) r rows k in moved x inside e absent

  -- No row is added or lost, in scope or out of it, and no key changes.
  pks-update :
      (test : A → Bool) (n : ℕ) (rows : List A)
      → map o.pk (update_by test (o.write n) rows) ≡ map o.pk rows
  pks-update test n [] = refl
  pks-update test n (r ∷ rows) = ground (arith, o.pk-write n r, pks-update test n rows)

  pub pks-assign :
      (ids : List ℕ) (n : ℕ) (rows : List A) → map o.pk (assign o scope n ids rows) ≡ map o.pk rows
  unfolding assign
  pks-assign [] n rows = refl
  pks-assign (i ∷ ids) n rows =
      pks-assign ids (n + 1) _ ∙ pks-update (λ r. scope r && o.pk r == i) n rows

  -- A row with another position is the row of the table that it was, with that position.
  abbrev pub Moved : List A → A → Type 0
  Moved rows r = (x : A) × In x rows × (o.write (o.position x) r ≡ x)

  update-Moved :
      (test : A → Bool) (n : ℕ) (rows : List A) (r : A)
      → In r (update_by test (o.write n) rows)
      → (x : A) × In x rows × ((m : ℕ) → o.write m r ≡ o.write m x)
  update-Moved test n rows r m =
      let (x, k, e) = In-update test (o.write n) r rows m in
      elim (Bool-cases (test x)) [
        | inl hit ↦
            let new : r ≡ o.write n x = rw hit at e in
            (x, k, λ j. ap (o.write j) new ∙ o.write-write j n x)
        | inr miss ↦ let old : r ≡ x = rw miss at e in (x, k, λ j. ap (o.write j) old)
      ]

  assign-same :
      (ids : List ℕ) (n : ℕ) (rows : List A) (r : A)
      → In r (assign o scope n ids rows)
      → (x : A) × In x rows × ((m : ℕ) → o.write m r ≡ o.write m x)
  unfolding assign
  assign-same [] n rows r m = (r, m, λ j. refl)
  assign-same (i ∷ ids) n rows r m =
      let (y, k, e) =
        assign-same ids (n + 1) (update_by (λ a. scope a && o.pk a == i) (o.write n) rows) r m in
      let (x, l, f) = update-Moved (λ a. scope a && o.pk a == i) n rows y k in
      (x, l, λ j. e j ∙ f j)

  pub assign-Moved :
      (ids : List ℕ) (n : ℕ) (rows : List A) (r : A)
      → In r (assign o scope n ids rows)
      → Moved rows r
  assign-Moved ids n rows r m =
      let (x, k, e) = assign-same ids n rows r m in (x, k, e (o.position x) ∙ o.write-position x)

  -- A row out of scope stays as it was.
  pub outside-assign :
      (ids : List ℕ) (n : ℕ) (rows : List A) (r : A)
      → scope r ≡ false
      → In r rows
      → In r (assign o scope n ids rows)
  unfolding assign
  outside-assign [] n rows r s m = m
  outside-assign (i ∷ ids) n rows r s m =
      let test = λ (a : A). scope a && o.pk a == i in
      let off : (scope r && o.pk r == i) ≡ false = ground arith in
      outside-assign ids (n + 1) _ r s (
        subst (λ (b : Bool). In (if b then o.write n r else r) (update_by test (o.write n) rows))
          off (update-In test (o.write n) r rows m))

-- `subset` and `holds` by membership.
holds-In : (i : ℕ) (ids : List ℕ) → holds i ids ≡ true → In i ids
holds-In i [] h = cc
holds-In i (j ∷ ids) h = ground (arith, holds-In i ids)

In-holds : (i : ℕ) (ids : List ℕ) → In i ids → holds i ids ≡ true
In-holds i [] h = absurd h
In-holds i (j ∷ ids) h = ground (arith, In-holds i ids)

subset-In : (a b : List ℕ) → subset a b ≡ true → (i : ℕ) → In i a → In i b
unfolding subset
subset-In [] b h i m = absurd m
subset-In (j ∷ a) b h i m = ground (arith, subset-In a b (ground arith) i, holds-In i b)

In-subset : (a b : List ℕ) → ((i : ℕ) → In i a → In i b) → subset a b ≡ true
unfolding subset
In-subset [] b h = refl
In-subset (j ∷ a) b h =
    ground (arith, In-holds j b (h j (inl refl)), In-subset a b (λ i m. h i (inr m)))

get-holds : (ids : List ℕ) (k i : ℕ) → get_elem? ids k ≡ some i → holds i ids ≡ true
get-holds [] k i h = cc
get-holds (j ∷ ids) zero i h = ground arith
get-holds (j ∷ ids) (suc k) i h = ground (arith, get-holds ids k i h)

holds-get : (ids : List ℕ) (i : ℕ) → holds i ids ≡ true → (k : ℕ) × (get_elem? ids k ≡ some i)
holds-get [] i h = cc
holds-get (j ∷ ids) i h = elim (Bool-cases (j == i)) [
  | inl e ↦ (0, ap some (==→eq j i e))
  | inr e ↦ let (k, g) = holds-get ids i (ground arith) in (suc k, g)
]

-- No key is named at two places.
abbrev pub NamesOnce : List ℕ → Type 0
NamesOnce ids = (i j k : ℕ) → get_elem? ids j ≡ some i → get_elem? ids k ≡ some i → j ≡ k

distinct-NamesOnce : (ids : List ℕ) → distinct ids ≡ true → NamesOnce ids
unfolding distinct
distinct-NamesOnce [] h i j k e f = cc
distinct-NamesOnce (x ∷ ids) h i zero zero e f = refl
distinct-NamesOnce (x ∷ ids) h i zero (suc k) e f = ground (arith, get-holds ids k i f)
distinct-NamesOnce (x ∷ ids) h i (suc j) zero e f = ground (arith, get-holds ids j i e)
distinct-NamesOnce (x ∷ ids) h i (suc j) (suc k) e f =
    ap suc (distinct-NamesOnce ids (ground arith) i j k e f)

NamesOnce-distinct : (ids : List ℕ) → NamesOnce ids → distinct ids ≡ true
unfolding distinct
NamesOnce-distinct [] h = refl
NamesOnce-distinct (x ∷ ids) h =
    let rest = NamesOnce-distinct ids (λ i j k e f. omega (arith, h i (suc j) (suc k) e f)) in
    elim (Bool-cases (holds x ids)) [
      | inl again ↦
          let (k, g) = holds-get ids x again in absurd (omega (arith, h x 0 (suc k) refl g))
      | inr once ↦ ground arith
    ]

module _ {A : Type 0} (o : Positioned A) (scope : A → Bool) (submitted : List ℕ)
    (rows : List A) where
  abbrev pks : List ℕ
  pks = map o.pk (filter_by scope rows)

  -- Every row under the parent is named, exactly once, and nothing else is.
  pub record NamesAll : Type 0 where
    pub once : NamesOnce submitted
    pub known : (i : ℕ) → In i submitted → (r : A) × In r rows × (scope r ≡ true) × (o.pk r ≡ i)
    pub complete : (r : A) → In r rows → scope r ≡ true → In (o.pk r) submitted

  accepts : Bool
  accepts = distinct submitted && subset submitted pks && subset pks submitted

  pks-row : (i : ℕ) → In i pks → (r : A) × In r rows × (scope r ≡ true) × (o.pk r ≡ i)
  pks-row i m =
      let (r, k, e) = In-map o.pk i (filter_by scope rows) m in
      let (inside, s) = In-filter scope r rows k in (r, inside, s, sym e)

  row-pks : (r : A) → In r rows → scope r ≡ true → In (o.pk r) pks
  row-pks r m s = map-In o.pk r (filter_by scope rows) (filter-In scope r rows m s)

  accepts-NamesAll : accepts ≡ true → NamesAll
  unfolding accepts
  accepts-NamesAll h = record {
    once = distinct-NamesOnce submitted (ground arith);
    known = λ i m. pks-row i (subset-In submitted pks (ground arith) i m);
    complete = λ r m s. subset-In pks submitted (ground arith) (o.pk r) (row-pks r m s);
  }

  NamesAll-accepts : NamesAll → accepts ≡ true
  unfolding accepts
  NamesAll-accepts h =
      let d = NamesOnce-distinct submitted h.once in
      let a =
        In-subset submitted pks
          (λ i m. let (r, k, s, e) = h.known i m in subst (λ j. In j pks) e (row-pks r k s)) in
      let b = In-subset pks submitted (λ i m.
        let (r, k, s, e) = pks-row i m in subst (λ j. In j submitted) e (h.complete r k s)) in
      ground arith

  accepted :
      {rows' : List A}
      → apply_order o scope submitted rows ≡ ok rows'
      → (accepts ≡ true) × (assign o scope 1 submitted rows ≡ rows')
  unfolding apply_order accepts
  accepted {rows'} h = ground arith

  placed :
      (r : A)
      → accepts ≡ true
      → scope r ≡ true
      → In r (assign o scope 1 submitted rows)
      → (k : ℕ) × (o.position r ≡ 1 + k) × (get_elem? submitted k ≡ some (o.pk r))
  unfolding accepts
  placed r h s m = elim (assign-Placed o scope submitted 1 rows r (ground arith) s m) [
    | inl found ↦ found
    | inr (k, absent) ↦
        let named = In-holds (o.pk r) submitted ((accepts-NamesAll h).complete r k s) in
        absurd (ground arith)
  ]

  -- A reorder is accepted exactly when the order names every row under the parent once and nothing
  -- else; otherwise it is refused, and nothing is written.
  pub apply_order-accepts : (is_ok (apply_order o scope submitted rows) ≡ true) ↔ NamesAll
  unfolding apply_order accepts
  apply_order-accepts =
      (λ h. accepts-NamesAll (ground arith), λ h. ground (arith, NamesAll-accepts h))

  -- After a reorder the row that the order names at place `k` (from 0) has the position `k + 1`, so
  -- no two rows under the parent share one; no other column of any row is changed, the rows of other
  -- parents are as they were, and no row is added or lost.
  pub apply_order-positions :
      {rows' : List A}
      → apply_order o scope submitted rows ≡ ok rows'
      → ((r : A)
          → In r rows'
          → scope r ≡ true
          → (k : ℕ) × (o.position r ≡ 1 + k) × (get_elem? submitted k ≡ some (o.pk r)))
        × ((r : A) → In r rows' → Moved o scope rows r)
        × ((r : A) → scope r ≡ false → In r rows → In r rows')
        × (map o.pk rows' ≡ map o.pk rows)
  apply_order-positions {rows'} h =
      let (yes_to_all, same) = accepted h in
      (
        λ r m s. placed r yes_to_all s (subst (In r) (sym same) m),
        λ r m. assign-Moved o scope submitted 1 rows r (subst (In r) (sym same) m),
        λ r s m. subst (In r) same (outside-assign o scope submitted 1 rows r s m),
        subst (λ x. map o.pk x ≡ map o.pk rows) same (pks-assign o scope submitted 1 rows),
      )
