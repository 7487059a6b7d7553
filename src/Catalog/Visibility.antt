-- ===== src/Catalog/Visibility.antt =====
-- What backend/apps/catalog/selectors.py lets a visitor find.
use e_platform.Prelude.{
  ℕ, ◌≡◌, ◌↔◌, inl, inr, sym, ap, ◌∙◌, subst, Bool, true, ◌&&◌, Option, none, some, List, ◌==◌,
  arith, Bool-cases, Option-cases, ==→eq,
}
use e_platform.Prelude.Rows.{filter_by, exists_by, first_by, length}
use e_platform.Prelude.Members.{In, In-filter, filter-In, first-In, exists-In}
use e_platform.Prelude.Keyed.{IsKeyed}
use e_platform.Prelude.Sorting.{sort_by, take_first, In-sort, sort-In, In-take}
use e_platform.Prelude.Text.{Text, text_eq, is_nonempty}
use e_platform.Accounts.{anonymous}
use e_platform.Catalog.Model.{Course, Level, Lesson, Db, is_published}
use e_platform.Catalog.Selectors.{
  published_courses, newer, published_course_detail, CourseDetail, filtered_published_courses,
  narrow, search_published_courses, Search, cleaned, full_text, related_courses, lessons_visible_to,
  sees,
}
use e_platform.Media.Model.{MediaAsset}

abbrev pub IsPublic : Db → Course → Type 0
IsPublic db c = In c db.courses × (is_published c.status ≡ true)

published-IsPublic : (c : Course) (db : Db) → In c (published_courses db) → IsPublic db c
unfolding published_courses
published-IsPublic c db m =
    In-filter (λ c. is_published c.status) c db.courses
      (In-sort newer c (filter_by (λ c. is_published c.status) db.courses) m)

-- A part of the published courses, in some order, cut somewhere.
part-IsPublic :
    (p : Course → Bool) (le : Course → Course → Bool) (n : ℕ) (c : Course) (db : Db)
    → In c (take_first n (sort_by le (filter_by p (published_courses db))))
    → IsPublic db c
part-IsPublic p le n c db m =
    published-IsPublic c db
      (In-filter p c (published_courses db)
        (In-sort le c (filter_by p (published_courses db)) (In-take n c _ m))).0

narrow-In :
    {A : Type 0} (p : A → Course → Bool) (o : Option A) (c : Course) (rows : List Course)
    → In c (narrow p o rows)
    → In c rows
narrow-In p none c rows m = m
narrow-In p (some a) c rows m = (In-filter (p a) c rows m).0

detail_course :
    (assets : List MediaAsset) (slug : Text) (db : Db) (page : CourseDetail)
    → published_course_detail assets slug db ≡ some page
    → In page.course (published_courses db)
unfolding published_course_detail
detail_course assets slug db page h =
    elim (Option-cases (first_by (λ c. text_eq c.slug slug) (published_courses db))) [
      | inl e ↦ absurd (ground arith)
      | inr (c, e) ↦
          let same : c ≡ page.course = ground arith in
          subst (λ x. In x (published_courses db)) same
            (first-In (λ c. text_eq c.slug slug) c (published_courses db) e).0
    ]

search-IsPublic :
    (engine : Search) (query : Text) (limit : ℕ) (c : Course) (db : Db)
    → In c (search_published_courses engine query limit db)
    → IsPublic db c
unfolding search_published_courses
search-IsPublic engine query limit c db m = elim (Bool-cases (is_nonempty (cleaned engine query))) [
  | inr e ↦ absurd (rw (search_published_courses, e) at m)
  | inl e ↦ elim (Bool-cases (length (full_text engine (cleaned engine query) limit db) == 0)) [
    | inl k ↦ part-IsPublic _ _ limit c db (rw (search_published_courses, e, k) at m)
    | inr k ↦ part-IsPublic _ _ limit c db (rw (search_published_courses, e, k) at m)
  ]
]

-- The ways in which the public pages come to a course.
pub data Offered (db : Db) (c : Course) : Type 0 where
  listed :
      (language : Option ℕ) (level : Option Level) (skill_area : Option Text)
      → In c (filtered_published_courses language level skill_area db)
      → Offered db c
  searched :
      (engine : Search) (query : Text) (limit : ℕ)
      → In c (search_published_courses engine query limit db)
      → Offered db c
  related : (course : Course) (limit : ℕ) → In c (related_courses course limit db) → Offered db c
  shown :
      (assets : List MediaAsset) (slug : Text) (page : CourseDetail)
      → published_course_detail assets slug db ≡ some page
      → c ≡ page.course
      → Offered db c
  previewed :
      (l : Lesson)
      → In l (lessons_visible_to anonymous db)
      → first_by (λ c. c.pk == l.course) db.courses ≡ some c
      → Offered db c

filtered-IsPublic :
    (language : Option ℕ) (level : Option Level) (skill_area : Option Text) (c : Course) (db : Db)
    → In c (filtered_published_courses language level skill_area db)
    → IsPublic db c
unfolding filtered_published_courses
filtered-IsPublic language level skill_area c db m = published-IsPublic c db (
    narrow-In _ language c (published_courses db)
      (narrow-In _ level c _ (narrow-In _ skill_area c _ m)))

related-IsPublic :
    (course : Course) (limit : ℕ) (c : Course) (db : Db)
    → In c (related_courses course limit db)
    → IsPublic db c
unfolding related_courses
related-IsPublic course limit c db m = part-IsPublic _ _ limit c db m

previewed-IsPublic :
    (l : Lesson) (c : Course) (db : Db)
    → IsKeyed (λ x. x.pk) db.courses
    → In l (lessons_visible_to anonymous db)
    → first_by (λ c. c.pk == l.course) db.courses ≡ some c
    → IsPublic db c
unfolding lessons_visible_to
previewed-IsPublic l c db keyed m e =
    let (_, hit) =
      In-filter (λ l. exists_by (λ c. c.pk == l.course && sees anonymous c) db.courses) l db.lessons
        m in
    let (x, k, q) = exists-In (λ c. c.pk == l.course && sees anonymous c) db.courses hit in
    let (here, at) = first-In (λ c. c.pk == l.course) c db.courses e in
    let same : x ≡ c =
      keyed x c k here (==→eq x.pk l.course (ground arith) ∙ sym (==→eq c.pk l.course at)) in
    (here, ap (λ y. is_published y.status) (sym same) ∙ ground arith)

Offered-IsPublic :
    (c : Course) (db : Db) → IsKeyed (λ x. x.pk) db.courses → Offered db c → IsPublic db c
Offered-IsPublic c db keyed (listed language level skill_area m) =
    filtered-IsPublic language level skill_area c db m
Offered-IsPublic c db keyed (searched engine query limit m) =
    search-IsPublic engine query limit c db m
Offered-IsPublic c db keyed (related course limit m) = related-IsPublic course limit c db m
Offered-IsPublic c db keyed (shown assets slug page h e) =
    subst (IsPublic db) (sym e)
      (published-IsPublic page.course db (detail_course assets slug db page h))
Offered-IsPublic c db keyed (previewed l m e) = previewed-IsPublic l c db keyed m e

-- With keys of courses that are unique, a course is offered to the public, by the list with any
-- filters, the search, the related courses, a course page, or a lesson that a visitor who is not
-- signed in may attempt to read, exactly when it is in the catalogue and published.
pub Offered-iff :
    (c : Course) (db : Db)
    → IsKeyed (λ x. x.pk) db.courses
    → Offered db c ↔ (In c db.courses × (is_published c.status ≡ true))
unfolding filtered_published_courses published_courses
Offered-iff c db keyed = (
  Offered-IsPublic c db keyed,
  λ h. listed none none none (
      sort-In newer c (filter_by (λ c. is_published c.status) db.courses)
        (filter-In (λ c. is_published c.status) c db.courses h.0 h.1)),
)
