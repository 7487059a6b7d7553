-- ===== src/Learning/Next.antt =====
-- What `next_lesson_for` of backend/apps/learning/selectors.py answers, and the counts beside it.
use e_platform.Prelude.{
  ℕ, ◌≤◌, ◌<◌, ◌≡◌, ◌⊎◌, ◌↔◌, inl, inr, refl, sym, ap, ◌∙◌, subst, Bool, true, false, not, ◌&&◌,
  none, some, List, [], ◌∷◌, ◌==◌, arith, Bool-cases, Option-cases,
}
use e_platform.Prelude.Rows.{count_by}
use e_platform.Prelude.Members.{In, In-filter, filter-In, first-In, first-none, In-map}
use e_platform.Prelude.Sorting.{In-sort, sort-In, first_least}
use e_platform.Catalog.Model
use e_platform.Catalog.Model.{Lesson}
use e_platform.Catalog.Selectors.{curriculum}
use e_platform.Learning.Model.{Enrollment, LessonProgress}
use e_platform.Learning.Selectors.{
  is_completed, unfinished, next_lesson_for, InProgress, annotated, courses_in_progress,
}

curriculum_total :
    (db : Model.Db) (x y : Lesson) → (curriculum db x y ≡ true) ⊎ (curriculum db y x ≡ true)
curriculum_total db x y = elim (Bool-cases (curriculum db x y)) [
  | inl e ↦ inl e
  | inr e ↦ inr (ground arith)
]

curriculum_trans :
    (db : Model.Db) (x y z : Lesson)
    → curriculum db x y ≡ true
    → curriculum db y z ≡ true
    → curriculum db x z ≡ true
curriculum_trans db x y z h k = ground arith

-- Where there is no next lesson, none is left.
none_left :
    (user course : ℕ) (catalogue : Model.Db) (progress : List LessonProgress)
    → next_lesson_for user course catalogue progress ≡ none
    → (z : Lesson) → In z catalogue.lessons
    → unfinished user course progress z ≡ false
unfolding next_lesson_for
none_left user course catalogue progress h z m =
    elim (Bool-cases (unfinished user course progress z)) [
      | inr e ↦ e
      | inl e ↦
          let left = filter-In (unfinished user course progress) z catalogue.lessons m e in
          let c = first-none (λ l. true) z _ h (sort-In (curriculum catalogue) z _ left) in
          absurd (ground arith)
    ]

left_one :
    (user course : ℕ) (catalogue : Model.Db) (progress : List LessonProgress) (l : Lesson)
    → next_lesson_for user course catalogue progress ≡ some l
    → In l catalogue.lessons × (unfinished user course progress l ≡ true)
unfolding next_lesson_for
left_one user course catalogue progress l h =
    In-filter (unfinished user course progress) l catalogue.lessons
      (In-sort (curriculum catalogue) l _ (first-In (λ l. true) l _ h).0)

earliest :
    (user course : ℕ) (catalogue : Model.Db) (progress : List LessonProgress) (l z : Lesson)
    → next_lesson_for user course catalogue progress ≡ some l
    → In z catalogue.lessons
    → unfinished user course progress z ≡ true
    → curriculum catalogue l z ≡ true
unfolding next_lesson_for
earliest user course catalogue progress l z h m e =
    first_least (curriculum catalogue) (curriculum_total catalogue) (curriculum_trans catalogue) l _
      h z (filter-In (unfinished user course progress) z catalogue.lessons m e)

-- The counts of a course are equal when no row of it is left.
counts_equal :
    (p q : Lesson → Bool) (rows : List Lesson)
    → ((z : Lesson) → In z rows → (p z && not (q z)) ≡ false)
    → count_by (λ l. p l && q l) rows ≡ count_by p rows
counts_equal p q [] h = refl
counts_equal p q (x ∷ rows) h =
    ground (arith, h x (inl refl), counts_equal p q rows (λ z m. h z (inr m)))

count_most :
    (p q : Lesson → Bool) (rows : List Lesson) → count_by (λ l. p l && q l) rows ≤ count_by p rows
count_most p q [] = omega arith
count_most p q (x ∷ rows) = ground (arith, count_most p q rows)

counts_differ :
    (p q : Lesson → Bool) (rows : List Lesson) (z : Lesson)
    → In z rows
    → (p z && not (q z)) ≡ true
    → count_by (λ l. p l && q l) rows < count_by p rows
counts_differ p q [] z m h = absurd m
counts_differ p q (x ∷ rows) z (inl e) h =
    let here : (p x && not (q x)) ≡ true = ap (λ y. p y && not (q y)) (sym e) ∙ h in
    ground (arith, count_most p q rows)
counts_differ p q (x ∷ rows) z (inr m) h = ground (arith, counts_differ p q rows z m h)

counts-none :
    (user : ℕ) (catalogue : Model.Db) (progress : List LessonProgress) (e : Enrollment)
    → let row = annotated user catalogue progress e in
      (row.next_lesson ≡ none) ↔ (row.completed_lesson_count ≡ row.lesson_count)
counts-none user catalogue progress e =
    elim (Option-cases (next_lesson_for user e.course catalogue progress)) [
      | inl done ↦ (
        λ h.
            counts_equal (λ l. l.course == e.course) (is_completed user progress) catalogue.lessons
              (none_left user e.course catalogue progress done),
        λ h. rw done,
      )
      | inr (l, next) ↦
          let (m, left) = left_one user e.course catalogue progress l next in
          let less =
            counts_differ (λ l. l.course == e.course) (is_completed user progress) catalogue.lessons
              l m left in
          (λ h. absurd (ground (arith, next)), λ h. absurd (omega (arith, less, h)))
    ]

-- The next lesson of a course is one of its lessons that the learner has not completed, and no
-- uncompleted lesson of the course comes before it in the curriculum. In "my courses" a row has no
-- next lesson exactly when its two counts are equal.
pub next_lesson_first :
    (user course : ℕ) (enrollments : List Enrollment) (catalogue : Model.Db)
    (progress : List LessonProgress)
    → ((l : Lesson)
        → next_lesson_for user course catalogue progress ≡ some l
        → In l catalogue.lessons
          × (unfinished user course progress l ≡ true)
          × ((z : Lesson)
              → In z catalogue.lessons
              → unfinished user course progress z ≡ true
              → curriculum catalogue l z ≡ true))
      × ((row : InProgress)
          → In row (courses_in_progress user enrollments catalogue progress)
          → (row.next_lesson ≡ none) ↔ (row.completed_lesson_count ≡ row.lesson_count))
unfolding courses_in_progress
next_lesson_first user course enrollments catalogue progress = (
  λ l h.
      let (m, left) = left_one user course catalogue progress l h in
      (m, left, λ z k e. earliest user course catalogue progress l z h k e),
  λ row m.
      let (e, _, same) = In-map (annotated user catalogue progress) row _ m in
      subst (λ r. (r.next_lesson ≡ none) ↔ (r.completed_lesson_count ≡ r.lesson_count)) (sym same)
        (counts-none user catalogue progress e),
)
