-- ===== src/Learning/Completion.antt =====
-- When `course_is_complete` of backend/apps/learning/services.py says yes: its two counts against
-- the rule that its comment gives.
use e_platform.Prelude.{
  ℕ, ◌≤◌, ◌<◌, ◌≡◌, ◌↔◌, inl, inr, refl, sym, subst, Bool, true, ◌&&◌, List, [], ◌∷◌, map, ◌==◌,
  ==→eq, is_some, arith, Bool-cases,
}
use e_platform.Prelude.Rows.{filter_by, count_by, length}
use e_platform.Prelude.Members.{In, In-map, map-In, In-filter, filter-In, exists-In, In-exists}
use e_platform.Prelude.Distinct.{
  IsDistinct, distinct-all, length-distinct, length-filter, filter-IsDistinct,
}
use e_platform.Prelude.Paired
use e_platform.Entitlements.Resolver.{Lesson}
use e_platform.Learning.Model.{LessonProgress, Db}
use e_platform.Learning.Services.{is_finished, course_is_complete}

abbrev pub progress_user : LessonProgress → ℕ
progress_user p = p.user

abbrev pub progress_lesson : LessonProgress → ℕ
progress_lesson p = p.lesson

abbrev pub lesson_pk : Lesson → ℕ
lesson_pk l = l.pk

-- The learner has a completed progress row for the lesson.
abbrev pub HasFinished : ℕ → Db → Lesson → Type 0
HasFinished user db l =
    (p : LessonProgress) × In p db.progress
    × (p.user ≡ user)
    × (p.lesson ≡ l.pk)
    × (is_some p.completed_at ≡ true)

module _ (user course : ℕ) (db : Db) (lessons_distinct : IsDistinct (map lesson_pk db.lessons))
    (progress_unique : Paired.IsUnique progress_user progress_lesson db.progress) where
  abbrev of_course : Lesson → Bool
  of_course l = l.course == course

  abbrev done : LessonProgress → Bool
  done = is_finished user course db.lessons

  abbrev all : List ℕ
  all = map lesson_pk (filter_by of_course db.lessons)

  abbrev finished : List ℕ
  finished = map progress_lesson (filter_by done db.progress)

  finished_once :
      (rows : List LessonProgress)
      → Paired.IsUnique progress_user progress_lesson rows
      → IsDistinct (map progress_lesson (filter_by done rows))
  finished_once [] u = tt
  finished_once (p ∷ rows) (fresh, u) = elim (Bool-cases (done p)) [
    | inr e ↦ rw e (finished_once rows u)
    | inl e ↦ rw e (
      λ m.
          let (q, k, s) = In-map progress_lesson p.lesson (filter_by done rows) m in
          let (inside, d) = In-filter done q rows k in
          ground (
            arith,
            In-exists (Paired.at progress_user progress_lesson p.user p.lesson) q rows inside,
          ),
      finished_once rows u,
    )
  ]

  finished-all : (i : ℕ) → In i finished → In i all
  finished-all i m =
      let (p, k, s) = In-map progress_lesson i (filter_by done db.progress) m in
      let (inside, d) = In-filter done p db.progress k in
      let (l, j, e) =
        exists-In (λ l. l.pk == p.lesson && l.course == course) db.lessons (ground arith) in
      let at : l.pk ≡ i = ground arith in
      subst (λ n. In n all) at
        (map-In lesson_pk l (filter_by of_course db.lessons)
          (filter-In of_course l db.lessons j (ground arith)))

  counts-finished : count_by done db.progress ≡ length finished
  counts-finished = sym (length-filter progress_lesson done db.progress)

  counts-all : count_by of_course db.lessons ≡ length all
  counts-all = sym (length-filter lesson_pk of_course db.lessons)

  finished-HasFinished : (l : Lesson) → In l.pk finished → HasFinished user db l
  finished-HasFinished l m =
      let (p, k, s) = In-map progress_lesson l.pk (filter_by done db.progress) m in
      let (inside, d) = In-filter done p db.progress k in
      (p, inside, ground arith, sym s, ground arith)

  HasFinished-finished :
      (l : Lesson) → In l db.lessons → l.course ≡ course → HasFinished user db l → In l.pk finished
  HasFinished-finished l m at (p, k, who, what, c) =
      let joined =
        In-exists (λ x. x.pk == p.lesson && x.course == course) l db.lessons m (ground arith) in
      subst (λ n. In n finished) what
        (map-In progress_lesson p (filter_by done db.progress)
          (filter-In done p db.progress k (ground arith)))

  any_lesson :
      (rows : List Lesson)
      → 0 < count_by of_course rows
      → (l : Lesson) × In l rows × (l.course ≡ course)
  any_lesson [] h = absurd (omega arith)
  any_lesson (l ∷ rows) h = elim (Bool-cases (of_course l)) [
    | inl e ↦ (l, inl refl, ==→eq l.course course e)
    | inr e ↦ let (x, m, at) = any_lesson rows (ground arith) in (x, inr m, at)
  ]

  some_lesson :
      (rows : List Lesson) (l : Lesson)
      → In l rows
      → l.course ≡ course
      → 0 < count_by of_course rows
  some_lesson [] l m at = absurd m
  some_lesson (x ∷ rows) l m at = ground (arith, some_lesson rows l)

  complete-all :
      course_is_complete user course db ≡ true
      → ((l : Lesson) × In l db.lessons × (l.course ≡ course))
        × ((l : Lesson) → In l db.lessons → l.course ≡ course → HasFinished user db l)
  unfolding course_is_complete
  complete-all h =
      let some_one : 0 < count_by of_course db.lessons = ground arith in
      let enough : count_by of_course db.lessons ≤ count_by done db.progress = ground arith in
      (
        any_lesson db.lessons some_one,
        λ l m at. finished-HasFinished l (
            distinct-all finished all (finished_once db.progress progress_unique) finished-all
              (omega (arith, enough, counts-finished, counts-all)) l.pk
              (map-In lesson_pk l (filter_by of_course db.lessons)
                (filter-In of_course l db.lessons m (ground arith)))),
      )

  all_complete :
      ((l : Lesson) × In l db.lessons × (l.course ≡ course))
      → ((l : Lesson) → In l db.lessons → l.course ≡ course → HasFinished user db l)
      → course_is_complete user course db ≡ true
  unfolding course_is_complete
  all_complete (l, m, at) every =
      let into : (i : ℕ) → In i all → In i finished = λ i k.
        let (x, j, s) = In-map lesson_pk i (filter_by of_course db.lessons) k in
        let (inside, o) = In-filter of_course x db.lessons j in
        subst (λ n. In n finished) (sym s)
          (HasFinished-finished x inside (==→eq x.course course o)
            (every x inside (==→eq x.course course o))) in
      let most =
        length-distinct all finished
          (filter-IsDistinct lesson_pk of_course db.lessons lessons_distinct) into in
      let nonzero = some_lesson db.lessons l m at in
      let enough : count_by of_course db.lessons ≤ count_by done db.progress =
        omega (arith, most, counts-finished, counts-all) in
      ground arith

  -- With lessons and progress rows that are unique as the database keeps them,
  -- `course_is_complete` holds exactly when the course has a lesson and the learner has a
  -- completed progress row for every lesson of it.
  pub course_is_complete-all : (course_is_complete user course db ≡ true) ↔ (
      ((l : Lesson) × In l db.lessons × (l.course ≡ course))
      × ((l : Lesson) → In l db.lessons → l.course ≡ course → HasFinished user db l))
  course_is_complete-all = (complete-all, λ h. all_complete h.0 h.1)
