-- ===== src/Learning/Selectors.antt =====
-- backend/apps/learning/selectors.py: "my courses", and what to play next.
use e_platform.Prelude.{ℕ, Bool, true, not, ◌&&◌, Option, none, some, List, ◌==◌, map, is_some}
use e_platform.Prelude.Rows.{filter_by, count_by, exists_by, first_by}
use e_platform.Prelude.Sorting.{sort_by}
use e_platform.Prelude.Text.{Text}
use e_platform.Catalog.Model
use e_platform.Catalog.Model.{Lesson}
use e_platform.Catalog.Selectors.{curriculum}
use e_platform.Learning.Model.{Enrollment, LessonProgress}

-- `_completed_lesson_ids`, as a test
abbrev pub is_completed : ℕ → List LessonProgress → Lesson → Bool
is_completed user progress l =
    exists_by (λ p. p.user == user && p.lesson == l.pk && is_some p.completed_at) progress

abbrev pub unfinished : ℕ → ℕ → List LessonProgress → Lesson → Bool
unfinished user course progress l = l.course == course && not (is_completed user progress l)

-- `next_lesson_for`, the first row of the remaining lessons in curriculum order.
unfoldable pub next_lesson_for : ℕ → ℕ → Model.Db → List LessonProgress → Option Lesson
next_lesson_for user course catalogue progress =
    first_by (λ l. true)
      (sort_by (curriculum catalogue)
        (filter_by (unfinished user course progress) catalogue.lessons))

abbrev pub pk_of : Option Lesson → Option ℕ
pk_of none = none
pk_of (some l) = some l.pk

abbrev pub slug_of : Option Lesson → Option Text
slug_of none = none
slug_of (some l) = some l.slug

-- One row of "my courses". `last_activity` is a maximum of dates that the model does not keep.
pub record InProgress : Type 0 where
  pub enrollment : Enrollment
  pub lesson_count : ℕ
  pub completed_lesson_count : ℕ
  pub next_lesson : Option ℕ
  pub next_lesson_slug : Option Text

abbrev pub annotated : ℕ → Model.Db → List LessonProgress → Enrollment → InProgress
annotated user catalogue progress e = record {
  enrollment = e;
  lesson_count = count_by (λ l. l.course == e.course) catalogue.lessons;
  completed_lesson_count =
      count_by (λ l. l.course == e.course && is_completed user progress l) catalogue.lessons;
  next_lesson = pk_of (next_lesson_for user e.course catalogue progress);
  next_lesson_slug = slug_of (next_lesson_for user e.course catalogue progress);
}

unfoldable pub courses_in_progress :
    ℕ → List Enrollment → Model.Db → List LessonProgress → List InProgress
courses_in_progress user enrollments catalogue progress =
    map (annotated user catalogue progress) (filter_by (λ e. e.user == user) enrollments)
