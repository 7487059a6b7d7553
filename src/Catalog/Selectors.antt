-- ===== src/Catalog/Selectors.antt =====
-- backend/apps/catalog/selectors.py: what an instructor, a visitor and a learner can find.
use e_platform.Prelude.{
  ℕ, ◌+◌, Bool, true, false, not, ◌&&◌, ◌||◌, Option, none, some, List, [], ◌∷◌, ◌==◌, ltb, leb,
  if◌then◌else◌, map, is_some, get_or,
}
use e_platform.Prelude.Rows.{filter_by, count_by, exists_by, first_by, length}
use e_platform.Prelude.Sorting.{sort_by, take_first}
use e_platform.Prelude.Text.{Text, text_eq, strip, is_nonempty, is_space}
use e_platform.Accounts.{User, is_admin_role, Visitor, absent, anonymous, account}
use e_platform.Catalog.Model.{
  Course, Level, a1, a2, b1, b2, c1, c2, CourseReviewEvent, Section, Lesson, LessonType, video,
  audio, text, resource, Db, is_published,
}
use e_platform.Media.Model.{MediaAsset}

-- The rows are newest first, as `order_by("-created_at")` has them.
unfoldable pub courses_for_instructor : User → Db → List Course
courses_for_instructor user db = filter_by (λ c. c.instructor.pk == user.pk) db.courses

unfoldable pub sections_for_course : ℕ → Db → List Section
sections_for_course course db =
    sort_by (λ a b. leb a.position b.position) (filter_by (λ s. s.course == course) db.sections)

-- `section__position`
abbrev pub section_position : Db → Lesson → ℕ
section_position db l = elim (first_by (λ s. s.pk == l.section) db.sections) [
  | none ↦ 0
  | some s ↦ s.position
]

-- By the section's position, then the lesson's.
abbrev pub curriculum : Db → Lesson → Lesson → Bool
curriculum db a b =
    ltb (section_position db a) (section_position db b)
    || (section_position db a == section_position db b && leb a.position b.position)

unfoldable pub lessons_for_course : ℕ → Db → List Lesson
lessons_for_course course db =
    sort_by (curriculum db) (filter_by (λ l. l.course == course) db.lessons)

unfoldable pub review_events_for_course : ℕ → Db → List CourseReviewEvent
review_events_for_course course db = filter_by (λ e. e.course == course) db.review_events

-- A published course has a date: PostgreSQL puts a NULL first here.
abbrev pub newer : Course → Course → Bool
newer a b = elim a.published_at [
  | none ↦ true
  | some x ↦ elim b.published_at [ none ↦ false | some y ↦ leb y x ]
]

unfoldable pub published_courses : Db → List Course
published_courses db = sort_by newer (filter_by (λ c. is_published c.status) db.courses)

-- `LessonType.with_media`
abbrev pub with_media : LessonType → Bool
with_media video = true
with_media audio = true
with_media text = false
with_media resource = false

-- `media_asset`, by the lesson that it belongs to.
abbrev pub asset_of : List MediaAsset → Lesson → Option MediaAsset
asset_of assets l = first_by (λ a. a.lesson == l.pk) assets

-- `_COUNTS_TOWARD_DURATION`
abbrev pub counts_toward_duration : List MediaAsset → Lesson → Bool
counts_toward_duration assets l = with_media l.lesson_type || is_some (asset_of assets l)

abbrev pub duration_of : List MediaAsset → Lesson → Option ℕ
duration_of assets l = elim (asset_of assets l) [ none ↦ none | some a ↦ a.duration_seconds ]

abbrev pub sum_durations : List MediaAsset → List Lesson → ℕ
sum_durations assets [] = 0
sum_durations assets (l ∷ ls) = get_or (duration_of assets l) 0 + sum_durations assets ls

-- `_TOTAL_DURATION`
unfoldable pub total_duration : List MediaAsset → ℕ → Db → Option ℕ
total_duration assets course db =
    let measurable =
      filter_by (λ l. counts_toward_duration assets l && l.course == course) db.lessons in
    if length measurable == 0
    then none
    else if length measurable == count_by (λ l. is_some (duration_of assets l)) measurable
    then some (sum_durations assets measurable)
    else none

-- A course page: the course, its length, and its sections with their lessons.
pub record CourseDetail : Type 0 where
  pub course : Course
  pub total_duration_seconds : Option ℕ
  pub sections : List (Section × List Lesson)

abbrev pub section_lessons : Db → Section → Section × List Lesson
section_lessons db s =
    (s, sort_by (λ a b. leb a.position b.position) (filter_by (λ l. l.section == s.pk) db.lessons))

-- `none` is `Course.DoesNotExist`.
unfoldable pub published_course_detail : List MediaAsset → Text → Db → Option CourseDetail
published_course_detail assets slug db =
    elim (first_by (λ c. text_eq c.slug slug) (published_courses db)) [
      | none ↦ none
      | some c ↦ some (record {
        course = c;
        total_duration_seconds = total_duration assets c.pk db;
        sections = map (section_lessons db) (sections_for_course c.pk db);
      })
    ]

pub record Language : Type 0 where
  pub pk : ℕ
  pub code : Text
  pub name : Text
  pub is_active : Bool

-- `name_le` is the collation of the database.
unfoldable pub languages_with_published_courses :
    (Text → Text → Bool) → List Language → Db → List Language
languages_with_published_courses name_le languages db =
    sort_by (λ a b. name_le a.name b.name)
      (filter_by (λ l. exists_by (λ c. c.language == l.pk && is_published c.status) db.courses)
        languages)

-- The `Q` of `lessons_visible_to`, on the course of a lesson.
abbrev pub sees : Visitor → Course → Bool
sees absent c = is_published c.status
sees anonymous c = is_published c.status
sees (account user) c =
    (is_admin_role user.role || user.is_superuser)
    || (is_published c.status || c.instructor.pk == user.pk)

unfoldable pub lessons_visible_to : Visitor → Db → List Lesson
lessons_visible_to visitor db =
    filter_by (λ l. exists_by (λ c. c.pk == l.course && sees visitor c) db.courses) db.lessons

abbrev pub search_limit : ℕ
search_limit = 50

abbrev pub max_query_length : ℕ
max_query_length = 200

-- PostgreSQL's full text and trigram search on the cleaned query, with ranks as numbers, and
-- `str.isprintable`. `similar` is a similarity that reaches TRIGRAM_THRESHOLD.
pub record Search : Type 0 where
  pub is_printable : ℕ → Bool
  pub matches : Text → Course → Bool
  pub rank : Text → Course → ℕ
  pub similar : Text → Course → Bool
  pub similarity : Text → Course → ℕ

abbrev pub cleaned : Search → Text → Text
cleaned engine query =
    take_first max_query_length (strip (filter_by (λ c. engine.is_printable c || is_space c) query))

-- By a number, the greater first, then the newer.
abbrev pub better : (Course → ℕ) → Course → Course → Bool
better score a b = ltb (score b) (score a) || (score b == score a && newer a b)

abbrev pub full_text : Search → Text → ℕ → Db → List Course
full_text engine query limit db =
    take_first limit (
      sort_by (better (engine.rank query))
        (filter_by (engine.matches query) (published_courses db)))

abbrev pub trigram : Search → Text → ℕ → Db → List Course
trigram engine query limit db = take_first limit (
    sort_by (better (engine.similarity query))
      (filter_by (engine.similar query) (published_courses db)))

unfoldable pub search_published_courses : Search → Text → ℕ → Db → List Course
search_published_courses engine query limit db =
    let words = cleaned engine query in
    if not (is_nonempty words)
    then []
    else if not (length (full_text engine words limit db) == 0)
    then full_text engine words limit db
    else trigram engine words limit db

abbrev pub level_eq : Level → Level → Bool
level_eq a1 a1 = true
level_eq a2 a2 = true
level_eq b1 b1 = true
level_eq b2 b2 = true
level_eq c1 c1 = true
level_eq c2 c2 = true
level_eq _ _ = false

-- `skill_areas__contains=[area]`
abbrev pub has_area : Text → Course → Bool
has_area area c = exists_by (λ a. text_eq a area) c.skill_areas

-- An omitted filter is `none`; the language is the row that the code names.
abbrev pub narrow : {A : Type 0} → (A → Course → Bool) → Option A → List Course → List Course
narrow p none rows = rows
narrow p (some a) rows = filter_by (p a) rows

unfoldable pub filtered_published_courses : Option ℕ → Option Level → Option Text → Db → List Course
filtered_published_courses language level skill_area db = narrow has_area skill_area (
    narrow (λ v c. level_eq c.level v) level
      (narrow (λ n c. c.language == n) language (published_courses db)))

abbrev pub related_limit : ℕ
related_limit = 6

-- One point for each area of the course that the candidate has.
abbrev pub overlap : List Text → Course → ℕ
overlap areas c = count_by (λ area. has_area area c) areas

abbrev pub same_level : Course → Course → ℕ
same_level course c = if level_eq c.level course.level then 1 else 0

abbrev pub closer : Course → Course → Course → Bool
closer course a b =
    ltb (overlap course.skill_areas b) (overlap course.skill_areas a)
    || (overlap course.skill_areas b == overlap course.skill_areas a
        && better (same_level course) a b)

unfoldable pub related_courses : Course → ℕ → Db → List Course
related_courses course limit db = take_first limit (
    sort_by (closer course) (
      filter_by (λ c. c.language == course.language && not (c.pk == course.pk))
        (published_courses db)))
