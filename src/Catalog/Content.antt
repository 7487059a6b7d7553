-- ===== src/Catalog/Content.antt =====
-- The content services of backend/apps/catalog/services.py: courses, sections and lessons are
-- created and edited by the instructor who owns the course.
use e_platform.Prelude.{ℕ, Bool, true, false, Option, none, some, List, [], ◌∷◌, ◌==◌, get_or, refl}
use e_platform.Prelude.Rows.{update_by}
use e_platform.Prelude.Result.{Result, ok, err, ◌>>=◌, ◌>>◌, require}
use e_platform.Prelude.Text.{Text}
use e_platform.Accounts.{User}
use e_platform.Catalog.Model.{
  Level, draft, Course, Section, Lesson, LessonType, Db, admits_course, admits_section,
  admits_lesson,
}
use e_platform.Catalog.Order.{Positioned, OrderError, apply_order}
use e_platform.Catalog.Review.{
  CatalogError, not_permitted, integrity_error, refused_order, require_owner,
}

pub data Weight : Type 0 where
  a b c : Weight

-- What `refresh_search_vector` uses of PostgreSQL: `SearchVector(Cast(field), weight=...)` of a
-- text or of a JSON list, and the sum of vectors.
pub record TextSearch : Type 0 where
  pub text_part : Weight → Text → ℕ
  pub list_part : Weight → List Text → ℕ
  pub plus : ℕ → ℕ → ℕ

-- The vector of a course's words, in the order of SEARCH_WEIGHTS.
abbrev pub vector_of : TextSearch → Course → ℕ
vector_of search course =
    search.plus
      (search.plus (search.text_part a course.title) (search.list_part b course.skill_areas))
      (search.text_part c course.description)

abbrev pub with_vector : TextSearch → Course → Course
with_vector search course = record course { search_vector = some (vector_of search course) }

-- `refresh_search_vector`: an `update()` of the stored row.
unfoldable pub refresh_search_vector : TextSearch → ℕ → Db → Db
refresh_search_vector search pk db = record db {
  courses = update_by (λ r. r.pk == pk) (with_vector search) db.courses;
}

abbrev pub insert_course : Course → Db → Db
insert_course course db = record db { courses = course ∷ db.courses }

-- The row that `create_course` inserts.
abbrev pub new_course : ℕ → User → Text → Text → ℕ → Level → Text → Option (List Text) → Course
new_course pk instructor slug title language level description skill_areas = record {
  pk = pk;
  instructor = instructor;
  slug = slug;
  title = title;
  description = description;
  language = language;
  level = level;
  skill_areas = get_or skill_areas [];
  status = draft;
  published_at = none;
  search_vector = none;
}

unfoldable pub create_course :
    TextSearch
    → ℕ
    → User
    → Text
    → Text
    → ℕ
    → Level
    → Text
    → Option (List Text)
    → Db
    → Result CatalogError (Course × Db)
unfolding refresh_search_vector
create_course search pk instructor slug title language level description skill_areas db = do
  let course = new_course pk instructor slug title language level description skill_areas
  require (admits_course course db.courses) integrity_error
  ok (course, refresh_search_vector search pk (insert_course course db))

-- The optional fields of an edit; `none` is an omitted field.
pub record CourseEdit : Type 0 where
  pub slug : Option Text
  pub title : Option Text
  pub description : Option Text
  pub language : Option ℕ
  pub level : Option Level
  pub skill_areas : Option (List Text)

abbrev pub edit_course : CourseEdit → Course → Course
edit_course edit course = record course {
  slug = get_or edit.slug course.slug;
  title = get_or edit.title course.title;
  description = get_or edit.description course.description;
  language = get_or edit.language course.language;
  level = get_or edit.level course.level;
  skill_areas = get_or edit.skill_areas course.skill_areas;
}

-- `update_course`: `save()` writes every column of the instance.
unfoldable pub update_course :
    TextSearch → Course → User → CourseEdit → Db → Result CatalogError (Course × Db)
unfolding refresh_search_vector
update_course search course user edit db = do
  require_owner course user
  let edited = edit_course edit course
  require (admits_course edited db.courses) integrity_error
  ok (
    edited,
    refresh_search_vector search course.pk
        (record db { courses = update_by (λ r. r.pk == course.pk) (λ r. edited) db.courses }),
  )

unfoldable pub create_section :
    ℕ → Course → User → Text → ℕ → Db → Result CatalogError (Section × Db)
create_section pk course user title position db = do
  require_owner course user
  let section : Section = record { pk = pk; course = course.pk; title = title; position = position }
  require (admits_section section db.sections) integrity_error
  ok (section, record db { sections = section ∷ db.sections })

abbrev pub edit_section : Option Text → Option ℕ → Section → Section
edit_section title position s = record s {
  title = get_or title s.title;
  position = get_or position s.position;
}

unfoldable pub update_section :
    Section → Course → User → Option Text → Option ℕ → Db → Result CatalogError (Section × Db)
update_section section course user title position db = do
  require_owner course user
  require (section.course == course.pk) not_permitted
  let edited = edit_section title position section
  require (admits_section edited db.sections) integrity_error
  ok (
    edited,
    record db { sections = update_by (λ s. s.pk == section.pk) (λ s. edited) db.sections },
  )

unfoldable pub create_lesson :
    ℕ
    → Course
    → Section
    → User
    → Text
    → Text
    → ℕ
    → Text
    → LessonType
    → Db
    → Result CatalogError (Lesson × Db)
create_lesson pk course section user slug title position body lesson_type db = do
  require_owner course user
  require (section.course == course.pk) not_permitted
  let lesson : Lesson = record {
    pk = pk;
    course = course.pk;
    section = section.pk;
    slug = slug;
    title = title;
    body = body;
    lesson_type = lesson_type;
    position = position;
    is_preview = false;
  }
  require (admits_lesson lesson db.lessons) integrity_error
  ok (lesson, record db { lessons = lesson ∷ db.lessons })

pub record LessonEdit : Type 0 where
  pub section : Option Section
  pub slug : Option Text
  pub title : Option Text
  pub position : Option ℕ
  pub body : Option Text
  pub lesson_type : Option LessonType

-- `section is not None and section.course_id != course.pk`, negated.
abbrev pub section_fits : Option Section → Course → Bool
section_fits none course = true
section_fits (some section) course = section.course == course.pk

abbrev pub section_pk : Option Section → ℕ → ℕ
section_pk none pk = pk
section_pk (some section) pk = section.pk

abbrev pub edit_lesson : LessonEdit → Lesson → Lesson
edit_lesson edit l = record l {
  section = section_pk edit.section l.section;
  slug = get_or edit.slug l.slug;
  title = get_or edit.title l.title;
  position = get_or edit.position l.position;
  body = get_or edit.body l.body;
  lesson_type = get_or edit.lesson_type l.lesson_type;
}

unfoldable pub update_lesson :
    Lesson → Course → User → LessonEdit → Db → Result CatalogError (Lesson × Db)
update_lesson lesson course user edit db = do
  require_owner course user
  require (lesson.course == course.pk) not_permitted
  require (section_fits edit.section course) not_permitted
  let edited = edit_lesson edit lesson
  require (admits_lesson edited db.lessons) integrity_error
  ok (edited, record db { lessons = update_by (λ l. l.pk == lesson.pk) (λ l. edited) db.lessons })

abbrev pub section_order : Positioned Section
section_order = record {
  pk = λ s. s.pk;
  position = λ s. s.position;
  write = λ n s. record s { position = n };
  pk-write = λ n s. refl;
  position-write = λ n s. refl;
  write-write = λ m n s. refl;
  write-position = λ s. refl;
}

abbrev pub lesson_order : Positioned Lesson
lesson_order = record {
  pk = λ l. l.pk;
  position = λ l. l.position;
  write = λ n l. record l { position = n };
  pk-write = λ n l. refl;
  position-write = λ n l. refl;
  write-write = λ m n l. refl;
  write-position = λ l. refl;
}

abbrev pub in_catalog : {A : Type 0} → Result OrderError A → Result CatalogError A
in_catalog (ok rows) = ok rows
in_catalog (err e) = err refused_order

unfoldable pub reorder_sections : Course → List ℕ → Db → Result CatalogError Db
reorder_sections course ordered_ids db = do
  rows ← in_catalog (apply_order section_order (λ s. s.course == course.pk) ordered_ids db.sections)
  ok (record db { sections = rows })

unfoldable pub reorder_lessons : Section → List ℕ → Db → Result CatalogError Db
reorder_lessons section ordered_ids db = do
  rows ← in_catalog (apply_order lesson_order (λ l. l.section == section.pk) ordered_ids db.lessons)
  ok (record db { lessons = rows })
