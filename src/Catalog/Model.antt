-- ===== src/Catalog/Model.antt =====
-- backend/apps/catalog/models.py: courses, sections, lessons and the review trail, with the
-- database's constraints on a row that is about to be written.
use e_platform.Prelude.{ℕ, Bool, true, false, not, ◌&&◌, ◌||◌, Option, List, ◌==◌, is_some}
use e_platform.Prelude.Rows.{exists_by}
use e_platform.Prelude.Text.{Text, text_eq}
use e_platform.Accounts.{User}
use e_platform.Core.Audit.{AuditLog}

pub data CourseStatus : Type 0 where
  draft in_review published archived : CourseStatus

pub data Level : Type 0 where
  a1 a2 b1 b2 c1 c2 : Level

-- `language` is a foreign key, `instructor` the account that it points to, and `search_vector` what
-- PostgreSQL made of the words, an opaque value.
pub record Course : Type 0 where
  pub pk : ℕ
  pub instructor : User
  pub slug : Text
  pub title : Text
  pub description : Text
  pub language : ℕ
  pub level : Level
  pub skill_areas : List Text
  pub status : CourseStatus
  pub published_at : Option ℕ
  pub search_vector : Option ℕ

-- `CourseReviewEvent.Action`
pub data ReviewAction : Type 0 where
  submitted approved rejected changes_requested : ReviewAction

pub record CourseReviewEvent : Type 0 where
  pub course : ℕ
  pub actor : ℕ
  pub action : ReviewAction
  pub notes : Text

pub record Section : Type 0 where
  pub pk : ℕ
  pub course : ℕ
  pub title : Text
  pub position : ℕ

pub data LessonType : Type 0 where
  video audio text resource : LessonType

pub record Lesson : Type 0 where
  pub pk : ℕ
  pub course : ℕ
  pub section : ℕ
  pub slug : Text
  pub title : Text
  pub body : Text
  pub lesson_type : LessonType
  pub position : ℕ
  pub is_preview : Bool

-- A message that is queued when the transaction commits.
pub data Message : Type 0 where
  course_submitted : Text → Text → Text → Message  -- to, course_title, instructor_name
  course_reviewed : Text → Text → Text → Text → Message  -- to, course_title, decision, notes

pub record Db : Type 0 where
  pub courses : List Course
  pub sections : List Section
  pub lessons : List Lesson
  pub review_events : List CourseReviewEvent
  pub audit : List AuditLog
  pub outbox : List Message

abbrev pub is_published : CourseStatus → Bool
is_published published = true
is_published draft = false
is_published in_review = false
is_published archived = false

-- `unique=True` on the slug, and `course_published_has_published_at`.
unfoldable pub admits_course : Course → List Course → Bool
admits_course c rows =
    not (exists_by (λ r. text_eq r.slug c.slug && not (r.pk == c.pk)) rows)
    && (is_some c.published_at || not (is_published c.status))

-- `section_position_unique_per_course`
unfoldable pub admits_section : Section → List Section → Bool
admits_section s rows =
    not
      (exists_by (λ r. r.course == s.course && r.position == s.position && not (r.pk == s.pk)) rows)

-- `lesson_slug_unique_per_course` and `lesson_position_unique_per_section`
unfoldable pub admits_lesson : Lesson → List Lesson → Bool
admits_lesson l rows =
    not (exists_by (λ r. r.course == l.course && text_eq r.slug l.slug && not (r.pk == l.pk)) rows)
    && not (
        exists_by (λ r. r.section == l.section && r.position == l.position && not (r.pk == l.pk))
          rows)
