-- ===== src/Learning/Model.antt =====
-- backend/apps/learning/models.py: enrolments and progress, with the columns that the services
-- read, and the settings and readings of the clock that a service call uses.
use e_platform.Prelude.{ℕ, Bool, Option, List, ◌&&◌, leb}
use e_platform.Media.Model.{MediaAsset}
use e_platform.Entitlements.Resolver.{Lesson}

-- `user` and `course` are unique together.
pub record Enrollment : Type 0 where
  pub user : ℕ
  pub course : ℕ
  pub last_lesson : Option ℕ
  pub completed_at : Option ℕ

-- `user` and `lesson` are unique together.
pub record LessonProgress : Type 0 where
  pub user : ℕ
  pub lesson : ℕ
  pub last_position_seconds : ℕ
  pub max_position_seconds : ℕ
  pub watched_seconds : ℕ
  pub completed_at : Option ℕ

pub record Db : Type 0 where
  pub lessons : List Lesson
  pub assets : List MediaAsset
  pub enrollments : List Enrollment
  pub progress : List LessonProgress

-- The range of a `PositiveIntegerField`, and `max_position_is_at_least_last`.
abbrev pub field_max : ℕ
field_max = 2147483647

unfoldable pub admits_progress : LessonProgress → Bool
admits_progress p =
    leb p.last_position_seconds p.max_position_seconds
    && leb p.max_position_seconds field_max
    && leb p.watched_seconds field_max

-- `LESSON_COMPLETION_THRESHOLD` is the fraction `threshold / threshold_of`.
pub record Settings : Type 0 where
  pub grace_days : ℕ
  pub max_heartbeat_seconds : ℕ
  pub threshold : ℕ
  pub threshold_of : ℕ

-- The successive readings of the clock in one call.
pub record Clock : Type 0 where
  pub override : ℕ
  pub resolver : ℕ
  pub lesson_done : ℕ
  pub course_done : ℕ
