-- ===== src/Catalog/Lessons.antt =====
-- backend/apps/catalog/learning_views.py: a lesson in full, behind the two gates; the second is
-- `IsEntitledToLesson` of backend/apps/entitlements/permissions.py, with the refusal of exceptions.py.
use e_platform.Prelude.{ℕ, Bool, ◌&&◌, Option, none, some, ◌==◌, if◌then◌else◌}
use e_platform.Prelude.Rows.{first_by, exists_by}
use e_platform.Prelude.Text.{Text, text_eq}
use e_platform.Accounts.{Visitor}
use e_platform.Catalog.Model.{Course, Lesson, Db}
use e_platform.Catalog.Selectors.{lessons_visible_to}
use e_platform.Entitlements.Model as Billing
use e_platform.Entitlements.Resolver
use e_platform.Entitlements.Resolver.{AccessDecision, Reason, Cta, resolve_access}

-- `denied_403` carries the extensions of `EntitlementDenied`; a 500 is a lesson without a course,
-- or a `KeyError` of the resolver.
pub data ReadReply : Type 0 where
  served_200 : Lesson → ReadReply
  denied_403 : Reason → Option Cta → ReadReply
  not_found_404 server_error_500 : ReadReply

-- `ENTITLEMENT_GRACE_PERIOD_DAYS`, the billing tables, and two readings of the clock.
pub record Gate : Type 0 where
  pub grace_days : ℕ
  pub billing : Billing.Db
  pub now : ℕ
  pub override_now : ℕ

-- What the resolver reads of a lesson and its course.
abbrev pub gated : Lesson → Course → Resolver.Lesson
gated l c = record {
  pk = l.pk;
  course = l.course;
  instructor = c.instructor.pk;
  is_preview = l.is_preview;
}

-- `IsEntitledToLesson.has_object_permission`, and the lesson in full.
abbrev pub judged : Lesson → Option AccessDecision → ReadReply
judged l none = server_error_500
judged l (some d) = if d.allowed then served_200 l else denied_403 d.reason d.cta

abbrev pub permit : Gate → Visitor → Lesson → Option Course → ReadReply
permit gate visitor l none = server_error_500
permit gate visitor l (some c) =
    judged l
      (resolve_access gate.grace_days gate.billing gate.now gate.override_now visitor (gated l c))

abbrev pub course_of : Db → Lesson → Option Course
course_of db l = first_by (λ c. c.pk == l.course) db.courses

abbrev pub read_lesson : Gate → Visitor → Option Lesson → Db → ReadReply
read_lesson gate visitor none db = not_found_404
read_lesson gate visitor (some l) db = permit gate visitor l (course_of db l)

-- `LessonViewSet.retrieve`
unfoldable pub retrieve : Gate → Visitor → ℕ → Db → ReadReply
retrieve gate visitor pk db =
    read_lesson gate visitor (first_by (λ l. l.pk == pk) (lessons_visible_to visitor db)) db

abbrev pub at_slugs : Text → Text → Db → Lesson → Bool
at_slugs course_slug lesson_slug db l =
    exists_by (λ c. c.pk == l.course && text_eq c.slug course_slug) db.courses
    && text_eq l.slug lesson_slug

-- `LessonBySlugView.get`
unfoldable pub retrieve_by_slug : Gate → Visitor → Text → Text → Db → ReadReply
retrieve_by_slug gate visitor course_slug lesson_slug db =
    read_lesson gate visitor
      (first_by (at_slugs course_slug lesson_slug db) (lessons_visible_to visitor db)) db
