-- ===== src/Learning/Services.antt =====
-- backend/apps/learning/services.py: folding heartbeats into progress, and completion of lessons
-- and courses. `LESSON_COMPLETION_THRESHOLD` is compared as an exact fraction.
use e_platform.Prelude.{
  ℕ, zero, suc, ◌+◌, ◌*◌, min, max, Bool, true, false, not, ◌&&◌, Option, none, some, List, ◌∷◌,
  ◌==◌, leb, if◌then◌else◌, is_some,
}
use e_platform.Prelude.Integers.{ℤ, clamp}
use e_platform.Prelude.Rows.{exists_by, first_by, count_by, update_by}
use e_platform.Prelude.Result.{Result, ok, ◌>>=◌, ◌>>◌, require, or_raise}
use e_platform.Accounts.{User, account}
use e_platform.Media.Model.{MediaAsset}
use e_platform.Entitlements.Resolver.{Lesson, AccessDecision, resolve_access}
use e_platform.Entitlements.Model
use e_platform.Learning.Model.{Enrollment, LessonProgress, Db, admits_progress, Settings, Clock}

pub data LearningError : Type 0 where
  entitlement_denied : AccessDecision → LearningError
  key_error data_error : LearningError

pub record Heartbeat : Type 0 where
  pub position_seconds : ℤ
  pub watched_delta_seconds : ℤ

abbrev duration_of : Option MediaAsset → Option ℕ
duration_of none = none
duration_of (some asset) = asset.duration_seconds

-- `_lesson_duration`
unfoldable pub lesson_duration : ℕ → Db → Option ℕ
lesson_duration lesson db = duration_of (first_by (λ a. a.lesson == lesson) db.assets)

-- `if not duration_seconds` covers `None` and zero.
unfoldable pub is_complete : Settings → ℕ → Option ℕ → Bool
is_complete settings watched none = false
is_complete settings watched (some zero) = false
is_complete settings watched (some (suc d)) =
    leb ((suc d) * settings.threshold) (watched * settings.threshold_of)

-- A progress row of `user` in the course, by the join on the lesson, that is completed.
abbrev pub in_course : ℕ → List Lesson → LessonProgress → Bool
in_course course lessons p = exists_by (λ l. l.pk == p.lesson && l.course == course) lessons

abbrev pub is_finished : ℕ → ℕ → List Lesson → LessonProgress → Bool
is_finished user course lessons p =
    p.user == user && in_course course lessons p && is_some p.completed_at

unfoldable pub course_is_complete : ℕ → ℕ → Db → Bool
course_is_complete user course db =
    let total = count_by (λ l. l.course == course) db.lessons in
    let finished = count_by (is_finished user course db.lessons) db.progress in
    if total == 0 then false else leb total finished

-- The row of a learner in a course, or for a lesson.
abbrev pub enrolled : ℕ → ℕ → Enrollment → Bool
enrolled user course e = e.user == user && e.course == course

abbrev pub progressed : ℕ → ℕ → LessonProgress → Bool
progressed user lesson p = p.user == user && p.lesson == lesson

abbrev pub save_enrollment : (Enrollment → Enrollment) → Enrollment → Db → Db
save_enrollment columns e db = record db {
  enrollments = update_by (enrolled e.user e.course) columns db.enrollments;
}

-- `_complete_course_if_finished`
unfoldable pub complete_course_if_finished : Clock → ℕ → Enrollment → Db → Db
unfolding course_is_complete
complete_course_if_finished clock user enrollment db =
    if is_some enrollment.completed_at
    then db
    else if not (course_is_complete user enrollment.course db)
    then db
    else save_enrollment (λ e. record e { completed_at = some clock.course_done }) enrollment db

abbrev pub new_enrollment : ℕ → Lesson → Enrollment
new_enrollment user lesson = record {
  user = user;
  course = lesson.course;
  last_lesson = some lesson.pk;
  completed_at = none;
}

abbrev pub resumes_at : Option ℕ → ℕ → Bool
resumes_at none pk = false
resumes_at (some lesson) pk = lesson == pk

abbrev pub move_bookmark : Lesson → Enrollment → Enrollment
move_bookmark lesson e = record e { last_lesson = some lesson.pk }

-- `_bookmark`
unfoldable pub bookmark : ℕ → Lesson → Db → Enrollment × Db
bookmark user lesson db = elim (first_by (enrolled user lesson.course) db.enrollments) [
  | none ↦ (
    new_enrollment user lesson,
    record db { enrollments = new_enrollment user lesson ∷ db.enrollments },
  )
  | some e ↦
      if resumes_at e.last_lesson lesson.pk
      then (e, db)
      else (move_bookmark lesson e, save_enrollment (move_bookmark lesson) e db)
]

abbrev pub new_progress : ℕ → ℕ → LessonProgress
new_progress user lesson = record {
  user = user;
  lesson = lesson;
  last_position_seconds = 0;
  max_position_seconds = 0;
  watched_seconds = 0;
  completed_at = none;
}

-- `LessonProgress.objects.get_or_create`
unfoldable pub get_or_create : ℕ → ℕ → Db → LessonProgress × Db
get_or_create user lesson db = elim (first_by (progressed user lesson) db.progress) [
  | some p ↦ (p, db)
  | none ↦
      (new_progress user lesson, record db { progress = new_progress user lesson ∷ db.progress })
]

-- `progress.save(update_fields=...)`; the fields are all but the key's.
unfoldable pub save_progress : LessonProgress → Db → Result LearningError Db
save_progress p db = do
  require (admits_progress p) data_error
  ok (record db { progress = update_by (progressed p.user p.lesson) (λ r. p) db.progress })

-- `if duration: watched = min(watched, duration)`
abbrev pub cap : Option ℕ → ℕ → ℕ
cap none watched = watched
cap (some zero) watched = watched
cap (some (suc d)) watched = min watched (suc d)

-- What one heartbeat makes of a progress row.
unfoldable pub fold_heartbeat :
    Settings → Clock → Option ℕ → Heartbeat → LessonProgress → LessonProgress
unfolding is_complete
fold_heartbeat settings clock duration heartbeat p =
    let delta = min (clamp heartbeat.watched_delta_seconds) settings.max_heartbeat_seconds in
    let last = clamp heartbeat.position_seconds in
    let watched = cap duration (p.watched_seconds + delta) in
    record p {
      last_position_seconds = last;
      max_position_seconds = max p.max_position_seconds last;
      watched_seconds = watched;
      completed_at =
          if not (is_some p.completed_at) && is_complete settings watched duration
          then some clock.lesson_done
          else p.completed_at;
    }

-- The end of both services: the bookmark, and the course when the lesson has just been finished.
unfoldable pub wrap_up : Clock → ℕ → Lesson → Bool → Db → Db
unfolding bookmark complete_course_if_finished
wrap_up clock user lesson just_finished db =
    let (enrollment, db') = bookmark user lesson db in
    if just_finished then complete_course_if_finished clock user enrollment db' else db'

unfoldable pub authorize :
    Settings → Clock → Model.Db → User → Lesson → Result LearningError (Unit {0})
authorize settings clock entitlements user lesson = do
  decision ←
      or_raise
        (resolve_access settings.grace_days entitlements clock.resolver clock.override
          (account user) lesson)
        key_error
  require decision.allowed (entitlement_denied decision)

unfoldable pub record_progress :
    Settings
    → Clock
    → Model.Db
    → User
    → Lesson
    → Heartbeat
    → Db
    → Result LearningError (LessonProgress × Db)
unfolding authorize get_or_create fold_heartbeat save_progress wrap_up lesson_duration
record_progress settings clock entitlements user lesson heartbeat db = do
  authorize settings clock entitlements user lesson
  let found = get_or_create user.pk lesson.pk db
  let progress = fold_heartbeat settings clock (lesson_duration lesson.pk db) heartbeat found.0
  db' ← save_progress progress found.1
  ok (
    progress,
    wrap_up clock user.pk lesson
        (not (is_some found.0.completed_at) && is_some progress.completed_at) db',
  )

abbrev pub finish : Clock → LessonProgress → LessonProgress
finish clock p = record p { completed_at = some clock.lesson_done }

-- `mark_complete`, after the row is there: `done` is the completion date that it has.
abbrev pub mark :
    Clock → ℕ → Lesson → LessonProgress → Db → Option ℕ → Result LearningError (LessonProgress × Db)
mark clock user lesson p db (some at) = ok (p, wrap_up clock user lesson false db)
mark clock user lesson p db none = do
  db' ← save_progress (finish clock p) db
  ok (finish clock p, wrap_up clock user lesson true db')

unfoldable pub mark_complete :
    Settings → Clock → Model.Db → User → Lesson → Db → Result LearningError (LessonProgress × Db)
unfolding authorize get_or_create save_progress wrap_up
mark_complete settings clock entitlements user lesson db = do
  authorize settings clock entitlements user lesson
  let found = get_or_create user.pk lesson.pk db
  mark clock user.pk lesson found.0 found.1 found.0.completed_at
