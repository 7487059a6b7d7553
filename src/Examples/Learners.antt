-- ===== src/Examples/Learners.antt =====
-- A lesson of forty seconds, watched and marked by its teacher, who needs no subscription.
use e_platform.Prelude.{refl, ◌≡◌, ◌↔◌, true, some, [], ◌∷◌}
use e_platform.Prelude.Integers.{pos}
use e_platform.Prelude.Members.{In}
use e_platform.Prelude.Result.{ok}
use e_platform.Accounts.{account}
use e_platform.Entitlements.Model
use e_platform.Entitlements.Resolver.{Lesson, resolve_access}
use e_platform.Entitlements.Resolver.Spec.{Entitled, by_ownership}
use e_platform.Media.Model.{ready}
use e_platform.Media.Services.{blank_asset}
use e_platform.Learning.Model.{Db, Settings, Clock, LessonProgress, admits_progress}
use e_platform.Learning.Services.{
  Heartbeat, record_progress, mark_complete, course_is_complete, new_progress, authorize,
  get_or_create, fold_heartbeat, save_progress, wrap_up, lesson_duration, is_complete, bookmark,
  complete_course_if_finished,
}
use e_platform.Learning.Completion.{HasFinished, course_is_complete-all}
use e_platform.Learning.Kept.{IsKeyed, Follows}
use e_platform.Learning.History.{none_yet, then_step, beat, Run-Follows, before}
use e_platform.Learning.Effects.{HeartbeatEffect, OnlyWrote, record_progress-effect}
use e_platform.Learning.Remark.{mark_complete-again}
use e_platform.Examples.People.{teacher, lesson}

abbrev settings : Settings
settings = record { grace_days = 7; max_heartbeat_seconds = 60; threshold = 9; threshold_of = 10 }

abbrev clock : Clock
clock = record { override = 1; resolver = 1; lesson_done = 2; course_done = 3 }

abbrev no_plans : Model.Db
no_plans = record { subscriptions = []; events = []; overrides = []; audit = [] }

abbrev store : Db
store = record {
  lessons = lesson ∷ [];
  assets = record (blank_asset 8 7) { duration_seconds = some 40; status = ready } ∷ [];
  enrollments = [];
  progress = [];
}

abbrev watched : Heartbeat
watched = record { position_seconds = pos 38; watched_delta_seconds = pos 38 }

abbrev done : LessonProgress
done = record {
  user = 2;
  lesson = 7;
  last_position_seconds = 38;
  max_position_seconds = 38;
  watched_seconds = 38;
  completed_at = some 2;
}

abbrev watched_store : Db
watched_store = record store {
  enrollments = record { user = 2; course = 5; last_lesson = some 7; completed_at = some 3 } ∷ [];
  progress = done ∷ [];
}

watches :
    record_progress settings clock no_plans teacher lesson watched store ≡ ok (done, watched_store)
unfolding record_progress authorize get_or_create fold_heartbeat save_progress wrap_up
    lesson_duration is_complete bookmark complete_course_if_finished course_is_complete
    admits_progress resolve_access
watches = refl

nothing_stored : IsKeyed store
nothing_stored = record { progress = tt; enrollments = tt }

record_progress-effect_example :
    Entitled 7 no_plans 1 1 lesson (account teacher)
    × HeartbeatEffect settings (lesson_duration 7 store) (before teacher lesson store) done
    × In done watched_store.progress
    × ((done.user ≡ teacher.pk) × (done.lesson ≡ lesson.pk))
    × OnlyWrote store watched_store done
record_progress-effect_example =
    record_progress-effect settings clock no_plans teacher lesson watched store nothing_stored
      watches

Run-Follows_example : Follows store watched_store
Run-Follows_example =
    Run-Follows nothing_stored
      (then_step none_yet (beat settings clock no_plans teacher lesson watched done watches))

course_is_complete-all_example : (course_is_complete 2 5 watched_store ≡ true) ↔ (
    ((l : Lesson) × In l watched_store.lessons × (l.course ≡ 5))
    × ((l : Lesson) → In l watched_store.lessons → l.course ≡ 5 → HasFinished 2 watched_store l))
course_is_complete-all_example = course_is_complete-all 2 5 watched_store ((λ m. m), tt) (refl, tt)

abbrev marked_row : LessonProgress
marked_row = record (new_progress 2 7) { completed_at = some 2 }

abbrev marked_store : Db
marked_store = record watched_store { progress = marked_row ∷ [] }

marks : mark_complete settings clock no_plans teacher lesson store ≡ ok (marked_row, marked_store)
unfolding mark_complete authorize get_or_create save_progress wrap_up bookmark
    complete_course_if_finished course_is_complete admits_progress resolve_access
marks = refl

abbrev later : Clock
later = record { override = 50; resolver = 50; lesson_done = 51; course_done = 52 }

mark_complete-again_example :
    mark_complete settings later no_plans teacher lesson marked_store
    ≡ ok (marked_row, marked_store)
mark_complete-again_example =
    mark_complete-again settings clock no_plans teacher lesson store marked_row marked_store
      nothing_stored marks settings later no_plans (by_ownership teacher refl)
