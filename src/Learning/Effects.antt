-- ===== src/Learning/Effects.antt =====
-- What one heartbeat may write (backend/apps/learning/services.py).
use e_platform.Prelude.{
  ℕ, zero, suc, ◌+◌, ◌*◌, ◌≤◌, ◌<◌, ◌≡◌, ◌⊎◌, inl, inr, refl, sym, subst, true, Option, none, some,
  arith, Bool-cases, Option-cases, min, ap, ◌∙◌, false, ◌∷◌, ==-refl,
}
use e_platform.Prelude.Rows.{update_by, first_by}
use e_platform.Prelude.Members.{In, In-update}
use e_platform.Prelude.Integers.{clamp}
use e_platform.Prelude.Result.{ok}
use e_platform.Accounts.{User, account}
use e_platform.Entitlements.Resolver.{Lesson}
use e_platform.Entitlements.Resolver.Spec.{Entitled}
use e_platform.Entitlements.Model
use e_platform.Learning.Model.{LessonProgress, Db, Settings, Clock}
use e_platform.Learning.Services.{
  Heartbeat, record_progress, fold_heartbeat, cap, lesson_duration, is_complete, save_progress,
  progressed, get_or_create, new_progress,
}
use e_platform.Learning.History.{before, started, authorized-Entitled, beat_row}
use e_platform.Learning.Kept.{IsKeyed}
use e_platform.Learning.Writes.{get_or_create-Got}
use e_platform.Learning.Remark.{wrap_up-progress, saved-In}

-- Enough of a lesson of known length was watched.
abbrev pub WatchedEnough : Settings → Option ℕ → ℕ → Type 0
WatchedEnough settings duration watched =
    (d : ℕ) × (duration ≡ some d)
    × (0 < d)
    × (d * settings.threshold ≤ watched * settings.threshold_of)

is_complete-WatchedEnough :
    (settings : Settings) (watched : ℕ) (duration : Option ℕ)
    → is_complete settings watched duration ≡ true
    → WatchedEnough settings duration watched
unfolding is_complete
is_complete-WatchedEnough settings watched none h = cc
is_complete-WatchedEnough settings watched (some zero) h = cc
is_complete-WatchedEnough settings watched (some (suc d)) h =
    (suc d, refl, omega arith, ground arith)

-- No more than the lesson's length, where that is known.
abbrev pub WithinLesson : Option ℕ → ℕ → Type 0
WithinLesson none watched = Unit
WithinLesson (some zero) watched = Unit
WithinLesson (some (suc d)) watched = watched ≤ suc d

pub record HeartbeatEffect (settings : Settings) (duration : Option ℕ) (old p : LessonProgress)
    : Type 0 where
  pub gained : p.watched_seconds ≤ old.watched_seconds + settings.max_heartbeat_seconds
  pub capped : WithinLesson duration p.watched_seconds
  pub position : p.last_position_seconds ≤ p.max_position_seconds
  pub completed :
      (p.completed_at ≡ old.completed_at)
      ⊎ ((old.completed_at ≡ none) × WatchedEnough settings duration p.watched_seconds)

cap-le : (duration : Option ℕ) (watched : ℕ) → cap duration watched ≤ watched
cap-le none watched = omega arith
cap-le (some zero) watched = omega arith
cap-le (some (suc d)) watched = omega arith

cap-WithinLesson :
    (duration : Option ℕ) (watched : ℕ) → WithinLesson duration (cap duration watched)
cap-WithinLesson none watched = tt
cap-WithinLesson (some zero) watched = tt
cap-WithinLesson (some (suc d)) watched = omega arith

fold-HeartbeatEffect :
    (settings : Settings) (clock : Clock) (duration : Option ℕ) (heartbeat : Heartbeat)
    (old : LessonProgress)
    → HeartbeatEffect settings duration old (fold_heartbeat settings clock duration heartbeat old)
unfolding fold_heartbeat
fold-HeartbeatEffect settings clock duration heartbeat old =
    let new = fold_heartbeat settings clock duration heartbeat old in
    record {
      gained = omega (
        arith,
        cap-le duration (
            old.watched_seconds
            + min (clamp heartbeat.watched_delta_seconds) settings.max_heartbeat_seconds),
      );
      capped = cap-WithinLesson duration _;
      position = omega arith;
      completed = elim (Bool-cases (is_complete settings new.watched_seconds duration)) [
        | inr less ↦ inl (ground arith)
        | inl enough ↦ elim (Option-cases old.completed_at) [
          | inr (at, was) ↦ inl (ground arith)
          | inl unset ↦
              inr (unset, is_complete-WatchedEnough settings new.watched_seconds duration enough)
        ]
      ];
    }

-- Every row of the table after a save is the saved one, or one of another pair of learner and lesson.
abbrev pub OnlyWrote : Db → Db → LessonProgress → Type 0
OnlyWrote db db' p =
    (q : LessonProgress)
    → In q db'.progress
    → (q ≡ p) ⊎ (In q db.progress × (progressed p.user p.lesson q ≡ false))

saved-OnlyWrote :
    (p : LessonProgress) (db : Db) {mid : Db} → save_progress p db ≡ ok mid → OnlyWrote db mid p
unfolding save_progress
saved-OnlyWrote p db {mid} h =
    let rows : mid.progress ≡ update_by (progressed p.user p.lesson) (λ r. p) db.progress =
      ground arith in
    λ q m.
      let (x, k, e) =
        In-update (progressed p.user p.lesson) (λ r. p) q db.progress (subst (In q) rows m) in
      elim (Bool-cases (progressed p.user p.lesson x)) [
        | inl hit ↦ inl (rw hit at e)
        | inr miss ↦
            let left : q ≡ x = rw miss at e in
            inr (
              subst (λ y. In y db.progress × (progressed p.user p.lesson y ≡ false)) (sym left)
                (k, miss))
      ]

-- Starting a row adds at most that row, for the pair itself.
started-others :
    (user : User) (lesson : Lesson) (db : Db) (q : LessonProgress)
    → In q (started user lesson db).progress
    → progressed user.pk lesson.pk q ≡ false
    → In q db.progress
unfolding get_or_create
started-others user lesson db q m other =
    elim (Option-cases (first_by (progressed user.pk lesson.pk) db.progress)) [
      | inr (p, found) ↦
          let rows : (started user lesson db).progress ≡ db.progress = rw (started, found) refl in
          subst (In q) rows m
      | inl absent ↦
          let rows : (started user lesson db).progress
              ≡ new_progress user.pk lesson.pk ∷ db.progress =
            rw (started, absent) refl in
          elim (subst (In q) rows m) [
            | inr k ↦ k
            | inl new ↦
                let own = ==-refl user.pk in let at = ==-refl lesson.pk in absurd (ground arith)
          ]
    ]

-- In a store with one row for a learner and a lesson (and one enrolment for a learner and a course),
-- a heartbeat that is recorded was sent by a learner entitled to the lesson, and leaves the row that
-- is returned in the table: the learner's for the lesson, and the only one of theirs for it; every
-- other row of the table was there before. That row has at most PROGRESS_MAX_HEARTBEAT_SECONDS of
-- watching more than before, never more than the known length of the lesson; the playhead is not
-- beyond the furthest position; and the lesson is completed by it only if it was not completed
-- before and enough of its known length was watched.
pub record_progress-effect :
    (settings : Settings) (clock : Clock) (entitlements : Model.Db) (user : User) (lesson : Lesson)
    (heartbeat : Heartbeat) (db : Db) {p : LessonProgress} {db' : Db}
    → IsKeyed db
    → record_progress settings clock entitlements user lesson heartbeat db ≡ ok (p, db')
    → Entitled settings.grace_days entitlements clock.resolver clock.override lesson (account user)
      × HeartbeatEffect settings (lesson_duration lesson.pk db) (before user lesson db) p
      × In p db'.progress
      × ((p.user ≡ user.pk) × (p.lesson ≡ lesson.pk))
      × OnlyWrote db db' p
unfolding fold_heartbeat
record_progress-effect settings clock ent user lesson heartbeat db {p} {db'} keyed h =
    let (allowed, row, (mid, just, saved, done)) =
      beat_row settings clock ent user lesson db heartbeat h in
    let got = get_or_create-Got user.pk lesson.pk db keyed in
    let (own_user, own_lesson) = got.own in
    let at_user : p.user ≡ user.pk = ap (λ r. r.user) row ∙ own_user in
    let at_lesson : p.lesson ≡ lesson.pk = ap (λ r. r.lesson) row ∙ own_lesson in
    let table : db'.progress ≡ mid.progress =
      ap (λ d. d.progress) done ∙ wrap_up-progress clock user.pk lesson just mid in
    (
      authorized-Entitled settings clock ent user lesson db allowed,
      subst (HeartbeatEffect settings (lesson_duration lesson.pk db) (before user lesson db))
          (sym row)
          (fold-HeartbeatEffect settings clock (lesson_duration lesson.pk db) heartbeat _),
      subst (In p) (sym table) (
          saved-In (before user lesson db) p (started user lesson db) got.there
            (at_user ∙ sym own_user) (at_lesson ∙ sym own_lesson) saved),
      (at_user, at_lesson),
      λ q m. elim (saved-OnlyWrote p (started user lesson db) saved q (subst (In q) table m)) [
        | inl e ↦ inl e
        | inr (k, other) ↦
            let apart : progressed user.pk lesson.pk q ≡ false =
              subst (λ n. progressed n lesson.pk q ≡ false) at_user
                (subst (λ n. progressed p.user n q ≡ false) at_lesson other) in
            inr (started-others user lesson db q k apart, other)
      ],
    )
