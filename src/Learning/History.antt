-- ===== src/Learning/History.antt =====
-- Whole calls of backend/apps/learning/services.py, one after the other.
use e_platform.Prelude.{
  ℕ, ◌≡◌, ◌⊎◌, inl, inr, refl, sym, subst, Bool, true, false, not, ◌&&◌, none, some, is_some, arith,
  Option-cases,
}
use e_platform.Prelude.Members.{In}
use e_platform.Prelude.Result.{Result, ok, err}
use e_platform.Accounts.{User, account}
use e_platform.Entitlements.Resolver.{Lesson, resolve_access}
use e_platform.Entitlements.Resolver.Spec.{Entitled, resolve_access-Entitled}
use e_platform.Entitlements.Model
use e_platform.Learning.Model.{LessonProgress, Db, Settings, Clock}
use e_platform.Learning.Services.{
  Heartbeat, get_or_create, save_progress, wrap_up, record_progress, mark_complete, fold_heartbeat,
  lesson_duration, authorize, finish,
}
use e_platform.Learning.Kept.{IsKeyed, ProgressKept, Follows, Follows-trans, Follows-refl}
use e_platform.Learning.Writes.{
  get_or_create-Got, saved-Follows, wrap_up-Follows, fold-ProgressKept, finish-ProgressKept,
}

Result-cases : {E A : Type 0} (r : Result E A) → ((a : A) × (r ≡ ok a)) ⊎ ((e : E) × (r ≡ err e))
Result-cases (ok a) = inl (a, refl)
Result-cases (err e) = inr (e, refl)

-- The progress row that a call starts from.
abbrev pub before : User → Lesson → Db → LessonProgress
before user lesson db = (get_or_create user.pk lesson.pk db).0

abbrev pub started : User → Lesson → Db → Db
started user lesson db = (get_or_create user.pk lesson.pk db).1

module _ (settings : Settings) (clock : Clock) (entitlements : Model.Db) (user : User)
    (lesson : Lesson) (db : Db) where
  pub authorized-Entitled :
      authorize settings clock entitlements user lesson ≡ ok tt
      → Entitled settings.grace_days entitlements clock.resolver clock.override lesson
          (account user)
  unfolding authorize
  authorized-Entitled h =
      let decide =
        resolve_access settings.grace_days entitlements clock.resolver clock.override (account user)
          lesson in
      elim (Option-cases decide) [
        | inl e ↦ absurd (ground arith)
        | inr (d, e) ↦
            (resolve_access-Entitled settings.grace_days entitlements clock.resolver clock.override
                (account user) lesson).0
              (d, e, ground arith)
      ]

  module _ (heartbeat : Heartbeat) {p : LessonProgress} {db' : Db}
      (h : record_progress settings clock entitlements user lesson heartbeat db ≡ ok (p, db')) where
    pub beat_row :
        (authorize settings clock entitlements user lesson ≡ ok tt)
        × (p
            ≡ fold_heartbeat settings clock
                (lesson_duration lesson.pk db)
                heartbeat
                (before user lesson db))
        × ((mid : Db) × (just_finished : Bool) × (save_progress p (started user lesson db) ≡ ok mid)
            × (db' ≡ wrap_up clock user.pk lesson just_finished mid))
    unfolding record_progress
    beat_row =
        let q =
          fold_heartbeat settings clock (lesson_duration lesson.pk db) heartbeat
            (before user lesson db) in
        elim (Result-cases (authorize settings clock entitlements user lesson)) [
          | inr (e, bad) ↦ absurd (ground arith)
          | inl (u, good) ↦ elim (Result-cases (save_progress q (started user lesson db))) [
            | inr (e, bad) ↦ absurd (ground arith)
            | inl (mid, fine) ↦ (
              ground arith,
              ground arith,
              (
                mid,
                not (is_some (before user lesson db).completed_at) && is_some q.completed_at,
                ground arith,
                ground arith,
              ),
            )
          ]
        ]

  module _ {p : LessonProgress} {db' : Db}
      (h : mark_complete settings clock entitlements user lesson db ≡ ok (p, db')) where
    pub mark_row :
        (authorize settings clock entitlements user lesson ≡ ok tt)
        × (((before user lesson db).completed_at ≡ none)
              × (p ≡ finish clock (before user lesson db))
              × ((mid : Db) × (save_progress p (started user lesson db) ≡ ok mid)
                  × (db' ≡ wrap_up clock user.pk lesson true mid))
            ⊎ ((at : ℕ) × ((before user lesson db).completed_at ≡ some at)
                × (p ≡ before user lesson db)
                × (db' ≡ wrap_up clock user.pk lesson false (started user lesson db))))
    unfolding mark_complete
    mark_row =
        let q = finish clock (before user lesson db) in
        elim (Result-cases (authorize settings clock entitlements user lesson)) [
          | inr (e, bad) ↦ absurd (ground arith)
          | inl (u, good) ↦ elim (Option-cases (before user lesson db).completed_at) [
            | inr (at, was) ↦ (ground arith, inr (at, was, ground arith, ground arith))
            | inl unset ↦ elim (Result-cases (save_progress q (started user lesson db))) [
              | inr (e, bad) ↦ absurd (ground arith)
              | inl (mid, fine) ↦
                  (ground arith, inl (unset, ground arith, (mid, ground arith, ground arith)))
            ]
          ]
        ]

-- One call that went through, by anybody, at any time and with whatever the entitlements are then.
pub data Step (db : Db) : Db → Type 0 where
  beat :
      (settings : Settings) (clock : Clock) (entitlements : Model.Db) (user : User)
      (lesson : Lesson) (heartbeat : Heartbeat) (p : LessonProgress) {db' : Db}
      → record_progress settings clock entitlements user lesson heartbeat db ≡ ok (p, db')
      → Step db db'
  marked :
      (settings : Settings) (clock : Clock) (entitlements : Model.Db) (user : User)
      (lesson : Lesson) (p : LessonProgress) {db' : Db}
      → mark_complete settings clock entitlements user lesson db ≡ ok (p, db')
      → Step db db'

pub data Run (db : Db) : Db → Type 0 where
  none_yet : Run db db
  then_step : {db' db'' : Db} → Run db db' → Step db' db'' → Run db db''

pub save_wrap-Follows :
    (clock : Clock) (user : ℕ) (lesson : Lesson) (just_finished : Bool) (db : Db)
    (p q : LessonProgress) {mid db' : Db}
    → IsKeyed db
    → In p db.progress
    → ProgressKept p q
    → save_progress q db ≡ ok mid
    → db' ≡ wrap_up clock user lesson just_finished mid
    → Follows db db'
save_wrap-Follows clock user lesson just_finished db p q {mid} keyed m kept saved done =
    let a = saved-Follows db p q keyed m kept saved in
    subst (Follows db) (sym done)
      (Follows-trans a (wrap_up-Follows clock user lesson just_finished mid a.keyed))

pub Step-Follows : {db db' : Db} → IsKeyed db → Step db db' → Follows db db'
Step-Follows {db} {db'} keyed (beat settings clock ent user lesson heartbeat p h) =
    let got = get_or_create-Got user.pk lesson.pk db keyed in
    let (allowed, row, (mid, just, saved, done)) =
      beat_row settings clock ent user lesson db heartbeat h in
    Follows-trans got.follows (
      save_wrap-Follows clock user.pk lesson just (started user lesson db) (before user lesson db) p
        got.follows.keyed got.there
        (subst (ProgressKept (before user lesson db)) (sym row)
          (fold-ProgressKept settings clock (lesson_duration lesson.pk db) heartbeat _))
        saved done)
Step-Follows {db} {db'} keyed (marked settings clock ent user lesson p h) =
    let got = get_or_create-Got user.pk lesson.pk db keyed in
    let (allowed, cases) = mark_row settings clock ent user lesson db h in
    Follows-trans got.follows (elim cases [
      | inl (unset, row, (mid, saved, done)) ↦
          save_wrap-Follows clock user.pk lesson true (started user lesson db)
            (before user lesson db) p got.follows.keyed got.there
            (subst (ProgressKept (before user lesson db)) (sym row)
              (finish-ProgressKept clock _ unset))
            saved done
      | inr (at, was, row, done) ↦
          subst (Follows (started user lesson db)) (sym done)
            (wrap_up-Follows clock user.pk lesson false (started user lesson db) got.follows.keyed)
    ])

-- Any sequence of heartbeats and completion marks, by any users, keeps the rows unique and keeps
-- what was recorded: every progress row and enrolment is still there, the furthest position never
-- moves back, and a completion date that is set is neither cleared nor moved.
pub Run-Follows : {db db' : Db} → IsKeyed db → Run db db' → Follows db db'
Run-Follows {db} keyed none_yet = Follows-refl db keyed
Run-Follows keyed (then_step r s) =
    let f = Run-Follows keyed r in Follows-trans f (Step-Follows f.keyed s)
