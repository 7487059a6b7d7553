-- ===== src/Learning/Remark.antt =====
-- `mark_complete` of backend/apps/learning/services.py, called again.
use e_platform.Prelude.{
  ℕ, ◌≡◌, inl, inr, refl, sym, subst, ap, ◌∙◌, Bool, true, false, some, is_some, arith, Bool-cases,
  Option-cases, ==-refl,
}
use e_platform.Prelude.Rows.{first_by, update_by}
use e_platform.Prelude.Members.{In, first-In, update-In}
use e_platform.Prelude.Paired
use e_platform.Prelude.Result.{ok}
use e_platform.Accounts.{User, account}
use e_platform.Entitlements.Resolver.{Lesson}
use e_platform.Entitlements.Resolver.Spec.{Entitled, resolve_access-Entitled}
use e_platform.Entitlements.Model
use e_platform.Learning.Model.{Enrollment, LessonProgress, Db, Settings, Clock}
use e_platform.Learning.Services.{
  get_or_create, save_progress, wrap_up, mark_complete, bookmark, authorize, enrolled, progressed,
  resumes_at, move_bookmark, complete_course_if_finished, course_is_complete,
}
use e_platform.Learning.Completion.{progress_user, progress_lesson}
use e_platform.Learning.Kept.{IsKeyed, enrollment_user, enrollment_course}
use e_platform.Learning.Writes.{get_or_create-Got}
use e_platform.Learning.History.{before, started, mark_row, Step-Follows, marked}

-- The learner's enrolment in the lesson's course resumes at the lesson.
abbrev At : ℕ → Lesson → Db → Type 0
At user lesson db =
    (e : Enrollment) × In e db.enrollments
    × (e.user ≡ user)
    × (e.course ≡ lesson.course)
    × (resumes_at e.last_lesson lesson.pk ≡ true)

bookmark-At : (user : ℕ) (lesson : Lesson) (db : Db) → At user lesson (bookmark user lesson db).1
unfolding bookmark
bookmark-At user lesson db =
    elim (Option-cases (first_by (enrolled user lesson.course) db.enrollments)) [
      | inl e ↦ rw (bookmark, e) (_, inl refl, refl, refl, ==-refl lesson.pk)
      | inr (x, e) ↦
          let (m, own) = first-In (enrolled user lesson.course) x db.enrollments e in
          elim (Bool-cases (resumes_at x.last_lesson lesson.pk)) [
            | inl stay ↦ rw (bookmark, e, stay) (x, m, ground arith, ground arith, stay)
            | inr moved ↦
                let hit : enrolled x.user x.course x ≡ true = ground arith in
                rw (bookmark, e, moved)
                  (
                    move_bookmark lesson x,
                    rw hit at (
                        update-In (enrolled x.user x.course) (move_bookmark lesson) x db.enrollments
                          m),
                    ground arith,
                    ground arith,
                    ==-refl lesson.pk,
                  )
          ]
    ]

abbrev SameBookmark : Enrollment → Enrollment → Type 0
SameBookmark e f = (f.user ≡ e.user) × (f.course ≡ e.course) × (f.last_lesson ≡ e.last_lesson)

complete_course-At :
    (clock : Clock) (user : ℕ) (lesson : Lesson) (e : Enrollment) (db : Db)
    → At user lesson db
    → At user lesson (complete_course_if_finished clock user e db)
unfolding complete_course_if_finished
complete_course-At clock user lesson e db h = elim (Bool-cases (is_some e.completed_at)) [
  | inl was ↦ rw was h
  | inr unset ↦ elim (Bool-cases (course_is_complete user e.course db)) [
    | inr more ↦ rw (unset, more) h
    | inl all ↦
        let (x, m, u, c, at) = h in
        let (y, k, (su, sc, sl)) =
          Paired.update-kept enrollment_user enrollment_course SameBookmark e.user e.course
            (λ f. record f { completed_at = some clock.course_done }) db.enrollments
            (λ f. (refl, refl, refl)) (λ f k u c. (refl, refl, refl)) x m in
        rw (unset, all) (y, k, su ∙ u, sc ∙ c, ap (λ o. resumes_at o lesson.pk) sl ∙ at)
  ]
]

wrap_up-At :
    (clock : Clock) (user : ℕ) (lesson : Lesson) (just_finished : Bool) (db : Db)
    → At user lesson (wrap_up clock user lesson just_finished db)
unfolding wrap_up
wrap_up-At clock user lesson false db = bookmark-At user lesson db
wrap_up-At clock user lesson true db =
    complete_course-At clock user lesson (bookmark user lesson db).0 (bookmark user lesson db).1
      (bookmark-At user lesson db)

-- The services write the progress table before they wrap up.
pub wrap_up-progress :
    (clock : Clock) (user : ℕ) (lesson : Lesson) (just_finished : Bool) (db : Db)
    → (wrap_up clock user lesson just_finished db).progress ≡ db.progress
unfolding wrap_up bookmark complete_course_if_finished
wrap_up-progress clock user lesson just_finished db = ground arith

-- A bookmark that is there already writes nothing.
rebookmark :
    (user : ℕ) (lesson : Lesson) (db : Db)
    → IsKeyed db
    → At user lesson db
    → (bookmark user lesson db).1 ≡ db
unfolding bookmark
rebookmark user lesson db keyed (e, m, u, c, at) =
    let found =
      Paired.find_pair enrollment_user enrollment_course db.enrollments e keyed.enrollments m in
    let here : first_by (enrolled user lesson.course) db.enrollments ≡ some e =
      subst (λ n. first_by (enrolled n lesson.course) db.enrollments ≡ some e) u
        (subst (λ n. first_by (enrolled e.user n) db.enrollments ≡ some e) c found) in
    ground arith

pub saved-In :
    (p q : LessonProgress) (db : Db) {db' : Db}
    → In p db.progress
    → q.user ≡ p.user
    → q.lesson ≡ p.lesson
    → save_progress q db ≡ ok db'
    → In q db'.progress
unfolding save_progress
saved-In p q db {db'} m u l h =
    let hit : progressed q.user q.lesson p ≡ true = ground arith in
    let same : update_by (progressed q.user q.lesson) (λ r. q) db.progress ≡ db'.progress =
      ground arith in
    subst (In q) same (rw hit at (update-In (progressed q.user q.lesson) (λ r. q) p db.progress m))

Entitled-authorized :
    (settings : Settings) (clock : Clock) (entitlements : Model.Db) (user : User) (lesson : Lesson)
    → Entitled settings.grace_days entitlements clock.resolver clock.override lesson (account user)
    → authorize settings clock entitlements user lesson ≡ ok tt
unfolding authorize
Entitled-authorized settings clock ent user lesson h =
    let (d, e, yes_it_does) =
      (resolve_access-Entitled settings.grace_days ent clock.resolver clock.override (account user)
          lesson).1
        h in
    ground arith

-- A call on a store where the row is completed and the bookmark is there changes nothing.
mark_again :
    (settings : Settings) (clock : Clock) (entitlements : Model.Db) (user : User) (lesson : Lesson)
    (db : Db) (p : LessonProgress) (at : ℕ)
    → IsKeyed db
    → authorize settings clock entitlements user lesson ≡ ok tt
    → In p db.progress
    → p.user ≡ user.pk
    → p.lesson ≡ lesson.pk
    → p.completed_at ≡ some at
    → At user.pk lesson db
    → mark_complete settings clock entitlements user lesson db ≡ ok (p, db)
unfolding mark_complete get_or_create wrap_up
mark_again settings clock ent user lesson db p at keyed allowed m u l done here =
    let found = Paired.find_pair progress_user progress_lesson db.progress p keyed.progress m in
    let row : first_by (progressed user.pk lesson.pk) db.progress ≡ some p =
      subst (λ n. first_by (progressed n lesson.pk) db.progress ≡ some p) u
        (subst (λ n. first_by (progressed p.user n) db.progress ≡ some p) l found) in
    let same = rebookmark user.pk lesson db keyed here in
    rw (mark_complete, allowed, get_or_create, row, done) (rw same refl)

module _ (settings : Settings) (clock : Clock) (entitlements : Model.Db) (user : User)
    (lesson : Lesson) (db : Db) (p : LessonProgress) (db' : Db) (keyed : IsKeyed db)
    (h : mark_complete settings clock entitlements user lesson db ≡ ok (p, db')) where
  -- What the first call left.
  record Left : Type 0 where
    there : In p db'.progress
    own : (p.user ≡ user.pk) × (p.lesson ≡ lesson.pk)
    done : (at : ℕ) × (p.completed_at ≡ some at)
    here : At user.pk lesson db'

  left : Left
  left =
      let got = get_or_create-Got user.pk lesson.pk db keyed in
      let (own_user, own_lesson) = got.own in
      let (allowed, cases) = mark_row settings clock entitlements user lesson db h in
      elim cases [
        | inl (unset, row, (mid, saved, wrapped)) ↦
            let at_user : p.user ≡ user.pk = ap (λ r. r.user) row ∙ own_user in
            let at_lesson : p.lesson ≡ lesson.pk = ap (λ r. r.lesson) row ∙ own_lesson in
            record {
              there =
                  subst (λ t. In p t.progress) (sym wrapped)
                    (subst (In p) (sym (wrap_up-progress clock user.pk lesson true mid)) (
                      saved-In (before user lesson db) p (started user lesson db) got.there
                        (at_user ∙ sym own_user) (at_lesson ∙ sym own_lesson) saved));
              own = (at_user, at_lesson);
              done = (clock.lesson_done, ap (λ r. r.completed_at) row);
              here =
                  subst (At user.pk lesson) (sym wrapped)
                    (wrap_up-At clock user.pk lesson true mid);
            }
        | inr (at, was, row, wrapped) ↦ record {
          there =
              subst (λ t. In p t.progress) (sym wrapped)
                (subst (In p)
                  (sym (wrap_up-progress clock user.pk lesson false (started user lesson db)))
                  (subst (λ r. In r (started user lesson db).progress) (sym row) got.there));
          own = (ap (λ r. r.user) row ∙ own_user, ap (λ r. r.lesson) row ∙ own_lesson);
          done = (at, ap (λ r. r.completed_at) row ∙ was);
          here =
              subst (At user.pk lesson) (sym wrapped)
                (wrap_up-At clock user.pk lesson false (started user lesson db));
        }
      ]

  -- After a `mark_complete` that went through, the same call by a learner who is still entitled
  -- returns the same row and changes nothing in the store, at any later time and under any
  -- settings.
  pub mark_complete-again :
      (settings' : Settings) (clock' : Clock) (entitlements' : Model.Db)
      → Entitled settings'.grace_days entitlements' clock'.resolver clock'.override lesson
          (account user)
      → mark_complete settings' clock' entitlements' user lesson db' ≡ ok (p, db')
  mark_complete-again settings' clock' entitlements' entitled =
      let (at, done) = left.done in
      let (u, l) = left.own in
      mark_again settings' clock' entitlements' user lesson db' p at
        (Step-Follows keyed (marked settings clock entitlements user lesson p h)).keyed
        (Entitled-authorized settings' clock' entitlements' user lesson entitled) left.there u l
        done left.here
