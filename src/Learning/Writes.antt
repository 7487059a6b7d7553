-- ===== src/Learning/Writes.antt =====
-- What the writes of backend/apps/learning/services.py keep of a learner's record, one by one.
use e_platform.Prelude.{
  ℕ, ◌≡◌, inl, inr, refl, sym, subst, ◌∙◌, Bool, true, false, Option, none, some, List, [], ◌∷◌,
  arith, Bool-cases, Option-cases,
}
use e_platform.Prelude.Rows.{exists_by, first_by, update_by}
use e_platform.Prelude.Members.{In, first-In, update-In}
use e_platform.Prelude.Paired
use e_platform.Prelude.Result.{ok}
use e_platform.Entitlements.Resolver.{Lesson}
use e_platform.Learning.Model.{Enrollment, LessonProgress, Db, Settings, Clock}
use e_platform.Learning.Services.{
  Heartbeat, get_or_create, save_progress, wrap_up, bookmark, enrolled, progressed, save_enrollment,
  move_bookmark, complete_course_if_finished, course_is_complete, fold_heartbeat, finish,
  resumes_at,
}
use e_platform.Learning.Completion.{progress_user, progress_lesson}
use e_platform.Learning.Kept.{
  enrollment_user, enrollment_course, IsKeyed, Stays, ProgressKept, EnrollmentKept,
  ProgressKept-refl, EnrollmentKept-refl, Follows, Follows-trans, Follows-refl,
}

-- What first-none says of a key that no row has.
pub none-exists :
    {A : Type 0} (p : A → Bool) (xs : List A) → first_by p xs ≡ none → exists_by p xs ≡ false
none-exists p [] h = refl
none-exists p (x ∷ xs) h = ground (arith, none-exists p xs)

-- `get_or_create` leaves the row of the pair, and all others.
module _ (user lesson : ℕ) (db : Db) (keyed : IsKeyed db) where
  pub record Got (g : LessonProgress × Db) : Type 0 where
    pub own : (g.0.user ≡ user) × (g.0.lesson ≡ lesson)
    pub there : In g.0 g.1.progress
    pub follows : Follows db g.1

  pub get_or_create-Got : Got (get_or_create user lesson db)
  unfolding get_or_create
  get_or_create-Got = elim (Option-cases (first_by (progressed user lesson) db.progress)) [
    | inl e ↦
        rw (get_or_create, e)
          (record {
            own = (refl, refl);
            there = inl refl;
            follows = record {
              keyed = record {
                progress = (none-exists (progressed user lesson) db.progress e, keyed.progress);
                enrollments = keyed.enrollments;
              };
              kept = record {
                progress = λ p m. (p, inr m, ProgressKept-refl p);
                enrollments = λ x m. (x, m, EnrollmentKept-refl x);
              };
            };
          })
    | inr (p, e) ↦
        let (m, own) = first-In (progressed user lesson) p db.progress e in
        rw (get_or_create, e)
          (record {
            own = (ground arith, ground arith);
            there = m;
            follows = Follows-refl db keyed;
          })
  ]

-- Saving a row that keeps what the stored one had.
pub saved-Follows :
    (db : Db) (p q : LessonProgress) {db' : Db}
    → IsKeyed db
    → In p db.progress
    → ProgressKept p q
    → save_progress q db ≡ ok db'
    → Follows db db'
unfolding save_progress
saved-Follows db p q {db'} keyed m kept h =
    let same : record db { progress = update_by (progressed q.user q.lesson) (λ r. q) db.progress }
        ≡ db' =
      ground arith in
    subst (Follows db) same (record {
      keyed = record {
        progress =
            Paired.update-IsUnique progress_user progress_lesson q.user q.lesson (λ r. q)
              db.progress (λ t hit. (refl, refl)) keyed.progress;
        enrollments = keyed.enrollments;
      };
      kept = record {
        progress =
            Paired.update-kept progress_user progress_lesson ProgressKept q.user q.lesson (λ r. q)
              db.progress ProgressKept-refl
              (λ x k u l.
                let one : p ≡ x =
                  Paired.unique-eq progress_user progress_lesson db.progress p x keyed.progress m k
                    (sym kept.user ∙ sym u) (sym kept.lesson ∙ sym l) in
                subst (λ y. ProgressKept y q) one kept);
        enrollments = λ e k. (e, k, EnrollmentKept-refl e);
      };
    })

-- Writing columns of one enrolment.
enrollment-Follows :
    (db : Db) (e : Enrollment) (columns : Enrollment → Enrollment)
    → IsKeyed db
    → In e db.enrollments
    → ((x : Enrollment) → (columns x).user ≡ x.user)
    → ((x : Enrollment) → (columns x).course ≡ x.course)
    → Stays e.completed_at (columns e).completed_at
    → Follows db (save_enrollment columns e db)
enrollment-Follows db e columns keyed m users courses stays = record {
  keyed = record {
    progress = keyed.progress;
    enrollments =
        Paired.update-IsUnique enrollment_user enrollment_course e.user e.course columns
          db.enrollments (λ t hit. ground (arith, users t, courses t)) keyed.enrollments;
  };
  kept = record {
    progress = λ p k. (p, k, ProgressKept-refl p);
    enrollments =
        Paired.update-kept enrollment_user enrollment_course EnrollmentKept e.user e.course columns
          db.enrollments EnrollmentKept-refl
          (λ x k u c.
            let one : e ≡ x =
              Paired.unique-eq enrollment_user enrollment_course db.enrollments e x
                keyed.enrollments m k (sym u) (sym c) in
            record {
              user = users x;
              course = courses x;
              completed = subst (λ y. Stays y.completed_at (columns y).completed_at) one stays;
            });
  };
}

module _ (user : ℕ) (lesson : Lesson) (db : Db) (keyed : IsKeyed db) where
  pub record Marked (b : Enrollment × Db) : Type 0 where
    pub there : In b.0 b.1.enrollments
    pub follows : Follows db b.1

  pub bookmark-Marked : Marked (bookmark user lesson db)
  unfolding bookmark
  bookmark-Marked = elim (Option-cases (first_by (enrolled user lesson.course) db.enrollments)) [
    | inl e ↦
        rw (bookmark, e)
          (record {
            there = inl refl;
            follows = record {
              keyed = record {
                progress = keyed.progress;
                enrollments =
                    (none-exists (enrolled user lesson.course) db.enrollments e, keyed.enrollments);
              };
              kept = record {
                progress = λ p m. (p, m, ProgressKept-refl p);
                enrollments = λ x m. (x, inr m, EnrollmentKept-refl x);
              };
            };
          })
    | inr (x, e) ↦
        let (m, own) = first-In (enrolled user lesson.course) x db.enrollments e in
        elim (Bool-cases (resumes_at x.last_lesson lesson.pk)) [
          | inl stay ↦
              rw (bookmark, e, stay) (record { there = m; follows = Follows-refl db keyed })
          | inr moved ↦
              let hit : enrolled x.user x.course x ≡ true = ground arith in
              rw (bookmark, e, moved)
                (record {
                  there = rw hit at (
                      update-In (enrolled x.user x.course) (move_bookmark lesson) x db.enrollments
                        m);
                  follows =
                      enrollment-Follows db x (move_bookmark lesson) keyed m (λ y. refl) (λ y. refl)
                        (λ at h. h);
                })
        ]
  ]

pub complete_course-Follows :
    (clock : Clock) (user : ℕ) (e : Enrollment) (db : Db)
    → IsKeyed db
    → In e db.enrollments
    → Follows db (complete_course_if_finished clock user e db)
unfolding complete_course_if_finished
complete_course-Follows clock user e db keyed m = elim (Option-cases e.completed_at) [
  | inr (at, was) ↦ rw was (Follows-refl db keyed)
  | inl unset ↦ elim (Bool-cases (course_is_complete user e.course db)) [
    | inr more ↦ rw (unset, more) (Follows-refl db keyed)
    | inl all ↦
        rw (unset, all)
          (enrollment-Follows db e (λ x. record x { completed_at = some clock.course_done }) keyed m
            (λ y. refl) (λ y. refl) (λ at h. ground arith))
  ]
]

pub wrap_up-Follows :
    (clock : Clock) (user : ℕ) (lesson : Lesson) (just_finished : Bool) (db : Db)
    → IsKeyed db
    → Follows db (wrap_up clock user lesson just_finished db)
unfolding wrap_up
wrap_up-Follows clock user lesson false db keyed = (bookmark-Marked user lesson db keyed).follows
wrap_up-Follows clock user lesson true db keyed =
    let marked = bookmark-Marked user lesson db keyed in
    Follows-trans marked.follows
      (complete_course-Follows clock user _ _ marked.follows.keyed marked.there)

pub fold-ProgressKept :
    (settings : Settings) (clock : Clock) (duration : Option ℕ) (heartbeat : Heartbeat)
    (p : LessonProgress)
    → ProgressKept p (fold_heartbeat settings clock duration heartbeat p)
unfolding fold_heartbeat
fold-ProgressKept settings clock duration heartbeat p = record {
  user = refl;
  lesson = refl;
  furthest = omega arith;
  completed = λ at h. ground arith;
}

pub finish-ProgressKept :
    (clock : Clock) (p : LessonProgress) → p.completed_at ≡ none → ProgressKept p (finish clock p)
finish-ProgressKept clock p unset = record {
  user = refl;
  lesson = refl;
  furthest = omega arith;
  completed = λ at h. ground arith;
}
