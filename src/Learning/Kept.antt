-- ===== src/Learning/Kept.antt =====
-- What it is for a learner's record to be kept, from one store of backend/apps/learning to the next.
use e_platform.Prelude.{ℕ, ◌≤◌, ◌≡◌, refl, ◌∙◌, Option, some, arith}
use e_platform.Prelude.Members.{In}
use e_platform.Prelude.Paired
use e_platform.Learning.Model.{Enrollment, LessonProgress, Db}
use e_platform.Learning.Completion.{progress_user, progress_lesson}

abbrev pub enrollment_user : Enrollment → ℕ
enrollment_user e = e.user

abbrev pub enrollment_course : Enrollment → ℕ
enrollment_course e = e.course

-- The unique constraints of the two tables.
pub record IsKeyed (db : Db) : Type 0 where
  pub progress : Paired.IsUnique progress_user progress_lesson db.progress
  pub enrollments : Paired.IsUnique enrollment_user enrollment_course db.enrollments

-- A completion date that is set stays.
abbrev pub Stays : Option ℕ → Option ℕ → Type 0
Stays before after = (at : ℕ) → before ≡ some at → after ≡ some at

pub record ProgressKept (p q : LessonProgress) : Type 0 where
  pub user : q.user ≡ p.user
  pub lesson : q.lesson ≡ p.lesson
  pub furthest : p.max_position_seconds ≤ q.max_position_seconds
  pub completed : Stays p.completed_at q.completed_at

pub record EnrollmentKept (e f : Enrollment) : Type 0 where
  pub user : f.user ≡ e.user
  pub course : f.course ≡ e.course
  pub completed : Stays e.completed_at f.completed_at

pub record Kept (db db' : Db) : Type 0 where
  pub progress :
      (p : LessonProgress)
      → In p db.progress
      → (q : LessonProgress) × In q db'.progress × ProgressKept p q
  pub enrollments :
      (e : Enrollment)
      → In e db.enrollments
      → (f : Enrollment) × In f db'.enrollments × EnrollmentKept e f

pub ProgressKept-refl : (p : LessonProgress) → ProgressKept p p
ProgressKept-refl p = record {
  user = refl;
  lesson = refl;
  furthest = omega arith;
  completed = λ at e. e;
}

pub EnrollmentKept-refl : (e : Enrollment) → EnrollmentKept e e
EnrollmentKept-refl e = record { user = refl; course = refl; completed = λ at h. h }

ProgressKept-trans :
    {p q r : LessonProgress} → ProgressKept p q → ProgressKept q r → ProgressKept p r
ProgressKept-trans h k = record {
  user = k.user ∙ h.user;
  lesson = k.lesson ∙ h.lesson;
  furthest = omega (arith, h.furthest, k.furthest);
  completed = λ at e. k.completed at (h.completed at e);
}

EnrollmentKept-trans :
    {e f g : Enrollment} → EnrollmentKept e f → EnrollmentKept f g → EnrollmentKept e g
EnrollmentKept-trans h k = record {
  user = k.user ∙ h.user;
  course = k.course ∙ h.course;
  completed = λ at e. k.completed at (h.completed at e);
}

pub Kept-refl : (db : Db) → Kept db db
Kept-refl db = record {
  progress = λ p m. (p, m, ProgressKept-refl p);
  enrollments = λ e m. (e, m, EnrollmentKept-refl e);
}

pub Kept-trans : {a b c : Db} → Kept a b → Kept b c → Kept a c
Kept-trans h k = record {
  progress = λ p m.
      let (q, n, s) = h.progress p m in
      let (r, o, t) = k.progress q n in (r, o, ProgressKept-trans s t);
  enrollments = λ e m.
      let (f, n, s) = h.enrollments e m in
      let (g, o, t) = k.enrollments f n in (g, o, EnrollmentKept-trans s t);
}

-- A store that follows another.
pub record Follows (db db' : Db) : Type 0 where
  pub keyed : IsKeyed db'
  pub kept : Kept db db'

pub Follows-trans : {a b c : Db} → Follows a b → Follows b c → Follows a c
Follows-trans h k = record { keyed = k.keyed; kept = Kept-trans h.kept k.kept }

pub Follows-refl : (db : Db) → IsKeyed db → Follows db db
Follows-refl db keyed = record { keyed = keyed; kept = Kept-refl db }
