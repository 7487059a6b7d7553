-- ===== src/Examples/People.antt =====
-- The accounts and the lesson of the examples.
use e_platform.Prelude.{true, false}
use e_platform.Prelude.Text.{codes}
use e_platform.Accounts.{User, student, instructor, admin}
use e_platform.Entitlements.Resolver.{Lesson}

abbrev pub learner : User
learner = record {
  pk = 1;
  email = codes "l@x.org";
  password = codes "hash";
  role = student;
  is_email_verified = false;
  is_staff = false;
  is_superuser = false;
  is_active = true;
}

abbrev pub teacher : User
teacher = record learner { pk = 2; role = instructor }

abbrev pub manager : User
manager = record learner { pk = 3; role = admin }

abbrev pub lesson : Lesson
lesson = record { pk = 7; course = 5; instructor = 2; is_preview = false }
